-- ===== src/Sleep/Account.antt =====
-- What becomes of the coroutines that sleep in timer.cpp, across the timer and the scheduler.
pub mod Queues
pub mod Conserved
use mathlib.Core.Option
use cnerium.Prelude.{
  ℕ, ◌+◌, ◌≡◌, refl, sym, ◌∙◌, ap, Bool, true, false, ◌||◌, Option, none, some, List, [], ◌∷◌, ◌++◌,
  arith, Bool-cases, Option-cases, inl, inr, if◌then◌else◌, ◌==◌, total, total-append,
}
use cnerium.Cancel.{Flags, CancelToken}
use cnerium.Scheduler
use cnerium.Scheduler.{Handle, null, Scheduler, Work, resumes, calls, post_fn, post, post_handle}
use cnerium.ThreadPool.Submit.{weigh}
use cnerium.Timer
use cnerium.Timer.{Fate, fires, cancels, clears, sleep_job, sleep_suspend}
use cnerium.Timer.Account
use cnerium.Timer.Account.{entry_weight, held, fate_weight, accepted, step-weight}
use cnerium.Sleep.{
  Callable, job, other, System, Event, sleeps, stops_timer, passes, moves, posts, posts_fn, stops,
  resets, enters, turns, Resumption, ctx_post, ctx_post_all, run_work, run_all, on_timer, on_sched,
  sleep_for, step, exec,
}

abbrev pub Unstopped : {G : Type 0} → List (Event G) → Type 0
Unstopped [] = Unit
Unstopped (stops ∷ es) = ⊥
Unstopped (_ ∷ es) = Unstopped es

module _ (v : Handle → ℕ) where
  -- A weight on coroutines, of which null has none, by the resumptions and by what is destroyed.
  abbrev pub resumed_weight : Resumption → ℕ
  resumed_weight r = weigh v r.handle

  abbrev pub lost_weight : Fate Handle → ℕ
  lost_weight (fires at e) = 0
  lost_weight (cancels e) = entry_weight (weigh v) e
  lost_weight (clears e) = entry_weight (weigh v) e

  -- What waits: in the hands of the timer thread, in its queue, as a job, and as a coroutine.
  abbrev pub in_timer : Timer.World Handle → ℕ
  in_timer w = held (weigh v) w.loop + total (entry_weight (weigh v)) w.timer.q

module _ {G : Type 0} (v : Handle → ℕ) where
  abbrev pub call_weight : Option (Callable G) → ℕ
  call_weight (some (job h)) = weigh v h
  call_weight _ = 0

  abbrev pub in_sched : Scheduler (Callable G) → ℕ
  in_sched s = total (weigh v) s.handle_q + total call_weight s.fn_q

  -- What is lost: entries with a cancelled token, those in the timer when it is stopped, and sleeps
  -- that begin on a stopped timer.
  abbrev pub lost_at : System G → Event G → ℕ
  lost_at s stops_timer = total (lost_weight v) (Timer.step s.clocked Timer.Event.stops).1
  lost_at s (sleeps d h ct) =
      if d == 0 then 0 else if s.clocked.timer.stop_flag then weigh v h else 0
  lost_at s (moves m) = total (lost_weight v) (Timer.step s.clocked (Timer.Event.moves m)).1
  lost_at s _ = 0

  abbrev pub lost : System G → List (Event G) → ℕ
  lost s [] = 0
  lost s (e ∷ es) = lost_at s e + lost (step s e).0 es

  -- What is to be resumed: the sleeps of some time, and the direct posts.
  abbrev pub asked : List (Event G) → ℕ
  asked [] = 0
  asked (sleeps d h ct ∷ es) = (if d == 0 then 0 else weigh v h) + asked es
  asked (posts h ∷ es) = weigh v h + asked es
  asked (_ ∷ es) = asked es

  abbrev pub waiting : System G → ℕ
  waiting s = in_timer v s.clocked + in_sched s.sched
