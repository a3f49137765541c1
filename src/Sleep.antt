-- ===== src/Sleep.antt =====
-- A sleep from its await to its resumption: src/core/timer.cpp with include/vix/async/core/scheduler.hpp.
-- The timer thread posts the job of an entry to the scheduler of its context, the loop of `run` calls
-- the job, which posts the coroutine, and resumes that in a later turn. A `G` is a callable of others.
pub mod Early
pub mod Account
pub mod Wakeup
pub mod Tests
use cnerium.Prelude.{ℕ, Option, none, some, List, [], ◌∷◌, ◌++◌, if◌then◌else◌}
use mathlib.Core.Option
use cnerium.Cancel.{Flags, CancelToken}
use cnerium.Scheduler
use cnerium.Scheduler.{Handle, Scheduler, Work, resumes, calls, post_fn}
use cnerium.Timer
use cnerium.Timer.{Fate, fires, cancels, clears, sleep_ready, sleep_suspend, sleep_job}

pub data Callable (G : Type 0) : Type 0 where
  job : Handle → Callable G
  other : G → Callable G

pub record System (G : Type 0) : Type 0 where
  pub clocked : Timer.World Handle
  pub sched : Scheduler (Callable G)

-- What happens, in some order: awaits of `sleep_for`, calls of the timer's `stop`, time, the moves of
-- the timer thread with the flags at that time, and what happens to the scheduler.
pub data Event (G : Type 0) : Type 0 where
  sleeps : ℕ → Handle → CancelToken → Event G
  stops_timer : Event G
  passes : ℕ → Event G
  moves : Flags → Event G
  posts : Handle → Event G
  posts_fn : Option G → Event G
  stops : Event G
  resets : Event G
  enters : Event G
  turns : Event G

-- A coroutine that is resumed, with the time.
pub record Resumption : Type 0 where
  pub at : ℕ
  pub handle : Handle

module _ {G : Type 0} where
  -- The end of a round of `timer_loop`: `ctx_post` of a callable that runs the job.
  unfoldable pub ctx_post : Scheduler (Callable G) → Fate Handle → Scheduler (Callable G)
  unfolding post_fn
  ctx_post sched (fires at e) = elim e.j [ none ↦ sched | some h ↦ post_fn sched (some (job h)) ]
  ctx_post sched (cancels e) = sched
  ctx_post sched (clears e) = sched

  unfoldable pub ctx_post_all : Scheduler (Callable G) → List (Fate Handle) → Scheduler (Callable G)
  unfolding ctx_post
  ctx_post_all sched [] = sched
  ctx_post_all sched (f ∷ fs) = ctx_post_all (ctx_post sched f) fs

  -- What the loop of `run` took: a coroutine that it resumes, or a callable that it calls.
  unfoldable pub run_work : System G → Work (Callable G) → System G × List Resumption
  unfolding sleep_job
  run_work s (resumes h) = (s, record { at = s.clocked.now; handle = h } ∷ [])
  run_work s (calls (job h)) = (record s { sched = sleep_job h s.sched }, [])
  run_work s (calls (other g)) = (s, [])

  unfoldable pub run_all : System G → List (Work (Callable G)) → System G × List Resumption
  unfolding run_work
  run_all s [] = (s, [])
  run_all s (w ∷ ws) =
      let (s1, now) = run_work s w in let (s2, later) = run_all s1 ws in (s2, now ++ later)

  unfoldable pub on_timer : System G → Timer.Event Handle → System G × List Resumption
  unfolding ctx_post_all Timer.step
  on_timer s e =
      let (w, fates) = Timer.step s.clocked e in
      (record { clocked = w; sched = ctx_post_all s.sched fates }, [])

  unfoldable pub on_sched : System G → Scheduler.Event (Callable G) → System G × List Resumption
  unfolding run_all Scheduler.step
  on_sched s e =
      let (sched, work) = Scheduler.step s.sched e in run_all (record s { sched = sched }) work

  -- `sleep_for`, up to its suspension.
  unfoldable pub sleep_for : System G → ℕ → Handle → CancelToken → System G
  unfolding sleep_ready sleep_suspend
  sleep_for s d h ct = if sleep_ready d then s else record s {
    clocked = record s.clocked { timer = sleep_suspend s.clocked.timer s.clocked.now d h ct };
  }

  unfoldable pub step : System G → Event G → System G × List Resumption
  unfolding sleep_for on_timer on_sched
  step s (sleeps d h ct) = (sleep_for s d h ct, [])
  step s stops_timer = on_timer s Timer.Event.stops
  step s (passes d) = on_timer s (Timer.Event.passes d)
  step s (moves m) = on_timer s (Timer.Event.moves m)
  step s (posts h) = on_sched s (Scheduler.Event.posts h)
  step s (posts_fn f) = on_sched s (Scheduler.Event.posts_fn (Option.map other f))
  step s stops = on_sched s Scheduler.Event.stops
  step s resets = on_sched s Scheduler.Event.resets
  step s enters = on_sched s Scheduler.Event.enters
  step s turns = on_sched s Scheduler.Event.turns

  unfoldable pub exec : System G → List (Event G) → System G × List Resumption
  exec s [] = (s, [])
  exec s (e ∷ es) = let (s1, now) = step s e in let (s2, later) = exec s1 es in (s2, now ++ later)
