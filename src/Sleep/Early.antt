-- ===== src/Sleep/Early.antt =====
-- When a coroutine that sleeps in timer.cpp is resumed at the earliest.
pub mod Fates
pub mod Turns
pub mod Resumed
use cnerium.Prelude.{
  ℕ, ◌+◌, ◌≤◌, ◌≡◌, refl, sym, ◌∙◌, Bool, true, false, Option, none, some, List, [], ◌∷◌, ◌++◌, map,
  All, All-append, All-mono, arith, Bool-cases, Option-cases, inl, inr, if◌then◌else◌, ◌==◌,
}
use mathlib.Core.Path.{subst}
use mathlib.Core.Option
use cnerium.Cancel.{Flags, CancelToken, is_cancelled}
use cnerium.Scheduler
use cnerium.Scheduler.{Handle, null, Scheduler, Work, resumes, calls, post_fn, post, post_handle}
use cnerium.Timer
use cnerium.Timer.{
  Entry, Loop, at_head, aiming, sleeping, firing, posting, ended, Fate, fires, cancels, clears,
  insert, sleep_suspend, fire_move, loop_move, sleep_job, Timer,
}
use cnerium.Timer.Firing.{IsTimely, IsTimely-mono, loop_move-IsTimely}
use cnerium.Timer.Account.{erase_first-insert}
use cnerium.Timer.Fifo.Queue.{All-insert}
use cnerium.Sleep.{
  Callable, job, other, System, Event, sleeps, stops_timer, passes, moves, posts, posts_fn, stops,
  resets, enters, turns, Resumption, ctx_post, ctx_post_all, run_work, run_all, on_timer, on_sched,
  sleep_for, step, exec,
}

module _ (due : Handle → ℕ) where
  -- Nothing in the queues, nor in the hands of the timer thread, is there too early.
  abbrev pub DueJob : ℕ → Option Handle → Type 0
  DueJob t none = Unit
  DueJob t (some h) = due h ≤ t

  abbrev pub DueEntry : Entry Handle → Type 0
  DueEntry e = DueJob e.when e.j

  abbrev pub DueHeld : Loop Handle → Type 0
  DueHeld (aiming n) = DueEntry n
  DueHeld (sleeping n) = DueEntry n
  DueHeld (firing n) = DueEntry n
  DueHeld (posting n) = DueEntry n
  DueHeld _ = Unit

  abbrev pub DueHandle : ℕ → Handle → Type 0
  DueHandle now h = due h ≤ now

  abbrev pub InTime : Resumption → Type 0
  InTime r = due r.handle ≤ r.at

  -- The fates of entries that are due post what is due.
  abbrev pub DueFate : ℕ → Fate Handle → Type 0
  DueFate now (fires at e) = DueJob now e.j
  DueFate now _ = Unit

module _ {G : Type 0} (due : Handle → ℕ) where
  -- Each sleep of a coroutine ends when it is due, or later, and so does each direct post.
  abbrev pub Patient : ℕ → List (Event G) → Type 0
  Patient now [] = Unit
  Patient now (sleeps d h ct ∷ es) = (due h ≤ now + d) × Patient now es
  Patient now (posts h ∷ es) = (due h ≤ now) × Patient now es
  Patient now (passes d ∷ es) = Patient (now + d) es
  Patient now (_ ∷ es) = Patient now es

  abbrev pub DueCall : ℕ → Option (Callable G) → Type 0
  DueCall now (some (job h)) = due h ≤ now
  DueCall now _ = Unit

  pub record IsPatient (s : System G) : Type 0 where
    pub entries : All (DueEntry due) s.clocked.timer.q
    pub held : DueHeld due s.clocked.loop
    pub timely : IsTimely s.clocked.now s.clocked.loop
    pub handles : All (DueHandle due s.clocked.now) s.sched.handle_q
    pub fns : All (DueCall s.clocked.now) s.sched.fn_q

  -- What the loop takes is due.
  abbrev pub DueWork : ℕ → Work (Callable G) → Type 0
  DueWork now (resumes h) = due h ≤ now
  DueWork now (calls f) = DueCall now (some f)
