-- ===== src/Sleep/Early/Resumed.antt =====
-- When a coroutine that sleeps in timer.cpp is resumed at the earliest.
use cnerium.Prelude.{
  ℕ, ◌+◌, ◌≤◌, ◌≡◌, refl, sym, Option, none, some, List, [], ◌∷◌, map, All, All-append, All-mono,
  arith, Bool-cases, inl, inr, ◌==◌,
}
use mathlib.Core.Path.{subst}
use mathlib.Core.Option
use cnerium.Cancel.{Flags, CancelToken}
use cnerium.Scheduler
use cnerium.Scheduler.{Handle, null, Scheduler, Work, resumes, calls, post_fn, post, post_handle}
use cnerium.Timer
use cnerium.Timer.{
  Entry, Loop, at_head, aiming, sleeping, firing, posting, ended, Fate, fires, cancels, clears,
  insert, sleep_suspend, fire_move, loop_move, sleep_job, Timer,
}
use cnerium.Timer.Firing.{IsTimely-mono, loop_move-IsTimely}
use cnerium.Timer.Fifo.Queue.{All-insert}
use cnerium.Sleep.{
  Callable, job, other, System, Event, sleeps, stops_timer, passes, moves, posts, posts_fn, stops,
  resets, enters, turns, Resumption, ctx_post_all, on_timer, on_sched, sleep_for, step, exec,
}
use cnerium.Sleep.Early.{DueEntry, DueHandle, InTime, Patient, DueCall, IsPatient}
use cnerium.Sleep.Early.Fates.{clears-DueFate, loop-Due, ctx_post_all-DueCall}
use cnerium.Sleep.Early.Turns.{SchedDue, turn-SchedDue, posts-SchedDue, on_sched-IsPatient}

module _ {G : Type 0} (due : Handle → ℕ) where
  DueCall-mono : (now d : ℕ) (f : Option (Callable G)) → DueCall due now f → DueCall due (now + d) f
  DueCall-mono now d none k = tt
  DueCall-mono now d (some (job h)) k = omega arith
  DueCall-mono now d (some (other g)) k = tt

  stop-IsPatient : (s : System G) → IsPatient due s → IsPatient due (on_timer s Timer.Event.stops).0
  unfolding on_timer Timer.step
  stop-IsPatient s v =
      let (fs, hs) =
        ctx_post_all-DueCall due s.clocked.now s.sched (map clears s.clocked.timer.q) v.fns
          (clears-DueFate due s.clocked.now s.clocked.timer.q) in
      record { entries = tt; held = v.held; timely = v.timely; handles = rw hs v.handles; fns = fs }

  passes-IsPatient :
      (s : System G) (d : ℕ) → IsPatient due s → IsPatient due (on_timer s (Timer.Event.passes d)).0
  unfolding on_timer Timer.step ctx_post_all
  passes-IsPatient s d v = record {
    entries = v.entries;
    held = v.held;
    timely = IsTimely-mono s.clocked.now d s.clocked.loop v.timely;
    handles =
        All-mono (DueHandle due s.clocked.now) (DueHandle due (s.clocked.now + d)) s.sched.handle_q
          (λ h k. omega arith) v.handles;
    fns =
        All-mono (DueCall due s.clocked.now) (DueCall due (s.clocked.now + d)) s.sched.fn_q
          (DueCall-mono s.clocked.now d) v.fns;
  }

  moves-IsPatient :
      (s : System G) (m : Flags)
      → IsPatient due s
      → IsPatient due (on_timer s (Timer.Event.moves m)).0
  unfolding on_timer Timer.step
  moves-IsPatient s m v =
      let t = s.clocked.timer in
      let (es, h, fates) =
        loop-Due due m s.clocked.now t t.q s.clocked.loop refl v.entries v.held v.timely in
      let (fs, hs) =
        ctx_post_all-DueCall due s.clocked.now s.sched
          (loop_move m s.clocked.now t s.clocked.loop).2 v.fns fates in
      record {
        entries = es;
        held = h;
        timely = (loop_move-IsTimely m s.clocked.now t t.q s.clocked.loop refl v.timely).0;
        handles = rw hs v.handles;
        fns = fs;
      }

  sleep_for-IsPatient :
      (s : System G) (d : ℕ) (h : Handle) (ct : CancelToken)
      → due h ≤ s.clocked.now + d
      → IsPatient due s
      → IsPatient due (sleep_for s d h ct) × ((sleep_for s d h ct).clocked.now ≡ s.clocked.now)
  unfolding sleep_for
  sleep_for-IsPatient s d h ct k v = elim (Bool-cases (d == 0)) [
    | inl ready ↦ rw (ready, sleep_for) (v, refl)
    | inr waits ↦ elim (Bool-cases s.clocked.timer.stop_flag) [
      | inl stopped ↦
          rw (waits, sleep_for, stopped)
            (
              record {
                entries = v.entries;
                held = v.held;
                timely = v.timely;
                handles = v.handles;
                fns = v.fns;
              },
              refl,
            )
      | inr open_ ↦
          rw (waits, sleep_for, open_)
            (
              record {
                entries = All-insert (DueEntry due) _ s.clocked.timer.q k v.entries;
                held = v.held;
                timely = v.timely;
                handles = v.handles;
                fns = v.fns;
              },
              refl,
            )
    ]
  ]

  Stays : System G × List Resumption → List (Event G) → Type 0
  Stays (s, rs) es = IsPatient due s × All (InTime due) rs × Patient due s.clocked.now es

  on_sched-Stays :
      (s : System G) (e : Scheduler.Event (Callable G)) (es : List (Event G))
      → IsPatient due s
      → SchedDue due s.clocked.now (Scheduler.step s.sched e)
      → Patient due s.clocked.now es
      → Stays (on_sched s e) es
  unfolding Stays
  on_sched-Stays s e es v d p =
      let (v', in_time, same) = on_sched-IsPatient due s e v d in
      (v', in_time, subst (λ w. Patient due w.now es) (sym same) p)

  other-DueCall : (now : ℕ) (f : Option G) → DueCall due now (Option.map other f)
  other-DueCall now none = tt
  other-DueCall now (some g) = tt

  step-IsPatient :
      (s : System G) (e : Event G) (es : List (Event G))
      → IsPatient due s
      → Patient due s.clocked.now (e ∷ es)
      → Stays (step s e) es
  unfolding step Stays Scheduler.step
  step-IsPatient s (sleeps d h ct) es v p =
      let (v', same) = sleep_for-IsPatient s d h ct p.0 v in (v', tt, rw same p.1)
  step-IsPatient s stops_timer es v p = (stop-IsPatient s v, tt, p)
  step-IsPatient s (passes d) es v p = (passes-IsPatient s d v, tt, p)
  step-IsPatient s (moves m) es v p = (moves-IsPatient s m v, tt, p)
  step-IsPatient s (posts h) es v p =
      on_sched-Stays s (Scheduler.Event.posts h) es v
        (posts-SchedDue due s.clocked.now s.sched h p.0 v.handles v.fns) p.1
  step-IsPatient s (posts_fn f) es v p =
      let now = s.clocked.now in
      let f' = Option.map other f in
      on_sched-Stays s (Scheduler.Event.posts_fn f') es v
        (
          v.handles,
          All-append (DueCall due now) s.sched.fn_q (f' ∷ []) v.fns (other-DueCall now f, tt),
          tt,
        )
        p
  step-IsPatient s stops es v p =
      on_sched-Stays s Scheduler.Event.stops es v (v.handles, v.fns, tt) p
  step-IsPatient s resets es v p =
      on_sched-Stays s Scheduler.Event.resets es v (v.handles, v.fns, tt) p
  step-IsPatient s enters es v p =
      on_sched-Stays s Scheduler.Event.enters es v (v.handles, v.fns, tt) p
  step-IsPatient s turns es v p =
      on_sched-Stays s Scheduler.Event.turns es v
        (turn-SchedDue due s.clocked.now s.sched s.sched.handle_q s.sched.fn_q refl refl v.handles
          v.fns)
        p

  -- A coroutine that sleeps is not resumed early. Let `due` give each coroutine a time, so that each
  -- of its sleeps ends then or later, by the clock when the sleep begins, and each direct post of it
  -- comes then or later. Then each resumption of a coroutine comes when it is due or later, for every
  -- interleaving of sleeps, posts, stops and resets, moves of the timer thread and turns of the
  -- scheduler, from any state in which nothing queued or in the hands of the thread is early.
  pub exec-InTime :
      (s : System G) (es : List (Event G))
      → IsPatient due s
      → Patient due s.clocked.now es
      → All (InTime due) (exec s es).1
  unfolding exec Stays
  exec-InTime s [] v p = tt
  exec-InTime s (e ∷ es) v p =
      let (v', here, p') = step-IsPatient s e es v p in
      All-append (InTime due) (step s e).1 (exec (step s e).0 es).1 here
        (exec-InTime (step s e).0 es v' p')
