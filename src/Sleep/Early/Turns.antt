-- ===== src/Sleep/Early/Turns.antt =====
-- What the scheduler of a context runs is due.
use cnerium.Prelude.{
  ℕ, ◌≤◌, ◌≡◌, refl, Option, none, some, List, [], ◌∷◌, All, All-append, arith, Bool-cases, inl,
  inr, ◌==◌,
}
use cnerium.Scheduler
use cnerium.Scheduler.{Handle, null, Scheduler, Work, resumes, calls, post_fn, post, post_handle}
use cnerium.Timer.{sleep_job}
use cnerium.Sleep.{Callable, job, other, System, run_all, on_sched}
use cnerium.Sleep.Early.{DueHandle, InTime, DueCall, IsPatient, DueWork}

module _ {G : Type 0} (due : Handle → ℕ) where
  pub sleep_job-Due :
      (now : ℕ) (h : Handle) (sched : Scheduler (Callable G))
      → due h ≤ now
      → All (DueHandle due now) sched.handle_q
      → All (DueHandle due now) (sleep_job h sched).handle_q
        × ((sleep_job h sched).fn_q ≡ sched.fn_q)
  unfolding sleep_job post_handle
  sleep_job-Due now h sched k a = elim (Bool-cases (h == null)) [
    | inl n ↦ rw (n, sleep_job) (a, refl)
    | inr n ↦
        rw (n, sleep_job, post_handle, post)
          (All-append (DueHandle due now) sched.handle_q (h ∷ []) a (k, tt), refl)
  ]

  pub run_all-IsPatient :
      (s : System G) (ws : List (Work (Callable G)))
      → All (DueWork due s.clocked.now) ws
      → IsPatient due s
      → IsPatient due (run_all s ws).0
        × All (InTime due) (run_all s ws).1
        × ((run_all s ws).0.clocked ≡ s.clocked)
  unfolding run_all
  run_all-IsPatient s [] a v = (v, tt, refl)
  run_all-IsPatient s (resumes h ∷ ws) a v =
      let (v', in_time, same) = run_all-IsPatient s ws a.1 v in (v', (a.0, in_time), same)
  run_all-IsPatient s (calls (job h) ∷ ws) a v =
      let (hs, fs) = sleep_job-Due s.clocked.now h s.sched a.0 v.handles in
      run_all-IsPatient (record s { sched = sleep_job h s.sched }) ws a.1
        (record {
          entries = v.entries;
          held = v.held;
          timely = v.timely;
          handles = hs;
          fns = rw fs v.fns;
        })
  run_all-IsPatient s (calls (other g) ∷ ws) a v = run_all-IsPatient s ws a.1 v

  -- What an event of the scheduler keeps.
  abbrev pub SchedDue : ℕ → Scheduler (Callable G) × List (Work (Callable G)) → Type 0
  SchedDue now (sched, ws) =
      All (DueHandle due now) sched.handle_q
      × All (DueCall due now) sched.fn_q
      × All (DueWork due now) ws

  pub turn-SchedDue :
      (now : ℕ) (sched : Scheduler (Callable G)) (hs : List Handle)
      (fs : List (Option (Callable G)))
      → sched.handle_q ≡ hs
      → sched.fn_q ≡ fs
      → All (DueHandle due now) hs
      → All (DueCall due now) fs
      → SchedDue now (Scheduler.step sched Scheduler.Event.turns)
  unfolding Scheduler.step Scheduler.turn
  turn-SchedDue now sched [] [] eh ef a b = ground arith
  turn-SchedDue now sched [] (none ∷ fs) eh ef a b = ground arith
  turn-SchedDue now sched [] (some (job h) ∷ fs) eh ef a b = ground arith
  turn-SchedDue now sched [] (some (other g) ∷ fs) eh ef a b = ground arith
  turn-SchedDue now sched (h ∷ hs) fs eh ef a b = ground arith

  pub posts-SchedDue :
      (now : ℕ) (sched : Scheduler (Callable G)) (h : Handle)
      → due h ≤ now
      → All (DueHandle due now) sched.handle_q
      → All (DueCall due now) sched.fn_q
      → SchedDue now (Scheduler.step sched (Scheduler.Event.posts h))
  unfolding Scheduler.step
  posts-SchedDue now sched h k a b =
      ground (arith, All-append (DueHandle due now) sched.handle_q (h ∷ []) a (k, tt))

  pub on_sched-IsPatient :
      (s : System G) (e : Scheduler.Event (Callable G))
      → IsPatient due s
      → SchedDue s.clocked.now (Scheduler.step s.sched e)
      → IsPatient due (on_sched s e).0
        × All (InTime due) (on_sched s e).1
        × ((on_sched s e).0.clocked ≡ s.clocked)
  unfolding on_sched
  on_sched-IsPatient s e v d =
      run_all-IsPatient (record s { sched = (Scheduler.step s.sched e).0 })
        (Scheduler.step s.sched e).1 d.2
        (record { entries = v.entries; held = v.held; timely = v.timely; handles = d.0; fns = d.1 })
  -- An event of the timer.
