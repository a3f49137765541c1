-- ===== src/When/Any/Turns/Resumed.antt =====
-- When the loop of scheduler.hpp resumes the coroutine that awaits `when_any` of when.hpp.
use cnerium.Prelude.{
  ℕ, ◌+◌, ◌≡◌, refl, ap, ◌∙◌, false, List, [], ◌∷◌, total, total-append, arith, ◌==◌, if◌then◌else◌,
}
use cnerium.Scheduler.{Handle, null, Scheduler}
use cnerium.Scheduler.Order.{Unstopped, posted_handles}
use cnerium.When.{Kind, start_all}
use cnerium.When.Turns.{Turn, task_events, sched_events, alone, run}
use cnerium.When.Turns.Open.{IsOpen, start_all-IsOpen}
use cnerium.When.Turns.Beside.{Beside, run-Beside}
use cnerium.When.Any.{World, Event, await_suspend, step, exec}
use cnerium.When.Any.Result.{Decided, exec-resumed_any}
use cnerium.When.Any.Turns.{runners}

module _ {G V : Type 0} (ks : List Kind) where
  alone-exec : (w : World G V) (es : List (Event V)) → alone (runners G V ks) w es ≡ exec ks w es
  unfolding alone exec
  alone-exec w [] = refl
  alone-exec w (e ∷ es) = alone-exec (step ks w e) es

module _ {G V : Type 0} (ks : List Kind) (h : Handle) (rs : List Handle) (sched : Scheduler G) where
  abbrev begin : World G V
  begin = await_suspend ks h rs sched

  -- `when_any`, awaited by `h`, with the loop.
  abbrev pub run_any : List (Turn (Event V) G) → World G V × List Handle
  run_any es = run (runners G V ks) begin es

  module _ (v : Handle → ℕ) where
    beside :
        (es : List (Turn (Event V) G))
        → IsOpen sched
        → Unstopped (sched_events es)
        → Beside
            (runners G V ks)
            v
            begin
            (exec ks begin (task_events es))
            (start_all rs sched)
            es
            (run_any es)
    unfolding await_suspend
    beside es o k = rw (← alone-exec ks begin (task_events es)) (
        run-Beside (runners G V ks) v begin (start_all rs sched) es refl
          (start_all-IsOpen rs sched o) k)

    -- `when_any` resumes the awaiting coroutine once, and not before some runner has reported. In any
    -- order of completions and reports, interleaved with the turns of the scheduler, which nobody
    -- stops, and with posts of others, the coroutines that were resumed and those that wait are at
    -- every moment those that waited at first, the runners as they were started, what others posted,
    -- and, only if the race is decided, the awaiting coroutine, once; as counted by any weight on
    -- coroutines. The race is decided exactly when some runner has reported, and then the runner at the
    -- winning index has; no coroutine is resumed elsewhere.
    pub run-resumed_any :
        (es : List (Turn (Event V) G))
        → h == null ≡ false
        → IsOpen sched
        → Unstopped (sched_events es)
        → let (w, now) = run_any es in
          (total v now + total v w.sched.handle_q
            ≡ total v (start_all rs sched).handle_q
              + (if w.st.done then v h else 0)
              + total v (posted_handles (sched_events es)))
          × (w.inline ≡ [])
          × Decided w.st.done w.runners w.st.index
    unfolding await_suspend
    run-resumed_any es real o k =
        let (posted, direct, decided) = exec-resumed_any ks h rs sched (task_events es) real in
        let b = beside es o k in
        let queue = ap (total v) posted ∙ total-append v begin.sched.handle_q _ in
        rw b.same (grind (arith, b.balance, queue), direct, decided)
