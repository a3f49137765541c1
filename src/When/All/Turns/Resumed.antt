-- ===== src/When/All/Turns/Resumed.antt =====
-- When the loop of scheduler.hpp resumes the coroutine that awaits `when_all` of when.hpp.
use cnerium.Prelude.{
  ℕ, zero, suc, ◌+◌, ◌^◌, ◌<◌, ◌≡◌, refl, sym, ap, ◌∙◌, true, false, List, [], ◌∷◌, ◌++◌, length,
  replicate, total, total-append, arith, ◌==◌, if◌then◌else◌,
}
use cnerium.Scheduler
use cnerium.Scheduler.{Handle, null, Scheduler, pending}
use cnerium.Scheduler.Order.{Unstopped, posted_handles}
use cnerium.When.{Kind, Runner, awaiting, start_all}
use cnerium.When.Slots.{unreported}
use cnerium.When.Turns.{Turn, of_sched, task_events, sched_events, alone, run}
use cnerium.When.Turns.Open.{IsOpen, start_all-IsOpen}
use cnerium.When.Turns.Beside.{Beside, run-Beside, run-drained}
use cnerium.When.All.{World, Event, await_suspend, step, exec}
use cnerium.When.All.Laws.{posted}
use cnerium.When.All.Result.{exec-idle, exec-resumed_all}
use cnerium.When.All.Turns.{runners}

module _ {G V : Type 0} (ks : List Kind) where
  alone-exec : (w : World G V) (es : List (Event V)) → alone (runners G V ks) w es ≡ exec ks w es
  unfolding alone exec
  alone-exec w [] = refl
  alone-exec w (e ∷ es) = alone-exec (step ks w e) es

module _ {G V : Type 0} (ks : List Kind) (h : Handle) (rs : List Handle) (sched : Scheduler G) where
  abbrev begin : World G V
  begin = await_suspend ks h rs sched

  -- `when_all`, awaited by `h`, with the loop.
  abbrev pub run_all : List (Turn (Event V) G) → World G V × List Handle
  run_all es = run (runners G V ks) begin es

  module _ (v : Handle → ℕ) where
    beside :
        (es : List (Turn (Event V) G))
        → IsOpen sched
        → Unstopped (sched_events es)
        → Beside
            (runners G V ks)
            v
            begin
            (exec ks begin (task_events es))
            (start_all rs sched)
            es
            (run_all es)
    unfolding await_suspend
    beside es o k = rw (← alone-exec ks begin (task_events es)) (
        run-Beside (runners G V ks) v begin (start_all rs sched) es refl
          (start_all-IsOpen rs sched o) k)

    -- `when_all` over at least one task resumes the awaiting coroutine once, and not before the last
    -- runner has reported. In any order of completions and reports, interleaved with the turns of the
    -- scheduler, which nobody stops, and with posts of others, the coroutines that were resumed and
    -- those that wait are at every moment those that waited at first, the runners as they were started,
    -- what others posted, and, only if no runner is left to report, the awaiting coroutine, once; as
    -- counted by any weight on coroutines. The counter is the number of runners that are left, never
    -- wraps, and no coroutine is resumed elsewhere.
    pub run-resumed_all :
        (es : List (Turn (Event V) G))
        → 0 < length ks
        → length ks < 2 ^ 64
        → h == null ≡ false
        → IsOpen sched
        → Unstopped (sched_events es)
        → let (w, now) = run_all es in
          (total v now + total v w.sched.handle_q
            ≡ total v (start_all rs sched).handle_q
              + total v (posted h (total unreported w.runners))
              + total v (posted_handles (sched_events es)))
          × (w.st.remaining ≡ total unreported w.runners)
          × (w.inline ≡ [])
    unfolding await_suspend
    run-resumed_all es some_task few real o k =
        let (queue, counted, direct) =
          exec-resumed_all ks h rs sched (task_events es) some_task few real in
        let b = beside es o k in
        let handles = ap (total v) queue ∙ total-append v begin.sched.handle_q _ in
        rw b.same (omega (arith, b.balance, handles), counted, direct)

    -- What the runners alone have posted, once all of them have reported.
    all_in :
        (n : ℕ) (es : List (Event V))
        → length ks ≡ n
        → length ks < 2 ^ 64
        → h == null ≡ false
        → total unreported (exec ks begin es).runners ≡ 0
        → total v (exec ks begin es).sched.handle_q
          ≡ total v begin.sched.handle_q + (if n == 0 then 0 else v h)
    unfolding await_suspend
    all_in zero es e few real r = omega (
      arith,
      ap (λ w. total v w.sched.handle_q)
          (exec-idle ks begin es (ap (λ m. replicate {A = Runner V} m awaiting) e)),
    )
    all_in (suc n) es e few real r =
        let (queue, _, _) = exec-resumed_all ks h rs sched es (omega arith) few real in
        let handles =
          ap (total v) (queue ∙ ap (λ m. begin.sched.handle_q ++ posted h m) r)
          ∙ total-append v begin.sched.handle_q _ in
        grind (arith, handles)

    -- `when_all` resumes the awaiting coroutine. Once every runner has reported, in any order of
    -- completions and reports, interleaved with turns of the scheduler, which nobody stops, and with
    -- posts of others, as many turns of the running loop as items are queued bring it about that the
    -- coroutines resumed are those that waited at first, the runners as they were started, what others
    -- posted, and the awaiting coroutine, once; as counted by any weight on coroutines. Over no task the
    -- awaiting coroutine is never resumed.
    pub run-all_in :
        (es : List (Turn (Event V) G))
        → length ks < 2 ^ 64
        → h == null ≡ false
        → IsOpen sched
        → Unstopped (sched_events es)
        → total unreported (run_all es).0.runners ≡ 0
        → (run_all es).0.sched.running ≡ true
        → total v
            (run_all
              (es ++ replicate (pending (run_all es).0.sched) (of_sched Scheduler.Event.turns))).1
          ≡ total v (start_all rs sched).handle_q
            + (if length ks == 0 then 0 else v h)
            + total v (posted_handles (sched_events es))
    unfolding await_suspend
    run-all_in es few real o k r going =
        let b = beside es o k in
        omega (
          arith,
          run-drained (runners G V ks) v begin (exec ks begin (task_events es)) (start_all rs sched)
              es b going,
          all_in (length ks) (task_events es) refl few real
              (sym (ap (λ w. total unreported w.runners) b.same) ∙ r),
        )
