-- ===== src/When/Tests.antt =====
-- Runs of the combinators of when.hpp, and their theorems at concrete inputs.
use cnerium.Prelude.{
  ℕ, ◌+◌, ◌≡◌, refl, replicate, true, false, none, some, List, [], ◌∷◌, ◌++◌, arith, total,
  if◌then◌else◌,
}
use cnerium.Error.{user, returns, throws}
use cnerium.Scheduler.{Scheduler}
use cnerium.When.{
  Kind, valued, nothing, Stored, value, monostate, Runner, awaiting, settled, finished, start_all,
}
use cnerium.When
use cnerium.When.Slots.{unreported, first_of}
use cnerium.When.All
use cnerium.When.All.Laws.{posted}
use cnerium.When.All.Result.{verdict, await_resume-exec}
use cnerium.When.All.Turns.Resumed.{run_all, run-resumed_all, run-all_in}
use cnerium.When.Any.Turns.Resumed.{run_any, run-resumed_any}
use cnerium.When.Turns.{Turn, of_tasks, of_sched}
use cnerium.Scheduler
use cnerium.Scheduler.{pending}
use cnerium.When.All.Result as AllResult
use cnerium.When.Any
use cnerium.When.Any.Result.{when_any_result-exec, Decided, any_outcome}
use cnerium.When.Any.Result as AnyResult

abbrev empty : Scheduler ℕ
empty = record { handle_q = []; fn_q = []; stop_requested = false; running = true }

abbrev pack : List Kind
pack = valued ∷ nothing ∷ valued ∷ []

-- The tasks complete in another order than that of the arguments.
abbrev all_events : List (All.Event ℕ)
all_events =
    All.settles 2 (returns 30)
    ∷ All.settles 0 (returns 10)
    ∷ All.reports 0
    ∷ All.settles 1 (returns 20)
    ∷ All.reports 1
    ∷ All.reports 2
    ∷ []

abbrev all_world : All.World ℕ ℕ
all_world = All.exec pack (All.await_suspend pack 9 (1 ∷ 2 ∷ 3 ∷ []) empty) all_events

all_values :
    (All.await_resume pack all_world.st ≡ some (returns (value 10 ∷ monostate ∷ value 30 ∷ [])))
    × (all_world.sched.handle_q ≡ 1 ∷ 2 ∷ 3 ∷ 9 ∷ [])
unfolding All.exec All.step All.await_suspend All.await_resume When.capture When.settle_slots
all_values = (refl, refl)

-- A task fails, and another one later: the first exception is kept.
abbrev failing_events : List (All.Event ℕ)
failing_events =
    All.settles 2 (throws (user 5))
    ∷ All.settles 0 (throws (user 6))
    ∷ All.reports 0
    ∷ All.settles 1 (returns 20)
    ∷ All.reports 1
    ∷ All.reports 2
    ∷ []

abbrev failing_world : All.World ℕ ℕ
failing_world = All.exec pack (All.await_suspend pack 9 (1 ∷ 2 ∷ 3 ∷ []) empty) failing_events

await_resume-exec_example :
    All.await_resume pack failing_world.st
    ≡ some (
        verdict pack
          (first_of none (
            AllResult.failures pack
              (All.await_suspend pack 9 (1 ∷ 2 ∷ 3 ∷ []) empty)
              failing_events))
          failing_world.runners)
unfolding All.exec All.step All.await_suspend
await_resume-exec_example =
    await_resume-exec pack 9 (1 ∷ 2 ∷ 3 ∷ []) empty failing_events (omega arith) (omega arith) refl
      refl

-- Task 0 wins by its value, and task 1 fails before the awaiting coroutine is resumed.
abbrev race : List (Any.Event ℕ)
race = Any.settles 0 (returns 10) ∷ Any.reports 0 ∷ Any.settles 1 (throws (user 5)) ∷ []

abbrev pair : List Kind
pair = valued ∷ valued ∷ []

abbrev race_world : Any.World ℕ ℕ
race_world = Any.exec pair (Any.await_suspend pair 9 (1 ∷ 2 ∷ []) empty) race

loser_throws : Any.when_any_result pair race_world.st ≡ some (throws (user 5))
unfolding Any.exec Any.step Any.await_suspend Any.when_any_result When.capture When.settle_slots
loser_throws = refl

-- Resumed before task 1 completes, `when_any` reads its empty slot.
abbrev won : List (Any.Event ℕ)
won = Any.settles 0 (returns 10) ∷ Any.reports 0 ∷ []

empty_slot_read :
    Any.when_any_result pair (Any.exec pair (Any.await_suspend pair 9 (1 ∷ 2 ∷ []) empty) won).st
    ≡ none
unfolding When.materialize_tuple Any.exec Any.step Any.await_suspend Any.when_any_result
    When.capture When.settle_slots
empty_slot_read = refl

when_any_result-exec_example :
    Any.when_any_result pair race_world.st
    ≡ any_outcome pair
        (first_of none (AnyResult.failures pair (Any.await_suspend pair 9 (1 ∷ 2 ∷ []) empty) race))
        race_world.st.index
        race_world.runners
when_any_result-exec_example = when_any_result-exec pair 9 (1 ∷ 2 ∷ []) empty race refl

-- The loop starts the runners before their tasks complete, and others post a coroutine meanwhile.
abbrev turn : {E : Type 0} → Turn E ℕ
turn = of_sched Scheduler.Event.turns

abbrev all_turns : List (Turn (All.Event ℕ) ℕ)
all_turns =
    turn
    ∷ turn
    ∷ of_tasks (All.settles 1 (returns 20))
    ∷ of_tasks (All.reports 1)
    ∷ of_sched (Scheduler.Event.posts 5)
    ∷ turn
    ∷ of_tasks (All.settles 0 (returns 10))
    ∷ of_tasks (All.settles 2 (returns 30))
    ∷ of_tasks (All.reports 2)
    ∷ of_tasks (All.reports 0)
    ∷ []

all_turns_run :
    (run_all pack 9 (1 ∷ 2 ∷ 3 ∷ []) empty (all_turns ++ turn ∷ turn ∷ [])).1
    ≡ 1 ∷ 2 ∷ 3 ∷ 5 ∷ 9 ∷ []
unfolding When.Turns.run All.step All.await_suspend Scheduler.step
all_turns_run = refl

run-resumed_all_example :
    let (w, now) = run_all pack 9 (1 ∷ 2 ∷ 3 ∷ []) empty all_turns in
    (total (λ k. k) now + total (λ k. k) w.sched.handle_q
      ≡ total (λ k. k) (start_all (1 ∷ 2 ∷ 3 ∷ []) empty).handle_q
        + total (λ k. k) (posted 9 (total unreported w.runners))
        + (5 + 0))
    × (w.st.remaining ≡ total unreported w.runners)
    × (w.inline ≡ [])
run-resumed_all_example =
    run-resumed_all pack 9 (1 ∷ 2 ∷ 3 ∷ []) empty (λ k. k) all_turns (omega arith) (omega arith)
      refl (record { real = tt; open_ = refl }) tt

run-all_in_example :
    total
      (λ k. k)
      (run_all pack 9 (1 ∷ 2 ∷ 3 ∷ []) empty (
        all_turns
        ++ replicate (pending (run_all pack 9 (1 ∷ 2 ∷ 3 ∷ []) empty all_turns).0.sched) turn)).1
    ≡ total (λ k. k) (start_all (1 ∷ 2 ∷ 3 ∷ []) empty).handle_q + 9 + (5 + 0)
unfolding When.Turns.run All.step All.await_suspend Scheduler.step
run-all_in_example =
    run-all_in pack 9 (1 ∷ 2 ∷ 3 ∷ []) empty (λ k. k) all_turns (omega arith) refl
      (record { real = tt; open_ = refl }) tt refl refl

-- The winner reports before the other task completes, and the loop resumes the awaiting coroutine.
abbrev race_turns : List (Turn (Any.Event ℕ) ℕ)
race_turns =
    turn
    ∷ turn
    ∷ of_tasks (Any.settles 1 (returns 4))
    ∷ of_tasks (Any.reports 1)
    ∷ turn
    ∷ of_tasks (Any.settles 0 (returns 3))
    ∷ of_tasks (Any.reports 0)
    ∷ turn
    ∷ []

race_turns_run : (run_any pair 9 (1 ∷ 2 ∷ []) empty race_turns).1 ≡ 1 ∷ 2 ∷ 9 ∷ []
unfolding When.Turns.run Any.step Any.await_suspend Scheduler.step start_all
race_turns_run = refl

run-resumed_any_example :
    let (w, now) = run_any pair 9 (1 ∷ 2 ∷ []) empty race_turns in
    (total (λ k. k) now + total (λ k. k) w.sched.handle_q
      ≡ total (λ k. k) (start_all (1 ∷ 2 ∷ []) empty).handle_q + (if w.st.done then 9 else 0) + 0)
    × (w.inline ≡ [])
    × Decided w.st.done w.runners w.st.index
run-resumed_any_example =
    run-resumed_any pair 9 (1 ∷ 2 ∷ []) empty (λ k. k) race_turns refl
      (record { real = tt; open_ = refl }) tt
