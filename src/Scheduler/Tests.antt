-- ===== src/Scheduler/Tests.antt =====
-- Runs of the scheduler of scheduler.hpp, and its theorems at concrete inputs.
use cnerium.Prelude.{somes, ℕ, ◌≡◌, refl, true, false, none, some, List, [], ◌∷◌, ◌++◌}
use mathlib.Core.List.{Sublist}
use cnerium.Scheduler.{
  Scheduler, resumes, calls, Event, posts_fn, posts, stops, resets, enters, turns, init, step, exec,
  turn, stop, leaves, waits, pending,
}
use cnerium.Scheduler.Order.{resumed, called, exec-conserves, exec-sublist}
use cnerium.Scheduler.Agenda.{Agenda, coroutine, callable, queues, run_agenda, exec-run_agenda}
use cnerium.Scheduler.Shutdown.{exec-stopped, exec-pending}

abbrev mixed_events : List (Event ℕ)
mixed_events =
    posts_fn (some 7)
    ∷ posts 3
    ∷ enters
    ∷ turns
    ∷ posts 0
    ∷ posts 4
    ∷ posts_fn none
    ∷ turns
    ∷ turns
    ∷ []

abbrev loaded : Scheduler ℕ
loaded = record {
  handle_q = 3 ∷ 4 ∷ [];
  fn_q = some 7 ∷ none ∷ some 8 ∷ [];
  stop_requested = false;
  running = true;
}

-- Handles go first, the null handle is not posted.
mixed_run : (exec init mixed_events).1 ≡ resumes 3 ∷ resumes 4 ∷ calls 7 ∷ []
unfolding exec step init
mixed_run = refl

-- The scheduler smoke test: two callables, then the stop that the second one requests.
stop_from_callable : (exec loaded (turns ∷ stops ∷ turns ∷ turns ∷ [])).1 ≡ resumes 3 ∷ []
unfolding exec step
stop_from_callable = refl

exec-conserves_example :
    (resumed (exec loaded (turns ∷ posts 5 ∷ turns ∷ turns ∷ [])).1
        ++ (exec loaded (turns ∷ posts 5 ∷ turns ∷ turns ∷ [])).0.handle_q
      ≡ 3 ∷ 4 ∷ 5 ∷ [])
    × (called (exec loaded (turns ∷ posts 5 ∷ turns ∷ turns ∷ [])).1
          ++ somes (exec loaded (turns ∷ posts 5 ∷ turns ∷ turns ∷ [])).0.fn_q
        ≡ 7 ∷ 8 ∷ [])
exec-conserves_example =
    exec-conserves loaded (turns ∷ posts 5 ∷ turns ∷ turns ∷ []) refl (refl, (refl, tt)) tt

exec-sublist_example :
    Sublist
      (resumed (exec loaded (turns ∷ stops ∷ turns ∷ resets ∷ posts 5 ∷ enters ∷ turns ∷ [])).1
        ++ (exec loaded
            (turns ∷ stops ∷ turns ∷ resets ∷ posts 5 ∷ enters ∷ turns ∷ [])).0.handle_q)
      (3 ∷ 4 ∷ 5 ∷ [])
    × Sublist
        (called (exec loaded (turns ∷ stops ∷ turns ∷ resets ∷ posts 5 ∷ enters ∷ turns ∷ [])).1
          ++ somes
              (exec loaded (turns ∷ stops ∷ turns ∷ resets ∷ posts 5 ∷ enters ∷ turns ∷ [])).0.fn_q)
        (7 ∷ 8 ∷ [])
exec-sublist_example =
    exec-sublist loaded (turns ∷ stops ∷ turns ∷ resets ∷ posts 5 ∷ enters ∷ turns ∷ [])
      (refl, (refl, tt))

exec-stopped_example :
    ((exec (stop loaded) (posts 5 ∷ turns ∷ enters ∷ turns ∷ [])).1 ≡ [])
    × (turn (stop loaded)
        ≡ (record { handle_q = []; fn_q = []; stop_requested = true; running = false }, leaves))
exec-stopped_example = exec-stopped loaded (posts 5 ∷ turns ∷ enters ∷ turns ∷ []) tt

abbrev idle : Scheduler ℕ
idle = record { handle_q = []; fn_q = []; stop_requested = false; running = true }

exec-pending_example :
    ((exec loaded (turns ∷ turns ∷ turns ∷ turns ∷ turns ∷ [])).1
      ≡ resumes 3 ∷ resumes 4 ∷ calls 7 ∷ calls 8 ∷ [])
    × ((exec loaded (turns ∷ turns ∷ turns ∷ turns ∷ turns ∷ [])).0 ≡ idle)
    × (turn (exec loaded (turns ∷ turns ∷ turns ∷ turns ∷ turns ∷ [])).0
        ≡ ((exec loaded (turns ∷ turns ∷ turns ∷ turns ∷ turns ∷ [])).0, waits))
unfolding pending
exec-pending_example = exec-pending loaded (refl, (refl, tt)) refl refl

-- The list of `loaded`, with the coroutines posted in between.
abbrev mixed_agenda : Agenda ℕ
mixed_agenda = record {
  items = callable (some 7) ∷ coroutine 3 ∷ callable none ∷ coroutine 4 ∷ callable (some 8) ∷ [];
  closing = false;
  open_ = true;
}

exec-run_agenda_example : exec loaded (turns ∷ posts_fn (some 9) ∷ turns ∷ stops ∷ turns ∷ []) ≡ (
  queues (run_agenda mixed_agenda (turns ∷ posts_fn (some 9) ∷ turns ∷ stops ∷ turns ∷ [])).0,
  (run_agenda mixed_agenda (turns ∷ posts_fn (some 9) ∷ turns ∷ stops ∷ turns ∷ [])).1,
)
exec-run_agenda_example =
    exec-run_agenda mixed_agenda (turns ∷ posts_fn (some 9) ∷ turns ∷ stops ∷ turns ∷ [])
