-- ===== src/Timer/Tests.antt =====
-- Runs of the timer of timer.cpp, and its theorems at concrete inputs.
use cnerium.Prelude.{
  ◌≤◌, replicate, map, ℕ, ◌≡◌, refl, true, false, some, List, [], ◌∷◌, ◌++◌, All, arith, total,
}
use cnerium.Cancel.{Flags, CancelToken, is_cancelled}
use cnerium.Timer.{
  Entry, posting, joins, stop, at_head, sleeping, fires, cancels, World, Event, schedules, passes,
  moves, insert, cmp, step, exec, init,
}
use cnerium.Timer.Firing.{OnlyChecked, exec-cancelled, exec-sleeping}
use cnerium.Timer.Sorted.{Request, stable_sort}
use cnerium.Timer.Sorted.Run.{posted, calls_of, exec-stable_sort}
use cnerium.Timer.Shutdown.{is_fired, exec-joined}
use cnerium.Timer.Fifo.{handled_at, held_at, jobs_at}
use cnerium.Timer.Fifo.Line.{exec-scheduled_at}

abbrev none_cancelled : Flags
none_cancelled = false ∷ []

abbrev tok : CancelToken
tok = record { st = some 0 }

abbrev entry : ℕ → ℕ → ℕ → Entry ℕ
entry tp k job = record { when = tp; id = k; ct = tok; j = some job }

abbrev fresh : World ℕ
fresh = record { timer = record { q = []; seq = 0; stop_flag = false }; loop = at_head; now = 0 }

-- Sleeps towards 100 while an entry due at 5 is queued.
abbrev oversleeping : World ℕ
oversleeping = record {
  timer = record { q = []; seq = 1; stop_flag = false };
  loop = sleeping (entry 100 1 7);
  now = 0;
}

abbrev late_events : List (Event ℕ)
late_events =
    schedules 5 (some 8) tok ∷ passes 50 ∷ moves none_cancelled ∷ moves none_cancelled ∷ []

-- The entry that is due at 5 fires behind the one that is due at 100.
overtaken :
    (exec oversleeping (
      late_events
      ++ passes 50
        ∷ moves none_cancelled
        ∷ moves none_cancelled
        ∷ moves none_cancelled
        ∷ moves none_cancelled
        ∷ moves none_cancelled
        ∷ moves none_cancelled
        ∷ moves none_cancelled
        ∷ moves none_cancelled
        ∷ [])).1
    ≡ fires 100 (entry 100 1 7) ∷ fires 100 (entry 5 2 8) ∷ []
unfolding exec step insert cmp is_cancelled
overtaken = refl

-- An earlier entry that is queued before the sleep begins is swapped in.
swapped :
    (exec fresh (
      schedules 100 (some 7) tok
      ∷ moves none_cancelled
      ∷ schedules 5 (some 8) tok
      ∷ moves none_cancelled
      ∷ passes 6
      ∷ moves none_cancelled
      ∷ moves none_cancelled
      ∷ moves none_cancelled
      ∷ [])).1
    ≡ fires 6 (entry 5 2 8) ∷ []
unfolding exec step insert cmp is_cancelled
swapped = refl

exec-sleeping_example :
    ((exec oversleeping late_events).1 ≡ [])
    × ((exec oversleeping late_events).0.loop ≡ sleeping (entry 100 1 7))
unfolding exec step
exec-sleeping_example =
    exec-sleeping oversleeping late_events (entry 100 1 7) refl refl tt (omega arith)

abbrev due_now : World ℕ
due_now = record {
  timer = record { q = entry 3 1 7 ∷ entry 9 2 8 ∷ entry 40 3 9 ∷ []; seq = 3; stop_flag = false };
  loop = at_head;
  now = 10;
}

-- The thread has checked the first entry when the token is cancelled.
abbrev already_checked : World ℕ
already_checked = record due_now { loop = posting (entry 2 0 6) }

abbrev cancelled_moves : List (Event ℕ)
cancelled_moves = replicate 7 (moves (true ∷ []))

-- That entry is posted, and the next two are not.
checked_post :
    (exec already_checked cancelled_moves).1
    ≡ fires 10 (entry 2 0 6) ∷ cancels (entry 3 1 7) ∷ cancels (entry 9 2 8) ∷ []
unfolding exec step is_cancelled
checked_post = refl

exec-cancelled_example :
    All (OnlyChecked tok (posting (entry 2 0 6))) (exec already_checked cancelled_moves).1
unfolding is_cancelled
exec-cancelled_example =
    exec-cancelled already_checked cancelled_moves tok
      (refl, (refl, (refl, (refl, (refl, (refl, (refl, tt)))))))

-- Jobs 7 and 9 have one deadline, and the thread puts the first back for job 8.
abbrev tied_events : List (Event ℕ)
tied_events =
    schedules 20 (some 7) tok
    ∷ moves none_cancelled
    ∷ schedules 5 (some 8) tok
    ∷ schedules 20 (some 9) tok
    ∷ moves none_cancelled
    ∷ passes 30
    ∷ moves none_cancelled
    ∷ moves none_cancelled
    ∷ moves none_cancelled
    ∷ moves none_cancelled
    ∷ moves none_cancelled
    ∷ moves none_cancelled
    ∷ moves none_cancelled
    ∷ []

tied_run : (exec fresh tied_events).1 ≡ fires 30 (entry 5 2 8) ∷ fires 30 (entry 20 1 7) ∷ []
unfolding exec step insert cmp is_cancelled
tied_run = refl

exec-scheduled_at_example :
    handled_at 20 (exec fresh tied_events).1
      ++ (held_at 20 (exec fresh tied_events).0.loop
          ++ jobs_at 20 (exec fresh tied_events).0.timer.q)
    ≡ 7 ∷ 9 ∷ []
unfolding init
exec-scheduled_at_example = exec-scheduled_at 20 0 tied_events tt (omega arith)

abbrev request : ℕ → ℕ → Request ℕ
request tp k = record { when = tp; ct = tok; j = some k }

abbrev requests : List (Request ℕ)
requests = request 9 1 ∷ request 4 2 ∷ request 9 3 ∷ request 1 4 ∷ []

requests_sorted : map (λ r. r.j) (stable_sort requests) ≡ some 4 ∷ some 2 ∷ some 1 ∷ some 3 ∷ []
unfolding stable_sort
requests_sorted = refl

exec-stable_sort_example :
    (posted
        (exec
          (record fresh { now = 10 })
          (calls_of requests ++ replicate 16 (moves none_cancelled))).1
      ≡ map (λ r. r.j) (stable_sort requests))
    × ((exec
          (record fresh { now = 10 })
          (calls_of requests ++ replicate 16 (moves none_cancelled))).0.timer.q
        ≡ [])
    × ((exec
          (record fresh { now = 10 })
          (calls_of requests ++ replicate 16 (moves none_cancelled))).0.loop
        ≡ at_head)
unfolding init is_cancelled
exec-stable_sort_example =
    exec-stable_sort none_cancelled 10 requests
      (
        (omega arith, refl, (1, refl)),
        (
          (omega arith, refl, (2, refl)),
          ((omega arith, refl, (3, refl)), ((omega arith, refl, (4, refl)), tt)),
        ),
      )
      (omega arith)

-- The thread holds an entry that is due when the timer is stopped.
exec-joined_example :
    (joins false
        (exec
          (record due_now { timer = stop due_now.timer })
          (replicate 4 (moves none_cancelled))).0.loop
      ≡ true)
    × (total is_fired
          (exec
            (record due_now { timer = stop due_now.timer })
            (replicate 4 (moves none_cancelled))).1
        ≤ 1)
exec-joined_example = exec-joined due_now (replicate 4 (moves none_cancelled)) false (omega arith)

-- It is posted behind the stop.
late_post :
    (exec
      (record due_now { timer = stop due_now.timer; loop = posting (entry 3 1 7) })
      (moves none_cancelled ∷ [])).1
    ≡ fires 10 (entry 3 1 7) ∷ []
unfolding exec step is_cancelled
late_post = refl
