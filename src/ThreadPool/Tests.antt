-- ===== src/ThreadPool/Tests.antt =====
-- Runs of the pool of thread_pool.cpp, and its theorems at concrete inputs.
use cnerium.Prelude.{ℕ, ◌+◌, ◌≤◌, ◌≡◌, refl, true, false, none, some, List, [], ◌∷◌, arith, ◌⊎◌}
use cnerium.ThreadPool.{
  Pool, looping, holding, exited, Event, submits, stops, moves, init, size, exec, step, joins,
  shutdown_end,
}
use cnerium.ThreadPool.Account.{Inv}
use cnerium.ThreadPool.Shutdown.{measure, moves-end, Live}
use cnerium.ThreadPool.Contract.{Course, shown, exec-Course}

-- Two workers take a job each; the one submitted after the stop is dropped.
abbrev session : List (Event ℕ)
session =
    submits (some 0)
    ∷ submits none
    ∷ submits (some 1)
    ∷ moves 0
    ∷ moves 1
    ∷ stops
    ∷ submits (some 0)
    ∷ moves 1
    ∷ moves 0
    ∷ moves 0
    ∷ moves 1
    ∷ []

session_run :
    ((exec (init 2) session).1 ≡ 1 ∷ 0 ∷ [])
    × ((exec (init {F = ℕ} 2) session).0.workers ≡ exited ∷ exited ∷ [])
unfolding exec step init
session_run = (refl, refl)

one_thread_at_least : size (init {F = ℕ} 0) ≡ 1
unfolding size init
one_thread_at_least = refl

join_returns :
    shutdown_end none (exec (init {F = ℕ} 2) session).0
    ≡ some (record { q = []; stop_flag = true; workers = []; shutdown_done = false })
unfolding shutdown_end exec step init
join_returns = refl

abbrev busy : Pool ℕ
busy = record {
  q = some 5 ∷ none ∷ [];
  stop_flag = true;
  workers = holding (some 4) ∷ looping ∷ [];
  shutdown_done = true;
}

busy-Inv : Inv busy
busy-Inv = record { closed = λ h. refl; last = λ h. absurd (omega arith) }

moves-end_example :
    (2 + measure (exec busy (moves 1 ∷ moves 0 ∷ [])).0 ≤ measure busy)
    × ((joins none 0 (exec busy (moves 1 ∷ moves 0 ∷ [])).0.workers ≡ true)
        ⊎ ((i : ℕ) × Live (exec busy (moves 1 ∷ moves 0 ∷ [])).0.workers i))
unfolding step
moves-end_example =
    moves-end busy (1 ∷ 0 ∷ []) refl
      ((looping, refl, λ e. cc), ((holding (some 4), refl, λ e. cc), tt))

exec-Course_example :
    Course (shown (init 2) []) (shown (exec (init 2) session).0 (exec (init 2) session).1)
exec-Course_example = exec-Course (init 2) session []
