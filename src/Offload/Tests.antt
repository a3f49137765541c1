-- ===== src/Offload/Tests.antt =====
-- Runs of a pool with a scheduler, and the theorems on submissions at concrete inputs.
use cnerium.Prelude.{
  ℕ, zero, suc, Option, ◌+◌, ◌≡◌, refl, true, false, none, some, List, [], ◌∷◌, ◌++◌, All, arith,
  total, replicate, map,
}
use cnerium.Error.{Outcome, returns, throws, user, system_error}
use cnerium.Cancel.{Flags, CancelToken, cancelled_ec, is_cancelled}
use cnerium.Scheduler
use cnerium.Scheduler.{Handle, Scheduler, pending}
use cnerium.ThreadPool
use cnerium.ThreadPool.{init}
use cnerium.ThreadPool.Shutdown.{init-Inv}
use cnerium.ThreadPool.Submit.{Submission, await_resume}
use cnerium.Offload.{System, Event, of_pool, of_sched, step, exec}
use cnerium.Offload.Account.{IsOpen, waiting, exec-accounted_for}
use cnerium.Offload.Answered.{AllowsFlags, Allows}
use cnerium.Offload.Answered.Resumed.{Known, exec-Known}
use cnerium.Offload.Drained.{exec-all_resumed}

abbrev submission : Handle → ℕ → Outcome ℕ → Submission ℕ
submission h k o = record {
  awaitable = record { ct = record { st = some k }; store = none; ex = none };
  handle = h;
  outcome = o;
}

-- A loop that is running, and a pool of two workers. The callable of coroutine 8 throws.
abbrev fresh : System ℕ ℕ
fresh = record {
  pool = init 2;
  subs =
      submission 7 0 (returns 42)
      ∷ submission 8 1 (throws (user 3))
      ∷ submission 9 1 (returns 5)
      ∷ [];
  sched = record { handle_q = []; fn_q = []; stop_requested = false; running = true };
}

abbrev none_cancelled : Flags
none_cancelled = false ∷ false ∷ []

abbrev pool_does : ThreadPool.Event ℕ → Event ℕ
pool_does = of_pool none_cancelled

abbrev turn : Event ℕ
turn = of_sched Scheduler.Event.turns

-- Coroutines 7 and 8 submit, 9 is too late, and the token of 8 is cancelled before its job runs.
abbrev session : List (Event ℕ)
session =
    pool_does (ThreadPool.Event.submits (some 0))
    ∷ pool_does (ThreadPool.Event.submits (some 1))
    ∷ pool_does (ThreadPool.Event.moves 0)
    ∷ pool_does (ThreadPool.Event.moves 1)
    ∷ of_sched (Scheduler.Event.posts 4)
    ∷ pool_does (ThreadPool.Event.moves 0)
    ∷ turn
    ∷ pool_does ThreadPool.Event.shuts
    ∷ pool_does (ThreadPool.Event.submits (some 2))
    ∷ of_pool (false ∷ true ∷ []) (ThreadPool.Event.moves 1)
    ∷ pool_does (ThreadPool.Event.moves 0)
    ∷ pool_does (ThreadPool.Event.moves 1)
    ∷ []

session_run : (exec fresh (session ++ turn ∷ turn ∷ [])).1 ≡ 4 ∷ 7 ∷ 8 ∷ []
unfolding exec step init
session_run = refl

session_results :
    map (λ s. await_resume s.awaitable) (exec fresh session).0.subs
    ≡ some (returns 42) ∷ some (throws (system_error cancelled_ec)) ∷ none ∷ []
unfolding exec step init await_resume is_cancelled
session_results = refl

fresh-IsOpen : IsOpen fresh
fresh-IsOpen = record { real = tt; open_ = refl; inv = init-Inv 2 }

exec-accounted_for_example :
    (total (λ h. h) (exec fresh session).1 + waiting (λ h. h) fresh.subs (exec fresh session).0
      ≡ 19)
    × IsOpen (exec fresh session).0
unfolding init
exec-accounted_for_example = exec-accounted_for (λ h. h) fresh session fresh-IsOpen tt

-- Only the token of coroutines 8 and 9 is ever cancelled.
abbrev Second : CancelToken → Type 0
Second ct = is_cancelled (false ∷ true ∷ []) ct ≡ true

allowed :
    (o : Option ℕ)
    → is_cancelled none_cancelled (record { st = o }) ≡ true
    → Second (record { st = o })
unfolding is_cancelled
allowed none h = h
allowed (some zero) h = h
allowed (some (suc zero)) h = cc
allowed (some (suc (suc k))) h = h

none-allowed : AllowsFlags Second none_cancelled
none-allowed ct h = allowed ct.st h

session-Allows : Allows Second (session ++ turn ∷ turn ∷ [])
session-Allows =
    let n = none-allowed in (n, (n, (n, (n, (n, (n, (n, ((λ ct h. h), (n, (n, tt))))))))))

exec-Known_example :
    All
      (Known Second (λ h. h ≡ 4) (exec fresh (session ++ turn ∷ turn ∷ [])).0.subs)
      (exec fresh (session ++ turn ∷ turn ∷ [])).1
exec-Known_example =
    exec-Known Second (λ h. h ≡ 4) fresh (session ++ turn ∷ turn ∷ []) tt tt
      (refl, (refl, (refl, tt))) session-Allows (refl, tt)

exec-all_resumed_example :
    total (λ h. h) (exec fresh (session ++ replicate (pending (exec fresh session).0.sched) turn)).1
    ≡ 19
unfolding exec step init ThreadPool.joins
exec-all_resumed_example =
    exec-all_resumed (λ h. h) fresh session fresh-IsOpen (omega arith) tt refl refl
