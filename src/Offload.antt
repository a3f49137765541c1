-- ===== src/Offload.antt =====
-- Work that a coroutine hands to the pool and whose result it awaits: include/vix/async/core/thread_pool.hpp
-- with scheduler.hpp. A worker runs the job of a submission, which settles the awaitable and posts the
-- coroutine to the scheduler of the context; the loop of `run` resumes it in a later turn. A job is the
-- index of its submission; a `G` is a callable of others.
pub mod Account
pub mod Answered
pub mod Drained
pub mod Tests
use cnerium.Prelude.{ℕ, List, [], ◌∷◌, ◌++◌}
use cnerium.Cancel.{Flags}
use cnerium.Scheduler
use cnerium.Scheduler.{Handle, Scheduler}
use cnerium.Scheduler.Order.{resumed}
use cnerium.ThreadPool
use cnerium.ThreadPool.{Pool}
use cnerium.ThreadPool.Submit.{Submission, finish_all}

pub record System (R G : Type 0) : Type 0 where
  pub pool : Pool ℕ
  pub subs : List (Submission R)
  pub sched : Scheduler G

-- What happens, in some order: to the pool, its workers included, with the cancellation flags at that
-- time, and to the scheduler. The await of a submission is the `submits` of its job.
pub data Event (G : Type 0) : Type 0 where
  of_pool : Flags → ThreadPool.Event ℕ → Event G
  of_sched : Scheduler.Event G → Event G

module _ {G : Type 0} where
  abbrev pub pool_events : List (Event G) → List (ThreadPool.Event ℕ)
  pool_events [] = []
  pool_events (of_pool m e ∷ es) = e ∷ pool_events es
  pool_events (of_sched e ∷ es) = pool_events es

  abbrev pub sched_events : List (Event G) → List (Scheduler.Event G)
  sched_events [] = []
  sched_events (of_pool m e ∷ es) = sched_events es
  sched_events (of_sched e ∷ es) = e ∷ sched_events es

module _ {R G : Type 0} where
  unfoldable pub on_pool : System R G → Flags → ThreadPool.Event ℕ → System R G
  unfolding ThreadPool.step finish_all
  on_pool s m e =
      let (p, ran) = ThreadPool.step s.pool e in
      let (subs', sched') = finish_all (λ i. m) ran s.subs s.sched in
      record { pool = p; subs = subs'; sched = sched' }

  unfoldable pub on_sched : System R G → Scheduler.Event G → System R G × List Handle
  unfolding Scheduler.step
  on_sched s e =
      let (sched', work) = Scheduler.step s.sched e in (record s { sched = sched' }, resumed work)

  -- The new state, and the coroutines that are resumed.
  unfoldable pub step : System R G → Event G → System R G × List Handle
  unfolding on_pool on_sched
  step s (of_pool m e) = (on_pool s m e, [])
  step s (of_sched e) = on_sched s e

  unfoldable pub exec : System R G → List (Event G) → System R G × List Handle
  exec s [] = (s, [])
  exec s (e ∷ es) = let (s1, now) = step s e in let (s2, later) = exec s1 es in (s2, now ++ later)
