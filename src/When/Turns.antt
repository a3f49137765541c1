-- ===== src/When/Turns.antt =====
-- What runs beside the loop of `run` of scheduler.hpp and posts one coroutine to it, such as the runners
-- of when.hpp, and the two together, in any interleaving.
pub mod Open
pub mod Beside
use cnerium.Prelude.{◌≡◌, Bool, List, [], ◌∷◌, ◌++◌, if◌then◌else◌}
use cnerium.Scheduler
use cnerium.Scheduler.{Handle, Scheduler, post_handle}
use cnerium.Scheduler.Order.{resumed}

abbrev pub post_if : {G : Type 0} → Bool → Scheduler G → Handle → Scheduler G
post_if b sched h = if b then post_handle sched h else sched

-- The state of what posts, with the scheduler in it that it is bound to; an event posts `cont` or does
-- nothing to the scheduler, which it does not look at.
pub record Poster (G : Type 0) : Type 1 where
  pub World : Type 0
  pub Event : Type 0
  pub IsBound : World → Type 0
  pub sched : World → Scheduler G
  pub put : World → Scheduler G → World
  pub cont : World → Handle
  pub posts : World → Event → Bool
  pub step : World → Event → World
  pub sched_put : (w : World) (s : Scheduler G) → sched (put w s) ≡ s
  pub put_again : (w : World) (s t : Scheduler G) → put (put w s) t ≡ put w t
  pub step_bound : (w : World) (e : Event) → IsBound w → IsBound (step w e)
  pub step_sched :
      (w : World) (e : Event)
      → IsBound w
      → sched (step w e) ≡ post_if (posts w e) (sched w) (cont w)
  pub step_put :
      (w : World) (s : Scheduler G) (e : Event)
      → IsBound w
      → step (put w s) e ≡ put (step w e) (post_if (posts w e) s (cont w))

-- What happens, in some order: to what posts, and to the scheduler.
pub data Turn (E G : Type 0) : Type 0 where
  of_tasks : E → Turn E G
  of_sched : Scheduler.Event G → Turn E G

module _ {E G : Type 0} where
  abbrev pub task_events : List (Turn E G) → List E
  task_events [] = []
  task_events (of_tasks e ∷ es) = e ∷ task_events es
  task_events (of_sched e ∷ es) = task_events es

  abbrev pub sched_events : List (Turn E G) → List (Scheduler.Event G)
  sched_events [] = []
  sched_events (of_tasks e ∷ es) = sched_events es
  sched_events (of_sched e ∷ es) = e ∷ sched_events es

module _ {G : Type 0} (p : Poster G) where
  open p use {World, Event, sched, put, step}

  -- What posts, alone.
  unfoldable pub alone : World → List Event → World
  alone w [] = w
  alone w (e ∷ es) = alone (step w e) es

  unfoldable pub take : World → Turn Event G → World × List Handle
  unfolding Scheduler.step
  take w (of_tasks e) = (step w e, [])
  take w (of_sched e) =
      let (sched', work) = Scheduler.step (sched w) e in (put w sched', resumed work)

  -- The new state, and the coroutines that the loop resumes.
  unfoldable pub run : World → List (Turn Event G) → World × List Handle
  unfolding take
  run w [] = (w, [])
  run w (e ∷ es) = let (w1, now) = take w e in let (w2, later) = run w1 es in (w2, now ++ later)
