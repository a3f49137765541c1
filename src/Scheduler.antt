-- ===== src/Scheduler.antt =====
-- include/vix/async/core/scheduler.hpp: the two queues, and the loop of `run` a turn at a time.
-- A coroutine handle is the address of its frame, `null` for the empty one; a callable of the
-- generic queue is a `std::function`, `none` when it is empty.
pub mod Order
pub mod Shutdown
pub mod Resumed
pub mod Agenda
pub mod Tests
use cnerium.Prelude.{
  ℕ, ◌+◌, ◌≡◌, Bool, true, false, ◌||◌, not, Option, none, some, List, [], ◌∷◌, ◌++◌, length,
  is_empty, ◌==◌, if◌then◌else◌,
}

abbrev pub Handle : Type 0
Handle = ℕ

abbrev pub null : Handle
null = 0

pub record Scheduler (F : Type 0) : Type 0 where
  pub handle_q : List Handle
  pub fn_q : List (Option F)
  pub stop_requested : Bool
  pub running : Bool

-- What the loop does with what it took under the lock.
pub data Work (F : Type 0) : Type 0 where
  resumes : Handle → Work F
  calls : F → Work F

pub data Turn (F : Type 0) : Type 0 where
  -- the predicate of the condition variable is false: the thread stays in `wait`
  waits : Turn F
  -- `break`
  leaves : Turn F
  runs : Work F → Turn F
  -- an empty callable was taken and is not called
  skips : Turn F

module _ {F : Type 0} where
  unfoldable pub init : Scheduler F
  init = record { handle_q = []; fn_q = []; stop_requested = false; running = false }

  -- `post(Fn &&)`
  unfoldable pub post_fn : Scheduler F → Option F → Scheduler F
  post_fn s fn = record s { fn_q = s.fn_q ++ fn ∷ [] }

  -- `post(std::coroutine_handle<>)`
  unfoldable pub post : Scheduler F → Handle → Scheduler F
  post s h = if h == null then s else record s { handle_q = s.handle_q ++ h ∷ [] }

  unfoldable pub post_handle : Scheduler F → Handle → Scheduler F
  unfolding post
  post_handle s h = post s h

  unfoldable pub stop : Scheduler F → Scheduler F
  stop s = record s { stop_requested = true }

  unfoldable pub reset : Scheduler F → Scheduler F
  reset s = record s { stop_requested = false }

  unfoldable pub is_running : Scheduler F → Bool
  is_running s = s.running

  unfoldable pub pending_handles : Scheduler F → ℕ
  pending_handles s = length s.handle_q

  unfoldable pub pending_functions : Scheduler F → ℕ
  pending_functions s = length s.fn_q

  unfoldable pub pending : Scheduler F → ℕ
  pending s = length s.handle_q + length s.fn_q

  -- `schedule_awaitable::await_suspend`: what is resumed inline, if anything, and the target.
  unfoldable pub await_suspend : Option (Scheduler F) → Handle → Option (Scheduler F) × List Handle
  unfolding post_handle
  await_suspend none h = (none, if h == null then [] else h ∷ [])
  await_suspend (some s) h = (some (post_handle s h), [])

  -- The head of `run`.
  unfoldable pub run_begin : Scheduler F → Scheduler F
  run_begin s = record s { running = true }

  -- The store after the loop of `run`.
  unfoldable pub run_end : Scheduler F → Scheduler F
  run_end s = record s { running = false }

  -- The predicate that `run` waits for.
  unfoldable pub wakes : Scheduler F → Bool
  wakes s = s.stop_requested || (not (is_empty s.handle_q) || not (is_empty s.fn_q))

  -- `if (h) { h.resume(); continue; } if (fn) fn();`
  unfoldable pub work_of : Handle → Option F → Turn F
  work_of h none = if h == null then skips else runs (resumes h)
  work_of h (some f) = if h == null then runs (calls f) else runs (resumes h)

  take_work : List Handle → List (Option F) → Scheduler F → Scheduler F × Turn F
  unfolding work_of
  take_work (h ∷ hs) fs s = (record s { handle_q = hs }, work_of h none)
  take_work [] (f ∷ fs) s = (record s { fn_q = fs }, work_of null f)
  take_work [] [] s = (s, skips)

  -- One turn of the loop of `run`: the section under the lock, and what follows it.
  unfoldable pub turn : Scheduler F → Scheduler F × Turn F
  unfolding wakes take_work run_end
  turn s =
      if wakes s
      then (if s.stop_requested
          then (run_end (record s { handle_q = []; fn_q = [] }), leaves)
          else take_work s.handle_q s.fn_q s)
      else (s, waits)

  abbrev work : Turn F → List (Work F)
  work (runs w) = w ∷ []
  work _ = []

-- What happens to a scheduler, in some order: calls made by other threads or by the work that
-- runs, and the one thread that enters `run` and takes its turns.
pub data Event (F : Type 0) : Type 0 where
  posts_fn : Option F → Event F
  posts : Handle → Event F
  stops : Event F
  resets : Event F
  enters : Event F
  turns : Event F

module _ {F : Type 0} where
  -- The new state, and the work that the event runs. Outside `run` no turn is taken.
  unfoldable pub step : Scheduler F → Event F → Scheduler F × List (Work F)
  unfolding post_fn post_handle stop reset run_begin turn
  step s (posts_fn f) = (post_fn s f, [])
  step s (posts h) = (post_handle s h, [])
  step s stops = (stop s, [])
  step s resets = (reset s, [])
  step s enters = (run_begin s, [])
  step s turns = if s.running then ((turn s).0, work (turn s).1) else (s, [])

  unfoldable pub exec : Scheduler F → List (Event F) → Scheduler F × List (Work F)
  exec s [] = (s, [])
  exec s (e ∷ es) = let (s1, done) = step s e in let (s2, later) = exec s1 es in (s2, done ++ later)
