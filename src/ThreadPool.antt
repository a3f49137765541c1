-- ===== src/ThreadPool.antt =====
-- include/vix/async/core/thread_pool.hpp and src/core/thread_pool.cpp: a queue of callables and
-- the worker threads that drain it. A callable is a `std::function`, `none` when it is empty; a
-- worker is where its thread stands in `worker_loop`.
pub mod Account
pub mod Shutdown
pub mod Submit
pub mod Contract
pub mod Tests
use cnerium.Prelude.{
  ℕ, suc, ◌≡◌, Bool, true, false, ◌||◌, ◌&&◌, not, Option, none, some, List, [], ◌∷◌, ◌++◌, length,
  is_empty, get_elem?, set, replicate, ◌==◌, if◌then◌else◌,
}

pub data Worker (F : Type 0) : Type 0 where
  -- at the head of the loop, or in `wait`
  looping : Worker F
  -- out of the locked section, with what was taken
  holding : Option F → Worker F
  exited : Worker F

pub record Pool (F : Type 0) : Type 0 where
  pub q : List (Option F)
  pub stop_flag : Bool
  pub workers : List (Worker F)
  pub shutdown_done : Bool

module _ {F : Type 0} where
  -- The constructor starts one thread where none is asked for.
  unfoldable pub init : ℕ → Pool F
  init threads = record {
    q = [];
    stop_flag = false;
    workers = replicate (if threads == 0 then 1 else threads) looping;
    shutdown_done = false;
  }

  unfoldable pub size : Pool F → ℕ
  size p = length p.workers

  unfoldable pub enqueue : Pool F → Option F → Pool F
  enqueue p fn = if p.stop_flag then p else record p { q = p.q ++ fn ∷ [] }

  -- `submit(std::function<void()>)`
  unfoldable pub submit : Pool F → Option F → Pool F
  unfolding enqueue
  submit p none = p
  submit p (some f) = enqueue p (some f)

  unfoldable pub stop : Pool F → Pool F
  stop p = record p { stop_flag = true }

  -- The section of `worker_loop` under the lock: where the worker goes on. It stays in `wait` while
  -- the predicate is false.
  take_front : List (Option F) → Pool F → Pool F × Worker F
  take_front (fn ∷ rest) p = (record p { q = rest }, holding fn)
  take_front [] p = (p, if p.stop_flag then exited else looping)

  unfoldable pub take : Pool F → Pool F × Worker F
  unfolding take_front
  take p = if p.stop_flag || not (is_empty p.q) then take_front p.q p else (p, looping)

  -- One move of a worker: the locked section, or the call of what it took. What the callable
  -- throws is swallowed.
  unfoldable pub worker_move : Pool F → Worker F → Pool F × Worker F × List F
  unfolding take
  worker_move p looping = ((take p).0, (take p).1, [])
  worker_move p (holding none) = (p, looping, [])
  worker_move p (holding (some f)) = (p, looping, f ∷ [])
  worker_move p exited = (p, exited, [])

  -- The first half of `shutdown`, up to the joins, and whether this call goes on to them. The
  -- exchange is taken together with the section behind it: nothing but `shutdown` reads the flag.
  unfoldable pub shutdown_begin : Pool F → Pool F × Bool
  unfolding stop
  shutdown_begin p =
      if p.shutdown_done then (p, false) else (stop (record p { shutdown_done = true }), true)

  is_exited : Worker F → Bool
  is_exited exited = true
  is_exited _ = false

  -- Whether the joins return: each waits for its worker, but the worker that itself calls
  -- `shutdown`, given by its index, is detached.
  unfoldable pub joins : Option ℕ → ℕ → List (Worker F) → Bool
  unfolding is_exited
  joins self i [] = true
  joins self i (w ∷ ws) =
      (is_exited w || elim self [ none ↦ false | some k ↦ k == i ]) && joins self (suc i) ws

  -- The rest of `shutdown`, once the joins have returned; until then the thread waits.
  unfoldable pub shutdown_end : Option ℕ → Pool F → Option (Pool F)
  unfolding joins
  shutdown_end self p = if joins self 0 p.workers then some (record p { workers = [] }) else none

-- What happens to a pool, in some order: calls made by other threads or by the callables, and moves
-- of its workers, each given by its index.
pub data Event (F : Type 0) : Type 0 where
  submits : Option F → Event F
  stops : Event F
  shuts : Event F
  moves : ℕ → Event F

module _ {F : Type 0} where
  -- The pool after a worker has moved from where it stood, and what it has run.
  place : ℕ → Pool F × Worker F × List F → Pool F × List F
  place i (p, w, ran) = (record p { workers = set p.workers i w }, ran)

  unfoldable pub move : Pool F → ℕ → Option (Worker F) → Pool F × List F
  unfolding worker_move place
  move p i none = (p, [])
  move p i (some w) = place i (worker_move p w)

  unfoldable pub step : Pool F → Event F → Pool F × List F
  unfolding submit stop shutdown_begin move
  step p (submits fn) = (submit p fn, [])
  step p stops = (stop p, [])
  step p shuts = ((shutdown_begin p).0, [])
  step p (moves i) = move p i (get_elem? p.workers i)

  -- The new state, and the callables that were run, in the order in which they were called.
  unfoldable pub exec : Pool F → List (Event F) → Pool F × List F
  exec p [] = (p, [])
  exec p (e ∷ es) = let (p1, ran) = step p e in let (p2, later) = exec p1 es in (p2, ran ++ later)
