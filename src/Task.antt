-- ===== src/Task.antt =====
-- include/vix/async/core/task.hpp: the frames of coroutines with their promises, the task objects
-- that own them, and how an await passes results on. A handle is one more than the index of its
-- frame on the heap; a frame that is destroyed stays there as such. A value of a result type is a
-- `V`.
pub mod Await
pub mod Owner
pub mod Spawn
pub mod Tests
use cnerium.Prelude.{
  ℕ, zero, suc, Bool, true, false, ◌||◌, not, Option, none, some, List, [], ◌∷◌, ◌++◌, length,
  get_elem?, set, ◌==◌, if◌then◌else◌,
}
use cnerium.Error.{Exception, Outcome, returns, throws}
use cnerium.Scheduler.{Handle, null, Scheduler, post_handle}

-- `promise_common` and `promise_value<T>`
pub record Promise (V : Type 0) : Type 0 where
  pub continuation : Handle
  pub exception : Option Exception
  pub detached : Bool
  pub value : Option V

pub data Status : Type 0 where
  -- suspended before its body, or on the way through it
  begun : Status
  -- at its final suspension
  done : Status
  destroyed : Status

pub record Frame (V : Type 0) : Type 0 where
  pub promise : Promise V
  pub status : Status

abbrev pub Heap : Type 0 → Type 0
Heap V = List (Frame V)

module _ {V : Type 0} where
  unfoldable pub frame_at : Heap V → Handle → Option (Frame V)
  frame_at fs zero = none
  frame_at fs (suc k) = get_elem? fs k

  unfoldable pub write : Heap V → Handle → Frame V → Heap V
  write fs zero f = fs
  write fs (suc k) f = set fs k f

  -- The coroutine's call, up to `initial_suspend`: its frame and the handle of its task.
  unfoldable pub create : Heap V → Heap V × Handle
  create fs = (
    fs
        ++ record {
          promise = record {
            continuation = null;
            exception = none;
            detached = false;
            value = none;
          };
          status = begun;
        }
          ∷ [],
    suc (length fs),
  )

  -- `std::coroutine_handle::destroy`
  unfoldable pub destroy_frame : Heap V → Handle → Option (Frame V) → Heap V
  unfolding write
  destroy_frame fs h none = fs
  destroy_frame fs h (some f) = write fs h (record f { status = destroyed })

  -- `return_value`, or `unhandled_exception`
  unfoldable pub store_outcome : Outcome V → Promise V → Promise V
  store_outcome (returns v) p = record p { value = some v }
  store_outcome (throws e) p = record p { exception = some e }

  -- `final_awaiter::await_suspend`: the heap, and the coroutine that goes on, null for none.
  unfoldable pub final_suspend : Heap V → Handle → Frame V → Heap V × Handle
  unfolding write
  final_suspend fs h f =
      if not (f.promise.continuation == null)
      then (write fs h (record f { status = done }), f.promise.continuation)
      else if f.promise.detached
      then (write fs h (record f { status = destroyed }), null)
      else (write fs h (record f { status = done }), null)

  -- The body ends by an outcome, and the coroutine comes to its final suspension. A coroutine that is
  -- there already, or destroyed, does not end.
  finish_from : Status → Heap V → Handle → Outcome V → Frame V → Heap V × Handle
  unfolding final_suspend store_outcome
  finish_from begun fs h o f = final_suspend fs h (record f { promise = store_outcome o f.promise })
  finish_from _ fs h o f = (fs, null)

  unfoldable pub finish : Heap V → Handle → Outcome V → Option (Frame V) → Heap V × Handle
  unfolding finish_from
  finish fs h o none = (fs, null)
  finish fs h o (some f) = finish_from f.status fs h o f

  is_done : Option (Frame V) → Bool
  is_done none = false
  is_done (some f) = elim f.status [ begun ↦ false | done ↦ true | destroyed ↦ false ]

  -- `task_awaiter`
  unfoldable pub await_ready : Heap V → Handle → Bool
  unfolding frame_at is_done
  await_ready fs h = h == null || is_done (frame_at fs h)

  set_continuation : Handle → Frame V → Frame V
  set_continuation awaiting f = record f { promise = record f.promise { continuation = awaiting } }

  unfoldable pub await_suspend : Heap V → Handle → Handle → Heap V × Handle
  unfolding frame_at write set_continuation
  await_suspend fs h awaiting = elim (frame_at fs h) [
    | none ↦ (fs, h)
    | some f ↦ (write fs h (set_continuation awaiting f), h)
  ]

  -- `await_resume`, for a type other than void and for void: `none` where it reads a promise, or
  -- takes a value, that is not there.
  live : Option (Frame V) → Option (Promise V)
  live none = none
  live (some f) = elim f.status [
    | begun ↦ some f.promise
    | done ↦ some f.promise
    | destroyed ↦ none
  ]

  result_of : Option (Promise V) → Option (Outcome V)
  result_of none = none
  result_of (some p) = elim p.exception [
    | some e ↦ some (throws e)
    | none ↦ elim p.value [ none ↦ none | some v ↦ some (returns v) ]
  ]

  unfoldable pub await_resume : Heap V → Handle → Option (Outcome V)
  unfolding frame_at live result_of
  await_resume fs h = result_of (live (frame_at fs h))

  void_result_of : Option (Promise V) → Option (Outcome (Unit {0}))
  void_result_of none = none
  void_result_of (some p) = some (elim p.exception [ some e ↦ throws e | none ↦ returns tt ])

  unfoldable pub await_resume_void : Heap V → Handle → Option (Outcome (Unit {0}))
  unfolding frame_at live void_result_of
  await_resume_void fs h = void_result_of (live (frame_at fs h))

  detach : Option (Frame V) → Handle → Heap V → Heap V
  unfolding write
  detach none h fs = fs
  detach (some f) h fs = write fs h (record f { promise = record f.promise { detached = true } })

unfoldable pub valid : Handle → Bool
valid h = not (h == null)

-- The task objects, by their handles, with the heap and the scheduler.
pub record World (G V : Type 0) : Type 0 where
  pub frames : Heap V
  pub tasks : List Handle
  pub sched : Scheduler G

-- What happens to a handle that a task owns: its frame is destroyed, or the task gives it up to the
-- scheduler or to the caller.
pub data Fate : Type 0 where
  destroys : Handle → Fate
  detaches : Handle → Fate
  gives : Handle → Fate

pub data Event (V : Type 0) : Type 0 where
  creates : Event V
  move_constructs : ℕ → Event V
  move_assigns : ℕ → ℕ → Event V
  destructs : ℕ → Event V
  releases : ℕ → Event V
  starts : ℕ → Event V
  finishes : Handle → Outcome V → Event V

module _ {G V : Type 0} where
  -- `destroy`, of the task at an index with its handle.
  unfoldable pub destroy : World G V → ℕ → Handle → World G V × List Fate
  unfolding destroy_frame frame_at
  destroy w i h = if h == null then (w, []) else (
    record w {
      frames = destroy_frame w.frames h (frame_at w.frames h);
      tasks = set w.tasks i null;
    },
    destroys h ∷ [],
  )

  unfoldable pub move_construct : World G V → ℕ → Handle → World G V
  move_construct w i h = record w { tasks = set w.tasks i null ++ h ∷ [] }

  unfoldable pub move_assign : World G V → ℕ → ℕ → Handle → Handle → World G V × List Fate
  unfolding destroy
  move_assign w i j h k =
      if i == j
      then (w, [])
      else let (w', fates) = destroy w i h in
        (record w' { tasks = set (set w'.tasks i k) j null }, fates)

  unfoldable pub release : World G V → ℕ → Handle → World G V × List Fate
  release w i h = (record w { tasks = set w.tasks i null }, gives h ∷ [])

  unfoldable pub start : World G V → ℕ → Handle → World G V × List Fate
  unfolding detach frame_at post_handle
  start w i h = if h == null then (w, []) else (
    record w {
      frames = detach (frame_at w.frames h) h w.frames;
      sched = post_handle w.sched h;
      tasks = set w.tasks i null;
    },
    detaches h ∷ [],
  )

  on : (Handle → World G V × List Fate) → World G V → Option Handle → World G V × List Fate
  on op w none = (w, [])
  on op w (some h) = op h

  unfoldable pub step : World G V → Event V → World G V × List Fate
  unfolding create move_construct move_assign destroy release start finish frame_at on
  step w creates =
      (record w { frames = (create w.frames).0; tasks = w.tasks ++ (create w.frames).1 ∷ [] }, [])
  step w (move_constructs i) = on (λ h. (move_construct w i h, [])) w (get_elem? w.tasks i)
  step w (move_assigns i j) =
      on (λ h. on (λ k. move_assign w i j h k) w (get_elem? w.tasks j)) w (get_elem? w.tasks i)
  step w (destructs i) = on (destroy w i) w (get_elem? w.tasks i)
  step w (releases i) = on (release w i) w (get_elem? w.tasks i)
  step w (starts i) = on (start w i) w (get_elem? w.tasks i)
  step w (finishes h o) = (record w { frames = (finish w.frames h o (frame_at w.frames h)).0 }, [])

  unfoldable pub exec : World G V → List (Event V) → World G V × List Fate
  exec w [] = (w, [])
  exec w (e ∷ es) =
      let (w1, fates) = step w e in let (w2, later) = exec w1 es in (w2, fates ++ later)
