-- ===== src/Task/Spawn.antt =====
-- include/vix/async/core/spawn.hpp: the detached coroutine that awaits a task, from its start to the
-- end of its frame, which holds the task as its parameter.
use cnerium.Prelude.{zero, suc, ◌≡◌, refl, false, Option, none, some, arith, ◌==◌, if◌then◌else◌}
use cnerium.Error.{Outcome, returns, throws}
use cnerium.Scheduler.{Handle, null, Scheduler, post_handle}
use cnerium.Task.{
  Frame, begun, destroyed, Heap, frame_at, write, finish, destroy_frame, is_done, await_ready,
  await_suspend, await_resume_void,
}
use cnerium.Task.Await.{HasEnded, void_outcome, await_resume-finish, finish-frame, frame_at-write}

-- `spawn_detached`: the frame of `make_detached`, by its handle, is posted.
unfoldable pub spawn_detached : {G : Type 0} → Scheduler G → Handle → Scheduler G
unfolding post_handle
spawn_detached sched self = post_handle sched self

-- `unhandled_exception` swallows what the task throws.
swallow : Outcome (Unit {0}) → Unit {0}
swallow (returns u) = u
swallow (throws e) = tt

module _ {V : Type 0} where
  -- `make_detached` when it is resumed first, with its own handle and that of its task: where control
  -- goes, itself if the task is ready.
  unfoldable pub detached_begin : Heap V → Handle → Handle → Heap V × Handle
  unfolding await_ready await_suspend
  detached_begin fs self t = if await_ready fs t then (fs, self) else await_suspend fs t self

  -- The rest of `make_detached`, from the end of its await: its final suspension destroys its frame,
  -- and with it the task. It is `none` where the await reads a promise that is not there.
  ends_with : Heap V → Handle → Option (Outcome (Unit {0})) → Option (Heap V × Unit {0})
  unfolding destroy_frame frame_at swallow
  ends_with fs t none = none
  ends_with fs t (some o) = some (destroy_frame fs t (frame_at fs t), swallow o)

  unfoldable pub detached_end : Heap V → Handle → Option (Heap V × Unit {0})
  unfolding ends_with await_resume_void
  detached_end fs t = ends_with fs t (await_resume_void fs t)

  starts-task :
      (fs : Heap V) (self t : Handle) (f : Frame V)
      → frame_at fs t ≡ some f
      → f.status ≡ begun
      → detached_begin fs self t ≡ await_suspend fs t self
  unfolding detached_begin await_ready is_done
  starts-task fs self zero f e b = cc
  starts-task fs self (suc t) f e b = ground arith

  end-ended :
      (fs : Heap V) (t : Handle) (g : Frame V) (r : Outcome (Unit {0}))
      → await_resume_void fs t ≡ some r
      → frame_at fs t ≡ some g
      → (fs3 : Heap V) × ((detached_end fs t ≡ some (fs3, tt)) × HasEnded (frame_at fs3 t))
  unfolding detached_end ends_with destroy_frame
  end-ended fs t g r e k = (
    write fs t (record g { status = destroyed }),
    (rw (e, k) refl, rw (frame_at-write fs t (record g { status = destroyed }) g k) refl),
  )

  -- A spawned task runs to its end and takes its frame with it: its coroutine is started when the
  -- detached one first runs, the end of its body, by a value or an exception, resumes the detached
  -- coroutine, and that one ends with the frame of the task destroyed and no exception.
  pub detached_end-finish :
      (fs : Heap V) (self t : Handle) (f : Frame V) (o : Outcome V)
      → frame_at fs t ≡ some f
      → f.status ≡ begun
      → f.promise.exception ≡ none
      → self == null ≡ false
      → let (fs1, first) = detached_begin fs self t in
        let (fs2, next) = finish fs1 t o (frame_at fs1 t) in
        (first ≡ t)
        × (next ≡ self)
        × ((fs3 : Heap V) × ((detached_end fs2 t ≡ some (fs3, tt)) × HasEnded (frame_at fs3 t)))
  detached_end-finish fs self t f o e b x s =
      let (first, next, later) = await_resume-finish fs t self f o e b x s in
      let (g, found) = finish-frame fs t self f o e b s in
      rw (starts-task fs self t f e b) (first, next, end-ended _ t g (void_outcome o) later.2 found)
