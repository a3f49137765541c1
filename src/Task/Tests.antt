-- ===== src/Task/Tests.antt =====
-- Runs of the tasks of task.hpp and spawn.hpp, and their theorems at concrete inputs.
use cnerium.Prelude.{ℕ, ◌+◌, ◌≡◌, refl, true, false, none, some, List, [], ◌∷◌, total}
use cnerium.Error.{user, throws}
use cnerium.Scheduler.{Handle, null, Scheduler}
use cnerium.Scheduler
use cnerium.Task.{
  Frame, begun, Heap, World, Event, creates, move_assigns, destructs, starts, destroys, detaches,
  frame_at, write, create, finish, await_ready, await_suspend, await_resume, await_resume_void,
  destroy_frame, destroy, move_assign, start, step, exec,
}
use cnerium.Task.Await.{HasEnded, await_resume-finish}
use cnerium.Task.Owner.{fate_weight, created, exec-owned}
use cnerium.Task.Spawn.{detached_begin, detached_end, detached_end-finish}

abbrev none_yet : World ℕ ℕ
none_yet = record {
  frames = [];
  tasks = [];
  sched = record { handle_q = []; fn_q = []; stop_requested = false; running = true };
}

-- Two tasks are made; the second is assigned to the first, whose frame goes, and is then started.
abbrev replaced : List (Event ℕ)
replaced = creates ∷ creates ∷ move_assigns 0 1 ∷ starts 0 ∷ destructs 0 ∷ destructs 1 ∷ []

fates_of_two : (exec none_yet replaced).1 ≡ destroys 1 ∷ detaches 2 ∷ []
unfolding exec step create move_assign destroy start destroy_frame frame_at write
    Scheduler.post_handle Scheduler.post
fates_of_two = refl

posted_second : (exec none_yet replaced).0.sched.handle_q ≡ 2 ∷ []
unfolding exec step create move_assign destroy start destroy_frame frame_at write
    Scheduler.post_handle Scheduler.post
posted_second = refl

exec-owned_example :
    total (fate_weight (λ h. h)) (exec none_yet replaced).1
      + total (λ h. h) (exec none_yet replaced).0.tasks
    ≡ total (λ h. h) none_yet.tasks + total (λ h. h) (created none_yet replaced)
exec-owned_example = exec-owned (λ h. h) none_yet replaced refl

abbrev fresh : Frame ℕ
fresh = record {
  promise = record { continuation = null; exception = none; detached = true; value = none };
  status = begun;
}

abbrev one_frame : Heap ℕ
one_frame = fresh ∷ []

await_resume-finish_example :
    let (fs1, first) = await_suspend one_frame 1 5 in
    let (fs2, next) = finish fs1 1 (throws (user 3)) (frame_at fs1 1) in
    (first ≡ 1)
    × (next ≡ 5)
    × ((await_ready fs2 1 ≡ true)
        × (await_resume fs2 1 ≡ some (throws (user 3)))
        × (await_resume_void fs2 1 ≡ some (throws (user 3))))
unfolding frame_at
await_resume-finish_example =
    await_resume-finish one_frame 1 5 fresh (throws (user 3)) refl refl refl refl

detached_end-finish_example :
    let (fs1, first) = detached_begin one_frame 7 1 in
    let (fs2, next) = finish fs1 1 (throws (user 3)) (frame_at fs1 1) in
    (first ≡ 1)
    × (next ≡ 7)
    × ((fs3 : Heap ℕ) × ((detached_end fs2 1 ≡ some (fs3, tt)) × HasEnded (frame_at fs3 1)))
unfolding frame_at
detached_end-finish_example =
    detached_end-finish one_frame 7 1 fresh (throws (user 3)) refl refl refl refl

-- An await of an empty task does not suspend, and then reads a promise that is not there.
empty_await : (await_ready one_frame null ≡ true) × (await_resume one_frame null ≡ none)
unfolding await_ready await_resume frame_at
empty_await = (refl, refl)
