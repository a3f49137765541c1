-- ===== src/When/Turns/Open.antt =====
-- Posts to a scheduler of scheduler.hpp that nobody has stopped.
use cnerium.Prelude.{
  ℕ, ◌+◌, ◌≡◌, true, false, Bool, List, [], ◌∷◌, total, total-append, arith, Bool-cases, inl, inr,
  ◌==◌,
}
use cnerium.Scheduler.{Handle, null, Scheduler, post, post_handle}
use cnerium.Scheduler.Order.{NonNull, NonNull-append}
use cnerium.When.{start_all}
use cnerium.When.Turns.{post_if}

-- Nobody has stopped it, and no null is in its queue.
pub record IsOpen {G : Type 0} (sched : Scheduler G) : Type 0 where
  pub real : NonNull sched.handle_q
  pub open_ : sched.stop_requested ≡ false

module _ {G : Type 0} where
  post-IsOpen : (sched : Scheduler G) (h : Handle) → IsOpen sched → IsOpen (post_handle sched h)
  unfolding post_handle post
  post-IsOpen sched h o = elim (Bool-cases (h == null)) [
    | inl n ↦ rw n o
    | inr n ↦ rw n (record { real = NonNull-append sched.handle_q h o.real n; open_ = o.open_ })
  ]

  pub post_if-IsOpen :
      (b : Bool) (sched : Scheduler G) (h : Handle) → IsOpen sched → IsOpen (post_if b sched h)
  post_if-IsOpen true sched h o = post-IsOpen sched h o
  post_if-IsOpen false sched h o = o

  pub start_all-IsOpen :
      (rs : List Handle) (sched : Scheduler G) → IsOpen sched → IsOpen (start_all rs sched)
  unfolding start_all
  start_all-IsOpen [] sched o = o
  start_all-IsOpen (r ∷ rs) sched o =
      start_all-IsOpen rs (post_handle sched r) (post-IsOpen sched r o)

  -- A post adds the same to any scheduler.
  pub post_if-weight :
      (v : Handle → ℕ) (b : Bool) (s t : Scheduler G) (h : Handle)
      → total v (post_if b s h).handle_q + total v t.handle_q
        ≡ total v s.handle_q + total v (post_if b t h).handle_q
  unfolding post_handle post
  post_if-weight v true s t h =
      ground (arith, total-append v s.handle_q (h ∷ []), total-append v t.handle_q (h ∷ []))
  post_if-weight v false s t h = omega arith
