-- ===== src/Sleep/Early/Fates.antt =====
-- What the timer thread of timer.cpp posts is due.
use cnerium.Prelude.{
  ℕ, ◌≤◌, ◌≡◌, refl, ◌∙◌, Option, none, some, List, [], ◌∷◌, map, All, All-append, arith,
  Option-cases, inl, inr,
}
use cnerium.Cancel.{Flags}
use cnerium.Scheduler.{Handle, Scheduler}
use cnerium.Timer.{
  Entry, Loop, at_head, aiming, sleeping, firing, posting, ended, Fate, fires, cancels, clears,
  fire_move, loop_move, Timer,
}
use cnerium.Timer.Firing.{IsTimely}
use cnerium.Timer.Account.{erase_first-insert}
use cnerium.Timer.Fifo.Queue.{All-insert}
use cnerium.Sleep.{Callable, job, ctx_post, ctx_post_all}
use cnerium.Sleep.Early.{DueJob, DueEntry, DueHeld, DueFate, DueCall}

module _ (due : Handle → ℕ) where
  pub DueJob-mono : (t u : ℕ) (o : Option Handle) → t ≤ u → DueJob due t o → DueJob due u o
  DueJob-mono t u none h k = tt
  DueJob-mono t u (some j) h k = omega arith

  pub clears-DueFate : (now : ℕ) (q : List (Entry Handle)) → All (DueFate due now) (map clears q)
  clears-DueFate now [] = tt
  clears-DueFate now (x ∷ q) = (tt, clears-DueFate now q)

  pub fire-DueFate :
      (now : ℕ) (e : Entry Handle)
      → DueEntry due e
      → e.when ≤ now
      → All (DueFate due now) (fire_move now e)
  unfolding fire_move
  fire-DueFate now e d h = elim (Option-cases e.j) [
    | inl n ↦ rw (n, fire_move) tt
    | inr (j, n) ↦ rw (n, fire_move) (rw n (rw n at (DueJob-mono e.when now e.j h d)), tt)
  ]

  pub loop-Due :
      (m : Flags) (now : ℕ) (t : Timer Handle) (q : List (Entry Handle)) (l : Loop Handle)
      → t.q ≡ q
      → All (DueEntry due) q
      → DueHeld due l
      → IsTimely now l
      → All (DueEntry due) (loop_move m now t l).0.q
        × DueHeld due (loop_move m now t l).1
        × All (DueFate due now) (loop_move m now t l).2
  unfolding loop_move
  loop-Due m now t [] at_head e a h k = ground arith
  loop-Due m now t (x ∷ q) at_head e a h k = ground arith
  loop-Due m now t [] (aiming next) e a h k = ground arith
  loop-Due m now t (x ∷ q) (aiming next) e a h k =
      ground (arith, erase_first-insert x next q, All-insert (DueEntry due) next q h a.1)
  loop-Due m now t q (sleeping next) e a h k = ground arith
  loop-Due m now t q (firing next) e a h k = ground arith
  loop-Due m now t q (posting next) e a h k = (rw e a, tt, fire-DueFate now next h k)
  loop-Due m now t q ended e a h k = (rw e a, tt, tt)

module _ {G : Type 0} (due : Handle → ℕ) where
  pub ctx_post-DueCall :
      (now : ℕ) (sched : Scheduler (Callable G)) (f : Fate Handle)
      → All (DueCall due now) sched.fn_q
      → DueFate due now f
      → All (DueCall due now) (ctx_post sched f).fn_q
        × ((ctx_post sched f).handle_q ≡ sched.handle_q)
  unfolding ctx_post
  ctx_post-DueCall now sched (fires at e) a b = elim (Option-cases e.j) [
    | inl n ↦ rw n (a, refl)
    | inr (j, n) ↦
        rw n (All-append (DueCall due now) sched.fn_q (some (job j) ∷ []) a (rw n at b, tt), refl)
  ]
  ctx_post-DueCall now sched (cancels e) a b = (a, refl)
  ctx_post-DueCall now sched (clears e) a b = (a, refl)

  pub ctx_post_all-DueCall :
      (now : ℕ) (sched : Scheduler (Callable G)) (fs : List (Fate Handle))
      → All (DueCall due now) sched.fn_q
      → All (DueFate due now) fs
      → All (DueCall due now) (ctx_post_all sched fs).fn_q
        × ((ctx_post_all sched fs).handle_q ≡ sched.handle_q)
  unfolding ctx_post_all
  ctx_post_all-DueCall now sched [] a b = (a, refl)
  ctx_post_all-DueCall now sched (f ∷ fs) a b =
      let (a1, e1) = ctx_post-DueCall now sched f a b.0 in
      let (a2, e2) = ctx_post_all-DueCall now (ctx_post sched f) fs a1 b.1 in (a2, e2 ∙ e1)
