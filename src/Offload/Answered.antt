-- ===== src/Offload/Answered.antt =====
-- What a coroutine finds when it is resumed from a submission to thread_pool.hpp.
pub mod Resumed
use cnerium.Prelude.{
  ℕ, zero, suc, ◌≡◌, true, refl, sym, ◌∙◌, ◌⊎◌, inl, inr, Option, none, some, List, [], ◌∷◌, ◌++◌,
  get_elem?, set, All, All-append, All-split, All-mono, All-set, All-get_elem?, arith, Bool-cases,
  ◌==◌,
}
use mathlib.Core.Path.{subst}
use cnerium.Error.{system_error, Outcome, returns, throws}
use cnerium.Cancel.{Flags, CancelToken, is_cancelled, cancelled_ec}
use cnerium.Scheduler
use cnerium.Scheduler.{Handle, null, Scheduler, post, post_handle}
use cnerium.Scheduler.Order.{NonNull, resumed, posted_handles, posted_handles-cons, step-cases}
use cnerium.ThreadPool
use cnerium.ThreadPool.Submit.{
  Awaitable, Submission, await_resume, run_job, finish, finish_all, finish_all-Finished,
}
use cnerium.Offload.{System, Event, of_pool, of_sched, sched_events, on_pool, on_sched, step, exec}

-- Cancelled tokens satisfy `C`.
module _ {R : Type 0} (C : CancelToken → Type 0) where
  -- The await of a submission ends as its callable did, or by the cancellation error, but that only if
  -- its token was cancelled.
  abbrev pub Ends : Outcome R → Awaitable R → Type 0
  Ends o aw =
      (await_resume aw ≡ some o)
      ⊎ (C aw.ct × (await_resume aw ≡ some (throws (system_error cancelled_ec))))

  -- A submission with that handle has ended so.
  abbrev pub Answered : List (Submission R) → Handle → Type 0
  Answered [] h = ⊥
  Answered (s ∷ subs) h = ((s.handle ≡ h) × Ends s.outcome s.awaitable) ⊎ Answered subs h

  -- Before its job runs no exception is stored, and afterwards the submission has ended.
  abbrev pub IsSound : Submission R → Type 0
  IsSound s = (s.awaitable.ex ≡ none) ⊎ Ends s.outcome s.awaitable

  pub run_job-Ends :
      (m : Flags) (o : Outcome R) (aw : Awaitable R)
      → (is_cancelled m aw.ct ≡ true → C aw.ct)
      → (aw.ex ≡ none) ⊎ Ends o aw
      → Ends o (run_job m o aw)
  unfolding await_resume run_job
  run_job-Ends m (returns r) aw c v = grind arith
  run_job-Ends m (throws x) aw c v = ground arith

  pub set-kept :
      (subs : List (Submission R)) (k : ℕ) (s s' : Submission R) (h : Handle)
      → get_elem? subs k ≡ some s
      → s'.handle ≡ s.handle
      → Ends s'.outcome s'.awaitable
      → Answered subs h
      → Answered (set subs k s') h
  set-kept [] k s s' h e eh d a = a
  set-kept (x ∷ subs) zero s s' h e eh d (inl (hx, _)) = inl (eh ∙ cc, d)
  set-kept (x ∷ subs) zero s s' h e eh d (inr a) = inr a
  set-kept (x ∷ subs) (suc k) s s' h e eh d (inl a) = inl a
  set-kept (x ∷ subs) (suc k) s s' h e eh d (inr a) = inr (set-kept subs k s s' h e eh d a)

  pub set-answers :
      (subs : List (Submission R)) (k : ℕ) (s s' : Submission R)
      → get_elem? subs k ≡ some s
      → Ends s'.outcome s'.awaitable
      → Answered (set subs k s') s'.handle
  set-answers [] k s s' e d = cc
  set-answers (x ∷ subs) zero s s' e d = inl (refl, d)
  set-answers (x ∷ subs) (suc k) s s' e d = inr (set-answers subs k s s' e d)

module _ {G : Type 0} (P : Handle → Type 0) where
  -- What holds of all queued coroutines, posts included, holds of those resumed and those left.
  pub post-All :
      (sched : Scheduler G) (h : Handle)
      → All P sched.handle_q
      → P h
      → All P (post_handle sched h).handle_q
  unfolding post_handle post
  post-All sched h a p = elim (Bool-cases (h == null)) [
    | inl n ↦ rw n a
    | inr n ↦ rw n (All-append P sched.handle_q (h ∷ []) a (p, tt))
  ]

  pub step_sched-All :
      (sched : Scheduler G) (e : Scheduler.Event G)
      → NonNull sched.handle_q
      → All P (sched.handle_q ++ posted_handles (e ∷ []))
      → All P (resumed (Scheduler.step sched e).1 ++ (Scheduler.step sched e).0.handle_q)
  step_sched-All sched e n a = elim (step-cases sched e n).0 [
    | inl same ↦ subst (All P) (sym same) a
    | inr gone ↦ subst (All P) (sym gone) tt
  ]

module _ (C : CancelToken → Type 0) where
  -- Flags that cancel no other tokens.
  abbrev pub AllowsFlags : Flags → Type 0
  AllowsFlags m = (ct : CancelToken) → is_cancelled m ct ≡ true → C ct

  -- Events during which no other tokens are cancelled.
  abbrev pub Allows : {G : Type 0} → List (Event G) → Type 0
  Allows [] = Unit
  Allows (of_pool m e ∷ es) = AllowsFlags m × Allows es
  Allows (of_sched e ∷ es) = Allows es
