-- ===== src/ThreadPool/Submit.antt =====
-- thread_pool.hpp: the awaitable of `submit(Fn &&, cancel_token)`, which runs a callable on a worker
-- and resumes the awaiting coroutine through the scheduler. The job of a submission is its index.
use cnerium.Prelude.{
  ℕ, zero, suc, ◌+◌, ◌≡◌, refl, sym, ap, fun_ext, Option, none, some, List, [], ◌∷◌, get_elem?, set,
  total, total-append, arith, if◌then◌else◌, ◌==◌, ◌∙◌, Bool-cases, inl, inr,
}
use cnerium.Error.{Exception, system_error, Outcome, returns, throws}
use cnerium.Cancel.{Flags, CancelToken, is_cancelled, cancelled_ec}
use cnerium.Scheduler.{Handle, null, Scheduler, post_handle, post}
use cnerium.Scheduler.Order.{NonNull, NonNull-append}

pub record Awaitable (R : Type 0) : Type 0 where
  pub ct : CancelToken
  pub store : Option R
  pub ex : Option Exception

-- A submission: its awaitable, the coroutine that awaits it, and how the callable ends.
pub record Submission (R : Type 0) : Type 0 where
  pub awaitable : Awaitable R
  pub handle : Handle
  pub outcome : Outcome R

abbrev handle_of : {R : Type 0} → Option (Submission R) → Handle
handle_of none = null
handle_of (some s) = s.handle

-- The coroutine that awaits a submission, null for none.
abbrev pub handle_at : {R : Type 0} → List (Submission R) → ℕ → Handle
handle_at subs k = handle_of (get_elem? subs k)

-- A weight on handles, with none for null.
abbrev pub weigh : (Handle → ℕ) → Handle → ℕ
weigh v h = if h == null then 0 else v h

module _ {R : Type 0} where
  keep : Outcome R → Awaitable R → Awaitable R
  keep (returns r) aw = record aw { store = some r }
  keep (throws e) aw = record aw { ex = some e }

  -- The body of the job, but for the post: the callable is called unless the token is cancelled.
  unfoldable pub run_job : Flags → Outcome R → Awaitable R → Awaitable R
  unfolding keep
  run_job m outcome aw =
      if is_cancelled m aw.ct
      then record aw { ex = some (system_error cancelled_ec) }
      else keep outcome aw

  -- `await_resume` for a type other than void: `none` where it takes a value that is not there.
  unfoldable pub await_resume : Awaitable R → Option (Outcome R)
  await_resume aw = elim aw.ex [
    | some e ↦ some (throws e)
    | none ↦ elim aw.store [ none ↦ none | some r ↦ some (returns r) ]
  ]

  module _ {G : Type 0} where
    -- The whole job of a submission, run by a worker: `pool->ctx_post(h)` comes last.
    unfoldable pub finish :
        Flags
        → ℕ
        → Option (Submission R)
        → List (Submission R)
        → Scheduler G
        → List (Submission R) × Scheduler G
    unfolding run_job post_handle
    finish m k none subs sched = (subs, sched)
    finish m k (some s) subs sched = (
      set subs k (record s { awaitable = run_job m s.outcome s.awaitable }),
      post_handle sched s.handle,
    )

    -- The jobs that the workers run, in the order in which they finish; the flags may change from
    -- one to the next.
    unfoldable pub finish_all :
        (ℕ → Flags) → List ℕ → List (Submission R) → Scheduler G → List (Submission R) × Scheduler G
    unfolding finish
    finish_all ms [] subs sched = (subs, sched)
    finish_all ms (k ∷ ks) subs sched =
        let (subs', sched') = finish (ms 0) k (get_elem? subs k) subs sched in
        finish_all (λ i. ms (suc i)) ks subs' sched'

  handle_at-set :
      (subs : List (Submission R)) (k j : ℕ) (s s' : Submission R)
      → get_elem? subs k ≡ some s
      → s'.handle ≡ s.handle
      → handle_at (set subs k s') j ≡ handle_at subs j
  handle_at-set [] k j s s' e h = refl
  handle_at-set (x ∷ subs) zero zero s s' e h = ground arith
  handle_at-set (x ∷ subs) zero (suc j) s s' e h = refl
  handle_at-set (x ∷ subs) (suc k) zero s s' e h = refl
  handle_at-set (x ∷ subs) (suc k) (suc j) s s' e h = handle_at-set subs k j s s' e h

  finish-sched :
      {G : Type 0} (m : Flags) (k : ℕ) (o : Option (Submission R)) (subs : List (Submission R))
      (sched : Scheduler G)
      → (NonNull sched.handle_q → NonNull (finish m k o subs sched).1.handle_q)
        × ((finish m k o subs sched).1.stop_requested ≡ sched.stop_requested)
  unfolding finish post
  finish-sched m k none subs sched = (λ n. n, refl)
  finish-sched m k (some s) subs sched = elim (Bool-cases (s.handle == null)) [
    | inl n ↦ rw n (λ r. r, refl)
    | inr n ↦ rw n (λ r. NonNull-append sched.handle_q s.handle r n, refl)
  ]

  module _ {G : Type 0} (v : Handle → ℕ) where
    finish-handles :
        (m : Flags) (k : ℕ) (o : Option (Submission R)) (subs : List (Submission R))
        (sched : Scheduler G)
        → get_elem? subs k ≡ o
        → (total v (finish m k o subs sched).1.handle_q
            ≡ total v sched.handle_q + weigh v (handle_of o))
          × ((j : ℕ) → handle_at (finish m k o subs sched).0 j ≡ handle_at subs j)
    unfolding finish
    finish-handles m k none subs sched e = (omega arith, λ j. refl)
    finish-handles m k (some s) subs sched e = (
      ground (arith, total-append v sched.handle_q (s.handle ∷ [])),
      λ j.
          handle_at-set subs k j s (record s { awaitable = run_job m s.outcome s.awaitable }) e
            refl,
    )

    -- What a list of jobs does to the scheduler and to the submissions.
    pub record Finished (subs : List (Submission R)) (sched : Scheduler G) (ks : List ℕ)
        (p : List (Submission R) × Scheduler G) : Type 0 where
      pub queued :
          total v p.1.handle_q ≡ total v sched.handle_q + total (λ k. weigh v (handle_at subs k)) ks
      pub same : (j : ℕ) → handle_at p.0 j ≡ handle_at subs j
      pub real : NonNull sched.handle_q → NonNull p.1.handle_q
      pub open_ : p.1.stop_requested ≡ sched.stop_requested

    pub finish_all-Finished :
        (ms : ℕ → Flags) (ks : List ℕ) (subs : List (Submission R)) (sched : Scheduler G)
        → Finished subs sched ks (finish_all ms ks subs sched)
    unfolding finish_all
    finish_all-Finished ms [] subs sched = record {
      queued = omega arith;
      same = λ j. refl;
      real = λ n. n;
      open_ = refl;
    }
    finish_all-Finished ms (k ∷ ks) subs sched =
        let (here, same) = finish-handles (ms 0) k (get_elem? subs k) subs sched refl in
        let (n, u) = finish-sched (ms 0) k (get_elem? subs k) subs sched in
        let (subs', sched') = finish (ms 0) k (get_elem? subs k) subs sched in
        let f = finish_all-Finished (λ i. ms (suc i)) ks subs' sched' in
        let later : total v (finish_all (λ i. ms (suc i)) ks subs' sched').1.handle_q
            ≡ total v sched'.handle_q + total (λ j. weigh v (handle_at subs j)) ks =
          rw (fun_ext (λ j. ap (weigh v) (sym (same j)))) f.queued in
        record {
          queued = omega (arith, here, later);
          same = λ j. f.same j ∙ same j;
          real = λ r. f.real (n r);
          open_ = f.open_ ∙ u;
        }
