-- ===== src/Offload/Answered/Resumed.antt =====
-- The coroutines that are resumed from submissions to thread_pool.hpp, and what their awaits give.
use cnerium.Prelude.{
  ℕ, suc, ◌≡◌, refl, ◌⊎◌, inl, inr, Option, none, some, List, [], ◌∷◌, get_elem?, set, All,
  All-append, All-split, All-mono, All-set, All-get_elem?,
}
use mathlib.Core.Path.{subst}
use cnerium.Cancel.{Flags, CancelToken}
use cnerium.Scheduler
use cnerium.Scheduler.{Handle, null, Scheduler, post, post_handle}
use cnerium.Scheduler.Order.{NonNull, resumed, posted_handles, posted_handles-cons, step-cases}
use cnerium.ThreadPool
use cnerium.ThreadPool.Submit.{Submission, run_job, finish, finish_all, finish_all-Finished}
use cnerium.Offload.{System, Event, of_pool, of_sched, sched_events, on_pool, on_sched, step, exec}
use cnerium.Offload.Answered.{
  IsSound, Answered, run_job-Ends, set-kept, set-answers, post-All, step_sched-All, AllowsFlags,
  Allows,
}

-- The coroutines that others post satisfy `D`.
module _ {R : Type 0} (C : CancelToken → Type 0) (D : Handle → Type 0) where
  -- A coroutine that others post, or one whose submission has ended.
  abbrev pub Known : List (Submission R) → Handle → Type 0
  Known subs h = D h ⊎ Answered C subs h

  -- What jobs do: submissions that have ended stay so, and those of all queued coroutines have.
  record Grown {G : Type 0} (subs : List (Submission R)) (p : List (Submission R) × Scheduler G)
      : Type 0 where
    kept : (h : Handle) → Known subs h → Known p.0 h
    sound : All (IsSound C) p.0
    queued : All (Known p.0) p.1.handle_q

  module _ {G : Type 0} where
    finish-Grown :
        (m : Flags) (k : ℕ) (o : Option (Submission R)) (subs : List (Submission R))
        (sched : Scheduler G)
        → AllowsFlags C m
        → get_elem? subs k ≡ o
        → All (IsSound C) subs
        → All (Known subs) sched.handle_q
        → Grown subs (finish m k o subs sched)
    unfolding finish
    finish-Grown m k none subs sched c e v a = record { kept = λ h b. b; sound = v; queued = a }
    finish-Grown m k (some s) subs sched c e v a =
        let s' = record s { awaitable = run_job m s.outcome s.awaitable } in
        let d =
          run_job-Ends C m s.outcome s.awaitable (c s.awaitable.ct)
            (All-get_elem? (IsSound C) subs k v e) in
        let kept : (h : Handle) → Known subs h → Known (set subs k s') h =
          λ h b. elim b [ inl x ↦ inl x | inr x ↦ inr (set-kept C subs k s s' h e refl d x) ] in
        record {
          kept = kept;
          sound = All-set (IsSound C) subs k s' v (inr d);
          queued =
              post-All (Known (set subs k s')) sched s.handle
                (All-mono (Known subs) (Known (set subs k s')) sched.handle_q kept a)
                (inr (set-answers C subs k s s' e d));
        }

    finish_all-Grown :
        (ms : ℕ → Flags) (ks : List ℕ) (subs : List (Submission R)) (sched : Scheduler G)
        → ((i : ℕ) → AllowsFlags C (ms i))
        → All (IsSound C) subs
        → All (Known subs) sched.handle_q
        → Grown subs (finish_all ms ks subs sched)
    unfolding finish_all
    finish_all-Grown ms [] subs sched c v a = record { kept = λ h b. b; sound = v; queued = a }
    finish_all-Grown ms (k ∷ ks) subs sched c v a =
        let g = finish-Grown (ms 0) k (get_elem? subs k) subs sched (c 0) refl v a in
        let (subs', sched') = finish (ms 0) k (get_elem? subs k) subs sched in
        let g' =
          finish_all-Grown (λ i. ms (suc i)) ks subs' sched' (λ i. c (suc i)) g.sound g.queued in
        record { kept = λ h b. g'.kept h (g.kept h b); sound = g'.sound; queued = g'.queued }

  module _ {G : Type 0} where
    record IsAnswering (s : System R G) : Type 0 where
      real : NonNull s.sched.handle_q
      sound : All (IsSound C) s.subs
      queued : All (Known s.subs) s.sched.handle_q

    -- What an event resumes is known, and stays so.
    record Answers (s : System R G) (p : System R G × List Handle) : Type 0 where
      kept : (h : Handle) → Known s.subs h → Known p.0.subs h
      answering : IsAnswering p.0
      now : All (Known p.0.subs) p.1

    on_pool-Answers :
        (s : System R G) (m : Flags) (e : ThreadPool.Event ℕ)
        → AllowsFlags C m
        → IsAnswering s
        → Answers s (on_pool s m e, [])
    unfolding on_pool
    on_pool-Answers s m e c v =
        let ran = (ThreadPool.step s.pool e).1 in
        let g = finish_all-Grown (λ i. m) ran s.subs s.sched (λ i. c) v.sound v.queued in
        let f = finish_all-Finished (λ h. 0) (λ i. m) ran s.subs s.sched in
        record {
          kept = g.kept;
          answering = record { real = f.real v.real; sound = g.sound; queued = g.queued };
          now = tt;
        }

    on_sched-Answers :
        (s : System R G) (e : Scheduler.Event G)
        → IsAnswering s
        → All D (posted_handles (e ∷ []))
        → Answers s (on_sched s e)
    unfolding on_sched
    on_sched-Answers s e v d =
        let posted = All-mono D (Known s.subs) (posted_handles (e ∷ [])) (λ h b. inl b) d in
        let (now, queued) = All-split (Known s.subs) (resumed (Scheduler.step s.sched e).1) _ (
          step_sched-All (Known s.subs) s.sched e v.real
            (All-append (Known s.subs) s.sched.handle_q _ v.queued posted)) in
        record {
          kept = λ h b. b;
          answering = record {
            real = (step-cases s.sched e v.real).2;
            sound = v.sound;
            queued = queued;
          };
          now = now;
        }

    step-Answers :
        (s : System R G) (e : Event G) (es : List (Event G))
        → IsAnswering s
        → Allows C (e ∷ es)
        → All D (posted_handles (sched_events (e ∷ es)))
        → Answers s (step s e) × Allows C es × All D (posted_handles (sched_events es))
    unfolding step
    step-Answers s (of_pool m e) es v c d = (on_pool-Answers s m e c.0 v, c.1, d)
    step-Answers s (of_sched e) es v c d =
        let (here, later) =
          All-split D (posted_handles (e ∷ [])) _
            (subst (All D) (posted_handles-cons e (sched_events es)) d) in
        (on_sched-Answers s e v here, c, later)

    exec-Answers :
        (s : System R G) (es : List (Event G))
        → IsAnswering s
        → Allows C es
        → All D (posted_handles (sched_events es))
        → Answers s (exec s es)
    unfolding exec
    exec-Answers s [] v c d = record { kept = λ h b. b; answering = v; now = tt }
    exec-Answers s (e ∷ es) v c d =
        let (a, c', d') = step-Answers s e es v c d in
        let b = exec-Answers (step s e).0 es a.answering c' d' in
        record {
          kept = λ h x. b.kept h (a.kept h x);
          answering = b.answering;
          now = All-append _ (step s e).1 _ (All-mono _ _ (step s e).1 b.kept a.now) b.now;
        }

    -- No coroutine is resumed before the job it awaits has settled its awaitable. Whatever the pool and
    -- the scheduler do, in any interleaving, each coroutine that is resumed is one that was queued before
    -- or that others post, as described by a predicate `D`, or one that awaits a submission whose
    -- `await_resume` ends as the callable did, by its value or its exception, or throws the cancellation
    -- error if its token was cancelled while a worker moved; it never takes a value that is not there.
    -- `C` describes the tokens that were. At the start no submission stores an exception.
    pub exec-Known :
        (s : System R G) (es : List (Event G))
        → NonNull s.sched.handle_q
        → All D s.sched.handle_q
        → All (λ x. x.awaitable.ex ≡ none) s.subs
        → Allows C es
        → All D (posted_handles (sched_events es))
        → All (Known (exec s es).0.subs) (exec s es).1
    exec-Known s es n a u c d =
        (exec-Answers s es
          (record {
            real = n;
            sound = All-mono (λ x. x.awaitable.ex ≡ none) (IsSound C) s.subs (λ x. inl) u;
            queued = All-mono D (Known s.subs) s.sched.handle_q (λ h. inl) a;
          })
          c d).now
