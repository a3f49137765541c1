-- ===== src/Offload/Account.antt =====
-- What becomes of the coroutines that await work of thread_pool.cpp, across the pool and the scheduler.
use cnerium.Prelude.{
  ℕ, ◌+◌, ◌≡◌, refl, ap, ◌∙◌, fun_ext, Bool, false, ◌||◌, List, [], ◌∷◌, total, total-append, arith,
}
use cnerium.Cancel.{Flags}
use cnerium.Scheduler
use cnerium.Scheduler.{Handle, Scheduler}
use cnerium.Scheduler.Order.{
  NonNull, Unstopped, Unstopped-cons, posted_handles, posted_handles-cons, step-conserves,
}
use cnerium.Scheduler.Resumed.{step-weight}
use cnerium.ThreadPool
use cnerium.ThreadPool.Account.{Inv, accepted, accepted-cons, ends, load, step-load, step-Inv}
use cnerium.ThreadPool.Submit.{Submission, handle_at, weigh, finish_all-Finished}
use cnerium.Offload.{
  System, Event, of_pool, of_sched, pool_events, sched_events, on_pool, on_sched, step, exec,
}

-- A scheduler that nobody has stopped, with no null in its queue, and a pool as its constructor and
-- its operations leave it.
pub record IsOpen {R G : Type 0} (s : System R G) : Type 0 where
  pub real : NonNull s.sched.handle_q
  pub open_ : s.sched.stop_requested ≡ false
  pub inv : Inv s.pool

or_false : (b : Bool) → b ≡ (b || false)
or_false b = ground arith

module _ {G : Type 0} where
  abbrev closes : Event G → Bool
  closes (of_pool m e) = ends e
  closes (of_sched e) = false

module _ {R : Type 0} (v : Handle → ℕ) where
  -- A weight on coroutines, by the submissions that they await.
  abbrev pub job_weight : List (Submission R) → ℕ → ℕ
  job_weight subs k = weigh v (handle_at subs k)

module _ {R G : Type 0} (v : Handle → ℕ) where
  -- What waits: as a job in the queue or the hands of a worker, and as a coroutine.
  abbrev pub waiting : List (Submission R) → System R G → ℕ
  waiting subs s = load (job_weight v subs) s.pool + total v s.sched.handle_q

  -- What is to be resumed: submissions to a pool that is not stopped, and direct posts.
  abbrev pub asked : List (Submission R) → Bool → List (Event G) → ℕ
  asked subs stopped es =
      total (job_weight v subs) (accepted stopped (pool_events es))
      + total v (posted_handles (sched_events es))

  -- What an event does to the coroutines that wait.
  record Balances (s : System R G) (e : Event G) (p : System R G × List Handle) : Type 0 where
    balance :
        total v p.1 + waiting s.subs p.0 ≡ waiting s.subs s + asked s.subs s.pool.stop_flag (e ∷ [])
    same : job_weight v p.0.subs ≡ job_weight v s.subs
    flag : p.0.pool.stop_flag ≡ (s.pool.stop_flag || closes e)
    open_ : IsOpen p.0

  on_pool-Balances :
      (s : System R G) (m : Flags) (e : ThreadPool.Event ℕ)
      → IsOpen s
      → Balances s (of_pool m e) (on_pool s m e, [])
  unfolding on_pool
  on_pool-Balances s m e o =
      let ran = (ThreadPool.step s.pool e).1 in
      let (kept, flag) = step-load (job_weight v s.subs) s.pool e o.inv in
      let f = finish_all-Finished v (λ i. m) ran s.subs s.sched in
      record {
        balance = omega (arith, kept, f.queued);
        same = fun_ext (λ k. ap (weigh v) (f.same k));
        flag = flag;
        open_ = record {
          real = f.real o.real;
          open_ = f.open_ ∙ o.open_;
          inv = step-Inv s.pool e o.inv;
        };
      }

  on_sched-Balances :
      (s : System R G) (e : Scheduler.Event G) (es : List (Scheduler.Event G))
      → IsOpen s
      → Unstopped (e ∷ es)
      → Balances s (of_sched e) (on_sched s e)
  unfolding on_sched
  on_sched-Balances s e es o k =
      let (_, _, n, u) = step-conserves s.sched e o.open_ o.real (Unstopped-cons e es k).0 in
      record {
        balance = omega (arith, step-weight v s.sched e o.open_ o.real (Unstopped-cons e es k).0);
        same = refl;
        flag = or_false s.pool.stop_flag;
        open_ = record { real = n; open_ = u; inv = o.inv };
      }

  step-Balances :
      (s : System R G) (e : Event G) (es : List (Event G))
      → IsOpen s
      → Unstopped (sched_events (e ∷ es))
      → Balances s e (step s e) × Unstopped (sched_events es)
  unfolding step
  step-Balances s (of_pool m e) es o k = (on_pool-Balances s m e o, k)
  step-Balances s (of_sched e) es o k =
      (on_sched-Balances s e (sched_events es) o k, (Unstopped-cons e (sched_events es) k).1)

  asked-cons :
      (subs : List (Submission R)) (b : Bool) (e : Event G) (es : List (Event G))
      → asked subs b (e ∷ es) ≡ asked subs b (e ∷ []) + asked subs (b || closes e) es
  asked-cons subs b (of_pool m e) es =
      omega (arith, accepted-cons (job_weight v subs) b e (pool_events es))
  asked-cons subs b (of_sched e) es = omega (
    arith,
    ap (λ c. total (job_weight v subs) (accepted c (pool_events es))) (or_false b),
    ap (total v) (posted_handles-cons e (sched_events es))
        ∙ total-append v (posted_handles (e ∷ [])) (posted_handles (sched_events es)),
  )

  -- No coroutine that awaits a job is lost between the pool and the scheduler, and none is resumed
  -- twice. While nobody stops the scheduler, in any interleaving of awaits, moves of the workers, turns
  -- of the scheduler, posts of others, and stops of the pool: each await that begins before the pool is
  -- stopped, and each direct post, is at every moment accounted for exactly once: its coroutine has
  -- been resumed, or waits as a job in the queue or in the hands of a worker, or as a coroutine in the
  -- queue of the scheduler; as counted by any weight on coroutines.
  pub exec-accounted_for :
      (s : System R G) (es : List (Event G))
      → IsOpen s
      → Unstopped (sched_events es)
      → (total v (exec s es).1 + waiting s.subs (exec s es).0
          ≡ waiting s.subs s + asked s.subs s.pool.stop_flag es)
        × IsOpen (exec s es).0
  unfolding exec
  exec-accounted_for s [] o k = (omega arith, o)
  exec-accounted_for s (e ∷ es) o k =
      let (b, k') = step-Balances s e es o k in
      let (later, o') = exec-accounted_for (step s e).0 es b.open_ k' in
      let later' = rw (b.same, b.flag) at later in
      (
        omega (
          arith,
          total-append v (step s e).1 (exec (step s e).0 es).1,
          asked-cons s.subs s.pool.stop_flag e es,
          b.balance,
          later',
        ),
        o',
      )
