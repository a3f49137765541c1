-- ===== src/Offload/Drained.antt =====
-- How the coroutines that await work of thread_pool.cpp are all resumed, once the pool has been joined.
use cnerium.Prelude.{
  ℕ, zero, suc, ◌+◌, ◌<◌, ◌≡◌, refl, sym, ap, ◌∙◌, true, none, List, [], ◌∷◌, ◌++◌, append_assoc,
  length, replicate, total, total-append, arith,
}
use cnerium.Scheduler
use cnerium.Scheduler.{Handle, Scheduler, resumes, calls, pending}
use cnerium.Scheduler.Order.{Unstopped, resumed, resumed-append}
use cnerium.Scheduler.Resumed.{turns-resumed}
use cnerium.ThreadPool
use cnerium.ThreadPool.{joins}
use cnerium.ThreadPool.Shutdown.{length-exec, joined-load}
use cnerium.Offload.{
  System, Event, of_pool, of_sched, pool_events, sched_events, on_pool, on_sched, step, exec,
}
use cnerium.Offload.Account.{IsOpen, job_weight, waiting, asked, exec-accounted_for}

module _ {R G : Type 0} where
  exec-append :
      (s : System R G) (es es' : List (Event G))
      → (exec s (es ++ es')).1 ≡ (exec s es).1 ++ (exec (exec s es).0 es').1
  unfolding exec
  exec-append s [] es' = refl
  exec-append s (e ∷ es) es' =
      ap (λ l. (step s e).1 ++ l) (exec-append (step s e).0 es es')
      ∙ sym (append_assoc (step s e).1 (exec (step s e).0 es).1 _)

  -- Turns alone are those of the scheduler.
  exec-turns :
      (n : ℕ) (s : System R G)
      → (exec s (replicate n (of_sched Scheduler.Event.turns))).1
        ≡ resumed (Scheduler.exec s.sched (replicate n Scheduler.Event.turns)).1
  unfolding exec step on_sched Scheduler.exec
  exec-turns zero s = refl
  exec-turns (suc n) s =
      let (sched', work) = Scheduler.step s.sched Scheduler.Event.turns in
      ap (λ l. resumed work ++ l) (exec-turns n (record s { sched = sched' }))
      ∙ sym (resumed-append work _)

  -- The pool is its own.
  exec-pool :
      (s : System R G) (es : List (Event G))
      → (exec s es).0.pool ≡ (ThreadPool.exec s.pool (pool_events es)).0
  unfolding exec step on_pool on_sched ThreadPool.exec
  exec-pool s [] = refl
  exec-pool s (of_pool m e ∷ es) = exec-pool (on_pool s m e) es
  exec-pool s (of_sched e ∷ es) = exec-pool (on_sched s e).0 es

  -- Every job that the pool accepted resumes the coroutine that awaits it. In any interleaving in which
  -- nobody stops the scheduler, once the joins of a `shutdown` of the pool have returned and while the
  -- loop of `run` is running, as many turns as items are queued bring it about that each coroutine that
  -- waited at first, each that began to await a submission before the pool was stopped, and each direct
  -- post has been resumed, exactly once for each time, and that no other has; as counted by any weight
  -- on coroutines. The pool has a worker.
  pub exec-all_resumed :
      (v : Handle → ℕ) (s : System R G) (es : List (Event G))
      → IsOpen s
      → 0 < length s.pool.workers
      → Unstopped (sched_events es)
      → joins none 0 (exec s es).0.pool.workers ≡ true
      → (exec s es).0.sched.running ≡ true
      → total v
          (exec s
            (es ++ replicate (pending (exec s es).0.sched) (of_sched Scheduler.Event.turns))).1
        ≡ waiting v s.subs s + asked v s.subs s.pool.stop_flag es
  exec-all_resumed v s es o many k joined r =
      let (account, o') = exec-accounted_for v s es o k in
      let t = (exec s es).0 in
      let turns = replicate (pending t.sched) (of_sched Scheduler.Event.turns) in
      let workers : 0 < length t.pool.workers =
        rw (exec-pool s es, length-exec s.pool (pool_events es)) many in
      let (none_left, _) = joined-load (job_weight v s.subs) t.pool o'.inv workers joined in
      let last : (exec t turns).1 ≡ t.sched.handle_q =
        exec-turns (pending t.sched) t ∙ turns-resumed t.sched o'.real r o'.open_ in
      omega (
        arith,
        ap (total v) (exec-append s es turns),
        total-append v (exec s es).1 (exec t turns).1,
        ap (total v) last,
        account,
        none_left,
      )
