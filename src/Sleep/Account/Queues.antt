-- ===== src/Sleep/Account/Queues.antt =====
-- What the posts of the timer thread and the turns of the scheduler do to the coroutines that wait.
use mathlib.Core.Option
use cnerium.Prelude.{
  ℕ, ◌+◌, ◌≡◌, refl, ◌∙◌, false, Option, none, some, List, [], ◌∷◌, arith, Option-cases, inl, inr,
  total, total-append,
}
use cnerium.Scheduler
use cnerium.Scheduler.{Handle, null, Scheduler, Work, resumes, calls, post_fn, post, post_handle}
use cnerium.ThreadPool.Submit.{weigh}
use cnerium.Timer.{Fate, fires, cancels, clears, sleep_job}
use cnerium.Timer.Account.{fate_weight}
use cnerium.Sleep.{Callable, job, other, System, ctx_post, ctx_post_all, run_all}
use cnerium.Sleep.Account.{resumed_weight, lost_weight, call_weight, in_sched}

module _ {G : Type 0} (v : Handle → ℕ) where
  pub ctx_post-weight :
      (sched : Scheduler (Callable G)) (f : Fate Handle)
      → (in_sched v (ctx_post sched f) + lost_weight v f
          ≡ in_sched v sched + fate_weight (weigh v) f)
        × ((ctx_post sched f).stop_requested ≡ sched.stop_requested)
  unfolding ctx_post
  ctx_post-weight sched (fires at e) = elim (Option-cases e.j) [
    | inl n ↦ rw n (omega arith, refl)
    | inr (j, n) ↦
        rw n (omega (arith, total-append (call_weight v) sched.fn_q (some (job j) ∷ [])), refl)
  ]
  ctx_post-weight sched (cancels e) = (refl, refl)
  ctx_post-weight sched (clears e) = (refl, refl)

  pub ctx_post_all-weight :
      (sched : Scheduler (Callable G)) (fs : List (Fate Handle))
      → (in_sched v (ctx_post_all sched fs) + total (lost_weight v) fs
          ≡ in_sched v sched + total (fate_weight (weigh v)) fs)
        × ((ctx_post_all sched fs).stop_requested ≡ sched.stop_requested)
  unfolding ctx_post_all
  ctx_post_all-weight sched [] = (refl, refl)
  ctx_post_all-weight sched (f ∷ fs) =
      let (here, same) = ctx_post-weight sched f in
      let (later, same') = ctx_post_all-weight (ctx_post sched f) fs in
      (omega (arith, here, later), same' ∙ same)

  abbrev pub work_weight : Work (Callable G) → ℕ
  work_weight (resumes h) = weigh v h
  work_weight (calls f) = call_weight v (some f)

  pub sleep_job-weight :
      (h : Handle) (sched : Scheduler (Callable G))
      → (in_sched v (sleep_job h sched) ≡ in_sched v sched + weigh v h)
        × ((sleep_job h sched).stop_requested ≡ sched.stop_requested)
  unfolding sleep_job post_handle
  sleep_job-weight h sched = ground (arith, total-append (weigh v) sched.handle_q (h ∷ []))

  pub run_all-weight :
      (s : System G) (ws : List (Work (Callable G)))
      → (total (resumed_weight v) (run_all s ws).1 + in_sched v (run_all s ws).0.sched
          ≡ total work_weight ws + in_sched v s.sched)
        × ((run_all s ws).0.sched.stop_requested ≡ s.sched.stop_requested)
        × ((run_all s ws).0.clocked ≡ s.clocked)
  unfolding run_all
  run_all-weight s [] = (refl, refl, refl)
  run_all-weight s (resumes h ∷ ws) =
      let (later, same, timer) = run_all-weight s ws in (omega arith, same, timer)
  run_all-weight s (calls (job h) ∷ ws) =
      let (here, same) = sleep_job-weight h s.sched in
      let (later, same', timer) = run_all-weight (record s { sched = sleep_job h s.sched }) ws in
      (omega arith, same' ∙ same, timer)
  run_all-weight s (calls (other g) ∷ ws) =
      let (later, same, timer) = run_all-weight s ws in (omega arith, same, timer)

  -- A turn of a scheduler that is not stopped.
  pub turn-weight :
      (s : Scheduler (Callable G)) (hs : List Handle) (fs : List (Option (Callable G)))
      → s.handle_q ≡ hs
      → s.fn_q ≡ fs
      → s.stop_requested ≡ false
      → (total work_weight (Scheduler.step s Scheduler.Event.turns).1
            + in_sched v (Scheduler.step s Scheduler.Event.turns).0
          ≡ total (weigh v) hs + total (call_weight v) fs)
        × ((Scheduler.step s Scheduler.Event.turns).0.stop_requested ≡ false)
  unfolding Scheduler.step Scheduler.turn
  turn-weight s [] [] eh ef u = ground arith
  turn-weight s [] (none ∷ fs) eh ef u = ground arith
  turn-weight s [] (some (job h) ∷ fs) eh ef u = ground arith
  turn-weight s [] (some (other g) ∷ fs) eh ef u = ground arith
  turn-weight s (h ∷ hs) fs eh ef u = ground arith

  pub posts-weight :
      (s : Scheduler (Callable G)) (h : Handle)
      → s.stop_requested ≡ false
      → (0 + in_sched v (Scheduler.step s (Scheduler.Event.posts h)).0
          ≡ in_sched v s + (weigh v h + 0))
        × ((Scheduler.step s (Scheduler.Event.posts h)).0.stop_requested ≡ false)
  unfolding Scheduler.step
  posts-weight s h u = ground (arith, total-append (weigh v) s.handle_q (h ∷ []))

  pub posts_fn-weight :
      (s : Scheduler (Callable G)) (f : Option G)
      → 0 + in_sched v (Scheduler.step s (Scheduler.Event.posts_fn (Option.map other f))).0
        ≡ in_sched v s + 0
  unfolding Scheduler.step
  posts_fn-weight s none = omega (arith, total-append (call_weight v) s.fn_q (none ∷ []))
  posts_fn-weight s (some g) =
      omega (arith, total-append (call_weight v) s.fn_q (some (other g) ∷ []))
