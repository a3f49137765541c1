-- ===== src/Sleep/Account/Conserved.antt =====
-- What becomes of the coroutines that sleep in timer.cpp, across the timer and the scheduler.
use mathlib.Core.Option
use cnerium.Prelude.{
  ℕ, ◌+◌, ◌≡◌, refl, ◌∙◌, ap, false, some, List, [], ◌∷◌, arith, Bool-cases, inl, inr,
  if◌then◌else◌, ◌==◌, total, total-append,
}
use cnerium.Cancel.{CancelToken}
use cnerium.Scheduler
use cnerium.Scheduler.{Handle, null, Scheduler, Work, resumes, calls, post_fn, post, post_handle}
use cnerium.ThreadPool.Submit.{weigh}
use cnerium.Timer
use cnerium.Timer.{Fate, fires, cancels, clears, sleep_job, sleep_suspend}
use cnerium.Timer.Account.{accepted, step-weight}
use cnerium.Sleep.{
  Callable, other, System, Event, sleeps, stops_timer, passes, moves, posts, posts_fn, stops,
  resets, enters, turns, Resumption, on_timer, on_sched, sleep_for, step, exec,
}
use cnerium.Sleep.Account.{
  Unstopped, resumed_weight, lost_weight, in_timer, in_sched, lost_at, lost, asked, waiting,
}
use cnerium.Sleep.Account.Queues.{
  ctx_post_all-weight, work_weight, run_all-weight, turn-weight, posts-weight, posts_fn-weight,
}

schedules-lossless :
    (w : Timer.World Handle) (tp : ℕ) (h : Handle) (ct : CancelToken)
    → (Timer.step w (Timer.Event.schedules tp (some h) ct)).1 ≡ []
unfolding Timer.step
schedules-lossless w tp h ct = refl

module _ {G : Type 0} (v : Handle → ℕ) where
  -- What an event moves, creates and destroys.
  record Balances (s : System G) (e : Event G) (p : System G × List Resumption) : Type 0 where
    balance :
        total (resumed_weight v) p.1 + waiting v p.0 + lost_at v s e
        ≡ waiting v s + asked v (e ∷ [])
    open_ : p.0.sched.stop_requested ≡ false

  on_sched-Balances :
      (s : System G) (e : Scheduler.Event (Callable G)) (g : ℕ)
      → total (work_weight v) (Scheduler.step s.sched e).1 + in_sched v (Scheduler.step s.sched e).0
        ≡ in_sched v s.sched + g
      → (Scheduler.step s.sched e).0.stop_requested ≡ false
      → (total (resumed_weight v) (on_sched s e).1 + waiting v (on_sched s e).0 ≡ waiting v s + g)
        × ((on_sched s e).0.sched.stop_requested ≡ false)
        × ((on_sched s e).0.clocked ≡ s.clocked)
  unfolding on_sched
  on_sched-Balances s e g h u =
      let (here, same, timer) =
        run_all-weight v (record s { sched = (Scheduler.step s.sched e).0 })
          (Scheduler.step s.sched e).1 in
      (omega (arith, here, h, ap (in_timer v) timer), same ∙ u, timer)

  on_timer-Balances :
      (s : System G) (e : Timer.Event Handle)
      → s.sched.stop_requested ≡ false
      → total (weigh v) (accepted s.clocked.timer.stop_flag (e ∷ [])) ≡ 0
      → (total (resumed_weight v) (on_timer s e).1
            + waiting v (on_timer s e).0
            + total (lost_weight v) (Timer.step s.clocked e).1
          ≡ waiting v s)
        × ((on_timer s e).0.sched.stop_requested ≡ false)
  unfolding on_timer
  on_timer-Balances s e u a =
      let (posted, same) = ctx_post_all-weight v s.sched (Timer.step s.clocked e).1 in
      let (here, _) = step-weight (weigh v) s.clocked e in (omega arith, same ∙ u)

  -- A sleep schedules the coroutine, unless it is of no length.
  sleep_for_lem :
      (s : System G) (d : ℕ) (h : Handle) (ct : CancelToken)
      → sleep_for s d h ct ≡ (
          if d == 0 then s else record s {
            clocked =
                (Timer.step s.clocked (Timer.Event.schedules (s.clocked.now + d) (some h) ct)).0;
          })
  unfolding sleep_for Timer.step
  sleep_for_lem s d h ct = refl

  sleep_for-Balances :
      (s : System G) (d : ℕ) (h : Handle) (ct : CancelToken)
      → (waiting v (sleep_for s d h ct) + lost_at v s (sleeps d h ct)
          ≡ waiting v s + asked {G = G} v (sleeps d h ct ∷ []))
        × ((sleep_for s d h ct).sched ≡ s.sched)
  sleep_for-Balances s d h ct =
      let e : Timer.Event Handle = Timer.Event.schedules (s.clocked.now + d) (some h) ct in
      let (here, _) = step-weight (weigh v) s.clocked e in
      elim (Bool-cases (d == 0)) [
        | inl none_ ↦ rw (sleep_for_lem s d h ct, none_) (ground arith)
        | inr some_ ↦
            rw (sleep_for_lem s d h ct, some_)
              (ground (arith, here, schedules-lossless s.clocked (s.clocked.now + d) h ct))
      ]

  -- An event of the scheduler, which the timer does not see.
  sched-Balances :
      (s : System G) (e : Event G) (p : System G × List Resumption)
      → (total (resumed_weight v) p.1 + waiting v p.0 ≡ waiting v s + asked v (e ∷ []))
        × (p.0.sched.stop_requested ≡ false)
        × (p.0.clocked ≡ s.clocked)
      → lost_at v s e ≡ 0
      → Balances s e p
  sched-Balances s e p (h, u, _) l = record { balance = omega arith; open_ = u }

  step-Balances :
      (s : System G) (e : Event G) (es : List (Event G))
      → s.sched.stop_requested ≡ false
      → Unstopped (e ∷ es)
      → Balances s e (step s e)
  unfolding step
  step-Balances s (sleeps d h ct) es u k =
      let (here, same) = sleep_for-Balances s d h ct in
      record { balance = omega (arith, here); open_ = ap (λ x. x.stop_requested) same ∙ u }
  step-Balances s stops_timer es u k =
      let (here, open_) = on_timer-Balances s Timer.Event.stops u (refl) in
      record { balance = omega (arith, here); open_ = open_ }
  step-Balances s (passes d) es u k =
      let (here, open_) = on_timer-Balances s (Timer.Event.passes d) u (refl) in
      record { balance = omega (arith, here); open_ = open_ }
  step-Balances s (moves m) es u k =
      let (here, open_) = on_timer-Balances s (Timer.Event.moves m) u (refl) in
      record { balance = omega (arith, here); open_ = open_ }
  step-Balances s (posts h) es u k =
      sched-Balances s (posts h) _
        (on_sched-Balances s (Scheduler.Event.posts h) (weigh v h + 0)
          (posts-weight v s.sched h u).0 (posts-weight v s.sched h u).1)
        refl
  step-Balances s (posts_fn f) es u k =
      sched-Balances s (posts_fn f) _
        (on_sched-Balances s (Scheduler.Event.posts_fn (Option.map other f)) 0
          (posts_fn-weight v s.sched f) u)
        refl
  step-Balances s stops es u k = absurd k
  step-Balances s resets es u k =
      sched-Balances s resets _ (on_sched-Balances s Scheduler.Event.resets 0 (omega arith) refl)
        refl
  step-Balances s enters es u k =
      sched-Balances s enters _ (on_sched-Balances s Scheduler.Event.enters 0 (omega arith) u) refl
  step-Balances s turns es u k =
      let (taken, u') = turn-weight v s.sched s.sched.handle_q s.sched.fn_q refl refl u in
      sched-Balances s turns _
        (on_sched-Balances s Scheduler.Event.turns 0 (omega (arith, taken)) u') refl

  asked-cons :
      (e : Event G) (es : List (Event G)) → asked v (e ∷ es) ≡ asked v (e ∷ []) + asked v es
  asked-cons (sleeps d h ct) es = omega arith
  asked-cons (posts h) es = omega arith
  asked-cons e es = omega arith

  Unstopped-tail : (e : Event G) (es : List (Event G)) → Unstopped (e ∷ es) → Unstopped es
  Unstopped-tail stops es k = absurd k
  Unstopped-tail (passes d) es k = k
  Unstopped-tail _ es k = k

  -- Every sleep is accounted for exactly once between the timer and the scheduler. While nobody stops
  -- the scheduler, and whatever happens otherwise, the coroutine of each sleep of some time, and of
  -- each direct post, is at every moment in exactly one of these places: it has been resumed, it waits
  -- in the queue or the hands of the timer thread, as a job or as a coroutine in the queues of the
  -- scheduler, or it is lost: by its cancelled token, by a stop of the timer while it was there, or by
  -- a sleep that began on a stopped timer; as counted by any weight on coroutines, with none for null.
  pub exec-accounted :
      (s : System G) (es : List (Event G))
      → s.sched.stop_requested ≡ false
      → Unstopped es
      → total (resumed_weight v) (exec s es).1 + waiting v (exec s es).0 + lost v s es
        ≡ waiting v s + asked v es
  unfolding exec
  exec-accounted s [] u k = omega arith
  exec-accounted s (e ∷ es) u k =
      let b = step-Balances s e es u k in
      let later = exec-accounted (step s e).0 es b.open_ (Unstopped-tail e es k) in
      omega (
        arith,
        total-append (resumed_weight v) (step s e).1 (exec (step s e).0 es).1,
        asked-cons e es,
        b.balance,
        later,
      )
