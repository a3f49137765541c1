-- ===== src/Signal/Waiter.antt =====
-- The coroutines that wait for a signal of signal.cpp, and its thread.
use cnerium.Prelude.{
  ℕ, ◌+◌, ◌≡◌, refl, Option, none, some, List, [], ◌∷◌, ◌++◌, get_elem?, total, total-append, arith,
  if◌then◌else◌,
}
use cnerium.Cancel.{Flags, CancelToken, is_cancelled}
use cnerium.Scheduler.{Handle, null, Scheduler, post, post_handle, post_fn}
use cnerium.Signal.{
  SignalSet, Worker, unstarted, at_head, blocked, received, posting, ended, Delivery, Callback,
  deliver, Wait, asking, missed, ready, suspended, World, Event, adds, removes, handles, stops,
  arrives, fails, moves, delivers, finishes, waits_for, asks, suspends, async_wait, await_ready,
  await_suspend, worker_move, sigwait_returns, sigwait_fails, deliver_begin, deliver_end,
  start_if_needed, step, exec,
}

-- The coroutine that an await suspends now.
abbrev suspending : Option Wait → List Handle
suspending (some (missed a)) = a.handle ∷ []
suspending _ = []

post-total :
    (v : Handle → ℕ) (s : Scheduler Callback) (h : Handle)
    → v null ≡ 0
    → total v (post_handle s h).handle_q ≡ total v s.handle_q + v h
unfolding post_handle post
post-total v s h z = ground (arith, total-append v s.handle_q (h ∷ []))

module _ {H : Type 0} where
  -- The coroutines that await a signal and are suspended, and those whose place as the one waiter
  -- another then takes.
  abbrev suspended_by : World H → Event H → List Handle
  suspended_by w (suspends m i) = suspending (get_elem? w.waits i)
  suspended_by w _ = []

  pub suspended_in : World H → List (Event H) → List Handle
  suspended_in w [] = []
  suspended_in w (e ∷ es) = suspended_by w e ++ suspended_in (step w e) es

  abbrev replacing : Flags → World H → List ℕ → Option Wait → List Handle
  replacing m w [] (some (missed a)) =
      if is_cancelled m a.ct then [] else if w.set_.waiter_active then w.set_.waiter ∷ [] else []
  replacing m w _ _ = []

  abbrev replaced_by : World H → Event H → List Handle
  replaced_by w (suspends m i) = replacing m w w.set_.pending (get_elem? w.waits i)
  replaced_by w _ = []

  pub replaced_in : World H → List (Event H) → List Handle
  replaced_in w [] = []
  replaced_in w (e ∷ es) = replaced_by w e ++ replaced_in (step w e) es

  module _ (v : Handle → ℕ) where
    abbrev pub waiter_weight : SignalSet H → ℕ
    waiter_weight s = if s.waiter_active then v s.waiter else 0

    abbrev pub carried_weight : Option (Delivery H) → ℕ
    carried_weight none = 0
    carried_weight (some d) = if d.has_waiter then v d.waiter else 0

    -- The coroutines that the set has posted, keeps as the waiter, or has in the hands of the callback.
    abbrev pub kept : World H → ℕ
    kept w = total v w.sched.handle_q + (waiter_weight w.set_ + carried_weight w.delivery)

    suspend-kept :
        (m : Flags) (w : World H) (i : ℕ) (o : Option Wait) (q : List ℕ)
        → v null ≡ 0
        → w.set_.pending ≡ q
        → kept (await_suspend m w i o) + total v (replacing m w q o)
          ≡ kept w + total v (suspending o)
    unfolding await_suspend
    suspend-kept m w i none [] z k = refl
    suspend-kept m w i none (x ∷ q) z k = refl
    suspend-kept m w i (some (missed a)) [] z k = ground (arith, post-total v w.sched a.handle z)
    suspend-kept m w i (some (missed a)) (x ∷ q) z k =
        ground (arith, post-total v w.sched a.handle z)
    suspend-kept m w i (some (asking a)) [] z k = refl
    suspend-kept m w i (some (asking a)) (x ∷ q) z k = refl
    suspend-kept m w i (some (ready a x)) [] z k = refl
    suspend-kept m w i (some (ready a x)) (y ∷ q) z k = refl
    suspend-kept m w i (some (suspended a x)) [] z k = refl
    suspend-kept m w i (some (suspended a x)) (y ∷ q) z k = refl

    ready-kept :
        (w : World H) (i : ℕ) (o : Option Wait) (q : List ℕ)
        → w.set_.pending ≡ q
        → kept (await_ready w i o) ≡ kept w
    unfolding await_ready
    ready-kept w i none q k = refl
    ready-kept w i (some (asking a)) [] k = ground arith
    ready-kept w i (some (asking a)) (x ∷ q) k = ground arith
    ready-kept w i (some (missed a)) q k = refl
    ready-kept w i (some (ready a x)) q k = refl
    ready-kept w i (some (suspended a x)) q k = refl

    worker-kept : (w : World H) (l : Worker) → kept (worker_move w l) ≡ kept w
    unfolding worker_move post_fn
    worker-kept w unstarted = refl
    worker-kept w at_head = ground arith
    worker-kept w (blocked s) = refl
    worker-kept w (received s) = ground arith
    worker-kept w posting = refl
    worker-kept w ended = refl

    returns-kept : (w : World H) (s : ℕ) (l : Worker) → kept (sigwait_returns w s l) ≡ kept w
    unfolding sigwait_returns
    returns-kept w s unstarted = refl
    returns-kept w s at_head = refl
    returns-kept w s (blocked sigs) = ground arith
    returns-kept w s (received x) = refl
    returns-kept w s posting = refl
    returns-kept w s ended = refl

    fails-kept : (w : World H) (l : Worker) → kept (sigwait_fails w l) ≡ kept w
    unfolding sigwait_fails
    fails-kept w unstarted = refl
    fails-kept w at_head = refl
    fails-kept w (blocked sigs) = refl
    fails-kept w (received x) = refl
    fails-kept w posting = refl
    fails-kept w ended = refl

    begin-kept :
        (w : World H) (f : List (Option Callback)) (d : Option (Delivery H)) (q : List ℕ)
        → w.delivery ≡ d
        → w.set_.pending ≡ q
        → kept (deliver_begin f d w) ≡ kept w
    unfolding deliver_begin
    begin-kept w [] d q e k = refl
    begin-kept w (none ∷ f) d q e k = refl
    begin-kept w (some deliver ∷ f) (some d) q e k = refl
    begin-kept w (some deliver ∷ f) none [] e k = ground arith
    begin-kept w (some deliver ∷ f) none (x ∷ q) e k = ground arith

    end-kept :
        (w : World H) (d : Option (Delivery H))
        → v null ≡ 0
        → w.delivery ≡ d
        → kept (deliver_end d w) ≡ kept w
    unfolding deliver_end
    end-kept w none z e = refl
    end-kept w (some d) z e = ground (arith, post-total v w.sched d.waiter z)

    wait-kept : (w : World H) (ct : CancelToken) (h : Handle) → kept (async_wait w ct h) ≡ kept w
    unfolding async_wait start_if_needed
    wait-kept w ct h = ground arith

    step-kept :
        (w : World H) (e : Event H)
        → v null ≡ 0
        → kept (step w e) + total v (replaced_by w e) ≡ kept w + total v (suspended_by w e)
    unfolding step
    step-kept w (adds x) z = refl
    step-kept w (removes x) z = refl
    step-kept w (handles f) z = refl
    step-kept w stops z = refl
    step-kept w (arrives x) z = omega (arith, returns-kept w x w.worker)
    step-kept w fails z = omega (arith, fails-kept w w.worker)
    step-kept w moves z = omega (arith, worker-kept w w.worker)
    step-kept w delivers z =
        omega (arith, begin-kept w w.sched.fn_q w.delivery w.set_.pending refl refl)
    step-kept w finishes z = omega (arith, end-kept w w.delivery z refl)
    step-kept w (waits_for ct h) z = omega (arith, wait-kept w ct h)
    step-kept w (asks i) z = omega (arith, ready-kept w i (get_elem? w.waits i) w.set_.pending refl)
    step-kept w (suspends m i) z = suspend-kept m w i (get_elem? w.waits i) w.set_.pending z refl

    -- A coroutine that suspends in `async_wait` is resumed at most once, and is lost exactly when
    -- another takes its place: at every moment of every interleaving, each suspended coroutine has
    -- been posted to the scheduler, or is the waiter, or is in the hands of the callback, or was
    -- replaced as the waiter by a later one, as counted by any weight that gives null none.
    pub exec-kept :
        (w : World H) (es : List (Event H))
        → v null ≡ 0
        → kept (exec w es) + total v (replaced_in w es) ≡ kept w + total v (suspended_in w es)
    unfolding exec replaced_in suspended_in
    exec-kept w [] z = omega arith
    exec-kept w (e ∷ es) z = omega (
      arith,
      step-kept w e z,
      exec-kept (step w e) es z,
      total-append v (replaced_by w e) (replaced_in (step w e) es),
      total-append v (suspended_by w e) (suspended_in (step w e) es),
    )
