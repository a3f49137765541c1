-- ===== src/Signal/Pending.antt =====
-- What becomes of the signals that signal.cpp receives.
use cnerium.Prelude.{
  ℕ, ◌+◌, ◌≡◌, refl, ap, Bool, Option, none, some, List, [], ◌∷◌, ◌++◌, get_elem?, total,
  total-append, total-set, arith, if◌then◌else◌,
}
use cnerium.Cancel.{Flags, CancelToken}
use cnerium.Scheduler.{Handle}
use cnerium.Signal.{
  Worker, unstarted, at_head, blocked, received, posting, ended, Delivery, Callback, deliver, Wait,
  asking, missed, ready, suspended, World, Event, adds, removes, handles, stops, arrives, fails,
  moves, delivers, finishes, waits_for, asks, suspends, await_ready, await_suspend, worker_move,
  sigwait_returns, sigwait_fails, deliver_begin, deliver_end, start_if_needed, async_wait, step,
  exec,
}

-- The signals that the thread puts into the queue: those it holds while the set is not stopped.
abbrev pushed_by : Bool → Worker → List ℕ
pushed_by stopped (received sig) = if stopped then [] else sig ∷ []
pushed_by stopped _ = []

-- The signal that an await has taken; 0 is no signal.
abbrev pub wait_weight : (ℕ → ℕ) → Wait → ℕ
wait_weight v (asking a) = 0
wait_weight v (missed a) = 0
wait_weight v (ready a sig) = v sig
wait_weight v (suspended a sig) = v sig

module _ {H : Type 0} where
  abbrev pushed : World H → Event H → List ℕ
  pushed w moves = pushed_by w.set_.stop_flag w.worker
  pushed w _ = []

  pub received_in : World H → List (Event H) → List ℕ
  received_in w [] = []
  received_in w (e ∷ es) = pushed w e ++ received_in (step w e) es

  module _ (v : ℕ → ℕ) where
    abbrev pub delivered_weight : Option (Delivery H) → ℕ
    delivered_weight none = 0
    delivered_weight (some d) = v d.sig

    abbrev pub weight : World H → ℕ
    weight w =
        total v w.set_.pending + (delivered_weight w.delivery + total (wait_weight v) w.waits)

    ready-weight :
        (w : World H) (i : ℕ) (o : Option Wait) (q : List ℕ)
        → get_elem? w.waits i ≡ o
        → w.set_.pending ≡ q
        → weight (await_ready w i o) ≡ weight w
    unfolding await_ready
    ready-weight w i none q e k = refl
    ready-weight w i (some (asking a)) [] e k =
        ground (arith, ap (total v) k, total-set (wait_weight v) w.waits i (missed a) e)
    ready-weight w i (some (asking a)) (x ∷ q) e k =
        ground (arith, total-set (wait_weight v) w.waits i (ready a x) e)
    ready-weight w i (some (missed a)) q e k = refl
    ready-weight w i (some (ready a x)) q e k = refl
    ready-weight w i (some (suspended a x)) q e k = refl

    suspend-weight :
        (m : Flags) (w : World H) (i : ℕ) (o : Option Wait) (q : List ℕ)
        → v 0 ≡ 0
        → get_elem? w.waits i ≡ o
        → w.set_.pending ≡ q
        → weight (await_suspend m w i o) ≡ weight w
    unfolding await_suspend
    suspend-weight m w i none q z e k = refl
    suspend-weight m w i (some (missed a)) [] z e k =
        ground (arith, total-set (wait_weight v) w.waits i (suspended a 0) e)
    suspend-weight m w i (some (missed a)) (x ∷ q) z e k = ground (
      arith,
      total-set (wait_weight v) w.waits i (suspended a 0) e,
      total-set (wait_weight v) w.waits i (suspended a x) e,
    )
    suspend-weight m w i (some (asking a)) q z e k = refl
    suspend-weight m w i (some (ready a x)) q z e k = refl
    suspend-weight m w i (some (suspended a x)) q z e k = refl

    worker-weight :
        (w : World H) (l : Worker)
        → w.worker ≡ l
        → weight (worker_move w l) ≡ weight w + total v (pushed_by w.set_.stop_flag l)
    unfolding worker_move
    worker-weight w unstarted e = omega arith
    worker-weight w at_head e = ground arith
    worker-weight w (blocked s) e = omega arith
    worker-weight w (received s) e = ground (arith, total-append v w.set_.pending (s ∷ []))
    worker-weight w posting e = omega arith
    worker-weight w ended e = omega arith

    returns-weight : (w : World H) (s : ℕ) (l : Worker) → weight (sigwait_returns w s l) ≡ weight w
    unfolding sigwait_returns
    returns-weight w s unstarted = refl
    returns-weight w s at_head = refl
    returns-weight w s (blocked sigs) = ground arith
    returns-weight w s (received x) = refl
    returns-weight w s posting = refl
    returns-weight w s ended = refl

    fails-weight : (w : World H) (l : Worker) → weight (sigwait_fails w l) ≡ weight w
    unfolding sigwait_fails
    fails-weight w unstarted = refl
    fails-weight w at_head = refl
    fails-weight w (blocked sigs) = refl
    fails-weight w (received x) = refl
    fails-weight w posting = refl
    fails-weight w ended = refl

    begin-weight :
        (w : World H) (f : List (Option Callback)) (d : Option (Delivery H)) (q : List ℕ)
        → w.delivery ≡ d
        → w.set_.pending ≡ q
        → weight (deliver_begin f d w) ≡ weight w
    unfolding deliver_begin
    begin-weight w [] d q e k = refl
    begin-weight w (none ∷ f) d q e k = refl
    begin-weight w (some deliver ∷ f) (some d) q e k = refl
    begin-weight w (some deliver ∷ f) none [] e k = ground arith
    begin-weight w (some deliver ∷ f) none (x ∷ q) e k = ground arith

    end-weight :
        (w : World H) (d : Option (Delivery H))
        → w.delivery ≡ d
        → weight (deliver_end d w) ≡ weight w
    unfolding deliver_end
    end-weight w none e = refl
    end-weight w (some d) e = ground (arith, total-append v w.set_.pending (d.sig ∷ []))

    wait-weight :
        (w : World H) (ct : CancelToken) (h : Handle) → weight (async_wait w ct h) ≡ weight w
    unfolding async_wait start_if_needed
    wait-weight w ct h =
        ground (
          arith,
          total-append (wait_weight v) w.waits (asking (record { ct = ct; handle = h }) ∷ []),
        )

    step-weight :
        (w : World H) (e : Event H) → v 0 ≡ 0 → weight (step w e) ≡ weight w + total v (pushed w e)
    unfolding step
    step-weight w (adds x) z = omega arith
    step-weight w (removes x) z = omega arith
    step-weight w (handles f) z = omega arith
    step-weight w stops z = omega arith
    step-weight w (arrives x) z = omega (arith, returns-weight w x w.worker)
    step-weight w fails z = omega (arith, fails-weight w w.worker)
    step-weight w moves z = worker-weight w w.worker refl
    step-weight w delivers z =
        omega (arith, begin-weight w w.sched.fn_q w.delivery w.set_.pending refl refl)
    step-weight w finishes z = omega (arith, end-weight w w.delivery refl)
    step-weight w (waits_for ct h) z = omega (arith, wait-weight w ct h)
    step-weight w (asks i) z =
        omega (arith, ready-weight w i (get_elem? w.waits i) w.set_.pending refl refl)
    step-weight w (suspends m i) z =
        omega (arith, suspend-weight m w i (get_elem? w.waits i) w.set_.pending z refl refl)

    -- No signal is lost or doubled by the queue, the callbacks and the awaits: at every moment of
    -- every interleaving, each signal that the thread has received while the set was not stopped is
    -- pending, or in the hands of the callback, or taken by one await, as counted by any weight that
    -- gives 0, which is no signal, none. A callback puts back what it takes.
    pub exec-weight :
        (w : World H) (es : List (Event H))
        → v 0 ≡ 0
        → weight (exec w es) ≡ weight w + total v (received_in w es)
    unfolding exec received_in
    exec-weight w [] z = omega arith
    exec-weight w (e ∷ es) z = omega (
      arith,
      step-weight w e z,
      exec-weight (step w e) es z,
      total-append v (pushed w e) (received_in (step w e) es),
    )
