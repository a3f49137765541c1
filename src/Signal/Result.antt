-- ===== src/Signal/Result.antt =====
-- What the awaits of signal.cpp return.
use cnerium.Prelude.{
  ℕ, ◌≡◌, refl, ap, ◌∙◌, Option, none, some, List, [], ◌∷◌, get_elem?, get_elem?-append,
  get_elem?-set_self, get_elem?-set_ne, get_elem?-lt, arith, if◌then◌else◌,
}
use cnerium.Error.{returns, throws, system_error}
use cnerium.Cancel.{Flags, is_cancelled, cancelled_ec}
use cnerium.Signal.{
  Worker, unstarted, at_head, blocked, received, posting, ended, Delivery, Callback, deliver, Await,
  Wait, asking, missed, ready, suspended, World, Event, adds, removes, handles, stops, arrives,
  fails, moves, delivers, finishes, waits_for, asks, suspends, await_ready, await_suspend,
  worker_move, sigwait_returns, sigwait_fails, deliver_begin, deliver_end, start_if_needed, step,
  exec, wait_result, await_resume,
}

module _ {H : Type 0} where
  worker-waits : (w : World H) (l : Worker) → (worker_move w l).waits ≡ w.waits
  unfolding worker_move
  worker-waits w unstarted = refl
  worker-waits w at_head = ground arith
  worker-waits w (blocked s) = refl
  worker-waits w (received s) = ground arith
  worker-waits w posting = refl
  worker-waits w ended = refl

  returns-waits : (w : World H) (s : ℕ) (l : Worker) → (sigwait_returns w s l).waits ≡ w.waits
  unfolding sigwait_returns
  returns-waits w s unstarted = refl
  returns-waits w s at_head = refl
  returns-waits w s (blocked sigs) = ground arith
  returns-waits w s (received x) = refl
  returns-waits w s posting = refl
  returns-waits w s ended = refl

  fails-waits : (w : World H) (l : Worker) → (sigwait_fails w l).waits ≡ w.waits
  unfolding sigwait_fails
  fails-waits w unstarted = refl
  fails-waits w at_head = refl
  fails-waits w (blocked sigs) = refl
  fails-waits w (received x) = refl
  fails-waits w posting = refl
  fails-waits w ended = refl

  begin-waits :
      (w : World H) (f : List (Option Callback)) (d : Option (Delivery H)) (q : List ℕ)
      → w.set_.pending ≡ q
      → (deliver_begin f d w).waits ≡ w.waits
  unfolding deliver_begin
  begin-waits w [] d q k = refl
  begin-waits w (none ∷ f) d q k = refl
  begin-waits w (some deliver ∷ f) (some d) q k = refl
  begin-waits w (some deliver ∷ f) none [] k = ground arith
  begin-waits w (some deliver ∷ f) none (x ∷ q) k = ground arith

  end-waits : (w : World H) (d : Option (Delivery H)) → (deliver_end d w).waits ≡ w.waits
  unfolding deliver_end
  end-waits w none = refl
  end-waits w (some d) = refl

  start-waits : (w : World H) → (start_if_needed w).waits ≡ w.waits
  unfolding start_if_needed
  start-waits w = ground arith

  keeps-asked :
      (w : World H) (j i : ℕ) (a : Await) (sig : ℕ) (o : Option Wait) (q : List ℕ)
      → get_elem? w.waits j ≡ o
      → w.set_.pending ≡ q
      → get_elem? w.waits i ≡ some (suspended a sig)
      → get_elem? (await_ready w j o).waits i ≡ some (suspended a sig)
  unfolding await_ready
  keeps-asked w j i a sig none q e z k = k
  keeps-asked w j i a sig (some (asking b)) [] e z k =
      rw z (get_elem?-set_ne w.waits (missed b) (λ h. cc) ∙ k)
  keeps-asked w j i a sig (some (asking b)) (x ∷ q) e z k =
      rw z (get_elem?-set_ne w.waits (ready b x) (λ h. cc) ∙ k)
  keeps-asked w j i a sig (some (missed b)) q e z k = k
  keeps-asked w j i a sig (some (ready b x)) q e z k = k
  keeps-asked w j i a sig (some (suspended b x)) q e z k = k

  keeps-missed :
      (m : Flags) (w : World H) (j i : ℕ) (a : Await) (sig : ℕ) (o : Option Wait) (q : List ℕ)
      → get_elem? w.waits j ≡ o
      → w.set_.pending ≡ q
      → get_elem? w.waits i ≡ some (suspended a sig)
      → get_elem? (await_suspend m w j o).waits i ≡ some (suspended a sig)
  unfolding await_suspend
  keeps-missed m w j i a sig none q e z k = k
  keeps-missed m w j i a sig (some (missed b)) [] e z k =
      ground (arith, get_elem?-set_ne w.waits (suspended b 0) (λ (h : j ≡ i). cc))
  keeps-missed m w j i a sig (some (missed b)) (x ∷ q) e z k = ground (
    arith,
    get_elem?-set_ne w.waits (suspended b 0) (λ (h : j ≡ i). cc),
    get_elem?-set_ne w.waits (suspended b x) (λ (h : j ≡ i). cc),
  )
  keeps-missed m w j i a sig (some (asking b)) q e z k = k
  keeps-missed m w j i a sig (some (ready b x)) q e z k = k
  keeps-missed m w j i a sig (some (suspended b x)) q e z k = k

  -- What an await holds once it is suspended stays.
  keeps-suspended :
      (w : World H) (e : Event H) (i : ℕ) (a : Await) (sig : ℕ)
      → get_elem? w.waits i ≡ some (suspended a sig)
      → get_elem? (step w e).waits i ≡ some (suspended a sig)
  unfolding step
  keeps-suspended w (adds x) i a sig k = k
  keeps-suspended w (removes x) i a sig k = k
  keeps-suspended w (handles f) i a sig k = k
  keeps-suspended w stops i a sig k = k
  keeps-suspended w (arrives x) i a sig k = ap (λ l. get_elem? l i) (returns-waits w x w.worker) ∙ k
  keeps-suspended w fails i a sig k = ap (λ l. get_elem? l i) (fails-waits w w.worker) ∙ k
  keeps-suspended w moves i a sig k = ap (λ l. get_elem? l i) (worker-waits w w.worker) ∙ k
  keeps-suspended w delivers i a sig k =
      ap (λ l. get_elem? l i) (begin-waits w w.sched.fn_q w.delivery w.set_.pending refl) ∙ k
  keeps-suspended w finishes i a sig k = ap (λ l. get_elem? l i) (end-waits w w.delivery) ∙ k
  keeps-suspended w (waits_for ct h) i a sig k =
      get_elem?-append (start_if_needed w).waits (asking (record { ct = ct; handle = h }) ∷ []) i
        (ap (λ l. get_elem? l i) (start-waits w) ∙ k)
  keeps-suspended w (asks j) i a sig k =
      keeps-asked w j i a sig (get_elem? w.waits j) w.set_.pending refl refl k
  keeps-suspended w (suspends m j) i a sig k =
      keeps-missed m w j i a sig (get_elem? w.waits j) w.set_.pending refl refl k

  exec-keeps :
      (w : World H) (es : List (Event H)) (i : ℕ) (a : Await) (sig : ℕ)
      → get_elem? w.waits i ≡ some (suspended a sig)
      → get_elem? (exec w es).waits i ≡ some (suspended a sig)
  unfolding exec
  exec-keeps w [] i a sig k = k
  exec-keeps w (e ∷ es) i a sig k = exec-keeps (step w e) es i a sig (keeps-suspended w e i a sig k)

  suspend-zero :
      (m : Flags) (w : World H) (i : ℕ) (a : Await)
      → get_elem? w.waits i ≡ some (missed a)
      → w.set_.pending ≡ []
      → get_elem? (await_suspend m w i (some (missed a))).waits i ≡ some (suspended a 0)
  unfolding await_suspend
  suspend-zero m w i a e z =
      ground (arith, get_elem?-set_self w.waits i (suspended a 0) (get_elem?-lt w.waits i e))

  -- An `async_wait` that finds no signal pending and suspends never returns the signal that ends it:
  -- whatever signals are received and delivered before it is resumed, it returns 0, or throws the
  -- cancellation error if its token is cancelled by then.
  pub exec-no_signal :
      (m m' : Flags) (w : World H) (i : ℕ) (a : Await) (es : List (Event H))
      → get_elem? w.waits i ≡ some (missed a)
      → w.set_.pending ≡ []
      → wait_result m' (get_elem? (exec w (suspends m i ∷ es)).waits i)
        ≡ some (if is_cancelled m' a.ct then throws (system_error cancelled_ec) else returns 0)
  unfolding wait_result exec step await_resume
  exec-no_signal m m' w i a es e z =
      rw (exec-keeps (step w (suspends m i)) es i a 0 (rw e (suspend-zero m w i a e z))) refl
