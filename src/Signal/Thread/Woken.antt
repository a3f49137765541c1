-- ===== src/Signal/Thread/Woken.antt =====
-- How the thread of signal.cpp ends after a stop.
use mathlib.Core.Path.{subst}
use cnerium.Prelude.{
  ℕ, ◌≡◌, refl, sym, ap, ◌∙◌, Bool, if◌then◌else◌, Bool-cases, inl, inr, true, false, List, [], ◌∷◌,
  arith,
}
use cnerium.Signal.{
  Worker, unstarted, posting, received, at_head, ended, blocked, World, Event, stops, arrives,
  fails, moves, contains, worker_move, sigwait_returns, sigwait_fails, step, exec, joins,
}
use cnerium.Signal.Thread.{At, call-At, stop-At}

-- The section of the thread that follows ends it.
abbrev has_move : {H : Type 0} → List (Event H) → Bool
has_move [] = false
has_move (moves ∷ es) = true
has_move (e ∷ es) = has_move es

-- Whether one of the signals comes, or `sigwait` fails, and the thread goes on after that.
abbrev pub woken : {H : Type 0} → List ℕ → List (Event H) → Bool
woken sigs [] = false
woken sigs (arrives x ∷ es) = if contains sigs x then has_move es else woken sigs es
woken sigs (fails ∷ es) = has_move es
woken sigs (e ∷ es) = woken sigs es

-- Out of `sigwait`, with its next section before it.
abbrev IsAwake : Worker → Type 0
IsAwake at_head = Unit
IsAwake (received x) = Unit
IsAwake _ = ⊥

awake_joins : (l : Worker) → IsAwake l → joins false l ≡ false
unfolding joins
awake_joins at_head a = refl
awake_joins (received x) a = refl
awake_joins unstarted a = absurd a
awake_joins (blocked sigs) a = absurd a
awake_joins posting a = absurd a
awake_joins ended a = absurd a

module _ {H : Type 0} where
  -- After a stop, the next section of a thread that is out of `sigwait` is its last.
  awake_moves : (l : Worker) (w : World H) → IsAwake l → At l w → At ended (worker_move w l)
  unfolding worker_move
  awake_moves at_head w a v = record {
    here = ground (arith, v.down);
    begun = ground (arith, v.down, v.begun);
    down = ground (arith, v.down);
  }
  awake_moves (received x) w a v = record {
    here = ground (arith, v.down);
    begun = ground (arith, v.down, v.begun);
    down = ground (arith, v.down);
  }
  awake_moves unstarted w a v = absurd a
  awake_moves (blocked sigs) w a v = absurd a
  awake_moves posting w a v = absurd a
  awake_moves ended w a v = absurd a

  -- Only a thread in `sigwait` is woken.
  awake_arrives : (l : Worker) (w : World H) (x : ℕ) → IsAwake l → sigwait_returns w x l ≡ w
  unfolding sigwait_returns
  awake_arrives at_head w x a = refl
  awake_arrives (received y) w x a = refl
  awake_arrives unstarted w x a = absurd a
  awake_arrives (blocked sigs) w x a = absurd a
  awake_arrives posting w x a = absurd a
  awake_arrives ended w x a = absurd a

  awake_fails : (l : Worker) (w : World H) → IsAwake l → sigwait_fails w l ≡ w
  unfolding sigwait_fails
  awake_fails at_head w a = refl
  awake_fails (received y) w a = refl
  awake_fails unstarted w a = absurd a
  awake_fails (blocked sigs) w a = absurd a
  awake_fails posting w a = absurd a
  awake_fails ended w a = absurd a

  exec-ended :
      (w : World H) (es : List (Event H)) → At ended w → joins false (exec w es).worker ≡ true
  unfolding exec step joins worker_move sigwait_returns sigwait_fails
  exec-ended w [] v = ap (joins false) v.here
  exec-ended w (moves ∷ es) v =
      exec-ended (worker_move w w.worker) es
        (subst (λ l. At ended (worker_move w l)) (sym v.here) v)
  exec-ended w (arrives x ∷ es) v =
      exec-ended (sigwait_returns w x w.worker) es
        (subst (λ l. At ended (sigwait_returns w x l)) (sym v.here) v)
  exec-ended w (fails ∷ es) v =
      exec-ended (sigwait_fails w w.worker) es
        (subst (λ l. At ended (sigwait_fails w l)) (sym v.here) v)
  exec-ended w (stops ∷ es) v = exec-ended (step w stops) es (stop-At ended w v)
  exec-ended w (e ∷ es) v = exec-ended (step w e) es (call-At ended w e v tt)

  exec-awake :
      (l : Worker) (w : World H) (es : List (Event H))
      → IsAwake l
      → At l w
      → joins false (exec w es).worker ≡ has_move es
  unfolding exec step
  exec-awake l w [] a v = ap (joins false) v.here ∙ awake_joins l a
  exec-awake l w (moves ∷ es) a v =
      exec-ended (worker_move w w.worker) es
        (subst (λ x. At ended (worker_move w x)) (sym v.here) (awake_moves l w a v))
  exec-awake l w (arrives x ∷ es) a v =
      exec-awake l (sigwait_returns w x w.worker) es a
        (subst (At l) (sym (ap (sigwait_returns w x) v.here ∙ awake_arrives l w x a)) v)
  exec-awake l w (fails ∷ es) a v =
      exec-awake l (sigwait_fails w w.worker) es a
        (subst (At l) (sym (ap (sigwait_fails w) v.here ∙ awake_fails l w a)) v)
  exec-awake l w (stops ∷ es) a v = exec-awake l (step w stops) es a (stop-At l w v)
  exec-awake l w (e ∷ es) a v = exec-awake l (step w e) es a (call-At l w e v tt)

  comes_in :
      (w : World H) (sigs : List ℕ) (x : ℕ)
      → contains sigs x ≡ true
      → sigwait_returns w x (blocked sigs) ≡ record w { worker = received x }
  unfolding sigwait_returns
  comes_in w sigs x c = ap (λ b. if b then record w { worker = received x } else w) c

  passes_by :
      (w : World H) (sigs : List ℕ) (x : ℕ)
      → contains sigs x ≡ false
      → sigwait_returns w x (blocked sigs) ≡ w
  unfolding sigwait_returns
  passes_by w sigs x c = ap (λ b. if b then record w { worker = received x } else w) c

  blocked_moves : (w : World H) (sigs : List ℕ) → worker_move w (blocked sigs) ≡ w
  unfolding worker_move
  blocked_moves w sigs = refl

  -- A stop does not wake the thread. Once a set is stopped while its thread is in `sigwait`, whatever
  -- happens in whatever order, further stops included: the join of the destructor returns exactly if
  -- one of the signals that the thread waits for has come or `sigwait` has failed, and the thread has
  -- gone on for a section after that.
  pub exec-woken :
      (w : World H) (es : List (Event H)) (sigs : List ℕ)
      → w.worker ≡ blocked sigs
      → w.set_.started ≡ true
      → w.set_.stop_flag ≡ true
      → joins false (exec w es).worker ≡ woken sigs es
  unfolding exec step joins sigwait_fails
  exec-woken w [] sigs l s d = ap (joins false) l
  exec-woken w (moves ∷ es) sigs l s d =
      let same : worker_move w w.worker ≡ w = ap (worker_move w) l ∙ blocked_moves w sigs in
      subst (λ u. joins false (exec u es).worker ≡ woken sigs es) (sym same)
        (exec-woken w es sigs l s d)
  exec-woken w (arrives x ∷ es) sigs l s d = elim (Bool-cases (contains sigs x)) [
    | inl comes ↦
        let v : At (received x) (sigwait_returns w x w.worker) =
          subst (At (received x)) (sym (ap (sigwait_returns w x) l ∙ comes_in w sigs x comes))
            (record { here = refl; begun = s; down = d }) in
        rw comes (exec-awake (received x) (sigwait_returns w x w.worker) es tt v)
    | inr other ↦
        let same : sigwait_returns w x w.worker ≡ w =
          ap (sigwait_returns w x) l ∙ passes_by w sigs x other in
        rw other (
          subst (λ u. joins false (exec u es).worker ≡ woken sigs es) (sym same)
            (exec-woken w es sigs l s d))
  ]
  exec-woken w (fails ∷ es) sigs l s d =
      let v : At at_head (sigwait_fails w w.worker) =
        subst (λ k. At at_head (sigwait_fails w k)) (sym l)
          (record { here = refl; begun = s; down = d }) in
      exec-awake at_head (sigwait_fails w w.worker) es tt v
  exec-woken w (stops ∷ es) sigs l s d = exec-woken (step w stops) es sigs l s refl
  exec-woken w (e ∷ es) sigs l s d =
      let v = call-At (blocked sigs) w e (record { here = l; begun = s; down = d }) tt in
      exec-woken (step w e) es sigs v.here v.begun v.down
