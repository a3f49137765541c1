-- ===== src/ThreadPool/Contract.antt =====
-- What thread_pool.cpp promises: a bag of pending callables, of which any may be run at any time, and
-- a bag of those that were run. Neither the queue nor the workers are seen.
use mathlib.Core.Path.{subst}
use cnerium.Prelude.{
  ℕ, ◌+◌, ◌≡◌, refl, sym, ap, ◌∙◌, Bool, true, false, Option, none, some, List, [], ◌∷◌, ◌++◌,
  total, total-append, append-nil, append_assoc, ◌⊎◌, if◌then◌else◌, somes, somes-append, get_elem?,
  arith, Bool-cases, inl, inr, Bag, bag, bag-eq, put, put-bag, not,
}
use cnerium.ThreadPool.{
  Worker, looping, holding, exited, Pool, enqueue, stop, shutdown_begin, Event, submits, stops,
  shuts, moves, move, step, exec,
}
use cnerium.ThreadPool.Account.{in_hand, load, move-load}

pub record Contract (F : Type 0) : Type 0 where
  pub pending : Bag F
  pub done : Bag F
  pub open_ : Bool

-- What a promise allows: nothing, to take a callable on while it is open, to run one, or to close.
pub data Allowed {F : Type 0} (s t : Contract F) : Type 0 where
  idles : t ≡ s → Allowed s t
  accepts : (f : F) → s.open_ ≡ true → t ≡ record s { pending = put f s.pending } → Allowed s t
  runs :
      (f : F)
      → s.pending ≡ put f t.pending
      → t.done ≡ put f s.done
      → t.open_ ≡ s.open_
      → Allowed s t
  closes : t ≡ record s { open_ = false } → Allowed s t

-- A sequence of allowed steps.
pub data Course {F : Type 0} (s : Contract F) : Contract F → Type 0 where
  here : Course s s
  after : {t u : Contract F} → Course s t → Allowed t u → Course s u

abbrev in_hands : {F : Type 0} → List (Worker F) → List F
in_hands [] = []
in_hands (holding (some f) ∷ ws) = f ∷ in_hands ws
in_hands (_ ∷ ws) = in_hands ws

-- What a pool with what it has run shows.
abbrev pub shown : {F : Type 0} → Pool F → List F → Contract F
shown p ran = record {
  pending = bag (in_hands p.workers ++ somes p.q);
  done = bag ran;
  open_ = not p.stop_flag;
}

module _ {F : Type 0} where
  total-in_hands : (w : F → ℕ) (ws : List (Worker F)) → total w (in_hands ws) ≡ total (in_hand w) ws
  total-in_hands w [] = refl
  total-in_hands w (looping ∷ ws) = omega (arith, total-in_hands w ws)
  total-in_hands w (exited ∷ ws) = omega (arith, total-in_hands w ws)
  total-in_hands w (holding none ∷ ws) = omega (arith, total-in_hands w ws)
  total-in_hands w (holding (some f) ∷ ws) = omega (arith, total-in_hands w ws)

  total-shown : (w : F → ℕ) (p : Pool F) → total w (in_hands p.workers ++ somes p.q) ≡ load w p
  total-shown w p =
      omega (arith, total-append w (in_hands p.workers) (somes p.q), total-in_hands w p.workers)

  contract_eq :
      {a a' b b' : Bag F} {c c' : Bool}
      → a ≡ a'
      → b ≡ b'
      → c ≡ c'
      → ◌≡◌ {A = Contract F}
          (record { pending = a; done = b; open_ = c })
          (record { pending = a'; done = b'; open_ = c' })
  contract_eq p q r = λ i. record { pending = p i; done = q i; open_ = r i }

  same-shown :
      (p p' : Pool F) (ran : List F)
      → ((w : F → ℕ) → load w p' ≡ load w p)
      → p'.stop_flag ≡ p.stop_flag
      → shown p' ran ≡ shown p ran
  same-shown p p' ran h k =
      contract_eq (bag-eq _ _ (λ w. total-shown w p' ∙ h w ∙ sym (total-shown w p))) refl (ap not k)

  quiet-Allowed :
      (p p' : Pool F) (ran xs : List F)
      → xs ≡ []
      → ((w : F → ℕ) → total w xs + load w p' ≡ load w p)
      → p'.stop_flag ≡ p.stop_flag
      → Allowed (shown p ran) (shown p' (ran ++ xs))
  quiet-Allowed p p' ran xs e h k = idles (
      ap (λ l. shown p' (ran ++ l)) e
      ∙ ap (shown p') (append-nil ran)
      ∙ same-shown p p' ran (λ w. omega (arith, h w, ap (total w) e)) k)

  run-Allowed :
      (p p' : Pool F) (ran xs : List F) (f : F)
      → xs ≡ f ∷ []
      → ((w : F → ℕ) → total w xs + load w p' ≡ load w p)
      → p'.stop_flag ≡ p.stop_flag
      → Allowed (shown p ran) (shown p' (ran ++ xs))
  run-Allowed p p' ran xs f e h k =
      runs f
        (bag-eq _ _ (λ w. total-shown w p ∙ sym (h w) ∙ ap (λ l. total w l + load w p') e ∙ one w)
          ∙ sym (put-bag f _))
        (bag-eq _ _ (λ w. last w) ∙ sym (put-bag f ran)) (ap not k)
    where
      one :
          (w : F → ℕ)
          → total w (f ∷ []) + load w p' ≡ total w (f ∷ (in_hands p'.workers ++ somes p'.q))
      one w = omega (arith, total-shown w p')

      last : (w : F → ℕ) → total w (ran ++ xs) ≡ total w (f ∷ ran)
      last w = omega (arith, total-append w ran xs, ap (total w) e)

  moved :
      (p : Pool F) (i : ℕ) (o : Option (Worker F))
      → ((move p i o).1 ≡ []) ⊎ ((f : F) × ((move p i o).1 ≡ f ∷ []))
  unfolding move
  moved p i none = inl refl
  moved p i (some looping) = inl refl
  moved p i (some exited) = inl refl
  moved p i (some (holding none)) = inl refl
  moved p i (some (holding (some f))) = inr (f, refl)

  enqueue_stopped : (p : Pool F) (f : F) → p.stop_flag ≡ true → enqueue p (some f) ≡ p
  unfolding enqueue
  enqueue_stopped p f h = ap (λ b. if b then p else record p { q = p.q ++ some f ∷ [] }) h

  enqueue_open :
      (p : Pool F) (f : F)
      → p.stop_flag ≡ false
      → enqueue p (some f) ≡ record p { q = p.q ++ some f ∷ [] }
  unfolding enqueue
  enqueue_open p f h = ap (λ b. if b then p else record p { q = p.q ++ some f ∷ [] }) h

  move-Allowed :
      (p : Pool F) (i : ℕ) (o : Option (Worker F)) (ran : List F)
      → get_elem? p.workers i ≡ o
      → Allowed (shown p ran) (shown (move p i o).0 (ran ++ (move p i o).1))
  move-Allowed p i o ran e =
      let flag = (move-load (λ f. 0) p i o p.q e refl).1 in
      let loads : (w : F → ℕ) → total w (move p i o).1 + load w (move p i o).0 ≡ load w p =
        λ w. (move-load w p i o p.q e refl).0 in
      elim (moved p i o) [
        | inl quiet ↦ quiet-Allowed p (move p i o).0 ran (move p i o).1 quiet loads flag
        | inr (f, one) ↦ run-Allowed p (move p i o).0 ran (move p i o).1 f one loads flag
      ]

  -- What a call that runs nothing shows.
  still : (p : Pool F) (ran : List F) → shown p (ran ++ []) ≡ shown p ran
  still p ran = ap (shown p) (append-nil ran)

  enqueue-Allowed :
      (p : Pool F) (f : F) (ran : List F)
      → Allowed (shown p ran) (shown (enqueue p (some f)) (ran ++ []))
  enqueue-Allowed p f ran = elim (Bool-cases p.stop_flag) [
    | inl stopped ↦
        idles
          (still (enqueue p (some f)) ran ∙ ap (λ p'. shown p' ran) (enqueue_stopped p f stopped))
    | inr open_ ↦ accepts f (ap not open_) (
        still (enqueue p (some f)) ran
        ∙ ap (λ p'. shown p' ran) (enqueue_open p f open_)
        ∙ contract_eq (bag-eq _ _ one ∙ sym (put-bag f _)) refl refl)
  ]
    where
      one :
          (w : F → ℕ)
          → total w (in_hands p.workers ++ somes (p.q ++ some f ∷ []))
            ≡ total w (f ∷ (in_hands p.workers ++ somes p.q))
      one w = omega (
        arith,
        total-append w (in_hands p.workers) (somes (p.q ++ some f ∷ [])),
        total-append w (in_hands p.workers) (somes p.q),
        total-append w (somes p.q) (f ∷ []),
        ap (total w) (somes-append p.q (some f ∷ [])),
      )

  step-Allowed :
      (p : Pool F) (e : Event F) (ran : List F)
      → Allowed (shown p ran) (shown (step p e).0 (ran ++ (step p e).1))
  unfolding step stop shutdown_begin
  step-Allowed p (submits none) ran = idles (still p ran)
  step-Allowed p (submits (some f)) ran = enqueue-Allowed p f ran
  step-Allowed p stops ran = closes (still (stop p) ran)
  step-Allowed p shuts ran = elim (Bool-cases p.shutdown_done) [
    | inl again ↦ rw again (idles (still p ran))
    | inr first ↦ rw first (closes (still (stop (record p { shutdown_done = true })) ran))
  ]
  step-Allowed p (moves i) ran = move-Allowed p i (get_elem? p.workers i) ran refl

  Course-trans : {s t u : Contract F} → Course s t → Course t u → Course s u
  Course-trans c here = c
  Course-trans c (after d a) = after (Course-trans c d) a

  -- The pool keeps its promise: whatever is submitted, whoever stops it and however its workers are
  -- interleaved, what a pool shows goes through allowed steps only, from any state. Its pending
  -- callables, queued or in hand, are a bag that grows by what is accepted while it is open, and any
  -- member may leave it to be run; those run are a bag that only grows by these; once closed it stays
  -- closed.
  pub exec-Course :
      (p : Pool F) (es : List (Event F)) (ran : List F)
      → Course (shown p ran) (shown (exec p es).0 (ran ++ (exec p es).1))
  unfolding exec
  exec-Course p [] ran = subst (Course (shown p ran)) (sym (still p ran)) here
  exec-Course p (e ∷ es) ran = rw (← append_assoc ran (step p e).1 (exec (step p e).0 es).1) (
      Course-trans (after here (step-Allowed p e ran))
        (exec-Course (step p e).0 es (ran ++ (step p e).1)))
