-- ===== src/ThreadPool/Account.antt =====
-- What the workers of thread_pool.cpp do with the accepted callables: none is lost or run twice.
use cnerium.Prelude.{
  ℕ, ◌+◌, ◌<◌, ◌≡◌, refl, Bool, true, false, ◌||◌, Option, none, some, List, [], ◌∷◌, ◌++◌, total,
  total-append, total-set, somes, somes-append, get_elem?, arith, if◌then◌else◌, append-nil,
}
use cnerium.ThreadPool.{
  Worker, looping, holding, exited, Pool, take, Event, submits, stops, shuts, moves, move, step,
  exec,
}

-- The callables that the pool accepts: those submitted, other than empty ones, before it is
-- stopped.
abbrev pub accepted : {F : Type 0} → Bool → List (Event F) → List F
accepted stopped [] = []
accepted stopped (submits fn ∷ es) =
    (if stopped then [] else somes (fn ∷ [])) ++ accepted stopped es
accepted stopped (moves i ∷ es) = accepted stopped es
accepted stopped (_ ∷ es) = accepted true es

-- Whether an event ends the intake.
abbrev pub ends : {F : Type 0} → Event F → Bool
ends stops = true
ends shuts = true
ends _ = false

abbrev pub gone : {F : Type 0} → Worker F → ℕ
gone exited = 1
gone _ = 0

-- A worker leaves its loop only when the pool is stopped and the queue is empty, for good.
pub record Inv {F : Type 0} (p : Pool F) : Type 0 where
  pub closed : p.shutdown_done ≡ true → p.stop_flag ≡ true
  pub last : 0 < total gone p.workers → (p.stop_flag ≡ true) × (p.q ≡ [])

-- The callable in the hands of a worker, counted by a weight.
abbrev pub in_hand : {F : Type 0} → (F → ℕ) → Worker F → ℕ
in_hand w (holding (some f)) = w f
in_hand w _ = 0

module _ {F : Type 0} where
  move-Inv :
      (p : Pool F) (i : ℕ) (o : Option (Worker F)) (q : List (Option F))
      → get_elem? p.workers i ≡ o
      → p.q ≡ q
      → Inv p
      → Inv (move p i o).0
  unfolding move take
  move-Inv p i none q e k v = v
  move-Inv p i (some looping) [] e k v =
      ground (arith, total-set gone p.workers i looping e, total-set gone p.workers i exited e)
  move-Inv p i (some looping) (fn ∷ rest) e k v =
      ground (arith, total-set gone p.workers i (holding fn) e)
  move-Inv p i (some (holding none)) q e k v = ground (arith, total-set gone p.workers i looping e)
  move-Inv p i (some (holding (some f))) q e k v =
      ground (arith, total-set gone p.workers i looping e)
  move-Inv p i (some exited) q e k v = ground (arith, total-set gone p.workers i exited e)

  pub step-Inv : (p : Pool F) (e : Event F) → Inv p → Inv (step p e).0
  unfolding step
  step-Inv p (submits none) v = v
  step-Inv p (submits (some f)) v = ground arith
  step-Inv p stops v = ground arith
  step-Inv p shuts v = ground arith
  step-Inv p (moves i) v = move-Inv p i (get_elem? p.workers i) p.q refl refl v

  pub exec-Inv : (p : Pool F) (es : List (Event F)) → Inv p → Inv (exec p es).0
  unfolding exec
  exec-Inv p [] v = v
  exec-Inv p (e ∷ es) v = exec-Inv (step p e).0 es (step-Inv p e v)

module _ {F : Type 0} (w : F → ℕ) where
  -- All that a pool has accepted and not run yet.
  abbrev pub load : Pool F → ℕ
  load p = total (in_hand w) p.workers + total w (somes p.q)

  pub move-load :
      (p : Pool F) (i : ℕ) (o : Option (Worker F)) (q : List (Option F))
      → get_elem? p.workers i ≡ o
      → p.q ≡ q
      → (total w (move p i o).1 + load (move p i o).0 ≡ load p)
        × ((move p i o).0.stop_flag ≡ p.stop_flag)
  unfolding move take
  move-load p i none q e k = (omega arith, refl)
  move-load p i (some looping) [] e k = ground (
    arith,
    total-set (in_hand w) p.workers i looping e,
    total-set (in_hand w) p.workers i exited e,
  )
  move-load p i (some looping) (fn ∷ rest) e k =
      ground (arith, total-set (in_hand w) p.workers i (holding fn) e)
  move-load p i (some (holding none)) q e k =
      ground (arith, total-set (in_hand w) p.workers i looping e)
  move-load p i (some (holding (some f))) q e k =
      ground (arith, total-set (in_hand w) p.workers i looping e)
  move-load p i (some exited) q e k = ground (arith, total-set (in_hand w) p.workers i exited e)

  pub accepted-cons :
      (b : Bool) (e : Event F) (es : List (Event F))
      → total w (accepted b (e ∷ es))
        ≡ total w (accepted b (e ∷ [])) + total w (accepted (b || ends e) es)
  accepted-cons b (submits fn) es = ground (
    arith,
    total-append w (if b then [] else somes (fn ∷ [])) (accepted b es),
    append-nil (if b then [] else somes (fn ∷ [])),
  )
  accepted-cons b stops es = ground arith
  accepted-cons b shuts es = ground arith
  accepted-cons b (moves i) es = ground arith

  pub step-load :
      (p : Pool F) (e : Event F)
      → Inv p
      → (total w (step p e).1 + load (step p e).0
          ≡ load p + total w (accepted p.stop_flag (e ∷ [])))
        × ((step p e).0.stop_flag ≡ (p.stop_flag || ends e))
  unfolding step
  step-load p (submits none) v = ground arith
  step-load p (submits (some f)) v =
      ground (arith, somes-append p.q (some f ∷ []), total-append w (somes p.q) (f ∷ []))
  step-load p stops v = ground arith
  step-load p shuts v = ground (arith, v.closed)
  step-load p (moves i) v = ground (arith, move-load p i (get_elem? p.workers i) p.q refl refl)

  -- At every moment of every interleaving of submissions, stops and moves of the workers, each
  -- accepted callable has been run, or is in the hands of a worker, or is queued, exactly once and
  -- in exactly one of these places, as counted by any weight; a callable submitted after the stop
  -- is in none of them. The pool satisfies its invariant at the start.
  pub exec-once :
      (p : Pool F) (es : List (Event F))
      → Inv p
      → total w (exec p es).1 + load (exec p es).0 ≡ load p + total w (accepted p.stop_flag es)
  unfolding exec
  exec-once p [] v = omega arith
  exec-once p (e ∷ es) v =
      let (here, flag) = step-load p e v in
      let later = rw flag at (exec-once (step p e).0 es (step-Inv p e v)) in
      omega (
        arith,
        total-append w (step p e).1 (exec (step p e).0 es).1,
        accepted-cons p.stop_flag e es,
        here,
        later,
      )
