-- ===== src/ThreadPool/Shutdown.antt =====
-- How a pool of thread_pool.cpp that is stopped drains its queue and ends, as `shutdown` waits for.
use cnerium.Prelude.{
  ℕ, zero, suc, ◌+◌, ◌*◌, ◌<◌, ◌≤◌, ◌≡◌, ◌≢◌, refl, ap, ◌∙◌, true, Option, none, some, List, [],
  ◌∷◌, map, length, total, total-set, somes, get_elem?, replicate, length-set, arith, ◌==◌,
  if◌then◌else◌, ◌⊎◌, inl, inr,
}
use cnerium.ThreadPool.{
  Worker, looping, holding, exited, Pool, init, take, worker_move, Event, submits, stops, shuts,
  moves, move, step, exec, joins,
}
use cnerium.ThreadPool.Account.{gone, Inv, in_hand, load, move-load}

gone-replicate : (F : Type 0) (n : ℕ) → total gone (replicate {A = Worker F} n looping) ≡ 0
gone-replicate F zero = refl
gone-replicate F (suc n) = omega (arith, gone-replicate F n)

module _ {F : Type 0} where
  -- The invariant holds at the start.
  pub init-Inv : (n : ℕ) → Inv (init {F = F} n)
  unfolding init
  init-Inv n = record {
    closed = λ h. cc;
    last = λ h. absurd (omega (arith, gone-replicate F (if n == 0 then 1 else n)));
  }

module _ {F : Type 0} where
  length-move :
      (p : Pool F) (i : ℕ) (o : Option (Worker F)) (q : List (Option F))
      → p.q ≡ q
      → length (move p i o).0.workers ≡ length p.workers
  unfolding move take
  length-move p i none q k = refl
  length-move p i (some looping) [] k =
      ground (arith, length-set p.workers i looping, length-set p.workers i exited)
  length-move p i (some looping) (fn ∷ rest) k = ground (arith, length-set p.workers i (holding fn))
  length-move p i (some (holding none)) q k = ground (arith, length-set p.workers i looping)
  length-move p i (some (holding (some f))) q k = ground (arith, length-set p.workers i looping)
  length-move p i (some exited) q k = ground (arith, length-set p.workers i exited)

  gone-le : (ws : List (Worker F)) → total gone ws ≤ length ws
  gone-le [] = omega arith
  gone-le (looping ∷ ws) = omega (arith, gone-le ws)
  gone-le (holding f ∷ ws) = omega (arith, gone-le ws)
  gone-le (exited ∷ ws) = omega (arith, gone-le ws)

  in_hand-gone :
      (w : F → ℕ) (ws : List (Worker F)) → total gone ws ≡ length ws → total (in_hand w) ws ≡ 0
  in_hand-gone w [] h = refl
  in_hand-gone w (looping ∷ ws) h = absurd (omega (arith, gone-le ws))
  in_hand-gone w (holding f ∷ ws) h = absurd (omega (arith, gone-le ws))
  in_hand-gone w (exited ∷ ws) h = omega (arith, in_hand-gone w ws (omega arith))

  length-step : (p : Pool F) (e : Event F) → length (step p e).0.workers ≡ length p.workers
  unfolding step move worker_move take
  length-step p (submits none) = refl
  length-step p (submits (some f)) = ground arith
  length-step p stops = refl
  length-step p shuts = ground arith
  length-step p (moves i) = length-move p i (get_elem? p.workers i) p.q refl

  pub length-exec :
      (p : Pool F) (es : List (Event F)) → length (exec p es).0.workers ≡ length p.workers
  unfolding exec
  length-exec p [] = refl
  length-exec p (e ∷ es) = length-exec (step p e).0 es ∙ length-step p e

  joins-gone : (i : ℕ) (ws : List (Worker F)) → joins none i ws ≡ true → total gone ws ≡ length ws
  unfolding joins
  joins-gone i [] h = refl
  joins-gone i (looping ∷ ws) h = cc
  joins-gone i (holding f ∷ ws) h = cc
  joins-gone i (exited ∷ ws) h = omega (arith, joins-gone (suc i) ws h)

  -- A pool whose workers have all left its loop has nothing to run.
  pub joined-load :
      (w : F → ℕ) (p : Pool F)
      → Inv p
      → 0 < length p.workers
      → joins none 0 p.workers ≡ true
      → (load w p ≡ 0) × (p.q ≡ [])
  joined-load w p v many joined =
      let all_gone = joins-gone 0 p.workers joined in
      let (_, empty) = v.last (omega arith) in
      (omega (arith, in_hand-gone w p.workers all_gone, ap (λ q. total w (somes q)) empty), empty)

  -- The moves that a stopped pool has left at most.
  abbrev pub left : Worker F → ℕ
  left looping = 1
  left (holding f) = 2
  left exited = 0

  abbrev pub measure : Pool F → ℕ
  measure p = 2 * length p.q + total left p.workers

  move-measure :
      (p : Pool F) (i : ℕ) (v : Worker F) (q : List (Option F))
      → get_elem? p.workers i ≡ some v
      → v ≢ exited
      → p.q ≡ q
      → p.stop_flag ≡ true
      → measure (move p i (some v)).0 < measure p
  unfolding move take
  move-measure p i looping [] e live k u = ground (arith, total-set left p.workers i exited e)
  move-measure p i looping (fn ∷ rest) e live k u =
      ground (arith, total-set left p.workers i (holding fn) e)
  move-measure p i (holding none) q e live k u =
      ground (arith, total-set left p.workers i looping e)
  move-measure p i (holding (some f)) q e live k u =
      ground (arith, total-set left p.workers i looping e)
  move-measure p i exited q e live k u = absurd (live refl)

  -- A worker that has not left its loop, and may move.
  abbrev pub Live : List (Worker F) → ℕ → Type 0
  Live ws i = (v : Worker F) × (get_elem? ws i ≡ some v) × (v ≢ exited)

  -- Each of the workers is live when its turn comes.
  abbrev pub AllLive : Pool F → List ℕ → Type 0
  AllLive p [] = Unit
  AllLive p (i ∷ is) = Live p.workers i × AllLive (step p (moves i)).0 is

  joins-or-Live : (i : ℕ) (ws : List (Worker F)) → (joins none i ws ≡ true) ⊎ ((k : ℕ) × Live ws k)
  unfolding joins
  joins-or-Live i [] = inl refl
  joins-or-Live i (looping ∷ ws) = inr (0, (looping, refl, λ e. cc))
  joins-or-Live i (holding f ∷ ws) = inr (0, (holding f, refl, λ e. cc))
  joins-or-Live i (exited ∷ ws) = elim (joins-or-Live (suc i) ws) [
    | inl e ↦ inl e
    | inr (k, live) ↦ inr (suc k, live)
  ]

  moves-measure :
      (p : Pool F) (is : List ℕ)
      → p.stop_flag ≡ true
      → AllLive p is
      → length is + measure (exec p (map moves is)).0 ≤ measure p
  unfolding exec step
  moves-measure p [] u live = omega arith
  moves-measure p (i ∷ is) u ((v, e, l), live) =
      let falls : measure (step p (moves i)).0 < measure p =
        rw e (move-measure p i v p.q e l refl u) in
      let u' : (step p (moves i)).0.stop_flag ≡ true =
        (move-load (λ f. 0) p i (get_elem? p.workers i) p.q refl refl).1 ∙ u in
      omega (arith, moves-measure (step p (moves i)).0 is u' live, falls)

  -- A stopped pool ends: its workers, in any order, make no more moves than `measure`, which counts
  -- two for each queued callable, two for one in hand and one for a worker at its loop; and after
  -- any such moves either the joins of `shutdown` return or some worker can move and need not wait.
  pub moves-end :
      (p : Pool F) (is : List ℕ)
      → p.stop_flag ≡ true
      → AllLive p is
      → (length is + measure (exec p (map moves is)).0 ≤ measure p)
        × ((joins none 0 (exec p (map moves is)).0.workers ≡ true)
            ⊎ ((i : ℕ) × Live (exec p (map moves is)).0.workers i))
  moves-end p is u live =
      (moves-measure p is u live, joins-or-Live 0 (exec p (map moves is)).0.workers)
