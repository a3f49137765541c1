-- ===== src/Timer/Sorted.antt =====
-- A stable sort by deadline, and how `insert` of timer.cpp makes one.
pub mod Run
use mathlib.Core.Path.{subst}
use cnerium.Prelude.{
  replicate, ◌*◌, ℕ, suc, ◌+◌, ◌^◌, ◌≤◌, ◌<◌, ◌≡◌, refl, sym, ap, ◌∙◌, true, false, Option, none,
  some, List, [], ◌∷◌, ◌++◌, map, length, append-nil, append_assoc, All, All-mono, arith,
  Bool-cases, Option-cases, inl, inr, ltb, leb, if◌then◌else◌, somes,
}
use cnerium.Cancel.{Flags, CancelToken, is_cancelled}
use cnerium.Timer.{
  Entry, Timer, Loop, at_head, Fate, fires, cancels, clears, World, Event, schedules, moves, insert,
  cmp, schedule, fire_move, init, step, exec,
}
use cnerium.Timer.Fifo.{Numbered}
use cnerium.Timer.Fifo.Queue.{All-insert}
use cnerium.Timer.Fifo.Line.{step_schedules}
use cnerium.Timer.Order.{fates_of, turns_for, exec-due, turns_for-replicate}

-- What is asked of a timer, and an entry without its number.
pub record Request (J : Type 0) : Type 0 where
  pub when : ℕ
  pub ct : CancelToken
  pub j : Option J

module _ {J : Type 0} where
  -- A stable insertion sort: a request goes before those that come after it and are not earlier.
  pub place : Request J → List (Request J) → List (Request J)
  place x [] = x ∷ []
  place x (y ∷ ys) = if leb x.when y.when then x ∷ y ∷ ys else y ∷ place x ys

  unfoldable pub stable_sort : List (Request J) → List (Request J)
  unfolding place
  stable_sort [] = []
  stable_sort (x ∷ xs) = place x (stable_sort xs)

  -- The insertion of the timer, without the numbers.
  pub behind : Request J → List (Request J) → List (Request J)
  behind y [] = y ∷ []
  behind y (x ∷ xs) = if ltb y.when x.when then y ∷ x ∷ xs else x ∷ behind y xs

  pub sort-nil : ◌≡◌ {A = List (Request J)} [] (stable_sort [])
  unfolding stable_sort
  sort-nil = refl

  pub behind-place :
      (x y : Request J) (s : List (Request J)) → behind y (place x s) ≡ place x (behind y s)
  unfolding behind place
  behind-place x y [] = ground arith
  behind-place x y (z ∷ s) = ground (arith, behind-place x y s)

  pub sort-append :
      (xs : List (Request J)) (y : Request J)
      → stable_sort (xs ++ y ∷ []) ≡ behind y (stable_sort xs)
  unfolding stable_sort behind
  sort-append [] y = refl
  sort-append (x ∷ xs) y = ap (place x) (sort-append xs y) ∙ sym (behind-place x y (stable_sort xs))

  abbrev pub forget : Entry J → Request J
  forget e = record { when = e.when; ct = e.ct; j = e.j }

  pub forget-insert :
      (e : Entry J) (q : List (Entry J))
      → All (λ y. y.id < e.id) q
      → map forget (insert e q) ≡ behind (forget e) (map forget q)
  unfolding insert behind cmp
  forget-insert e [] a = refl
  forget-insert e (x ∷ q) a = ground (arith, forget-insert e q a.1)

  pub All-place {κ} :
      (P : Request J → Type κ) (x : Request J) (s : List (Request J))
      → P x
      → All P s
      → All P (place x s)
  unfolding place
  All-place P x [] h a = (h, tt)
  All-place P x (y ∷ s) h a = ground (arith, All-place P x s h a.1)

  pub All-sort {κ} :
      (P : Request J → Type κ) (xs : List (Request J)) → All P xs → All P (stable_sort xs)
  unfolding stable_sort
  All-sort P [] a = tt
  All-sort P (x ∷ xs) a = All-place P x (stable_sort xs) a.0 (All-sort P xs a.1)

  pub length-place : (x : Request J) (s : List (Request J)) → length (place x s) ≡ suc (length s)
  unfolding place
  length-place x [] = refl
  length-place x (y ∷ s) = ground (arith, length-place x s)

  pub length-sort : (rs : List (Request J)) → length (stable_sort rs) ≡ length rs
  unfolding stable_sort
  length-sort [] = refl
  length-sort (x ∷ rs) = length-place x (stable_sort rs) ∙ ap suc (length-sort rs)
