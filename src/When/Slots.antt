-- ===== src/When/Slots.antt =====
-- How the result slots of when.hpp follow the runners.
use cnerium.Prelude.{
  ℕ, zero, suc, ◌≡◌, refl, ap, Option, none, some, List, [], ◌∷◌, ◌++◌, length, get_elem?, set,
  replicate, total, arith,
}
use cnerium.Error.{Exception, Outcome, returns, throws}
use cnerium.When.{
  Kind, valued, nothing, Stored, value, monostate, Slot, Runner, awaiting, settled, finished,
  store_into, materialize_one, materialize_tuple, settle_slots, capture,
}

module _ {V : Type 0} where
  -- The slot of a runner: it holds the value of a task that has returned.
  abbrev pub content : Kind → Runner V → Slot V
  content k (settled (returns v)) = store_into k v
  content k (finished (returns v)) = store_into k v
  content k _ = none

  abbrev pub contents : List Kind → List (Runner V) → List (Slot V)
  contents (k ∷ ks) (r ∷ rs) = content k r ∷ contents ks rs
  contents _ _ = []

  pub contents-settle :
      (ks : List Kind) (rs : List (Runner V)) (i : ℕ) (o : Outcome V)
      → length ks ≡ length rs
      → get_elem? rs i ≡ some awaiting
      → settle_slots ks i o (contents ks rs) ≡ contents ks (set rs i (settled o))
  unfolding settle_slots
  contents-settle [] [] i o h e = cc
  contents-settle [] (r ∷ rs) i o h e = absurd (omega arith)
  contents-settle (k ∷ ks) [] i o h e = cc
  contents-settle (k ∷ ks) (r ∷ rs) zero (returns v) h e = refl
  contents-settle (k ∷ ks) (r ∷ rs) zero (throws x) h e = ground arith
  contents-settle (k ∷ ks) (r ∷ rs) (suc i) (returns v) h e =
      ground (arith, contents-settle ks rs i (returns v))
  contents-settle (k ∷ ks) (r ∷ rs) (suc i) (throws x) h e =
      ap (◌∷◌ (content k r)) (contents-settle ks rs i (throws x) (omega arith) e)

  pub contents-finish :
      (ks : List Kind) (rs : List (Runner V)) (i : ℕ) (o : Outcome V)
      → get_elem? rs i ≡ some (settled o)
      → contents ks (set rs i (finished o)) ≡ contents ks rs
  contents-finish ks [] i o e = refl
  contents-finish [] (r ∷ rs) zero o e = refl
  contents-finish [] (r ∷ rs) (suc i) o e = refl
  contents-finish (k ∷ ks) (r ∷ rs) zero (returns v) e = ground arith
  contents-finish (k ∷ ks) (r ∷ rs) zero (throws x) e = ground arith
  contents-finish (k ∷ ks) (r ∷ rs) (suc i) o e =
      ap (◌∷◌ (content k r)) (contents-finish ks rs i o e)

  pub contents-replicate :
      (ks : List Kind) → contents ks (replicate (length ks) awaiting) ≡ replicate (length ks) none
  contents-replicate [] = refl
  contents-replicate (k ∷ ks) = ap (◌∷◌ none) (contents-replicate ks)

  -- The tasks that have thrown.
  abbrev pub failing : Runner V → ℕ
  failing (settled (throws e)) = 1
  failing (finished (throws e)) = 1
  failing _ = 0

  -- The runners that have not settled, and those that have not reported.
  abbrev pub waiting : Runner V → ℕ
  waiting awaiting = 1
  waiting _ = 0

  abbrev pub unreported : Runner V → ℕ
  unreported (finished o) = 0
  unreported _ = 1

  -- The output tuple: the values of the tasks, in the order of the arguments.
  abbrev pub output : Kind → Runner V → Stored V
  output valued (settled (returns v)) = value v
  output valued (finished (returns v)) = value v
  output _ _ = monostate

  abbrev pub outputs : List Kind → List (Runner V) → List (Stored V)
  outputs (k ∷ ks) (r ∷ rs) = output k r ∷ outputs ks rs
  outputs _ _ = []

  materialize-content :
      (k : Kind) (r : Runner V)
      → waiting r ≡ 0
      → failing r ≡ 0
      → materialize_one k (content k r) ≡ some (output k r)
  unfolding materialize_one store_into
  materialize-content k awaiting w f = absurd (omega arith)
  materialize-content valued (settled (returns v)) w f = refl
  materialize-content nothing (settled (returns v)) w f = refl
  materialize-content k (settled (throws e)) w f = absurd (omega arith)
  materialize-content valued (finished (returns v)) w f = refl
  materialize-content nothing (finished (returns v)) w f = refl
  materialize-content k (finished (throws e)) w f = absurd (omega arith)

  -- Where every task has returned, the output tuple holds every value.
  pub materialize-contents :
      (ks : List Kind) (rs : List (Runner V))
      → total waiting rs ≡ 0
      → total failing rs ≡ 0
      → materialize_tuple ks (contents ks rs) ≡ some (outputs ks rs)
  unfolding materialize_tuple
  materialize-contents [] rs w f = refl
  materialize-contents (k ∷ ks) [] w f = refl
  materialize-contents (k ∷ ks) (r ∷ rs) w f = rw (
    materialize-content k r (omega arith) (omega arith),
    materialize-contents ks rs (omega arith) (omega arith),
  )

-- The exceptions that tasks throw, in the order in which they complete.
abbrev pub thrown : {V : Type 0} → Option (Runner V) → Outcome V → List Exception
thrown (some awaiting) (throws e) = e ∷ []
thrown _ (throws e) = []
thrown _ (returns v) = []

abbrev pub first_of : Option Exception → List Exception → Option Exception
first_of (some x) es = some x
first_of none [] = none
first_of none (x ∷ es) = some x

pub first_of-capture :
    {V : Type 0} (x : Option Exception) (o : Outcome V) (fs : List Exception)
    → first_of (capture x o) fs ≡ first_of x (thrown (some awaiting) o ++ fs)
unfolding capture
first_of-capture (some x) o fs = refl
first_of-capture none (throws e) fs = refl
first_of-capture none (returns v) fs = refl

pub first_of-nil : (x : Option Exception) → first_of x [] ≡ x
first_of-nil none = refl
first_of-nil (some x) = refl
