-- ===== src/When.antt =====
-- include/vix/async/core/when.hpp: what `when_all` and `when_any` share. A pack of tasks is a list
-- of the kinds of their result types; a value of any of these types is a `V`.
pub mod Slots
pub mod Turns
pub mod All
pub mod Any
pub mod Tests
use cnerium.Prelude.{ℕ, ◌≡◌, Bool, true, false, Option, none, some, List, [], ◌∷◌, get_elem?, set}
use cnerium.Scheduler.{Handle, Scheduler, post_handle}
use cnerium.Error.{Exception, Outcome, returns, throws}

-- Whether the result type of a task is void.
pub data Kind : Type 0 where
  valued : Kind
  nothing : Kind

-- What a slot holds, `std::optional` aside, and what the output tuple holds.
pub data Stored (V : Type 0) : Type 0 where
  value : V → Stored V
  monostate : Stored V

abbrev pub Slot : Type 0 → Type 0
Slot V = Option (Stored V)

-- Where a runner coroutine stands: it awaits its task; behind the `try` block, with the task's
-- outcome; behind its report.
pub data Runner (V : Type 0) : Type 0 where
  awaiting : Runner V
  settled : Outcome V → Runner V
  finished : Outcome V → Runner V

module _ {V : Type 0} where
  -- `store_into`, for a type that is void or not.
  unfoldable pub store_into : Kind → V → Slot V
  store_into valued v = some (value v)
  store_into nothing v = some monostate

  -- `materialize_one`: `none` where it reads a slot that is empty, which has no defined meaning.
  unfoldable pub materialize_one : Kind → Slot V → Option (Stored V)
  materialize_one valued slot = slot
  materialize_one nothing slot = some monostate

  -- `materialize_tuple`
  cons? : Option (Stored V) → Option (List (Stored V)) → Option (List (Stored V))
  cons? (some x) (some xs) = some (x ∷ xs)
  cons? _ none = none
  cons? none _ = none

  unfoldable pub materialize_tuple : List Kind → List (Slot V) → Option (List (Stored V))
  unfolding cons? materialize_one
  materialize_tuple (k ∷ ks) (s ∷ ss) = cons? (materialize_one k s) (materialize_tuple ks ss)
  materialize_tuple _ _ = some []

  -- The `try` block of a runner: the new slots, and the new exception.
  unfoldable pub settle_slots : List Kind → ℕ → Outcome V → List (Slot V) → List (Slot V)
  unfolding store_into
  settle_slots ks i (throws e) ss = ss
  settle_slots ks i (returns v) ss = elim (get_elem? ks i) [
    | none ↦ ss
    | some k ↦ set ss i (store_into k v)
  ]

  unfoldable pub capture : Option Exception → Outcome V → Option Exception
  capture (some x) o = some x
  capture none (throws e) = some e
  capture none (returns v) = none

module _ {G : Type 0} where
  -- `start_all`: each runner is posted to the scheduler, by its own handle.
  unfoldable pub start_all : List Handle → Scheduler G → Scheduler G
  unfolding post_handle
  start_all [] sched = sched
  start_all (r ∷ rs) sched = start_all rs (post_handle sched r)
