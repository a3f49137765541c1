-- ===== src/Cancel.antt =====
-- include/vix/async/core/cancel.hpp: sources and tokens that share a cancellation flag. The
-- flags live on a heap, indexed by address; a `shared_ptr` is an address or null, and what it
-- points to outlives it.
pub mod Observe
pub mod Tests
use cnerium.Prelude.{
  ℕ, ◌≡◌, Bool, true, false, Option, none, some, List, [], ◌∷◌, ◌++◌, length, set, get_or,
}
use cnerium.Error.{ErrorCode, make_error_code, canceled}

-- `cancelled_` of each `cancel_state`.
abbrev pub Flags : Type 0
Flags = List Bool

pub record CancelToken : Type 0 where
  pub st : Option ℕ

pub record CancelSource : Type 0 where
  pub st : Option ℕ

-- `cancel_state::is_cancelled`
unfoldable pub load : Flags → ℕ → Bool
load m a = get_or m a false

-- `cancel_state::request_cancel`
unfoldable pub store : Flags → ℕ → Flags
store m a = set m a true

-- The default token, which cannot be cancelled.
unfoldable pub no_token : CancelToken
no_token = record { st = none }

unfoldable pub can_cancel : CancelToken → Bool
can_cancel t = elim t.st [ none ↦ false | some a ↦ true ]

unfoldable pub is_cancelled : Flags → CancelToken → Bool
unfolding load
is_cancelled m t = elim t.st [ none ↦ false | some a ↦ load m a ]

-- The constructor of `cancel_source`.
unfoldable pub make_source : Flags → Flags × CancelSource
make_source m = (m ++ false ∷ [], record { st = some (length m) })

unfoldable pub token : CancelSource → CancelToken
token s = record { st = s.st }

unfoldable pub request_cancel : Flags → CancelSource → Flags
unfolding store
request_cancel m s = elim s.st [ none ↦ m | some a ↦ store m a ]

unfoldable pub source_cancelled : Flags → CancelSource → Bool
unfolding load
source_cancelled m s = elim s.st [ none ↦ false | some a ↦ load m a ]

unfoldable pub cancelled_ec : ErrorCode
unfolding make_error_code
cancelled_ec = make_error_code canceled

-- What happens to the flags: a source is made, or one requests cancellation.
pub data Event : Type 0 where
  makes : Event
  requests : CancelSource → Event

unfoldable pub step : Flags → Event → Flags
unfolding make_source request_cancel
step m makes = (make_source m).0
step m (requests s) = request_cancel m s

unfoldable pub exec : Flags → List Event → Flags
exec m [] = m
exec m (e ∷ es) = exec (step m e) es
