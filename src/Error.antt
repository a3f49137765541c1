-- ===== src/Error.antt =====
-- include/vix/async/core/error.hpp: the error codes of the core, their category and messages.
-- An `int` is taken by its 32-bit pattern.
pub mod Codes
pub mod Tests
use Prim.Native.String.{String}
use cnerium.Prelude.{ℕ, ◌%◌, ◌^◌, ◌≡◌, Bool, Option, none, some, ◌==◌, not, if◌then◌else◌}

pub data Errc : Type 0 where
  success invalid_argument not_ready timeout canceled closed overflow stopped queue_full rejected
        not_supported :
      Errc

-- `static_cast<int>` of the enumerator.
unfoldable pub code : Errc → ℕ
code success = 0
code invalid_argument = 1
code not_ready = 2
code timeout = 3
code canceled = 4
code closed = 5
code overflow = 6
code stopped = 7
code queue_full = 8
code rejected = 9
code not_supported = 10

-- The enumerator that a value of the underlying `uint8_t` names, if it names one.
unfoldable pub of_byte : ℕ → Option Errc
of_byte c =
    if c == 0
    then some success
    else if c == 1
    then some invalid_argument
    else if c == 2
    then some not_ready
    else if c == 3
    then some timeout
    else if c == 4
    then some canceled
    else if c == 5
    then some closed
    else if c == 6
    then some overflow
    else if c == 7
    then some stopped
    else if c == 8
    then some queue_full
    else if c == 9
    then some rejected
    else if c == 10
    then some not_supported
    else none

unfoldable pub text_of : Option Errc → String
text_of (some success) = "ok"
text_of (some invalid_argument) = "invalid argument"
text_of (some not_ready) = "not ready"
text_of (some timeout) = "timeout"
text_of (some canceled) = "canceled"
text_of (some closed) = "closed"
text_of (some overflow) = "overflow"
text_of (some stopped) = "stopped"
text_of (some queue_full) = "queue full"
text_of (some rejected) = "rejected"
text_of (some not_supported) = "not supported"
text_of none = "unknown error"

-- `error_category::message`: the cast to an enumeration over `uint8_t` keeps the low byte.
unfoldable pub message : ℕ → String
message c = text_of (of_byte (c % 2 ^ 8))

-- `std::error_category`, told apart by its address: the singleton of this library, or another.
pub data Category : Type 0 where
  async : Category
  foreign : ℕ → Category

pub record ErrorCode : Type 0 where
  pub value : ℕ
  pub category : Category

unfoldable pub make_error_code : Errc → ErrorCode
unfolding code
make_error_code e = record { value = code e; category = async }

-- `explicit operator bool` of `std::error_code`.
unfoldable pub is_error : ErrorCode → Bool
is_error e = not (e.value == 0)

-- An exception that the library's code throws or passes on: `std::system_error` with its code,
-- `std::runtime_error`, or what a user's callable threw.
pub data Exception : Type 0 where
  system_error : ErrorCode → Exception
  runtime_error : String → Exception
  user : ℕ → Exception

-- How a call ends.
pub data Outcome (R : Type 0) : Type 0 where
  returns : R → Outcome R
  throws : Exception → Outcome R
