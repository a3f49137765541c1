-- ===== src/Error/Codes.antt =====
-- Codes and messages of error.hpp determine the error.
use Prim.Native.String.{String}
use text.Mathlib.Text.{◌==◌ as str_eq}
use cnerium.Prelude.{
  ℕ, ◌%◌, ◌^◌, ◌<◌, ◌≡◌, refl, sym, ap, ◌∙◌, Option, none, some, arith, if◌then◌else◌, ◌↔◌,
}
use cnerium.Error.{
  Errc, success, invalid_argument, not_ready, timeout, canceled, closed, overflow, stopped,
  queue_full, rejected, not_supported, code, of_byte, text_of, message,
}

-- The error that a message names.
read : String → Option Errc
read t =
    if str_eq t "ok"
    then some success
    else if str_eq t "invalid argument"
    then some invalid_argument
    else if str_eq t "not ready"
    then some not_ready
    else if str_eq t "timeout"
    then some timeout
    else if str_eq t "canceled"
    then some canceled
    else if str_eq t "closed"
    then some closed
    else if str_eq t "overflow"
    then some overflow
    else if str_eq t "stopped"
    then some stopped
    else if str_eq t "queue full"
    then some queue_full
    else if str_eq t "rejected"
    then some rejected
    else if str_eq t "not supported"
    then some not_supported
    else none

read-text_of : (o : Option Errc) → read (text_of o) ≡ o
unfolding read text_of
read-text_of none = refl
read-text_of (some success) = refl
read-text_of (some invalid_argument) = refl
read-text_of (some not_ready) = refl
read-text_of (some timeout) = refl
read-text_of (some canceled) = refl
read-text_of (some closed) = refl
read-text_of (some overflow) = refl
read-text_of (some stopped) = refl
read-text_of (some queue_full) = refl
read-text_of (some rejected) = refl
read-text_of (some not_supported) = refl

of_byte-code : (e : Errc) → of_byte (code e % 2 ^ 8) ≡ some e
unfolding of_byte code
of_byte-code success = refl
of_byte-code _ = refl

of_byte-wrap : (e : Errc) → of_byte (code e % 2 ^ 8) ≡ of_byte (code e)
unfolding of_byte code
of_byte-wrap success = refl
of_byte-wrap _ = refl

read_unknown : read "unknown error" ≡ none
unfolding read
read_unknown = refl

unknown_text : text_of none ≡ "unknown error"
unfolding text_of
unknown_text = refl

code-of_byte : (c : ℕ) (e : Errc) → of_byte c ≡ some e → code e ≡ c
unfolding of_byte code
code-of_byte c e h = ground arith

of_byte-none : (c : ℕ) → (of_byte c ≡ none) ↔ (10 < c)
unfolding of_byte
of_byte-none c = (λ h. ground arith, λ h. ground arith)

read-message : (c d : ℕ) → message c ≡ message d → of_byte (c % 2 ^ 8) ≡ of_byte (d % 2 ^ 8)
unfolding message
read-message c d h = sym (read-text_of _) ∙ ap read h ∙ read-text_of _

-- The message of an `int` is that of an error exactly when its low byte is the code of that error,
-- so no two errors share a message; and it is "unknown error" exactly when the low byte is above
-- the last code.
pub message_iff :
    (c : ℕ) (e : Errc)
    → ((message c ≡ message (code e)) ↔ (c % 2 ^ 8 ≡ code e))
      × ((message c ≡ "unknown error") ↔ (10 < c % 2 ^ 8))
unfolding message
message_iff c e = (
  (
    λ h. sym (code-of_byte _ e (read-message c (code e) h ∙ of_byte-code e)),
    λ h. ap text_of (ap of_byte h ∙ sym (of_byte-wrap e)),
  ),
  (
    λ h. (of_byte-none _).0 (sym (read-text_of _) ∙ ap read h ∙ read_unknown),
    λ h. ap text_of ((of_byte-none _).1 h) ∙ unknown_text,
  ),
)
