-- ===== src/Error/Tests.antt =====
-- Codes and messages of error.hpp at concrete values.
use cnerium.Prelude.{◌≡◌, refl, true, ◌↔◌, ◌%◌, ◌^◌, ◌<◌}
use cnerium.Error.{canceled, code, message, of_byte, text_of, is_error, make_error_code}
use cnerium.Error.Codes.{message_iff}

canceled_message : message 4 ≡ "canceled"
unfolding message of_byte text_of
canceled_message = refl

-- The cast keeps the low byte only: 260 reads as `canceled`.
wrapped_message : message 260 ≡ "canceled"
unfolding message of_byte text_of
wrapped_message = refl

canceled_is_error : is_error (make_error_code canceled) ≡ true
unfolding is_error make_error_code
canceled_is_error = refl

message_iff_example :
    ((message 260 ≡ message (code canceled)) ↔ (260 % 2 ^ 8 ≡ code canceled))
    × ((message 260 ≡ "unknown error") ↔ (10 < 260 % 2 ^ 8))
message_iff_example = message_iff 260 canceled
