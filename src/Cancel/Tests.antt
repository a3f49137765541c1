-- ===== src/Cancel/Tests.antt =====
-- Sources and tokens of cancel.hpp at concrete inputs.
use cnerium.Prelude.{◌≡◌, refl, true, false, some, [], ◌∷◌, arith}
use cnerium.Cancel.{
  CancelSource, makes, requests, exec, step, is_cancelled, source_cancelled, token, no_token,
  make_source,
}
use cnerium.Cancel.Observe.{exec-is_cancelled}

abbrev first : CancelSource
first = record { st = some 0 }

abbrev second : CancelSource
second = record { st = some 1 }

-- cancel_smoke_test: the token follows its source.
token_follows :
    (is_cancelled (exec [] (makes ∷ [])) (token first) ≡ false)
    × (is_cancelled (exec [] (makes ∷ requests first ∷ [])) (token first) ≡ true)
unfolding exec step is_cancelled token
token_follows = (refl, refl)

exec-is_cancelled_example :
    (is_cancelled (exec (false ∷ false ∷ []) (makes ∷ requests second ∷ [])) (token first) ≡ false)
    × (source_cancelled (exec (false ∷ false ∷ []) (makes ∷ requests second ∷ [])) first
        ≡ is_cancelled (exec (false ∷ false ∷ []) (makes ∷ requests second ∷ [])) (token first))
    × (is_cancelled
          (exec (make_source (false ∷ false ∷ [])).0 (makes ∷ requests second ∷ []))
          (token (make_source (false ∷ false ∷ [])).1)
        ≡ false)
    × (is_cancelled (exec (false ∷ false ∷ []) (makes ∷ requests second ∷ [])) no_token ≡ false)
unfolding is_cancelled token
exec-is_cancelled_example =
    exec-is_cancelled (false ∷ false ∷ []) (makes ∷ requests second ∷ []) first 0 refl (omega arith)
