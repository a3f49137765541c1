-- ===== src/Cancel/Observe.antt =====
-- What a token of cancel.hpp sees of the requests made through its source.
use cnerium.Prelude.{
  ℕ, zero, suc, ◌<◌, ◌≤◌, ◌≡◌, refl, sym, ap, ◌∙◌, Bool, true, false, ◌||◌, Option, none, some,
  List, [], ◌∷◌, ◌++◌, length, length-append, length-set, set, get_or, arith, ◌==◌,
}
use cnerium.Cancel.{
  Flags, CancelSource, is_cancelled, make_source, token, request_cancel, Event, makes, requests,
  step, exec, source_cancelled, no_token,
}

-- Whether one of the events requests cancellation of the flag at an address.
abbrev pub same : Option ℕ → ℕ → Bool
same none a = false
same (some b) a = b == a

abbrev pub requested : List Event → ℕ → Bool
requested [] a = false
requested (makes ∷ es) a = requested es a
requested (requests s ∷ es) a = same s.st a || requested es a

get_or-append :
    (m : Flags) (a : ℕ) (v d : Bool) → a < length m → get_or (m ++ v ∷ []) a d ≡ get_or m a d
get_or-append [] a v d h = elim h [ ]
get_or-append (x ∷ m) zero v d h = refl
get_or-append (x ∷ m) (suc a) v d h = get_or-append m a v d (omega arith)

get_or-set :
    (m : Flags) (b a : ℕ)
    → a < length m
    → get_or (set m b true) a false ≡ (b == a || get_or m a false)
get_or-set [] b a h = elim h [ ]
get_or-set (x ∷ m) zero zero h = refl
get_or-set (x ∷ m) zero (suc a) h = ground arith
get_or-set (x ∷ m) (suc b) zero h = ground arith
get_or-set (x ∷ m) (suc b) (suc a) h = ground (arith, get_or-set m b a)

or-false : (b : Bool) → (b || false) ≡ b
or-false true = refl
or-false false = refl

length-request :
    (m : Flags) (o : Option ℕ) → length m ≤ length (request_cancel m (record { st = o }))
unfolding request_cancel
length-request m none = omega arith
length-request m (some b) = omega (arith, length-set m b true)

load-request :
    (m : Flags) (o : Option ℕ) (a : ℕ)
    → a < length m
    → get_or (request_cancel m (record { st = o })) a false ≡ (same o a || get_or m a false)
unfolding request_cancel
load-request m none a h = refl
load-request m (some b) a h = get_or-set m b a h

length-step : (m : Flags) (e : Event) → length m ≤ length (step m e)
unfolding step
length-step m makes = omega (arith, length-append m (false ∷ []))
length-step m (requests s) = length-request m s.st

load-step :
    (m : Flags) (e : Event) (a : ℕ)
    → a < length m
    → get_or (step m e) a false ≡ (requested (e ∷ []) a || get_or m a false)
unfolding step
load-step m makes a h = get_or-append m a false false h
load-step m (requests s) a h =
    load-request m s.st a h ∙ ap (λ b. b || get_or m a false) (sym (or-false (same s.st a)))

load-exec :
    (m : Flags) (es : List Event) (a : ℕ)
    → a < length m
    → get_or (exec m es) a false ≡ (requested es a || get_or m a false)
unfolding exec
load-exec m [] a h = refl
load-exec m (e ∷ es) a h =
    ground (arith, load-exec (step m e) es a, load-step m e a h, length-step m e)

load-new : (m : Flags) → get_or (m ++ false ∷ []) (length m) false ≡ false
load-new [] = refl
load-new (x ∷ m) = load-new m

-- A token sees the requests made through its own source and no others: whatever sources are made
-- and cancelled, in any order, a live source and its token are cancelled exactly when they were so
-- before or one of the events requests it of that source, and the token of a new source exactly
-- when one of the later events requests it; a default token never is.
pub exec-is_cancelled :
    (m : Flags) (es : List Event) (s : CancelSource) (a : ℕ)
    → s.st ≡ some a
    → a < length m
    → (is_cancelled (exec m es) (token s) ≡ (requested es a || is_cancelled m (token s)))
      × (source_cancelled (exec m es) s ≡ is_cancelled (exec m es) (token s))
      × (is_cancelled (exec (make_source m).0 es) (token (make_source m).1)
          ≡ requested es (length m))
      × (is_cancelled (exec m es) no_token ≡ false)
unfolding is_cancelled token source_cancelled make_source no_token
exec-is_cancelled m es s a e h = (
  rw (e, is_cancelled) (load-exec m es a h),
  rw (e, is_cancelled, source_cancelled) refl,
  load-exec (m ++ false ∷ []) es (length m) (omega (arith, length-append m (false ∷ [])))
      ∙ ap (λ b. requested es (length m) || b) (load-new m)
      ∙ or-false _,
  refl,
)
