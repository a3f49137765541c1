-- ===== src/Log/Lines.antt =====
-- What the threads that call `log` of log.hpp write together.
pub mod Kept
pub mod Whole
use Prim.Native.String.{String}
use cnerium.Prelude.{
  ℕ, zero, suc, ◌+◌, ◌≡◌, refl, sym, ◌∙◌, ap, Bool, true, false, Option, none, some, List, [], ◌∷◌,
  ◌++◌, append-nil, append_assoc, get_elem?, set, total, total-set, total-append, All, All-append,
  All-set, All-get_elem?, get_elem?-lt, get_elem?-set_self, arith, Bool-cases, Option-cases, inl,
  inr, if◌then◌else◌, ltb,
}
use cnerium.Log.{
  LogLevel, fatal, trace, debug, info, warn, error, off, Message, line, Call, entering, locking,
  writing, returned, Logger, Event, sets, logs, moves, init, get_log_level, finish, move, handle,
  step, exec, code,
}

-- The insertions that calls have left, and how many calls write.
abbrev pub left : Call → List String
left (writing m rest) = rest
left _ = []

abbrev pub unwritten : List Call → List String
unwritten [] = []
unwritten (c ∷ cs) = left c ++ unwritten cs

abbrev pub writes : Call → ℕ
writes (writing m rest) = 1
writes _ = 0

-- The text of lines, and the level of the last one.
abbrev pub texts : List (String × Message) → List String
texts [] = []
texts ((buf, m) ∷ ls) = line buf m ++ texts ls

abbrev pub last_level : List (String × Message) → Option LogLevel
last_level [] = none
last_level ((buf, m) ∷ []) = some m.lvl
last_level (_ ∷ l ∷ ls) = last_level (l ∷ ls)

pub texts-append : (xs ys : List (String × Message)) → texts (xs ++ ys) ≡ texts xs ++ texts ys
texts-append [] ys = refl
texts-append ((buf, m) ∷ xs) ys =
    ap (◌++◌ (line buf m)) (texts-append xs ys)
    ∙ sym (append_assoc (line buf m) (texts xs) (texts ys))

pub last_level-append :
    (ls : List (String × Message)) (buf : String) (m : Message)
    → last_level (ls ++ (buf, m) ∷ []) ≡ some m.lvl
last_level-append [] buf m = refl
last_level-append (x ∷ []) buf m = refl
last_level-append (x ∷ y ∷ ls) buf m = last_level-append (y ∷ ls) buf m

pub unwritten-none : (cs : List Call) → total writes cs ≡ 0 → unwritten cs ≡ []
unwritten-none [] h = refl
unwritten-none (writing m rest ∷ cs) h = absurd (omega arith)
unwritten-none (entering m ∷ cs) h = unwritten-none cs (omega arith)
unwritten-none (locking m ∷ cs) h = unwritten-none cs (omega arith)
unwritten-none (returned ∷ cs) h = unwritten-none cs (omega arith)

pub unwritten-one :
    (cs : List Call) (i : ℕ) (m : Message) (rest : List String)
    → total writes cs ≡ 1
    → get_elem? cs i ≡ some (writing m rest)
    → unwritten cs ≡ rest
unwritten-one [] i m rest h e = cc
unwritten-one (writing m' rest' ∷ cs) zero m rest h e =
    rw (unwritten-none cs (omega arith)) (append-nil rest' ∙ ground arith)
unwritten-one (entering m' ∷ cs) zero m rest h e = cc
unwritten-one (locking m' ∷ cs) zero m rest h e = cc
unwritten-one (returned ∷ cs) zero m rest h e = cc
unwritten-one (writing m' rest' ∷ cs) (suc i) m rest h e =
    absurd (omega (arith, total-set writes cs i returned e))
unwritten-one (entering m' ∷ cs) (suc i) m rest h e = unwritten-one cs i m rest (omega arith) e
unwritten-one (locking m' ∷ cs) (suc i) m rest h e = unwritten-one cs i m rest (omega arith) e
unwritten-one (returned ∷ cs) (suc i) m rest h e = unwritten-one cs i m rest (omega arith) e

-- A call that moves without writing.
pub unwritten-set :
    (cs : List Call) (i : ℕ) (old new : Call)
    → get_elem? cs i ≡ some old
    → left old ≡ left new
    → unwritten (set cs i new) ≡ unwritten cs
unwritten-set [] i old new e h = refl
unwritten-set (c ∷ cs) zero old new e h = cc
unwritten-set (c ∷ cs) (suc i) old new e h = ap (◌++◌ (left c)) (unwritten-set cs i old new e h)

pub unwritten-entering :
    (cs : List Call) (m : Message) → unwritten (cs ++ entering m ∷ []) ≡ unwritten cs
unwritten-entering [] m = refl
unwritten-entering (c ∷ cs) m = ap (◌++◌ (left c)) (unwritten-entering cs m)

-- A call that writes is writing the last line.
abbrev pub WritesLast : List (String × Message) → Call → Type 0
WritesLast ls (writing m rest) = last_level ls ≡ some m.lvl
WritesLast ls _ = Unit

pub WritesLast-none :
    (ls : List (String × Message)) (cs : List Call) → total writes cs ≡ 0 → All (WritesLast ls) cs
WritesLast-none ls [] h = tt
WritesLast-none ls (writing m rest ∷ cs) h = absurd (omega arith)
WritesLast-none ls (entering m ∷ cs) h = (tt, WritesLast-none ls cs (omega arith))
WritesLast-none ls (locking m ∷ cs) h = (tt, WritesLast-none ls cs (omega arith))
WritesLast-none ls (returned ∷ cs) h = (tt, WritesLast-none ls cs (omega arith))

-- After an abort the last line is whole and fatal.
abbrev pub EndsFatal : Bool → List (String × Message) → List Call → Type 0
EndsFatal true ls cs = (unwritten cs ≡ []) × (last_level ls ≡ some fatal)
EndsFatal false ls cs = Unit

pub step_dead : (g : Logger) (e : Event) → g.aborted ≡ true → step g e ≡ (g, [])
unfolding step
step_dead g e dead = ap (λ b. if b then (g, []) else handle g e) dead

pub step_alive : (g : Logger) (e : Event) → g.aborted ≡ false → step g e ≡ handle g e
unfolding step
step_alive g e alive = ap (λ b. if b then (g, []) else handle g e) alive
