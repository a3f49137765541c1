-- ===== src/Log/Filter.antt =====
-- Which messages log.hpp writes.
use Prim.Native.String.{String}
use cnerium.Prelude.{
  ℕ, ◌+◌, ◌≡◌, refl, sym, ◌∙◌, ap, true, false, Option, none, some, List, [], ◌∷◌, ◌++◌, get_elem?,
  total, total-append, total-set, arith, Bool-cases, inl, inr, if◌then◌else◌, ltb,
}
use mathlib.Core.Bool.{false≢true}
use cnerium.Log.Lines.{step_dead, step_alive}
use native.Mathlib.Nat.{zero-add}
use cnerium.Log.Lines.{unwritten, texts}
use cnerium.Log.Lines.Whole.{exec-texts_at}
use cnerium.Log.{
  init, set_log_level, LogLevel, fatal, trace, Message, line, Call, entering, locking, writing,
  returned, Logger, Event, sets, logs, moves, finish, move, handle, exec, code, get_log_level,
}

abbrev pub Unset : List Event → Type 0
Unset [] = Unit
Unset (sets lvl ∷ es) = ⊥
Unset (_ ∷ es) = Unset es

-- The logger with a level, before anything is logged.
abbrev pub at_level : LogLevel → Logger
at_level lvl = set_log_level init lvl

module _ (w : Message → ℕ) where
  -- The weight of a message whose level is not below `lvl`.
  abbrev pub passing : LogLevel → Message → ℕ
  passing lvl m = if ltb (code m.lvl) (code lvl) then 0 else w m

  abbrev pub line_weight : String × Message → ℕ
  line_weight (buf, m) = w m

  -- The calls that are to begin a line.
  abbrev pub to_begin : LogLevel → Call → ℕ
  to_begin lvl (entering m) = passing lvl m
  to_begin lvl (locking m) = w m
  to_begin lvl _ = 0

  abbrev pub logged : LogLevel → List Event → ℕ
  logged lvl [] = 0
  logged lvl (logs m ∷ es) = passing lvl m + logged lvl es
  logged lvl (_ ∷ es) = logged lvl es

  finish-level : (g : Logger) (i : ℕ) (lvl : LogLevel) → (finish g i lvl).level ≡ g.level
  unfolding finish
  finish-level g i fatal = refl
  finish-level g i trace = refl
  finish-level g i _ = refl

  finish-begin :
      (g : Logger) (i : ℕ) (m : Message) (lvl : LogLevel)
      → get_elem? g.calls i ≡ some (writing m [])
      → total (to_begin g.level) (finish g i lvl).calls ≡ total (to_begin g.level) g.calls
  unfolding finish
  finish-begin g i m fatal e = refl
  finish-begin g i m trace e = omega (arith, total-set (to_begin g.level) g.calls i returned e)
  finish-begin g i m _ e = omega (arith, total-set (to_begin g.level) g.calls i returned e)

  move-begin :
      (g : Logger) (i : ℕ) (buf : String) (o : Option Call)
      → get_elem? g.calls i ≡ o
      → (total line_weight (move g i buf o).1 + total (to_begin g.level) (move g i buf o).0.calls
          ≡ total (to_begin g.level) g.calls)
        × ((move g i buf o).0.level ≡ g.level)
  unfolding move get_log_level
  move-begin g i buf none e = (omega arith, refl)
  move-begin g i buf (some returned) e = (omega arith, refl)
  move-begin g i buf (some (entering m)) e = ground (
    arith,
    total-set (to_begin g.level) g.calls i returned e,
    total-set (to_begin g.level) g.calls i (locking m) e,
  )
  move-begin g i buf (some (locking m)) e =
      ground (arith, total-set (to_begin g.level) g.calls i (writing m (line buf m)) e)
  move-begin g i buf (some (writing m (s ∷ rest))) e =
      (omega (arith, total-set (to_begin g.level) g.calls i (writing m rest) e), refl)
  move-begin g i buf (some (writing m [])) e =
      (omega (arith, finish-begin g i m m.lvl e), finish-level g i m.lvl)

  handle-begin :
      (g : Logger) (e : Event) (es : List Event)
      → Unset (e ∷ es)
      → (total line_weight (handle g e).1 + total (to_begin g.level) (handle g e).0.calls
          ≡ total (to_begin g.level) g.calls + logged g.level (e ∷ []))
        × ((handle g e).0.level ≡ g.level)
  unfolding handle
  handle-begin g (sets lvl) es k = absurd k
  handle-begin g (logs m) es k =
      (omega (arith, total-append (to_begin g.level) g.calls (entering m ∷ [])), refl)
  handle-begin g (moves i buf) es k =
      let (begun, same) = move-begin g i buf (get_elem? g.calls i) refl in (omega arith, same)

  logged-cons :
      (lvl : LogLevel) (e : Event) (es : List Event)
      → logged lvl (e ∷ es) ≡ logged lvl (e ∷ []) + logged lvl es
  logged-cons lvl (logs m) es = omega arith
  logged-cons lvl (sets l) es = omega arith
  logged-cons lvl (moves i buf) es = omega arith

  Unset-tail : (e : Event) (es : List Event) → Unset (e ∷ es) → Unset es
  Unset-tail (sets lvl) es k = absurd k
  Unset-tail (logs m) es k = k
  Unset-tail (moves i buf) es k = k

  exec-nil : (g : Logger) → exec g [] ≡ (g, [])
  unfolding exec
  exec-nil g = refl

  exec-dead : (g : Logger) (es : List Event) → g.aborted ≡ true → (exec g es).0.aborted ≡ true
  unfolding exec
  exec-dead g [] dead = dead
  exec-dead g (e ∷ es) dead = rw (step_dead g e dead) (exec-dead g es dead)

  exec-step_alive :
      (g : Logger) (e : Event) (es : List Event)
      → g.aborted ≡ false
      → exec g (e ∷ es) ≡ ((exec (handle g e).0 es).0, (handle g e).1 ++ (exec (handle g e).0 es).1)
  unfolding exec
  exec-step_alive g e es alive = rw (step_alive g e alive) refl

  exec-begun :
      (g : Logger) (es : List Event)
      → Unset es
      → (exec g es).0.aborted ≡ false
      → total line_weight (exec g es).1 + total (to_begin g.level) (exec g es).0.calls
        ≡ total (to_begin g.level) g.calls + logged g.level es
  exec-begun g [] k a = rw (exec-nil g) (omega arith)
  exec-begun g (e ∷ es) k a = elim (Bool-cases g.aborted) [
    | inl dead ↦ absurd (false≢true (sym a ∙ exec-dead g (e ∷ es) dead))
    | inr alive ↦
        let (here, same) = handle-begin g e es k in
        let run = exec-step_alive g e es alive in
        let later = rw same at (
          exec-begun (handle g e).0 es (Unset-tail e es k) (sym (ap (λ p. p.0.aborted) run) ∙ a)) in
        rw run (
          omega (
            arith,
            total-append line_weight (handle g e).1 (exec (handle g e).0 es).1,
            logged-cons g.level e es,
            here,
            later,
          ))
  ]

  -- Exactly the messages whose level is not below the current one are written, each once and whole.
  -- While nobody changes the level from `lvl` and the process has not aborted, whatever threads log and
  -- however their accesses are interleaved, what has been written, with what the call that holds the
  -- lock has left, is the text of some lines, one after another; and each message that was logged at a
  -- level not below `lvl` has such a line, or its call is still to begin it, and no other message has;
  -- as counted by any weight on messages.
  pub exec-passing :
      (lvl : LogLevel) (es : List Event)
      → Unset es
      → (exec (at_level lvl) es).0.aborted ≡ false
      → let (g, ls) = exec (at_level lvl) es in
        (g.cerr ++ unwritten g.calls ≡ texts ls)
        × (total line_weight ls + total (to_begin lvl) g.calls ≡ logged lvl es)
  unfolding init set_log_level
  exec-passing lvl es k a =
      ((exec-texts_at lvl es).0, exec-begun (at_level lvl) es k a ∙ zero-add _)
