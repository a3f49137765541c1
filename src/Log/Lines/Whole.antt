-- ===== src/Log/Lines/Whole.antt =====
-- What the threads that call `log` of log.hpp write together.
use Prim.Native.String.{String}
use cnerium.Prelude.{
  ◌≡◌, refl, ◌∙◌, ap, false, List, [], ◌∷◌, ◌++◌, append-nil, append_assoc, get_elem?, total-append,
  All-append, arith, Bool-cases, inl, inr,
}
use cnerium.Log.{
  LogLevel, info, set_log_level, Message, entering, Logger, Event, sets, logs, moves, init, handle,
  step, exec,
}
use cnerium.Log.Lines.{
  unwritten, writes, texts, unwritten-entering, WritesLast, EndsFatal, step_dead, step_alive,
}
use cnerium.Log.Lines.Kept.{Inv, move-Inv}

append-Inv :
    (g : Logger) (ls : List (String × Message)) (m : Message)
    → Inv g ls
    → g.aborted ≡ false
    → Inv (record g { calls = g.calls ++ entering m ∷ [] }) ls
append-Inv g ls m v alive = record {
  whole = ap (◌++◌ g.cerr) (unwritten-entering g.calls m) ∙ v.whole;
  one = omega (arith, total-append writes g.calls (entering m ∷ []), v.one);
  last = All-append (WritesLast ls) g.calls (entering m ∷ []) v.last (tt, tt);
  ends = rw alive tt;
}

handle-Inv :
    (g : Logger) (ls : List (String × Message)) (e : Event)
    → Inv g ls
    → g.aborted ≡ false
    → Inv (handle g e).0 (ls ++ (handle g e).1)
unfolding handle
handle-Inv g ls (sets lvl) v alive =
    rw (append-nil ls) (record { whole = v.whole; one = v.one; last = v.last; ends = v.ends })
handle-Inv g ls (logs m) v alive = rw (append-nil ls) (append-Inv g ls m v alive)
handle-Inv g ls (moves i buf) v alive = move-Inv g ls i buf (get_elem? g.calls i) v alive refl

step-Inv :
    (g : Logger) (ls : List (String × Message)) (e : Event)
    → Inv g ls
    → Inv (step g e).0 (ls ++ (step g e).1)
step-Inv g ls e v = elim (Bool-cases g.aborted) [
  | inl dead ↦ rw (step_dead g e dead) (rw (append-nil ls) v)
  | inr alive ↦ rw (step_alive g e alive) (handle-Inv g ls e v alive)
]

exec-Inv :
    (g : Logger) (ls : List (String × Message)) (es : List Event)
    → Inv g ls
    → Inv (exec g es).0 (ls ++ (exec g es).1)
unfolding exec
exec-Inv g ls [] v = rw (append-nil ls) v
exec-Inv g ls (e ∷ es) v =
    rw (← append_assoc ls (step g e).1 (exec (step g e).0 es).1)
      (exec-Inv (step g e).0 (ls ++ (step g e).1) es (step-Inv g ls e v))

-- As `exec-texts` below, from any level.
pub exec-texts_at :
    (lvl : LogLevel) (es : List Event)
    → let p = exec (set_log_level init lvl) es in
      (p.0.cerr ++ unwritten p.0.calls ≡ texts p.1) × EndsFatal p.0.aborted p.1 p.0.calls
unfolding init set_log_level
exec-texts_at lvl es =
    let v =
      exec-Inv (set_log_level init lvl) [] es
        (record { whole = refl; one = refl; last = tt; ends = tt }) in
    (v.whole, v.ends)

-- Lines are written whole and one after another: whatever threads log, however their accesses are
-- interleaved and whenever the level is set, what has been written, with what the call that holds the
-- lock has left, is the text of the lines in the order in which the calls took the lock. If the
-- process has aborted, nothing is left, and the last line is fatal.
pub exec-texts :
    (es : List Event)
    → let p = exec init es in
      (p.0.cerr ++ unwritten p.0.calls ≡ texts p.1) × EndsFatal p.0.aborted p.1 p.0.calls
unfolding init set_log_level
exec-texts es = exec-texts_at info es
