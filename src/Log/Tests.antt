-- ===== src/Log/Tests.antt =====
-- Runs of the logger of log.hpp, and its theorems at concrete inputs.
use Prim.Native.String.{String}
use cnerium.Prelude.{◌+◌, ◌≡◌, refl, true, false, List, [], ◌∷◌, ◌++◌, length, total}
use cnerium.Log.{
  LogLevel, fatal, warn, info, debug, off, Message, line, Event, sets, logs, moves, init,
  set_log_level, step, exec, code,
}
use cnerium.Log.Lines.{unwritten, texts, EndsFatal}
use cnerium.Log.Lines.Whole.{exec-texts}
use cnerium.Log.Filter.{at_level, line_weight, to_begin, exec-passing}

abbrev note : LogLevel → String → Message
note l s = record { lvl = l; msg = s }

-- Two threads log at once, and the second waits for the lock.
abbrev two_threads : List Event
two_threads =
    logs (note warn "a")
    ∷ logs (note fatal "b")
    ∷ logs (note debug "c")
    ∷ moves 0 "t0"
    ∷ moves 1 "t0"
    ∷ moves 2 "t0"
    ∷ moves 0 "t1"
    ∷ moves 0 "t1"
    ∷ moves 1 "t2"
    ∷ moves 0 "t2"
    ∷ []

first_insertions : (exec init two_threads).0.cerr ≡ "[" ∷ "t1" ∷ []
unfolding exec step init line code
first_insertions = refl

exec-texts_example :
    ((exec init two_threads).0.cerr ++ unwritten (exec init two_threads).0.calls
      ≡ texts (exec init two_threads).1)
    × EndsFatal
        (exec init two_threads).0.aborted
        (exec init two_threads).1
        (exec init two_threads).0.calls
exec-texts_example = exec-texts two_threads

-- A fatal message aborts, unless the level is off.
abbrev whole_call : List Event
whole_call =
    logs (note fatal "x")
    ∷ moves 0 "t"
    ∷ moves 0 "t"
    ∷ moves 0 "t"
    ∷ moves 0 "t"
    ∷ moves 0 "t"
    ∷ moves 0 "t"
    ∷ moves 0 "t"
    ∷ moves 0 "t"
    ∷ moves 0 "t"
    ∷ moves 0 "t"
    ∷ moves 0 "t"
    ∷ []

fatal_aborts : (exec init whole_call).0.aborted ≡ true
unfolding exec step init line code
fatal_aborts = refl

fatal_ignored : (exec init (sets off ∷ whole_call)).0.aborted ≡ false
unfolding exec step init line code
fatal_ignored = refl

exec-passing_example :
    let (g, ls) = exec (at_level info) two_threads in
    (g.cerr ++ unwritten g.calls ≡ texts ls)
    × (total (line_weight (λ m. 1)) ls + total (to_begin (λ m. 1) info) g.calls ≡ 2)
unfolding exec step init line code set_log_level
exec-passing_example = exec-passing (λ m. 1) info two_threads tt refl

-- A message of the level off is written where the level is off.
off_passes :
    length (exec init (sets off ∷ logs (note off "x") ∷ moves 0 "t" ∷ moves 0 "t" ∷ [])).1 ≡ 1
unfolding exec step init code
off_passes = refl
