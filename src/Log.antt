-- ===== src/Log.antt =====
-- include/vix/async/detail/log.hpp: the level, and the calls of `log` by any number of threads, one
-- shared access at a time. A message is a text; the time of a line is the local time of the system.
pub mod Lines
pub mod Filter
pub mod Tests
use Prim.Native.String.{String}
use cnerium.Prelude.{
  ℕ, Bool, true, false, Option, none, some, List, [], ◌∷◌, ◌++◌, get_elem?, set, ltb, if◌then◌else◌,
}

pub data LogLevel : Type 0 where
  trace debug info warn error fatal off : LogLevel

-- The value of the enumerator.
unfoldable pub code : LogLevel → ℕ
code trace = 0
code debug = 1
code info = 2
code warn = 3
code error = 4
code fatal = 5
code off = 6

unfoldable pub to_string : LogLevel → String
to_string trace = "Trace"
to_string debug = "Debug"
to_string info = "Info"
to_string warn = "Warn"
to_string error = "Error"
to_string fatal = "Fatal"
to_string off = "Of"

-- What a thread logs.
pub record Message : Type 0 where
  pub lvl : LogLevel
  pub msg : String

-- The insertions into `std::cerr`, with the text of the time in `buf`.
unfoldable pub line : String → Message → List String
unfolding to_string
line buf m = "[" ∷ buf ∷ "] " ∷ "[" ∷ to_string m.lvl ∷ "] " ∷ m.msg ∷ "\n" ∷ []

-- Where a call of `log` stands.
pub data Call : Type 0 where
  -- before the comparison with the level
  entering : Message → Call
  -- before or in the lock
  locking : Message → Call
  -- under the lock, with the insertions that are left
  writing : Message → List String → Call
  returned : Call

pub record Logger : Type 0 where
  pub level : LogLevel
  pub locked : Bool
  pub cerr : List String
  pub aborted : Bool
  pub calls : List Call

-- What happens, in some order: the level is set, a thread calls `log`, or the `i`-th call moves on, at
-- a time that is read where it takes the lock.
pub data Event : Type 0 where
  sets : LogLevel → Event
  logs : Message → Event
  moves : ℕ → String → Event

unfoldable pub init : Logger
init = record { level = info; locked = false; cerr = []; aborted = false; calls = [] }

unfoldable pub set_log_level : Logger → LogLevel → Logger
set_log_level g lvl = record g { level = lvl }

unfoldable pub get_log_level : Logger → LogLevel
get_log_level g = g.level

-- The end of the call, under the lock: `abort`, or the release of the lock.
unfoldable pub finish : Logger → ℕ → LogLevel → Logger
finish g i fatal = record g { aborted = true }
finish g i _ = record g { locked = false; calls = set g.calls i returned }

-- One access of a call of `log`, and the line that it begins to write.
unfoldable pub move : Logger → ℕ → String → Option Call → Logger × List (String × Message)
unfolding code get_log_level line finish
move g i buf (some (entering m)) =
    if ltb (code m.lvl) (code (get_log_level g))
    then (record g { calls = set g.calls i returned }, [])
    else (record g { calls = set g.calls i (locking m) }, [])
move g i buf (some (locking m)) =
    if g.locked
    then (g, [])
    else (record g { locked = true; calls = set g.calls i (writing m (line buf m)) }, (buf, m) ∷ [])
move g i buf (some (writing m (s ∷ rest))) =
    (record g { cerr = g.cerr ++ s ∷ []; calls = set g.calls i (writing m rest) }, [])
move g i buf (some (writing m [])) = (finish g i m.lvl, [])
move g i buf _ = (g, [])

unfoldable pub handle : Logger → Event → Logger × List (String × Message)
unfolding set_log_level move
handle g (sets lvl) = (set_log_level g lvl, [])
handle g (logs m) = (record g { calls = g.calls ++ entering m ∷ [] }, [])
handle g (moves i buf) = move g i buf (get_elem? g.calls i)

-- Nothing happens to a process that has aborted.
unfoldable pub step : Logger → Event → Logger × List (String × Message)
unfolding handle
step g e = if g.aborted then (g, []) else handle g e

-- The state, and the lines that calls have begun, in order.
unfoldable pub exec : Logger → List Event → Logger × List (String × Message)
exec g [] = (g, [])
exec g (e ∷ es) = let (g1, here) = step g e in let (g2, later) = exec g1 es in (g2, here ++ later)
