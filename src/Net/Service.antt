-- ===== src/Net/Service.antt =====
-- src/net/asio_net_service.hpp and src/net/asio_net_service.cpp: the thread that runs the event loop of
-- Asio, kept alive by a work guard. Whether `run` may return is a parameter: by whether the context
-- is stopped, whether the guard is there, and how many operations are outstanding; that a handler lets
-- an exception out of `run` is an event.
pub mod Joined
use mathlib.Core.Path.{subst}
use cnerium.Prelude.{
  ℕ, suc, ◌-◌, ◌≡◌, refl, sym, ap, ◌∙◌, Bool, true, false, List, [], ◌∷◌, ◌||◌, not, if◌then◌else◌,
}

-- The thread in `ioc_.run()`, or behind it; `absent` once it is joined or detached.
pub data NetThread : Type 0 where
  running returned absent : NetThread

pub record NetService : Type 0 where
  pub guard : Bool
  pub ioc_stopped : Bool
  pub outstanding : ℕ
  pub net_thread : NetThread
  pub stopped : Bool

-- The constructor makes the guard and starts the thread.
unfoldable pub init : NetService
init = record {
  guard = true;
  ioc_stopped = false;
  outstanding = 0;
  net_thread = running;
  stopped = false;
}

unfoldable pub stop : NetService → NetService
stop s = if s.stopped then s else record s { stopped = true; guard = false; ioc_stopped = true }

-- Whether `join` returns, called on the thread itself or not; where it does, the thread is gone.
unfoldable pub join_returns : Bool → NetThread → Bool
join_returns self absent = true
join_returns self returned = true
join_returns self running = self

-- What happens to a service: operations are started and end, the thread moves, an exception leaves
-- `run`, it is stopped.
pub data Event : Type 0 where
  starts : Event
  ends : Event
  moves : Event
  throws : Event
  stops : Event

-- The `catch` of the thread, which ends it and leaves the service as it is.
unfoldable pub thread_catch : NetService → NetThread → NetService
thread_catch s running = record s { net_thread = returned }
thread_catch s _ = s

module _ (run_returns : Bool → Bool → ℕ → Bool) where
  unfoldable pub thread_move : NetService → NetThread → NetService
  thread_move s running =
      if run_returns s.ioc_stopped s.guard s.outstanding
      then record s { net_thread = returned }
      else s
  thread_move s _ = s

  unfoldable pub step : NetService → Event → NetService
  unfolding stop thread_move thread_catch
  step s starts = record s { outstanding = suc s.outstanding }
  step s ends = record s { outstanding = s.outstanding - 1 }
  step s moves = thread_move s s.net_thread
  step s throws = thread_catch s s.net_thread
  step s stops = stop s

  unfoldable pub exec : NetService → List Event → NetService
  exec s [] = s
  exec s (e ∷ es) = exec (step s e) es
