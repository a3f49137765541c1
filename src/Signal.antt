-- ===== src/Signal.antt =====
-- include/vix/async/core/signal.hpp and src/core/signal.cpp: the signals a set collects, the thread
-- that waits for them, the callback that the thread posts to the context, and the awaits of
-- `async_wait`, a locked section at a time, where the platform has signals. A signal is its number;
-- a handler is an `H`.
mod Set
pub mod Pending
pub mod Waiter
pub mod Result
pub mod Thread
pub mod Tests
use cnerium.Prelude.{
  ℕ, Bool, true, false, ◌||◌, ◌&&◌, not, Option, none, some, List, [], ◌∷◌, ◌++◌, is_empty,
  get_elem?, set, ◌==◌, if◌then◌else◌,
}
use cnerium.Error.{Outcome, returns, throws, system_error}
use cnerium.Cancel.{Flags, CancelToken, is_cancelled, cancelled_ec}
use cnerium.Scheduler.{Handle, null, Scheduler, post_fn, post_handle}
pub use Set.{SignalSet, contains}
unfoldable pub use Set.{erase, add, remove, on_signal, stop}

-- Where the thread stands in `worker_loop`.
pub data Worker : Type 0 where
  unstarted : Worker
  at_head : Worker
  -- in `sigwait`, for the signals copied under the lock
  blocked : List ℕ → Worker
  received : ℕ → Worker
  -- behind the second section, before `ctx_post`
  posting : Worker
  ended : Worker

-- The locals of the callback that the thread posts, from its first section on.
pub record Delivery (H : Type 0) : Type 0 where
  pub sig : ℕ
  pub handler : Option H
  pub waiter : Handle
  pub has_waiter : Bool

pub data Callback : Type 0 where
  deliver : Callback

-- An await of `async_wait`: its token and its coroutine, and how far it is: before `await_ready`,
-- between that and `await_suspend`, or behind them, with its `sig`.
pub record Await : Type 0 where
  pub ct : CancelToken
  pub handle : Handle

pub data Wait : Type 0 where
  asking : Await → Wait
  missed : Await → Wait
  ready : Await → ℕ → Wait
  suspended : Await → ℕ → Wait

pub record World (H : Type 0) : Type 0 where
  pub set_ : SignalSet H
  pub worker : Worker
  pub delivery : Option (Delivery H)
  pub sched : Scheduler Callback
  pub waits : List Wait
  pub handled : List (H × ℕ)

-- What happens to a set, in some order: calls, a signal or a failure that ends `sigwait`, the
-- sections of the thread, of the callback and of the awaits.
pub data Event (H : Type 0) : Type 0 where
  adds : ℕ → Event H
  removes : ℕ → Event H
  handles : Option H → Event H
  stops : Event H
  arrives : ℕ → Event H
  fails : Event H
  moves : Event H
  delivers : Event H
  finishes : Event H
  waits_for : CancelToken → Handle → Event H
  asks : ℕ → Event H
  suspends : Flags → ℕ → Event H

module _ {H : Type 0} where
  unfoldable pub start_if_needed : World H → World H
  start_if_needed w =
      if w.set_.started
      then w
      else record w { set_ = record w.set_ { started = true }; worker = at_head }

  -- `async_wait`, up to its await.
  unfoldable pub async_wait : World H → CancelToken → Handle → World H
  unfolding start_if_needed
  async_wait w ct h =
      let w' = start_if_needed w in
      record w' { waits = w'.waits ++ asking (record { ct = ct; handle = h }) ∷ [] }

  -- `await_ready`, with the queue of pending signals.
  ready_from : List ℕ → World H → ℕ → Await → World H
  ready_from [] w i a = record w { waits = set w.waits i (missed a) }
  ready_from (x ∷ xs) w i a = record w {
    set_ = record w.set_ { pending = xs };
    waits = set w.waits i (ready a x);
  }

  unfoldable pub await_ready : World H → ℕ → Option Wait → World H
  unfolding ready_from
  await_ready w i (some (asking a)) = ready_from w.set_.pending w i a
  await_ready w i _ = w

  -- `await_suspend`, where the token is not cancelled.
  suspend_from : List ℕ → World H → ℕ → Await → World H
  unfolding post_handle
  suspend_from [] w i a = record w {
    set_ = record w.set_ { waiter = a.handle; waiter_active = true };
    waits = set w.waits i (suspended a 0);
  }
  suspend_from (x ∷ xs) w i a = record w {
    set_ = record w.set_ { pending = xs };
    waits = set w.waits i (suspended a x);
    sched = post_handle w.sched a.handle;
  }

  unfoldable pub await_suspend : Flags → World H → ℕ → Option Wait → World H
  unfolding suspend_from post_handle
  await_suspend m w i (some (missed a)) =
      if is_cancelled m a.ct
      then record w { waits = set w.waits i (suspended a 0); sched = post_handle w.sched a.handle }
      else suspend_from w.set_.pending w i a
  await_suspend m w i _ = w

  -- One section of `worker_loop`. Its sleeps leave it at its head.
  unfoldable pub worker_move : World H → Worker → World H
  unfolding post_fn
  worker_move w at_head =
      if w.set_.stop_flag
      then record w { worker = ended }
      else if is_empty w.set_.signals
      then w
      else record w { worker = blocked w.set_.signals }
  worker_move w (received sig) =
      if w.set_.stop_flag then record w { worker = ended } else record w {
        set_ = record w.set_ { pending = w.set_.pending ++ sig ∷ [] };
        worker = posting;
      }
  worker_move w posting = record w { worker = at_head; sched = post_fn w.sched (some deliver) }
  worker_move w _ = w

  -- `sigwait` returns a signal of its set, or fails.
  unfoldable pub sigwait_returns : World H → ℕ → Worker → World H
  sigwait_returns w sig (blocked sigs) =
      if contains sigs sig then record w { worker = received sig } else w
  sigwait_returns w sig _ = w

  unfoldable pub sigwait_fails : World H → Worker → World H
  sigwait_fails w (blocked sigs) = record w { worker = at_head }
  sigwait_fails w _ = w

  -- The first section of the callback.
  take_signal : List ℕ → World H → World H
  take_signal [] w = w
  take_signal (x ∷ xs) w = record w {
    set_ = record w.set_ {
      pending = xs;
      waiter = if w.set_.waiter_active then null else w.set_.waiter;
      waiter_active = false;
    };
    delivery = some (record {
      sig = x;
      handler = w.set_.on_signal;
      waiter = if w.set_.waiter_active then w.set_.waiter else null;
      has_waiter = w.set_.waiter_active;
    });
  }

  unfoldable pub deliver_begin : List (Option Callback) → Option (Delivery H) → World H → World H
  unfolding take_signal
  deliver_begin (some deliver ∷ rest) none w =
      take_signal w.set_.pending (record w { sched = record w.sched { fn_q = rest } })
  deliver_begin _ _ w = w

  call_of : Option H → ℕ → List (H × ℕ)
  call_of none sig = []
  call_of (some fn) sig = (fn, sig) ∷ []

  -- The rest of the callback: the handler is called, the signal pushed back, the waiter posted.
  unfoldable pub deliver_end : Option (Delivery H) → World H → World H
  unfolding call_of post_handle
  deliver_end none w = w
  deliver_end (some d) w = record w {
    set_ = record w.set_ { pending = w.set_.pending ++ d.sig ∷ [] };
    delivery = none;
    handled = w.handled ++ call_of d.handler d.sig;
    sched =
        if d.has_waiter && not (d.waiter == null) then post_handle w.sched d.waiter else w.sched;
  }

  unfoldable pub step : World H → Event H → World H
  unfolding add remove on_signal stop async_wait await_ready await_suspend worker_move
      sigwait_returns sigwait_fails deliver_begin deliver_end
  step w (adds sig) = record w { set_ = add w.set_ sig }
  step w (removes sig) = record w { set_ = remove w.set_ sig }
  step w (handles fn) = record w { set_ = on_signal w.set_ fn }
  step w stops = record w { set_ = stop w.set_ }
  step w (arrives sig) = sigwait_returns w sig w.worker
  step w fails = sigwait_fails w w.worker
  step w moves = worker_move w w.worker
  step w delivers = deliver_begin w.sched.fn_q w.delivery w
  step w finishes = deliver_end w.delivery w
  step w (waits_for ct h) = async_wait w ct h
  step w (asks i) = await_ready w i (get_elem? w.waits i)
  step w (suspends m i) = await_suspend m w i (get_elem? w.waits i)

  unfoldable pub exec : World H → List (Event H) → World H
  exec w [] = w
  exec w (e ∷ es) = exec (step w e) es

-- `await_resume`, of an await that is ready or suspended.
unfoldable pub await_resume : Flags → CancelToken → ℕ → Outcome ℕ
await_resume m ct sig =
    if is_cancelled m ct then throws (system_error cancelled_ec) else returns sig

unfoldable pub wait_result : Flags → Option Wait → Option (Outcome ℕ)
unfolding await_resume
wait_result m (some (ready a sig)) = some (await_resume m a.ct sig)
wait_result m (some (suspended a sig)) = some (await_resume m a.ct sig)
wait_result m _ = none

-- Whether the destructor's join returns: at once if the thread was never started, or is the one that
-- runs the destructor, and is detached; else when the loop has ended.
unfoldable pub joins : Bool → Worker → Bool
joins self unstarted = true
joins self ended = true
joins self _ = self
