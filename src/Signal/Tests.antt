-- ===== src/Signal/Tests.antt =====
-- Runs of the signal set of signal.cpp, and its theorems at concrete inputs.
use cnerium.Prelude.{
  ℕ, ◌+◌, ◌≡◌, refl, true, false, none, some, List, [], ◌∷◌, total, get_elem?, if◌then◌else◌,
}
use cnerium.Error.{returns, throws, system_error}
use cnerium.Cancel.{no_token, cancelled_ec, is_cancelled}
use cnerium.Scheduler.{Scheduler}
use cnerium.Scheduler
use cnerium.Signal.{
  unstarted, World, Event, stops, arrives, moves, delivers, finishes, waits_for, asks, suspends,
  step, exec, wait_result, joins, add, remove, erase, async_wait, start_if_needed, await_ready,
  await_suspend, worker_move, sigwait_returns, deliver_begin, deliver_end, await_resume,
}
use cnerium.Signal.Pending.{weight, received_in, exec-weight}
use cnerium.Signal.Waiter.{kept, replaced_in, suspended_in, exec-kept}
use cnerium.Signal.Result.{exec-no_signal}
use cnerium.Signal.Thread.Woken.{exec-woken}

abbrev idle : World ℕ
idle = record {
  set_ = record {
    signals = 2 ∷ [];
    on_signal = some 7;
    pending = [];
    started = false;
    stop_flag = false;
    waiter = 0;
    waiter_active = false;
  };
  worker = unstarted;
  delivery = none;
  sched = record { handle_q = []; fn_q = []; stop_requested = false; running = true };
  waits = [];
  handled = [];
}

-- The coroutine 9 waits for a signal, and signal 2 comes and is delivered.
abbrev asked : List (Event ℕ)
asked = waits_for no_token 9 ∷ asks 0 ∷ []

abbrev signalled : List (Event ℕ)
signalled = moves ∷ arrives 2 ∷ moves ∷ moves ∷ delivers ∷ finishes ∷ []

abbrev waiting : World ℕ
waiting = exec idle asked

abbrev one_wait : List (Event ℕ)
one_wait = suspends [] 0 ∷ signalled

abbrev watching : World ℕ
watching = exec waiting (suspends [] 0 ∷ moves ∷ [])

-- The handler gets the signal, and the coroutine is posted, but what it is resumed with is 0; the
-- signal is pending for the next await.
delivered : (exec waiting one_wait).handled ≡ (7, 2) ∷ []
unfolding exec step async_wait start_if_needed await_ready await_suspend worker_move sigwait_returns
    deliver_begin deliver_end is_cancelled no_token Scheduler.post_fn Scheduler.post_handle
    Scheduler.post
delivered = refl

posted : (exec waiting one_wait).sched.handle_q ≡ 9 ∷ []
unfolding exec step async_wait start_if_needed await_ready await_suspend worker_move sigwait_returns
    deliver_begin deliver_end is_cancelled no_token Scheduler.post_fn Scheduler.post_handle
    Scheduler.post
posted = refl

resumed_with_zero : wait_result [] (get_elem? (exec waiting one_wait).waits 0) ≡ some (returns 0)
unfolding exec step async_wait start_if_needed await_ready await_suspend worker_move sigwait_returns
    deliver_begin deliver_end is_cancelled no_token Scheduler.post_fn Scheduler.post_handle
    Scheduler.post wait_result await_resume
resumed_with_zero = refl

left_pending : (exec waiting one_wait).set_.pending ≡ 2 ∷ []
unfolding exec step async_wait start_if_needed await_ready await_suspend worker_move sigwait_returns
    deliver_begin deliver_end is_cancelled no_token Scheduler.post_fn Scheduler.post_handle
    Scheduler.post
left_pending = refl

-- Each occurrence of a removed signal goes.
removed : (remove (add (add idle.set_ 3) 2) 2).signals ≡ 3 ∷ []
unfolding remove add erase
removed = refl

exec-weight_example :
    weight (λ k. k) (exec waiting one_wait)
    ≡ weight (λ k. k) waiting + total (λ k. k) (received_in waiting one_wait)
exec-weight_example = exec-weight (λ k. k) waiting one_wait refl

exec-kept_example :
    kept (λ h. h) (exec waiting one_wait) + total (λ h. h) (replaced_in waiting one_wait)
    ≡ kept (λ h. h) waiting + total (λ h. h) (suspended_in waiting one_wait)
exec-kept_example = exec-kept (λ h. h) waiting one_wait refl

exec-no_signal_example :
    wait_result [] (get_elem? (exec waiting one_wait).waits 0)
    ≡ some (if is_cancelled [] no_token then throws (system_error cancelled_ec) else returns 0)
unfolding exec step async_wait start_if_needed await_ready
exec-no_signal_example =
    exec-no_signal [] [] waiting 0 (record { ct = no_token; handle = 9 }) signalled refl refl

-- The thread waits for signal 2 when the set is stopped; signal 3 does not wake it, signal 2 does.
abbrev stopped_watch : World ℕ
stopped_watch = exec watching (stops ∷ [])

abbrev woken_late : List (Event ℕ)
woken_late = arrives 3 ∷ moves ∷ arrives 2 ∷ delivers ∷ moves ∷ []

exec-woken_example : joins false (exec stopped_watch woken_late).worker ≡ true
unfolding exec step async_wait start_if_needed await_ready await_suspend worker_move is_cancelled
    no_token
exec-woken_example = exec-woken stopped_watch woken_late (2 ∷ []) refl refl refl
