-- ===== src/Sleep/Tests.antt =====
-- Runs of a timer with its scheduler, and the theorems on sleeps at concrete inputs.
use cnerium.Prelude.{
  ℕ, ◌+◌, ◌≡◌, refl, true, false, some, List, [], ◌∷◌, ◌++◌, All, arith, total, replicate,
  if◌then◌else◌, ◌==◌,
}
use cnerium.Cancel.{Flags, CancelToken, is_cancelled}
use cnerium.Scheduler.{Handle, Scheduler}
use cnerium.Timer
use cnerium.Timer.{Entry, at_head}
use cnerium.Sleep.{
  Callable, System, Event, sleeps, stops_timer, passes, moves, posts, turns, Resumption, step, exec,
}
use cnerium.Sleep.Early.{InTime}
use cnerium.Sleep.Early.Resumed.{exec-InTime}
use cnerium.Sleep.Account.{resumed_weight, waiting, lost}
use cnerium.Sleep.Account.Conserved.{exec-accounted}
use cnerium.Sleep.Wakeup.{exec-wakes}

abbrev kept : Flags
kept = false ∷ []

abbrev tok : CancelToken
tok = record { st = some 0 }

abbrev running : Scheduler (Callable ℕ)
running = record { handle_q = []; fn_q = []; stop_requested = false; running = true }

abbrev fresh : System ℕ
fresh = record {
  clocked = record {
    timer = record { q = []; seq = 0; stop_flag = false };
    loop = at_head;
    now = 0;
  };
  sched = running;
}

-- Coroutine 7 sleeps for 5, coroutine 8 for 3, and coroutine 9 is posted at once.
abbrev two_sleeps : List (Event ℕ)
two_sleeps =
    sleeps 5 7 tok ∷ sleeps 3 8 tok ∷ posts 9 ∷ turns ∷ passes 6 ∷ replicate 8 (moves kept)
    ++ replicate 4 turns

abbrev at_time : ℕ → Handle → Resumption
at_time t h = record { at = t; handle = h }

two_sleeps_run : (exec fresh two_sleeps).1 ≡ at_time 0 9 ∷ at_time 6 8 ∷ at_time 6 7 ∷ []
unfolding exec step is_cancelled Timer.insert Timer.cmp
two_sleeps_run = refl

-- A sleep of no length does not suspend, and one on a stopped timer is never over.
stopped_sleep :
    (exec fresh
      (sleeps 0 7 tok ∷ stops_timer ∷ sleeps 3 8 tok ∷ passes 6 ∷ moves kept ∷ turns ∷ [])).1
    ≡ []
unfolding exec step
stopped_sleep = refl

abbrev due_at : Handle → ℕ
due_at h = if h == 7 then 5 else if h == 8 then 3 else 0

exec-InTime_example : All (InTime due_at) (exec fresh two_sleeps).1
exec-InTime_example =
    exec-InTime due_at fresh two_sleeps
      (record { entries = tt; held = tt; timely = tt; handles = tt; fns = tt }) (omega arith)

exec-accounted_example :
    total (resumed_weight (λ h. h)) (exec fresh two_sleeps).1
      + waiting (λ h. h) (exec fresh two_sleeps).0
      + lost (λ h. h) fresh two_sleeps
    ≡ 24
exec-accounted_example = exec-accounted (λ h. h) fresh two_sleeps refl tt

abbrev entry : ℕ → ℕ → Handle → Entry Handle
entry tp k h = record { when = tp; id = k; ct = tok; j = some h }

abbrev both_due : System ℕ
both_due = record {
  clocked = record {
    timer = record { q = entry 3 2 8 ∷ entry 5 1 7 ∷ entry 9 3 6 ∷ []; seq = 3; stop_flag = false };
    loop = at_head;
    now = 6;
  };
  sched = running;
}

exec-wakes_example : exec both_due (replicate 8 (moves kept) ++ replicate 4 turns) ≡ (
  record both_due {
    clocked = record both_due.clocked {
      timer = record { q = entry 9 3 6 ∷ []; seq = 3; stop_flag = false };
    };
  },
  at_time 6 8 ∷ at_time 6 7 ∷ [],
)
unfolding is_cancelled
exec-wakes_example =
    exec-wakes both_due kept (entry 3 2 8 ∷ entry 5 1 7 ∷ []) (entry 9 3 6 ∷ []) refl refl refl refl
      ((omega arith, refl, refl, refl), ((omega arith, refl, refl, refl), tt))
