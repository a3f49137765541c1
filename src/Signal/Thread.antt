-- ===== src/Signal/Thread.antt =====
-- The thread of signal.cpp after a stop, and what calls leave of it.
pub mod Woken
use mathlib.Core.Path.{subst}
use cnerium.Prelude.{
  ℕ, ◌≡◌, refl, sym, ap, ◌∙◌, Bool, if◌then◌else◌, Bool-cases, inl, inr, true, false, Option, none,
  some, List, [], ◌∷◌, get_elem?, arith,
}
use cnerium.Cancel.{Flags, CancelToken}
use cnerium.Scheduler.{Handle}
use cnerium.Signal.{
  Worker, unstarted, posting, received, at_head, ended, blocked, Delivery, Callback, deliver, Wait,
  asking, missed, ready, suspended, World, Event, adds, removes, handles, stops, arrives, fails,
  moves, delivers, finishes, waits_for, asks, suspends, contains, async_wait, await_ready,
  await_suspend, worker_move, sigwait_returns, sigwait_fails, deliver_begin, deliver_end,
  start_if_needed, step, exec, joins,
}

module _ {H : Type 0} where
  -- What most events leave as it is.
  record Same (w w' : World H) : Type 0 where
    worker : w'.worker ≡ w.worker
    started : w'.set_.started ≡ w.set_.started
    stopped : w'.set_.stop_flag ≡ w.set_.stop_flag

  unmoved : (w : World H) → Same w w
  unmoved w = record { worker = refl; started = refl; stopped = refl }

  deliver-Same :
      (w : World H) (f : List (Option Callback)) (d : Option (Delivery H)) (q : List ℕ)
      → w.set_.pending ≡ q
      → Same w (deliver_begin f d w)
  unfolding deliver_begin
  deliver-Same w [] d q k = unmoved w
  deliver-Same w (none ∷ f) d q k = unmoved w
  deliver-Same w (some deliver ∷ f) (some d) q k = unmoved w
  deliver-Same w (some deliver ∷ f) none [] k = record {
    worker = ground arith;
    started = ground arith;
    stopped = ground arith;
  }
  deliver-Same w (some deliver ∷ f) none (x ∷ q) k = record {
    worker = ground arith;
    started = ground arith;
    stopped = ground arith;
  }

  end-Same : (w : World H) (d : Option (Delivery H)) → Same w (deliver_end d w)
  unfolding deliver_end
  end-Same w none = unmoved w
  end-Same w (some d) = record { worker = refl; started = refl; stopped = refl }

  ask-Same :
      (w : World H) (i : ℕ) (o : Option Wait) (q : List ℕ)
      → w.set_.pending ≡ q
      → Same w (await_ready w i o)
  unfolding await_ready
  ask-Same w i (some (asking a)) [] k = record {
    worker = ground arith;
    started = ground arith;
    stopped = ground arith;
  }
  ask-Same w i (some (asking a)) (x ∷ q) k = record {
    worker = ground arith;
    started = ground arith;
    stopped = ground arith;
  }
  ask-Same w i (some (missed a)) q k = unmoved w
  ask-Same w i (some (ready a x)) q k = unmoved w
  ask-Same w i (some (suspended a x)) q k = unmoved w
  ask-Same w i none q k = unmoved w

  suspend-Same :
      (m : Flags) (w : World H) (i : ℕ) (o : Option Wait) (q : List ℕ)
      → w.set_.pending ≡ q
      → Same w (await_suspend m w i o)
  unfolding await_suspend
  suspend-Same m w i (some (missed a)) [] k = record {
    worker = ground arith;
    started = ground arith;
    stopped = ground arith;
  }
  suspend-Same m w i (some (missed a)) (x ∷ q) k = record {
    worker = ground arith;
    started = ground arith;
    stopped = ground arith;
  }
  suspend-Same m w i (some (asking a)) q k = unmoved w
  suspend-Same m w i (some (ready a x)) q k = unmoved w
  suspend-Same m w i (some (suspended a x)) q k = unmoved w
  suspend-Same m w i none q k = unmoved w

  wait-Same :
      (w : World H) (ct : CancelToken) (h : Handle)
      → w.set_.started ≡ true
      → Same w (async_wait w ct h)
  unfolding async_wait start_if_needed
  wait-Same w ct h s = record {
    worker = ground arith;
    started = ground arith;
    stopped = ground arith;
  }

  -- An event that is not one of the thread, of `sigwait`, or a stop.
  abbrev pub IsCall : Event H → Type 0
  IsCall moves = ⊥
  IsCall (arrives x) = ⊥
  IsCall fails = ⊥
  IsCall stops = ⊥
  IsCall _ = Unit

  call-Same : (w : World H) (e : Event H) → w.set_.started ≡ true → IsCall e → Same w (step w e)
  unfolding step
  call-Same w (adds x) s c = record { worker = refl; started = refl; stopped = refl }
  call-Same w (removes x) s c = record { worker = refl; started = refl; stopped = refl }
  call-Same w (handles f) s c = record { worker = refl; started = refl; stopped = refl }
  call-Same w delivers s c = deliver-Same w w.sched.fn_q w.delivery w.set_.pending refl
  call-Same w finishes s c = end-Same w w.delivery
  call-Same w (waits_for ct h) s c = wait-Same w ct h s
  call-Same w (asks i) s c = ask-Same w i (get_elem? w.waits i) w.set_.pending refl
  call-Same w (suspends m i) s c = suspend-Same m w i (get_elem? w.waits i) w.set_.pending refl
  call-Same w moves s c = absurd c
  call-Same w (arrives x) s c = absurd c
  call-Same w fails s c = absurd c
  call-Same w stops s c = absurd c

  -- A set that has been stopped, with its thread.
  pub record At (l : Worker) (w : World H) : Type 0 where
    pub here : w.worker ≡ l
    pub begun : w.set_.started ≡ true
    pub down : w.set_.stop_flag ≡ true

  pub call-At : (l : Worker) (w : World H) (e : Event H) → At l w → IsCall e → At l (step w e)
  call-At l w e v c =
      let s = call-Same w e v.begun c in
      record { here = s.worker ∙ v.here; begun = s.started ∙ v.begun; down = s.stopped ∙ v.down }

  pub stop-At : (l : Worker) (w : World H) → At l w → At l (step w stops)
  unfolding step
  stop-At l w v = record { here = v.here; begun = v.begun; down = refl }
