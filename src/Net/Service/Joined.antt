-- ===== src/Net/Service/Joined.antt =====
-- When the network thread of asio_net_service.cpp ends.
use mathlib.Core.Path.{subst}
use cnerium.Prelude.{
  ℕ, ◌≡◌, refl, sym, ap, ◌∙◌, Bool, true, false, List, [], ◌∷◌, ◌||◌, not, if◌then◌else◌,
}
use cnerium.Net.Service.{
  NetThread, running, returned, absent, NetService, init, stop, join_returns, Event, starts, ends,
  moves, throws, stops, thread_catch, thread_move, step, exec,
}

-- Whether the service has been stopped, and whether an exception has left `run`, after the events.
abbrev pub stopped_after : Bool → List Event → Bool
stopped_after b [] = b
stopped_after b (stops ∷ es) = stopped_after true es
stopped_after b (_ ∷ es) = stopped_after b es

abbrev pub thrown_after : Bool → List Event → Bool
thrown_after b [] = b
thrown_after b (throws ∷ es) = thrown_after true es
thrown_after b (_ ∷ es) = thrown_after b es

-- Where the thread stands: it serves, or has ended by an exception; after a stop it may have ended.
abbrev Stands : Bool → Bool → NetThread → Type 0
Stands true c t = Unit
Stands false true t = t ≡ returned
Stands false false t = t ≡ running

record Inv (b c : Bool) (s : NetService) : Type 0 where
  down : s.stopped ≡ b
  closed : s.ioc_stopped ≡ b
  guarded : s.guard ≡ not b
  thread : Stands b c s.net_thread

init-Inv : Inv false false init
unfolding init
init-Inv = record { down = refl; closed = refl; guarded = refl; thread = refl }

running≢absent : running ≡ absent → ⊥
running≢absent h = cc

stop_again : (s : NetService) → s.stopped ≡ true → stop s ≡ s
unfolding stop
stop_again s e =
    ap (λ b. if b then s else record s { stopped = true; guard = false; ioc_stopped = true }) e

stop-Inv : (b c : Bool) (s : NetService) → Inv b c s → Inv true c (stop s)
unfolding stop
stop-Inv true c s v = subst (Inv true c) (sym (stop_again s v.down)) v
stop-Inv false c s v =
    rw (v.down, stop) (record { down = refl; closed = refl; guarded = refl; thread = tt })

catch-Inv :
    (b c : Bool) (s : NetService) (t : NetThread)
    → s.net_thread ≡ t
    → Inv b c s
    → Inv b true (thread_catch s t)
unfolding thread_catch
catch-Inv true c s running e v = record {
  down = v.down;
  closed = v.closed;
  guarded = v.guarded;
  thread = tt;
}
catch-Inv true c s _ e v = record {
  down = v.down;
  closed = v.closed;
  guarded = v.guarded;
  thread = tt;
}
catch-Inv false c s running e v = record {
  down = v.down;
  closed = v.closed;
  guarded = v.guarded;
  thread = refl;
}
catch-Inv false true s _ e v = v
catch-Inv false false s returned e v = record {
  down = v.down;
  closed = v.closed;
  guarded = v.guarded;
  thread = e;
}
catch-Inv false false s absent e v = absurd (running≢absent (sym v.thread ∙ e))

module _ (run_returns : Bool → Bool → ℕ → Bool)
    (guard_keeps : (n : ℕ) → run_returns false true n ≡ false)
    (stop_ends : (g : Bool) (n : ℕ) → run_returns true g n ≡ true) where
  -- A move of a thread in `run`.
  running_move :
      (b c : Bool) (s : NetService)
      → Inv b c s
      → thread_move run_returns s running ≡ (if b then record s { net_thread = returned } else s)
  unfolding thread_move
  running_move true c s v =
      ap (λ r. if r then record s { net_thread = returned } else s)
        (ap (λ i. run_returns i s.guard s.outstanding) v.closed ∙ stop_ends s.guard s.outstanding)
  running_move false c s v =
      ap (λ r. if r then record s { net_thread = returned } else s)
        (ap (λ i. run_returns i s.guard s.outstanding) v.closed
          ∙ ap (λ g. run_returns false g s.outstanding) v.guarded
          ∙ guard_keeps s.outstanding)

  move-Inv :
      (b c : Bool) (s : NetService) (t : NetThread)
      → s.net_thread ≡ t
      → Inv b c s
      → Inv b c (thread_move run_returns s t)
  unfolding thread_move
  move-Inv true c s running e v =
      rw (running_move true c s v)
        (record { down = v.down; closed = v.closed; guarded = v.guarded; thread = tt })
  move-Inv false c s running e v = rw (running_move false c s v) v
  move-Inv b c s returned e v = v
  move-Inv b c s absent e v = v

  exec-Inv :
      (b c : Bool) (s : NetService) (es : List Event)
      → Inv b c s
      → Inv (stopped_after b es) (thrown_after c es) (exec run_returns s es)
  unfolding exec step
  exec-Inv b c s [] v = v
  exec-Inv b c s (starts ∷ es) v =
      exec-Inv b c (step run_returns s starts) es
        (record { down = v.down; closed = v.closed; guarded = v.guarded; thread = v.thread })
  exec-Inv b c s (ends ∷ es) v =
      exec-Inv b c (step run_returns s ends) es
        (record { down = v.down; closed = v.closed; guarded = v.guarded; thread = v.thread })
  exec-Inv b c s (moves ∷ es) v =
      exec-Inv b c (step run_returns s moves) es (move-Inv b c s s.net_thread refl v)
  exec-Inv b c s (throws ∷ es) v =
      exec-Inv b true (step run_returns s throws) es (catch-Inv b c s s.net_thread refl v)
  exec-Inv b c s (stops ∷ es) v = exec-Inv true c (step run_returns s stops) es (stop-Inv b c s v)

  -- Whether the thread has ended after its next move.
  move-joins :
      (b c : Bool) (s : NetService) (t : NetThread)
      → s.net_thread ≡ t
      → Inv b c s
      → join_returns false (thread_move run_returns s t).net_thread ≡ (b || c)
  unfolding join_returns thread_move
  move-joins true c s running e v = rw (running_move true c s v) refl
  move-joins true c s returned e v = ap (join_returns false) e
  move-joins true c s absent e v = ap (join_returns false) e
  move-joins false true s running e v =
      rw (running_move false true s v) (ap (join_returns false) v.thread)
  move-joins false true s returned e v = ap (join_returns false) e
  move-joins false true s absent e v = ap (join_returns false) e
  move-joins false false s running e v =
      rw (running_move false false s v) (ap (join_returns false) v.thread)
  move-joins false false s returned e v = ap (join_returns false) v.thread
  move-joins false false s absent e v = ap (join_returns false) v.thread

  -- The network thread ends for two reasons only. Whatever operations start and end, whatever
  -- exceptions leave the event loop, and however often the service is stopped: the work guard is held
  -- exactly until the first stop; and the join of the destructor returns after the next move of the
  -- thread exactly if the service has been stopped or an exception has left the loop, which leaves the
  -- service as if it were served, with its guard and not stopped, however many operations are
  -- outstanding. The loop of Asio returns once it is stopped, and not while it is guarded.
  pub exec-join_returns :
      (es : List Event)
      → let s = exec run_returns init es in
        (join_returns false (step run_returns s moves).net_thread
          ≡ (stopped_after false es || thrown_after false es))
        × (s.guard ≡ not (stopped_after false es))
        × (s.stopped ≡ stopped_after false es)
  unfolding step
  exec-join_returns es =
      let v = exec-Inv false false init es init-Inv in
      let s = exec run_returns init es in (move-joins _ _ s s.net_thread refl v, v.guarded, v.down)
