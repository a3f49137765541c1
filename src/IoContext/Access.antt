-- ===== src/IoContext/Access.antt =====
-- What accesses to the services of io_context.cpp give, before and after the shutdown.
use cnerium.Prelude.{
  ◌≡◌, Bool, refl, sym, ap, ◌∙◌, true, false, Option, none, List, [], ◌∷◌, arith, if◌then◌else◌,
}
use cnerium.Error.{throws}
use cnerium.Scheduler.{Handle, Scheduler}
use cnerium.Scheduler
use cnerium.IoContext.{
  Service, IoContext, shut_down, post_fn, post_handle, stop, get, shutdown, Event, posts_fn, posts,
  stops, gets, shuts, of_sched, on_sched, step, exec,
}
use cnerium.IoContext.Services.{resets, get-down}

module _ {F : Type 0} where
  -- Whether the scheduler is asked to stop: since the last stop, with no reset after it.
  abbrev sched_after : Bool → Scheduler.Event F → Bool
  sched_after b Scheduler.Event.stops = true
  sched_after b Scheduler.Event.resets = false
  sched_after b _ = b

  abbrev pub stop_after : Bool → List (Event F) → Bool
  stop_after b [] = b
  stop_after b (stops ∷ es) = stop_after true es
  stop_after b (of_sched e ∷ es) = stop_after (sched_after b e) es
  stop_after b (_ ∷ es) = stop_after b es

  -- Once shut down, a context holds nothing.
  pub record Down (c : IoContext F) : Type 0 where
    pub down : c.shutdown_done ≡ true
    pub empty : (c.cpu_pool_ ≡ none) × (c.timer_ ≡ none) × (c.signals_ ≡ none) × (c.net_ ≡ none)

  cleared : IoContext F → IoContext F
  cleared c = record c {
    sched = Scheduler.stop c.sched;
    cpu_pool_ = none;
    timer_ = none;
    signals_ = none;
    net_ = none;
    shutdown_done = true;
  }

  shutdown-up : (c : IoContext F) → c.shutdown_done ≡ false → shutdown c ≡ (cleared c, resets c)
  unfolding shutdown cleared
  shutdown-up c h = ap (λ b. if b then (c, []) else (cleared c, resets c)) h

  shutdown-down : (c : IoContext F) → c.shutdown_done ≡ true → shutdown c ≡ (c, [])
  unfolding shutdown cleared
  shutdown-down c h = ap (λ b. if b then (c, []) else (cleared c, resets c)) h

  cleared-Down : (c : IoContext F) → Down (cleared c) × ((cleared c).sched.stop_requested ≡ true)
  unfolding cleared Scheduler.stop
  cleared-Down c = (record { down = refl; empty = (refl, refl, refl, refl) }, refl)

  post-halted :
      (c : IoContext F) (h : Handle)
      → (post_handle c h).sched.stop_requested ≡ c.sched.stop_requested
  unfolding post_handle Scheduler.post_handle Scheduler.post
  post-halted c h = ground arith

  turn-halted :
      (s : Scheduler F) (hs : List Handle) (fs : List (Option F))
      → s.handle_q ≡ hs
      → s.fn_q ≡ fs
      → (Scheduler.step s Scheduler.Event.turns).0.stop_requested ≡ s.stop_requested
  unfolding Scheduler.step Scheduler.turn
  turn-halted s [] [] eh ef = ground arith
  turn-halted s [] (f ∷ fs) eh ef = ground arith
  turn-halted s (h ∷ hs) fs eh ef = ground arith

  sched-halted :
      (s : Scheduler F) (e : Scheduler.Event F)
      → (Scheduler.step s e).0.stop_requested ≡ sched_after s.stop_requested e
  unfolding Scheduler.step
  sched-halted s (Scheduler.Event.posts_fn f) = refl
  sched-halted s (Scheduler.Event.posts h) = ground arith
  sched-halted s Scheduler.Event.stops = refl
  sched-halted s Scheduler.Event.resets = refl
  sched-halted s Scheduler.Event.enters = refl
  sched-halted s Scheduler.Event.turns = turn-halted s s.handle_q s.fn_q refl refl

  step-Down :
      (c : IoContext F) (e : Event F) (es : List (Event F))
      → Down c
      → Down (step c e).0
        × ((step c e).1 ≡ [])
        × (stop_after c.sched.stop_requested (e ∷ es)
            ≡ stop_after (step c e).0.sched.stop_requested es)
  unfolding step post_fn post_handle stop on_sched Scheduler.stop Scheduler.post_fn
  step-Down c (posts_fn f) es d = (record { down = d.down; empty = d.empty }, refl, refl)
  step-Down c (posts h) es d = (
    record { down = d.down; empty = d.empty },
    refl,
    ap (λ b. stop_after b es) (sym (post-halted c h)),
  )
  step-Down c stops es d = (record { down = d.down; empty = d.empty }, refl, refl)
  step-Down c (gets s) es d = rw (get-down s c d.down) (d, refl, refl)
  step-Down c shuts es d = rw (shutdown-down c d.down) (d, refl, refl)
  step-Down c (of_sched e) es d = (
    record { down = d.down; empty = d.empty },
    refl,
    ap (λ b. stop_after b es) (sym (sched-halted c.sched e)),
  )

  exec-Down :
      (c : IoContext F) (es : List (Event F))
      → Down c
      → Down (exec c es).0
        × ((exec c es).1 ≡ [])
        × ((exec c es).0.sched.stop_requested ≡ stop_after c.sched.stop_requested es)
  unfolding exec
  exec-Down c [] d = (d, refl, refl)
  exec-Down c (e ∷ es) d =
      let (d', quiet, here) = step-Down c e es d in
      let (d'', later, asked) = exec-Down (step c e).0 es d' in
      (d'', rw (quiet, later) refl, asked ∙ sym here)

  -- After a shutdown, whatever is called, further shutdowns included: each access to a service throws
  -- `runtime_error`, no service is made or destroyed, and none is held. The scheduler is asked to stop
  -- until somebody resets it, and again from a later stop on; further shutdowns do not stop it again.
  pub exec-shut :
      (c : IoContext F) (es : List (Event F)) (s : Service)
      → c.shutdown_done ≡ false
      → let c' = (exec (shutdown c).0 es).0 in
        ((get s c').1 ≡ throws shut_down)
        × ((exec (shutdown c).0 es).1 ≡ [])
        × Down c'
        × (c'.sched.stop_requested ≡ stop_after true es)
  exec-shut c es s up =
      let (down, halted) = cleared-Down c in
      let same = ap (λ p. p.0) (shutdown-up c up) in
      let (d, quiet, asked) = exec-Down (shutdown c).0 es (rw same down) in
      (
        ap (λ r. r.1) (get-down s (exec (shutdown c).0 es).0 d.down),
        quiet,
        d,
        asked ∙ ap (λ b. stop_after b es) (ap (λ x. x.sched.stop_requested) same ∙ halted),
      )
