-- ===== src/Scheduler/Shutdown.antt =====
-- How the loop of scheduler.hpp empties its queues, and what a stop request does to it.
use cnerium.Prelude.{
  somes, ◌≡◌, refl, true, false, Option, List, [], ◌∷◌, ◌++◌, map, append_assoc, length, replicate,
  replicate-add, ◌==◌, arith,
}
use cnerium.Scheduler.{
  Handle, Scheduler, resumes, calls, Event, posts_fn, resets, turns, leaves, waits, turn, stop,
  pending, step, exec,
}
use cnerium.Scheduler.Order.{NonNull}

abbrev pub Unreset : {F : Type 0} → List (Event F) → Type 0
Unreset [] = Unit
Unreset (resets ∷ es) = ⊥
Unreset (_ ∷ es) = Unreset es

module _ {F : Type 0} where
  Unreset-cons :
      (s : Scheduler F) (e : Event F) (es : List (Event F))
      → s.stop_requested ≡ true
      → Unreset (e ∷ es)
      → ((step s e).1 ≡ []) × ((step s e).0.stop_requested ≡ true) × Unreset es
  unfolding step turn
  Unreset-cons s resets es u k = absurd k
  Unreset-cons s (posts_fn f) es u k = (refl, u, k)
  Unreset-cons s _ es u k = ground arith

  exec-nil :
      (s : Scheduler F) (es : List (Event F))
      → s.stop_requested ≡ true
      → Unreset es
      → (exec s es).1 ≡ []
  unfolding exec
  exec-nil s [] u k = refl
  exec-nil s (e ∷ es) u k =
      let (none_run, u', k') = Unreset-cons s e es u k in
      rw none_run (exec-nil (step s e).0 es u' k')

  -- Once a stop is requested, nothing that is queued or posted later is run, in whatever order
  -- posts and turns come, until `reset`; and one turn of the loop ends it, with both queues empty.
  pub exec-stopped :
      (s : Scheduler F) (es : List (Event F))
      → Unreset es
      → ((exec (stop s) es).1 ≡ [])
        × (turn (stop s)
            ≡ (record { handle_q = []; fn_q = []; stop_requested = true; running = false }, leaves))
  unfolding stop turn
  exec-stopped s es k = (exec-nil (stop s) es refl k, refl)

  -- One turn of a running loop that is not stopped.
  turn_handle :
      (s : Scheduler F) (h : Handle) (hs : List Handle)
      → s.handle_q ≡ h ∷ hs
      → h == 0 ≡ false
      → s.running ≡ true
      → s.stop_requested ≡ false
      → step s turns ≡ (record s { handle_q = hs }, resumes h ∷ [])
  unfolding step turn
  turn_handle s h hs e n r u = ground arith

  turn_fn :
      (s : Scheduler F) (f : Option F) (fs : List (Option F))
      → s.handle_q ≡ []
      → s.fn_q ≡ f ∷ fs
      → s.running ≡ true
      → s.stop_requested ≡ false
      → step s turns ≡ (record s { fn_q = fs }, map calls (somes (f ∷ [])))
  unfolding step turn
  turn_fn s f fs e ef r u = ground arith

  drain_fns :
      (s : Scheduler F) (fs : List (Option F))
      → s.handle_q ≡ []
      → s.fn_q ≡ fs
      → s.running ≡ true
      → s.stop_requested ≡ false
      → exec s (replicate (length fs) turns) ≡ (record s { fn_q = [] }, map calls (somes fs))
  unfolding exec
  drain_fns s [] eh ef r u = ground arith
  drain_fns s (f ∷ fs) eh ef r u =
      rw (turn_fn s f fs eh ef r u, drain_fns (record s { fn_q = fs }) fs eh refl r u)
        (ground arith)

  exec-append :
      (s : Scheduler F) (es es' : List (Event F))
      → exec s (es ++ es')
        ≡ ((exec (exec s es).0 es').0, (exec s es).1 ++ (exec (exec s es).0 es').1)
  unfolding exec
  exec-append s [] es' = refl
  exec-append s (e ∷ es) es' = rw (exec-append (step s e).0 es es', append_assoc (step s e).1)

  drain_handles :
      (s : Scheduler F) (hs : List Handle)
      → s.handle_q ≡ hs
      → NonNull hs
      → s.running ≡ true
      → s.stop_requested ≡ false
      → exec s (replicate (length hs) turns) ≡ (record s { handle_q = [] }, map resumes hs)
  unfolding exec
  drain_handles s [] eh n r u = ground arith
  drain_handles s (h ∷ hs) eh n r u =
      rw (turn_handle s h hs eh n.0 r u, drain_handles (record s { handle_q = hs }) hs refl n.1 r u)
        refl

  drain :
      (s : Scheduler F)
      → NonNull s.handle_q
      → s.running ≡ true
      → s.stop_requested ≡ false
      → exec s (replicate (pending s) turns) ≡ (
        record s { handle_q = []; fn_q = [] },
        map resumes s.handle_q ++ map calls (somes s.fn_q),
      )
  unfolding pending
  drain s n r u = rw (
    replicate-add {A = Event F} (length s.handle_q) (length s.fn_q) turns,
    exec-append s (replicate (length s.handle_q) turns),
    drain_handles s s.handle_q refl n r u,
    drain_fns (record s { handle_q = [] }) s.fn_q refl refl r u,
  )

  waiting_turn :
      (s : Scheduler F)
      → s.handle_q ≡ []
      → s.fn_q ≡ []
      → s.stop_requested ≡ false
      → turn s ≡ (s, waits)
  unfolding turn
  waiting_turn s eh ef u = ground arith

  -- A running loop that is not stopped, and to which nothing is posted, empties its queues: as many
  -- turns as there are items resume every queued handle, in order, then call every callable that is
  -- not empty, in order, and leave the loop running, with a turn that waits. No handle is null.
  pub exec-pending :
      (s : Scheduler F)
      → NonNull s.handle_q
      → s.running ≡ true
      → s.stop_requested ≡ false
      → let s' = (exec s (replicate (pending s) turns)).0 in
        ((exec s (replicate (pending s) turns)).1
          ≡ map resumes s.handle_q ++ map calls (somes s.fn_q))
        × (s' ≡ record s { handle_q = []; fn_q = [] })
        × (turn s' ≡ (s', waits))
  exec-pending s n r u =
      rw (drain s n r u)
        (refl, refl, waiting_turn (record s { handle_q = []; fn_q = [] }) refl refl u)
