-- ===== src/Scheduler/Order.antt =====
-- In which order the loop of scheduler.hpp runs what was posted, and that it loses nothing while
-- no stop is requested.
use mathlib.Core.List.{Sublist, nil-sublist}
use mathlib.Core.List.Sublist
use cnerium.Prelude.{
  ◌≡◌, refl, sym, ap, ◌∙◌, true, false, Option, none, some, List, [], ◌∷◌, ◌++◌, append-nil,
  append_assoc, ◌==◌, if◌then◌else◌, arith, ◌⊎◌, inl, inr, Bool-cases, append_chain, somes,
  somes-append,
}
use cnerium.Scheduler.{
  Handle, null, Scheduler, Work, resumes, calls, Event, posts_fn, posts, stops, resets, enters,
  turns, turn, step, exec,
}

-- The handles that a list of work resumes, and the callables that it calls, in order.
abbrev pub resumed : {F : Type 0} → List (Work F) → List Handle
resumed [] = []
resumed (resumes h ∷ ws) = h ∷ resumed ws
resumed (calls f ∷ ws) = resumed ws

abbrev pub called : {F : Type 0} → List (Work F) → List F
called [] = []
called (resumes h ∷ ws) = called ws
called (calls f ∷ ws) = f ∷ called ws

-- What the events post: handles other than null, callables that are not empty.
abbrev pub posted_handles : {F : Type 0} → List (Event F) → List Handle
posted_handles [] = []
posted_handles (posts h ∷ es) = (if h == null then [] else h ∷ []) ++ posted_handles es
posted_handles (_ ∷ es) = posted_handles es

abbrev pub posted_fns : {F : Type 0} → List (Event F) → List F
posted_fns [] = []
posted_fns (posts_fn f ∷ es) = somes (f ∷ []) ++ posted_fns es
posted_fns (_ ∷ es) = posted_fns es

-- Every handle in a queue is that of a frame.
abbrev pub NonNull : List Handle → Type 0
NonNull [] = Unit
NonNull (h ∷ hs) = (h == null ≡ false) × NonNull hs

abbrev pub Unstopped : {F : Type 0} → List (Event F) → Type 0
Unstopped [] = Unit
Unstopped (stops ∷ es) = ⊥
Unstopped (_ ∷ es) = Unstopped es

pub NonNull-append :
    (hs : List Handle) (h : Handle) → NonNull hs → h == null ≡ false → NonNull (hs ++ h ∷ [])
NonNull-append [] h n e = (e, tt)
NonNull-append (x ∷ hs) h n e = (n.0, NonNull-append hs h n.1 e)

sublist_chain {ℓ} :
    {A : Type ℓ} (done later left mid q p ps : List A)
    → (done ++ mid ≡ q ++ p) ⊎ (done ++ mid ≡ [])
    → Sublist (later ++ left) (mid ++ ps)
    → Sublist ((done ++ later) ++ left) (q ++ (p ++ ps))
sublist_chain done later left mid q p ps h k = rw (append_assoc done later left) (
    Sublist.trans (Sublist.append (Sublist.refl done) k) (
      rw (← append_assoc done mid ps, ← append_assoc q p ps)
        (Sublist.append (go h) (Sublist.refl ps))))
  where
    go : (done ++ mid ≡ q ++ p) ⊎ (done ++ mid ≡ []) → Sublist (done ++ mid) (q ++ p)
    go (inl e) = rw e (Sublist.refl _)
    go (inr e) = rw e (nil-sublist _)

module _ {F : Type 0} where
  pub resumed-append : (ws vs : List (Work F)) → resumed (ws ++ vs) ≡ resumed ws ++ resumed vs
  resumed-append [] vs = refl
  resumed-append (resumes h ∷ ws) vs = ap (◌∷◌ h) (resumed-append ws vs)
  resumed-append (calls f ∷ ws) vs = resumed-append ws vs

  pub called-append : (ws vs : List (Work F)) → called (ws ++ vs) ≡ called ws ++ called vs
  called-append [] vs = refl
  called-append (resumes h ∷ ws) vs = called-append ws vs
  called-append (calls f ∷ ws) vs = ap (◌∷◌ f) (called-append ws vs)

  pub posted_handles-cons :
      (e : Event F) (es : List (Event F))
      → posted_handles (e ∷ es) ≡ posted_handles (e ∷ []) ++ posted_handles es
  posted_handles-cons (posts_fn f) es = refl
  posted_handles-cons (posts h) es = rw (append-nil (if h == null then [] else h ∷ []))
  posted_handles-cons _ es = refl

  posted_fns-cons :
      (e : Event F) (es : List (Event F))
      → posted_fns (e ∷ es) ≡ posted_fns (e ∷ []) ++ posted_fns es
  posted_fns-cons (posts_fn f) es = rw (append-nil (somes (f ∷ [])))
  posted_fns-cons _ es = refl

  -- One turn that is not stopped takes one item, handles first, and keeps the rest.
  turn-conserves :
      (s : Scheduler F) (hs : List Handle) (fs : List (Option F))
      → s.handle_q ≡ hs
      → s.fn_q ≡ fs
      → s.stop_requested ≡ false
      → NonNull hs
      → (resumed (step s turns).1 ++ (step s turns).0.handle_q ≡ hs)
        × (called (step s turns).1 ++ somes (step s turns).0.fn_q ≡ somes fs)
        × NonNull (step s turns).0.handle_q
        × ((step s turns).0.stop_requested ≡ false)
  unfolding step turn
  turn-conserves s [] [] eh ef es n = ground arith
  turn-conserves s [] (none ∷ fs) eh ef es n = ground arith
  turn-conserves s [] (some f ∷ fs) eh ef es n = ground arith
  turn-conserves s (h ∷ hs) fs eh ef es n = ground arith

  abbrev pub IsStop : Event F → Type 0
  IsStop stops = Unit
  IsStop _ = ⊥

  pub step-conserves :
      (s : Scheduler F) (e : Event F)
      → s.stop_requested ≡ false
      → NonNull s.handle_q
      → ¬ IsStop e
      → (resumed (step s e).1 ++ (step s e).0.handle_q ≡ s.handle_q ++ posted_handles (e ∷ []))
        × (called (step s e).1 ++ somes (step s e).0.fn_q ≡ somes s.fn_q ++ posted_fns (e ∷ []))
        × NonNull (step s e).0.handle_q
        × ((step s e).0.stop_requested ≡ false)
  unfolding step
  step-conserves s (posts_fn f) u n k = (
    sym (append-nil _),
    somes-append s.fn_q (f ∷ []) ∙ ap (◌++◌ (somes s.fn_q)) (sym (append-nil _)),
    n,
    u,
  )
  step-conserves s (posts h) u n k =
      ground
        (arith, append-nil s.handle_q, append-nil (somes s.fn_q), NonNull-append s.handle_q h n)
  step-conserves s stops u n k = absurd (k tt)
  step-conserves s resets u n k = (sym (append-nil _), sym (append-nil _), n, refl)
  step-conserves s enters u n k = (sym (append-nil _), sym (append-nil _), n, u)
  step-conserves s turns u n k =
      rw (append-nil s.handle_q, append-nil (somes s.fn_q))
        (turn-conserves s s.handle_q s.fn_q refl refl u n)

  pub Unstopped-cons :
      (e : Event F) (es : List (Event F)) → Unstopped (e ∷ es) → (¬ IsStop e) × Unstopped es
  Unstopped-cons stops es k = absurd k
  Unstopped-cons (posts h) es k = (λ b. b, k)
  Unstopped-cons _ es k = (λ b. b, k)

  -- While no stop is requested, the loop resumes the handles and calls the callables in the order
  -- in which they were posted, each at most once, and what it has not run yet is still queued: for
  -- every interleaving of posts, resets and turns, from any state whose handles are not null.
  pub exec-conserves :
      (s : Scheduler F) (es : List (Event F))
      → s.stop_requested ≡ false
      → NonNull s.handle_q
      → Unstopped es
      → (resumed (exec s es).1 ++ (exec s es).0.handle_q ≡ s.handle_q ++ posted_handles es)
        × (called (exec s es).1 ++ somes (exec s es).0.fn_q ≡ somes s.fn_q ++ posted_fns es)
  unfolding exec
  exec-conserves s [] u n k = (sym (append-nil _), sym (append-nil _))
  exec-conserves s (e ∷ es) u n k =
      let (go, rest) = Unstopped-cons e es k in
      let (hs, fs, n', u') = step-conserves s e u n go in
      let (hs', fs') = exec-conserves (step s e).0 es u' n' rest in
      (
        rw (resumed-append (step s e).1, posted_handles-cons e es)
            (append_chain (resumed (step s e).1) _ _ _ _ _ _ hs hs'),
        rw (called-append (step s e).1, posted_fns-cons e es)
            (append_chain (called (step s e).1) _ _ _ _ _ _ fs fs'),
      )

  turn-stopped :
      (s : Scheduler F)
      → s.stop_requested ≡ true
      → s.running ≡ true
      → (called (step s turns).1 ≡ [])
        × (resumed (step s turns).1 ≡ [])
        × ((step s turns).0.handle_q ≡ [])
        × ((step s turns).0.fn_q ≡ [])
  unfolding step turn
  turn-stopped s u r = ground arith

  -- A turn under a stop request throws both queues away; any other step is as above.
  pub step-cases :
      (s : Scheduler F) (e : Event F)
      → NonNull s.handle_q
      → ((resumed (step s e).1 ++ (step s e).0.handle_q ≡ s.handle_q ++ posted_handles (e ∷ []))
          ⊎ (resumed (step s e).1 ++ (step s e).0.handle_q ≡ []))
        × ((called (step s e).1 ++ somes (step s e).0.fn_q ≡ somes s.fn_q ++ posted_fns (e ∷ []))
            ⊎ (called (step s e).1 ++ somes (step s e).0.fn_q ≡ []))
        × NonNull (step s e).0.handle_q
  unfolding step
  step-cases s (posts_fn f) n = (
    inl (sym (append-nil _)),
    inl (somes-append s.fn_q (f ∷ []) ∙ ap (◌++◌ (somes s.fn_q)) (sym (append-nil _))),
    n,
  )
  step-cases s (posts h) n =
      ground
        (arith, append-nil s.handle_q, append-nil (somes s.fn_q), NonNull-append s.handle_q h n)
  step-cases s turns n = elim (Bool-cases s.stop_requested) [
    | inl stopped ↦
        ground (arith, append-nil s.handle_q, append-nil (somes s.fn_q), turn-stopped s stopped)
    | inr u ↦ let (hs, fs, n', _) = step-conserves s turns u n (λ b. b) in (inl hs, inl fs, n')
  ]
  step-cases s _ n = (inl (sym (append-nil _)), inl (sym (append-nil _)), n)

  -- Whatever stops, resets and posts come between the turns, the handles resumed so far, followed
  -- by those still queued, are a subsequence of the handles queued at first and posted since, and
  -- so are the callables: nothing runs twice, or before what was posted before it in its queue.
  pub exec-sublist :
      (s : Scheduler F) (es : List (Event F))
      → NonNull s.handle_q
      → Sublist (resumed (exec s es).1 ++ (exec s es).0.handle_q) (s.handle_q ++ posted_handles es)
        × Sublist (called (exec s es).1 ++ somes (exec s es).0.fn_q) (somes s.fn_q ++ posted_fns es)
  unfolding exec
  exec-sublist s [] n =
      (rw (append-nil s.handle_q) (Sublist.refl _), rw (append-nil (somes s.fn_q)) (Sublist.refl _))
  exec-sublist s (e ∷ es) n =
      let (hs, fs, n') = step-cases s e n in
      let (hs', fs') = exec-sublist (step s e).0 es n' in
      (
        rw (resumed-append (step s e).1, posted_handles-cons e es)
            (sublist_chain (resumed (step s e).1) _ _ _ _ _ _ hs hs'),
        rw (called-append (step s e).1, posted_fns-cons e es)
            (sublist_chain (called (step s e).1) _ _ _ _ _ _ fs fs'),
      )
