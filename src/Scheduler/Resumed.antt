-- ===== src/Scheduler/Resumed.antt =====
-- The coroutines that `run` of scheduler.hpp resumes, counted by a weight.
use cnerium.Prelude.{
  ℕ, ◌+◌, ◌≡◌, refl, sym, ap, ◌∙◌, true, false, List, [], ◌∷◌, ◌++◌, map, append-nil, replicate,
  somes, total, total-append,
}
use cnerium.Scheduler.{Handle, Scheduler, resumes, calls, pending, Event, turns, step, exec}
use cnerium.Scheduler.Order.{
  NonNull, IsStop, resumed, resumed-append, posted_handles, step-conserves,
}
use cnerium.Scheduler.Shutdown.{exec-pending}

resumed-resumes : (F : Type 0) (hs : List Handle) → resumed {F = F} (map resumes hs) ≡ hs
resumed-resumes F [] = refl
resumed-resumes F (h ∷ hs) = ap (◌∷◌ h) (resumed-resumes F hs)

module _ {F : Type 0} where
  resumed-calls : (fs : List F) → resumed (map calls fs) ≡ []
  resumed-calls [] = refl
  resumed-calls (f ∷ fs) = resumed-calls fs

  -- The turns of a running loop that nothing is posted to resume what is queued.
  pub turns-resumed :
      (s : Scheduler F)
      → NonNull s.handle_q
      → s.running ≡ true
      → s.stop_requested ≡ false
      → resumed (exec s (replicate (pending s) turns)).1 ≡ s.handle_q
  turns-resumed s n r u =
      ap resumed (exec-pending s n r u).0
      ∙ resumed-append (map resumes s.handle_q) (map calls (somes s.fn_q))
      ∙ ap (λ l. resumed {F = F} (map resumes s.handle_q) ++ l) (resumed-calls (somes s.fn_q))
      ∙ append-nil (resumed {F = F} (map resumes s.handle_q))
      ∙ resumed-resumes F s.handle_q

  -- An event other than a stop resumes or keeps what is queued or posted.
  pub step-weight :
      (v : Handle → ℕ) (s : Scheduler F) (e : Event F)
      → s.stop_requested ≡ false
      → NonNull s.handle_q
      → ¬ IsStop e
      → total v (resumed (step s e).1) + total v (step s e).0.handle_q
        ≡ total v s.handle_q + total v (posted_handles (e ∷ []))
  step-weight v s e u n k =
      sym (total-append v (resumed (step s e).1) (step s e).0.handle_q)
      ∙ ap (total v) (step-conserves s e u n k).0
      ∙ total-append v s.handle_q (posted_handles (e ∷ []))
