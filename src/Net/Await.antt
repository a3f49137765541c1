-- ===== src/Net/Await.antt =====
-- How an await of asio_await.hpp ends.
use cnerium.Prelude.{
  ◌≡◌, refl, sym, ap, ◌∙◌, Bool, true, false, some, [], ◌∷◌, ◌++◌, append-nil, inl, inr, Bool-cases,
  arith, ◌==◌, if◌then◌else◌,
}
use cnerium.Error.{is_error, system_error, Outcome, returns, throws}
use cnerium.Cancel.{Flags, CancelToken, is_cancelled, cancelled_ec}
use cnerium.Scheduler.{Handle, null, post, post_handle}
use cnerium.Net.{
  Operation, refuses, completes, AsioResult, World, Moment, empty_result, complete, await_resume,
  resume_on_ctx, start_with, await_suspend, co_asio,
}

-- How an operation ends, as an outcome.
abbrev pub outcome_of : {R : Type 0} → Operation R → Outcome R
outcome_of (refuses e) = throws e
outcome_of (completes ec v) = if is_error ec then throws (system_error ec) else returns v

-- A token that is cancelled stays cancelled.
abbrev pub Lasts : CancelToken → Moment → Type 0
Lasts ct m = is_cancelled m.before ct ≡ true → is_cancelled m.after ct ≡ true

-- What the token decides, read at a time when it is known.
choose : {A : Type 0} (b c : Bool) (x y : A) → b ≡ c → (if b then x else y) ≡ (if c then x else y)
choose b c x y e = ap (λ d. if d then x else y) e

module _ {R : Type 0} where
  resume-off :
      (m : Flags) (ct : CancelToken) (res : AsioResult R)
      → is_cancelled m ct ≡ true
      → await_resume m ct res ≡ some (throws (system_error cancelled_ec))
  unfolding await_resume
  resume-off m ct res off = rw off refl

module _ {G C : Type 0} where
  resume-post :
      (w : World G C) (h : Handle)
      → h == null ≡ false
      → ((resume_on_ctx h w).sched.handle_q ≡ w.sched.handle_q ++ h ∷ [])
        × ((resume_on_ctx h w).calls ≡ w.calls)
  unfolding resume_on_ctx post_handle post
  resume-post w h r = ground arith

module _ {G C R : Type 0} where
  start-post :
      (h : Handle) (op : Operation R) (res : AsioResult R) (w : World G C)
      → (start_with h op res w).0 ≡ resume_on_ctx h w
  unfolding start_with
  start-post h (refuses e) res w = refl
  start-post h (completes ec v) res w = refl

  start-result :
      (h : Handle) (m : Flags) (ct : CancelToken) (op : Operation R) (w : World G C)
      → is_cancelled m ct ≡ false
      → await_resume m ct (start_with h op empty_result w).1 ≡ some (outcome_of op)
  unfolding start_with await_resume empty_result complete
  start-result h m ct (refuses e) w n = ground arith
  start-result h m ct (completes ec v) w n = ground arith

  suspend-off :
      (m : Flags) (ct : CancelToken) (h : Handle) (call : C) (op : Operation R) (w : World G C)
      → is_cancelled m ct ≡ true
      → await_suspend m ct h call op empty_result w ≡ (resume_on_ctx h w, empty_result)
  unfolding await_suspend
  suspend-off m ct h call op w off = rw off refl

  suspend-on :
      (m : Flags) (ct : CancelToken) (h : Handle) (call : C) (op : Operation R) (w : World G C)
      → is_cancelled m ct ≡ false
      → await_suspend m ct h call op empty_result w
        ≡ start_with h op empty_result (record w { calls = w.calls ++ call ∷ [] })
  unfolding await_suspend
  suspend-on m ct h call op w on = rw on refl

  co_asio-suspend :
      (m : Moment) (ct : CancelToken) (call : C) (op : Operation R) (w : World G C)
      {p : World G C × AsioResult R}
      → await_suspend m.before ct m.handle call op empty_result w ≡ p
      → co_asio m ct call op w ≡ (p.0, await_resume m.after ct p.1)
  unfolding co_asio
  co_asio-suspend m ct call op w e = ap (λ p. (p.0, await_resume m.after ct p.1)) e

  -- An await of an operation, on every branch. It throws the cancellation error if its token is
  -- cancelled when it is resumed, and else ends as the operation did: by the exception that refused
  -- it, by its error code as `system_error`, or by its value, and it never takes a value that is not
  -- there. The operation is started unless the token is cancelled when the await suspends, and the
  -- coroutine is posted exactly once either way.
  pub co_asio-outcome_of :
      (m : Moment) (ct : CancelToken) (call : C) (op : Operation R) (w : World G C)
      → Lasts ct m
      → m.handle == null ≡ false
      → ((co_asio m ct call op w).1
          ≡ some (
              if is_cancelled m.after ct
              then throws (system_error cancelled_ec)
              else outcome_of op))
        × ((co_asio m ct call op w).0.sched.handle_q ≡ w.sched.handle_q ++ m.handle ∷ [])
        × ((co_asio m ct call op w).0.calls
            ≡ w.calls ++ (if is_cancelled m.before ct then [] else call ∷ []))
  co_asio-outcome_of m ct call op w l r =
      let w' = record w { calls = w.calls ++ call ∷ [] } in
      let (early, same) = resume-post w m.handle r in
      let (late, called) = resume-post w' m.handle r in
      let started = start-post m.handle op empty_result w' in
      elim (Bool-cases (is_cancelled m.before ct)) [
        | inl off ↦
            let whole =
              co_asio-suspend m ct call op w (suspend-off m.before ct m.handle call op w off) in
            (
              ap (λ p. p.1) whole
                  ∙ resume-off m.after ct empty_result (l off)
                  ∙ ap some (sym (choose (is_cancelled m.after ct) true _ _ (l off))),
              ap (λ p. p.0.sched.handle_q) whole ∙ early,
              ap (λ p. p.0.calls) whole
                  ∙ same
                  ∙ sym (append-nil w.calls)
                  ∙ ap (λ l. w.calls ++ l) (sym (choose (is_cancelled m.before ct) true _ _ off)),
            )
        | inr on ↦
            let whole =
              co_asio-suspend m ct call op w (suspend-on m.before ct m.handle call op w on) in
            (
              ap (λ p. p.1) whole ∙ elim (Bool-cases (is_cancelled m.after ct)) [
                | inl off ↦
                    resume-off m.after ct _ off
                    ∙ ap some (sym (choose (is_cancelled m.after ct) true _ _ off))
                | inr on' ↦
                    start-result m.handle m.after ct op w' on'
                    ∙ ap some (sym (choose (is_cancelled m.after ct) false _ _ on'))
              ],
              ap (λ p. p.0.sched.handle_q) whole ∙ ap (λ u. u.sched.handle_q) started ∙ late,
              ap (λ p. p.0.calls) whole
                  ∙ ap (λ u. u.calls) started
                  ∙ called
                  ∙ ap (λ l. w.calls ++ l) (sym (choose (is_cancelled m.before ct) false _ _ on)),
            )
      ]
