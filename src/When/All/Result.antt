-- ===== src/When/All/Result.antt =====
-- What `when_all` of when.hpp returns, and when it resumes the awaiting coroutine.
use cnerium.Prelude.{
  ℕ, ◌^◌, ◌<◌, ◌≡◌, refl, sym, ap, ◌∙◌, false, Option, none, some, List, [], ◌∷◌, ◌++◌, length,
  get_elem?, total, arith, ◌==◌,
}
use cnerium.Error.{Exception, Outcome, returns, throws}
use cnerium.Scheduler.{Handle, null, Scheduler}
use cnerium.When.{Kind, Stored, Runner, awaiting, settled, finished, start_all}
use cnerium.When.Slots.{
  thrown, first_of, first_of-capture, first_of-nil, contents, failing, waiting, unreported, outputs,
  materialize-contents,
}
use cnerium.When.All.{
  State, World, Event, settles, reports, await_suspend, settle_runner, report_runner, step, exec,
  await_resume,
}
use cnerium.When.All.Laws.{posted, init-Inv, exec-Inv}

module _ {G V : Type 0} (ks : List Kind) where
  pub failures : World G V → List (Event V) → List Exception
  failures w [] = []
  failures w (settles i o ∷ es) =
      thrown (get_elem? w.runners i) o ++ failures (step ks w (settles i o)) es
  failures w (reports i ∷ es) = failures (step ks w (reports i)) es

  report-first_ex :
      (w : World G V) (i : ℕ) (r : Option (Runner V))
      → (report_runner w i r).st.first_ex ≡ w.st.first_ex
  unfolding report_runner
  report-first_ex w i none = refl
  report-first_ex w i (some awaiting) = refl
  report-first_ex w i (some (finished o)) = refl
  report-first_ex w i (some (settled o)) = ground arith

  settle-first_of :
      (w : World G V) (i : ℕ) (o : Outcome V) (r : Option (Runner V)) (fs : List Exception)
      → first_of (settle_runner ks w i o r).st.first_ex fs
        ≡ first_of w.st.first_ex (thrown r o ++ fs)
  unfolding settle_runner
  settle-first_of w i (returns v) none fs = refl
  settle-first_of w i (throws e) none fs = refl
  settle-first_of w i o (some awaiting) fs = first_of-capture w.st.first_ex o fs
  settle-first_of w i (returns v) (some (settled p)) fs = refl
  settle-first_of w i (throws e) (some (settled p)) fs = refl
  settle-first_of w i (returns v) (some (finished p)) fs = refl
  settle-first_of w i (throws e) (some (finished p)) fs = refl

  exec-first_ex :
      (w : World G V) (es : List (Event V))
      → (exec ks w es).st.first_ex ≡ first_of w.st.first_ex (failures w es)
  unfolding exec failures step
  exec-first_ex w [] = sym (first_of-nil w.st.first_ex)
  exec-first_ex w (settles i o ∷ es) =
      exec-first_ex (step ks w (settles i o)) es
      ∙ settle-first_of w i o (get_elem? w.runners i) (failures (step ks w (settles i o)) es)
  exec-first_ex w (reports i ∷ es) =
      exec-first_ex (step ks w (reports i)) es
      ∙ ap (λ x. first_of x (failures (step ks w (reports i)) es))
          (report-first_ex w i (get_elem? w.runners i))

-- What the await must give, once every task has completed.
abbrev pub verdict :
    {V : Type 0} → List Kind → Option Exception → List (Runner V) → Outcome (List (Stored V))
verdict ks none rs = returns (outputs ks rs)
verdict ks (some e) rs = throws e

waiting-unreported :
    {V : Type 0} (rs : List (Runner V)) → total unreported rs ≡ 0 → total waiting rs ≡ 0
waiting-unreported [] h = refl
waiting-unreported (awaiting ∷ rs) h = absurd (omega arith)
waiting-unreported (settled o ∷ rs) h = absurd (omega arith)
waiting-unreported (finished o ∷ rs) h = omega (arith, waiting-unreported rs (omega arith))

await-verdict :
    {V : Type 0} (ks : List Kind) (rs : List (Runner V)) (st : State V) (x : Option Exception)
    → st.first_ex ≡ x
    → st.results ≡ contents ks rs
    → total waiting rs ≡ 0
    → (x ≡ none → total failing rs ≡ 0)
    → await_resume ks st ≡ some (verdict ks x rs)
unfolding await_resume
await-verdict ks rs st none e s w f =
    rw (e, await_resume) (rw (s, materialize-contents ks rs w (f refl)) refl)
await-verdict ks rs st (some x) e s w f = rw (e, await_resume) refl

module _ {G V : Type 0} (ks : List Kind) (h : Handle) (rs : List Handle) (sched : Scheduler G) where
  -- `when_all` over at least one task posts the awaiting coroutine to the scheduler when the last
  -- runner reports and at no other time: in whatever order the tasks complete and the runners
  -- report, the scheduler's handles are those after the start of the runners, followed by the
  -- awaiting coroutine, once, if no runner is left to report; the counter is the number of those
  -- runners, never wraps, and nothing is resumed directly.
  pub exec-resumed_all :
      (es : List (Event V))
      → 0 < length ks
      → length ks < 2 ^ 64
      → h == null ≡ false
      → let w = exec ks (await_suspend {V = V} ks h rs sched) es in
        (w.sched.handle_q ≡ (start_all rs sched).handle_q ++ posted h (total unreported w.runners))
        × (w.st.remaining ≡ total unreported w.runners)
        × (w.inline ≡ [])
  exec-resumed_all es some_task few real =
      let v =
        exec-Inv ks h (start_all rs sched).handle_q real (await_suspend ks h rs sched) es
          (init-Inv ks h rs sched some_task few) in
      (
        v.resumed ∙ ap (λ n. (start_all rs sched).handle_q ++ posted h n) v.counted,
        v.counted,
        v.direct,
      )

  -- Once every runner has reported, the await gives the values of all the tasks in the order of the
  -- arguments, monostate for void, if none has thrown, and otherwise throws what the first task to
  -- fail threw, in the order of completion; it never reads an empty slot.
  pub await_resume-exec :
      (es : List (Event V))
      → 0 < length ks
      → length ks < 2 ^ 64
      → h == null ≡ false
      → (exec ks (await_suspend {V = V} ks h rs sched) es).st.remaining ≡ 0
      → let w = exec ks (await_suspend {V = V} ks h rs sched) es in
        await_resume ks w.st
        ≡ some (verdict ks (first_of none (failures ks (await_suspend ks h rs sched) es)) w.runners)
  unfolding failures await_suspend
  await_resume-exec es some_task few real all_in =
      let w0 = await_suspend ks h rs sched in
      let v =
        exec-Inv ks h (start_all rs sched).handle_q real w0 es
          (init-Inv ks h rs sched some_task few) in
      await-verdict ks (exec ks w0 es).runners (exec ks w0 es).st
        (first_of none (failures ks w0 es)) (exec-first_ex ks w0 es) v.stored
        (waiting-unreported (exec ks w0 es).runners (sym v.counted ∙ all_in))
        (λ e. v.clean (exec-first_ex ks w0 es ∙ e))

module _ {G V : Type 0} (ks : List Kind) where
  -- With no runner, nothing happens.
  pub exec-idle : (w : World G V) (es : List (Event V)) → w.runners ≡ [] → exec ks w es ≡ w
  unfolding exec step
  exec-idle w [] e = refl
  exec-idle w (settles i o ∷ es) e =
      ap (λ r. exec ks (settle_runner ks w i o r) es) (ap (λ rs. get_elem? rs i) e)
      ∙ exec-idle w es e
  exec-idle w (reports i ∷ es) e =
      ap (λ r. exec ks (report_runner w i r) es) (ap (λ rs. get_elem? rs i) e) ∙ exec-idle w es e
