-- ===== src/When/Any/Result.antt =====
-- What `when_any` of when.hpp returns, and when it resumes the awaiting coroutine.
use mathlib.Core.Option
use cnerium.Prelude.{
  Bool, ℕ, ◌≡◌, refl, sym, ap, ◌∙◌, true, false, Option, none, some, List, [], ◌∷◌, ◌++◌, get_elem?,
  total, arith, ◌==◌, if◌then◌else◌,
}
use cnerium.Error.{Exception, Outcome, returns, throws}
use cnerium.Scheduler.{Handle, null, Scheduler}
use cnerium.When.{
  Kind, valued, nothing, Stored, Runner, awaiting, settled, finished, materialize_tuple,
  materialize_one, cons?, store_into, value, monostate, start_all,
}
use cnerium.When.Slots.{thrown, first_of, first_of-capture, first_of-nil, content, contents}
use cnerium.When.Any.{
  State, World, Event, settles, reports, await_suspend, settle_runner, report_runner, step, exec,
  await_resume, when_any_result,
}
use cnerium.When.Any.Laws.{HasReported, reported, init-Inv, exec-Inv}

module _ {G V : Type 0} (ks : List Kind) where
  -- The exceptions that tasks throw, in the order in which they complete.
  pub failures : World G V → List (Event V) → List Exception
  failures w [] = []
  failures w (settles i o ∷ es) =
      thrown (get_elem? w.runners i) o ++ failures (step ks w (settles i o)) es
  failures w (reports i ∷ es) = failures (step ks w (reports i)) es

  report-ex :
      (w : World G V) (i : ℕ) (r : Option (Runner V)) → (report_runner w i r).st.ex ≡ w.st.ex
  unfolding report_runner
  report-ex w i none = refl
  report-ex w i (some awaiting) = refl
  report-ex w i (some (finished o)) = refl
  report-ex w i (some (settled o)) = ground arith

  settle-first_of :
      (w : World G V) (i : ℕ) (o : Outcome V) (r : Option (Runner V)) (fs : List Exception)
      → first_of (settle_runner ks w i o r).st.ex fs ≡ first_of w.st.ex (thrown r o ++ fs)
  unfolding settle_runner
  settle-first_of w i (returns v) none fs = refl
  settle-first_of w i (throws e) none fs = refl
  settle-first_of w i o (some awaiting) fs = first_of-capture w.st.ex o fs
  settle-first_of w i (returns v) (some (settled p)) fs = refl
  settle-first_of w i (throws e) (some (settled p)) fs = refl
  settle-first_of w i (returns v) (some (finished p)) fs = refl
  settle-first_of w i (throws e) (some (finished p)) fs = refl

  exec-ex :
      (w : World G V) (es : List (Event V))
      → (exec ks w es).st.ex ≡ first_of w.st.ex (failures w es)
  unfolding exec failures step
  exec-ex w [] = sym (first_of-nil w.st.ex)
  exec-ex w (settles i o ∷ es) =
      exec-ex (step ks w (settles i o)) es
      ∙ settle-first_of w i o (get_elem? w.runners i) (failures (step ks w (settles i o)) es)
  exec-ex w (reports i ∷ es) =
      exec-ex (step ks w (reports i)) es
      ∙ ap (λ x. first_of x (failures (step ks w (reports i)) es))
          (report-ex w i (get_elem? w.runners i))

-- What reading the slot of a runner's task gives: nothing for a task with a value that has not
-- returned one.
abbrev pub read_one : {V : Type 0} → Kind → Runner V → Option (Stored V)
read_one nothing r = some monostate
read_one valued (settled (returns v)) = some (value v)
read_one valued (finished (returns v)) = some (value v)
read_one valued _ = none

abbrev pub read_all : {V : Type 0} → List Kind → List (Runner V) → Option (List (Stored V))
read_all (k ∷ ks) (r ∷ rs) = elim (read_one k r) [
  | none ↦ none
  | some x ↦ elim (read_all ks rs) [ none ↦ none | some xs ↦ some (x ∷ xs) ]
]
read_all _ _ = some []

-- The end of `when_any`, by the first exception, if any, the winner and the runners.
abbrev pub any_outcome :
    {V : Type 0}
    → List Kind
    → Option Exception
    → ℕ
    → List (Runner V)
    → Option (Outcome (ℕ × List (Stored V)))
any_outcome ks (some e) i rs = some (throws e)
any_outcome ks none i rs = elim (read_all ks rs) [
  | none ↦ none
  | some out ↦ some (returns (i, out))
]

-- Whether the race is decided, and by whom.
abbrev pub Decided : {V : Type 0} → Bool → List (Runner V) → ℕ → Type 0
Decided false rs i = total reported rs ≡ 0
Decided true rs i = HasReported rs i

decide :
    {V : Type 0} (b : Bool) (rs : List (Runner V)) (i : ℕ)
    → (b ≡ false → total reported rs ≡ 0)
    → (b ≡ true → HasReported rs i)
    → Decided b rs i
decide false rs i nobody winner = nobody refl
decide true rs i nobody winner = winner refl

materialize-read_one :
    {V : Type 0} (k : Kind) (r : Runner V) → materialize_one k (content k r) ≡ read_one k r
unfolding materialize_one store_into
materialize-read_one nothing r = refl
materialize-read_one valued awaiting = refl
materialize-read_one valued (settled (returns v)) = refl
materialize-read_one valued (settled (throws e)) = refl
materialize-read_one valued (finished (returns v)) = refl
materialize-read_one valued (finished (throws e)) = refl

cons?-elim :
    {V : Type 0} (x : Option (Stored V)) (y : Option (List (Stored V)))
    → cons? x y ≡ elim x [ none ↦ none | some x ↦ elim y [ none ↦ none | some xs ↦ some (x ∷ xs) ] ]
unfolding cons?
cons?-elim none none = refl
cons?-elim none (some ys) = refl
cons?-elim (some x) none = refl
cons?-elim (some x) (some ys) = refl

materialize-read_all :
    {V : Type 0} (ks : List Kind) (rs : List (Runner V))
    → materialize_tuple ks (contents ks rs) ≡ read_all ks rs
unfolding materialize_tuple
materialize-read_all [] rs = refl
materialize-read_all (k ∷ ks) [] = refl
materialize-read_all (k ∷ ks) (r ∷ rs) =
    ap (λ x. cons? x (materialize_tuple ks (contents ks rs))) (materialize-read_one k r)
    ∙ ap (cons? (read_one k r)) (materialize-read_all ks rs)
    ∙ cons?-elim (read_one k r) (read_all ks rs)

map-elim :
    {V : Type 0} (i : ℕ) (o : Option (List (Stored V)))
    → Option.map {B = Outcome (ℕ × List (Stored V))} (λ out. returns (i, out)) o
      ≡ elim o [ none ↦ none | some out ↦ some (returns (i, out)) ]
map-elim i none = refl
map-elim i (some out) = refl

result-any_outcome :
    {V : Type 0} (ks : List Kind) (rs : List (Runner V)) (st : State V) (x : Option Exception)
    → st.ex ≡ x
    → st.results ≡ contents ks rs
    → when_any_result ks st ≡ any_outcome ks x st.index rs
unfolding when_any_result
result-any_outcome ks rs st none e s =
    rw (e, await_resume) (rw (s, materialize-read_all ks rs) (map-elim st.index (read_all ks rs)))
result-any_outcome ks rs st (some y) e s = rw (e, await_resume) refl

module _ {G V : Type 0} (ks : List Kind) (h : Handle) (rs : List Handle) (sched : Scheduler G) where
  -- `when_any` posts the awaiting coroutine when the first runner reports, and once: in whatever
  -- order the tasks complete and the runners report, the scheduler's handles are those after the
  -- start of the runners, followed by the awaiting coroutine if the race is decided, which it is
  -- exactly when some runner has reported, and then the runner at the winning index has.
  pub exec-resumed_any :
      (es : List (Event V))
      → h == null ≡ false
      → let w = exec ks (await_suspend {V = V} ks h rs sched) es in
        (w.sched.handle_q ≡ (start_all rs sched).handle_q ++ (if w.st.done then h ∷ [] else []))
        × (w.inline ≡ [])
        × Decided w.st.done w.runners w.st.index
  exec-resumed_any es real =
      let v =
        exec-Inv ks h (start_all rs sched).handle_q real (await_suspend ks h rs sched) es
          (init-Inv ks h rs sched) in
      let w = exec ks (await_suspend {V = V} ks h rs sched) es in
      (v.resumed, v.direct, decide w.st.done w.runners w.st.index v.nobody v.winner)

  -- What `when_any` gives if it is resumed after the events. If any task has thrown by then, the
  -- winner or not, it throws what the first such task threw. If none has and every task with a value
  -- has returned, it gives the winning index and the values of all the tasks, monostate for void. If
  -- none has thrown and some task with a value has not completed, it reads an empty slot, which has
  -- no defined meaning.
  pub when_any_result-exec :
      (es : List (Event V))
      → h == null ≡ false
      → let w = exec ks (await_suspend {V = V} ks h rs sched) es in
        when_any_result ks w.st
        ≡ any_outcome ks
            (first_of none (failures ks (await_suspend ks h rs sched) es))
            w.st.index
            w.runners
  unfolding failures await_suspend
  when_any_result-exec es real =
      let w0 = await_suspend ks h rs sched in
      let v = exec-Inv ks h (start_all rs sched).handle_q real w0 es (init-Inv ks h rs sched) in
      result-any_outcome ks (exec ks w0 es).runners (exec ks w0 es).st
        (first_of none (failures ks w0 es)) (exec-ex ks w0 es) v.stored
