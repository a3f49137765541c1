-- ===== src/When/Any.antt =====
-- when.hpp: the state of `when_any`, its runners, its awaitable and its result.
pub mod Laws
pub mod Result
pub mod Turns
use mathlib.Core.Option
use cnerium.Prelude.{
  ℕ, ◌-◌, ◌^◌, ◌≡◌, Bool, true, false, Option, none, some, List, [], ◌∷◌, ◌++◌, length, get_elem?,
  set, replicate, ◌==◌, if◌then◌else◌,
}
use cnerium.Error.{Exception, Outcome, throws, returns}
use cnerium.Scheduler.{Handle, null, Scheduler, post_handle}
use cnerium.When.{
  Kind, Stored, Slot, Runner, awaiting, settled, finished, settle_slots, capture, materialize_tuple,
  start_all,
}

pub record State (V : Type 0) : Type 0 where
  pub has_sched : Bool
  pub done : Bool
  pub cont : Handle
  pub ex : Option Exception
  pub index : ℕ  -- size_t
  pub results : List (Slot V)

pub record World (G V : Type 0) : Type 0 where
  pub st : State V
  pub runners : List (Runner V)
  pub sched : Scheduler G
  pub inline : List Handle

pub data Event (V : Type 0) : Type 0 where
  -- the task of a runner completes, and the runner leaves its `try` block
  settles : ℕ → Outcome V → Event V
  -- the runner tries to win
  reports : ℕ → Event V

module _ {G V : Type 0} where
  -- `await_suspend`, for the awaiting coroutine `h` and the runners' handles `rs`.
  unfoldable pub await_suspend : List Kind → Handle → List Handle → Scheduler G → World G V
  await_suspend ks h rs sched = record {
    st = record {
      has_sched = true;
      done = false;
      cont = h;
      ex = none;
      index = 2 ^ 64 - 1;
      results = replicate (length ks) none;
    };
    runners = replicate (length ks) awaiting;
    sched = start_all rs sched;
    inline = [];
  }

  settle_runner : List Kind → World G V → ℕ → Outcome V → Option (Runner V) → World G V
  settle_runner ks w i o (some awaiting) = record w {
    st = record w.st { ex = capture w.st.ex o; results = settle_slots ks i o w.st.results };
    runners = set w.runners i (settled o);
  }
  settle_runner ks w i o _ = w

  resume : World G V → World G V
  unfolding post_handle
  resume w =
      if w.st.has_sched
      then record w { sched = post_handle w.sched w.st.cont }
      else if w.st.cont == null
      then w
      else record w { inline = w.inline ++ w.st.cont ∷ [] }

  -- `compare_exchange_strong(false, true)`, and what follows if it succeeds.
  win : ℕ → World G V → World G V
  unfolding resume
  win i w =
      if w.st.done then w else resume (record w { st = record w.st { done = true; index = i } })

  report_runner : World G V → ℕ → Option (Runner V) → World G V
  unfolding win
  report_runner w i (some (settled o)) = win i (record w { runners = set w.runners i (finished o) })
  report_runner w i _ = w

  unfoldable pub step : List Kind → World G V → Event V → World G V
  unfolding settle_runner report_runner
  step ks w (settles i o) = settle_runner ks w i o (get_elem? w.runners i)
  step ks w (reports i) = report_runner w i (get_elem? w.runners i)

  unfoldable pub exec : List Kind → World G V → List (Event V) → World G V
  exec ks w [] = w
  exec ks w (e ∷ es) = exec ks (step ks w e) es

module _ {V : Type 0} where
  -- `await_resume`: the index and the raw slots.
  unfoldable pub await_resume : State V → Outcome (ℕ × List (Slot V))
  await_resume st = elim st.ex [ some e ↦ throws e | none ↦ returns (st.index, st.results) ]

  -- The end of `when_any`: `none` where it reads an empty slot.
  finish_any : List Kind → Outcome (ℕ × List (Slot V)) → Option (Outcome (ℕ × List (Stored V)))
  finish_any ks (throws e) = some (throws e)
  finish_any ks (returns (i, raw)) = Option.map (λ out. returns (i, out)) (materialize_tuple ks raw)

  unfoldable pub when_any_result : List Kind → State V → Option (Outcome (ℕ × List (Stored V)))
  unfolding finish_any await_resume
  when_any_result ks st = finish_any ks (await_resume st)
