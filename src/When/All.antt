-- ===== src/When/All.antt =====
-- when.hpp: the state of `when_all`, its runners and its awaitable.
pub mod Laws
pub mod Result
pub mod Turns
use cnerium.Prelude.{
  ℕ, ◌+◌, ◌-◌, ◌%◌, ◌^◌, ◌≡◌, Bool, true, false, Option, none, some, List, [], ◌∷◌, ◌++◌, length,
  get_elem?, set, replicate, ◌==◌, if◌then◌else◌,
}
use mathlib.Core.Option
use cnerium.Error.{Exception, Outcome, throws, returns}
use cnerium.Scheduler.{Handle, null, Scheduler, post_handle}
use cnerium.When.{
  Kind, Stored, Slot, Runner, awaiting, settled, finished, settle_slots, capture, materialize_tuple,
  start_all,
}

pub record State (V : Type 0) : Type 0 where
  pub has_sched : Bool
  pub remaining : ℕ  -- size_t
  pub cont : Handle
  pub first_ex : Option Exception
  pub results : List (Slot V)

-- The state that the runners share, with the runners, the scheduler, and the coroutines that were
-- resumed directly for want of one.
pub record World (G V : Type 0) : Type 0 where
  pub st : State V
  pub runners : List (Runner V)
  pub sched : Scheduler G
  pub inline : List Handle

pub data Event (V : Type 0) : Type 0 where
  -- the task of a runner completes, and the runner leaves its `try` block
  settles : ℕ → Outcome V → Event V
  -- the runner counts itself out
  reports : ℕ → Event V

module _ {G V : Type 0} where
  -- `await_suspend`, for the awaiting coroutine `h` and the runners' handles `rs`.
  unfoldable pub await_suspend : List Kind → Handle → List Handle → Scheduler G → World G V
  unfolding start_all
  await_suspend ks h rs sched = record {
    st = record {
      has_sched = true;
      remaining = length ks;
      cont = h;
      first_ex = none;
      results = replicate (length ks) none;
    };
    runners = replicate (length ks) awaiting;
    sched = start_all rs sched;
    inline = [];
  }

  settle_runner : List Kind → World G V → ℕ → Outcome V → Option (Runner V) → World G V
  settle_runner ks w i o (some awaiting) = record w {
    st = record w.st {
      first_ex = capture w.st.first_ex o;
      results = settle_slots ks i o w.st.results;
    };
    runners = set w.runners i (settled o);
  }
  settle_runner ks w i o _ = w

  -- `post_handle(st->cont)`, or `st->cont.resume()` where there is no scheduler.
  resume : World G V → World G V
  unfolding post_handle
  resume w =
      if w.st.has_sched
      then record w { sched = post_handle w.sched w.st.cont }
      else if w.st.cont == null
      then w
      else record w { inline = w.inline ++ w.st.cont ∷ [] }

  -- `fetch_sub(1)`, and what follows if the old value was 1.
  count_out : World G V → World G V
  unfolding resume
  count_out w =
      let w' = record w {
        st = record w.st { remaining = (w.st.remaining + (2 ^ 64 - 1)) % 2 ^ 64 };
      } in
      if w.st.remaining == 1 then resume w' else w'

  report_runner : World G V → ℕ → Option (Runner V) → World G V
  unfolding count_out
  report_runner w i (some (settled o)) =
      count_out (record w { runners = set w.runners i (finished o) })
  report_runner w i _ = w

  unfoldable pub step : List Kind → World G V → Event V → World G V
  unfolding settle_runner report_runner
  step ks w (settles i o) = settle_runner ks w i o (get_elem? w.runners i)
  step ks w (reports i) = report_runner w i (get_elem? w.runners i)

  unfoldable pub exec : List Kind → World G V → List (Event V) → World G V
  exec ks w [] = w
  exec ks w (e ∷ es) = exec ks (step ks w e) es

module _ {V : Type 0} where
  -- `await_resume`: `none` where it would read an empty slot.
  unfoldable pub await_resume : List Kind → State V → Option (Outcome (List (Stored V)))
  unfolding materialize_tuple
  await_resume ks st = elim st.first_ex [
    | some e ↦ some (throws e)
    | none ↦ Option.map returns (materialize_tuple ks st.results)
  ]
