-- ===== src/When/All/Laws.antt =====
-- The invariant of `when_all` of when.hpp, in whatever order its tasks complete and its runners
-- report.
use cnerium.Prelude.{
  ℕ, zero, suc, ◌^◌, ◌<◌, ◌≡◌, refl, sym, ap, ◌∙◌, true, false, Option, none, some, List, [], ◌∷◌,
  ◌++◌, length, get_elem?, replicate, total, total-set, length-set, length-replicate, arith, ◌==◌,
  if◌then◌else◌, append-nil,
}
use cnerium.Error.{Outcome}
use cnerium.Scheduler.{Handle, null, Scheduler, post_handle}
use cnerium.When.{Kind, Runner, awaiting, settled, finished, settle_slots, capture, start_all}
use cnerium.When.Slots.{
  contents, contents-settle, contents-finish, contents-replicate, failing, unreported,
}
use cnerium.When.All.{
  World, Event, settles, reports, await_suspend, settle_runner, report_runner, step, exec,
}

-- The scheduler's handles `q` grow by the continuation `h` exactly when all of at least one runner
-- have reported.
abbrev pub posted : Handle → ℕ → List Handle
posted h open_ = if open_ == 0 then h ∷ [] else []

pub record Inv {G V : Type 0} (ks : List Kind) (h : Handle) (q : List Handle) (w : World G V)
    : Type 0 where
  pub some_task : 0 < length ks
  pub few : length ks < 2 ^ 64
  pub paired : length ks ≡ length w.runners
  pub to_sched : w.st.has_sched ≡ true
  pub cont_of : w.st.cont ≡ h
  pub counted : w.st.remaining ≡ total unreported w.runners
  pub bounded : w.st.remaining < 2 ^ 64
  pub stored : w.st.results ≡ contents ks w.runners
  pub clean : w.st.first_ex ≡ none → total failing w.runners ≡ 0
  pub direct : w.inline ≡ []
  pub resumed : w.sched.handle_q ≡ q ++ posted h w.st.remaining

module _ {G V : Type 0} (ks : List Kind) (h : Handle) (q : List Handle)
    (h_real : h == null ≡ false) where
  settle-Inv :
      (w : World G V) (i : ℕ) (o : Outcome V) (r : Option (Runner V))
      → get_elem? w.runners i ≡ r
      → Inv ks h q w
      → Inv ks h q (settle_runner ks w i o r)
  unfolding settle_runner capture
  settle-Inv w i o none e v = v
  settle-Inv w i o (some awaiting) e v = record {
    some_task = v.some_task;
    few = v.few;
    paired = v.paired ∙ sym (length-set w.runners i (settled o));
    to_sched = v.to_sched;
    cont_of = v.cont_of;
    counted = omega (arith, v.counted, total-set unreported w.runners i (settled o) e);
    bounded = v.bounded;
    stored = ap (settle_slots ks i o) v.stored ∙ contents-settle ks w.runners i o v.paired e;
    clean = ground (arith, total-set failing w.runners i (settled o) e);
    direct = v.direct;
    resumed = v.resumed;
  }
  settle-Inv w i o (some (settled p)) e v = v
  settle-Inv w i o (some (finished p)) e v = v

  report-Inv :
      (w : World G V) (i : ℕ) (r : Option (Runner V))
      → get_elem? w.runners i ≡ r
      → Inv ks h q w
      → Inv ks h q (report_runner w i r)
  unfolding report_runner post_handle
  report-Inv w i none e v = v
  report-Inv w i (some awaiting) e v = v
  report-Inv w i (some (finished p)) e v = v
  report-Inv w i (some (settled o)) e v = record {
    some_task = v.some_task;
    few = v.few;
    paired = ground (arith, length-set w.runners i (finished o));
    to_sched = ground arith;
    cont_of = ground arith;
    counted = ground (arith, total-set unreported w.runners i (finished o) e);
    bounded = ground arith;
    stored = ground (arith, contents-finish ks w.runners i o e);
    clean = ground (arith, total-set failing w.runners i (finished o) e);
    direct = ground arith;
    resumed = ground (arith, total-set unreported w.runners i (finished o) e, append-nil q);
  }

  step-Inv : (w : World G V) (e : Event V) → Inv ks h q w → Inv ks h q (step ks w e)
  unfolding step
  step-Inv w (settles i o) v = settle-Inv w i o (get_elem? w.runners i) refl v
  step-Inv w (reports i) v = report-Inv w i (get_elem? w.runners i) refl v

  pub exec-Inv : (w : World G V) (es : List (Event V)) → Inv ks h q w → Inv ks h q (exec ks w es)
  unfolding exec
  exec-Inv w [] v = v
  exec-Inv w (e ∷ es) v = exec-Inv (step ks w e) es (step-Inv w e v)

unreported-replicate :
    (V : Type 0) (n : ℕ) → total unreported (replicate {A = Runner V} n awaiting) ≡ n
unreported-replicate V zero = refl
unreported-replicate V (suc n) = omega (arith, unreported-replicate V n)

failing-replicate : (V : Type 0) (n : ℕ) → total failing (replicate {A = Runner V} n awaiting) ≡ 0
failing-replicate V zero = refl
failing-replicate V (suc n) = omega (arith, failing-replicate V n)

module _ {G V : Type 0} where
  pub init-Inv :
      (ks : List Kind) (h : Handle) (rs : List Handle) (sched : Scheduler G)
      → 0 < length ks
      → length ks < 2 ^ 64
      → Inv {G = G} {V = V} ks h (start_all rs sched).handle_q (await_suspend ks h rs sched)
  unfolding await_suspend
  init-Inv ks h rs sched some_task few = record {
    some_task = some_task;
    few = few;
    paired = sym (length-replicate {A = Runner V} (length ks) awaiting);
    to_sched = refl;
    cont_of = refl;
    counted = sym (unreported-replicate V (length ks));
    bounded = few;
    stored = sym (contents-replicate ks);
    clean = λ e. failing-replicate V (length ks);
    direct = refl;
    resumed = ground (arith, append-nil (start_all rs sched).handle_q);
  }
