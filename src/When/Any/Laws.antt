-- ===== src/When/Any/Laws.antt =====
-- The invariant of `when_any` of when.hpp, in whatever order its tasks complete and its runners
-- report.
use cnerium.Prelude.{
  ℕ, zero, suc, ◌≡◌, refl, sym, ap, ◌∙◌, Bool, true, false, Option, none, some, List, [], ◌∷◌, ◌++◌,
  length, get_elem?, set, replicate, total, total-set, length-set, length-replicate,
  get_elem?-set_self, get_elem?-lt, arith, ◌==◌, if◌then◌else◌, append-nil,
}
use cnerium.Error.{Outcome}
use cnerium.Scheduler.{Handle, null, Scheduler, post_handle}
use cnerium.When.{Kind, Runner, awaiting, settled, finished, settle_slots, capture, start_all}
use cnerium.When.Slots.{contents, contents-settle, contents-finish, contents-replicate, failing}
use cnerium.When.Any.{
  World, Event, settles, reports, await_suspend, settle_runner, report_runner, step, exec,
}

-- The runners that have reported.
abbrev pub reported : {V : Type 0} → Runner V → ℕ
reported (finished o) = 1
reported _ = 0

-- The runner at an index has reported.
abbrev pub HasReported : {V : Type 0} → List (Runner V) → ℕ → Type 0
HasReported {V} rs i = (o : Outcome V) × (get_elem? rs i ≡ some (finished o))

pub record Inv {G V : Type 0} (ks : List Kind) (h : Handle) (q : List Handle) (w : World G V)
    : Type 0 where
  pub paired : length ks ≡ length w.runners
  pub to_sched : w.st.has_sched ≡ true
  pub cont_of : w.st.cont ≡ h
  pub stored : w.st.results ≡ contents ks w.runners
  pub clean : w.st.ex ≡ none → total failing w.runners ≡ 0
  pub direct : w.inline ≡ []
  pub nobody : w.st.done ≡ false → total reported w.runners ≡ 0
  pub winner : w.st.done ≡ true → HasReported w.runners w.st.index
  pub resumed : w.sched.handle_q ≡ q ++ (if w.st.done then h ∷ [] else [])

module _ {V : Type 0} where
  option_weight : Option (Runner V) → ℕ
  option_weight none = 0
  option_weight (some r) = reported r

  HasReported-set :
      (rs : List (Runner V)) (i j : ℕ) (r r' : Runner V)
      → get_elem? rs j ≡ some r
      → reported r ≡ 0
      → HasReported rs i
      → HasReported (set rs j r') i
  unfolding option_weight
  HasReported-set [] i j r r' e k (o, f) = cc
  HasReported-set (x ∷ rs) zero zero r r' e k (o, f) =
      absurd (omega (arith, ap option_weight (sym e ∙ f)))
  HasReported-set (x ∷ rs) zero (suc j) r r' e k (o, f) = (o, f)
  HasReported-set (x ∷ rs) (suc i) zero r r' e k (o, f) = (o, f)
  HasReported-set (x ∷ rs) (suc i) (suc j) r r' e k p = HasReported-set rs i j r r' e k p

module _ {G V : Type 0} (ks : List Kind) (h : Handle) (q : List Handle)
    (h_real : h == null ≡ false) where
  settle-Inv :
      (w : World G V) (i : ℕ) (o : Outcome V) (r : Option (Runner V))
      → get_elem? w.runners i ≡ r
      → Inv ks h q w
      → Inv ks h q (settle_runner ks w i o r)
  unfolding settle_runner capture
  settle-Inv w i o none e v = v
  settle-Inv w i o (some awaiting) e v = record {
    paired = v.paired ∙ sym (length-set w.runners i (settled o));
    to_sched = v.to_sched;
    cont_of = v.cont_of;
    stored = ap (settle_slots ks i o) v.stored ∙ contents-settle ks w.runners i o v.paired e;
    clean = ground (arith, total-set failing w.runners i (settled o) e);
    direct = v.direct;
    nobody = ground (arith, total-set reported w.runners i (settled o) e);
    winner = λ d. HasReported-set w.runners w.st.index i awaiting (settled o) e refl (v.winner d);
    resumed = v.resumed;
  }
  settle-Inv w i o (some (settled p)) e v = v
  settle-Inv w i o (some (finished p)) e v = v

  report-runners :
      (w : World G V) (i : ℕ) (o : Outcome V)
      → ((report_runner w i (some (settled o))).runners ≡ set w.runners i (finished o))
        × (w.st.done ≡ true → (report_runner w i (some (settled o))).st.index ≡ w.st.index)
        × (w.st.done ≡ false → (report_runner w i (some (settled o))).st.index ≡ i)
  unfolding report_runner
  report-runners w i o = (ground arith, λ d. ground arith, λ d. ground arith)

  report-winner :
      (w : World G V) (i : ℕ) (o : Outcome V) (b : Bool)
      → w.st.done ≡ b
      → get_elem? w.runners i ≡ some (settled o)
      → Inv ks h q w
      → HasReported
          (report_runner w i (some (settled o))).runners
          (report_runner w i (some (settled o))).st.index
  report-winner w i o true d e v =
      let (rs, keeps, _) = report-runners w i o in
      rw (rs, keeps d)
        (HasReported-set w.runners w.st.index i (settled o) (finished o) e refl (v.winner d))
  report-winner w i o false d e v =
      let (rs, _, wins) = report-runners w i o in
      rw (rs, wins d) (o, get_elem?-set_self w.runners i (finished o) (get_elem?-lt w.runners i e))

  report-Inv :
      (w : World G V) (i : ℕ) (r : Option (Runner V))
      → get_elem? w.runners i ≡ r
      → Inv ks h q w
      → Inv ks h q (report_runner w i r)
  unfolding report_runner post_handle
  report-Inv w i none e v = v
  report-Inv w i (some awaiting) e v = v
  report-Inv w i (some (finished p)) e v = v
  report-Inv w i (some (settled o)) e v = record {
    paired = ground (arith, length-set w.runners i (finished o));
    to_sched = ground arith;
    cont_of = ground arith;
    stored = ground (arith, contents-finish ks w.runners i o e);
    clean = ground (arith, total-set failing w.runners i (finished o) e);
    direct = ground arith;
    nobody = ground arith;
    winner = λ d. report-winner w i o w.st.done refl e v;
    resumed = ground (arith, append-nil q);
  }

  step-Inv : (w : World G V) (e : Event V) → Inv ks h q w → Inv ks h q (step ks w e)
  unfolding step
  step-Inv w (settles i o) v = settle-Inv w i o (get_elem? w.runners i) refl v
  step-Inv w (reports i) v = report-Inv w i (get_elem? w.runners i) refl v

  pub exec-Inv : (w : World G V) (es : List (Event V)) → Inv ks h q w → Inv ks h q (exec ks w es)
  unfolding exec
  exec-Inv w [] v = v
  exec-Inv w (e ∷ es) v = exec-Inv (step ks w e) es (step-Inv w e v)

failing-replicate : (V : Type 0) (n : ℕ) → total failing (replicate {A = Runner V} n awaiting) ≡ 0
failing-replicate V zero = refl
failing-replicate V (suc n) = omega (arith, failing-replicate V n)

reported-replicate : (V : Type 0) (n : ℕ) → total reported (replicate {A = Runner V} n awaiting) ≡ 0
reported-replicate V zero = refl
reported-replicate V (suc n) = omega (arith, reported-replicate V n)

pub init-Inv :
    {G V : Type 0} (ks : List Kind) (h : Handle) (rs : List Handle) (sched : Scheduler G)
    → Inv {G = G} {V = V} ks h (start_all rs sched).handle_q (await_suspend ks h rs sched)
unfolding await_suspend
init-Inv {V} ks h rs sched = record {
  paired = sym (length-replicate {A = Runner V} (length ks) awaiting);
  to_sched = refl;
  cont_of = refl;
  stored = sym (contents-replicate ks);
  clean = λ e. failing-replicate V (length ks);
  direct = refl;
  nobody = λ d. reported-replicate V (length ks);
  winner = λ d. cc;
  resumed = sym (append-nil (start_all rs sched).handle_q);
}
