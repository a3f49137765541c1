-- ===== src/When/All/Turns.antt =====
-- `when_all` of when.hpp with the loop of `run` of scheduler.hpp, which resumes the coroutines that its
-- runners and others post.
pub mod Resumed
use cnerium.Prelude.{
  ℕ, ◌+◌, ◌^◌, ◌<◌, ◌≡◌, refl, sym, ap, ◌∙◌, Bool, true, false, Option, none, some, List, [], ◌∷◌,
  ◌++◌, length, is_empty, get_elem?, replicate, total, total-append, arith, Bool-cases, inl, inr,
  ◌==◌, if◌then◌else◌,
}
use cnerium.Error.{Outcome}
use cnerium.Scheduler
use cnerium.Scheduler.{Handle, null, Scheduler, post_handle, pending}
use cnerium.Scheduler.Order.{Unstopped, posted_handles}
use cnerium.When.{Kind, Runner, awaiting, settled, finished, start_all}
use cnerium.When.Slots.{unreported}
use cnerium.When.Turns.{
  Poster, Turn, of_tasks, of_sched, task_events, sched_events, post_if, alone, run,
}
use cnerium.When.Turns.Open.{IsOpen, start_all-IsOpen}
use cnerium.When.Turns.Beside.{run-Beside, run-drained}
use cnerium.When.All.{
  World, Event, settles, reports, await_suspend, settle_runner, report_runner, step, exec,
}
use cnerium.When.All.Laws.{posted, init-Inv, exec-Inv}

module _ {G V : Type 0} where
  -- Whether an event is the report of the last runner.
  abbrev counts_last : World G V → Option (Runner V) → Bool
  counts_last w (some (settled o)) = w.st.remaining == 1
  counts_last w _ = false

  abbrev is_last : World G V → Event V → Bool
  is_last w (settles i o) = false
  is_last w (reports i) = counts_last w (get_elem? w.runners i)

  -- The runners only ever post to the scheduler, and only at the last report.
  pub record Posts (w u : World G V) (b : Bool) : Type 0 where
    pub bound : u.st.has_sched ≡ true
    pub posted_ : u.sched ≡ post_if b w.sched w.st.cont

  report-Posts :
      (w : World G V) (i : ℕ) (r : Option (Runner V))
      → w.st.has_sched ≡ true
      → Posts w (report_runner w i r) (counts_last w r)
  unfolding report_runner
  report-Posts w i none h = record { bound = h; posted_ = refl }
  report-Posts w i (some awaiting) h = record { bound = h; posted_ = refl }
  report-Posts w i (some (finished o)) h = record { bound = h; posted_ = refl }
  report-Posts w i (some (settled o)) h = elim (Bool-cases (w.st.remaining == 1)) [
    | inl last ↦ rw (last, h) (record { bound = refl; posted_ = refl })
    | inr more ↦ rw more (record { bound = h; posted_ = refl })
  ]

  settle-Posts :
      (ks : List Kind) (w : World G V) (i : ℕ) (o : Outcome V) (r : Option (Runner V))
      → w.st.has_sched ≡ true
      → Posts w (settle_runner ks w i o r) false
  unfolding settle_runner
  settle-Posts ks w i o (some awaiting) h = record { bound = h; posted_ = refl }
  settle-Posts ks w i o _ h = record { bound = h; posted_ = refl }

  pub step-Posts :
      (ks : List Kind) (w : World G V) (e : Event V)
      → w.st.has_sched ≡ true
      → Posts w (step ks w e) (is_last w e)
  unfolding step
  step-Posts ks w (settles i o) h = settle-Posts ks w i o (get_elem? w.runners i) h
  step-Posts ks w (reports i) h = report-Posts w i (get_elem? w.runners i) h

  report-put :
      (w : World G V) (s : Scheduler G) (i : ℕ) (r : Option (Runner V))
      → w.st.has_sched ≡ true
      → report_runner (record w { sched = s }) i r
        ≡ record (report_runner w i r) { sched = post_if (counts_last w r) s w.st.cont }
  unfolding report_runner
  report-put w s i none h = refl
  report-put w s i (some awaiting) h = refl
  report-put w s i (some (finished o)) h = refl
  report-put w s i (some (settled o)) h = elim (Bool-cases (w.st.remaining == 1)) [
    | inl last ↦ rw (last, h) refl
    | inr more ↦ rw more refl
  ]

  settle-put :
      (ks : List Kind) (w : World G V) (s : Scheduler G) (i : ℕ) (o : Outcome V)
      (r : Option (Runner V))
      → settle_runner ks (record w { sched = s }) i o r
        ≡ record (settle_runner ks w i o r) { sched = s }
  unfolding settle_runner
  settle-put ks w s i o (some awaiting) = refl
  settle-put ks w s i o (some (settled p)) = refl
  settle-put ks w s i o (some (finished p)) = refl
  settle-put ks w s i o none = refl

  pub step-put :
      (ks : List Kind) (w : World G V) (s : Scheduler G) (e : Event V)
      → w.st.has_sched ≡ true
      → step ks (record w { sched = s }) e
        ≡ record (step ks w e) { sched = post_if (is_last w e) s w.st.cont }
  unfolding step
  step-put ks w s (settles i o) h = settle-put ks w s i o (get_elem? w.runners i)
  step-put ks w s (reports i) h = report-put w s i (get_elem? w.runners i) h

abbrev pub runners : (G V : Type 0) → List Kind → Poster G
runners G V ks = record {
  World = World G V;
  Event = Event V;
  IsBound = λ w. w.st.has_sched ≡ true;
  sched = λ w. w.sched;
  put = λ w s. record w { sched = s };
  cont = λ w. w.st.cont;
  posts = is_last;
  step = step ks;
  sched_put = λ w s. refl;
  put_again = λ w s t. refl;
  step_bound = λ w e h. (step-Posts ks w e h).bound;
  step_sched = λ w e h. (step-Posts ks w e h).posted_;
  step_put = λ w s e h. step-put ks w s e h;
}
