-- ===== src/When/Turns/Beside.antt =====
-- What runs beside the loop of scheduler.hpp goes on as it does alone, and what it posts is resumed once.
use cnerium.Prelude.{
  ℕ, zero, suc, ◌+◌, ◌≡◌, refl, sym, ap, ◌∙◌, true, List, [], ◌∷◌, ◌++◌, total, total-append,
  append_assoc, replicate, arith,
}
use mathlib.Core.Path.{subst}
use cnerium.Scheduler
use cnerium.Scheduler.{Handle, Scheduler, pending}
use cnerium.Scheduler.Order.{
  Unstopped, Unstopped-cons, resumed, resumed-append, posted_handles, posted_handles-cons,
  step-conserves,
}
use cnerium.Scheduler.Resumed.{step-weight, turns-resumed}
use cnerium.When.Turns.{
  Poster, Turn, of_tasks, of_sched, task_events, sched_events, post_if, alone, take, run,
}
use cnerium.When.Turns.Open.{IsOpen, post_if-IsOpen, post_if-weight}

module _ {G : Type 0} (p : Poster G) (v : Handle → ℕ) where
  open p use {
    World, Event, IsBound, sched, put, cont, posts, step, sched_put, put_again, step_bound,
    step_sched, step_put,
  }

  -- The run with the loop, on a scheduler of its own, beside the one alone from `w` to `w'`: the state is
  -- the same but for the scheduler, and the coroutines that the loop took are those that wait no more.
  pub record Beside (w w' : World) (s : Scheduler G) (es : List (Turn Event G))
      (r : World × List Handle) : Type 0 where
    pub same : r.0 ≡ put w' (sched r.0)
    pub balance :
        total v r.1 + total v (sched r.0).handle_q + total v (sched w).handle_q
        ≡ total v s.handle_q
          + total v (sched w').handle_q
          + total v (posted_handles (sched_events es))
    pub open_ : IsOpen (sched r.0)

  pub run-Beside :
      (w : World) (s : Scheduler G) (es : List (Turn Event G))
      → IsBound w
      → IsOpen s
      → Unstopped (sched_events es)
      → Beside w (alone p w (task_events es)) s es (run p (put w s) es)
  unfolding run alone
  run-Beside w s [] h o k = record {
    same = ap (put w) (sym (sched_put w s));
    balance = omega (arith, ap (λ t. total v t.handle_q) (sched_put w s));
    open_ = subst IsOpen (sym (sched_put w s)) o;
  }
  run-Beside w s (of_tasks e ∷ es) h o k =
      let s' = post_if (posts w e) s (cont w) in
      let later =
        run-Beside (step w e) s' es (step_bound w e h) (post_if-IsOpen (posts w e) s (cont w) o)
          k in
      let here = post_if-weight v (posts w e) s (sched w) (cont w) in
      rw (step_put w s e h) (record {
        same = later.same;
        balance =
            omega (arith, later.balance, here, ap (λ t. total v t.handle_q) (step_sched w e h));
        open_ = later.open_;
      })
  run-Beside w s (of_sched e ∷ es) h o k =
      let (go, rest) = Unstopped-cons e (sched_events es) k in
      let (_, _, n, u) = step-conserves s e o.open_ o.real go in
      let (s', work) = Scheduler.step s e in
      let later = run-Beside w s' es h (record { real = n; open_ = u }) rest in
      rw (sched_put w s, put_again w s s')
        (record {
          same = later.same;
          balance = omega (
            arith,
            later.balance,
            step-weight v s e o.open_ o.real go,
            total-append v (resumed work) (run p (put w s') es).1,
            ap (total v) (posted_handles-cons e (sched_events es))
                ∙ total-append v (posted_handles (e ∷ [])) (posted_handles (sched_events es)),
          );
          open_ = later.open_;
        })

  run-append :
      (w : World) (es es' : List (Turn Event G))
      → (run p w (es ++ es')).1 ≡ (run p w es).1 ++ (run p (run p w es).0 es').1
  unfolding run
  run-append w [] es' = refl
  run-append w (e ∷ es) es' =
      ap (λ l. (take p w e).1 ++ l) (run-append (take p w e).0 es es')
      ∙ sym (append_assoc (take p w e).1 (run p (take p w e).0 es).1 _)

  -- Turns alone are those of the scheduler.
  run-turns :
      (n : ℕ) (w : World) (s : Scheduler G)
      → (run p (put w s) (replicate n (of_sched Scheduler.Event.turns))).1
        ≡ resumed (Scheduler.exec s (replicate n Scheduler.Event.turns)).1
  unfolding run Scheduler.exec
  run-turns zero w s = refl
  run-turns (suc n) w s =
      let (s', work) = Scheduler.step s Scheduler.Event.turns in
      rw (sched_put w s, put_again w s s')
        (ap (λ l. resumed work ++ l) (run-turns n w s') ∙ sym (resumed-append work _))

  -- A loop that is running resumes what waits in as many turns as items are queued.
  pub run-drained :
      (w w' : World) (s : Scheduler G) (es : List (Turn Event G))
      → Beside w w' s es (run p (put w s) es)
      → (sched (run p (put w s) es).0).running ≡ true
      → total v
            (run p (put w s) (
              es
              ++ replicate
                  (pending (sched (run p (put w s) es).0))
                  (of_sched Scheduler.Event.turns))).1
          + total v (sched w).handle_q
        ≡ total v s.handle_q
          + total v (sched w').handle_q
          + total v (posted_handles (sched_events es))
  run-drained w w' s es b r =
      let t = (run p (put w s) es).0 in
      let n = pending (sched t) in
      let turns : List (Turn Event G) = replicate n (of_sched Scheduler.Event.turns) in
      let last : (run p t turns).1 ≡ (sched t).handle_q =
        ap (λ x. (run p x turns).1) b.same
        ∙ run-turns n w' (sched t)
        ∙ turns-resumed (sched t) b.open_.real r b.open_.open_ in
      omega (
        arith,
        b.balance,
        ap (total v) (run-append (put w s) es turns)
            ∙ total-append v (run p (put w s) es).1 (run p t turns).1,
        ap (total v) last,
      )
