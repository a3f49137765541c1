-- ===== src/Timer/Fifo/Line.antt =====
-- The order in which timer.cpp handles jobs with equal deadlines.
use cnerium.Prelude.{
  All-mono, ℕ, ◌+◌, ◌^◌, ◌<◌, ◌≡◌, refl, sym, ap, ◌∙◌, true, false, ◌||◌, none, some, List, [], ◌∷◌,
  ◌++◌, append-nil, append_assoc, arith, ◌==◌, if◌then◌else◌, append_chain,
}
use cnerium.Cancel.{CancelToken}
use cnerium.Timer.{
  Entry, Timer, Loop, at_head, aiming, sleeping, firing, posting, ended, Fate, fires, cancels,
  clears, World, Event, schedules, stops, passes, moves, insert, cmp, schedule, step, exec, init,
}
use cnerium.Timer.Firing.{Unstopped}
use cnerium.Timer.Fifo.{
  job_at, jobs_at, held_at, handled_at, scheduled_at, schedulings, Leads, Numbered, HoldsFirst,
  InOrder,
}
use cnerium.Timer.Fifo.Queue.{
  All-insert, Strict-insert, jobs_at-insert_new, Numbered-apart, lt-Leads,
}
use cnerium.Timer.Fifo.Moves.{loop-Keeps}

module _ {J : Type 0} where
  HoldsFirst-insert :
      (seq : ℕ) (e : Entry J) (q : List (Entry J)) (l : Loop J)
      → seq < e.id
      → HoldsFirst seq q l
      → HoldsFirst e.id (insert e q) l
  HoldsFirst-insert seq e q (aiming n) h (l, k) =
      (All-insert (Leads n) e q (lt-Leads n e (omega arith)) l, omega arith)
  HoldsFirst-insert seq e q (sleeping n) h (l, k) =
      (All-insert (Leads n) e q (lt-Leads n e (omega arith)) l, omega arith)
  HoldsFirst-insert seq e q at_head h l = tt
  HoldsFirst-insert seq e q (firing n) h l = tt
  HoldsFirst-insert seq e q (posting n) h l = tt
  HoldsFirst-insert seq e q ended h l = tt

  -- A new entry, with a number above all that were given.
  insert-InOrder :
      (seq : ℕ) (e : Entry J) (q : List (Entry J)) (l : Loop J)
      → seq < e.id
      → InOrder seq q l
      → InOrder e.id (insert e q) l
  insert-InOrder seq e q l h (s, n, k) = (
    Strict-insert e q s (
        All-mono (Numbered seq) (λ y. (cmp e y || cmp y e) ≡ true) q
          (λ y le. Numbered-apart e y (omega arith)) n),
    All-insert (Numbered e.id) e q (omega arith)
        (All-mono (Numbered seq) (Numbered e.id) q (λ y le. omega arith) n),
    HoldsFirst-insert seq e q l h k,
  )

  insert-jobs :
      (d seq : ℕ) (e : Entry J) (q : List (Entry J)) (l : Loop J)
      → seq < e.id
      → InOrder seq q l
      → held_at d l ++ jobs_at d (insert e q) ≡ (held_at d l ++ jobs_at d q) ++ job_at d e
  insert-jobs d seq e q l h (s, n, k) =
      rw
        (jobs_at-insert_new d e q s
          (All-mono (Numbered seq) (λ y. y.id < e.id) q (λ y le. omega arith) n))
        (sym (append_assoc (held_at d l) (jobs_at d q) (job_at d e)))

  -- What an event keeps: the line of the jobs at `d` moves on in order.
  record Advances (d : ℕ) (w : World J) (e : Event J) (p : World J × List (Fate J)) : Type 0 where
    line :
        handled_at d p.1 ++ (held_at d p.0.loop ++ jobs_at d p.0.timer.q)
        ≡ (held_at d w.loop ++ jobs_at d w.timer.q) ++ scheduled_at d (e ∷ [])
    kept : InOrder p.0.timer.seq p.0.timer.q p.0.loop
    runs : p.0.timer.stop_flag ≡ false
    counted : p.0.timer.seq ≡ w.timer.seq + schedulings (e ∷ [])

  schedule_lem :
      (t : Timer J) (tp : ℕ) (j : J) (ct : CancelToken)
      → t.stop_flag ≡ false
      → t.seq + 1 < 2 ^ 64
      → schedule t tp (some j) ct ≡ record t {
        q = insert (record { when = tp; id = t.seq + 1; ct = ct; j = some j }) t.q;
        seq = t.seq + 1;
      }
  unfolding schedule
  schedule_lem t tp j ct u b = ground arith

  pub step_schedules :
      (w : World J) (tp : ℕ) (j : J) (ct : CancelToken)
      → w.timer.stop_flag ≡ false
      → w.timer.seq + 1 < 2 ^ 64
      → step w (schedules tp (some j) ct) ≡ (
        record w {
          timer = record w.timer {
            q = insert (record { when = tp; id = w.timer.seq + 1; ct = ct; j = some j }) w.timer.q;
            seq = w.timer.seq + 1;
          };
        },
        [],
      )
  unfolding step
  step_schedules w tp j ct u b =
      ap (λ t. (record w { timer = t }, [])) (schedule_lem w.timer tp j ct u b)

  schedules-Advances :
      (d : ℕ) (w : World J) (tp : ℕ) (j : J) (ct : CancelToken)
      → w.timer.stop_flag ≡ false
      → w.timer.seq + 1 < 2 ^ 64
      → InOrder w.timer.seq w.timer.q w.loop
      → Advances d w (schedules tp (some j) ct) (step w (schedules tp (some j) ct))
  schedules-Advances d w tp j ct u b s =
      let e : Entry J = record { when = tp; id = w.timer.seq + 1; ct = ct; j = some j } in
      rw (step_schedules w tp j ct u b) (record {
        line =
            rw (append-nil (job_at d e))
              (insert-jobs d w.timer.seq e w.timer.q w.loop (omega arith) s);
        kept = insert-InOrder w.timer.seq e w.timer.q w.loop (omega arith) s;
        runs = u;
        counted = refl;
      })

  step-Advances :
      (d : ℕ) (w : World J) (e : Event J) (es : List (Event J))
      → w.timer.stop_flag ≡ false
      → Unstopped (e ∷ es)
      → w.timer.seq + schedulings (e ∷ []) < 2 ^ 64
      → InOrder w.timer.seq w.timer.q w.loop
      → Advances d w e (step w e)
  unfolding step
  step-Advances d w (schedules tp none ct) es u k b s = record {
    line = sym (append-nil _);
    kept = s;
    runs = u;
    counted = omega arith;
  }
  step-Advances d w (schedules tp (some j) ct) es u k b s = schedules-Advances d w tp j ct u b s
  step-Advances d w stops es u k b s = absurd k
  step-Advances d w (passes n) es u k b s = record {
    line = sym (append-nil _);
    kept = s;
    runs = u;
    counted = omega arith;
  }
  step-Advances d w (moves m) es u k b s =
      let (line, kept, runs, same) = loop-Keeps d m w.now w.timer w.timer.q w.loop refl u s in
      record {
        line = line ∙ sym (append-nil _);
        kept = rw same kept;
        runs = runs;
        counted = omega arith;
      }

  handled_at-append :
      (d : ℕ) (xs ys : List (Fate J)) → handled_at d (xs ++ ys) ≡ handled_at d xs ++ handled_at d ys
  handled_at-append d [] ys = refl
  handled_at-append d (fires at e ∷ xs) ys =
      rw (handled_at-append d xs ys)
        (sym (append_assoc (job_at d e) (handled_at d xs) (handled_at d ys)))
  handled_at-append d (cancels e ∷ xs) ys =
      rw (handled_at-append d xs ys)
        (sym (append_assoc (job_at d e) (handled_at d xs) (handled_at d ys)))
  handled_at-append d (clears e ∷ xs) ys =
      rw (handled_at-append d xs ys)
        (sym (append_assoc (job_at d e) (handled_at d xs) (handled_at d ys)))

  scheduled_at-cons :
      (d : ℕ) (e : Event J) (es : List (Event J))
      → scheduled_at d (e ∷ es) ≡ scheduled_at d (e ∷ []) ++ scheduled_at d es
  scheduled_at-cons d (schedules tp none ct) es = refl
  scheduled_at-cons d (schedules tp (some j) ct) es =
      rw (append-nil (if tp == d then j ∷ [] else [])) refl
  scheduled_at-cons d _ es = refl

  schedulings-cons :
      (e : Event J) (es : List (Event J))
      → schedulings (e ∷ es) ≡ schedulings (e ∷ []) + schedulings es
  schedulings-cons (schedules tp (some j) ct) es = omega arith
  schedulings-cons (schedules tp none ct) es = omega arith
  schedulings-cons _ es = omega arith

  Unstopped-tail : (e : Event J) (es : List (Event J)) → Unstopped (e ∷ es) → Unstopped es
  Unstopped-tail stops es k = absurd k
  Unstopped-tail (passes d) es k = k
  Unstopped-tail _ es k = k

  exec-line :
      (d : ℕ) (w : World J) (es : List (Event J))
      → w.timer.stop_flag ≡ false
      → Unstopped es
      → w.timer.seq + schedulings es < 2 ^ 64
      → InOrder w.timer.seq w.timer.q w.loop
      → handled_at d (exec w es).1
          ++ (held_at d (exec w es).0.loop ++ jobs_at d (exec w es).0.timer.q)
        ≡ (held_at d w.loop ++ jobs_at d w.timer.q) ++ scheduled_at d es
  unfolding exec
  exec-line d w [] u k b s = sym (append-nil _)
  exec-line d w (e ∷ es) u k b s =
      let more = schedulings-cons e es in
      let a = step-Advances d w e es u k (omega arith) s in
      let rest =
        exec-line d (step w e).0 es a.runs (Unstopped-tail e es k) (omega (arith, a.counted))
          a.kept in
      rw (handled_at-append d (step w e).1, scheduled_at-cons d e es)
        (append_chain (handled_at d (step w e).1) _ _ _ _ _ _ a.line rest)

  -- Jobs with equal deadlines are handled in the order in which they were scheduled: on a new timer
  -- that is not stopped and is given fewer than 2^64 jobs, at every moment of every interleaving of
  -- schedules, moves of the thread and passing time, the jobs with a given deadline that have been
  -- posted or destroyed as cancelled, then the one in the hands of the thread, then those still
  -- queued, are the jobs scheduled for that deadline, in order and each once.
  pub exec-scheduled_at :
      (d now : ℕ) (es : List (Event J))
      → Unstopped es
      → schedulings es < 2 ^ 64
      → let p = exec (record { timer = init; loop = at_head; now = now }) es in
        handled_at d p.1 ++ (held_at d p.0.loop ++ jobs_at d p.0.timer.q) ≡ scheduled_at d es
  unfolding init
  exec-scheduled_at d now es k b =
      exec-line d (record { timer = init; loop = at_head; now = now }) es refl k (omega arith)
        (tt, tt, tt)
