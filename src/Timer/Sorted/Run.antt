-- ===== src/Timer/Sorted/Run.antt =====
-- The timer of timer.cpp as a stable sort by deadline.
use mathlib.Core.Path.{subst}
use cnerium.Prelude.{
  replicate, ◌*◌, ℕ, suc, ◌+◌, ◌^◌, ◌≤◌, ◌<◌, ◌≡◌, refl, sym, ap, ◌∙◌, false, Option, none, some,
  List, [], ◌∷◌, ◌++◌, map, length, append-nil, append_assoc, All, All-mono, arith,
}
use cnerium.Cancel.{Flags, CancelToken, is_cancelled}
use cnerium.Timer.{
  Entry, at_head, Fate, fires, World, Event, schedules, moves, insert, fire_move, init, step, exec,
}
use cnerium.Timer.Fifo.{Numbered}
use cnerium.Timer.Fifo.Queue.{All-insert}
use cnerium.Timer.Fifo.Line.{step_schedules}
use cnerium.Timer.Order.{IsLive, fates_of, exec-due, turns_for-replicate}
use cnerium.Timer.Sorted.{
  Request, stable_sort, behind, sort-nil, sort-append, forget, forget-insert, All-sort, length-sort,
}

module _ {J : Type 0} where
  -- The calls that make the requests, and the jobs that are posted.
  abbrev pub calls_of : List (Request J) → List (Event J)
  calls_of [] = []
  calls_of (r ∷ rs) = schedules r.when r.j r.ct ∷ calls_of rs

  abbrev pub posted : List (Fate J) → List (Option J)
  posted [] = []
  posted (fires at e ∷ fs) = e.j ∷ posted fs
  posted (_ ∷ fs) = posted fs

  -- A request with a job, whose deadline has come and whose token is not cancelled.
  abbrev pub IsDue : Flags → ℕ → Request J → Type 0
  IsDue m now r = (r.when ≤ now) × (is_cancelled m r.ct ≡ false) × ((j : J) × (r.j ≡ some j))

  schedule_some :
      (w : World J) (tp : ℕ) (o : Option J) (ct : CancelToken) (j : J)
      → o ≡ some j
      → w.timer.stop_flag ≡ false
      → w.timer.seq + 1 < 2 ^ 64
      → step w (schedules tp o ct) ≡ (
        record w {
          timer = record w.timer {
            q = insert (record { when = tp; id = w.timer.seq + 1; ct = ct; j = o }) w.timer.q;
            seq = w.timer.seq + 1;
          };
        },
        [],
      )
  schedule_some w tp none ct j e u b = cc
  schedule_some w tp (some j') ct j e u b = step_schedules w tp j' ct u b

  -- What the calls leave.
  record Queues (w : World J) (rs : List (Request J)) (p : World J × List (Fate J)) : Type 0 where
    none_ : p.1 ≡ []
    sorted : map forget p.0.timer.q ≡ stable_sort rs
    runs : p.0.timer.stop_flag ≡ false
    place_ : p.0.loop ≡ w.loop
    clock : p.0.now ≡ w.now

  calls-Queues :
      (m : Flags) (now : ℕ) (w : World J) (done rs : List (Request J))
      → w.timer.stop_flag ≡ false
      → map forget w.timer.q ≡ stable_sort done
      → All (Numbered w.timer.seq) w.timer.q
      → w.timer.seq + length rs < 2 ^ 64
      → All (IsDue m now) rs
      → Queues w (done ++ rs) (exec w (calls_of rs))
  unfolding exec
  calls-Queues m now w done [] u s n b a = record {
    none_ = refl;
    sorted = s ∙ ap stable_sort (sym (append-nil done));
    runs = u;
    place_ = refl;
    clock = refl;
  }
  calls-Queues m now w done (r ∷ rs) u s n b a =
      let e : Entry J = record { when = r.when; id = w.timer.seq + 1; ct = r.ct; j = r.j } in
      let (j, has) = a.0.2 in
      let w' : World J = record w {
        timer = record w.timer { q = insert e w.timer.q; seq = w.timer.seq + 1 };
      } in
      let older =
        All-mono (Numbered w.timer.seq) (λ y. y.id < w.timer.seq + 1) w.timer.q
          (λ y le. omega arith) n in
      let newer = All-insert (Numbered (w.timer.seq + 1)) e w.timer.q (omega arith) (
        All-mono (Numbered w.timer.seq) (Numbered (w.timer.seq + 1)) w.timer.q (λ y le. omega arith)
          n) in
      let s' : map forget w'.timer.q ≡ stable_sort (done ++ r ∷ []) =
        forget-insert e w.timer.q older ∙ ap (behind r) s ∙ sym (sort-append done r) in
      let q = calls-Queues m now w' (done ++ r ∷ []) rs u s' newer (omega arith) a.1 in
      rw (schedule_some w r.when r.j r.ct j has u (omega arith)) (record {
        none_ = q.none_;
        sorted = q.sorted ∙ ap stable_sort (append_assoc done (r ∷ []) rs);
        runs = q.runs;
        place_ = q.place_;
        clock = q.clock;
      })

  length-forget : (q : List (Entry J)) → length (map forget q) ≡ length q
  length-forget [] = refl
  length-forget (e ∷ q) = ap suc (length-forget q)

  fired :
      (m : Flags) (now : ℕ) (e : Entry J) (fs : List (Fate J))
      → IsDue m now (forget e)
      → posted (fire_move now e ++ fs) ≡ e.j ∷ posted fs
  unfolding fire_move
  fired m now e fs (d, c, (j, has)) = rw (has, fire_move, posted) (ap (λ o. o ∷ posted fs) has)

  posted-fates_of :
      (m : Flags) (now : ℕ) (q : List (Entry J))
      → All (IsDue m now) (map forget q)
      → posted (fates_of now q) ≡ map (λ r. r.j) (map forget q)
  posted-fates_of m now [] a = refl
  posted-fates_of m now (e ∷ q) a =
      fired m now e (fates_of now q) a.0 ∙ ap (◌∷◌ e.j) (posted-fates_of m now q a.1)

  all_due :
      (m : Flags) (now : ℕ) (q : List (Entry J))
      → All (IsDue m now) (map forget q)
      → All (IsLive m now) q
  all_due m now [] a = tt
  all_due m now (e ∷ q) a = ((a.0.0, a.0.1), all_due m now q a.1)

  exec-append :
      (w : World J) (es es' : List (Event J))
      → exec w (es ++ es')
        ≡ ((exec (exec w es).0 es').0, (exec w es).1 ++ (exec (exec w es).0 es').1)
  unfolding exec
  exec-append w [] es' = refl
  exec-append w (e ∷ es) es' = rw (exec-append (step w e).0 es es', append_assoc (step w e).1)

  -- The timer is a stable sort by deadline: if a new timer is given any requests, fewer than 2^64, and
  -- all are due when its thread begins, with no token cancelled, then four moves for each post their
  -- jobs in the order of an insertion sort by deadline that keeps the order of equal deadlines, and
  -- leave no entry queued and the thread at the head of its loop.
  pub exec-stable_sort :
      (m : Flags) (now : ℕ) (rs : List (Request J))
      → All (IsDue m now) rs
      → length rs < 2 ^ 64
      → let p =
          exec
            (record { timer = init; loop = at_head; now = now })
            (calls_of rs ++ replicate (4 * length rs) (moves m)) in
        (posted p.1 ≡ map (λ r. r.j) (stable_sort rs)) × (p.0.timer.q ≡ []) × (p.0.loop ≡ at_head)
  unfolding init
  exec-stable_sort m now rs a b =
      let w0 : World J = record { timer = init; loop = at_head; now = now } in
      let q = calls-Queues m now w0 [] rs refl sort-nil tt (omega arith) a in
      let w1 = (exec w0 (calls_of rs)).0 in
      let due = subst (All (IsDue m now)) (sym q.sorted) (All-sort (IsDue m now) rs a) in
      let many = sym (length-forget w1.timer.q) ∙ ap length q.sorted ∙ length-sort rs in
      let run =
        exec-append w0 (calls_of rs) (replicate (4 * length rs) (moves m))
        ∙ ap (λ l. ((exec w1 l).0, (exec w0 (calls_of rs)).1 ++ (exec w1 l).1))
            (ap (λ k. replicate (4 * k) (moves m)) (sym many)
              ∙ sym (turns_for-replicate m w1.timer.q))
        ∙ ap (λ p. (p.0, (exec w0 (calls_of rs)).1 ++ p.1))
            (exec-due m w1 w1.timer.q [] (sym (append-nil w1.timer.q)) q.runs q.place_
              (rw q.clock (all_due m now w1.timer.q due))) in
      (
        ap (λ p. posted p.1) run
            ∙ ap (λ l. posted (l ++ fates_of w1.now w1.timer.q)) q.none_
            ∙ ap (λ t. posted (fates_of t w1.timer.q)) q.clock
            ∙ posted-fates_of m now w1.timer.q due
            ∙ ap (map (λ r. r.j)) q.sorted,
        ap (λ p. p.0.timer.q) run,
        ap (λ p. p.0.loop) run,
      )
