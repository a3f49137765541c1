-- ===== src/Timer/Order.antt =====
-- The order of the queue of timer.cpp, and the order in which entries that are due are fired.
use cnerium.Prelude.{
  suc, ◌*◌, length, replicate, ℕ, ◌≤◌, ◌≡◌, refl, ap, ◌∙◌, true, false, Option, none, some, List,
  [], ◌∷◌, ◌++◌, All, arith, Bool-cases, ◌⊎◌, inl, inr,
}
use cnerium.Cancel.{Flags, CancelToken, is_cancelled}
use cnerium.Timer.{
  Entry, Timer, Loop, at_head, aiming, sleeping, firing, posting, ended, Fate, World, Event,
  schedules, stops, passes, moves, insert, erase_first, cmp, schedule, fire_move, loop_move, step,
  exec,
}

-- No entry of the queue comes before an earlier one: `cmp` of the later and the earlier is false.
abbrev pub IsSorted : {J : Type 0} → List (Entry J) → Type 0
IsSorted [] = Unit
IsSorted (x ∷ q) = All (λ y. cmp y x ≡ false) q × IsSorted q

module _ {J : Type 0} where
  cmp_trans : (x y z : Entry J) → cmp y x ≡ false → cmp z y ≡ false → cmp z x ≡ false
  unfolding cmp
  cmp_trans x y z h k = ground arith

  cmp_asym : (x y : Entry J) → cmp x y ≡ true → cmp y x ≡ false
  unfolding cmp
  cmp_asym x y h = ground arith

  All-cmp :
      (x y : Entry J) (q : List (Entry J))
      → cmp y x ≡ false
      → All (λ z. cmp z y ≡ false) q
      → All (λ z. cmp z x ≡ false) q
  All-cmp x y [] h a = tt
  All-cmp x y (z ∷ q) h a = (cmp_trans x y z h a.0, All-cmp x y q h a.1)

  All-insert :
      (x e : Entry J) (q : List (Entry J))
      → cmp e x ≡ false
      → All (λ z. cmp z x ≡ false) q
      → All (λ z. cmp z x ≡ false) (insert e q)
  unfolding insert
  All-insert x e [] h a = (h, tt)
  All-insert x e (y ∷ q) h a = ground (arith, All-insert x e q h a.1)

  insert-IsSorted : (e : Entry J) (q : List (Entry J)) → IsSorted q → IsSorted (insert e q)
  unfolding insert
  insert-IsSorted e [] s = (tt, tt)
  insert-IsSorted e (x ∷ q) s = elim (Bool-cases (cmp e x)) [
    | inl lt ↦ rw (lt, insert) ((cmp_asym e x lt, All-cmp e x q (cmp_asym e x lt) s.0), s)
    | inr ge ↦ rw (ge, insert) (All-insert x e q ge s.0, insert-IsSorted e q s.1)
  ]

  head-queue :
      (m : Flags) (now : ℕ) (t : Timer J) (x : Entry J) (q : List (Entry J))
      → t.q ≡ x ∷ q
      → ((loop_move m now t at_head).0.q ≡ x ∷ q) ⊎ ((loop_move m now t at_head).0.q ≡ q)
  unfolding loop_move
  head-queue m now t x q e = ground arith

  aim-queue :
      (m : Flags) (now : ℕ) (t : Timer J) (x next : Entry J) (q : List (Entry J))
      → t.q ≡ x ∷ q
      → ((loop_move m now t (aiming next)).0.q ≡ x ∷ q)
        ⊎ ((loop_move m now t (aiming next)).0.q ≡ insert next q)
  unfolding loop_move erase_first insert cmp
  aim-queue m now t x next q e = ground arith

  loop_move-IsSorted :
      (m : Flags) (now : ℕ) (t : Timer J) (q : List (Entry J)) (l : Loop J)
      → t.q ≡ q
      → IsSorted q
      → IsSorted (loop_move m now t l).0.q
  unfolding loop_move
  loop_move-IsSorted m now t [] at_head e s = ground arith
  loop_move-IsSorted m now t (x ∷ q) at_head e s = elim (head-queue m now t x q e) [
    | inl same ↦ rw same s
    | inr rest ↦ rw rest s.1
  ]
  loop_move-IsSorted m now t [] (aiming next) e s = ground arith
  loop_move-IsSorted m now t (x ∷ q) (aiming next) e s = elim (aim-queue m now t x next q e) [
    | inl same ↦ rw same s
    | inr swapped ↦ rw swapped (insert-IsSorted next q s.1)
  ]
  loop_move-IsSorted m now t q (sleeping next) e s = rw e s
  loop_move-IsSorted m now t q (firing next) e s = rw e s
  loop_move-IsSorted m now t q (posting next) e s = rw e s
  loop_move-IsSorted m now t q ended e s = rw e s

  schedule-IsSorted :
      (t : Timer J) (tp : ℕ) (j : Option J) (ct : CancelToken)
      → IsSorted t.q
      → IsSorted (schedule t tp j ct).q
  unfolding schedule
  schedule-IsSorted t tp none ct s = s
  schedule-IsSorted t tp (some j) ct s = elim (Bool-cases t.stop_flag) [
    | inl stopped ↦ rw (stopped, schedule) s
    | inr open_ ↦ rw (open_, schedule) (insert-IsSorted _ t.q s)
  ]

  -- The queue stays in the order of `cmp`, by deadline and then by sequence number, through every
  -- interleaving of schedules, stops and moves of the timer thread, its swaps included.
  pub exec-IsSorted :
      (w : World J) (es : List (Event J)) → IsSorted w.timer.q → IsSorted (exec w es).0.timer.q
  unfolding exec step
  exec-IsSorted w [] s = s
  exec-IsSorted w (schedules tp j ct ∷ es) s =
      exec-IsSorted (step w (schedules tp j ct)).0 es (schedule-IsSorted w.timer tp j ct s)
  exec-IsSorted w (stops ∷ es) s = exec-IsSorted (step w stops).0 es tt
  exec-IsSorted w (passes d ∷ es) s = exec-IsSorted (step w (passes d)).0 es s
  exec-IsSorted w (moves m ∷ es) s =
      exec-IsSorted (step w (moves m)).0 es
        (loop_move-IsSorted m w.now w.timer w.timer.q w.loop refl s)

  -- What becomes of entries that are due, each posted at once.
  abbrev pub fates_of : ℕ → List (Entry J) → List (Fate J)
  fates_of now [] = []
  fates_of now (x ∷ q) = fire_move now x ++ fates_of now q

  -- Four moves of the thread for each entry.
  abbrev pub turns_for : Flags → List (Entry J) → List (Event J)
  turns_for m [] = []
  turns_for m (x ∷ q) = moves m ∷ moves m ∷ moves m ∷ moves m ∷ turns_for m q

  pub turns_for-replicate :
      (m : Flags) (q : List (Entry J)) → turns_for m q ≡ replicate (4 * length q) (moves m)
  turns_for-replicate m [] = refl
  turns_for-replicate m (x ∷ q) =
      let more : 4 * suc (length q) ≡ suc (suc (suc (suc (4 * length q)))) = omega arith in
      rw (more, turns_for-replicate m q) refl

  -- An entry whose deadline has come and whose token is not cancelled.
  abbrev pub IsLive : Flags → ℕ → Entry J → Type 0
  IsLive m now x = (x.when ≤ now) × (is_cancelled m x.ct ≡ false)

  -- A world that runs, with a given queue.
  abbrev awake : World J → List (Entry J) → Loop J → World J
  awake w q l = record w {
    timer = record { q = q; seq = w.timer.seq; stop_flag = false };
    loop = l;
  }

  step-head :
      (m : Flags) (w : World J) (x : Entry J) (q : List (Entry J))
      → step (awake w (x ∷ q) at_head) (moves m) ≡ (awake w q (aiming x), [])
  unfolding step loop_move
  step-head m w x q = refl

  step-due :
      (m : Flags) (w : World J) (x : Entry J) (q : List (Entry J))
      → x.when ≤ w.now
      → step (awake w q (aiming x)) (moves m) ≡ (awake w q (firing x), [])
  unfolding step loop_move
  step-due m w x q due = ground arith

  step-check :
      (m : Flags) (w : World J) (x : Entry J) (q : List (Entry J))
      → is_cancelled m x.ct ≡ false
      → step (awake w q (firing x)) (moves m) ≡ (awake w q (posting x), [])
  unfolding step loop_move
  step-check m w x q kept = ground arith

  step-post :
      (m : Flags) (w : World J) (x : Entry J) (q : List (Entry J))
      → step (awake w q (posting x)) (moves m) ≡ (awake w q at_head, fire_move w.now x)
  unfolding step loop_move
  step-post m w x q = refl

  exec-due_from :
      (m : Flags) (w : World J) (due rest : List (Entry J))
      → All (IsLive m w.now) due
      → exec (awake w (due ++ rest) at_head) (turns_for m due)
        ≡ (awake w rest at_head, fates_of w.now due)
  unfolding exec
  exec-due_from m w [] rest a = refl
  exec-due_from m w (x ∷ due) rest a = rw (
    step-head m w x (due ++ rest),
    step-due m w x (due ++ rest) a.0.0,
    step-check m w x (due ++ rest) a.0.1,
    step-post m w x (due ++ rest),
    exec-due_from m w due rest a.1,
  )

  -- A timer that runs posts the jobs of entries that are due and not cancelled in the order of its
  -- queue: four moves for each, with no sleep, leave the entries behind them queued and the thread
  -- at its head. With `exec-IsSorted`, that is by deadline.
  pub exec-due :
      (m : Flags) (w : World J) (due rest : List (Entry J))
      → w.timer.q ≡ due ++ rest
      → w.timer.stop_flag ≡ false
      → w.loop ≡ at_head
      → All (IsLive m w.now) due
      → exec w (turns_for m due) ≡ (
        record w {
          timer = record { q = rest; seq = w.timer.seq; stop_flag = false };
          loop = at_head;
        },
        fates_of w.now due,
      )
  exec-due m w due rest e u l a =
      let same : w ≡ awake w (due ++ rest) at_head = ground arith in
      ap (λ x. exec x (turns_for m due)) same ∙ exec-due_from m w due rest a
