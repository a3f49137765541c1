-- ===== src/Timer/Account.antt =====
-- What becomes of the jobs that timer.cpp accepts.
use cnerium.Prelude.{
  ℕ, ◌+◌, ◌%◌, ◌^◌, ◌≡◌, refl, ap, Bool, true, false, ◌||◌, Option, none, some, List, [], ◌∷◌, ◌++◌,
  map, total, total-append, arith, ltb, if◌then◌else◌,
}
use cnerium.Cancel.{Flags}
use cnerium.Timer.{
  Entry, Timer, Loop, at_head, aiming, sleeping, firing, posting, ended, Fate, fires, cancels,
  clears, World, Event, schedules, stops, passes, moves, insert, erase_first, cmp, fire_move,
  loop_move, step, exec,
}

-- The jobs that the timer accepts: those scheduled before it is stopped.
abbrev pub accepted : {J : Type 0} → Bool → List (Event J) → List J
accepted stopped [] = []
accepted stopped (schedules tp (some j) ct ∷ es) =
    (if stopped then [] else j ∷ []) ++ accepted stopped es
accepted stopped (schedules tp none ct ∷ es) = accepted stopped es
accepted stopped (stops ∷ es) = accepted true es
accepted stopped (passes d ∷ es) = accepted stopped es
accepted stopped (moves m ∷ es) = accepted stopped es

abbrev pub ends : {J : Type 0} → Event J → Bool
ends stops = true
ends _ = false

module _ {J : Type 0} where
  -- The swap of the inner loop takes out the first entry, since it is due before `next`.
  pub erase_first-insert :
      (x next : Entry J) (q : List (Entry J))
      → ltb x.when next.when ≡ true
      → erase_first (insert next (x ∷ q)) ≡ insert next q
  unfolding insert erase_first cmp
  erase_first-insert x next q h = ground arith

module _ {J : Type 0} (v : J → ℕ) where
  abbrev pub job_weight : Option J → ℕ
  job_weight none = 0
  job_weight (some j) = v j

  -- The weight of the job of an entry, of the entry that the thread holds, and of a fate.
  abbrev pub entry_weight : Entry J → ℕ
  entry_weight e = job_weight e.j

  abbrev pub held : Loop J → ℕ
  held at_head = 0
  held (aiming e) = entry_weight e
  held (sleeping e) = entry_weight e
  held (firing e) = entry_weight e
  held (posting e) = entry_weight e
  held ended = 0

  abbrev pub fate_weight : Fate J → ℕ
  fate_weight (fires at e) = entry_weight e
  fate_weight (cancels e) = entry_weight e
  fate_weight (clears e) = entry_weight e

  total-insert :
      (e : Entry J) (q : List (Entry J))
      → total entry_weight (insert e q) ≡ entry_weight e + total entry_weight q
  unfolding insert
  total-insert e [] = refl
  total-insert e (x ∷ q) = ground (arith, total-insert e q)

  total-clears : (q : List (Entry J)) → total fate_weight (map clears q) ≡ total entry_weight q
  total-clears [] = refl
  total-clears (x ∷ q) = omega (arith, total-clears q)

  fire-weight :
      (now : ℕ) (e : Entry J) (o : Option J)
      → e.j ≡ o
      → total fate_weight (fire_move now e) ≡ job_weight o
  unfolding fire_move
  fire-weight now e none k = ground arith
  fire-weight now e (some j) k = ground arith

  loop-weight :
      (m : Flags) (now : ℕ) (t : Timer J) (q : List (Entry J)) (l : Loop J)
      → t.q ≡ q
      → (total fate_weight (loop_move m now t l).2
            + (held (loop_move m now t l).1 + total entry_weight (loop_move m now t l).0.q)
          ≡ held l + total entry_weight q)
        × ((loop_move m now t l).0.stop_flag ≡ t.stop_flag)
  unfolding loop_move
  loop-weight m now t [] at_head e = ground arith
  loop-weight m now t (x ∷ q) at_head e = ground arith
  loop-weight m now t [] (aiming next) e = ground arith
  loop-weight m now t (x ∷ q) (aiming next) e =
      ground (arith, erase_first-insert x next q, total-insert next q)
  loop-weight m now t q (sleeping next) e = ground arith
  loop-weight m now t q (firing next) e = ground arith
  loop-weight m now t q (posting next) e =
      (omega (arith, fire-weight now next next.j refl, ap (total entry_weight) e), refl)
  loop-weight m now t q ended e = (omega (arith, ap (total entry_weight) e), refl)

  accepted-cons :
      (b : Bool) (e : Event J) (es : List (Event J))
      → total v (accepted b (e ∷ es))
        ≡ total v (accepted b (e ∷ [])) + total v (accepted (b || ends e) es)
  accepted-cons b (schedules tp none ct) es = ground arith
  accepted-cons b (schedules tp (some j) ct) es = ground arith
  accepted-cons b stops es = ground arith
  accepted-cons b (passes d) es = ground arith
  accepted-cons b (moves m) es = ground arith

  pub step-weight :
      (w : World J) (e : Event J)
      → (total fate_weight (step w e).1
            + (held (step w e).0.loop + total entry_weight (step w e).0.timer.q)
          ≡ (held w.loop + total entry_weight w.timer.q)
            + total v (accepted w.timer.stop_flag (e ∷ [])))
        × ((step w e).0.timer.stop_flag ≡ (w.timer.stop_flag || ends e))
  unfolding step
  step-weight w (schedules tp none ct) = ground arith
  step-weight w (schedules tp (some j) ct) = ground (
    arith,
    total-insert (record { when = tp; id = (w.timer.seq + 1) % 2 ^ 64; ct = ct; j = some j })
        w.timer.q,
  )
  step-weight w stops = ground (arith, total-clears w.timer.q)
  step-weight w (passes d) = ground arith
  step-weight w (moves m) = ground (arith, loop-weight m w.now w.timer w.timer.q w.loop refl)

  -- Each accepted job is, at every moment of every interleaving, in exactly one place and once: it
  -- has been posted, destroyed because its token was cancelled or destroyed by the stop, or it is
  -- queued or in the hands of the timer thread, as counted by any weight on jobs. A job scheduled
  -- after the stop is in none.
  pub exec-fates :
      (w : World J) (es : List (Event J))
      → total fate_weight (exec w es).1
          + (held (exec w es).0.loop + total entry_weight (exec w es).0.timer.q)
        ≡ (held w.loop + total entry_weight w.timer.q) + total v (accepted w.timer.stop_flag es)
  unfolding exec
  exec-fates w [] = omega arith
  exec-fates w (e ∷ es) =
      let (here, flag) = step-weight w e in
      let later = rw flag at (exec-fates (step w e).0 es) in
      omega (
        arith,
        total-append fate_weight (step w e).1 (exec (step w e).0 es).1,
        accepted-cons w.timer.stop_flag e es,
        here,
        later,
      )
