-- ===== src/Timer/Shutdown.antt =====
-- What the stop of timer.cpp leaves to its thread, and when the destructor's join returns.
use cnerium.Prelude.{
  ℕ, suc, ◌+◌, ◌≤◌, ◌-◌, ◌≡◌, refl, Bool, true, Option, none, some, List, [], ◌∷◌, map, total,
  total-append, arith,
}
use cnerium.Cancel.{Flags}
use cnerium.Timer.{
  Entry, Timer, Loop, at_head, aiming, sleeping, firing, posting, ended, Fate, fires, clears, World,
  Event, schedules, stops, passes, moves, fire_move, loop_move, stop, step, exec, joins,
}

-- How many moves the thread of a stopped timer has left, and how many jobs it can still post.
abbrev rank : {J : Type 0} → Loop J → ℕ
rank ended = 0
rank at_head = 1
rank (sleeping n) = 1
rank (posting n) = 2
rank (firing n) = 3
rank (aiming n) = 4

abbrev shots : {J : Type 0} → Loop J → ℕ
shots (posting n) = 1
shots (firing n) = 1
shots (aiming n) = 1
shots _ = 0

-- The moves of the thread among events, and the posts among fates.
abbrev pub moved : {J : Type 0} → List (Event J) → ℕ
moved [] = 0
moved (moves m ∷ es) = suc (moved es)
moved (_ ∷ es) = moved es

abbrev pub is_fired : {J : Type 0} → Fate J → ℕ
is_fired (fires at e) = 1
is_fired _ = 0

module _ {J : Type 0} where
  fire-shots :
      (now : ℕ) (e : Entry J) (o : Option J) → e.j ≡ o → total is_fired (fire_move now e) ≤ 1
  unfolding fire_move
  fire-shots now e none n = ground arith
  fire-shots now e (some j) n = ground arith

  -- A move of the thread of a stopped timer.
  loop-stopped :
      (m : Flags) (now : ℕ) (t : Timer J) (l : Loop J)
      → t.stop_flag ≡ true
      → (rank (loop_move m now t l).1 ≤ rank l - 1)
        × (total is_fired (loop_move m now t l).2 + shots (loop_move m now t l).1 ≤ shots l)
        × ((loop_move m now t l).0.stop_flag ≡ true)
  unfolding loop_move
  loop-stopped m now t at_head u = ground arith
  loop-stopped m now t (aiming n) u = ground arith
  loop-stopped m now t (sleeping n) u = ground arith
  loop-stopped m now t (firing n) u = ground arith
  loop-stopped m now t (posting n) u = (omega arith, omega (arith, fire-shots now n n.j refl), u)
  loop-stopped m now t ended u = (omega arith, omega arith, u)

  no_shots : (q : List (Entry J)) → total is_fired (map clears q) ≡ 0
  no_shots [] = refl
  no_shots (x ∷ q) = omega (arith, no_shots q)

  step-stopped :
      (w : World J) (e : Event J)
      → w.timer.stop_flag ≡ true
      → (rank (step w e).0.loop ≤ rank w.loop - moved (e ∷ []))
        × (total is_fired (step w e).1 + shots (step w e).0.loop ≤ shots w.loop)
        × ((step w e).0.timer.stop_flag ≡ true)
  unfolding step
  step-stopped w (schedules tp none ct) u = (omega arith, omega arith, u)
  step-stopped w (schedules tp (some j) ct) u = ground arith
  step-stopped w stops u = (omega arith, omega (arith, no_shots w.timer.q), refl)
  step-stopped w (passes d) u = (omega arith, omega arith, u)
  step-stopped w (moves m) u = loop-stopped m w.now w.timer w.loop u

  moved-cons : (e : Event J) (es : List (Event J)) → moved (e ∷ es) ≡ moved (e ∷ []) + moved es
  moved-cons (moves m) es = omega arith
  moved-cons (schedules tp j ct) es = omega arith
  moved-cons _ es = omega arith

  exec-stopped :
      (w : World J) (es : List (Event J))
      → w.timer.stop_flag ≡ true
      → (rank (exec w es).0.loop ≤ rank w.loop - moved es)
        × (total is_fired (exec w es).1 + shots (exec w es).0.loop ≤ shots w.loop)
  unfolding exec
  exec-stopped w [] u = (omega arith, omega arith)
  exec-stopped w (e ∷ es) u =
      let (ranked, shot, u') = step-stopped w e u in
      let (ranked', shot') = exec-stopped (step w e).0 es u' in
      (
        omega (arith, moved-cons e es),
        omega (arith, total-append is_fired (step w e).1 (exec (step w e).0 es).1),
      )

  joins-ended : (self : Bool) (l : Loop J) → rank l ≡ 0 → joins self l ≡ true
  unfolding joins
  joins-ended self ended h = refl
  joins-ended self at_head h = absurd (omega arith)
  joins-ended self (aiming n) h = absurd (omega arith)
  joins-ended self (sleeping n) h = absurd (omega arith)
  joins-ended self (firing n) h = absurd (omega arith)
  joins-ended self (posting n) h = absurd (omega arith)

  rank_bound : (l : Loop J) → (rank l ≤ 4) × (shots l ≤ 1)
  rank_bound at_head = (omega arith, omega arith)
  rank_bound (aiming n) = (omega arith, omega arith)
  rank_bound (sleeping n) = (omega arith, omega arith)
  rank_bound (firing n) = (omega arith, omega arith)
  rank_bound (posting n) = (omega arith, omega arith)
  rank_bound ended = (omega arith, omega arith)

  -- A stopped timer ends: wherever its thread stands at the stop, and whatever is called in between,
  -- the join of the destructor returns after at most four moves of the thread. At most one job is
  -- posted after the stop, that of the entry in the hands of the thread.
  pub exec-joined :
      (w : World J) (es : List (Event J)) (self : Bool)
      → 4 ≤ moved es
      → let p = exec (record w { timer = stop w.timer }) es in
        (joins self p.0.loop ≡ true) × (total is_fired p.1 ≤ 1)
  unfolding stop
  exec-joined w es self h =
      let w' = record w { timer = stop w.timer } in
      let (ranked, shot) = exec-stopped w' es refl in
      let (most, one) = rank_bound w.loop in
      (joins-ended self (exec w' es).0.loop (omega arith), omega arith)
