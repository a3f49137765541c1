-- ===== src/Timer/Firing.antt =====
-- When timer.cpp fires an entry: never early, not once cancelled, and late where an earlier entry
-- comes while the thread sleeps.
use mathlib.Core.Bool.{false≢true}
use cnerium.Prelude.{
  ℕ, ◌+◌, ◌<◌, ◌≤◌, ◌≡◌, ◌≢◌, refl, sym, ap, ◌∙◌, true, false, Option, none, some, List, [], ◌∷◌,
  map, All, All-append, arith, Bool-cases, ◌⊎◌, inl, inr,
}
use cnerium.Cancel.{Flags, CancelToken, is_cancelled}
use cnerium.Timer.{
  Entry, Timer, Loop, at_head, aiming, sleeping, firing, posting, ended, Fate, fires, clears, World,
  Event, schedules, stops, passes, moves, check_move, fire_move, loop_move, step, exec, schedule,
}

-- An entry fires at its deadline or later, and not after the clock's reading.
abbrev pub OnTime : {J : Type 0} → ℕ → Fate J → Type 0
OnTime now (fires at e) = (e.when ≤ at) × (at ≤ now)
OnTime now _ = Unit

-- The thread leaves the inner loop only when the deadline has come.
abbrev pub IsTimely : {J : Type 0} → ℕ → Loop J → Type 0
IsTimely now (firing next) = next.when ≤ now
IsTimely now (posting next) = next.when ≤ now
IsTimely now _ = Unit

-- An entry may be posted if it does not carry the token, or if it is the one that the thread, at
-- `l`, has already checked.
abbrev pub MayPost : {J : Type 0} → CancelToken → Loop J → Entry J → Type 0
MayPost ct l e = (e.ct ≢ ct) ⊎ (l ≡ posting e)

abbrev pub OnlyChecked : {J : Type 0} → CancelToken → Loop J → Fate J → Type 0
OnlyChecked ct l (fires at e) = MayPost ct l e
OnlyChecked ct l _ = Unit

-- The same for the entry that the thread is about to post.
abbrev pub HoldsChecked : {J : Type 0} → CancelToken → Loop J → Loop J → Type 0
HoldsChecked ct l (posting e) = MayPost ct l e
HoldsChecked ct l _ = Unit

abbrev pub AllMoves : {J : Type 0} → (Flags → Type 0) → List (Event J) → Type 0
AllMoves P [] = Unit
AllMoves P (moves m ∷ es) = P m × AllMoves P es
AllMoves P (_ ∷ es) = AllMoves P es

abbrev pub Unstopped : {J : Type 0} → List (Event J) → Type 0
Unstopped [] = Unit
Unstopped (stops ∷ es) = ⊥
Unstopped (_ ∷ es) = Unstopped es

module _ {J : Type 0} where
  pub IsTimely-mono : (now d : ℕ) (l : Loop J) → IsTimely now l → IsTimely (now + d) l
  IsTimely-mono now d (firing next) h = omega arith
  IsTimely-mono now d (posting next) h = omega arith
  IsTimely-mono now d at_head h = tt
  IsTimely-mono now d _ h = tt

  post-OnTime :
      (now : ℕ) (next : Entry J) (o : Option J)
      → next.j ≡ o
      → next.when ≤ now
      → Unit {0} × All (OnTime now) (fire_move now next)
  unfolding fire_move
  post-OnTime now next none e h = ground arith
  post-OnTime now next (some j) e h = ground arith

  pub loop_move-IsTimely :
      (m : Flags) (now : ℕ) (t : Timer J) (q : List (Entry J)) (l : Loop J)
      → t.q ≡ q
      → IsTimely now l
      → IsTimely now (loop_move m now t l).1 × All (OnTime now) (loop_move m now t l).2
  unfolding loop_move
  loop_move-IsTimely m now t [] at_head e h = ground arith
  loop_move-IsTimely m now t (x ∷ q) at_head e h = ground arith
  loop_move-IsTimely m now t [] (aiming next) e h = ground arith
  loop_move-IsTimely m now t (x ∷ q) (aiming next) e h = ground arith
  loop_move-IsTimely m now t q (sleeping next) e h = ground arith
  loop_move-IsTimely m now t q (firing next) e h = ground arith
  loop_move-IsTimely m now t q (posting next) e h = post-OnTime now next next.j refl h
  loop_move-IsTimely m now t q ended e h = (tt, tt)

  fire_move-OnlyChecked :
      (now : ℕ) (next : Entry J) (o : Option J) (ct : CancelToken) (l0 : Loop J)
      → next.j ≡ o
      → MayPost ct l0 next
      → All (OnlyChecked ct l0) (fire_move now next)
  unfolding fire_move
  fire_move-OnlyChecked now next none ct l0 e h = rw (e, fire_move) tt
  fire_move-OnlyChecked now next (some j) ct l0 e h = rw (e, fire_move) (h, tt)

  -- The check lets no entry through that carries a cancelled token.
  check_move-OnlyChecked :
      (m : Flags) (next : Entry J) (ct : CancelToken) (l0 : Loop J)
      → is_cancelled m ct ≡ true
      → HoldsChecked ct l0 (check_move m next).0 × All (OnlyChecked ct l0) (check_move m next).1
  unfolding check_move
  check_move-OnlyChecked m next ct l0 h = elim (Bool-cases (is_cancelled m next.ct)) [
    | inl c ↦ rw (c, check_move) (tt, (tt, tt))
    | inr c ↦
        rw (c, check_move) (inl (λ same. false≢true (sym c ∙ ap (is_cancelled m) same ∙ h)), tt)
  ]

  loop_move-OnlyChecked :
      (m : Flags) (now : ℕ) (t : Timer J) (q : List (Entry J)) (l : Loop J) (ct : CancelToken)
      (l0 : Loop J)
      → t.q ≡ q
      → is_cancelled m ct ≡ true
      → HoldsChecked ct l0 l
      → HoldsChecked ct l0 (loop_move m now t l).1 × All (OnlyChecked ct l0) (loop_move m now t l).2
  unfolding loop_move
  loop_move-OnlyChecked m now t [] at_head ct l0 e h k = ground arith
  loop_move-OnlyChecked m now t (x ∷ q) at_head ct l0 e h k = ground arith
  loop_move-OnlyChecked m now t [] (aiming next) ct l0 e h k = ground arith
  loop_move-OnlyChecked m now t (x ∷ q) (aiming next) ct l0 e h k = ground arith
  loop_move-OnlyChecked m now t q (sleeping next) ct l0 e h k = ground arith
  loop_move-OnlyChecked m now t q (firing next) ct l0 e h k = check_move-OnlyChecked m next ct l0 h
  loop_move-OnlyChecked m now t q (posting next) ct l0 e h k =
      (tt, fire_move-OnlyChecked now next next.j ct l0 refl k)
  loop_move-OnlyChecked m now t q ended ct l0 e h k = (tt, tt)

  exec-now : (w : World J) (es : List (Event J)) → (d : ℕ) × ((exec w es).0.now ≡ w.now + d)
  unfolding exec step
  exec-now w [] = (0, omega arith)
  exec-now w (passes d ∷ es) =
      let (d', e) = exec-now (record w { now = w.now + d }) es in (d + d', omega arith)
  exec-now w (e ∷ es) = let (d', e') = exec-now (step w e).0 es in (d', e')

  clears-OnlyChecked :
      (ct : CancelToken) (l0 : Loop J) (q : List (Entry J)) → All (OnlyChecked ct l0) (map clears q)
  clears-OnlyChecked ct l0 [] = tt
  clears-OnlyChecked ct l0 (x ∷ q) = (tt, clears-OnlyChecked ct l0 q)

  step-OnlyChecked :
      (w : World J) (e : Event J) (es : List (Event J)) (ct : CancelToken) (l0 : Loop J)
      → AllMoves (λ m. is_cancelled m ct ≡ true) (e ∷ es)
      → HoldsChecked ct l0 w.loop
      → All (OnlyChecked ct l0) (step w e).1
        × HoldsChecked ct l0 (step w e).0.loop
        × AllMoves (λ m. is_cancelled m ct ≡ true) es
  unfolding step
  step-OnlyChecked w (schedules tp j ct') es ct l0 h k = (tt, k, h)
  step-OnlyChecked w stops es ct l0 h k = (clears-OnlyChecked ct l0 w.timer.q, k, h)
  step-OnlyChecked w (passes d) es ct l0 h k = (tt, k, h)
  step-OnlyChecked w (moves m) es ct l0 h k =
      let (k', here) = loop_move-OnlyChecked m w.now w.timer w.timer.q w.loop ct l0 refl h.0 k in
      (here, k', h.1)

  exec-OnlyChecked :
      (w : World J) (es : List (Event J)) (ct : CancelToken) (l0 : Loop J)
      → AllMoves (λ m. is_cancelled m ct ≡ true) es
      → HoldsChecked ct l0 w.loop
      → All (OnlyChecked ct l0) (exec w es).1
  unfolding exec
  exec-OnlyChecked w [] ct l0 h k = tt
  exec-OnlyChecked w (e ∷ es) ct l0 h k =
      let (here, k', rest) = step-OnlyChecked w e es ct l0 h k in
      All-append (OnlyChecked ct l0) (step w e).1 (exec (step w e).0 es).1 here
        (exec-OnlyChecked (step w e).0 es ct l0 rest k')

  HoldsChecked-refl : (ct : CancelToken) (l : Loop J) → HoldsChecked ct l l
  HoldsChecked-refl ct (posting e) = inr refl
  HoldsChecked-refl ct at_head = tt
  HoldsChecked-refl ct (aiming e) = tt
  HoldsChecked-refl ct (sleeping e) = tt
  HoldsChecked-refl ct (firing e) = tt
  HoldsChecked-refl ct ended = tt

  -- From the moment a token is cancelled, no entry that carries it is posted, also one whose deadline
  -- has come, except the one that the thread, at that moment, had already checked and was about to
  -- post: so the coroutine of a `sleep_for` that is cancelled in time is not resumed.
  pub exec-cancelled :
      (w : World J) (es : List (Event J)) (ct : CancelToken)
      → AllMoves (λ m. is_cancelled m ct ≡ true) es
      → All (OnlyChecked ct w.loop) (exec w es).1
  exec-cancelled w es ct h = exec-OnlyChecked w es ct w.loop h (HoldsChecked-refl ct w.loop)

  sleeping_move :
      (m : Flags) (now : ℕ) (t : Timer J) (next : Entry J)
      → t.stop_flag ≡ false
      → now < next.when
      → ((loop_move m now t (sleeping next)).2 ≡ [])
        × ((loop_move m now t (sleeping next)).1 ≡ sleeping next)
        × ((loop_move m now t (sleeping next)).0.stop_flag ≡ false)
  unfolding loop_move
  sleeping_move m now t next u h = ground arith

  schedule-stop_flag :
      (t : Timer J) (tp : ℕ) (j : Option J) (ct : CancelToken)
      → (schedule t tp j ct).stop_flag ≡ t.stop_flag
  unfolding schedule
  schedule-stop_flag t tp none ct = refl
  schedule-stop_flag t tp (some j) ct = ground arith

  step-sleeping :
      (w : World J) (e : Event J) (es : List (Event J)) (next : Entry J)
      → w.loop ≡ sleeping next
      → w.timer.stop_flag ≡ false
      → Unstopped (e ∷ es)
      → (step w e).0.now < next.when
      → ((step w e).1 ≡ [])
        × ((step w e).0.loop ≡ sleeping next)
        × ((step w e).0.timer.stop_flag ≡ false)
        × Unstopped es
  unfolding step
  step-sleeping w (schedules tp j ct) es next l u k h =
      (refl, l, schedule-stop_flag w.timer tp j ct ∙ u, k)
  step-sleeping w stops es next l u k h = absurd k
  step-sleeping w (passes d) es next l u k h = (refl, l, u, k)
  step-sleeping w (moves m) es next l u k h =
      let asleep = sleeping_move m w.now w.timer next u h in
      (
        ap (λ x. (loop_move m w.now w.timer x).2) l ∙ asleep.0,
        ap (λ x. (loop_move m w.now w.timer x).1) l ∙ asleep.1,
        ap (λ x. (loop_move m w.now w.timer x).0.stop_flag) l ∙ asleep.2,
        k,
      )

  -- While the thread sleeps towards the deadline of `next`, and nobody stops the timer, nothing is
  -- posted before that deadline, whatever entries are scheduled meanwhile and however early they
  -- are due: the wait wakes for a stop or its own deadline only.
  pub exec-sleeping :
      (w : World J) (es : List (Event J)) (next : Entry J)
      → w.loop ≡ sleeping next
      → w.timer.stop_flag ≡ false
      → Unstopped es
      → (exec w es).0.now < next.when
      → ((exec w es).1 ≡ []) × ((exec w es).0.loop ≡ sleeping next)
  unfolding exec
  exec-sleeping w [] next l u k h = (refl, l)
  exec-sleeping w (e ∷ es) next l u k h =
      let (d, passed) = exec-now (step w e).0 es in
      let (quiet, l', u', k') = step-sleeping w e es next l u k (omega arith) in
      let (quiet', l'') = exec-sleeping (step w e).0 es next l' u' k' h in (rw quiet quiet', l'')
