-- ===== src/Timer/Fifo/Moves.antt =====
-- What a move of the thread of timer.cpp keeps of the order.
use cnerium.Prelude.{
  All-mono, ℕ, ◌≡◌, refl, true, false, ◌||◌, Option, none, some, List, [], ◌∷◌, ◌++◌, append-nil,
  All, arith, ltb,
}
use cnerium.Cancel.{Flags}
use cnerium.Timer.{
  Entry, Timer, Loop, at_head, aiming, sleeping, firing, posting, ended, Fate, insert, cmp,
  fire_move, loop_move,
}
use cnerium.Timer.Account.{erase_first-insert}
use cnerium.Timer.Fifo.{job_at, jobs_at, held_at, handled_at, Leads, Numbered, InOrder}
use cnerium.Timer.Fifo.Queue.{
  All-insert, Strict-insert, jobs_at-insert_leading, Leads-apart, cmp-Leads, later-Leads,
}

module _ {J : Type 0} where
  pub swap-InOrder :
      (seq : ℕ) (x next : Entry J) (q : List (Entry J))
      → ltb x.when next.when ≡ true
      → InOrder seq (x ∷ q) (aiming next)
      → InOrder seq (insert next q) (aiming x)
  swap-InOrder seq x next q h (s, n, (l, k)) = (
    Strict-insert next q s.1
        (All-mono (Leads next) (λ y. (cmp next y || cmp y next) ≡ true) q (Leads-apart next) l.1),
    All-insert (Numbered seq) next q k n.1,
    (
      All-insert (Leads x) next q (later-Leads x next h)
          (All-mono (λ y. cmp x y ≡ true) (Leads x) q (cmp-Leads x) s.0),
      n.0,
    ),
  )

  pub handled_at-fire :
      (d now : ℕ) (e : Entry J) (o : Option J)
      → e.j ≡ o
      → handled_at d (fire_move now e) ≡ job_at d e
  unfolding fire_move
  handled_at-fire d now e none k = ground arith
  handled_at-fire d now e (some j) k = ground (arith, append-nil (job_at d e))

  pub swap-jobs :
      (d : ℕ) (x next : Entry J) (q : List (Entry J))
      → ltb x.when next.when ≡ true
      → All (Leads next) q
      → job_at d x ++ jobs_at d (insert next q) ≡ job_at d next ++ (job_at d x ++ jobs_at d q)
  swap-jobs d x next q h l = rw (jobs_at-insert_leading d next q l) (ground arith)

  pub take_lem :
      (m : Flags) (now : ℕ) (t : Timer J) (x : Entry J) (q : List (Entry J))
      → t.q ≡ x ∷ q
      → t.stop_flag ≡ false
      → loop_move m now t at_head ≡ (record t { q = q }, aiming x, [])
  unfolding loop_move
  take_lem m now t x q e u = ground arith

  -- What a move keeps, with the entries that it starts from.
  abbrev pub Keeps :
      ℕ → Timer J → List (Entry J) → Loop J → Timer J × Loop J × List (Fate J) → Type 0
  Keeps d t q l (t', l', fates) =
      (handled_at d fates ++ (held_at d l' ++ jobs_at d t'.q) ≡ held_at d l ++ jobs_at d q)
      × InOrder t.seq t'.q l'
      × (t'.stop_flag ≡ false)
      × (t'.seq ≡ t.seq)

  pub take-Keeps :
      (d : ℕ) (m : Flags) (now : ℕ) (t : Timer J) (x : Entry J) (q : List (Entry J))
      → t.q ≡ x ∷ q
      → t.stop_flag ≡ false
      → InOrder t.seq (x ∷ q) at_head
      → Keeps d t (x ∷ q) at_head (loop_move m now t at_head)
  take-Keeps d m now t x q e u (s, n, l) = rw (take_lem m now t x q e u) (
    refl,
    (s.1, n.1, (All-mono (λ y. cmp x y ≡ true) (Leads x) q (cmp-Leads x) s.0, n.0)),
    u,
    refl,
  )

  -- One move of the thread of a timer that is not stopped.
  pub loop-Keeps :
      (d : ℕ) (m : Flags) (now : ℕ) (t : Timer J) (q : List (Entry J)) (l : Loop J)
      → t.q ≡ q
      → t.stop_flag ≡ false
      → InOrder t.seq q l
      → Keeps d t q l (loop_move m now t l)
  unfolding loop_move
  loop-Keeps d m now t [] at_head e u s = ground arith
  loop-Keeps d m now t (x ∷ q) at_head e u s = take-Keeps d m now t x q e u s
  loop-Keeps d m now t [] (aiming next) e u s = ground arith
  loop-Keeps d m now t (x ∷ q) (aiming next) e u s =
      ground (arith, erase_first-insert x next q, swap-jobs d x next q, swap-InOrder t.seq x next q)
  loop-Keeps d m now t q (sleeping next) e u s = ground arith
  loop-Keeps d m now t q (firing next) e u s = ground (arith, append-nil (job_at d next))
  loop-Keeps d m now t q (posting next) e u s =
      ground (arith, handled_at-fire d now next next.j refl)
  loop-Keeps d m now t q ended e u s = ground arith
