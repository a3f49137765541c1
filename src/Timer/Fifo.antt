-- ===== src/Timer/Fifo.antt =====
-- The order in which timer.cpp handles entries with equal deadlines, by the sequence numbers that
-- `schedule` gives.
-- The jobs with the deadline `d`, in order: of an entry, of a queue, of what the thread holds, of
-- what has been posted or destroyed, and of what is scheduled.
pub mod Queue
pub mod Moves
pub mod Line
use mathlib.Core.Bool.{false≢true}
use cnerium.Prelude.{
  ℕ, suc, ◌+◌, ◌%◌, ◌^◌, ◌≤◌, ◌<◌, ◌≡◌, refl, sym, ap, ◌∙◌, Bool, true, false, ◌||◌, Option, none,
  some, List, [], ◌∷◌, ◌++◌, append-nil, append_assoc, All, arith, Bool-cases, inl, inr, ltb, ◌==◌,
  if◌then◌else◌, somes, append_chain,
}
use cnerium.Cancel.{Flags, CancelToken}
use cnerium.Timer.{
  Entry, Timer, Loop, at_head, aiming, sleeping, firing, posting, ended, Fate, fires, cancels,
  clears, World, Event, schedules, stops, passes, moves, insert, erase_first, cmp, schedule,
  fire_move, loop_move, step, exec, init,
}
use cnerium.Timer.Account.{erase_first-insert}
use cnerium.Timer.Firing.{Unstopped}

abbrev pub job_at : {J : Type 0} → ℕ → Entry J → List J
job_at d e = if e.when == d then somes (e.j ∷ []) else []

abbrev pub jobs_at : {J : Type 0} → ℕ → List (Entry J) → List J
jobs_at d [] = []
jobs_at d (e ∷ q) = job_at d e ++ jobs_at d q

abbrev pub held_at : {J : Type 0} → ℕ → Loop J → List J
held_at d (aiming e) = job_at d e
held_at d (sleeping e) = job_at d e
held_at d (firing e) = job_at d e
held_at d (posting e) = job_at d e
held_at d _ = []

abbrev pub handled_at : {J : Type 0} → ℕ → List (Fate J) → List J
handled_at d [] = []
handled_at d (fires at e ∷ fs) = job_at d e ++ handled_at d fs
handled_at d (cancels e ∷ fs) = job_at d e ++ handled_at d fs
handled_at d (clears e ∷ fs) = job_at d e ++ handled_at d fs

abbrev pub scheduled_at : {J : Type 0} → ℕ → List (Event J) → List J
scheduled_at d [] = []
scheduled_at d (schedules tp none ct ∷ es) = scheduled_at d es
scheduled_at d (schedules tp (some j) ct ∷ es) =
    (if tp == d then j ∷ [] else []) ++ scheduled_at d es
scheduled_at d (_ ∷ es) = scheduled_at d es

-- How many jobs are scheduled.
abbrev pub schedulings : {J : Type 0} → List (Event J) → ℕ
schedulings [] = 0
schedulings (schedules tp (some j) ct ∷ es) = suc (schedulings es)
schedulings (_ ∷ es) = schedulings es

-- Each entry comes before all later ones.
abbrev pub Strict : {J : Type 0} → List (Entry J) → Type 0
Strict [] = Unit
Strict (x ∷ q) = All (λ y. cmp x y ≡ true) q × Strict q

-- `n` comes before `y` if they have the same deadline.
abbrev pub Leads : {J : Type 0} → Entry J → Entry J → Type 0
Leads n y = (if y.when == n.when then ltb n.id y.id else true) ≡ true

abbrev pub Numbered : {J : Type 0} → ℕ → Entry J → Type 0
Numbered seq e = e.id ≤ seq

abbrev pub HoldsFirst : {J : Type 0} → ℕ → List (Entry J) → Loop J → Type 0
HoldsFirst seq q (aiming n) = All (Leads n) q × Numbered seq n
HoldsFirst seq q (sleeping n) = All (Leads n) q × Numbered seq n
HoldsFirst seq q _ = Unit

-- The queue is in strict order, its numbers are given out, and the thread holds the entry that is
-- first at its deadline.
abbrev pub InOrder : {J : Type 0} → ℕ → List (Entry J) → Loop J → Type 0
InOrder seq q l = Strict q × All (Numbered seq) q × HoldsFirst seq q l
