-- ===== src/Timer.antt =====
-- include/vix/async/core/timer.hpp and src/core/timer.cpp: the ordered queue of entries and the loop
-- of the timer thread, one locked section or clock reading at a time. Time points and durations of
-- the steady clock are numbers; a job is `none` where the `unique_ptr` is null.
pub mod Order
pub mod Firing
pub mod Account
pub mod Fifo
pub mod Shutdown
pub mod Sorted
pub mod Tests
use cnerium.Prelude.{
  ℕ, suc, ◌+◌, ◌%◌, ◌^◌, ◌≡◌, Bool, true, false, not, ◌||◌, Option, none, some, List, [], ◌∷◌, ◌++◌,
  map, is_empty, ltb, leb, ◌==◌, if◌then◌else◌,
}
use cnerium.Cancel.{Flags, CancelToken, is_cancelled, cancelled_ec}
use cnerium.Scheduler.{Handle, null, Scheduler, post_handle}
use cnerium.Error.{Outcome, returns, throws, system_error}

pub record Entry (J : Type 0) : Type 0 where
  pub when : ℕ
  pub id : ℕ  -- uint64_t
  pub ct : CancelToken
  pub j : Option J

pub record Timer (J : Type 0) : Type 0 where
  pub q : List (Entry J)
  pub seq : ℕ  -- uint64_t
  pub stop_flag : Bool

-- Where the timer thread stands in `timer_loop`, with its local `next`.
pub data Loop (J : Type 0) : Type 0 where
  -- at the head of the outer loop, or in the wait for an entry
  at_head : Loop J
  -- at the head of the inner loop
  aiming : Entry J → Loop J
  -- in `wait_until`
  sleeping : Entry J → Loop J
  -- behind the inner loop
  firing : Entry J → Loop J
  -- behind the check of the token
  posting : Entry J → Loop J
  ended : Loop J

-- What becomes of an entry: its job is posted to the context at some time, or is destroyed because
-- its token is cancelled, or because the timer is stopped.
pub data Fate (J : Type 0) : Type 0 where
  fires : (at : ℕ) → Entry J → Fate J
  cancels : Entry J → Fate J
  clears : Entry J → Fate J

module _ {J : Type 0} where
  unfoldable pub init : Timer J
  init = record { q = []; seq = 0; stop_flag = false }

  -- `cmp`
  unfoldable pub cmp : Entry J → Entry J → Bool
  cmp a b = if not (a.when == b.when) then ltb a.when b.when else ltb a.id b.id

  -- `multiset::insert` puts an element behind those that are not greater.
  unfoldable pub insert : Entry J → List (Entry J) → List (Entry J)
  insert e [] = e ∷ []
  insert e (x ∷ xs) = if cmp e x then e ∷ x ∷ xs else x ∷ insert e xs

  unfoldable pub schedule : Timer J → ℕ → Option J → CancelToken → Timer J
  schedule t tp none ct = t
  schedule t tp (some j) ct =
      if t.stop_flag
      then t
      else let id = (t.seq + 1) % 2 ^ 64 in
        record t { q = insert (record { when = tp; id = id; ct = ct; j = some j }) t.q; seq = id }

  unfoldable pub after : Timer J → (now d : ℕ) → J → CancelToken → Timer J
  unfolding schedule
  after t now d j ct = schedule t (now + d) (some j) ct

  unfoldable pub stop : Timer J → Timer J
  stop t = record t { q = []; stop_flag = true }

  -- The first section of the outer loop.
  take_first : List (Entry J) → Timer J → Timer J × Loop J
  take_first [] t = (t, at_head)
  take_first (x ∷ xs) t = (record t { q = xs }, aiming x)

  unfoldable pub head_move : Timer J → Timer J × Loop J
  unfolding take_first
  head_move t = if t.stop_flag then (t, ended) else take_first t.q t

  -- The rest of a round of the inner loop, under the lock. `it` is the first entry of the queue:
  -- `next` goes back into the queue, and `it` is taken out in its stead.
  pub erase_first : List (Entry J) → List (Entry J)
  erase_first [] = []
  erase_first (x ∷ xs) = xs

  swap_or_sleep : List (Entry J) → Timer J → Entry J → Timer J × Loop J
  unfolding erase_first
  swap_or_sleep [] t next = (t, sleeping next)
  swap_or_sleep (x ∷ xs) t next =
      if ltb x.when next.when
      then (record t { q = erase_first (insert next (x ∷ xs)) }, aiming x)
      else (t, sleeping next)

  unfoldable pub aim_move : ℕ → Timer J → Entry J → Timer J × Loop J
  unfolding swap_or_sleep
  aim_move now t next =
      if leb next.when now
      then (t, firing next)
      else if t.stop_flag
      then (t, ended)
      else swap_or_sleep t.q t next

  -- A wakeup, or the timeout, of `wait_until`: its predicate is `stop_` alone.
  unfoldable pub sleep_move : ℕ → Timer J → Entry J → Loop J
  sleep_move now t next =
      if t.stop_flag then ended else if leb next.when now then aiming next else sleeping next

  -- Behind the inner loop: the check of the token, with the flags at that time.
  unfoldable pub check_move : Flags → Entry J → Loop J × List (Fate J)
  check_move m next =
      if is_cancelled m next.ct then (at_head, cancels next ∷ []) else (posting next, [])

  -- The post, in a section of the scheduler.
  unfoldable pub fire_move : ℕ → Entry J → List (Fate J)
  fire_move now next = elim next.j [ none ↦ [] | some j ↦ fires now next ∷ [] ]

  -- What the loop destroys when it ends with `next` in its hands.
  abbrev dropped : Entry J → Loop J → List (Fate J)
  dropped next ended = clears next ∷ []
  dropped next _ = []

  unfoldable pub loop_move : Flags → ℕ → Timer J → Loop J → Timer J × Loop J × List (Fate J)
  unfolding head_move aim_move sleep_move check_move fire_move
  loop_move m now t at_head = ((head_move t).0, (head_move t).1, [])
  loop_move m now t (aiming next) =
      ((aim_move now t next).0, (aim_move now t next).1, dropped next (aim_move now t next).1)
  loop_move m now t (sleeping next) =
      (t, sleep_move now t next, dropped next (sleep_move now t next))
  loop_move m now t (firing next) = (t, (check_move m next).0, (check_move m next).1)
  loop_move m now t (posting next) = (t, at_head, fire_move now next)
  loop_move m now t ended = (t, ended, [])

-- The timer, its thread and the steady clock.
pub record World (J : Type 0) : Type 0 where
  pub timer : Timer J
  pub loop : Loop J
  pub now : ℕ

-- Whether the destructor's join returns: at once if the thread itself runs the destructor, and is
-- detached; else when the loop has ended.
unfoldable pub joins : {J : Type 0} → Bool → Loop J → Bool
joins self ended = true
joins self _ = self

-- What happens to a timer, in some order.
pub data Event (J : Type 0) : Type 0 where
  schedules : ℕ → Option J → CancelToken → Event J
  stops : Event J
  passes : ℕ → Event J
  moves : Flags → Event J

module _ {J : Type 0} where
  unfoldable pub step : World J → Event J → World J × List (Fate J)
  unfolding schedule stop loop_move
  step w (schedules tp j ct) = (record w { timer = schedule w.timer tp j ct }, [])
  step w stops = (record w { timer = stop w.timer }, map clears w.timer.q)
  step w (passes d) = (record w { now = w.now + d }, [])
  step w (moves m) =
      let (t, l, fates) = loop_move m w.now w.timer w.loop in
      (record w { timer = t; loop = l }, fates)

  unfoldable pub exec : World J → List (Event J) → World J × List (Fate J)
  exec w [] = (w, [])
  exec w (e ∷ es) =
      let (w1, fates) = step w e in let (w2, later) = exec w1 es in (w2, fates ++ later)

-- The awaitable of `sleep_for`: whether it is ready, how it suspends a coroutine, and how the await
-- ends once that is resumed. Its job is one that posts the coroutine, if it is not null.
unfoldable pub sleep_ready : ℕ → Bool
sleep_ready d = d == 0

unfoldable pub sleep_suspend : Timer Handle → (now d : ℕ) → Handle → CancelToken → Timer Handle
unfolding after
sleep_suspend t now d h ct = after t now d h ct

unfoldable pub sleep_job : {G : Type 0} → Handle → Scheduler G → Scheduler G
unfolding post_handle
sleep_job h sched = if h == null then sched else post_handle sched h

unfoldable pub sleep_resume : Flags → CancelToken → Outcome (Unit {0})
sleep_resume m ct = if is_cancelled m ct then throws (system_error cancelled_ec) else returns tt
