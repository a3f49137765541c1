-- ===== src/Scheduler/Agenda.antt =====
-- What scheduler.hpp promises, as one list: everything is kept in the order in which it was posted,
-- and the next to run is the earliest coroutine, or the earliest callable where there is none.
use cnerium.Prelude.{
  ◌≡◌, refl, ap, Bool, true, false, Option, none, some, List, [], ◌∷◌, ◌++◌, append-nil, ◌==◌,
  if◌then◌else◌, arith, Bool-cases, inl, inr,
}
use cnerium.Scheduler.{
  Handle, null, Scheduler, Work, resumes, calls, Event, posts_fn, posts, stops, resets, enters,
  turns, turn, step, exec,
}

pub data Item (F : Type 0) : Type 0 where
  coroutine : Handle → Item F
  callable : Option F → Item F

pub record Agenda (F : Type 0) : Type 0 where
  pub items : List (Item F)
  pub closing : Bool
  pub open_ : Bool

module _ {F : Type 0} where
  -- The next item, and the list without it.
  unfoldable pub next : List (Item F) → Option (Item F × List (Item F))
  next [] = none
  next (coroutine h ∷ xs) = some (coroutine h, xs)
  next (callable f ∷ xs) = elim (next xs) [
    | some (coroutine h, rest) ↦ some (coroutine h, callable f ∷ rest)
    | _ ↦ some (callable f, xs)
  ]

  -- What an item does: nothing if it is null or empty.
  abbrev pub does : Item F → List (Work F)
  does (coroutine h) = if h == null then [] else resumes h ∷ []
  does (callable none) = []
  does (callable (some f)) = calls f ∷ []

  serve : Option (Item F × List (Item F)) → Agenda F → Agenda F × List (Work F)
  serve none a = (a, [])
  serve (some (x, rest)) a = (record a { items = rest }, does x)

  unfoldable pub happen : Agenda F → Event F → Agenda F × List (Work F)
  unfolding next serve
  happen a (posts_fn f) = (record a { items = a.items ++ callable f ∷ [] }, [])
  happen a (posts h) =
      (if h == null then a else record a { items = a.items ++ coroutine h ∷ [] }, [])
  happen a stops = (record a { closing = true }, [])
  happen a resets = (record a { closing = false }, [])
  happen a enters = (record a { open_ = true }, [])
  happen a turns =
      if a.open_
      then (if a.closing
          then (record a { items = []; open_ = false }, [])
          else serve (next a.items) a)
      else (a, [])

  unfoldable pub run_agenda : Agenda F → List (Event F) → Agenda F × List (Work F)
  run_agenda a [] = (a, [])
  run_agenda a (e ∷ es) =
      let (a1, done) = happen a e in let (a2, later) = run_agenda a1 es in (a2, done ++ later)

  -- The two queues of a list.
  abbrev pub handles_of : List (Item F) → List Handle
  handles_of [] = []
  handles_of (coroutine h ∷ xs) = h ∷ handles_of xs
  handles_of (callable f ∷ xs) = handles_of xs

  abbrev pub fns_of : List (Item F) → List (Option F)
  fns_of [] = []
  fns_of (coroutine h ∷ xs) = fns_of xs
  fns_of (callable f ∷ xs) = f ∷ fns_of xs

  abbrev pub queues : Agenda F → Scheduler F
  queues a = record {
    handle_q = handles_of a.items;
    fn_q = fns_of a.items;
    stop_requested = a.closing;
    running = a.open_;
  }

  handles_of-append :
      (xs ys : List (Item F)) → handles_of (xs ++ ys) ≡ handles_of xs ++ handles_of ys
  handles_of-append [] ys = refl
  handles_of-append (coroutine h ∷ xs) ys = ap (◌∷◌ h) (handles_of-append xs ys)
  handles_of-append (callable f ∷ xs) ys = handles_of-append xs ys

  fns_of-append : (xs ys : List (Item F)) → fns_of (xs ++ ys) ≡ fns_of xs ++ fns_of ys
  fns_of-append [] ys = refl
  fns_of-append (coroutine h ∷ xs) ys = fns_of-append xs ys
  fns_of-append (callable f ∷ xs) ys = ap (◌∷◌ f) (fns_of-append xs ys)

  -- What the next item is, by the two queues.
  NextOf : List (Item F) → List Handle → List (Option F) → Type 0
  NextOf xs [] [] = next xs ≡ none
  NextOf xs [] (f ∷ fs) =
      (rest : List (Item F)) × (next xs ≡ some (callable f, rest))
      × (handles_of rest ≡ [])
      × (fns_of rest ≡ fs)
  NextOf xs (h ∷ hs) fs =
      (rest : List (Item F)) × (next xs ≡ some (coroutine h, rest))
      × (handles_of rest ≡ hs)
      × (fns_of rest ≡ fs)

  NextOf-callable :
      (f : Option F) (xs : List (Item F)) (hs : List Handle) (fs : List (Option F))
      → handles_of xs ≡ hs
      → fns_of xs ≡ fs
      → NextOf xs hs fs
      → NextOf (callable f ∷ xs) hs (f ∷ fs)
  unfolding NextOf next
  NextOf-callable f xs [] [] eh ef n = (xs, rw n, eh, ef)
  NextOf-callable f xs [] (g ∷ fs) eh ef n = (xs, rw n.1, eh, ef)
  NextOf-callable f xs (h ∷ hs) fs eh ef n = (callable f ∷ n.0, rw n.1, n.2, ap (◌∷◌ f) n.3)

  next-NextOf : (xs : List (Item F)) → NextOf xs (handles_of xs) (fns_of xs)
  unfolding NextOf next
  next-NextOf [] = refl
  next-NextOf (coroutine h ∷ xs) = (xs, refl, refl, refl)
  next-NextOf (callable f ∷ xs) =
      NextOf-callable f xs (handles_of xs) (fns_of xs) refl refl (next-NextOf xs)

  -- A turn that is not stopped.
  take_work-serve :
      (a : Agenda F) (hs : List Handle) (fs : List (Option F))
      → a.open_ ≡ true
      → a.closing ≡ false
      → handles_of a.items ≡ hs
      → fns_of a.items ≡ fs
      → NextOf a.items hs fs
      → step (queues a) turns ≡ (queues (happen a turns).0, (happen a turns).1)
  unfolding step turn happen NextOf
  take_work-serve a [] [] o c eh ef n = ground arith
  take_work-serve a [] (none ∷ fs) o c eh ef n = ground arith
  take_work-serve a [] (some f ∷ fs) o c eh ef n = ground arith
  take_work-serve a (h ∷ hs) fs o c eh ef n = ground arith

  step-happen :
      (a : Agenda F) (e : Event F) → step (queues a) e ≡ (queues (happen a e).0, (happen a e).1)
  unfolding step happen
  step-happen a (posts_fn f) = ground (
    arith,
    handles_of-append a.items (callable f ∷ []),
    fns_of-append a.items (callable f ∷ []),
    append-nil (handles_of a.items),
  )
  step-happen a (posts h) = ground (
    arith,
    handles_of-append a.items (coroutine h ∷ []),
    fns_of-append a.items (coroutine h ∷ []),
    append-nil (fns_of a.items),
  )
  step-happen a stops = refl
  step-happen a resets = refl
  step-happen a enters = refl
  step-happen a turns = elim (Bool-cases a.open_) [
    | inl o ↦ elim (Bool-cases a.closing) [
      | inl c ↦ ground arith
      | inr c ↦
          take_work-serve a (handles_of a.items) (fns_of a.items) o c refl refl
            (next-NextOf a.items)
    ]
    | inr o ↦ ground arith
  ]

  -- The two queues of the scheduler, flags and empty callables included, are those of one list in
  -- posting order, from which each turn takes the earliest coroutine, or the earliest callable where
  -- there is no coroutine: for every sequence of posts, stops, resets, entries and turns, from the
  -- queues of any such list, the same work is run in the same order, and the queues are again those
  -- of the list.
  pub exec-run_agenda :
      (a : Agenda F) (es : List (Event F))
      → exec (queues a) es ≡ (queues (run_agenda a es).0, (run_agenda a es).1)
  unfolding exec run_agenda
  exec-run_agenda a [] = refl
  exec-run_agenda a (e ∷ es) = rw (step-happen a e, exec-run_agenda (happen a e).0 es) refl
