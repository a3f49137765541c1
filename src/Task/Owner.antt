-- ===== src/Task/Owner.antt =====
-- Who owns the frames of task.hpp: a task object, or nobody any more.
use cnerium.Prelude.{
  ℕ, suc, ◌+◌, ◌≡◌, ◌≢◌, refl, ap, ◌∙◌, Option, none, some, List, [], ◌∷◌, ◌++◌, inl, inr,
  Bool-cases, ==_iff, length, get_elem?, set, total, total-append, total-set, get_elem?-set_ne,
  get_elem?-set_self, get_elem?-lt, arith, ◌==◌,
}
use cnerium.Scheduler.{Handle, null}
use cnerium.Task.{
  World, Event, creates, move_constructs, move_assigns, destructs, releases, starts, finishes, Fate,
  destroys, detaches, gives, create, destroy, move_construct, move_assign, release, start, on, step,
  exec,
}

abbrev pub handle_of : Fate → Handle
handle_of (destroys h) = h
handle_of (detaches h) = h
handle_of (gives h) = h

abbrev pub fate_weight : (Handle → ℕ) → Fate → ℕ
fate_weight v f = v (handle_of f)

module _ {G V : Type 0} where
  abbrev made : World G V → Event V → List Handle
  made w creates = suc (length w.frames) ∷ []
  made w _ = []

  -- The handles of the coroutines that are created.
  pub created : World G V → List (Event V) → List Handle
  created w [] = []
  created w (e ∷ es) = made w e ++ created (step w e).0 es

  module _ (v : Handle → ℕ) where
    destroy-weight :
        (w : World G V) (i : ℕ) (h : Handle)
        → v null ≡ 0
        → get_elem? w.tasks i ≡ some h
        → (total (fate_weight v) (destroy w i h).1 + total v (destroy w i h).0.tasks
            ≡ total v w.tasks)
          × (get_elem? (destroy w i h).0.tasks i ≡ some null)
    unfolding destroy
    destroy-weight w i h z e = elim (Bool-cases (h == null)) [
      | inl empty ↦ rw (destroy, empty) (omega arith, e ∙ ap some ((==_iff h null).0 empty))
      | inr owned ↦
          rw (destroy, owned)
            (
              omega (arith, total-set v w.tasks i null e),
              get_elem?-set_self w.tasks i null (get_elem?-lt w.tasks i e),
            )
    ]

    destroy-other :
        (w : World G V) (i j : ℕ) (h : Handle)
        → i ≢ j
        → get_elem? (destroy w i h).0.tasks j ≡ get_elem? w.tasks j
    unfolding destroy
    destroy-other w i j h n = elim (Bool-cases (h == null)) [
      | inl empty ↦ rw (destroy, empty) refl
      | inr owned ↦ rw (destroy, owned) (get_elem?-set_ne w.tasks null n)
    ]

    assign-weight :
        (w : World G V) (i j : ℕ) (h k : Handle)
        → v null ≡ 0
        → get_elem? w.tasks i ≡ some h
        → get_elem? w.tasks j ≡ some k
        → total (fate_weight v) (move_assign w i j h k).1 + total v (move_assign w i j h k).0.tasks
          ≡ total v w.tasks
    unfolding move_assign
    assign-weight w i j h k z e f = elim (Bool-cases (i == j)) [
      | inl same ↦ rw (move_assign, same) (omega arith)
      | inr other ↦
          let n : i ≢ j = λ p. ground (arith, (==_iff i j).1 p) in
          let (here, gone) = destroy-weight w i h z e in
          let ts = (destroy w i h).0.tasks in
          let there = get_elem?-set_ne ts k n ∙ destroy-other w i j h n ∙ f in
          rw (move_assign, other)
            (omega (arith, here, total-set v ts i k gone, total-set v (set ts i k) j null there))
    ]

    start-weight :
        (w : World G V) (i : ℕ) (h : Handle)
        → v null ≡ 0
        → get_elem? w.tasks i ≡ some h
        → total (fate_weight v) (start w i h).1 + total v (start w i h).0.tasks ≡ total v w.tasks
    unfolding start
    start-weight w i h z e = ground (arith, total-set v w.tasks i null e)

    release-weight :
        (w : World G V) (i : ℕ) (h : Handle)
        → v null ≡ 0
        → get_elem? w.tasks i ≡ some h
        → total (fate_weight v) (release w i h).1 + total v (release w i h).0.tasks
          ≡ total v w.tasks
    unfolding release
    release-weight w i h z e = omega (arith, total-set v w.tasks i null e)

    construct-weight :
        (w : World G V) (i : ℕ) (h : Handle)
        → v null ≡ 0
        → get_elem? w.tasks i ≡ some h
        → total v (move_construct w i h).tasks ≡ total v w.tasks
    unfolding move_construct
    construct-weight w i h z e =
        omega (arith, total-append v (set w.tasks i null) (h ∷ []), total-set v w.tasks i null e)

    on-weight :
        (op : Handle → World G V × List Fate) (w : World G V) (o : Option Handle)
        → ((h : Handle)
            → o ≡ some h
            → total (fate_weight v) (op h).1 + total v (op h).0.tasks ≡ total v w.tasks)
        → total (fate_weight v) (on op w o).1 + total v (on op w o).0.tasks ≡ total v w.tasks
    unfolding on
    on-weight op w none k = omega arith
    on-weight op w (some h) k = k h refl

    step-weight :
        (w : World G V) (e : Event V)
        → v null ≡ 0
        → total (fate_weight v) (step w e).1 + total v (step w e).0.tasks
          ≡ total v w.tasks + total v (made w e)
    unfolding step create
    step-weight w creates z = omega (arith, total-append v w.tasks (suc (length w.frames) ∷ []))
    step-weight w (move_constructs i) z = omega (
      arith,
      on-weight (λ h. (move_construct w i h, [])) w (get_elem? w.tasks i)
          (λ h e. omega (arith, construct-weight w i h z e)),
    )
    step-weight w (move_assigns i j) z = omega (
      arith,
      on-weight (λ h. on (λ k. move_assign w i j h k) w (get_elem? w.tasks j)) w
          (get_elem? w.tasks i)
          (λ h e.
            on-weight (λ k. move_assign w i j h k) w (get_elem? w.tasks j)
              (λ k f. assign-weight w i j h k z e f)),
    )
    step-weight w (destructs i) z = omega (
      arith,
      on-weight (destroy w i) w (get_elem? w.tasks i) (λ h e. (destroy-weight w i h z e).0),
    )
    step-weight w (releases i) z =
        omega
          (arith, on-weight (release w i) w (get_elem? w.tasks i) (λ h e. release-weight w i h z e))
    step-weight w (starts i) z =
        omega (arith, on-weight (start w i) w (get_elem? w.tasks i) (λ h e. start-weight w i h z e))
    step-weight w (finishes h o) z = omega arith

    -- No frame is destroyed twice, leaked or owned twice by the task objects: through every sequence
    -- of creations, moves, assignments, destructions, releases and starts, each coroutine created has
    -- exactly one owner, or was destroyed, started or released, exactly once, as counted by any
    -- weight that gives null none.
    pub exec-owned :
        (w : World G V) (es : List (Event V))
        → v null ≡ 0
        → total (fate_weight v) (exec w es).1 + total v (exec w es).0.tasks
          ≡ total v w.tasks + total v (created w es)
    unfolding exec created
    exec-owned w [] z = omega arith
    exec-owned w (e ∷ es) z = omega (
      arith,
      step-weight w e z,
      exec-owned (step w e).0 es z,
      total-append (fate_weight v) (step w e).1 (exec (step w e).0 es).1,
      total-append v (made w e) (created (step w e).0 es),
    )
