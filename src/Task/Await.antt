-- ===== src/Task/Await.antt =====
-- What an await of a task of task.hpp passes on, and what becomes of the frame.
use cnerium.Prelude.{
  Bool-cases, inl, inr, zero, suc, ◌≡◌, ◌↔◌, refl, ap, ◌∙◌, true, false, Option, none, some,
  get_elem?-set_self, get_elem?-lt, arith, ◌==◌,
}
use cnerium.Error.{Outcome, returns, throws}
use cnerium.Scheduler.{Handle, null}
use cnerium.Task.{
  begun, done, destroyed, Frame, Heap, frame_at, write, store_outcome, final_suspend, finish,
  finish_from, await_ready, set_continuation, is_done, live, result_of, void_result_of,
  await_suspend, await_resume, await_resume_void,
}

abbrev pub void_outcome : {V : Type 0} → Outcome V → Outcome (Unit {0})
void_outcome (returns v) = returns tt
void_outcome (throws e) = throws e

abbrev pub HasEnded : {V : Type 0} → Option (Frame V) → Type 0
HasEnded none = ⊥
HasEnded (some f) = f.status ≡ destroyed

module _ {V : Type 0} where
  pub frame_at-write :
      (fs : Heap V) (h : Handle) (f g : Frame V)
      → frame_at fs h ≡ some g
      → frame_at (write fs h f) h ≡ some f
  unfolding frame_at write
  frame_at-write fs zero f g e = cc
  frame_at-write fs (suc k) f g e = get_elem?-set_self fs k f (get_elem?-lt fs k e)

  ended : Heap V → Handle → Handle → Frame V → Outcome V → Heap V
  ended fs h awaiting f o = write (write fs h (set_continuation awaiting f)) h (record f {
    promise = store_outcome o (record f.promise { continuation = awaiting });
    status = done;
  })

  suspend-write :
      (fs : Heap V) (h awaiting : Handle) (f : Frame V)
      → frame_at fs h ≡ some f
      → await_suspend fs h awaiting ≡ (write fs h (set_continuation awaiting f), h)
  unfolding await_suspend
  suspend-write fs h awaiting f e = rw (await_suspend, e) refl

  finish-begun :
      (fs : Heap V) (h : Handle) (f : Frame V) (o : Outcome V)
      → f.status ≡ begun
      → finish fs h o (some f)
        ≡ final_suspend fs h (record f { promise = store_outcome o f.promise })
  unfolding finish finish_from
  finish-begun fs h f o s = ap (λ st. finish_from st fs h o f) s

  suspend-awaited :
      (fs : Heap V) (h : Handle) (f : Frame V)
      → f.promise.continuation == null ≡ false
      → final_suspend fs h f ≡ (write fs h (record f { status = done }), f.promise.continuation)
  unfolding final_suspend
  suspend-awaited fs h f a = rw (final_suspend, a) refl

  finish-awaited :
      (fs : Heap V) (h : Handle) (f : Frame V) (o : Outcome V)
      → f.status ≡ begun
      → f.promise.continuation == null ≡ false
      → finish fs h o (some f) ≡ (
        write fs h (record f { promise = store_outcome o f.promise; status = done }),
        f.promise.continuation,
      )
  unfolding store_outcome
  finish-awaited fs h f (returns v) s a =
      finish-begun fs h f (returns v) s
      ∙ suspend-awaited fs h (record f { promise = record f.promise { value = some v } }) a
  finish-awaited fs h f (throws x) s a =
      finish-begun fs h f (throws x) s
      ∙ suspend-awaited fs h (record f { promise = record f.promise { exception = some x } }) a

  suspend-finish :
      (fs : Heap V) (h awaiting : Handle) (f : Frame V) (o : Outcome V)
      → frame_at fs h ≡ some f
      → f.status ≡ begun
      → awaiting == null ≡ false
      → let (fs1, first) = await_suspend fs h awaiting in
        finish fs1 h o (frame_at fs1 h) ≡ (ended fs h awaiting f o, awaiting)
  unfolding ended set_continuation
  suspend-finish fs h awaiting f o e s a =
      rw (suspend-write fs h awaiting f e, frame_at-write fs h (set_continuation awaiting f) f e)
        (finish-awaited (write fs h (set_continuation awaiting f)) h (set_continuation awaiting f) o
          s a)

  resume-ended :
      (fs : Heap V) (h : Handle) (f : Frame V) (o : Outcome V)
      → frame_at fs h ≡ some (record f { promise = store_outcome o f.promise; status = done })
      → f.promise.exception ≡ none
      → (await_ready fs h ≡ true)
        × (await_resume fs h ≡ some o)
        × (await_resume_void fs h ≡ some (void_outcome o))
  unfolding await_ready await_resume await_resume_void store_outcome is_done live result_of
      void_result_of
  resume-ended fs h f (returns v) e x = ground arith
  resume-ended fs h f (throws t) e x = ground arith

  -- An await of a task that has not ended transfers to its coroutine, and when that ends, by a value or an
  -- exception, control comes back to the awaiting coroutine, which finds the task ready and gets that
  -- same outcome; so too if the task has been started. For void the value is dropped.
  pub await_resume-finish :
      (fs : Heap V) (h awaiting : Handle) (f : Frame V) (o : Outcome V)
      → frame_at fs h ≡ some f
      → f.status ≡ begun
      → f.promise.exception ≡ none
      → awaiting == null ≡ false
      → let (fs1, first) = await_suspend fs h awaiting in
        let (fs2, next) = finish fs1 h o (frame_at fs1 h) in
        (first ≡ h)
        × (next ≡ awaiting)
        × ((await_ready fs2 h ≡ true)
            × (await_resume fs2 h ≡ some o)
            × (await_resume_void fs2 h ≡ some (void_outcome o)))
  unfolding ended set_continuation
  await_resume-finish fs h awaiting f o e s x a =
      let both = suspend-finish fs h awaiting f o e s a in
      let here =
        frame_at-write (write fs h (set_continuation awaiting f)) h
          (record f {
            promise = store_outcome o (record f.promise { continuation = awaiting });
            status = done;
          })
          (set_continuation awaiting f) (frame_at-write fs h (set_continuation awaiting f) f e) in
      rw both (
        ap (λ p. p.1) (suspend-write fs h awaiting f e),
        refl,
        resume-ended (ended fs h awaiting f o) h (set_continuation awaiting f) o here x,
      )

  pub finish-frame :
      (fs : Heap V) (h awaiting : Handle) (f : Frame V) (o : Outcome V)
      → frame_at fs h ≡ some f
      → f.status ≡ begun
      → awaiting == null ≡ false
      → let fs1 = (await_suspend fs h awaiting).0 in
        let fs2 = (finish fs1 h o (frame_at fs1 h)).0 in (g : Frame V) × (frame_at fs2 h ≡ some g)
  unfolding ended
  finish-frame fs h awaiting f o e s a = (
    record f {
      promise = store_outcome o (record f.promise { continuation = awaiting });
      status = done;
    },
    ap (λ p. frame_at p.0 h) (suspend-finish fs h awaiting f o e s a)
        ∙ frame_at-write (write fs h (set_continuation awaiting f)) h _
            (set_continuation awaiting f) (frame_at-write fs h (set_continuation awaiting f) f e),
  )

  suspend-destroyed_iff :
      (fs : Heap V) (h : Handle) (g f : Frame V)
      → frame_at fs h ≡ some g
      → f.status ≡ begun
      → ((final_suspend fs h f).1 ≡ f.promise.continuation)
        × (HasEnded (frame_at (final_suspend fs h f).0 h)
            ↔ ((f.promise.detached ≡ true) × (f.promise.continuation ≡ null)))
  unfolding final_suspend
  suspend-destroyed_iff fs h g f e s =
      let gone = frame_at-write fs h (record f { status = destroyed }) g e in
      let kept = frame_at-write fs h (record f { status = done }) g e in
      elim (Bool-cases (f.promise.continuation == null)) [
        | inl free ↦ elim (Bool-cases f.promise.detached) [
          | inl loose ↦ ground (arith, gone)
          | inr owned ↦ ground (arith, kept)
        ]
        | inr awaited ↦ ground (arith, kept)
      ]

  -- The end of a coroutine resumes the one that awaits it, and the frame is destroyed there and then
  -- exactly if the task is detached and nobody awaits it.
  pub finish-destroyed_iff :
      (fs : Heap V) (h : Handle) (f : Frame V) (o : Outcome V)
      → frame_at fs h ≡ some f
      → f.status ≡ begun
      → ((finish fs h o (some f)).1 ≡ f.promise.continuation)
        × (HasEnded (frame_at (finish fs h o (some f)).0 h)
            ↔ ((f.promise.detached ≡ true) × (f.promise.continuation ≡ null)))
  unfolding store_outcome
  finish-destroyed_iff fs h f (returns v) e s = rw (finish-begun fs h f (returns v) s) (
      suspend-destroyed_iff fs h f (record f { promise = record f.promise { value = some v } }) e s)
  finish-destroyed_iff fs h f (throws x) e s = rw (finish-begun fs h f (throws x) s) (
      suspend-destroyed_iff fs h f (record f { promise = record f.promise { exception = some x } })
        e s)
