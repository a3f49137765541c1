-- ===== src/Net.antt =====
-- src/net/asio_await.hpp: the awaitable that waits for an operation of Asio. An operation is a
-- parameter: how it refuses to start, or what its handler is called with, once, on the network
-- thread. A `C` is a call into Asio, with its arguments.
pub mod Await
pub mod Tcp
pub mod Udp
pub mod Dns
pub mod Setup
pub mod Service
pub mod Flow
pub mod Tests
use cnerium.Prelude.{
  ℕ, Bool, true, false, Option, none, some, List, [], ◌∷◌, ◌++◌, ◌==◌, ◌||◌, if◌then◌else◌,
}
use cnerium.Error.{ErrorCode, async, is_error, Exception, system_error, Outcome, returns, throws}
use cnerium.Cancel.{Flags, CancelToken, is_cancelled, cancelled_ec}
use cnerium.Scheduler.{Handle, null, Scheduler, post_handle}

pub data Operation (R : Type 0) : Type 0 where
  refuses : Exception → Operation R
  completes : ErrorCode → R → Operation R

-- `asio_result<T>`, with the exception of the awaitable.
pub record AsioResult (R : Type 0) : Type 0 where
  pub ec : ErrorCode
  pub value : Option R
  pub ex : Option Exception

-- The scheduler of the context, and the calls into Asio so far.
pub record World (G C : Type 0) : Type 0 where
  pub sched : Scheduler G
  pub calls : List C

-- The flags at the two times at which an await reads its token, when it suspends and when it is
-- resumed, and its coroutine.
pub record Moment : Type 0 where
  pub before : Flags
  pub after : Flags
  pub handle : Handle

module _ {R : Type 0} where
  unfoldable pub empty_result : AsioResult R
  empty_result = record { ec = record { value = 0; category = async }; value = none; ex = none }

  -- The completion handler: the value is stored only on success.
  unfoldable pub complete : ErrorCode → R → AsioResult R → AsioResult R
  complete ec v res = record res { ec = ec; value = if is_error ec then res.value else some v }

  -- `await_resume`: `none` where it takes a value that is not there. For void, `R` is the unit type.
  unfoldable pub await_resume : Flags → CancelToken → AsioResult R → Option (Outcome R)
  await_resume m ct res =
      if is_cancelled m ct then some (throws (system_error cancelled_ec)) else elim res.ex [
        | some e ↦ some (throws e)
        | none ↦
            if is_error res.ec
            then some (throws (system_error res.ec))
            else elim res.value [ none ↦ none | some v ↦ some (returns v) ]
      ]

module _ {G C : Type 0} where
  -- `resume_on_ctx`, for a context that is not null.
  unfoldable pub resume_on_ctx : Handle → World G C → World G C
  unfolding post_handle
  resume_on_ctx h w = if h == null then w else record w { sched = post_handle w.sched h }

  module _ {R : Type 0} where
    start_with : Handle → Operation R → AsioResult R → World G C → World G C × AsioResult R
    unfolding complete resume_on_ctx
    start_with h (refuses e) res w = (resume_on_ctx h w, record res { ex = some e })
    start_with h (completes ec v) res w = (resume_on_ctx h w, complete ec v res)

    -- `await_suspend`, with the completion of its operation, up to the post of the coroutine.
    unfoldable pub await_suspend :
        Flags
        → CancelToken
        → Handle
        → C
        → Operation R
        → AsioResult R
        → World G C
        → World G C × AsioResult R
    unfolding start_with resume_on_ctx
    await_suspend m ct h call op res w =
        if is_cancelled m ct
        then (resume_on_ctx h w, res)
        else start_with h op res (record w { calls = w.calls ++ call ∷ [] })

    -- `co_asio_void` and `co_asio_value`: the whole await.
    unfoldable pub co_asio :
        Moment → CancelToken → C → Operation R → World G C → World G C × Option (Outcome R)
    unfolding await_suspend await_resume empty_result
    co_asio m ct call op w =
        let (w', res) = await_suspend m.before ct m.handle call op empty_result w in
        (w', await_resume m.after ct res)

    -- What a coroutine does behind an await, unless it throws.
    unfoldable pub and_then :
        {S : Type 0}
        → World G C × Option (Outcome R)
        → (R → World G C → World G C × Option (Outcome S))
        → World G C × Option (Outcome S)
    and_then (w, none) k = (w, none)
    and_then (w, some (throws e)) k = (w, some (throws e))
    and_then (w, some (returns r)) k = k r w

-- A call that sets an error code, which is thrown if it is one; then the rest.
unfoldable pub checked :
    {C : Type 0} → C → ErrorCode → List C × Outcome (Unit {0}) → List C × Outcome (Unit {0})
checked c ec rest = if is_error ec then (c ∷ [], throws (system_error ec)) else (c ∷ rest.0, rest.1)
