-- ===== src/IoContext.antt =====
-- include/vix/async/core/io_context.hpp and src/core/io_context.cpp: the scheduler, the services that
-- are made on first use, and the shutdown. A service is known by its address, which is the number of
-- services made before it; the lifecycle mutex makes each access and each shutdown one step.
pub mod Services
pub mod Access
pub mod Reuse
pub mod Tests
use Prim.Native.String.{String}
use cnerium.Prelude.{
  ℕ, suc, ◌+◌, Bool, true, false, Option, none, some, List, [], ◌∷◌, ◌++◌, if◌then◌else◌,
}
use cnerium.Error.{Exception, runtime_error, Outcome, returns, throws}
use cnerium.Scheduler.{Handle, Scheduler}
use cnerium.Scheduler

pub data Service : Type 0 where
  cpu_pool timers signals net : Service

pub record IoContext (F : Type 0) : Type 0 where
  pub sched : Scheduler F
  pub cpu_pool_ : Option ℕ
  pub timer_ : Option ℕ
  pub signals_ : Option ℕ
  pub net_ : Option ℕ
  pub shutdown_done : Bool
  pub made : ℕ

abbrev pub shut_down : Exception
shut_down = runtime_error "io_context is shut down"

-- What the context does: it makes a service, hands one out or refuses to, or destroys one.
pub data Effect : Type 0 where
  makes : Service → ℕ → Effect
  destroys : Service → ℕ → Effect

-- The destruction of a service, if it is there.
pub reset_of : Service → Option ℕ → List Effect
reset_of s none = []
reset_of s (some a) = destroys s a ∷ []

module _ {F : Type 0} where
  unfoldable pub init : IoContext F
  init = record {
    sched = Scheduler.init;
    cpu_pool_ = none;
    timer_ = none;
    signals_ = none;
    net_ = none;
    shutdown_done = false;
    made = 0;
  }

  unfoldable pub post_fn : IoContext F → Option F → IoContext F
  post_fn c fn = record c { sched = Scheduler.post_fn c.sched fn }

  unfoldable pub post_handle : IoContext F → Handle → IoContext F
  post_handle c h = record c { sched = Scheduler.post_handle c.sched h }

  unfoldable pub stop : IoContext F → IoContext F
  stop c = record c { sched = Scheduler.stop c.sched }

  unfoldable pub slot : Service → IoContext F → Option ℕ
  slot cpu_pool c = c.cpu_pool_
  slot timers c = c.timer_
  slot signals c = c.signals_
  slot net c = c.net_

  unfoldable pub fill : Service → ℕ → IoContext F → IoContext F
  fill cpu_pool a c = record c { cpu_pool_ = some a; made = suc c.made }
  fill timers a c = record c { timer_ = some a; made = suc c.made }
  fill signals a c = record c { signals_ = some a; made = suc c.made }
  fill net a c = record c { net_ = some a; made = suc c.made }

  -- `ensure_not_shutdown`
  unfoldable pub ensure_not_shutdown : IoContext F → Outcome (Unit {0})
  ensure_not_shutdown c = if c.shutdown_done then throws shut_down else returns tt

  -- `cpu_pool`, `timers`, `signals` and `net`: the context, the service or the exception, and what was
  -- made.
  pub get_open : Service → Option ℕ → IoContext F → IoContext F × Outcome ℕ × List Effect
  unfolding fill
  get_open s (some a) c = (c, returns a, [])
  get_open s none c = (fill s c.made c, returns c.made, makes s c.made ∷ [])

  get_if : Service → Outcome (Unit {0}) → IoContext F → IoContext F × Outcome ℕ × List Effect
  unfolding get_open slot
  get_if s (throws e) c = (c, throws e, [])
  get_if s (returns u) c = get_open s (slot s c) c

  unfoldable pub get : Service → IoContext F → IoContext F × Outcome ℕ × List Effect
  unfolding get_if ensure_not_shutdown
  get s c = get_if s (ensure_not_shutdown c) c

  -- `shutdown`, which the destructor calls too; its destructions in their order.
  unfoldable pub shutdown : IoContext F → IoContext F × List Effect
  unfolding reset_of
  shutdown c = if c.shutdown_done then (c, []) else (
    record c {
      sched = Scheduler.stop c.sched;
      cpu_pool_ = none;
      timer_ = none;
      signals_ = none;
      net_ = none;
      shutdown_done = true;
    },
    reset_of net c.net_
        ++ (reset_of signals c.signals_
            ++ (reset_of timers c.timer_ ++ reset_of cpu_pool c.cpu_pool_)),
  )

-- What happens to a context, in some order: calls of its own, and all that happens to the scheduler
-- that `get_scheduler` and `run` lead to. What the work of a turn does is further events.
pub data Event (F : Type 0) : Type 0 where
  posts_fn : Option F → Event F
  posts : Handle → Event F
  stops : Event F
  gets : Service → Event F
  shuts : Event F
  of_sched : Scheduler.Event F → Event F

module _ {F : Type 0} where
  -- `get_scheduler`, with what is called on it, and `run`.
  unfoldable pub on_sched : IoContext F → Scheduler.Event F → IoContext F
  unfolding Scheduler.step
  on_sched c e = record c { sched = (Scheduler.step c.sched e).0 }

  unfoldable pub step : IoContext F → Event F → IoContext F × List Effect
  unfolding post_fn post_handle stop get shutdown on_sched
  step c (posts_fn fn) = (post_fn c fn, [])
  step c (posts h) = (post_handle c h, [])
  step c stops = (stop c, [])
  step c (gets s) = ((get s c).0, (get s c).2)
  step c shuts = shutdown c
  step c (of_sched e) = (on_sched c e, [])

  unfoldable pub exec : IoContext F → List (Event F) → IoContext F × List Effect
  exec c [] = (c, [])
  exec c (e ∷ es) = let (c1, here) = step c e in let (c2, later) = exec c1 es in (c2, here ++ later)
