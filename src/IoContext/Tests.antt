-- ===== src/IoContext/Tests.antt =====
-- Runs of the io_context of io_context.cpp, and its theorems at concrete inputs.
use cnerium.Prelude.{ℕ, ◌+◌, ◌≡◌, false, refl, List, [], ◌∷◌, total}
use cnerium.Error.{throws}
use cnerium.Scheduler
use cnerium.IoContext.{
  cpu_pool, timers, signals, net, makes, destroys, shut_down, Event, posts, gets, shuts, of_sched,
  init, slot, fill, get, ensure_not_shutdown, shutdown, step, exec,
}
use cnerium.IoContext.Services.{held, made_weight, gone_weight, exec-held}
use cnerium.IoContext.Access.{Down, exec-shut}

-- The services go in the order network, signals, timer, pool, whatever order they were made in.
abbrev life : List (Event ℕ)
life = gets timers ∷ gets net ∷ gets timers ∷ gets cpu_pool ∷ shuts ∷ gets signals ∷ shuts ∷ []

order_of_life :
    (exec (init {F = ℕ}) life).1
    ≡ makes timers 0
      ∷ makes net 1
      ∷ makes cpu_pool 2
      ∷ destroys net 1
      ∷ destroys timers 0
      ∷ destroys cpu_pool 2
      ∷ []
unfolding exec step init get fill slot ensure_not_shutdown shutdown Scheduler.init Scheduler.stop
order_of_life = refl

exec-held_example :
    total (gone_weight (λ s a. a)) (exec (init {F = ℕ}) life).1
      + held (λ s a. a) (exec (init {F = ℕ}) life).0
    ≡ held (λ s a. a) (init {F = ℕ}) + total (made_weight (λ s a. a)) (exec (init {F = ℕ}) life).1
exec-held_example = exec-held (λ s a. a) init life

-- After the shutdown, a reset of the scheduler lets it run again.
abbrev after_shut : List (Event ℕ)
after_shut = gets net ∷ posts 4 ∷ of_sched Scheduler.Event.resets ∷ shuts ∷ []

exec-shut_example :
    let c = (exec (shutdown (init {F = ℕ})).0 after_shut).0 in
    ((get timers c).1 ≡ throws shut_down)
    × ((exec (shutdown (init {F = ℕ})).0 after_shut).1 ≡ [])
    × Down c
    × (c.sched.stop_requested ≡ false)
unfolding init
exec-shut_example = exec-shut init after_shut timers refl
