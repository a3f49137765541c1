-- ===== src/IoContext/Reuse.antt =====
-- The services of io_context.cpp until the shutdown.
use cnerium.Prelude.{ℕ, ◌≡◌, refl, ◌∙◌, false, Option, none, some, List, [], ◌∷◌}
use cnerium.Error.{returns}
use cnerium.IoContext.{
  Service, cpu_pool, timers, signals, net, IoContext, post_fn, post_handle, stop, slot, fill, get,
  get_open, Event, posts_fn, posts, stops, gets, shuts, of_sched, on_sched, step, exec,
}
use cnerium.IoContext.Services.{get-up}

abbrev pub NoShutdown : {F : Type 0} → List (Event F) → Type 0
NoShutdown [] = Unit
NoShutdown (shuts ∷ es) = ⊥
NoShutdown (e ∷ es) = NoShutdown es

module _ {F : Type 0} where
  fill-slot :
      (s t : Service) (a b : ℕ) (c : IoContext F)
      → slot s c ≡ some a
      → slot t c ≡ none
      → slot s (fill t b c) ≡ some a
  unfolding slot fill
  fill-slot cpu_pool cpu_pool a b c e k = cc
  fill-slot cpu_pool timers a b c e k = e
  fill-slot cpu_pool signals a b c e k = e
  fill-slot cpu_pool net a b c e k = e
  fill-slot timers cpu_pool a b c e k = e
  fill-slot timers timers a b c e k = cc
  fill-slot timers signals a b c e k = e
  fill-slot timers net a b c e k = e
  fill-slot signals cpu_pool a b c e k = e
  fill-slot signals timers a b c e k = e
  fill-slot signals signals a b c e k = cc
  fill-slot signals net a b c e k = e
  fill-slot net cpu_pool a b c e k = e
  fill-slot net timers a b c e k = e
  fill-slot net signals a b c e k = e
  fill-slot net net a b c e k = cc

  fill_self : (s : Service) (a : ℕ) (c : IoContext F) → slot s (fill s a c) ≡ some a
  unfolding slot fill
  fill_self cpu_pool a c = refl
  fill_self timers a c = refl
  fill_self signals a c = refl
  fill_self net a c = refl

  fill-up : (s : Service) (a : ℕ) (c : IoContext F) → (fill s a c).shutdown_done ≡ c.shutdown_done
  unfolding fill
  fill-up cpu_pool a c = refl
  fill-up timers a c = refl
  fill-up signals a c = refl
  fill-up net a c = refl

  open-keeps :
      (s t : Service) (a : ℕ) (o : Option ℕ) (c : IoContext F)
      → slot t c ≡ o
      → c.shutdown_done ≡ false
      → slot s c ≡ some a
      → ((get_open t o c).0.shutdown_done ≡ false) × (slot s (get_open t o c).0 ≡ some a)
  unfolding get_open
  open-keeps s t a (some b) c k up e = (up, e)
  open-keeps s t a none c k up e = (fill-up t c.made c ∙ up, fill-slot s t a c.made c e k)

  same-slot :
      (s : Service) (c c' : IoContext F)
      → c'.cpu_pool_ ≡ c.cpu_pool_
      → c'.timer_ ≡ c.timer_
      → c'.signals_ ≡ c.signals_
      → c'.net_ ≡ c.net_
      → slot s c' ≡ slot s c
  unfolding slot
  same-slot cpu_pool c c' p t i n = p
  same-slot timers c c' p t i n = t
  same-slot signals c c' p t i n = i
  same-slot net c c' p t i n = n

  step-keeps :
      (s : Service) (a : ℕ) (c : IoContext F) (e : Event F) (es : List (Event F))
      → c.shutdown_done ≡ false
      → slot s c ≡ some a
      → NoShutdown (e ∷ es)
      → ((step c e).0.shutdown_done ≡ false) × (slot s (step c e).0 ≡ some a) × NoShutdown es
  unfolding step post_fn post_handle stop on_sched
  step-keeps s a c (posts_fn f) es up k n =
      (up, same-slot s c (post_fn c f) refl refl refl refl ∙ k, n)
  step-keeps s a c (posts h) es up k n =
      (up, same-slot s c (post_handle c h) refl refl refl refl ∙ k, n)
  step-keeps s a c stops es up k n = (up, same-slot s c (stop c) refl refl refl refl ∙ k, n)
  step-keeps s a c (gets t) es up k n =
      let (up', k') = open-keeps s t a (slot t c) c refl up k in rw (get-up t c up) (up', k', n)
  step-keeps s a c shuts es up k n = elim n [ ]
  step-keeps s a c (of_sched e) es up k n =
      (up, same-slot s c (on_sched c e) refl refl refl refl ∙ k, n)

  exec-keeps :
      (s : Service) (a : ℕ) (c : IoContext F) (es : List (Event F))
      → c.shutdown_done ≡ false
      → slot s c ≡ some a
      → NoShutdown es
      → (get s (exec c es).0).1 ≡ returns a
  unfolding exec get_open
  exec-keeps s a c [] up k n = rw (get-up s c up, k) refl
  exec-keeps s a c (e ∷ es) up k n =
      let (up', k', n') = step-keeps s a c e es up k n in exec-keeps s a (step c e).0 es up' k' n'

  open-first :
      (s : Service) (o : Option ℕ) (c : IoContext F)
      → slot s c ≡ o
      → c.shutdown_done ≡ false
      → (a : ℕ) × (((get_open s o c).1 ≡ returns a)
          × ((get_open s o c).0.shutdown_done ≡ false)
          × (slot s (get_open s o c).0 ≡ some a))
  unfolding get_open
  open-first s (some a) c k up = (a, (refl, up, k))
  open-first s none c k up = (c.made, (refl, fill-up s c.made c ∙ up, fill_self s c.made c))

  -- Until the shutdown, each access to a service succeeds and gives the same one: whatever is called
  -- between two accesses, other accesses included, the second gives the address that the first gave.
  pub exec-get :
      (s : Service) (c : IoContext F) (es : List (Event F))
      → c.shutdown_done ≡ false
      → NoShutdown es
      → (a : ℕ) × (((get s c).1 ≡ returns a) × ((get s (exec (get s c).0 es).0).1 ≡ returns a))
  exec-get s c es up n =
      let (a, (first, up', k)) = open-first s (slot s c) c refl up in
      rw (get-up s c up) (a, (first, exec-keeps s a (get_open s (slot s c) c).0 es up' k n))
