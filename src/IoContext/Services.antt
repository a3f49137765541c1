-- ===== src/IoContext/Services.antt =====
-- The life of the services of io_context.cpp.
use cnerium.Prelude.{
  ℕ, ◌+◌, ◌≡◌, refl, ap, true, false, Option, none, some, List, [], ◌∷◌, ◌++◌, inl, inr, Bool-cases,
  total, total-append, arith, if◌then◌else◌,
}
use cnerium.Error.{returns, throws}
use cnerium.IoContext.{
  Service, cpu_pool, timers, signals, net, IoContext, Effect, makes, destroys, shut_down, post_fn,
  post_handle, stop, slot, fill, get, get_if, get_open, ensure_not_shutdown, reset_of, shutdown,
  Event, posts_fn, posts, stops, gets, shuts, of_sched, on_sched, step, exec,
}

abbrev optional : (ℕ → ℕ) → Option ℕ → ℕ
optional v none = 0
optional v (some a) = v a

-- A weight on services, by kind and address, of what was made, and of what was destroyed.
abbrev pub made_weight : (Service → ℕ → ℕ) → Effect → ℕ
made_weight v (makes s a) = v s a
made_weight v (destroys s a) = 0

abbrev pub gone_weight : (Service → ℕ → ℕ) → Effect → ℕ
gone_weight v (makes s a) = 0
gone_weight v (destroys s a) = v s a

reset-weight :
    (v : Service → ℕ → ℕ) (s : Service) (o : Option ℕ)
    → (total (gone_weight v) (reset_of s o) ≡ optional (v s) o)
      × (total (made_weight v) (reset_of s o) ≡ 0)
unfolding reset_of
reset-weight v s none = (refl, refl)
reset-weight v s (some a) = (omega arith, refl)

module _ {F : Type 0} where
  abbrev pub held : (Service → ℕ → ℕ) → IoContext F → ℕ
  held v c =
      (optional (v net) c.net_ + optional (v signals) c.signals_)
      + (optional (v timers) c.timer_ + optional (v cpu_pool) c.cpu_pool_)

  fill-weight :
      (v : Service → ℕ → ℕ) (s : Service) (a : ℕ) (c : IoContext F)
      → slot s c ≡ none
      → held v (fill s a c) ≡ held v c + v s a
  unfolding fill slot
  fill-weight v cpu_pool a c e = ground arith
  fill-weight v timers a c e = ground arith
  fill-weight v signals a c e = ground arith
  fill-weight v net a c e = ground arith

  open-weight :
      (v : Service → ℕ → ℕ) (s : Service) (o : Option ℕ) (c : IoContext F)
      → slot s c ≡ o
      → total (gone_weight v) (get_open s o c).2 + held v (get_open s o c).0
        ≡ held v c + total (made_weight v) (get_open s o c).2
  unfolding get_open
  open-weight v s none c e = omega (arith, fill-weight v s c.made c e)
  open-weight v s (some a) c e = omega arith

  pub get-down :
      (s : Service) (c : IoContext F) → c.shutdown_done ≡ true → get s c ≡ (c, throws shut_down, [])
  unfolding get get_if ensure_not_shutdown
  get-down s c h = ap (λ b. get_if s (if b then throws shut_down else returns tt) c) h

  pub get-up :
      (s : Service) (c : IoContext F) → c.shutdown_done ≡ false → get s c ≡ get_open s (slot s c) c
  unfolding get get_if ensure_not_shutdown
  get-up s c h = ap (λ b. get_if s (if b then throws shut_down else returns tt) c) h

  get-weight :
      (v : Service → ℕ → ℕ) (s : Service) (c : IoContext F)
      → total (gone_weight v) (get s c).2 + held v (get s c).0
        ≡ held v c + total (made_weight v) (get s c).2
  get-weight v s c = elim (Bool-cases c.shutdown_done) [
    | inl down ↦ rw (get-down s c down) (omega arith)
    | inr up ↦ rw (get-up s c up) (open-weight v s (slot s c) c refl)
  ]

  abbrev pub resets : IoContext F → List Effect
  resets c =
      reset_of net c.net_
      ++ (reset_of signals c.signals_
          ++ (reset_of timers c.timer_ ++ reset_of cpu_pool c.cpu_pool_))

  resets-weight :
      (v : Service → ℕ → ℕ) (c : IoContext F)
      → (total (gone_weight v) (resets c) ≡ held v c) × (total (made_weight v) (resets c) ≡ 0)
  resets-weight v c =
      let (a, a') = reset-weight v net c.net_ in
      let (b, b') = reset-weight v signals c.signals_ in
      let (d, d') = reset-weight v timers c.timer_ in
      let (e, e') = reset-weight v cpu_pool c.cpu_pool_ in
      let ts = reset_of timers c.timer_ ++ reset_of cpu_pool c.cpu_pool_ in
      let ss = reset_of signals c.signals_ ++ ts in
      (
        omega (
          arith,
          a,
          b,
          d,
          e,
          total-append (gone_weight v) (reset_of net c.net_) ss,
          total-append (gone_weight v) (reset_of signals c.signals_) ts,
          total-append (gone_weight v) (reset_of timers c.timer_) (reset_of cpu_pool c.cpu_pool_),
        ),
        omega (
          arith,
          a',
          b',
          d',
          e',
          total-append (made_weight v) (reset_of net c.net_) ss,
          total-append (made_weight v) (reset_of signals c.signals_) ts,
          total-append (made_weight v) (reset_of timers c.timer_) (reset_of cpu_pool c.cpu_pool_),
        ),
      )

  shutdown-weight :
      (v : Service → ℕ → ℕ) (c : IoContext F)
      → total (gone_weight v) (shutdown c).1 + held v (shutdown c).0
        ≡ held v c + total (made_weight v) (shutdown c).1
  unfolding shutdown
  shutdown-weight v c = let (gone, made) = resets-weight v c in ground (arith, gone, made)

  step-weight :
      (v : Service → ℕ → ℕ) (c : IoContext F) (e : Event F)
      → total (gone_weight v) (step c e).1 + held v (step c e).0
        ≡ held v c + total (made_weight v) (step c e).1
  unfolding step post_fn post_handle stop on_sched
  step-weight v c (posts_fn f) = omega arith
  step-weight v c (posts h) = omega arith
  step-weight v c stops = omega arith
  step-weight v c (gets s) = get-weight v s c
  step-weight v c shuts = shutdown-weight v c
  step-weight v c (of_sched e) = omega arith

  -- Each service that is made is held, or has been destroyed, exactly once, at every moment of every
  -- sequence of accesses, posts, stops and shutdowns, as counted by any weight.
  pub exec-held :
      (v : Service → ℕ → ℕ) (c : IoContext F) (es : List (Event F))
      → total (gone_weight v) (exec c es).1 + held v (exec c es).0
        ≡ held v c + total (made_weight v) (exec c es).1
  unfolding exec
  exec-held v c [] = omega arith
  exec-held v c (e ∷ es) = omega (
    arith,
    step-weight v c e,
    exec-held v (step c e).0 es,
    total-append (gone_weight v) (step c e).1 (exec (step c e).0 es).1,
    total-append (made_weight v) (step c e).1 (exec (step c e).0 es).1,
  )
