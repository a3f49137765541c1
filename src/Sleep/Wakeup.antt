-- ===== src/Sleep/Wakeup.antt =====
-- How coroutines whose sleep in timer.cpp is over are resumed.
use native.Mathlib.Omega.{arith}
use cnerium.Prelude.{
  ℕ, zero, suc, ◌*◌, ◌≤◌, ◌≡◌, refl, sym, ◌∙◌, ap, true, false, Option, none, some, List, [], ◌∷◌,
  ◌++◌, append-nil, append_assoc, map, length, replicate, All, All-mono, ◌==◌,
}
use cnerium.Cancel.{Flags, is_cancelled}
use cnerium.Scheduler.{Handle, null, Scheduler}
use cnerium.Timer
use cnerium.Timer.{Entry, Timer, at_head, Fate, fires, fire_move, sleep_job}
use cnerium.Timer.Order.{IsLive, fates_of, exec-due, turns_for-replicate}
use cnerium.Sleep.{Callable, job, System, Event, moves, turns, ctx_post, ctx_post_all, step, exec}

-- The coroutine that an entry wakes.
abbrev pub sleeper : Entry Handle → Handle
sleeper e = elim e.j [ none ↦ null | some h ↦ h ]

-- An entry that is due, whose token is not cancelled and whose coroutine is not null.
abbrev pub IsReady : Flags → ℕ → Entry Handle → Type 0
IsReady m now e =
    (e.when ≤ now)
    × (is_cancelled m e.ct ≡ false)
    × (e.j ≡ some (sleeper e))
    × (sleeper e == null ≡ false)

module _ {G : Type 0} where
  ctx_post_all-append :
      (sched : Scheduler (Callable G)) (xs ys : List (Fate Handle))
      → ctx_post_all sched (xs ++ ys) ≡ ctx_post_all (ctx_post_all sched xs) ys
  unfolding ctx_post_all
  ctx_post_all-append sched [] ys = refl
  ctx_post_all-append sched (x ∷ xs) ys = ctx_post_all-append (ctx_post sched x) xs ys

  -- The moves of the thread are those of the timer alone, with what it posts in between.
  exec-moves :
      (s : System G) (m : Flags) (k : ℕ)
      → let p = Timer.exec s.clocked (replicate k (Timer.Event.moves m)) in
        exec s (replicate k (moves m))
        ≡ (record { clocked = p.0; sched = ctx_post_all s.sched p.1 }, [])
  unfolding exec Timer.exec step ctx_post_all
  exec-moves s m zero = refl
  exec-moves s m (suc k) =
      let p = Timer.step s.clocked (Timer.Event.moves m) in
      let q = Timer.exec p.0 (replicate k (Timer.Event.moves m)) in
      exec-moves (record { clocked = p.0; sched = ctx_post_all s.sched p.1 }) m k
      ∙ ap (λ c. (record { clocked = q.0; sched = c }, []))
          (sym (ctx_post_all-append s.sched p.1 q.1))

  ctx_post-fires :
      (now : ℕ) (sched : Scheduler (Callable G)) (e : Entry Handle) (h : Handle)
      → e.j ≡ some h
      → ctx_post_all sched (elim e.j [ none ↦ [] | some j ↦ fires now e ∷ [] ])
        ≡ record sched { fn_q = sched.fn_q ++ some (job h) ∷ [] }
  unfolding ctx_post_all
  ctx_post-fires now sched e h j = rw (j, ctx_post) (rw j refl)

  post_ready :
      (m : Flags) (now : ℕ) (sched : Scheduler (Callable G)) (e : Entry Handle)
      → IsReady m now e
      → ctx_post_all sched (fire_move now e)
        ≡ record sched { fn_q = sched.fn_q ++ some (job (sleeper e)) ∷ [] }
  unfolding ctx_post_all fire_move
  post_ready m now sched e (d, c, j, n) = ctx_post-fires now sched e (sleeper e) j

  post_all_ready :
      (m : Flags) (now : ℕ) (sched : Scheduler (Callable G)) (q : List (Entry Handle))
      → All (IsReady m now) q
      → ctx_post_all sched (fates_of now q)
        ≡ record sched { fn_q = sched.fn_q ++ map (λ e. some (job (sleeper e))) q }
  unfolding ctx_post_all
  post_all_ready m now sched [] a =
      ap (λ l. record sched { fn_q = l }) (sym (append-nil sched.fn_q))
  post_all_ready m now sched (e ∷ q) a =
      let sched' = record sched { fn_q = sched.fn_q ++ some (job (sleeper e)) ∷ [] } in
      ctx_post_all-append sched (fire_move now e) (fates_of now q)
      ∙ ap (λ c. ctx_post_all c (fates_of now q)) (post_ready m now sched e a.0)
      ∙ post_all_ready m now sched' q a.1
      ∙ ap (λ l. record sched { fn_q = l })
          (append_assoc sched.fn_q (some (job (sleeper e)) ∷ []) _)

  -- Two turns for each job: its call posts the coroutine, which goes first.
  wake :
      (s : System G) (h : Handle) (fs : List (Option (Callable G)))
      → s.sched.handle_q ≡ []
      → s.sched.fn_q ≡ some (job h) ∷ fs
      → s.sched.running ≡ true
      → s.sched.stop_requested ≡ false
      → h == null ≡ false
      → exec s (turns ∷ turns ∷ []) ≡ (
        record s { sched = record s.sched { fn_q = fs } },
        record { at = s.clocked.now; handle = h } ∷ [],
      )
  unfolding exec step
  wake s h fs eh ef r u n = ground arith

  exec-nil : (s : System G) → exec s [] ≡ (s, [])
  unfolding exec
  exec-nil s = refl

  exec-append :
      (s : System G) (es es' : List (Event G))
      → exec s (es ++ es')
        ≡ ((exec (exec s es).0 es').0, (exec s es).1 ++ (exec (exec s es).0 es').1)
  unfolding exec
  exec-append s [] es' = refl
  exec-append s (e ∷ es) es' = rw (exec-append (step s e).0 es es', append_assoc (step s e).1)

  wake_all :
      (s : System G) (m : Flags) (now : ℕ) (q : List (Entry Handle))
      → s.sched.handle_q ≡ []
      → s.sched.fn_q ≡ map (λ e. some (job (sleeper e))) q
      → s.sched.running ≡ true
      → s.sched.stop_requested ≡ false
      → All (IsReady m now) q
      → exec s (replicate (2 * length q) turns) ≡ (
        record s { sched = record s.sched { fn_q = [] } },
        map (λ e. record { at = s.clocked.now; handle = sleeper e }) q,
      )
  wake_all s m now [] eh ef r u a =
      exec-nil s ∙ ap (λ l. (record s { sched = record s.sched { fn_q = l } }, [])) ef
  wake_all s m now (e ∷ q) eh ef r u a =
      let more : 2 * suc (length q) ≡ suc (suc (2 * length q)) = omega arith in
      let fs : List (Option (Callable G)) = map (λ x. some (job (sleeper x))) q in
      rw (
        more,
        exec-append s (turns ∷ turns ∷ []) (replicate (2 * length q) turns),
        wake s (sleeper e) fs eh ef r u a.0.3,
        wake_all (record s { sched = record s.sched { fn_q = fs } }) m now q eh refl r u a.1,
      )

  -- The system while the jobs of `q` are posted and not yet called.
  abbrev posted : System G → List (Entry Handle) → List (Entry Handle) → System G
  posted s q rest = record {
    clocked = record s.clocked {
      timer = record { q = rest; seq = s.clocked.timer.seq; stop_flag = false };
      loop = at_head;
    };
    sched = record {
      handle_q = [];
      fn_q = map (λ e. some (job (sleeper e))) q;
      stop_requested = false;
      running = true;
    };
  }

  exec-posted :
      (s : System G) (m : Flags) (ready rest : List (Entry Handle))
      → s.clocked.timer.q ≡ ready ++ rest
      → s.clocked.timer.stop_flag ≡ false
      → s.clocked.loop ≡ at_head
      → s.sched ≡ record { handle_q = []; fn_q = []; stop_requested = false; running = true }
      → All (IsReady m s.clocked.now) ready
      → exec s (replicate (4 * length ready) (moves m)) ≡ (posted s ready rest, [])
  exec-posted s m ready rest eq open_ l idle a =
      let now = s.clocked.now in
      let due = All-mono (IsReady m now) (IsLive m now) ready (λ e r. (r.0, r.1)) a in
      let ran =
        ap (Timer.exec s.clocked) (sym (turns_for-replicate m ready))
        ∙ exec-due m s.clocked ready rest eq open_ l due in
      exec-moves s m (4 * length ready)
      ∙ ap (λ p. (record { clocked = p.0; sched = ctx_post_all s.sched p.1 }, [])) ran
      ∙ ap (λ c. (record (posted s ready rest) { sched = ctx_post_all c (fates_of now ready) }, []))
          idle
      ∙ ap (λ c. (record (posted s ready rest) { sched = c }, []))
          (post_all_ready m now
            (record { handle_q = []; fn_q = []; stop_requested = false; running = true }) ready a)

  -- Coroutines whose sleep is over are resumed, each once, in the order of the queue of the timer. If
  -- the timer runs with its thread at the head of its loop, the first entries of its queue are due and
  -- not cancelled, and the scheduler runs with both queues empty, then four moves of the thread and
  -- two turns of the scheduler for each of them resume exactly their coroutines, in order and at that
  -- time, and leave the other entries queued and the rest of the system as it was.
  pub exec-wakes :
      (s : System G) (m : Flags) (ready rest : List (Entry Handle))
      → s.clocked.timer.q ≡ ready ++ rest
      → s.clocked.timer.stop_flag ≡ false
      → s.clocked.loop ≡ at_head
      → s.sched ≡ record { handle_q = []; fn_q = []; stop_requested = false; running = true }
      → All (IsReady m s.clocked.now) ready
      → exec s (replicate (4 * length ready) (moves m) ++ replicate (2 * length ready) turns) ≡ (
        record s { clocked = record s.clocked { timer = record s.clocked.timer { q = rest } } },
        map (λ e. record { at = s.clocked.now; handle = sleeper e }) ready,
      )
  exec-wakes s m ready rest eq open_ l idle a =
      let back : record (posted s ready rest) {
        sched = record (posted s ready rest).sched { fn_q = [] };
      }
          ≡ record s {
            clocked = record s.clocked { timer = record s.clocked.timer { q = rest } };
          } =
        ground arith in
      exec-append s (replicate (4 * length ready) (moves m)) (replicate (2 * length ready) turns)
      ∙ rw (
        exec-posted s m ready rest eq open_ l idle a,
        wake_all (posted s ready rest) m s.clocked.now ready refl refl refl refl a,
        back,
      )
