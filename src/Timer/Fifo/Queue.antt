-- ===== src/Timer/Fifo/Queue.antt =====
-- How `insert` of timer.cpp places a new entry, and one that goes back.
use cnerium.Prelude.{
  All-mono, ℕ, ◌≤◌, ◌<◌, ◌≡◌, refl, sym, true, false, ◌||◌, List, [], ◌∷◌, ◌++◌, append-nil,
  append_assoc, All, arith, Bool-cases, inl, inr, ltb, ◌==◌,
}
use cnerium.Timer.{Entry, insert, cmp}
use cnerium.Timer.Fifo.{job_at, jobs_at, Strict, Leads}

module _ {J : Type 0} where
  pub All-insert {κ} :
      (P : Entry J → Type κ) (e : Entry J) (q : List (Entry J)) → P e → All P q → All P (insert e q)
  unfolding insert
  All-insert P e [] h a = (h, tt)
  All-insert P e (x ∷ q) h a = elim (Bool-cases (cmp e x)) [
    | inl lt ↦ rw (lt, insert) (h, a)
    | inr ge ↦ rw (ge, insert) (a.0, All-insert P e q h a.1)
  ]

  pub cmp_strict_trans : (x y z : Entry J) → cmp x y ≡ true → cmp y z ≡ true → cmp x z ≡ true
  unfolding cmp
  cmp_strict_trans x y z h k = ground arith

  pub Strict-insert :
      (e : Entry J) (q : List (Entry J))
      → Strict q
      → All (λ y. (cmp e y || cmp y e) ≡ true) q
      → Strict (insert e q)
  unfolding insert
  Strict-insert e [] s a = (tt, tt)
  Strict-insert e (x ∷ q) s a = elim (Bool-cases (cmp e x)) [
    | inl lt ↦
        rw (lt, insert)
          (
            (
              lt,
              All-mono (λ y. cmp x y ≡ true) (λ y. cmp e y ≡ true) q
                  (λ y. cmp_strict_trans e x y lt) s.0,
            ),
            s,
          )
    | inr ge ↦
        rw (ge, insert)
          (All-insert (λ y. cmp x y ≡ true) e q (rw ge at a.0) s.0, Strict-insert e q s.1 a.1)
  ]

  -- Nothing with a later deadline is at `d`.
  pub jobs_at-later : (d : ℕ) (q : List (Entry J)) → All (λ y. d < y.when) q → jobs_at d q ≡ []
  jobs_at-later d [] a = refl
  jobs_at-later d (y ∷ q) a = ground (arith, jobs_at-later d q a.1)

  pub when-cmp : (e x : Entry J) → cmp e x ≡ true → x.id < e.id → e.when < x.when
  unfolding cmp
  when-cmp e x h k = ground arith

  pub when-le : (x y : Entry J) → cmp x y ≡ true → x.when ≤ y.when
  unfolding cmp
  when-le x y h = ground arith

  pub job_at-ne : (d : ℕ) (e : Entry J) → e.when == d ≡ false → job_at d e ≡ []
  job_at-ne d e h = rw h refl

  pub all-later :
      (d : ℕ) (x : Entry J) (q : List (Entry J))
      → d < x.when
      → All (λ y. cmp x y ≡ true) q
      → All (λ y. d < y.when) (x ∷ q)
  all-later d x q h a = (
    h,
    All-mono (λ y. cmp x y ≡ true) (λ y. d < y.when) q (λ y c. omega (arith, when-le x y c)) a,
  )

  -- A new entry goes behind all with its deadline, one that leads goes before them.
  pub jobs_at-insert_new :
      (d : ℕ) (e : Entry J) (q : List (Entry J))
      → Strict q
      → All (λ y. y.id < e.id) q
      → jobs_at d (insert e q) ≡ jobs_at d q ++ job_at d e
  unfolding insert
  jobs_at-insert_new d e [] s a = append-nil _
  jobs_at-insert_new d e (x ∷ q) s a = elim (Bool-cases (cmp e x)) [
    | inl lt ↦ rw lt (elim (Bool-cases (e.when == d)) [
      | inl same ↦
          rw (jobs_at-later d (x ∷ q) (all-later d x q (ground (arith, when-cmp e x lt a.0)) s.0))
            (append-nil _)
      | inr other ↦ rw (job_at-ne d e other) (sym (append-nil _))
    ])
    | inr ge ↦
        rw (ge, jobs_at-insert_new d e q s.1 a.1)
          (sym (append_assoc (job_at d x) (jobs_at d q) (job_at d e)))
  ]

  pub job_at-swap :
      (d : ℕ) (e x : Entry J) (js : List J)
      → Leads e x
      → cmp e x ≡ false
      → job_at d x ++ (job_at d e ++ js) ≡ job_at d e ++ (job_at d x ++ js)
  unfolding cmp
  job_at-swap d e x js l ge = ground arith

  pub jobs_at-insert_leading :
      (d : ℕ) (e : Entry J) (q : List (Entry J))
      → All (Leads e) q
      → jobs_at d (insert e q) ≡ job_at d e ++ jobs_at d q
  unfolding insert
  jobs_at-insert_leading d e [] a = refl
  jobs_at-insert_leading d e (x ∷ q) a = elim (Bool-cases (cmp e x)) [
    | inl lt ↦ rw lt refl
    | inr ge ↦ rw (ge, jobs_at-insert_leading d e q a.1) (job_at-swap d e x (jobs_at d q) a.0 ge)
  ]

  pub Leads-apart : (n y : Entry J) → Leads n y → (cmp n y || cmp y n) ≡ true
  unfolding cmp
  Leads-apart n y h = ground arith

  pub cmp-Leads : (x y : Entry J) → cmp x y ≡ true → Leads x y
  unfolding cmp
  cmp-Leads x y h = ground arith

  pub later-Leads : (x y : Entry J) → ltb x.when y.when ≡ true → Leads x y
  later-Leads x y h = ground arith

  pub Numbered-apart : (e y : Entry J) → y.id < e.id → (cmp e y || cmp y e) ≡ true
  unfolding cmp
  Numbered-apart e y h = ground arith

  pub lt-Leads : (n e : Entry J) → n.id < e.id → Leads n e
  lt-Leads n e h = ground arith
