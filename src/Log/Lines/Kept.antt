-- ===== src/Log/Lines/Kept.antt =====
-- What each access of a call of `log` keeps.
use Prim.Native.String.{String}
use cnerium.Prelude.{
  ℕ, ◌≡◌, refl, sym, ◌∙◌, ap, true, false, Option, none, some, List, [], ◌∷◌, ◌++◌, append-nil,
  append_assoc, get_elem?, set, total, total-set, All, All-set, All-get_elem?, get_elem?-lt,
  get_elem?-set_self, arith, Bool-cases, inl, inr, if◌then◌else◌, ltb,
}
use cnerium.Log.{
  LogLevel, fatal, trace, Message, line, Call, entering, locking, writing, returned, Logger,
  get_log_level, finish, move, code,
}
use cnerium.Log.Lines.{
  left, unwritten, writes, texts, texts-append, last_level-append, unwritten-none, unwritten-one,
  unwritten-set, WritesLast, WritesLast-none, EndsFatal,
}

-- The state with the lines that calls have begun so far.
pub record Inv (g : Logger) (ls : List (String × Message)) : Type 0 where
  pub whole : g.cerr ++ unwritten g.calls ≡ texts ls
  pub one : total writes g.calls ≡ (if g.locked then 1 else 0)
  pub last : All (WritesLast ls) g.calls
  pub ends : EndsFatal g.aborted ls g.calls

-- A call that moves without writing, before and after.
pub set-Inv :
    (g : Logger) (ls : List (String × Message)) (i : ℕ) (old new : Call)
    → Inv g ls
    → g.aborted ≡ false
    → get_elem? g.calls i ≡ some old
    → left old ≡ left new
    → writes old ≡ writes new
    → WritesLast ls new
    → Inv (record g { calls = set g.calls i new }) ls
set-Inv g ls i old new v alive e l k p = record {
  whole = ap (◌++◌ g.cerr) (unwritten-set g.calls i old new e l) ∙ v.whole;
  one = omega (arith, total-set writes g.calls i new e, v.one);
  last = All-set (WritesLast ls) g.calls i new v.last p;
  ends = rw alive tt;
}

pub begin-Inv :
    (g : Logger) (ls : List (String × Message)) (i : ℕ) (buf : String) (m : Message)
    → Inv g ls
    → g.aborted ≡ false
    → g.locked ≡ false
    → get_elem? g.calls i ≡ some (locking m)
    → Inv
        (record g { locked = true; calls = set g.calls i (writing m (line buf m)) })
        (ls ++ (buf, m) ∷ [])
begin-Inv g ls i buf m v alive free e =
    let new : Call = writing m (line buf m) in
    let none_ : total writes g.calls ≡ 0 = rw free at v.one in
    let one : total writes (set g.calls i new) ≡ 1 =
      omega (arith, total-set writes g.calls i new e) in
    let here = get_elem?-set_self g.calls i new (get_elem?-lt g.calls i e) in
    record {
      whole =
          ap (◌++◌ g.cerr) (unwritten-one (set g.calls i new) i m (line buf m) one here)
          ∙ ap (λ l. l ++ line buf m)
              (sym (append-nil g.cerr)
                ∙ ap (◌++◌ g.cerr) (sym (unwritten-none g.calls none_))
                ∙ v.whole)
          ∙ ap (◌++◌ (texts ls)) (sym (append-nil (line buf m)))
          ∙ sym (texts-append ls ((buf, m) ∷ []));
      one = one;
      last =
          All-set (WritesLast (ls ++ (buf, m) ∷ [])) g.calls i new
            (WritesLast-none (ls ++ (buf, m) ∷ []) g.calls none_) (last_level-append ls buf m);
      ends = rw alive tt;
    }

pub write-Inv :
    (g : Logger) (ls : List (String × Message)) (i : ℕ) (m : Message) (s : String)
    (rest : List String)
    → Inv g ls
    → g.aborted ≡ false
    → g.locked ≡ true
    → get_elem? g.calls i ≡ some (writing m (s ∷ rest))
    → Inv (record g { cerr = g.cerr ++ s ∷ []; calls = set g.calls i (writing m rest) }) ls
write-Inv g ls i m s rest v alive held e =
    let new : Call = writing m rest in
    let one : total writes g.calls ≡ 1 = rw held at v.one in
    let one' : total writes (set g.calls i new) ≡ 1 =
      omega (arith, total-set writes g.calls i new e) in
    let here = get_elem?-set_self g.calls i new (get_elem?-lt g.calls i e) in
    record {
      whole =
          ap (◌++◌ (g.cerr ++ s ∷ [])) (unwritten-one (set g.calls i new) i m rest one' here)
          ∙ append_assoc g.cerr (s ∷ []) rest
          ∙ ap (◌++◌ g.cerr) (sym (unwritten-one g.calls i m (s ∷ rest) one e))
          ∙ v.whole;
      one = rw held one';
      last =
          All-set (WritesLast ls) g.calls i new v.last
            (All-get_elem? (WritesLast ls) g.calls i v.last e);
      ends = rw alive tt;
    }

pub abort-Inv :
    (g : Logger) (ls : List (String × Message)) (i : ℕ) (m : Message)
    → Inv g ls
    → g.locked ≡ true
    → get_elem? g.calls i ≡ some (writing m [])
    → m.lvl ≡ fatal
    → Inv (record g { aborted = true }) ls
abort-Inv g ls i m v held e k = record {
  whole = v.whole;
  one = v.one;
  last = v.last;
  ends = (
    unwritten-one g.calls i m [] (rw held at v.one) e,
    All-get_elem? (WritesLast ls) g.calls i v.last e ∙ ap some k,
  );
}

pub release-Inv :
    (g : Logger) (ls : List (String × Message)) (i : ℕ) (m : Message)
    → Inv g ls
    → g.aborted ≡ false
    → g.locked ≡ true
    → get_elem? g.calls i ≡ some (writing m [])
    → Inv (record g { locked = false; calls = set g.calls i returned }) ls
release-Inv g ls i m v alive held e =
    let one : total writes g.calls ≡ 1 = rw held at v.one in
    let zero_ : total writes (set g.calls i returned) ≡ 0 =
      omega (arith, total-set writes g.calls i returned e) in
    record {
      whole = ap (◌++◌ g.cerr) (unwritten-set g.calls i (writing m []) returned e refl) ∙ v.whole;
      one = zero_;
      last = WritesLast-none ls (set g.calls i returned) zero_;
      ends = rw alive tt;
    }

pub finish-Inv :
    (g : Logger) (ls : List (String × Message)) (i : ℕ) (m : Message) (lvl : LogLevel)
    → Inv g ls
    → g.aborted ≡ false
    → g.locked ≡ true
    → get_elem? g.calls i ≡ some (writing m [])
    → m.lvl ≡ lvl
    → Inv (finish g i lvl) ls
unfolding finish
finish-Inv g ls i m fatal v alive held e k = abort-Inv g ls i m v held e k
finish-Inv g ls i m trace v alive held e k = release-Inv g ls i m v alive held e
finish-Inv g ls i m _ v alive held e k = release-Inv g ls i m v alive held e

-- Where a call writes, the lock is held.
pub held_of :
    (g : Logger) (ls : List (String × Message)) (i : ℕ) (m : Message) (rest : List String)
    → Inv g ls
    → get_elem? g.calls i ≡ some (writing m rest)
    → g.locked ≡ true
held_of g ls i m rest v e = elim (Bool-cases g.locked) [
  | inl held ↦ held
  | inr free ↦
      let none_ : total writes g.calls ≡ 0 = rw free at v.one in
      absurd (omega (arith, total-set writes g.calls i returned e))
]

pub locked_move :
    (g : Logger) (i : ℕ) (buf : String) (m : Message)
    → g.locked ≡ true
    → move g i buf (some (locking m)) ≡ (g, [])
unfolding move
locked_move g i buf m held = ground arith

pub free_move :
    (g : Logger) (i : ℕ) (buf : String) (m : Message)
    → g.locked ≡ false
    → move g i buf (some (locking m))
      ≡ (record g { locked = true; calls = set g.calls i (writing m (line buf m)) }, (buf, m) ∷ [])
unfolding move
free_move g i buf m free = ground arith

pub locking-held :
    (g : Logger) (ls : List (String × Message)) (i : ℕ) (buf : String) (m : Message)
    → Inv g ls
    → g.locked ≡ true
    → Inv (move g i buf (some (locking m))).0 (ls ++ (move g i buf (some (locking m))).1)
locking-held g ls i buf m v held =
    let stays : move g i buf (some (locking m)) ≡ (g, []) = locked_move g i buf m held in
    rw stays (rw (append-nil ls) v)

pub locking-free :
    (g : Logger) (ls : List (String × Message)) (i : ℕ) (buf : String) (m : Message)
    → Inv g ls
    → g.aborted ≡ false
    → g.locked ≡ false
    → get_elem? g.calls i ≡ some (locking m)
    → Inv (move g i buf (some (locking m))).0 (ls ++ (move g i buf (some (locking m))).1)
locking-free g ls i buf m v alive free e =
    rw (free_move g i buf m free) (begin-Inv g ls i buf m v alive free e)

pub move-Inv :
    (g : Logger) (ls : List (String × Message)) (i : ℕ) (buf : String) (o : Option Call)
    → Inv g ls
    → g.aborted ≡ false
    → get_elem? g.calls i ≡ o
    → Inv (move g i buf o).0 (ls ++ (move g i buf o).1)
unfolding move
move-Inv g ls i buf none v alive e = rw (append-nil ls) v
move-Inv g ls i buf (some returned) v alive e = rw (append-nil ls) v
move-Inv g ls i buf (some (entering m)) v alive e =
    elim (Bool-cases (ltb (code m.lvl) (code (get_log_level g)))) [
      | inl low ↦
          rw (low, append-nil ls) (set-Inv g ls i (entering m) returned v alive e refl refl tt)
      | inr high ↦
          rw (high, append-nil ls) (set-Inv g ls i (entering m) (locking m) v alive e refl refl tt)
    ]
move-Inv g ls i buf (some (locking m)) v alive e = elim (Bool-cases g.locked) [
  | inl held ↦ locking-held g ls i buf m v held
  | inr free ↦ locking-free g ls i buf m v alive free e
]
move-Inv g ls i buf (some (writing m (s ∷ rest))) v alive e =
    rw (append-nil ls) (write-Inv g ls i m s rest v alive (held_of g ls i m (s ∷ rest) v e) e)
move-Inv g ls i buf (some (writing m [])) v alive e =
    rw (append-nil ls) (finish-Inv g ls i m m.lvl v alive (held_of g ls i m [] v e) e refl)
