-- ===== src/Signal/Set.antt =====
-- The set of signal.cpp and the operations that only change its fields.
use cnerium.Prelude.{ℕ, Bool, true, false, ◌||◌, Option, List, [], ◌∷◌, ◌++◌, ◌==◌, if◌then◌else◌}
use cnerium.Scheduler.{Handle}

pub record SignalSet (H : Type 0) : Type 0 where
  pub signals : List ℕ
  pub on_signal : Option H
  pub pending : List ℕ
  pub started : Bool
  pub stop_flag : Bool
  pub waiter : Handle
  pub waiter_active : Bool

abbrev pub contains : List ℕ → ℕ → Bool
contains [] s = false
contains (x ∷ xs) s = x == s || contains xs s

unfoldable pub erase : ℕ → List ℕ → List ℕ
erase s [] = []
erase s (x ∷ xs) = let rest = erase s xs in if x == s then rest else x ∷ rest

module _ {H : Type 0} where
  unfoldable pub add : SignalSet H → ℕ → SignalSet H
  add s sig = record s { signals = s.signals ++ sig ∷ [] }

  unfoldable pub remove : SignalSet H → ℕ → SignalSet H
  unfolding erase
  remove s sig = record s { signals = erase sig s.signals }

  unfoldable pub on_signal : SignalSet H → Option H → SignalSet H
  on_signal s fn = record s { on_signal = fn }

  unfoldable pub stop : SignalSet H → SignalSet H
  stop s = record s { stop_flag = true }
