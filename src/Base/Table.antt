-- ===== src/Base/Table.antt =====
-- A statement about all numbers below a numeral, checked number by number.
use Prim.Native.Nat.{ℕ, zero, suc, ◌<◌}
use mathlib.Core.Path.{◌≡◌}
use mathlib.Core.Bool.{Bool, true, false}
use mathlib.Core.Logic.{ite}
use native.Mathlib.Decide.{ℕ_discrete}
use native.Mathlib.Omega.{arith}

module _ (f g : ℕ → ℕ) where
  unfoldable pub agree_below : ℕ → Bool
  unfolding ℕ_discrete
  agree_below zero = true
  agree_below (suc n) = ite (ℕ_discrete (f n) (g n)) (agree_below n) false

  pub agree_below→eq : (n : ℕ) → agree_below n ≡ true → (i : ℕ) → i < n → f i ≡ g i
  unfolding agree_below
  agree_below→eq zero e i h = absurd (omega arith)
  agree_below→eq (suc n) e i h = ground (arith, agree_below→eq n (ground arith) i)
