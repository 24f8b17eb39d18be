-- ===== src/Prelude/Float64.antt =====
-- What the program does with a `float64`, as an interface: the language has no floats. No law is
-- assumed here; a theorem that needs one names it among its hypotheses.
use Prim.Native.Nat.{ℕ}
use Prim.Native.String.{String}
use mathlib.Core.Bool.{Bool, true, false}
use mathlib.Core.Path.{◌≡◌}

pub record Float64 (F : Type 0) : Type 0 where
  -- the constant m / 10^k: `decimal 85 2` is 0.85
  pub decimal : ℕ → ℕ → F
  pub add : F → F → F
  pub sub : F → F → F
  pub mul : F → F → F
  pub div : F → F → F
  pub sqrt : F → F
  pub neg : F → F
  pub abs : F → F
  -- x < y and x <= y, both false at NaN
  pub lt : F → F → Bool
  pub le : F → F → Bool
  -- `fmt.Sprintf("%.Nf", x)`
  pub fixed : ℕ → F → String

-- The comparisons of IEEE 754, where NaN is the value that is not `<=` itself and lies in no order.
pub record IsOrdered (F : Type 0) ⦃fl : Float64 F⦄ : Type 0 where
  pub lt_asymm : (x y : F) → fl.lt x y ≡ true → fl.lt y x ≡ false
  pub lt_numbers : (x y : F) → fl.lt x y ≡ true → (fl.le x x ≡ true) × (fl.le y y ≡ true)
  -- transitivity of "not less", past a number in the middle
  pub not_lt_trans :
      (x y z : F) → fl.le y y ≡ true → fl.lt x y ≡ false → fl.lt y z ≡ false → fl.lt x z ≡ false
  pub abs_number : (x : F) → fl.le x x ≡ true → fl.le (fl.abs x) (fl.abs x) ≡ true
