-- ===== src/Prelude/Floats.antt =====
-- The operations on `float` that the components use. No law is assumed of them: the theorems hold
-- whatever rounding does, for infinities and for NaN.
use Prim.Native.Nat.{ℕ}
use mathlib.Core.Bool.{Bool}
use devy_fps.Prelude.Int.{ℤ}

pub record Floats (F : Type 0) : Type 0 where
  -- The number nearest to n / d.
  pub literal : ℕ → ℕ → F
  -- `static_cast<float>` of an integer.
  pub of_int : ℤ → F
  pub add : F → F → F
  pub subtract : F → F → F
  pub multiply : F → F → F
  pub divide : F → F → F
  pub square_root : F → F
  pub absolute : F → F
  pub ceiling : F → F
  -- `static_cast` to an unsigned type.
  pub to_unsigned : F → ℕ
  -- `static_cast<int>` of `std::floor`.
  pub floor_to_int : F → ℤ
  -- `std::lround`.
  pub round_to_int : F → ℤ
  -- `<`, and `<=`, which is not its negation where a NaN is compared.
  pub less : F → F → Bool
  pub at_most : F → F → Bool
  pub is_finite : F → Bool

-- `double`, with `static_cast<double>` of a `float` and `static_cast<float>` back.
pub record Doubles (F D : Type 0) : Type 0 where
  pub double : Floats D
  pub widen : F → D
  pub narrow : D → F
