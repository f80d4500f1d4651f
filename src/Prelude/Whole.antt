-- ===== src/Prelude/Whole.antt =====
-- A `float` that holds whole numbers only, for runs on concrete inputs.
use Prim.Native.Nat.{◌+◌, ◌/◌}
use mathlib.Core.Bool.{true, false}
use devy_fps.Prelude.Tests.{if◌then◌else◌}
use devy_fps.Prelude.Int.{ℤ, pos, pos_part, neg_part, ltb_ℤ, ◌+ℤ◌, ◌-ℤ◌, ◌*ℤ◌}
use devy_fps.Prelude.Floats.{Floats, Doubles}

instance unfoldable pub whole : Floats ℤ
unfolding ◌+ℤ◌ ◌-ℤ◌ ◌*ℤ◌
whole = record {
  literal = λ n d. pos (n / d);
  of_int = λ z. z;
  add = λ a b. a +ℤ b;
  subtract = λ a b. a -ℤ b;
  multiply = λ a b. a *ℤ b;
  divide = λ a b. pos (pos_part a / pos_part b);
  square_root = λ a. a;
  absolute = λ a. pos (pos_part a + neg_part a);
  ceiling = λ a. a;
  to_unsigned = λ a. pos_part a;
  floor_to_int = λ a. a;
  round_to_int = λ a. a;
  less = λ a b. ltb_ℤ a b;
  at_most = λ a b. if ltb_ℤ b a then false else true;
  is_finite = λ a. true;
}

abbrev pub whole_doubles : Doubles ℤ ℤ
whole_doubles = record { double = whole; widen = λ a. a; narrow = λ a. a }
