-- ===== src/Branch/Comparator.antt =====
-- pkg/controller/nodes/branch/comparator.go. Floats are a parameter; a primitive always has a value.
pub mod Laws
use flytepropeller.Prelude.{ℕ, String, Bool, true, false, not, ◌||◌, ◌==◌, str_eq, if◌then◌else◌}
use flytepropeller.Prelude.Int.{ℤ, gtb_ℤ, eqb_ℤ}
use flytepropeller.Api.Error.{GoError, Result, ok, err}
use Prim.Native.Nat.{Ordering}
use Prim.Native.String.{compare}

-- The comparisons of IEEE floats, of which nothing is assumed: a NaN is neither equal to, nor
-- greater or less than, any float.
pub record Floats : Type 1 where
  pub Float : Type 0
  pub gt : Float → Float → Bool
  pub eq : Float → Float → Bool

-- Times and durations are their seconds and nanoseconds.
pub data Primitive (F : Type 0) : Type 0 where
  float_value : F → Primitive F
  integer : ℤ → Primitive F
  boolean : Bool → Primitive F
  string_value : String → Primitive F
  datetime : ℤ → ℕ → Primitive F
  duration : ℤ → ℕ → Primitive F

pub data Operator : Type 0 where
  eq neq gt gte lt lte : Operator

abbrev pub malformed : GoError
malformed = GoError.coded "MalformedBranchUserError" ""

abbrev pub gtb_text : String → String → Bool
gtb_text a b = elim (compare a b) [ Ordering.gt ↦ true | _ ↦ false ]

abbrev same_bool : Bool → Bool → Bool
same_bool true b = b
same_bool false b = not b

-- The two comparators of a type, at two values.
pub record Compared : Type 0 where
  pub is_gt : Bool
  pub is_eq : Bool

-- The switch on the operator.
unfoldable pub compare_with : Operator → Compared → Bool
compare_with gt k = k.is_gt
compare_with gte k = k.is_eq || k.is_gt
compare_with lt k = not (k.is_gt || k.is_eq)
compare_with lte k = not k.is_gt
compare_with eq k = k.is_eq
compare_with neq k = not k.is_eq

-- Booleans have no order.
unfoldable pub compare_booleans : Operator → Bool → Result Bool
compare_booleans eq same = ok same
compare_booleans neq same = ok (not same)
compare_booleans _ same = err malformed

module _ (fs : Floats) where
  -- `perTypeComparators` and `Evaluate`. Of times and durations only the seconds are compared.
  unfoldable pub evaluate : Primitive fs.Float → Primitive fs.Float → Operator → Result Bool
  unfolding compare_with compare_booleans
  evaluate (float_value a) (float_value b) op =
      ok (compare_with op (record { is_gt = fs.gt a b; is_eq = fs.eq a b }))
  evaluate (integer a) (integer b) op =
      ok (compare_with op (record { is_gt = gtb_ℤ a b; is_eq = eqb_ℤ a b }))
  evaluate (boolean a) (boolean b) op = compare_booleans op (same_bool a b)
  evaluate (string_value a) (string_value b) op =
      ok (compare_with op (record { is_gt = gtb_text a b; is_eq = str_eq a b }))
  evaluate (datetime a _) (datetime b _) op =
      ok (compare_with op (record { is_gt = gtb_ℤ a b; is_eq = eqb_ℤ a b }))
  evaluate (duration a _) (duration b _) op =
      ok (compare_with op (record { is_gt = gtb_ℤ a b; is_eq = eqb_ℤ a b }))
  evaluate _ _ op = err malformed
