-- ===== src/Prelude/Int.antt =====
-- Integers over the native numbers.
use Prim.Native.Nat.{ℕ, ◌-◌, compare, Ordering}
use flytepropeller.Prelude.Tests.{u32}
use mathlib.Core.Bool.{Bool, true, false}

-- `negsuc n` is -(n + 1).
pub data ℤ : Type 0 where
  pos negsuc : ℕ → ℤ

-- `a > b` and `a == b` of a Go `int64`.
abbrev pub gtb_ℤ : ℤ → ℤ → Bool
gtb_ℤ (pos a) (pos b) = elim (compare a b) [ Ordering.gt ↦ true | _ ↦ false ]
gtb_ℤ (pos a) (negsuc b) = true
gtb_ℤ (negsuc a) (pos b) = false
gtb_ℤ (negsuc a) (negsuc b) = elim (compare a b) [ Ordering.lt ↦ true | _ ↦ false ]

abbrev pub eqb_ℤ : ℤ → ℤ → Bool
eqb_ℤ (pos a) (pos b) = elim (compare a b) [ Ordering.eq ↦ true | _ ↦ false ]
eqb_ℤ (negsuc a) (negsuc b) = elim (compare a b) [ Ordering.eq ↦ true | _ ↦ false ]
eqb_ℤ _ _ = false

-- `uint32(n)` of a Go `int`.
abbrev pub to_u32 : ℤ → ℕ
to_u32 (pos n) = u32 n
to_u32 (negsuc n) = 4294967295 - u32 n
