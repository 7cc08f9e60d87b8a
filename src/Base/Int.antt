-- ===== src/Base/Int.antt =====
-- `i64` values. `negsuc n` is -(n + 1); the range of the machine type is not part of the type.
use Prim.Native.Nat.{ℕ, zero, suc, ◌+◌, ◌-◌, compare, Ordering}
use mathlib.Core.Path.{◌≡◌}
use mathlib.Core.Bool.{Bool, true, false}
use native.Mathlib.Omega.{arith}
use semnav.Base.Tests.{leb, if◌then◌else◌}
use semnav.Base.Order.{IsTotal}

pub data ℤ : Type 0 where
  pos : ℕ → ℤ
  negsuc : ℕ → ℤ

abbrev pub pos_part : ℤ → ℕ
pos_part (pos n) = n
pos_part (negsuc n) = 0

abbrev pub neg_part : ℤ → ℕ
neg_part (pos n) = 0
neg_part (negsuc n) = suc n

-- `i64::cmp`
abbrev pub int_cmp : ℤ → ℤ → Ordering
int_cmp a b = compare (pos_part a + neg_part b) (pos_part b + neg_part a)

abbrev pub int_leb : ℤ → ℤ → Bool
int_leb a b = leb (pos_part a + neg_part b) (pos_part b + neg_part a)

-- -n
abbrev pub neg : ℕ → ℤ
neg zero = pos 0
neg (suc n) = negsuc n

-- |a - b|, as the number that it is.
abbrev pub abs_diff : ℤ → ℤ → ℕ
abs_diff a b =
    let x = pos_part a + neg_part b in
    let y = pos_part b + neg_part a in if leb x y then y - x else x - y

-- a - b
abbrev pub int_sub : ℤ → ℤ → ℤ
int_sub a b =
    let x = pos_part a + neg_part b in
    let y = pos_part b + neg_part a in if leb y x then pos (x - y) else negsuc (y - x - 1)

abbrev pub int_eq : ℤ → ℤ → Bool
int_eq a b = elim (int_cmp a b) [ Ordering.eq ↦ true | _ ↦ false ]

int_eq_of : (a b : ℤ) → int_cmp a b ≡ Ordering.eq → a ≡ b
int_eq_of (pos a) (pos b) h = ground arith
int_eq_of (pos a) (negsuc b) h = ground arith
int_eq_of (negsuc a) (pos b) h = ground arith
int_eq_of (negsuc a) (negsuc b) h = ground arith

pub int_eq_holds : (a b : ℤ) → int_eq a b ≡ true → a ≡ b
int_eq_holds (pos a) (pos b) h = ground arith
int_eq_holds (pos a) (negsuc b) h = ground arith
int_eq_holds (negsuc a) (pos b) h = ground arith
int_eq_holds (negsuc a) (negsuc b) h = ground arith

pub int_eq_refl : (a : ℤ) → int_eq a a ≡ true
int_eq_refl a = ground arith

pub int-IsTotal : IsTotal int_cmp
int-IsTotal = record {
  eq_of = int_eq_of;
  self = λ a. ground arith;
  flip = λ a b. ground arith;
  lt_trans = λ a b c h k. ground arith;
}
