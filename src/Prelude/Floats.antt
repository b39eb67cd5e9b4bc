-- ===== src/Prelude/Floats.antt =====
-- The engine's floats: any type with the operations that the code uses, and the laws of IEEE
-- arithmetic that the theorems rest on. Every law is one of values that are not NaN; rounding is
-- monotone, so the laws of order hold of rounded results too.
use Prim.Native.Nat.{ℕ}
use mathlib.Core.Path.{◌≡◌}
use mathlib.Core.Logic.{◌⊎◌}
use mathlib.Core.Bool.{Bool, true, false, not}
use native.Mathlib.Omega.{arith}
use abb_accelerator_submissi.Prelude.Tests.{if◌then◌else◌}

pub record Float (R : Type 0) : Type 0 where
  -- `decimal m k` is the literal m · 10⁻ᵏ
  pub decimal : ℕ → ℕ → R
  -- `float(n)`
  pub of_nat : ℕ → R
  pub add : R → R → R
  pub sub : R → R → R
  pub mul : R → R → R
  pub div : R → R → R
  pub neg : R → R
  -- `<=` and `<`
  pub le : R → R → Bool
  pub lt : R → R → Bool
  -- `round(x, n)`
  pub round : R → ℕ → R

infix 4 ◌≼◌
abbrev pub ◌≼◌ : {R : Type 0} ⦃f : Float R⦄ → R → R → Type 0
◌≼◌ ⦃f⦄ x y = f.le x y ≡ true

module _ {R : Type 0} ⦃f : Float R⦄ where
  abbrev pub nought : R
  nought = f.decimal 0 0

  abbrev pub one : R
  one = f.decimal 1 0

  -- Python's `abs(x)`, `max(a, b)` and `min(a, b)`: the first of two equal values.
  abbrev pub abs : R → R
  abs x = if f.lt x nought then f.neg x else x

  abbrev pub max : R → R → R
  max a b = if f.lt a b then b else a

  abbrev pub min : R → R → R
  min a b = if f.lt b a then b else a

pub record IsOrdered (R : Type 0) ⦃f : Float R⦄ : Type 0 where
  pub le_refl : (x : R) → x ≼ x
  pub le_trans : (x y z : R) → x ≼ y → y ≼ z → x ≼ z
  pub le_total : (x y : R) → (x ≼ y) ⊎ (y ≼ x)
  pub lt-eq-not-le : (x y : R) → f.lt x y ≡ not (f.le y x)

pub record IsRounded (R : Type 0) ⦃f : Float R⦄ : Type 0 where
  pub ordered : IsOrdered R
  pub mul_mono : (a b w : R) → a ≼ b → nought ≼ w → f.mul a w ≼ f.mul b w
  pub mul_nonneg : (a b : R) → nought ≼ a → nought ≼ b → nought ≼ f.mul a b
  -- a factor of at most one does not enlarge
  pub mul-le_left : (a w : R) → nought ≼ a → w ≼ one → f.mul a w ≼ a
  pub mul-le_right : (a w : R) → nought ≼ a → w ≼ one → f.mul w a ≼ a
  pub sub_nonneg : (a b : R) → a ≼ b → nought ≼ f.sub b a
  pub sub-le : (a b : R) → nought ≼ b → f.sub a b ≼ a
  pub le-add : (a b : R) → nought ≼ b → a ≼ f.add a b
  pub add_mono : (a b c d : R) → a ≼ b → c ≼ d → f.add a c ≼ f.add b d
  -- 1 - x is exact enough that x + (1 - x) rounds to at most 1, for 0 ≤ x ≤ 1
  pub add-one_sub-le : (x : R) → nought ≼ x → x ≼ one → f.add x (f.sub one x) ≼ one
  pub round_mono : (a b : R) (n : ℕ) → a ≼ b → f.round a n ≼ f.round b n
  pub nought-le-one : ◌≼◌ {R = R} nought one

module _ {R : Type 0} ⦃f : Float R⦄ (laws : IsOrdered R) where
  open laws use {le_refl, le_trans, le_total, lt-eq-not-le}

  pub le_of_not-le : (x y : R) → f.le x y ≡ false → y ≼ x
  le_of_not-le x y h = ground (arith, le_total x y)

  pub le_of_lt : (x y : R) → f.lt x y ≡ true → x ≼ y
  le_of_lt x y h = ground (arith, le_total x y, lt-eq-not-le x y)

  pub le_of_not-lt : (x y : R) → f.lt x y ≡ false → y ≼ x
  le_of_not-lt x y h = ground (arith, lt-eq-not-le x y)

  pub not-lt_of_le : (x y : R) → y ≼ x → f.lt x y ≡ false
  not-lt_of_le x y h = ground (arith, lt-eq-not-le x y)

  pub le-max_left : (a b : R) → a ≼ max a b
  le-max_left a b = ground (arith, le_of_lt a b, le_refl a)

  pub le-max_right : (a b : R) → b ≼ max a b
  le-max_right a b = ground (arith, le_of_not-lt a b, le_refl b)

  pub max-le : (a b c : R) → a ≼ c → b ≼ c → max a b ≼ c
  max-le a b c h k = ground arith

  pub max-nonneg_left : (a b : R) → nought ≼ a → nought ≼ max a b
  max-nonneg_left a b h = le_trans nought a (max a b) h (le-max_left a b)

  -- The tests of a sort by a key: "not less" is total and transitive.
  pub not-lt_total : (x y : R) → not (f.lt y x) ≡ false → not (f.lt x y) ≡ true
  not-lt_total x y h = ground (arith, lt-eq-not-le x y, lt-eq-not-le y x, le_total x y)

  pub not-lt_trans :
      (x y z : R) → not (f.lt y x) ≡ true → not (f.lt z y) ≡ true → not (f.lt z x) ≡ true
  not-lt_trans x y z h k =
      ground (arith, lt-eq-not-le y x, lt-eq-not-le z y, lt-eq-not-le z x, le_trans x y z)

  pub lt_of_le_lt : (x y z : R) → x ≼ y → f.lt y z ≡ true → f.lt x z ≡ true
  lt_of_le_lt x y z h k = ground (arith, lt-eq-not-le x z, lt-eq-not-le y z, le_trans z x y)
