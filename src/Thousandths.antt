-- ===== src/Thousandths.antt =====
-- Whole thousandths with a sign, a type of numbers at which the laws of `Prelude.Float` hold. Tests
-- and examples run the engine's definitions at it. Products and quotients are cut towards nought.

use native.Mathlib.Nat.{mul-le-mul, le_refl}
use abb_accelerator_submissi.Prelude.{
  ℕ, suc, ◌+◌, ◌-◌, ◌*◌, ◌/◌, ◌^◌, ◌≤◌, ◌≡◌, refl, ltb, leb, Float, ◌≼◌, IsOrdered, IsRounded,
  arith, if◌then◌else◌, nought, one,
}

-- `below n` is -(n + 1) thousandths.
pub data Thousandths : Type 0 where
  above : ℕ → Thousandths
  below : ℕ → Thousandths

abbrev pub over : Thousandths → ℕ
over (above n) = n
over (below n) = 0

abbrev pub under : Thousandths → ℕ
under (above n) = 0
under (below n) = suc n

abbrev pub difference : ℕ → ℕ → Thousandths
difference a b = if leb b a then above (a - b) else below (b - a - 1)

abbrev pub times : Thousandths → Thousandths → Thousandths
times a b =
    difference ((over a * over b + under a * under b) / 1000)
      ((over a * under b + under a * over b) / 1000)

abbrev pub ratio : Thousandths → Thousandths → Thousandths
ratio a b =
    let size = over b + under b in
    if ltb 0 (over b)
    then difference (over a * 1000 / size) (under a * 1000 / size)
    else difference (under a * 1000 / size) (over a * 1000 / size)

instance abbrev pub thousandths_float : Float Thousandths
thousandths_float = record {
  decimal = λ m k. above (m * 1000 / 10 ^ k);
  of_nat = λ n. above (n * 1000);
  add = λ a b. difference (over a + over b) (under a + under b);
  sub = λ a b. difference (over a + under b) (under a + over b);
  mul = times;
  div = ratio;
  neg = λ a. difference (under a) (over a);
  le = λ a b. leb (over a + under b) (over b + under a);
  lt = λ a b. ltb (over a + under b) (over b + under a);
  round = λ a n. a;
}

pub Thousandths-IsOrdered : IsOrdered Thousandths
Thousandths-IsOrdered = record {
  le_refl = λ x. ground arith;
  le_trans = λ x y z h k. ground arith;
  le_total = λ x y. ground arith;
  lt-eq-not-le = λ x y. ground arith;
}

times_mono : (a b w : Thousandths) → a ≼ b → ◌≼◌ {R = Thousandths} nought w → times a w ≼ times b w
times_mono (above x) (above y) (above c) h k =
    let p : x ≤ y = ground arith in let q : x * c ≤ y * c = mul-le-mul p (le_refl c) in ground arith
times_mono (above x) (below y) (above c) h k = ground arith
times_mono (below x) (above y) (above c) h k = ground arith
times_mono (below x) (below y) (above c) h k =
    let p : suc y ≤ suc x = ground arith in
    let q : suc y * c ≤ suc x * c = mul-le-mul p (le_refl c) in ground arith
times_mono a b (below c) h k = ground arith

times-le_left :
    (a w : Thousandths)
    → ◌≼◌ {R = Thousandths} nought a
    → ◌≼◌ {R = Thousandths} w one
    → times a w ≼ a
times-le_left (above x) (above c) h k =
    let p : c ≤ 1000 = ground arith in
    let q : x * c ≤ x * 1000 = mul-le-mul (le_refl x) p in ground arith
times-le_left (above x) (below c) h k = ground arith
times-le_left (below x) w h k = ground arith

times_comm : (a b : Thousandths) → times a b ≡ times b a
times_comm (above x) (above y) = ground arith
times_comm (above x) (below y) = ground arith
times_comm (below x) (above y) = ground arith
times_comm (below x) (below y) = ground arith

times-le_right :
    (a w : Thousandths)
    → ◌≼◌ {R = Thousandths} nought a
    → ◌≼◌ {R = Thousandths} w one
    → times w a ≼ a
times-le_right a w h k = rw (times_comm w a) (times-le_left a w h k)

times_nonneg :
    (a b : Thousandths)
    → ◌≼◌ {R = Thousandths} nought a
    → ◌≼◌ {R = Thousandths} nought b
    → ◌≼◌ {R = Thousandths} nought (times a b)
times_nonneg (above x) (above y) h k = ground arith
times_nonneg (above x) (below y) h k = ground arith
times_nonneg (below x) b h k = ground arith

pub Thousandths-IsRounded : IsRounded Thousandths
Thousandths-IsRounded = record {
  ordered = Thousandths-IsOrdered;
  mul_mono = times_mono;
  mul_nonneg = times_nonneg;
  mul-le_left = times-le_left;
  mul-le_right = times-le_right;
  sub_nonneg = λ a b h. ground arith;
  sub-le = λ a b h. ground arith;
  le-add = λ a b h. ground arith;
  add_mono = λ a b c d h k. ground arith;
  add-one_sub-le = λ x h k. ground arith;
  round_mono = λ a b n h. h;
  nought-le-one = refl;
}
