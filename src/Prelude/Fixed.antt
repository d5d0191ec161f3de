-- ===== src/Prelude/Fixed.antt =====
-- Numbers with twelve decimals, as an instance of the laws of `Double`: it shows that the laws can
-- be met, and runs the examples.
use Prim.Native.Nat.{ℕ, zero, suc, ◌+◌, ◌-◌, ◌*◌, ◌/◌, ◌^◌, ◌≤◌}
use mathlib.Core.Path.{◌≡◌, refl}
use mathlib.Core.Bool.{Bool, true, ◌&&◌}
use native.Mathlib.Omega.{arith}
use native.Mathlib.Nat.{mul-le-mul, le_refl, mul_comm}
use btc_bot.Prelude.Tests.{ltb, leb, if◌then◌else◌}
use btc_bot.Prelude.Double.{Double, IsOrdered, IsRounded}

-- `negsuc n` is -(n + 1).
pub data ℤ : Type 0 where
  pos : ℕ → ℤ
  negsuc : ℕ → ℤ

abbrev pub pos_part : ℤ → ℕ
pos_part (pos n) = n
pos_part (negsuc n) = 0

abbrev pub neg_part : ℤ → ℕ
neg_part (pos n) = 0
neg_part (negsuc n) = suc n

-- a - b, as an integer.
abbrev pub sub_ℕ : ℕ → ℕ → ℤ
sub_ℕ a b = if leb b a then pos (a - b) else negsuc (b - a - 1)

abbrev pub magnitude : ℤ → ℕ
magnitude a = pos_part a + neg_part a

-- The sign of a product of `a` and `b`, with the magnitude `n`.
abbrev pub signed : ℤ → ℤ → ℕ → ℤ
signed (pos _) (pos _) n = pos n
signed (negsuc _) (negsuc _) n = pos n
signed _ _ n = sub_ℕ 0 n

abbrev pub scale : ℕ
scale = 1_000_000_000_000

abbrev le_fixed : ℤ → ℤ → Bool
le_fixed a b = leb (pos_part a + neg_part b) (pos_part b + neg_part a)

-- The whole square root of a number below 4 ^ k, digit by digit.
abbrev pub root : ℕ → ℕ → ℕ
root zero n = 0
root (suc k) n = let r = 2 * root k (n / 4) in if leb ((r + 1) * (r + 1)) n then r + 1 else r

instance abbrev pub fixed_double : Double ℤ
fixed_double = record {
  of_nat = λ n. pos (n * scale);
  lit = λ m k. pos (m * scale / 10 ^ k);
  neg = λ a. sub_ℕ (neg_part a) (pos_part a);
  abs = λ a. pos (magnitude a);
  sqrt = λ a. pos (root 64 (pos_part a * scale));
  add = λ a b. sub_ℕ (pos_part a + pos_part b) (neg_part a + neg_part b);
  sub = λ a b. sub_ℕ (pos_part a + neg_part b) (neg_part a + pos_part b);
  mul = λ a b. signed a b (magnitude a * magnitude b / scale);
  div = λ a b. signed a b (magnitude a * scale / magnitude b);
  round2 = λ a. signed a (pos 0) ((magnitude a + 5_000_000_000) / 10_000_000_000 * 10_000_000_000);
  le = λ a b. le_fixed a b;
  lt = λ a b. ltb (pos_part a + neg_part b) (pos_part b + neg_part a);
  eq = λ a b. le_fixed a b && le_fixed b a;
}

pub fixed-IsOrdered : IsOrdered ℤ
fixed-IsOrdered = record {
  nought_num = refl;
  num_of_le = λ x y h. ground arith;
  num_of_lt = λ x y h. ground arith;
  le_trans = λ x y z h k. ground arith;
  le_total = λ x y h k. ground arith;
  lt-eq-not-le = λ x y h k. ground arith;
  eq-eq-le = λ x y. refl;
}

le_div : (a b : ℕ) → a ≤ b → a / scale ≤ b / scale
le_div a b h = omega arith

mul_mono :
    (x y z : ℤ)
    → fixed_double.le x y ≡ true
    → fixed_double.le (pos 0) z ≡ true
    → fixed_double.le (fixed_double.mul x z) (fixed_double.mul y z) ≡ true
mul_mono (pos a) (pos b) (pos c) h k =
    let le : a ≤ b = ground arith in
    ground (arith, le_div (a * c) (b * c) (mul-le-mul le (le_refl c)))
mul_mono (negsuc a) (pos b) (pos c) h k = ground arith
mul_mono (pos a) (negsuc b) (pos c) h k = ground arith
mul_mono (negsuc a) (negsuc b) (pos c) h k =
    let le : suc b ≤ suc a = ground arith in
    ground (arith, le_div (suc b * c) (suc a * c) (mul-le-mul le (le_refl c)))
mul_mono x y (negsuc c) h k = ground arith

neg_mul :
    (x y : ℤ) → fixed_double.mul (fixed_double.neg x) y ≡ fixed_double.neg (fixed_double.mul x y)
neg_mul (pos zero) (pos b) = ground arith
neg_mul (pos zero) (negsuc b) = ground arith
neg_mul (pos (suc a)) (pos b) = ground arith
neg_mul (pos (suc a)) (negsuc b) = ground arith
neg_mul (negsuc a) (pos b) = ground arith
neg_mul (negsuc a) (negsuc b) = ground arith

fixed_mul_comm : (x y : ℤ) → fixed_double.mul x y ≡ fixed_double.mul y x
fixed_mul_comm (pos a) (pos b) = ground (arith, mul_comm a b)
fixed_mul_comm (pos a) (negsuc b) = ground (arith, mul_comm a (suc b))
fixed_mul_comm (negsuc a) (pos b) = ground (arith, mul_comm (suc a) b)
fixed_mul_comm (negsuc a) (negsuc b) = ground (arith, mul_comm (suc a) (suc b))

pub fixed-IsRounded : IsRounded ℤ
fixed-IsRounded = record {
  le_neg = λ x y. ground arith;
  sub_neg = λ x y. ground arith;
  neg-sub-le = λ x y n. ground arith;
  neg_mul = neg_mul;
  mul_comm = fixed_mul_comm;
  num_of_sub = λ x y n. ground arith;
  num_of_add = λ x y n. ground arith;
  num_of_mul = λ x y n. ground arith;
  sub_mono = λ x x' y y' h k m n. ground arith;
  add_mono = λ x x' y y' h k m n. ground arith;
  mul_mono = λ x y z h k m n. mul_mono x y z h k;
  le-add = λ x y h n. ground arith;
  sub-le = λ x y h n. ground arith;
  mul_nonneg = λ x y h k n. ground arith;
  abs_nonneg = λ x n. ground arith;
  num_of_abs = λ x n. ground arith;
}
