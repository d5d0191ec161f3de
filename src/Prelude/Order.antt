-- ===== src/Prelude/Order.antt =====
-- Consequences of the order laws of `Double`, for values that are no NaN.
use mathlib.Core.Path.{◌≡◌}
use mathlib.Core.Bool.{false}
use mathlib.Core.Logic.{inl, inr}
use btc_bot.Prelude.Tests.{Bool-cases}
use mathlib.Core.List.{List, [], ◌∷◌, foldl}
use native.Mathlib.Omega.{arith}
use btc_bot.Prelude.Lists.{All}
use btc_bot.Prelude.Double.{Double, IsOrdered, IsNumber, max, min, ◌≼◌, ◌≺◌}

module _ {W : Type 0} ⦃d : Double W⦄ (laws : IsOrdered W) where
  open laws use {num_of_le, num_of_lt, le_trans, le_total, lt-eq-not-le}

  pub le_of_lt : (x y : W) → x ≺ y → x ≼ y
  le_of_lt x y h =
      let n = num_of_lt x y h in ground (arith, lt-eq-not-le x y n.0 n.1, le_total x y n.0 n.1)

  pub not_le_of_lt : (x y : W) → x ≺ y → d.le y x ≡ false
  not_le_of_lt x y h = let n = num_of_lt x y h in ground (arith, lt-eq-not-le x y n.0 n.1)

  pub lt_of_not_le : (x y : W) → IsNumber x → IsNumber y → d.le y x ≡ false → x ≺ y
  lt_of_not_le x y m n h = ground (arith, lt-eq-not-le x y m n)

  pub le_of_not_lt : (x y : W) → IsNumber x → IsNumber y → d.lt y x ≡ false → x ≼ y
  le_of_not_lt x y m n h = ground (arith, lt-eq-not-le y x n m)

  pub le_of_not_le : (x y : W) → IsNumber x → IsNumber y → d.le y x ≡ false → x ≼ y
  le_of_not_le x y m n h = ground (arith, le_total x y m n)

  pub lt_of_lt_of_le : (x y z : W) → x ≺ y → y ≼ z → x ≺ z
  lt_of_lt_of_le x y z h k =
      let n = num_of_lt x y h in
      let m = num_of_le y z k in
      ground (arith, lt-eq-not-le x z n.0 m.1, lt-eq-not-le x y n.0 n.1, le_trans y z x k)

  pub lt_of_le_of_lt : (x y z : W) → x ≼ y → y ≺ z → x ≺ z
  lt_of_le_of_lt x y z h k =
      let n = num_of_le x y h in
      let m = num_of_lt y z k in
      ground (arith, lt-eq-not-le x z n.0 m.1, lt-eq-not-le y z m.0 m.1, le_trans z x y)

  pub lt_irrefl : (x : W) → d.lt x x ≡ false
  lt_irrefl x = elim (Bool-cases (d.lt x x)) [
    | inl e ↦ let n = (num_of_lt x x e).0 in ground (arith, lt-eq-not-le x x n n)
    | inr e ↦ e
  ]

  pub min-le_left : (x y : W) → IsNumber x → IsNumber y → min x y ≼ x
  min-le_left x y m n = ground (arith, le_of_lt y x)

  pub min-le_right : (x y : W) → IsNumber x → IsNumber y → min x y ≼ y
  min-le_right x y m n = ground (arith, le_of_not_lt x y m n)

  pub le-max_left : (x y : W) → IsNumber x → IsNumber y → x ≼ max x y
  le-max_left x y m n = ground (arith, le_of_lt x y)

  pub le-max_right : (x y : W) → IsNumber x → IsNumber y → y ≼ max x y
  le-max_right x y m n = ground (arith, le_of_not_lt y x n m)

  pub max_num : (x y : W) → IsNumber x → IsNumber y → IsNumber (max x y)
  max_num x y m n = ground arith

  pub min_num : (x y : W) → IsNumber x → IsNumber y → IsNumber (min x y)
  min_num x y m n = ground arith

  -- The fold of a list is a bound of its start and of every element.
  pub foldl-min-le :
      (x : W) (ys : List W)
      → IsNumber x
      → All (λ y. IsNumber y) ys
      → (foldl min x ys ≼ x) × All (λ y. foldl min x ys ≼ y) ys
  foldl-min-le x [] n h = (n, tt)
  foldl-min-le x (y ∷ ys) n h =
      let rest = foldl-min-le (min x y) ys (min_num x y n h.0) h.1 in
      (
        le_trans _ _ _ rest.0 (min-le_left x y n h.0),
        (le_trans _ _ _ rest.0 (min-le_right x y n h.0), rest.1),
      )

  pub foldl-max-ge :
      (x : W) (ys : List W)
      → IsNumber x
      → All (λ y. IsNumber y) ys
      → (x ≼ foldl max x ys) × All (λ y. y ≼ foldl max x ys) ys
  foldl-max-ge x [] n h = (n, tt)
  foldl-max-ge x (y ∷ ys) n h =
      let rest = foldl-max-ge (max x y) ys (max_num x y n h.0) h.1 in
      (
        le_trans _ _ _ (le-max_left x y n h.0) rest.0,
        (le_trans _ _ _ (le-max_right x y n h.0) rest.0, rest.1),
      )
