-- ===== src/Core/Signal/Geometry.antt =====
-- The price levels of a candidate stand in order.
use btc_bot.Prelude.{Bool-cases, inl, inr}
use btc_bot.Prelude.Double.{Double, IsOrdered, IsRounded, IsNumber, ◌≼◌, max, nought}
use btc_bot.Prelude.Order.{le-max_right, le_of_lt}
use btc_bot.Core.Models.{Direction, Features}
use btc_bot.Core.Signal.Config.{SignalConfig}
use btc_bot.Core.Signal.Score.{PriceLevels, build_levels}

module _ {W : Type 0} ⦃d : Double W⦄ where
  open d use {abs, sub, mul, lit}

  -- The config's offsets are sensible: targets of at least 0, the second not nearer.
  pub record IsSane (c : SignalConfig W) : Type 0 where
    pub tp1_nonneg : nought ≼ c.tp1_atr_mult
    pub tp2_further : c.tp1_atr_mult ≼ c.tp2_atr_mult

  -- The levels are no NaN, nor the volatility and the distances that they are built from.
  pub record IsComputed (c : SignalConfig W) (f : Features W) (levels : PriceLevels W)
      : Type 0 where
    pub atr_num : IsNumber f.atr_15m
    pub tiny_pos : nought ≼ lit 1 8
    pub invalidation_num : IsNumber levels.invalidation
    pub tp1_num : IsNumber levels.tp1
    pub tp2_num : IsNumber levels.tp2

  abbrev pub InOrder : Direction → PriceLevels W → Type 0
  InOrder Direction.long l = (l.invalidation ≼ l.entry) × (l.entry ≼ l.tp1) × (l.tp1 ≼ l.tp2)
  InOrder Direction.short l = (l.tp2 ≼ l.tp1) × (l.tp1 ≼ l.entry) × (l.entry ≼ l.invalidation)

module _ {W : Type 0} ⦃d : Double W⦄ (laws : IsOrdered W) (rounds : IsRounded W) where
  open d use {abs, neg, add, sub, mul, lit, of_nat}
  open rounds use {
    num_of_add, num_of_sub, num_of_mul, add_mono, sub_mono, mul_mono, le-add, sub-le, mul_nonneg,
    abs_nonneg, num_of_abs, mul_comm,
  }

  -- A maximum that is a number is no less than a first argument that is one and is at least 0.
  max_nonneg : (x y : W) → (IsNumber x → nought ≼ x) → IsNumber (max x y) → nought ≼ max x y
  max_nonneg x y h n = elim (Bool-cases (d.lt x y)) [
    | inl less ↦
        rw less (laws.le_trans _ x y (h (laws.num_of_lt x y less).0) (le_of_lt laws x y less))
    | inr more ↦ rw more (h (rw more at n))
  ]

  -- The stop distance is at least 0, and so are the target distances, the second no less.
  distance_nonneg :
      (entry raw least : W)
      → IsNumber (max (abs (sub entry raw)) least)
      → nought ≼ max (abs (sub entry raw)) least
  distance_nonneg entry raw least =
      max_nonneg (abs (sub entry raw)) least
        λ n. abs_nonneg (sub entry raw) (num_of_abs (sub entry raw) n)

  targets :
      (atr m1 m2 : W)
      → nought ≼ atr
      → nought ≼ m1
      → m1 ≼ m2
      → IsNumber (mul atr m1)
      → IsNumber (mul atr m2)
      → (nought ≼ mul atr m1) × (mul atr m1 ≼ mul atr m2)
  targets atr m1 m2 a h k n m = (
    mul_nonneg atr m1 a h n,
    rw (mul_comm atr m1, mul_comm atr m2)
        (mul_mono m1 m2 atr k a (rw (mul_comm m1 atr) n) (rw (mul_comm m2 atr) m)),
  )

  atr_nonneg :
      {c : SignalConfig W} (f : Features W) {l : PriceLevels W}
      → IsComputed c f l
      → nought ≼ max f.atr_15m (lit 1 8)
  atr_nonneg f n =
      laws.le_trans _ _ _ n.tiny_pos
        (le-max_right laws f.atr_15m (lit 1 8) n.atr_num (laws.num_of_le _ _ n.tiny_pos).1)

  -- With a sane config every candidate has its stop, entry and targets in order: below the entry the
  -- stop and above it the targets for a long, the other way round for a short.
  pub build_levels-InOrder :
      (c : SignalConfig W) (f : Features W) (direction : Direction)
      → IsSane c
      → IsComputed c f (build_levels c f direction)
      → InOrder direction (build_levels c f direction)
  unfolding build_levels
  build_levels-InOrder c f Direction.long s n =
      let l = build_levels c f Direction.long in
      let atr = max f.atr_15m (lit 1 8) in
      let a = atr_nonneg f n in
      let m1 = (num_of_add l.entry (mul atr c.tp1_atr_mult) n.tp1_num).1 in
      let m2 = (num_of_add l.entry (mul atr c.tp2_atr_mult) n.tp2_num).1 in
      let t = targets atr c.tp1_atr_mult c.tp2_atr_mult a s.tp1_nonneg s.tp2_further m1 m2 in
      let entry = (num_of_add l.entry (mul atr c.tp1_atr_mult) n.tp1_num).0 in
      (
        sub-le l.entry _ (distance_nonneg l.entry _ _ (num_of_sub l.entry _ n.invalidation_num).1)
            n.invalidation_num,
        le-add l.entry (mul atr c.tp1_atr_mult) t.0 n.tp1_num,
        add_mono l.entry l.entry _ _ entry t.1 n.tp1_num n.tp2_num,
      )
  build_levels-InOrder c f Direction.short s n =
      let l = build_levels c f Direction.short in
      let atr = max f.atr_15m (lit 1 8) in
      let a = atr_nonneg f n in
      let m1 = (num_of_sub l.entry (mul atr c.tp1_atr_mult) n.tp1_num).1 in
      let m2 = (num_of_sub l.entry (mul atr c.tp2_atr_mult) n.tp2_num).1 in
      let t = targets atr c.tp1_atr_mult c.tp2_atr_mult a s.tp1_nonneg s.tp2_further m1 m2 in
      let entry = (num_of_sub l.entry (mul atr c.tp1_atr_mult) n.tp1_num).0 in
      (
        sub_mono l.entry l.entry _ _ entry t.1 n.tp2_num n.tp1_num,
        sub-le l.entry (mul atr c.tp1_atr_mult) t.0 n.tp1_num,
        le-add l.entry _ (distance_nonneg l.entry _ _ (num_of_add l.entry _ n.invalidation_num).1)
            n.invalidation_num,
      )
