-- ===== src/Core/Risk/Settlement.antt =====
-- `RiskEngine.build_settlement_metrics`: the excursions bound the profit.
use btc_bot.Prelude.{List, [], ◌∷◌, map, inl, inr, All, Some, ◌∙◌}
use btc_bot.Prelude.Double.{Double, IsOrdered, IsRounded, IsNumber, ◌≼◌, max, nought}
use btc_bot.Prelude.Order.{foldl-min-le, foldl-max-ge, le-max_left, le-max_right}
use btc_bot.Core.Candles.{Candle}
use btc_bot.Core.Models.{Direction, Position, ExitReason}
use btc_bot.Core.Risk.{compute_pnl_abs, build_settlement_metrics, lowest, highest}

module _ {W : Type 0} ⦃d : Double W⦄ where
  open d use {neg, sub, mul}

  -- The price was traded within one of the candles; with no candle the code takes the exit price.
  abbrev pub WasTraded : W → List (Candle W) → Type 0
  WasTraded price [] = IsNumber price
  WasTraded price (c ∷ cs) = Some (λ k. (k.low ≼ price) × (price ≼ k.high)) (c ∷ cs)

  abbrev pub HasNumbers : List (Candle W) → Type 0
  HasNumbers = All (λ k. IsNumber k.low × IsNumber k.high)

module _ {W : Type 0} ⦃d : Double W⦄ (laws : IsOrdered W) where
  open d use {neg, sub, mul}
  open laws use {le_trans}

  lows : (cs : List (Candle W)) → HasNumbers cs → All (λ y. IsNumber y) (map (λ k. k.low) cs)
  lows [] h = tt
  lows (c ∷ cs) h = (h.0.0, lows cs h.1)

  highs : (cs : List (Candle W)) → HasNumbers cs → All (λ y. IsNumber y) (map (λ k. k.high) cs)
  highs [] h = tt
  highs (c ∷ cs) h = (h.0.1, highs cs h.1)

  under :
      (low high price : W) (cs : List (Candle W))
      → All (λ y. low ≼ y) (map (λ k. k.low) cs)
      → All (λ y. y ≼ high) (map (λ k. k.high) cs)
      → Some (λ k. (k.low ≼ price) × (price ≼ k.high)) cs
      → (low ≼ price) × (price ≼ high)
  under low high price [] h k s = absurd s
  under low high price (c ∷ cs) h k (inl s) = (le_trans _ _ _ h.0 s.0, le_trans _ _ _ s.1 k.0)
  under low high price (c ∷ cs) h k (inr s) = under low high price cs h.1 k.1 s

  -- A traded price lies between the extremes of the candles.
  pub range_of_traded :
      (price : W) (cs : List (Candle W))
      → HasNumbers cs
      → WasTraded price cs
      → (lowest price cs ≼ price) × (price ≼ highest price cs)
  range_of_traded price [] h t = (t, t)
  range_of_traded price (c ∷ cs) h t =
      let low = foldl-min-le laws c.low (map (λ k. k.low) cs) h.0.0 (lows cs h.1) in
      let high = foldl-max-ge laws c.high (map (λ k. k.high) cs) h.0.1 (highs cs h.1) in
      under _ _ price (c ∷ cs) low high t

  module _ (rounds : IsRounded W) where
    open rounds use {le_neg, neg-sub-le, neg_mul, num_of_mul, num_of_sub, sub_mono, mul_mono}

    loss_bound :
        (loss profit size : W)
        → neg loss ≼ profit
        → nought ≼ size
        → IsNumber (mul loss size)
        → IsNumber (mul profit size)
        → neg (max (mul loss size) nought) ≼ mul profit size
    loss_bound loss profit size h s n m =
        let a = mul loss size in
        let up : neg (max a nought) ≼ neg a =
          le_neg (max a nought) a ∙ le-max_left laws a nought n laws.nought_num in
        let num : IsNumber (mul (neg loss) size) = rw (neg_mul loss size) (le_neg a a ∙ n) in
        let step : neg a ≼ mul profit size =
          rw (← neg_mul loss size) (mul_mono (neg loss) profit size h s num m) in
        le_trans _ _ _ up step

    gain_bound :
        (profit best size : W)
        → profit ≼ best
        → nought ≼ size
        → IsNumber (mul profit size)
        → IsNumber (mul best size)
        → mul profit size ≼ max (mul best size) nought
    gain_bound profit best size h s n m =
        le_trans _ _ _ (mul_mono profit best size h s n m)
          (le-max_left laws (mul best size) nought m laws.nought_num)

    -- `x - z` is the loss of a move from `x` down to `z`, and `y - x` the profit at `y`.
    flip_bound :
        (x y z : W) → z ≼ y → IsNumber (sub x z) → IsNumber (sub y x) → neg (sub x z) ≼ sub y x
    flip_bound x y z h n m =
        let back = neg-sub-le x z n in
        le_trans _ _ _ back (sub_mono z y x x h (num_of_sub y x m).1 (laws.num_of_le _ _ back).1 m)

    -- The products that the settlement computes are no NaN.
    abbrev pub HasNumericMoves : Position W → W → List (Candle W) → Type 0
    HasNumericMoves p price cs =
        IsNumber (mul (sub p.entry_price (lowest price cs)) p.size)
        × IsNumber (mul (sub (highest price cs) p.entry_price) p.size)
        × IsNumber (compute_pnl_abs p price)

    -- The settlement's numbers, with the direction and the prices as arguments.
    abbrev pnl_at : Direction → W → W → W → W
    pnl_at dir entry size price = elim dir [
      | Direction.long ↦ mul (sub price entry) size
      | Direction.short ↦ mul (sub entry price) size
    ]

    abbrev excursions_at : Direction → W → W → W → W → W × W
    excursions_at dir entry size low high = elim dir [
      | Direction.long ↦
          (max (mul (sub entry low) size) nought, max (mul (sub high entry) size) nought)
      | Direction.short ↦
          (max (mul (sub high entry) size) nought, max (mul (sub entry low) size) nought)
    ]

    bounds_at :
        (dir : Direction) (entry size price low high : W)
        → nought ≼ size
        → low ≼ price
        → price ≼ high
        → IsNumber (mul (sub entry low) size)
        → IsNumber (mul (sub high entry) size)
        → IsNumber (pnl_at dir entry size price)
        → let (mae, mfe) = excursions_at dir entry size low high in
          (nought ≼ mae)
          × (nought ≼ mfe)
          × (neg mae ≼ pnl_at dir entry size price)
          × (pnl_at dir entry size price ≼ mfe)
    bounds_at Direction.long entry size price low high s l h nl nh np =
        let dl = (num_of_mul _ _ nl).0 in
        let dh = (num_of_mul _ _ nh).0 in
        let dp = (num_of_mul _ _ np).0 in
        (
          le-max_right laws _ _ nl laws.nought_num,
          le-max_right laws _ _ nh laws.nought_num,
          loss_bound (sub entry low) (sub price entry) size (flip_bound entry price low l dl dp) s
              nl np,
          gain_bound (sub price entry) (sub high entry) size
              (sub_mono price high entry entry h (num_of_sub high entry dh).1 dp dh) s np nh,
        )
    bounds_at Direction.short entry size price low high s l h nl nh np =
        let dl = (num_of_mul _ _ nl).0 in
        let dh = (num_of_mul _ _ nh).0 in
        let dp = (num_of_mul _ _ np).0 in
        (
          le-max_right laws _ _ nh laws.nought_num,
          le-max_right laws _ _ nl laws.nought_num,
          loss_bound (sub high entry) (sub entry price) size
              (le_trans _ _ _ (neg-sub-le high entry dh) (
                sub_mono entry entry high price (num_of_sub high entry dh).1 h
                  (laws.num_of_le _ _ (neg-sub-le high entry dh)).1 dp))
              s nh np,
          gain_bound (sub entry price) (sub entry low) size
              (sub_mono entry entry price low (num_of_sub entry low dl).0 l dp dl) s np nl,
        )

    -- Both excursions are at least 0, and the profit lies between the adverse one, as a loss, and
    -- the favourable one: for a size of at least 0, an exit price that was traded within one of the
    -- candles (or no candle), and prices and products that are numbers.
    pub settlement_bounds :
        (p : Position W) (price : W) (reason : ExitReason) (cs : List (Candle W))
        → nought ≼ p.size
        → HasNumbers cs
        → WasTraded price cs
        → HasNumericMoves p price cs
        → let m = build_settlement_metrics p price reason cs in
          (nought ≼ m.mae) × (nought ≼ m.mfe) × (neg m.mae ≼ m.pnl_abs) × (m.pnl_abs ≼ m.mfe)
    unfolding build_settlement_metrics
    settlement_bounds p price reason cs s h t n =
        let range = range_of_traded price cs h t in
        bounds_at p.direction p.entry_price p.size price (lowest price cs) (highest price cs) s
          range.0 range.1 n.0 n.1 n.2
