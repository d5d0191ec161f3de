-- ===== src/Execution/Paper/Bracket.antt =====
-- `PaperExecutionEngine`: when a signal is filled, and what is written.
use mathlib.Core.Path.{subst}
use btc_bot.Prelude.{
  ℕ, ◌≡◌, ◌↔◌, ◌≢◌, ◌⊎◌, refl, sym, ap, ◌∙◌, arith, String, true, none, some, [], ◌∷◌, inl, inr,
  Bool-cases, Option-cases,
}
use btc_bot.Prelude.Double.{Double, IsOrdered, IsNumber, nought, ◌≺◌, ◌≼◌}
use btc_bot.Prelude.Order.{lt_of_not_le, not_le_of_lt}
use btc_bot.Core.Models.{Direction, Position, ExecutableSignal}
use btc_bot.Execution.Paper.{
  Draw, Quotes, Outcome, Write, OrderType, FillEvent, fill_price, is_valid_bracket, fill_at,
  position_of, fill_of, execute_signal,
}

module _ {W : Type 0} ⦃d : Double W⦄ (laws : IsOrdered W) where
  open d use {le}
  open laws use {num_of_lt}

  -- Stop, entry and targets in order for the direction.
  abbrev pub InOrder : Direction → W → W → W → W → Type 0
  InOrder Direction.long stop entry tp1 tp2 = (stop ≺ entry) × (entry ≺ tp1) × (tp1 ≼ tp2)
  InOrder Direction.short stop entry tp1 tp2 = (tp2 ≼ tp1) × (tp1 ≺ entry) × (entry ≺ stop)

  -- The price at which the signal would be filled, if there is a price.
  abbrev pub FillsAt : Quotes W → ExecutableSignal W → W → Type 0
  FillsAt q s price =
      (mid : W) × (q.snapshot_price ≡ some mid) × (price ≡ fill_price s.direction q mid)

  is_valid_bracket_iff :
      (s : ExecutableSignal W) (price : W)
      → (is_valid_bracket s price ≡ true)
        ↔ InOrder s.direction s.stop_loss price s.take_profit_1 s.take_profit_2
  unfolding is_valid_bracket
  is_valid_bracket_iff s price = ground arith

  order_num :
      (dir : Direction) (stop entry tp1 tp2 : W) → InOrder dir stop entry tp1 tp2 → IsNumber entry
  order_num Direction.long stop entry tp1 tp2 h = (num_of_lt stop entry h.0).1
  order_num Direction.short stop entry tp1 tp2 h = (num_of_lt tp1 entry h.1).1

  -- What a signal that is filled writes: its position and its fill, and then the commit.
  pub record IsFilled (q : Quotes W) (s : ExecutableSignal W) (size : W) (leverage : ℕ)
      (o : Outcome W) : Type 0 where
    pub position : Position W
    pub fill : FillEvent W
    pub no_error : o.error ≡ none
    pub written :
        o.writes
        ≡ Write.insert_position position
          ∷ Write.insert_execution_fill_event position.position_id OrderType.market fill
          ∷ Write.commit
          ∷ []
    pub fills_at : FillsAt q s position.entry_price
    pub entry_positive : nought ≺ position.entry_price
    pub in_order :
        InOrder s.direction s.stop_loss position.entry_price s.take_profit_1 s.take_profit_2
    pub same_bracket :
        (position.stop_loss ≡ s.stop_loss)
        × (position.take_profit_1 ≡ s.take_profit_1)
        × (position.take_profit_2 ≡ s.take_profit_2)
    pub same_direction : position.direction ≡ s.direction
    pub same_size : (position.size ≡ size) × (fill.qty ≡ size)
    pub same_leverage : position.leverage ≡ leverage
    pub same_price : fill.filled_price ≡ some position.entry_price

  -- An error leaves nothing behind.
  abbrev pub IsRefused : Outcome W → Type 0
  IsRefused o = (o.error ≢ none) × (o.writes ≡ [])

  fill_at_outcome :
      (draw : Draw) (symbol : String) (q : Quotes W) (s : ExecutableSignal W) (size : W)
      (leverage : ℕ) (price : W)
      → FillsAt q s price
      → let o = fill_at draw symbol q s size leverage price in
        IsRefused o ⊎ IsFilled q s size leverage o
  unfolding fill_at
  fill_at_outcome draw symbol q s size leverage price at = elim (Bool-cases (le price nought)) [
    | inl e ↦ rw e (inl ((λ e'. absurd (cc)), refl))
    | inr e ↦ rw e (elim (Bool-cases (is_valid_bracket s price)) [
      | inr f ↦ rw f (inl ((λ e'. absurd (cc)), refl))
      | inl f ↦
          let order = (is_valid_bracket_iff s price).0 f in
          let nums =
            order_num s.direction s.stop_loss price s.take_profit_1 s.take_profit_2 order in
          rw f (
            inr (record {
              position = position_of draw symbol s size leverage price;
              fill = fill_of draw q s size price;
              no_error = refl;
              written = refl;
              fills_at = at;
              entry_positive = lt_of_not_le laws nought price laws.nought_num nums e;
              in_order = order;
              same_bracket = (refl, refl, refl);
              same_direction = refl;
              same_size = (refl, refl);
              same_leverage = refl;
              same_price = refl;
            }))
    ])
  ]

  execute_signal-eq :
      (draw : Draw) (symbol : String) (q : Quotes W) (s : ExecutableSignal W) (size : W)
      (leverage : ℕ) (mid : W)
      → q.snapshot_price ≡ some mid
      → execute_signal draw symbol q s size leverage
        ≡ fill_at draw symbol q s size leverage (fill_price s.direction q mid)
  unfolding execute_signal
  execute_signal-eq draw symbol q s size leverage mid e = rw e refl

  -- Either the signal is refused with an error and nothing is written, or a position at the quoted
  -- price of its side is written with its fill and committed, at a positive price, with its stop and
  -- targets in order around that price, and the size and the leverage that were asked for.
  pub execute_signal_outcome :
      (draw : Draw) (symbol : String) (q : Quotes W) (s : ExecutableSignal W) (size : W)
      (leverage : ℕ)
      → let o = execute_signal draw symbol q s size leverage in
        IsRefused o ⊎ IsFilled q s size leverage o
  unfolding execute_signal fill_at
  execute_signal_outcome draw symbol q s size leverage = elim (Option-cases q.snapshot_price) [
    | inl e ↦ rw e (inl ((λ e'. absurd (cc)), refl))
    | inr (mid, e) ↦
        let price = fill_price s.direction q mid in
        let same = execute_signal-eq draw symbol q s size leverage mid e in
        subst (λ o. IsRefused o ⊎ IsFilled q s size leverage o) (sym same)
          (fill_at_outcome draw symbol q s size leverage price (mid, e, refl))
  ]

  -- The signal is filled exactly if the snapshot has a price and the quoted price of its side is
  -- positive, with its stop and targets in order around it.
  execute_signal_fills_iff :
      (draw : Draw) (symbol : String) (q : Quotes W) (s : ExecutableSignal W) (size : W)
      (leverage : ℕ)
      → ((execute_signal draw symbol q s size leverage).error ≡ none) ↔ (
          (price : W) × FillsAt q s price
          × (nought ≺ price)
          × InOrder s.direction s.stop_loss price s.take_profit_1 s.take_profit_2)
  unfolding execute_signal fill_at
  execute_signal_fills_iff draw symbol q s size leverage = (
    (λ e. elim (execute_signal_outcome draw symbol q s size leverage) [
      | inl refused ↦ absurd (refused.0 e)
      | inr filled ↦
          (filled.position.entry_price, filled.fills_at, filled.entry_positive, filled.in_order)
    ]),
    (λ h.
        let (price, (mid, e, f), positive, order) = h in
        let same =
          execute_signal-eq draw symbol q s size leverage mid e
          ∙ ap (λ p. fill_at draw symbol q s size leverage p) (sym f) in
        let filled : (fill_at draw symbol q s size leverage price).error ≡ none =
          rw (not_le_of_lt laws nought price positive, (is_valid_bracket_iff s price).1 order)
            refl in
        subst (λ o. o.error ≡ none) (sym same) filled),
  )
