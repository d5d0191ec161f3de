-- ===== src/Research/Constraints.antt =====
-- research_lab/constraints.py: `validate_param_vector` and `assert_valid`. A key that is missing or
-- None is `none`; periods, hours and leverages are not negative. A message is a constructor.
pub mod Valid
use btc_bot.Prelude.{
  ℕ, Bool, true, false, not, ◌&&◌, Option, none, some, List, [], ◌∷◌, ◌++◌, foldl, ltb, leb,
  if◌then◌else◌,
}
use btc_bot.Prelude.Double.{Double, nought}

-- the entries of `params` that are read; `signal_weights` has one for each of the seven weights
pub record Params (W : Type 0) : Type 0 where
  pub ema_fast : Option ℕ
  pub ema_slow : Option ℕ
  pub tp1_atr_mult : Option W
  pub tp2_atr_mult : Option W
  pub invalidation_offset_atr : Option W
  pub min_rr : Option W
  pub risk_per_trade_pct : Option W
  pub max_leverage : Option ℕ
  pub high_vol_leverage : Option ℕ
  pub partial_exit_pct : Option W
  pub session_start_hour_utc : Option ℕ
  pub session_end_hour_utc : Option ℕ
  pub allow_long_in_uptrend : Option Bool
  pub allow_uptrend_continuation : Option Bool
  pub uptrend_continuation_reclaim_strength_min : Option W
  pub uptrend_continuation_participation_min : Option W
  pub uptrend_continuation_confluence_multiplier : Option W
  pub direction_tfi_threshold : Option W
  pub signal_weights : List (Option W)

pub data Violation : Type 0 where
  ema_order tp_order invalidation_offset min_rr risk_per_trade max_leverage : Violation
  high_vol_leverage partial_exit session_order uptrend_modes reclaim_strength : Violation
  participation confluence_multiplier participation_below_tfi weights : Violation

-- A test on values that are there fails; a missing value fails no test.
abbrev pub fails : {A : Type 0} → (A → Bool) → Option A → Bool
fails test none = false
fails test (some a) = not (test a)

abbrev pub fails_both : {A B : Type 0} → (A → B → Bool) → Option A → Option B → Bool
fails_both test (some a) (some b) = not (test a b)
fails_both test _ _ = false

-- `bool(x)` of a value that may be missing
abbrev pub truthy : Option Bool → Bool
truthy (some b) = b
truthy none = false

abbrev pub present : {A : Type 0} → List (Option A) → List A
present [] = []
present (none ∷ xs) = present xs
present (some a ∷ xs) = a ∷ present xs

-- `if failed: violations.append(v)`
abbrev pub append_if : Bool → Violation → List Violation → List Violation
append_if failed v violations = if failed then violations ++ (v ∷ []) else violations

pub data Validity : Type 0 where
  valid : Validity
  value_error : List Violation → Validity

-- the tests in their order, with the violations so far
unfoldable pub collect_violations : List Violation → List (Bool × Violation) → List Violation
collect_violations violations [] = violations
collect_violations violations (x ∷ xs) = collect_violations (append_if x.0 x.1 violations) xs

abbrev pub raise_any : List Violation → Validity
raise_any [] = Validity.valid
raise_any (v ∷ vs) = Validity.value_error (v ∷ vs)

module _ {W : Type 0} ⦃d : Double W⦄ where
  open d use {add, lt, le, lit, of_nat}

  abbrev pub are_weak : List W → Bool
  are_weak [] = false
  are_weak (w ∷ ws) = lt (foldl add nought (w ∷ ws)) (lit 5 1)

  unfoldable pub checks : Params W → List (Bool × Violation)
  checks p =
      (fails_both ltb p.ema_fast p.ema_slow, Violation.ema_order)
      ∷ (fails_both lt p.tp1_atr_mult p.tp2_atr_mult, Violation.tp_order)
      ∷ (fails (lt nought) p.invalidation_offset_atr, Violation.invalidation_offset)
      ∷ (fails (lt (of_nat 1)) p.min_rr, Violation.min_rr)
      ∷ (
        fails (λ x. le (lit 1 3) x && le x (lit 5 2)) p.risk_per_trade_pct,
        Violation.risk_per_trade,
      )
      ∷ (fails (λ n. ltb 1 n && ltb n 10) p.max_leverage, Violation.max_leverage)
      ∷ (fails_both leb p.high_vol_leverage p.max_leverage, Violation.high_vol_leverage)
      ∷ (fails (λ x. lt nought x && lt x (of_nat 1)) p.partial_exit_pct, Violation.partial_exit)
      ∷ (fails_both leb p.session_start_hour_utc p.session_end_hour_utc, Violation.session_order)
      ∷ (
        truthy p.allow_long_in_uptrend && truthy p.allow_uptrend_continuation,
        Violation.uptrend_modes,
      )
      ∷ (fails (lt nought) p.uptrend_continuation_reclaim_strength_min, Violation.reclaim_strength)
      ∷ (fails (lt nought) p.uptrend_continuation_participation_min, Violation.participation)
      ∷ (
        fails (lt (of_nat 1)) p.uptrend_continuation_confluence_multiplier,
        Violation.confluence_multiplier,
      )
      ∷ (
        fails_both (λ a b. not (lt a b)) p.uptrend_continuation_participation_min
            p.direction_tfi_threshold,
        Violation.participation_below_tfi,
      )
      ∷ (are_weak (present p.signal_weights), Violation.weights)
      ∷ []

  unfoldable pub validate_param_vector : Params W → List Violation
  unfolding checks collect_violations
  validate_param_vector p = collect_violations [] (checks p)

  unfoldable pub assert_valid : Params W → Validity
  assert_valid p = raise_any (validate_param_vector p)
