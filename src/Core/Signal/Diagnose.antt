-- ===== src/Core/Signal/Diagnose.antt =====
-- core/signal_engine.py: `diagnose` and `generate`.
use btc_bot.Prelude.{
  String, Bool, true, false, not, ◌&&◌, Option, none, some, List, [], ◌∷◌, ◌++◌, if◌then◌else◌,
  is_some,
}
use btc_bot.Prelude.Double.{Double}
use btc_bot.Core.Models.{
  Direction, RegimeState, Features, MarketContext, SignalReason, SignalBlock, SetupType,
  SignalDiagnostics, SignalCandidate, FeaturesPayload,
}
use btc_bot.Core.Signal.Config.{SignalConfig}
use btc_bot.Core.Signal.Score.{
  is_uptrend, is_direction_allowed, is_uptrend_pullback_context, infer_uptrend_continuation,
  infer_uptrend_pullback, infer_direction, confluence_score, build_levels,
}

-- The local variables that `diagnose` sets.
pub record Verdict (W : Type 0) : Type 0 where
  pub direction : Option Direction
  pub direction_allowed : Option Bool
  pub confluence_preview : Option W
  pub candidate_reasons_preview : List SignalReason
  pub blocked_by : Option SignalBlock

-- `a or b` on two reasons
abbrev or_else : Option SignalBlock → SignalBlock → Option SignalBlock
or_else none b = some b
or_else (some a) b = some a

abbrev label : {A : Type 0} → (MarketContext → A) → Option MarketContext → Option A
label g none = none
label g (some m) = some (g m)

abbrev pub is_ineligible : Option Bool → Bool
is_ineligible (some false) = true
is_ineligible _ = false

module _ {W : Type 0} ⦃d : Double W⦄ where
  open d use {lt}

  abbrev pub blocked : Option SignalBlock → Verdict W
  blocked b = record {
    direction = none;
    direction_allowed = none;
    confluence_preview = none;
    candidate_reasons_preview = [];
    blocked_by = b;
  }

  -- The whitelist and the score of a direction; `reasons` stand before those of the score.
  unfoldable pub weigh :
      SignalConfig W
      → Features W
      → RegimeState
      → Direction
      → W
      → SignalBlock
      → List SignalReason
      → Verdict W
  weigh c f regime direction minimum weak reasons =
      let (score, found) = confluence_score c f regime direction in
      if not (is_direction_allowed c direction regime)
      then record {
        direction = some direction;
        direction_allowed = some false;
        confluence_preview = none;
        candidate_reasons_preview = [];
        blocked_by = some SignalBlock.regime_direction_whitelist;
      }
      else record {
        direction = some direction;
        direction_allowed = some true;
        confluence_preview = some score;
        candidate_reasons_preview = reasons ++ found;
        blocked_by = (if lt score minimum then some weak else none);
      }

  -- The branch for a pullback in an uptrend.
  unfoldable pub judge_pullback : SignalConfig W → Features W → RegimeState → Verdict W
  judge_pullback c f regime =
      let (direction, reason) = infer_uptrend_pullback c f in
      elim direction [
        | none ↦ blocked reason
        | some dir ↦
            weigh c f regime dir c.uptrend_pullback_confluence_min SignalBlock.uptrend_pullback_weak
              (SignalReason.uptrend_pullback_entry ∷ [])
      ]

  abbrev weigh_plain : SignalConfig W → Features W → RegimeState → Direction → Verdict W
  weigh_plain c f regime dir =
      weigh c f regime dir c.confluence_min SignalBlock.confluence_below_min []

  -- The last branch: a continuation of an uptrend, or a sweep that was reclaimed.
  unfoldable pub judge_sweep : SignalConfig W → Features W → RegimeState → Verdict W
  judge_sweep c f regime =
      let (continued, reason) =
        (let r : Option Direction × Option SignalBlock =
            if is_uptrend regime && not f.reclaim_detected
            then infer_uptrend_continuation c f
            else (none, none) in
          r) in
      elim continued [
        | some dir ↦ weigh_plain c f regime dir
        | none ↦
            if not f.reclaim_detected
            then blocked (or_else reason SignalBlock.no_reclaim)
            else elim (infer_direction c f) [
              | none ↦ blocked (some SignalBlock.direction_unresolved)
              | some dir ↦ weigh_plain c f regime dir
            ]
      ]

  unfoldable pub is_shallow : SignalConfig W → Features W → Bool
  is_shallow c f = elim f.sweep_depth_pct [
    | none ↦ false
    | some depth ↦ lt depth c.min_sweep_depth_pct
  ]

  unfoldable pub judge : SignalConfig W → Features W → RegimeState → Verdict W
  judge c f regime =
      if not f.sweep_detected
      then blocked (some SignalBlock.no_sweep)
      else if not (is_some f.sweep_level)
      then blocked (some SignalBlock.missing_sweep_level)
      else if is_uptrend_pullback_context c f regime
      then judge_pullback c f regime
      else if is_shallow c f
      then blocked (some SignalBlock.sweep_too_shallow)
      else judge_sweep c f regime

  unfoldable pub diagnose :
      SignalConfig W → Features W → RegimeState → Option MarketContext → SignalDiagnostics W
  diagnose c f regime context =
      let v = judge c f regime in
      record {
        timestamp = f.timestamp;
        config_hash = f.config_hash;
        regime = regime;
        blocked_by = v.blocked_by;
        sweep_detected = f.sweep_detected;
        reclaim_detected = f.reclaim_detected;
        sweep_side = f.sweep_side;
        sweep_level = f.sweep_level;
        sweep_depth_pct = f.sweep_depth_pct;
        direction_inferred = v.direction;
        direction_allowed = v.direction_allowed;
        confluence_preview = v.confluence_preview;
        close_vs_reclaim_buffer_atr = f.close_vs_reclaim_buffer_atr;
        wick_vs_min_atr = f.wick_vs_min_atr;
        sweep_vs_buffer_atr = f.sweep_vs_buffer_atr;
        candidate_reasons_preview = v.candidate_reasons_preview;
        context_session_label = label (λ m. m.session_bucket) context;
        context_volatility_label = label (λ m. m.volatility_bucket) context;
        context_policy_version = label (λ m. m.context_policy_version) context;
        context_eligible = label (λ m. m.context_eligible) context;
        context_block_reason = elim context [ none ↦ none | some m ↦ m.context_block_reason ];
        context_neutral_mode_active = label (λ m. m.neutral_mode_active) context;
      }

  unfoldable pub build_candidate_features_payload : Features W → FeaturesPayload W
  build_candidate_features_payload f = record {
    atr_15m = f.atr_15m;
    atr_4h = f.atr_4h;
    atr_4h_norm = f.atr_4h_norm;
    ema50_4h = f.ema50_4h;
    ema200_4h = f.ema200_4h;
    sweep_depth_pct = f.sweep_depth_pct;
    sweep_side = f.sweep_side;
    funding_pct_60d = f.funding_pct_60d;
    oi_zscore_60d = f.oi_zscore_60d;
    cvd_15m = f.cvd_15m;
    tfi_60s = f.tfi_60s;
    force_order_rate_60s = f.force_order_rate_60s;
    force_order_spike = f.force_order_spike;
  }

  -- the candidate at the end of `generate`
  unfoldable pub candidate_of :
      SignalConfig W
      → String
      → Features W
      → RegimeState
      → SignalDiagnostics W
      → Direction
      → W
      → SignalCandidate W
  candidate_of c new_id f regime diagnostics direction score =
      let levels = build_levels c f direction in
      record {
        signal_id = new_id;
        timestamp = f.timestamp;
        direction = direction;
        setup_type = SetupType.liquidity_sweep_reclaim direction;
        entry_reference = levels.entry;
        invalidation_level = levels.invalidation;
        tp_reference_1 = levels.tp1;
        tp_reference_2 = levels.tp2;
        confluence_score = score;
        regime = regime;
        reasons = diagnostics.candidate_reasons_preview;
        features_json = build_candidate_features_payload f;
      }

  -- `generate`, once the diagnostics are there
  unfoldable pub generate_from :
      SignalConfig W
      → String
      → Features W
      → RegimeState
      → SignalDiagnostics W
      → Option (SignalCandidate W)
  generate_from c new_id f regime r =
      if is_some r.blocked_by
      then none
      else if is_ineligible r.context_eligible
      then none
      else elim r.direction_inferred [
        | none ↦ none
        | some direction ↦ elim r.confluence_preview [
          | none ↦ none
          | some score ↦ some (candidate_of c new_id f regime r direction score)
        ]
      ]

  unfoldable pub generate :
      SignalConfig W
      → String
      → Features W
      → RegimeState
      → Option (SignalDiagnostics W)
      → Option MarketContext
      → Option (SignalCandidate W)
  generate c new_id f regime diagnostics context = elim diagnostics [
    | some r ↦ generate_from c new_id f regime r
    | none ↦ generate_from c new_id f regime (diagnose c f regime context)
  ]
