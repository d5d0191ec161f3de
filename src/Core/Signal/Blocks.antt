-- ===== src/Core/Signal/Blocks.antt =====
-- `SignalEngine.diagnose`: what an unblocked verdict has passed.
use mathlib.Core.Path.{subst}
use btc_bot.Prelude.{
  ◌≡◌, ◌≢◌, refl, true, false, not, ◌&&◌, none, some, List, [], ◌∷◌, ◌⊎◌, inl, inr, ◌∙◌, sym, ap,
  arith, is_some, if◌then◌else◌, Bool-cases, Option-cases,
}
use btc_bot.Prelude.Double.{Double}
use btc_bot.Core.Models.{Direction, RegimeState, SweepSide, Features, SignalBlock, SignalReason}
use btc_bot.Core.Signal.Config.{SignalConfig}
use btc_bot.Core.Signal.Score.{
  is_uptrend, is_low, is_direction_allowed, is_uptrend_pullback_context, infer_uptrend_continuation,
  infer_uptrend_pullback, infer_direction, confluence_score,
}
use btc_bot.Core.Signal.Diagnose.{Verdict, weigh, judge_pullback, judge_sweep, judge}

module _ {W : Type 0} ⦃d : Double W⦄ (c : SignalConfig W) (f : Features W)
    (regime : RegimeState) where
  open d use {lt}

  -- The score that a candidate needs.
  abbrev pub required_score : W
  required_score =
      if is_uptrend_pullback_context c f regime
      then c.uptrend_pullback_confluence_min
      else c.confluence_min

  -- The side of the sweep backs the direction: a long on a swept low, a short on a swept high, and a
  -- long on a swept high where an uptrend goes on with no reclaim.
  abbrev pub IsBacked : Direction → Type 0
  IsBacked Direction.long =
      (f.sweep_side ≡ some SweepSide.low)
      ⊎ ((f.sweep_side ≡ some SweepSide.high)
          × (regime ≡ RegimeState.uptrend)
          × (f.reclaim_detected ≡ false))
  IsBacked Direction.short = f.sweep_side ≡ some SweepSide.high

  -- What a verdict with no block has passed.
  pub record IsPassed (v : Verdict W) (direction : Direction) (score : W) : Type 0 where
    pub direction_is : v.direction ≡ some direction
    pub score_is : v.confluence_preview ≡ some score
    pub allowed : is_direction_allowed c direction regime ≡ true
    pub scored : score ≡ (confluence_score c f regime direction).0
    pub enough : lt score required_score ≡ false
    pub backed : IsBacked direction

  abbrev Passes : Verdict W → Type 0
  Passes v = (direction : Direction) × (score : W) × IsPassed v direction score

  is_low_iff : (is_low f.sweep_side ≡ true) → f.sweep_side ≡ some SweepSide.low
  is_low_iff h = ground arith

  weigh-Passes :
      (direction : Direction) (weak : SignalBlock) (reasons : List SignalReason)
      → IsBacked direction
      → (weigh c f regime direction required_score weak reasons).blocked_by ≡ none
      → IsPassed
          (weigh c f regime direction required_score weak reasons)
          direction
          (confluence_score c f regime direction).0
  unfolding weigh
  weigh-Passes direction weak reasons b h = record {
    direction_is = ground arith;
    score_is = ground arith;
    allowed = ground arith;
    scored = refl;
    enough = ground arith;
    backed = b;
  }

  infer_direction-IsBacked :
      (direction : Direction) → infer_direction c f ≡ some direction → IsBacked direction
  unfolding infer_direction
  infer_direction-IsBacked Direction.long e = ground arith
  infer_direction-IsBacked Direction.short e = ground arith

  continuation-IsBacked :
      (direction : Direction)
      → (is_uptrend regime && not f.reclaim_detected) ≡ true
      → (infer_uptrend_continuation c f).0 ≡ some direction
      → IsBacked direction
  unfolding infer_uptrend_continuation
  continuation-IsBacked Direction.long g e = ground arith
  continuation-IsBacked Direction.short g e = ground arith

  pullback-IsBacked :
      (direction : Direction) → (infer_uptrend_pullback c f).0 ≡ some direction → IsBacked direction
  unfolding infer_uptrend_pullback
  pullback-IsBacked Direction.long e = ground arith
  pullback-IsBacked Direction.short e = ground arith

  pullback_score :
      is_uptrend_pullback_context c f regime ≡ true
      → required_score ≡ c.uptrend_pullback_confluence_min
  pullback_score h = rw h

  plain_score : is_uptrend_pullback_context c f regime ≡ false → required_score ≡ c.confluence_min
  plain_score h = rw h

  -- Without a direction there is a reason.
  pullback_reason : (infer_uptrend_pullback c f).0 ≡ none → (infer_uptrend_pullback c f).1 ≢ none
  unfolding infer_uptrend_pullback
  pullback_reason e = ground arith

  -- With no block, each branch is the weighing of a direction that the sweep backs.
  judge_pullback_weighs :
      (judge_pullback c f regime).blocked_by ≡ none
      → (direction : Direction) × IsBacked direction
        × (judge_pullback c f regime
            ≡ weigh c f regime direction c.uptrend_pullback_confluence_min
                SignalBlock.uptrend_pullback_weak
                (SignalReason.uptrend_pullback_entry ∷ []))
  unfolding judge_pullback
  judge_pullback_weighs h = elim (Option-cases (infer_uptrend_pullback c f).0) [
    | inl e ↦ absurd (pullback_reason e (ground arith))
    | inr (direction, e) ↦ (direction, pullback-IsBacked direction e, ground arith)
  ]

  judge_sweep_weighs :
      (judge_sweep c f regime).blocked_by ≡ none
      → (direction : Direction) × IsBacked direction
        × (judge_sweep c f regime
            ≡ weigh c f regime direction c.confluence_min SignalBlock.confluence_below_min [])
  unfolding judge_sweep
  judge_sweep_weighs h = elim (Bool-cases (is_uptrend regime && not f.reclaim_detected)) [
    | inl going ↦ elim (Option-cases (infer_uptrend_continuation c f).0) [
      | inl e ↦ absurd (ground arith)
      | inr (direction, e) ↦ (direction, continuation-IsBacked direction going e, ground arith)
    ]
    | inr plain ↦ elim (Option-cases (infer_direction c f)) [
      | inl e ↦ absurd (ground arith)
      | inr (direction, e) ↦ (direction, infer_direction-IsBacked direction e, ground arith)
    ]
  ]

  judge_cases :
      (judge c f regime).blocked_by ≡ none
      → (f.sweep_detected ≡ true)
        × (is_some f.sweep_level ≡ true)
        × (((is_uptrend_pullback_context c f regime ≡ true)
              × (judge c f regime ≡ judge_pullback c f regime))
            ⊎ ((is_uptrend_pullback_context c f regime ≡ false)
                × (judge c f regime ≡ judge_sweep c f regime)))
  unfolding judge
  judge_cases h = ground arith

  Passes-of_weigh :
      (v : Verdict W) (direction : Direction) (minimum : W) (weak : SignalBlock)
      (reasons : List SignalReason)
      → minimum ≡ required_score
      → IsBacked direction
      → v ≡ weigh c f regime direction minimum weak reasons
      → v.blocked_by ≡ none
      → Passes v
  Passes-of_weigh v direction minimum weak reasons same b e h =
      let e' : v ≡ weigh c f regime direction required_score weak reasons =
        e ∙ ap (λ m. weigh c f regime direction m weak reasons) same in
      subst Passes (sym e') (
        direction,
        (confluence_score c f regime direction).0,
        weigh-Passes direction weak reasons b (sym (ap (λ u. u.blocked_by) e') ∙ h),
      )

  pub judge-Passes :
      (judge c f regime).blocked_by ≡ none
      → (f.sweep_detected ≡ true) × (is_some f.sweep_level ≡ true) × Passes (judge c f regime)
  judge-Passes h =
      let (sweep, level, branch) = judge_cases h in
      (
        sweep,
        level,
        elim branch [
          | inl (g, e) ↦
              let (direction, b, w) = judge_pullback_weighs (sym (ap (λ u. u.blocked_by) e) ∙ h) in
              Passes-of_weigh (judge c f regime) direction _ _ _ (sym (pullback_score g)) b (e ∙ w)
                h
          | inr (g, e) ↦
              let (direction, b, w) = judge_sweep_weighs (sym (ap (λ u. u.blocked_by) e) ∙ h) in
              Passes-of_weigh (judge c f regime) direction _ _ _ (sym (plain_score g)) b (e ∙ w) h
        ],
      )
