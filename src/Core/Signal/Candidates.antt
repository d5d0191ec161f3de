-- ===== src/Core/Signal/Candidates.antt =====
-- `SignalEngine.generate`: what a candidate has passed, and when there is none.
use mathlib.Core.Option.{some-injective}
use mathlib.Core.Path.{subst}
use btc_bot.Prelude.{
  String, ◌≡◌, ◌≢◌, Bool, true, false, Option, none, some, ◌↔◌, ◌⊎◌, inl, inr, ◌∙◌, sym, arith,
  is_some, Bool-cases, Option-cases,
}
use btc_bot.Prelude.Double.{Double}
use btc_bot.Core.Models.{Direction, RegimeState, Features, MarketContext, SignalCandidate}
use btc_bot.Core.Signal.Config.{SignalConfig}
use btc_bot.Core.Signal.Score.{is_direction_allowed, confluence_score}
use btc_bot.Core.Signal.Diagnose.{
  judge, diagnose, generate, generate_from, candidate_of, is_ineligible,
}
use btc_bot.Core.Signal.Blocks.{required_score, IsBacked, IsPassed, judge-Passes}

module _ {W : Type 0} ⦃d : Double W⦄ (c : SignalConfig W) (f : Features W) (regime : RegimeState)
    (new_id : String) (context : Option MarketContext) where
  open d use {lt}

  abbrev pub is_excluded : Bool
  is_excluded = is_ineligible (diagnose c f regime context).context_eligible

  -- An unblocked verdict in a context that does not exclude it gives its candidate.
  generate-some :
      (direction : Direction) (score : W)
      → IsPassed c f regime (judge c f regime) direction score
      → (judge c f regime).blocked_by ≡ none
      → is_excluded ≡ false
      → generate c new_id f regime none context
        ≡ some (candidate_of c new_id f regime (diagnose c f regime context) direction score)
  unfolding generate generate_from diagnose
  generate-some direction score p h e = ground arith

  generate-none :
      ((judge c f regime).blocked_by ≢ none) ⊎ (is_excluded ≡ true)
      → generate c new_id f regime none context ≡ none
  unfolding generate generate_from diagnose
  generate-none h = ground arith

  -- No candidate comes out exactly if the diagnosis names a block or the context is not eligible:
  -- an unblocked diagnosis always has a direction and a score.
  generate-none_iff :
      (generate c new_id f regime none context ≡ none)
      ↔ (((judge c f regime).blocked_by ≢ none) ⊎ (is_excluded ≡ true))
  generate-none_iff = (
    λ e. elim (Option-cases (judge c f regime).blocked_by) [
      | inl clear ↦ elim (Bool-cases is_excluded) [
        | inl out ↦ inr out
        | inr within ↦
            let (_, _, passed) = judge-Passes c f regime clear in
            let (direction, score, p) = passed in
            absurd (cc (generate-some direction score p clear within))
      ]
      | inr (b, e') ↦ inl (λ clear. cc)
    ],
    generate-none,
  )

  -- What `generate` has checked of the candidate that it returns.
  abbrev pub Facts : SignalCandidate W → Type 0
  Facts x =
      (f.sweep_detected ≡ true)
      × (is_some f.sweep_level ≡ true)
      × (is_direction_allowed c x.direction regime ≡ true)
      × IsBacked c f regime x.direction
      × (x.confluence_score ≡ (confluence_score c f regime x.direction).0)
      × (lt x.confluence_score (required_score c f regime) ≡ false)
      × (is_excluded ≡ false)

  -- Every candidate comes from a detected sweep with a level, its direction is allowed in the
  -- regime and backed by the side of the sweep, its score is that of the direction and not below
  -- the required one, and the context did not exclude it.
  pub generate_passes :
      (x : SignalCandidate W) → generate c new_id f regime none context ≡ some x → Facts x
  unfolding candidate_of
  generate_passes x e = elim (Option-cases (judge c f regime).blocked_by) [
    | inl clear ↦ elim (Bool-cases is_excluded) [
      | inl out ↦ absurd (cc (generate-none (inr out)))
      | inr within ↦
          let (sweep, level, passed) = judge-Passes c f regime clear in
          let (direction, score, p) = passed in
          let made = generate-some direction score p clear within in
          subst (λ (y : SignalCandidate W). Facts y) (some-injective _ _ (sym made ∙ e))
            (sweep, level, p.allowed, p.backed, p.scored, p.enough, within)
    ]
    | inr (b, e') ↦ absurd (cc (generate-none (inl (λ clear. cc))))
  ]
