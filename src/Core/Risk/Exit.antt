-- ===== src/Core/Risk/Exit.antt =====
-- `RiskEngine.evaluate_exit` against a relation that says which exit a candle allows.
use mathlib.Core.Path.{subst, sym, ◌∙◌}
use btc_bot.Prelude.{
  ◌+◌, ◌≤◌, ◌<◌, ◌≡◌, Bool, true, false, ◌↔◌, ◌⊎◌, inl, inr, arith, Bool-cases, le_or_lt,
}
use btc_bot.Prelude.Double.{Double, ◌≼◌, ◌≺◌, nought}
use btc_bot.Core.Models.{Time, Direction, hours, Position, ExitReason}
use btc_bot.Core.Risk.{
  RiskConfig, ExitDecision, evaluate_exit, close_at, close_part, stay, partial_share,
}

module _ {W : Type 0} ⦃d : Double W⦄ where
  open d use {of_nat}

  -- The candle reached the stop, or the first target.
  abbrev pub TouchesStop : Position W → W → W → Type 0
  TouchesStop p high low = elim p.direction [
    | Direction.long ↦ low ≼ p.stop_loss
    | Direction.short ↦ p.stop_loss ≼ high
  ]

  abbrev pub TouchesTarget : Position W → W → W → Type 0
  TouchesTarget p high low = elim p.direction [
    | Direction.long ↦ p.take_profit_1 ≼ high
    | Direction.short ↦ low ≼ p.take_profit_1
  ]

  -- A part of the position may be closed at the target.
  abbrev pub AllowsPart : RiskConfig W → Bool → Type 0
  AllowsPart c enabled =
      (enabled ≡ true) × (nought ≺ partial_share c) × (partial_share c ≺ of_nat 1)

  -- The exits, in order of precedence: the stop, the target while no part is closed, the time limit.
  pub data ExitRule (c : RiskConfig W) (p : Position W) (now : Time) (high low close : W)
      (enabled : Bool) : Bool → ExitDecision W → Type 0 where
    stopped :
        {done : Bool}
        → TouchesStop p high low
        → done ≡ false
        → ExitRule c p now high low close enabled done (close_at ExitReason.sl p.stop_loss)
    trailed :
        {done : Bool}
        → TouchesStop p high low
        → done ≡ true
        → ExitRule c p now high low close enabled done (close_at ExitReason.tp_trail p.stop_loss)
    taken_part :
        {done : Bool}
        → ¬ TouchesStop p high low
        → TouchesTarget p high low
        → done ≡ false
        → AllowsPart c enabled
        → ExitRule c p now high low close enabled done
            (close_part p.take_profit_1 (partial_share c))
    taken :
        {done : Bool}
        → ¬ TouchesStop p high low
        → TouchesTarget p high low
        → done ≡ false
        → ¬ AllowsPart c enabled
        → ExitRule c p now high low close enabled done (close_at ExitReason.tp p.take_profit_1)
    timed_out :
        {done : Bool}
        → ¬ TouchesStop p high low
        → (done ≡ true) ⊎ (¬ TouchesTarget p high low)
        → p.opened_at + hours c.max_hold_hours ≤ now
        → ExitRule c p now high low close enabled done (close_at ExitReason.timeout close)
    held :
        {done : Bool}
        → ¬ TouchesStop p high low
        → (done ≡ true) ⊎ (¬ TouchesTarget p high low)
        → now < p.opened_at + hours c.max_hold_hours
        → ExitRule c p now high low close enabled done stay

  rule-evaluate_exit :
      (c : RiskConfig W) (p : Position W) (now : Time) (high low close : W) (enabled done : Bool)
      {r : ExitDecision W}
      → ExitRule c p now high low close enabled done r
      → evaluate_exit c p now high low close enabled done ≡ r
  unfolding evaluate_exit
  rule-evaluate_exit c p now high low close enabled done (stopped s e) = ground arith
  rule-evaluate_exit c p now high low close enabled done (trailed s e) = ground arith
  rule-evaluate_exit c p now high low close enabled done (taken_part s t e a) = ground arith
  rule-evaluate_exit c p now high low close enabled done (taken s t e a) = ground arith
  rule-evaluate_exit c p now high low close enabled done (timed_out s t late) = ground arith
  rule-evaluate_exit c p now high low close enabled done (held s t early) = ground arith

  stop-cases : (p : Position W) (high low : W) → TouchesStop p high low ⊎ (¬ TouchesStop p high low)
  stop-cases p high low = ground arith

  target-cases :
      (p : Position W) (high low : W) (done : Bool)
      → ((done ≡ false) × TouchesTarget p high low) ⊎ ((done ≡ true) ⊎ (¬ TouchesTarget p high low))
  target-cases p high low done = ground arith

  part-cases : (c : RiskConfig W) (enabled : Bool) → AllowsPart c enabled ⊎ (¬ AllowsPart c enabled)
  part-cases c enabled = ground arith

  -- Some rule always applies.
  some_rule :
      (c : RiskConfig W) (p : Position W) (now : Time) (high low close : W) (enabled done : Bool)
      → (r : ExitDecision W) × ExitRule c p now high low close enabled done r
  some_rule c p now high low close enabled done = elim (stop-cases p high low) [
    | inl s ↦ elim (Bool-cases done) [ inl e ↦ (_, trailed s e) | inr e ↦ (_, stopped s e) ]
    | inr s ↦ elim (target-cases p high low done) [
      | inl (e, t) ↦ elim (part-cases c enabled) [
        | inl a ↦ (_, taken_part s t e a)
        | inr a ↦ (_, taken s t e a)
      ]
      | inr t ↦ elim (le_or_lt (p.opened_at + hours c.max_hold_hours) now) [
        | inl late ↦ (_, timed_out s t late)
        | inr early ↦ (_, held s t early)
      ]
    ]
  ]

  -- `evaluate_exit` returns exactly the decision that the rules allow: at the stop price if the
  -- candle touched the stop (a trailing exit once a part is closed), else at the target while no
  -- part is closed (a part of the position only where the config and the caller allow one), else at
  -- the close once the position has been held for the limit, and else none.
  pub evaluate_exit_iff :
      (c : RiskConfig W) (p : Position W) (now : Time) (high low close : W) (enabled done : Bool)
      (r : ExitDecision W)
      → ExitRule c p now high low close enabled done r
        ↔ (evaluate_exit c p now high low close enabled done ≡ r)
  evaluate_exit_iff c p now high low close enabled done r = (
    λ rule. rule-evaluate_exit c p now high low close enabled done rule,
    λ e.
        let (r', rule) = some_rule c p now high low close enabled done in
        subst (ExitRule c p now high low close enabled done)
          (sym (rule-evaluate_exit c p now high low close enabled done rule) ∙ e) rule,
  )
