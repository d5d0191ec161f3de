-- ===== src/Research/Constraints/Valid.antt =====
-- research_lab/constraints.py: which parameters pass.
use btc_bot.Prelude.{
  ◌≡◌, ◌≤◌, ◌<◌, ◌↔◌, refl, arith, Bool, true, false, not, ◌&&◌, Option, none, some, List, [], ◌∷◌,
  ltb, leb, ltb_iff, leb_iff, All,
}
use btc_bot.Prelude.Double.{Double, nought, ◌≺◌, ◌≼◌}
use btc_bot.Research.Constraints.{
  Params, Violation, Validity, fails, fails_both, truthy, present, append_if, are_weak, checks,
  collect_violations, validate_param_vector, assert_valid, raise_any,
}

-- A property of a value, or of two values, that are there.
abbrev Holds : {A : Type 0} → (A → Type 0) → Option A → Type 0
Holds P none = Unit
Holds P (some a) = P a

abbrev HoldsBoth : {A B : Type 0} → (A → B → Type 0) → Option A → Option B → Type 0
HoldsBoth P (some a) (some b) = P a b
HoldsBoth P _ _ = Unit

fails_iff :
    {A : Type 0} (test : A → Bool) (P : A → Type 0) (o : Option A)
    → ((a : A) → (test a ≡ true) ↔ P a)
    → (fails test o ≡ false) ↔ Holds P o
fails_iff test P none f = ((λ _. tt), (λ _. refl))
fails_iff test P (some a) f =
    ((λ e. (f a).0 (ground arith)), (λ p. let e = (f a).1 p in ground arith))

fails_both_iff :
    {A B : Type 0} (test : A → B → Bool) (P : A → B → Type 0) (o : Option A) (o' : Option B)
    → ((a : A) (b : B) → (test a b ≡ true) ↔ P a b)
    → (fails_both test o o' ≡ false) ↔ HoldsBoth P o o'
fails_both_iff test P none o' f = ((λ _. tt), (λ _. refl))
fails_both_iff test P (some a) none f = ((λ _. tt), (λ _. refl))
fails_both_iff test P (some a) (some b) f =
    ((λ e. (f a b).0 (ground arith)), (λ p. let e = (f a b).1 p in ground arith))

-- No test fails.
abbrev Passes : List (Bool × Violation) → Type 0
Passes = All (λ x. x.0 ≡ false)

append_if_iff :
    (b : Bool) (v : Violation) (vs : List Violation)
    → (append_if b v vs ≡ []) ↔ ((vs ≡ []) × (b ≡ false))
append_if_iff false v vs = ((λ e. (e, refl)), (λ h. h.0))
append_if_iff true v [] = ((λ e. absurd (cc)), (λ h. absurd (cc)))
append_if_iff true v (x ∷ vs) = ((λ e. absurd (cc)), (λ h. absurd (cc)))

collect_violations_iff :
    (vs : List Violation) (xs : List (Bool × Violation))
    → (collect_violations vs xs ≡ []) ↔ ((vs ≡ []) × Passes xs)
unfolding collect_violations
collect_violations_iff vs [] = ((λ e. (e, tt)), (λ h. h.0))
collect_violations_iff vs (x ∷ xs) =
    let rest = collect_violations_iff (append_if x.0 x.1 vs) xs in
    let one = append_if_iff x.0 x.1 vs in
    (
      (λ e. let (h, k) = rest.0 e in let (g, b) = one.0 h in (g, (b, k))),
      (λ h. rest.1 (one.1 (h.0, h.1.0), h.1.1)),
    )

raise_any_iff : (vs : List Violation) → (raise_any vs ≡ Validity.valid) ↔ (vs ≡ [])
raise_any_iff [] = ((λ _. refl), (λ _. refl))
raise_any_iff (v ∷ vs) = ((λ e. absurd (cc)), (λ e. absurd (cc)))

in_range_iff : (x y : Bool) → ((x && y) ≡ true) ↔ ((x ≡ true) × (y ≡ true))
in_range_iff x y = ground arith

not_iff : (x : Bool) → (not x ≡ true) ↔ (x ≡ false)
not_iff x = ground arith

same_iff : (x : Bool) → (x ≡ true) ↔ (x ≡ true)
same_iff x = ((λ e. e), (λ e. e))

module _ {W : Type 0} ⦃d : Double W⦄ where
  open d use {add, lt, le, lit, of_nat}

  -- What the parameters that are given must satisfy.
  pub record IsValid (p : Params W) : Type 0 where
    pub ema_order : HoldsBoth (λ a b. a < b) p.ema_fast p.ema_slow
    pub tp_order : HoldsBoth (λ a b. a ≺ b) p.tp1_atr_mult p.tp2_atr_mult
    pub offset_positive : Holds (λ x. nought ≺ x) p.invalidation_offset_atr
    pub rr_above_one : Holds (λ x. of_nat 1 ≺ x) p.min_rr
    pub risk_in_range : Holds (λ x. (lit 1 3 ≼ x) × (x ≼ lit 5 2)) p.risk_per_trade_pct
    pub leverage_in_range : Holds (λ n. (1 < n) × (n < 10)) p.max_leverage
    pub leverage_order : HoldsBoth (λ a b. a ≤ b) p.high_vol_leverage p.max_leverage
    pub partial_in_range : Holds (λ x. (nought ≺ x) × (x ≺ of_nat 1)) p.partial_exit_pct
    pub session_order : HoldsBoth (λ a b. a ≤ b) p.session_start_hour_utc p.session_end_hour_utc
    pub one_mode : (truthy p.allow_long_in_uptrend && truthy p.allow_uptrend_continuation) ≡ false
    pub strength_positive : Holds (λ x. nought ≺ x) p.uptrend_continuation_reclaim_strength_min
    pub participation_positive : Holds (λ x. nought ≺ x) p.uptrend_continuation_participation_min
    pub multiplier_above_one :
        Holds (λ x. of_nat 1 ≺ x) p.uptrend_continuation_confluence_multiplier
    pub participation_enough :
        HoldsBoth
          (λ a b. lt a b ≡ false)
          p.uptrend_continuation_participation_min
          p.direction_tfi_threshold
    pub weights_enough : are_weak (present p.signal_weights) ≡ false

  checks_iff : (p : Params W) → Passes (checks p) ↔ IsValid p
  unfolding checks
  checks_iff p =
      let q0 = fails_both_iff ltb (λ a b. a < b) p.ema_fast p.ema_slow ltb_iff in
      let q1 =
        fails_both_iff lt (λ a b. a ≺ b) p.tp1_atr_mult p.tp2_atr_mult (λ a b. same_iff (lt a b)) in
      let q2 =
        fails_iff (lt nought) (λ x. nought ≺ x) p.invalidation_offset_atr
          (λ x. same_iff (lt nought x)) in
      let q3 =
        fails_iff (lt (of_nat 1)) (λ x. of_nat 1 ≺ x) p.min_rr (λ x. same_iff (lt (of_nat 1) x)) in
      let q4 =
        fails_iff (λ x. le (lit 1 3) x && le x (lit 5 2)) (λ x. (lit 1 3 ≼ x) × (x ≼ lit 5 2))
          p.risk_per_trade_pct (λ x. in_range_iff (le (lit 1 3) x) (le x (lit 5 2))) in
      let q5 =
        fails_iff (λ n. ltb 1 n && ltb n 10) (λ n. (1 < n) × (n < 10)) p.max_leverage
          (λ n. ground arith) in
      let q6 = fails_both_iff leb (λ a b. a ≤ b) p.high_vol_leverage p.max_leverage leb_iff in
      let q7 =
        fails_iff (λ x. lt nought x && lt x (of_nat 1)) (λ x. (nought ≺ x) × (x ≺ of_nat 1))
          p.partial_exit_pct (λ x. in_range_iff (lt nought x) (lt x (of_nat 1))) in
      let q8 =
        fails_both_iff leb (λ a b. a ≤ b) p.session_start_hour_utc p.session_end_hour_utc leb_iff in
      let q10 =
        fails_iff (lt nought) (λ x. nought ≺ x) p.uptrend_continuation_reclaim_strength_min
          (λ x. same_iff (lt nought x)) in
      let q11 =
        fails_iff (lt nought) (λ x. nought ≺ x) p.uptrend_continuation_participation_min
          (λ x. same_iff (lt nought x)) in
      let q12 =
        fails_iff (lt (of_nat 1)) (λ x. of_nat 1 ≺ x) p.uptrend_continuation_confluence_multiplier
          (λ x. same_iff (lt (of_nat 1) x)) in
      let q13 =
        fails_both_iff (λ a b. not (lt a b)) (λ a b. lt a b ≡ false)
          p.uptrend_continuation_participation_min p.direction_tfi_threshold
          (λ a b. not_iff (lt a b)) in
      (
        (λ h. record {
          ema_order = q0.0 (h.0);
          tp_order = q1.0 (h.1.0);
          offset_positive = q2.0 (h.1.1.0);
          rr_above_one = q3.0 (h.1.1.1.0);
          risk_in_range = q4.0 (h.1.1.1.1.0);
          leverage_in_range = q5.0 (h.1.1.1.1.1.0);
          leverage_order = q6.0 (h.1.1.1.1.1.1.0);
          partial_in_range = q7.0 (h.1.1.1.1.1.1.1.0);
          session_order = q8.0 (h.1.1.1.1.1.1.1.1.0);
          one_mode = h.1.1.1.1.1.1.1.1.1.0;
          strength_positive = q10.0 (h.1.1.1.1.1.1.1.1.1.1.0);
          participation_positive = q11.0 (h.1.1.1.1.1.1.1.1.1.1.1.0);
          multiplier_above_one = q12.0 (h.1.1.1.1.1.1.1.1.1.1.1.1.0);
          participation_enough = q13.0 (h.1.1.1.1.1.1.1.1.1.1.1.1.1.0);
          weights_enough = h.1.1.1.1.1.1.1.1.1.1.1.1.1.1.0;
        }),
        (λ v. (
          q0.1 v.ema_order,
          (
            q1.1 v.tp_order,
            (
              q2.1 v.offset_positive,
              (
                q3.1 v.rr_above_one,
                (
                  q4.1 v.risk_in_range,
                  (
                    q5.1 v.leverage_in_range,
                    (
                      q6.1 v.leverage_order,
                      (
                        q7.1 v.partial_in_range,
                        (
                          q8.1 v.session_order,
                          (
                            v.one_mode,
                            (
                              q10.1 v.strength_positive,
                              (
                                q11.1 v.participation_positive,
                                (
                                  q12.1 v.multiplier_above_one,
                                  (q13.1 v.participation_enough, (v.weights_enough, tt)),
                                ),
                              ),
                            ),
                          ),
                        ),
                      ),
                    ),
                  ),
                ),
              ),
            ),
          ),
        )),
      )

  -- The parameters pass without a violation exactly if every condition holds of the values that
  -- are given; and `assert_valid` raises exactly otherwise.
  pub validate_param_vector_iff :
      (p : Params W)
      → ((validate_param_vector p ≡ []) ↔ IsValid p)
        × ((assert_valid p ≡ Validity.valid) ↔ IsValid p)
  unfolding validate_param_vector assert_valid
  validate_param_vector_iff p =
      let all = collect_violations_iff [] (checks p) in
      let each = checks_iff p in
      let passes : (collect_violations [] (checks p) ≡ []) ↔ IsValid p =
        ((λ e. each.0 (all.0 e).1), (λ v. all.1 (refl, each.1 v))) in
      (
        passes,
        (
          (λ e. passes.0 ((raise_any_iff (collect_violations [] (checks p))).0 e)),
          (λ v. (raise_any_iff (collect_violations [] (checks p))).1 (passes.1 v)),
        ),
      )
