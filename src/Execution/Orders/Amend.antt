-- ===== src/Execution/Orders/Amend.antt =====
-- execution/order_manager.py, `amend`: what becomes of an order that is cancelled to be replaced.
use mathlib.Core.Path.{subst}
use btc_bot.Prelude.{
  ◌≡◌, arith, true, refl, sym, ap, String, not, ◌&&◌, Option, none, some, List, [], ◌∷◌, ◌⊎◌, inl,
  inr, Bool-cases, Option-cases, is_some,
}
use btc_bot.Prelude.Double.{Double, nought}
use btc_bot.Execution.Orders.{
  OrderRequest, OrderManagerError, SubmitError, SubmitParams, Exchange, Manager, OrderReason,
  raised, is_limit, is_missing, get_order, build_submit_params, register, submit, cancel,
  amended_order, error_of, replace_order, amend,
}
use btc_bot.Execution.Orders.Registry.{
  IsOrder, IsRegistry, IsOrder-normalize_request, IsOrder-build_submit_params, get_order-IsOrder,
  amended-IsOrder, submit-IsRegistry, cancel-IsRegistry,
}

-- What a caller may ask of the manager
pub data Call (W : Type 0) : Type 0 where
  submit_call : OrderRequest W → Call W
  cancel_call : String → Call W
  amend_call : String → Option W → Option W → Call W

module _ {W X : Type 0} ⦃d : Double W⦄ (ex : Exchange W X) (upper : String → String)
    (symbol : String) where
  unfoldable pub call : Call W → Manager W X → Manager W X
  call (Call.submit_call request) m = (submit ex upper symbol request m).1
  call (Call.cancel_call id) m = (cancel ex upper symbol id m).1
  call (Call.amend_call id qty price) m = (amend ex upper symbol id qty price m).1

  unfoldable pub calls : List (Call W) → Manager W X → Manager W X
  calls [] m = m
  calls (c ∷ cs) m = calls cs (call c m)

  abbrev pub new_manager : X → Manager W X
  new_manager x = record { submitted_orders = []; outside = x }

  abbrev KeepsRegistry : Manager W X → Type 0
  KeepsRegistry m = IsRegistry symbol m.submitted_orders

  -- The manager is left alone: there is nothing to change, or a check fails.
  abbrev pub IsLeft : Option W → Option W → Manager W X → Option SubmitError × Manager W X → Type 0
  IsLeft qty price m r =
      (r.1 ≡ m)
      × (((r.0 ≡ none) × (qty ≡ none) × (price ≡ none))
          ⊎ ((reason : OrderReason) × (r.0 ≡ some (SubmitError.order_error (raised reason)))))

  -- The exchange does not cancel the order, and no other order is sent.
  abbrev pub IsNotCanceled :
      Option OrderManagerError × Manager W X → Option SubmitError × Manager W X → Type 0
  IsNotCanceled c r =
      (e : OrderManagerError) × (c.0 ≡ some e) × (r ≡ (some (SubmitError.order_error e), c.1))

  -- The order is cancelled and the amended order is sent to the exchange, whose answer decides.
  abbrev pub IsReplaced :
      OrderRequest W
      → Option OrderManagerError × Manager W X
      → Option SubmitError × Manager W X
      → Type 0
  IsReplaced amended c r =
      (c.0 ≡ none)
      × ((params : SubmitParams W) × (build_submit_params amended ≡ some params)
          × (r
              ≡ error_of (
                  register ex upper symbol amended c.1.submitted_orders
                    (ex.post_order params c.1.outside))))

  submit-IsOrder :
      (r : OrderRequest W) (m : Manager W X)
      → upper symbol ≡ symbol
      → IsOrder symbol r
      → (params : SubmitParams W) × (build_submit_params r ≡ some params)
        × (submit ex upper symbol r m
            ≡ register ex upper symbol r m.submitted_orders (ex.post_order params m.outside))
  unfolding submit
  submit-IsOrder r m capital o =
      let (params, e) = IsOrder-build_submit_params symbol r o in
      (params, e, rw (submit, IsOrder-normalize_request symbol upper r capital o, e) refl)

  replace_order_lem :
      (r : OrderRequest W) (c : Option OrderManagerError × Manager W X)
      → upper symbol ≡ symbol
      → IsOrder symbol r
      → IsNotCanceled c (replace_order ex upper symbol r c)
        ⊎ IsReplaced r c (replace_order ex upper symbol r c)
  unfolding replace_order
  replace_order_lem r (some e, m) capital o = inl (e, refl, refl)
  replace_order_lem r (none, m) capital o =
      let (params, e, f) = submit-IsOrder r m capital o in inr (refl, (params, e, ap error_of f))

  unset :
      (qty price : Option W)
      → (not (is_some qty) && not (is_some price)) ≡ true
      → (qty ≡ none) × (price ≡ none)
  unset qty price e = ground arith

  amend_cases :
      (id : String) (qty price : Option W) (m : Manager W X)
      → KeepsRegistry m
      → let r = amend ex upper symbol id qty price m in
        IsLeft qty price m r
        ⊎ ((existing : OrderRequest W) × (get_order id m.submitted_orders ≡ some existing)
            × IsOrder symbol (amended_order existing qty price)
            × (r
                ≡ replace_order ex upper symbol
                    (amended_order existing qty price)
                    (cancel ex upper symbol id m)))
  unfolding amend
  amend_cases id qty price m h = elim (Option-cases (get_order id m.submitted_orders)) [
    | inl e ↦ rw (amend, e) (inl (refl, inr (OrderReason.unknown_order, refl)))
    | inr (existing, e) ↦
        let r = amended_order existing qty price in
        rw (amend, e)
          (elim (Bool-cases (not (is_some qty) && not (is_some price))) [
            | inl f ↦
                let (no_qty, no_price) = unset qty price f in
                rw f (inl (refl, inl (refl, no_qty, no_price)))
            | inr f ↦ elim (Bool-cases (d.le r.qty nought)) [
              | inl g ↦ rw (f, g) (inl (refl, inr (OrderReason.invalid_qty, refl)))
              | inr g ↦ elim (Bool-cases (is_limit r.order_type && is_missing r.price)) [
                | inl k ↦ rw (f, g, k) (inl (refl, inr (OrderReason.invalid_price, refl)))
                | inr k ↦
                    let o =
                      amended-IsOrder symbol existing qty price
                        (get_order-IsOrder symbol id _ existing h e) g k in
                    rw (f, g, k) (inr (existing, refl, o, refl))
              ]
            ]
          ])
  ]

  error_of-manager : (r : (SubmitError ⊎ String) × Manager W X) → (error_of r).1 ≡ r.1
  error_of-manager (inl e, m) = refl
  error_of-manager (inr id, m) = refl

  replace_order-IsRegistry :
      (r : OrderRequest W) (c : Option OrderManagerError × Manager W X)
      → KeepsRegistry c.1
      → KeepsRegistry (replace_order ex upper symbol r c).1
  unfolding replace_order
  replace_order-IsRegistry r (some e, m) h = h
  replace_order-IsRegistry r (none, m) h =
      subst KeepsRegistry (sym (error_of-manager (submit ex upper symbol r m)))
        (submit-IsRegistry ex upper symbol r m h)

  call-IsRegistry : (c : Call W) (m : Manager W X) → KeepsRegistry m → KeepsRegistry (call c m)
  unfolding call
  call-IsRegistry (Call.submit_call request) m h = submit-IsRegistry ex upper symbol request m h
  call-IsRegistry (Call.cancel_call id) m h = cancel-IsRegistry ex upper symbol id m h
  call-IsRegistry (Call.amend_call id qty price) m h = elim (amend_cases id qty price m h) [
    | inl l ↦ subst KeepsRegistry (sym l.0) h
    | inr (existing, e, o, f) ↦
        subst (λ r. KeepsRegistry r.1) (sym f)
          (replace_order-IsRegistry (amended_order existing qty price) _
            (cancel-IsRegistry ex upper symbol id m h))
  ]

  calls-IsRegistry :
      (cs : List (Call W)) (m : Manager W X) → KeepsRegistry m → KeepsRegistry (calls cs m)
  unfolding calls
  calls-IsRegistry [] m h = h
  calls-IsRegistry (c ∷ cs) m h = calls-IsRegistry cs (call c m) (call-IsRegistry c m h)

  -- After any calls of a new manager, whose symbol is in capitals, `amend` leaves the manager alone,
  -- since there is nothing to change or a check fails, or the exchange does not cancel the order and
  -- no other is sent, or the order is cancelled and the amended one, which keeps to the checks of `submit`,
  -- is sent to the exchange, so that only the exchange can refuse it.
  pub amend_sends :
      (cs : List (Call W)) (x : X) (id : String) (qty price : Option W)
      → upper symbol ≡ symbol
      → let m = calls cs (new_manager x) in
        let c = cancel ex upper symbol id m in
        let r = amend ex upper symbol id qty price m in
        IsLeft qty price m r
        ⊎ (IsNotCanceled c r
            ⊎ ((existing : OrderRequest W) × (get_order id m.submitted_orders ≡ some existing)
                × IsReplaced (amended_order existing qty price) c r))
  amend_sends cs x id qty price capital =
      let m = calls cs (new_manager x) in
      let c = cancel ex upper symbol id m in
      elim (amend_cases id qty price m (calls-IsRegistry cs (new_manager x) tt)) [
        | inl l ↦ inl l
        | inr (existing, e, o, f) ↦
            let r = amended_order existing qty price in
            elim (replace_order_lem r c capital o) [
              | inl n ↦ inr (inl (subst (IsNotCanceled c) (sym f) n))
              | inr n ↦ inr (inr (existing, e, subst (IsReplaced r c) (sym f) n))
            ]
      ]
