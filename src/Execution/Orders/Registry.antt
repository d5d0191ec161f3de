-- ===== src/Execution/Orders/Registry.antt =====
-- execution/order_manager.py: what holds of the orders that the manager keeps.
use text.Mathlib.Text.{◌==◌ as same_text}
use mathlib.Core.Path.{subst}
use text.Mathlib.TextEquality.{eq_iff}
use btc_bot.Prelude.{
  none, All, All-keep, All-map, Bool-cases, Sum-cases, [], refl, ◌∷◌, ◌⊎◌, none, ◌≡◌, ap, arith,
  String, true, false, ◌&&◌, Option, some, inl, inr, Option-cases, is_some,
}
use btc_bot.Prelude.Double.{Double, nought}
use btc_bot.Execution.Orders.{
  amended_order, Exchange, Manager, Orders, RequestError, cancel, drop_order, get_order, pop_order,
  register, set_order, submit, OrderRequest, SubmitParams, is_limit, is_trigger, is_missing,
  normalize_request, build_submit_params,
}

module _ {W : Type 0} ⦃d : Double W⦄ (symbol : String) where
  open d use {le}

  -- The order is what `_normalize_request` lets through.
  pub record IsOrder (r : OrderRequest W) : Type 0 where
    pub same_symbol : r.symbol ≡ symbol
    pub some_qty : le r.qty nought ≡ false
    pub some_price : (is_limit r.order_type && is_missing r.price) ≡ false
    pub some_stop : (is_trigger r.order_type && is_missing r.stop_price) ≡ false

  normalize_request-IsOrder :
      (upper : String → String) (request r : OrderRequest W)
      → normalize_request upper symbol request ≡ inr r
      → IsOrder r
  unfolding normalize_request
  normalize_request-IsOrder upper request r e =
      let same = eq_iff (upper request.symbol) symbol in ground (arith, same)

  pub IsOrder-normalize_request :
      (upper : String → String) (r : OrderRequest W)
      → upper symbol ≡ symbol
      → IsOrder r
      → normalize_request upper symbol r ≡ inr r
  unfolding normalize_request
  IsOrder-normalize_request upper r capital o =
      let same = eq_iff (upper r.symbol) symbol in ground (arith, same, o, capital)

  IsOrder-is_some : (r : OrderRequest W) → IsOrder r → is_some (build_submit_params r) ≡ true
  unfolding build_submit_params
  IsOrder-is_some r o = ground (arith, o)

  pub IsOrder-build_submit_params :
      (r : OrderRequest W)
      → IsOrder r
      → (params : SubmitParams W) × (build_submit_params r ≡ some params)
  IsOrder-build_submit_params r o = elim (Option-cases (build_submit_params r)) [
    | inl e ↦ absurd (cc (ap is_some e, IsOrder-is_some r o))
    | inr h ↦ h
  ]

  -- Every order that is kept is, under its own id, what `_normalize_request` lets through.
  abbrev pub IsRegistry : Orders W → Type 0
  IsRegistry = All (λ o. (o.0 ≡ o.1.client_order_id) × IsOrder o.1)

  renamed-IsOrder :
      (r : OrderRequest W) (id : String) → IsOrder r → IsOrder (record r { client_order_id = id })
  renamed-IsOrder r id o = record {
    same_symbol = o.same_symbol;
    some_qty = o.some_qty;
    some_price = o.some_price;
    some_stop = o.some_stop;
  }

  set_order-IsRegistry :
      (id : String) (r : OrderRequest W) (os : Orders W)
      → IsOrder (record r { client_order_id = id })
      → IsRegistry os
      → IsRegistry (set_order id (record r { client_order_id = id }) os)
  unfolding set_order
  set_order-IsRegistry id r [] p h = ((refl, p), tt)
  set_order-IsRegistry id r (o ∷ os) p h = elim (Bool-cases (same_text o.0 id)) [
    | inl e ↦ rw e ((refl, p), h.1)
    | inr e ↦ rw e (h.0, set_order-IsRegistry id r os p h.1)
  ]

  pop_order-IsRegistry :
      (id : String) (os : Orders W) → IsRegistry os → IsRegistry (pop_order id os)
  unfolding pop_order
  pop_order-IsRegistry id os h = All-keep _ _ os (All-map _ _ os (λ o p. λ e. p) h)

  abbrev IsFound : Option (OrderRequest W) → Type 0
  IsFound none = Unit
  IsFound (some r) = IsOrder r

  get_order-IsFound : (id : String) (os : Orders W) → IsRegistry os → IsFound (get_order id os)
  unfolding get_order
  get_order-IsFound id [] h = tt
  get_order-IsFound id (o ∷ os) h = elim (Bool-cases (same_text o.0 id)) [
    | inl f ↦ rw (get_order, f) h.0.1
    | inr f ↦ rw (get_order, f) (get_order-IsFound id os h.1)
  ]

  pub get_order-IsOrder :
      (id : String) (os : Orders W) (r : OrderRequest W)
      → IsRegistry os
      → get_order id os ≡ some r
      → IsOrder r
  get_order-IsOrder id os r h e = subst IsFound e (get_order-IsFound id os h)

  pub amended-IsOrder :
      (r : OrderRequest W) (qty price : Option W)
      → let r' = amended_order r qty price in
        IsOrder r
        → d.le r'.qty nought ≡ false
        → (is_limit r'.order_type && is_missing r'.price) ≡ false
        → IsOrder r'
  amended-IsOrder r qty price o e f = record {
    same_symbol = o.same_symbol;
    some_qty = e;
    some_price = f;
    some_stop = o.some_stop;
  }

module _ {W X : Type 0} ⦃d : Double W⦄ (ex : Exchange W X) (upper : String → String)
    (symbol : String) where
  abbrev KeepsRegistry : Manager W X → Type 0
  KeepsRegistry m = IsRegistry symbol m.submitted_orders

  register-IsRegistry :
      (r : OrderRequest W) (os : Orders W) (a : (RequestError ⊎ Option String) × X)
      → IsOrder symbol r
      → IsRegistry symbol os
      → KeepsRegistry (register ex upper symbol r os a).1
  unfolding register
  register-IsRegistry r os (inl e, x) o h = h
  register-IsRegistry r os (inr answer, x) o h =
      set_order-IsRegistry symbol _ r os (renamed-IsOrder symbol r _ o) h

  pub submit-IsRegistry :
      (request : OrderRequest W) (m : Manager W X)
      → KeepsRegistry m
      → KeepsRegistry (submit ex upper symbol request m).1
  unfolding submit
  submit-IsRegistry request m h = elim (Sum-cases (normalize_request upper symbol request)) [
    | inl (e, f) ↦ rw (submit, f) h
    | inr (r, f) ↦
        let o = normalize_request-IsOrder symbol upper request r f in
        let (params, g) = IsOrder-build_submit_params symbol r o in
        rw (submit, f, g) (register-IsRegistry r m.submitted_orders _ o h)
  ]

  drop_order-IsRegistry :
      (id : String) (os : Orders W) (a : Option RequestError × X)
      → IsRegistry symbol os
      → KeepsRegistry (drop_order ex upper symbol id os a).1
  unfolding drop_order
  drop_order-IsRegistry id os (some e, x) h = h
  drop_order-IsRegistry id os (none, x) h = pop_order-IsRegistry symbol id os h

  pub cancel-IsRegistry :
      (id : String) (m : Manager W X)
      → KeepsRegistry m
      → KeepsRegistry (cancel ex upper symbol id m).1
  unfolding cancel
  cancel-IsRegistry id m h = drop_order-IsRegistry id m.submitted_orders _ h
