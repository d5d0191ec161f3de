-- ===== src/Execution/Live/Outcome.antt =====
-- execution/live_execution_engine.py, `execute_signal`: what is written, and when the position is
-- protected.
use btc_bot.Prelude.{
  ◌≡◌, ◌≢◌, refl, ℕ, String, true, false, none, some, [], ◌++◌, ◌⊎◌, inl, inr, Bool-cases,
  Option-cases, Sum-cases,
}
use btc_bot.Prelude.Double.{Double, nought}
use btc_bot.Core.Models.{ExecutableSignal}
use btc_bot.Execution.Paper.{OrderType, FillEvent}
use btc_bot.Execution.Orders.{OrderRequest, Exchange, Manager, RequestError, SubmitError, submit}
use btc_bot.Execution.Live.{
  LiveError, EntryFillResult, LiveSettings, LiveDraw, Cause, request_failed, submit_failed,
}
use btc_bot.Execution.Live.Poll.{Action, carry_on, set_leverage, send, fetch_order}
use btc_bot.Execution.Live.Execute.{
  LiveOutcome, protective_order, entry_order, entry_writes, protective_writes, enter,
  snapshot_order_event, protect, protected, entered, execute_live,
}
use btc_bot.Execution.Live.Deadline.{IsClock, IsEnded, wait_for_entry_fill_ends}

-- What an action raises, if it raises, is not the end of the fuel.
abbrev Halts : {W X A : Type 0} → (LiveError ⊎ A) × Manager W X → Type 0
Halts (inl e, m) = e ≢ LiveError.running
Halts (inr a, m) = Unit

module _ {W X A B : Type 0} where
  -- Two actions give a value only if both do.
  carry_on-inr :
      (f : A → Action W X B) (r : (LiveError ⊎ A) × Manager W X) (b : B)
      → (carry_on f r).0 ≡ inr b
      → (a : A) × (r.0 ≡ inr a) × ((f a r.1).0 ≡ inr b)
  carry_on-inr f (inl e, m) b h = absurd (cc)
  carry_on-inr f (inr a, m) b h = (a, refl, h)

  carry_on-Halts :
      (f : A → Action W X B) (r : (LiveError ⊎ A) × Manager W X)
      → Halts r
      → ((a : A) (m : Manager W X) → Halts (f a m))
      → Halts (carry_on f r)
  carry_on-Halts f (inl e, m) h k = h
  carry_on-Halts f (inr a, m) h k = k a m

-- What is caught is not raised as the end of the fuel.
abbrev Catches : (Cause → LiveError) → Type 0
Catches caught = (c : Cause) → caught c ≢ LiveError.running

entry-Catches : Catches LiveError.entry_execution_failed
entry-Catches c = λ i. cc

protective-Catches : Catches LiveError.protective_order_failed
protective-Catches c = λ i. cc

request_failed_halts :
    (caught : Cause → LiveError) (e : RequestError)
    → Catches caught
    → request_failed caught e ≢ LiveError.running
request_failed_halts caught (RequestError.binance code) h = h _
request_failed_halts caught RequestError.rest_client h = h _
request_failed_halts caught (RequestError.unexpected _) h = λ i. cc

submit_failed_halts :
    (caught : Cause → LiveError) (e : SubmitError)
    → Catches caught
    → submit_failed caught e ≢ LiveError.running
submit_failed_halts caught (SubmitError.order_error e) h = h _
submit_failed_halts caught SubmitError.value_error h = λ i. cc

module _ {W X : Type 0} ⦃d : Double W⦄ (ex : Exchange W X) (upper : String → String)
    (round10 : W → W) (s : LiveSettings) where
  set_leverage-Halts : (n : ℕ) (m : Manager W X) → Halts (set_leverage ex upper round10 s n m)
  unfolding set_leverage
  set_leverage-Halts n m = elim (Option-cases (ex.post_leverage s.symbol n m.outside).0) [
    | inl f ↦ rw (set_leverage, f) tt
    | inr (e, f) ↦ rw (set_leverage, f) (request_failed_halts _ e entry-Catches)
  ]

  send-Halts :
      (caught : Cause → LiveError) (order : OrderRequest W) (m : Manager W X)
      → Catches caught
      → Halts (send ex upper round10 s caught order m)
  unfolding send
  send-Halts caught order m h = elim (Sum-cases (submit ex upper s.symbol order m).0) [
    | inl (e, f) ↦ rw (send, f) (submit_failed_halts caught e h)
    | inr (id, f) ↦ rw (send, f) tt
  ]

  fetch_order-Halts :
      (caught : Cause → LiveError) (id : String) (m : Manager W X)
      → Catches caught
      → Halts (fetch_order ex upper round10 s caught id m)
  unfolding fetch_order
  fetch_order-Halts caught id m h = elim (Sum-cases (ex.get_order s.symbol id m.outside).0) [
    | inl (e, f) ↦ rw (fetch_order, f) (request_failed_halts caught e h)
    | inr (o, f) ↦ elim (Option-cases o) [
      | inl g ↦ rw (fetch_order, f, g) (λ i. cc)
      | inr (p, g) ↦ rw (fetch_order, f, g) tt
    ]
  ]

  ended-Halts :
      (r : (LiveError ⊎ EntryFillResult W) × Manager W X) → IsEnded ex upper round10 s r.0 → Halts r
  ended-Halts (inl e, m) (IsEnded.failed _ n) = n
  ended-Halts (inr fill, m) h = tt

  module _ (draw : LiveDraw) (signal : ExecutableSignal W) (size : W) (leverage : ℕ) where
    enter-Halts :
        (clock : IsClock ex) (m : Manager W X)
        → s.is_polling ≡ true
        → Halts (enter ex upper round10 s draw signal size leverage m)
    unfolding enter
    enter-Halts clock m polls =
        let order = entry_order ex upper round10 s draw signal size leverage in
        carry_on-Halts _ _ (set_leverage-Halts leverage m) (λ _ m'.
          carry_on-Halts _ _ (send-Halts _ order m' entry-Catches) (λ id m''.
            ended-Halts _ (wait_for_entry_fill_ends ex upper round10 s clock id order m'' polls)))

    protect-Halts :
        (qty : W) (m : Manager W X)
        → Halts (protect ex upper round10 s draw signal size leverage qty m)
    unfolding protect snapshot_order_event
    protect-Halts qty m = carry_on-Halts _ _ (send-Halts _ _ m protective-Catches) (λ stop_id m1.
        carry_on-Halts _ _ (send-Halts _ _ m1 protective-Catches) (λ tp_id m2.
          carry_on-Halts _ _
            (carry_on-Halts _ _ (fetch_order-Halts _ stop_id m2 protective-Catches) (λ p m'. tt))
            (λ stop_event m3.
              carry_on-Halts _ _
                (carry_on-Halts _ _ (fetch_order-Halts _ tp_id m3 protective-Catches) (λ p m'. tt))
                (λ tp_event m4. tt))))

    -- Nothing is written.
    abbrev pub IsRefused : LiveOutcome W X → Type 0
    IsRefused o = (e : LiveError) × (e ≢ LiveError.running) × (o.error ≡ some e) × (o.writes ≡ [])

    -- The position and its fills are written and committed, and an error is raised.
    abbrev pub IsExposed : EntryFillResult W → LiveOutcome W X → Type 0
    IsExposed fill o =
        (e : LiveError) × (e ≢ LiveError.running)
        × (o.error ≡ some e)
        × (o.writes
            ≡ entry_writes s draw signal leverage
                (entry_order ex upper round10 s draw signal size leverage).order_type fill)

    abbrev pub stop_order : EntryFillResult W → OrderRequest W
    stop_order fill =
        protective_order s signal fill.filled_qty draw.stop_order_id OrderType.stop_market
          signal.stop_loss

    abbrev pub target_order : EntryFillResult W → OrderRequest W
    target_order fill =
        protective_order s signal fill.filled_qty draw.tp_order_id OrderType.take_profit_market
          signal.take_profit_1

    -- The exchange takes the stop and then the target for the quantity that was filled, and their
    -- events are written and committed after the position and its fills.
    abbrev pub IsProtected : EntryFillResult W → Manager W X → LiveOutcome W X → Type 0
    IsProtected fill m o =
        let send_order = send ex upper round10 s LiveError.protective_order_failed in
        (o.error ≡ none)
        × ((stop_id : String) × ((send_order (stop_order fill) m).0 ≡ inr stop_id))
        × ((tp_id : String) × ((send_order (target_order fill) (send_order (stop_order fill) m).1).0
              ≡ inr tp_id))
        × ((stop_event : FillEvent W) × (tp_event : FillEvent W) × (o.writes
              ≡ entry_writes s draw signal leverage
                  (entry_order ex upper round10 s draw signal size leverage).order_type fill
                ++ protective_writes draw stop_event tp_event))

    sent_both :
        (fill : EntryFillResult W) (m : Manager W X) (events : FillEvent W × FillEvent W)
        → (protect ex upper round10 s draw signal size leverage fill.filled_qty m).0 ≡ inr events
        → let send_order = send ex upper round10 s LiveError.protective_order_failed in
          ((stop_id : String) × ((send_order (stop_order fill) m).0 ≡ inr stop_id))
          × ((tp_id : String) × ((send_order
                  (target_order fill)
                  (send_order (stop_order fill) m).1).0
                ≡ inr tp_id))
    unfolding protect
    sent_both fill m events h =
        let (stop_id, e, h') = carry_on-inr _ _ events h in
        let (tp_id, e', h'') = carry_on-inr _ _ events h' in ((stop_id, e), (tp_id, e'))

    protected_outcome :
        (fill : EntryFillResult W) (m : Manager W X)
        (r : (LiveError ⊎ (FillEvent W × FillEvent W)) × Manager W X)
        → Halts r
        → ((events : FillEvent W × FillEvent W)
            → r.0 ≡ inr events
            → let send_order = send ex upper round10 s LiveError.protective_order_failed in
              ((stop_id : String) × ((send_order (stop_order fill) m).0 ≡ inr stop_id))
              × ((tp_id : String) × ((send_order
                      (target_order fill)
                      (send_order (stop_order fill) m).1).0
                    ≡ inr tp_id)))
        → let o = protected ex upper round10 s draw signal size leverage fill r in
          IsExposed fill o ⊎ IsProtected fill m o
    unfolding protected
    protected_outcome fill m (inl e, m') h sent = inl (e, h, refl, refl)
    protected_outcome fill m (inr (stop_event, tp_event), m') h sent =
        let (stop, target) = sent (stop_event, tp_event) refl in
        inr (refl, stop, target, (stop_event, tp_event, refl))

    -- A fill of the entry, of a quantity that is not 0 or less, and what becomes of it
    abbrev pub IsEntered : (LiveError ⊎ EntryFillResult W) × Manager W X → LiveOutcome W X → Type 0
    IsEntered r o =
        (fill : EntryFillResult W) × (r.0 ≡ inr fill)
        × (d.le fill.filled_qty nought ≡ false)
        × (IsExposed fill o ⊎ IsProtected fill r.1 o)

    entered_outcome :
        (r : (LiveError ⊎ EntryFillResult W) × Manager W X)
        → Halts r
        → let o = entered ex upper round10 s draw signal size leverage r in
          IsRefused o ⊎ IsEntered r o
    unfolding entered
    entered_outcome (inl e, m) h = inl (e, h, refl, refl)
    entered_outcome (inr fill, m) h = elim (Bool-cases (d.le fill.filled_qty nought)) [
      | inl f ↦ rw f (inl (LiveError.zero_fill_qty, (λ i. cc), refl, refl))
      | inr f ↦ rw f (
          inr (
            fill,
            refl,
            f,
            protected_outcome fill m _ (protect-Halts fill.filled_qty m) (sent_both fill m),
          ))
    ]

    -- If the clock does not go back and the engine sleeps between its polls, a signal ends in one of
    -- three ways: an error is raised and nothing is written; or the entry is filled with a quantity
    -- that is not 0 or less, and the position with this quantity and its fills is committed, but an
    -- error is raised; or the exchange has also taken the stop and the target of the other side for
    -- this quantity, both are recorded, and no error is raised.
    pub execute_live_outcome :
        (clock : IsClock ex) (m : Manager W X)
        → s.is_polling ≡ true
        → let o = execute_live ex upper round10 s draw signal size leverage m in
          IsRefused o ⊎ IsEntered (enter ex upper round10 s draw signal size leverage m) o
    unfolding execute_live
    execute_live_outcome clock m polls =
        entered_outcome (enter ex upper round10 s draw signal size leverage m)
          (enter-Halts clock m polls)
