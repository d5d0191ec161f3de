-- ===== src/Execution/Live/Poll.antt =====
-- execution/live_execution_engine.py: the requests of the engine, and the wait for the fill of an
-- entry. The loop takes fuel, and raises `running` where it ends.
use btc_bot.Prelude.{
  ℕ, zero, suc, ◌+◌, String, true, Option, none, some, List, [], ◌∷◌, ◌++◌, ◌⊎◌, inl, inr, leb,
  if◌then◌else◌,
}
use btc_bot.Prelude.Double.{Double, nought}
use btc_bot.Core.Models.{Time}
use btc_bot.Execution.Paper.{ExecutionStatus, FillEvent}
use btc_bot.Execution.Orders.{OrderRequest, OrderPayload, Exchange, Manager, submit, cancel}
use btc_bot.Execution.Live.{
  Cause, LiveError, EntryFillResult, LiveSettings, Seen, submit_failed, request_failed, to_float,
  fill_price_of, partial_fill, is_seen, payload_to_fill_event,
}

-- A method of the engine: it raises or gives a value, and the manager comes back in both cases.
abbrev pub Action : Type 0 → Type 0 → Type 0 → Type 0
Action W X A = Manager W X → (LiveError ⊎ A) × Manager W X

abbrev pub carry_on :
    {W X A B : Type 0}
    → (A → Action W X B)
    → (LiveError ⊎ A) × Manager W X
    → (LiveError ⊎ B) × Manager W X
carry_on f (inl e, m) = (inl e, m)
carry_on f (inr a, m) = f a m

infixl 5 ◌>>=◌ ◌>>◌
abbrev pub ◌>>=◌ : {W X A B : Type 0} → Action W X A → (A → Action W X B) → Action W X B
◌>>=◌ act f m = carry_on f (act m)

abbrev pub ◌>>◌ : {W X B : Type 0} → Action W X (Unit {0}) → Action W X B → Action W X B
act >> next = act >>= λ _. next

abbrev pub pure : {W X A : Type 0} → A → Action W X A
pure a m = (inr a, m)

abbrev pub raise : {W X A : Type 0} → LiveError → Action W X A
raise e m = (inl e, m)

abbrev pub ending_at : {W X : Type 0} → Manager W X → X → Manager W X
ending_at m x = record { submitted_orders = m.submitted_orders; outside = x }

module _ {W X : Type 0} ⦃d : Double W⦄ (ex : Exchange W X) (upper : String → String)
    (round10 : W → W) (s : LiveSettings) where
  open d use {lt}

  -- `set_leverage` in the `try` of the entry
  unfoldable pub set_leverage : ℕ → Action W X (Unit {0})
  set_leverage leverage m =
      let (r, x) = ex.post_leverage s.symbol leverage m.outside in
      elim r [
        | none ↦ (inr tt, ending_at m x)
        | some e ↦ (inl (request_failed LiveError.entry_execution_failed e), ending_at m x)
      ]

  -- `order_manager.submit` in a `try` with this error
  unfoldable pub send : (Cause → LiveError) → OrderRequest W → Action W X String
  send caught order m =
      let (r, m') = submit ex upper s.symbol order m in
      elim r [ inl e ↦ (inl (submit_failed caught e), m') | inr id ↦ (inr id, m') ]

  unfoldable pub fetch_order : (Cause → LiveError) → String → Action W X (OrderPayload W)
  fetch_order caught id m =
      let (r, x) = ex.get_order s.symbol id m.outside in
      elim r [
        | inl e ↦ (inl (request_failed caught e), ending_at m x)
        | inr none ↦ (inl LiveError.invalid_order_snapshot_payload, ending_at m x)
        | inr (some p) ↦ (inr p, ending_at m x)
      ]

  -- `try: cancel` with `except OrderManagerError: pass`
  abbrev pub try_cancel : String → Manager W X → Manager W X
  try_cancel id m = (cancel ex upper s.symbol id m).1

  abbrev pub full_fill : FillEvent W → OrderRequest W → List (FillEvent W) → EntryFillResult W
  full_fill event order events = record {
    filled_qty = event.qty;
    avg_fill_price = fill_price_of event order;
    events = events;
    fully_filled = true;
    executed_at = event.executed_at;
  }

  -- What was filled so far, or the error if nothing was
  abbrev pub filled_or :
      LiveError
      → OrderPayload W
      → OrderRequest W
      → List (FillEvent W)
      → Time
      → LiveError ⊎ EntryFillResult W
  filled_or e p order events at =
      if lt nought (to_float p.executed_qty) then inr (partial_fill p order events at) else inl e

  -- After the deadline
  abbrev pub late_end :
      String
      → OrderRequest W
      → OrderPayload W
      → FillEvent W
      → List (FillEvent W)
      → Manager W X
      → (LiveError ⊎ EntryFillResult W) × Manager W X
  late_end id order p event events m = (
    filled_or LiveError.entry_order_timeout_unfilled p order events event.executed_at,
    try_cancel id m,
  )

  abbrev pub canceled_end :
      OrderRequest W
      → OrderPayload W
      → FillEvent W
      → List (FillEvent W)
      → Manager W X
      → (LiveError ⊎ EntryFillResult W) × Manager W X
  canceled_end order p event events m =
      (filled_or LiveError.entry_order_canceled p order events event.executed_at, m)

  -- A round of the loop after the order is fetched, by the status of its event: how the loop ends, or
  -- `none` if it goes on
  unfoldable pub conclude :
      ExecutionStatus
      → String
      → OrderRequest W
      → ℕ
      → OrderPayload W
      → FillEvent W
      → List (FillEvent W)
      → Manager W X
      → Option ((LiveError ⊎ EntryFillResult W) × Manager W X)
  conclude ExecutionStatus.filled id order deadline p event events m =
      some (inr (full_fill event order events), m)
  conclude ExecutionStatus.rejected id order deadline p event events m =
      some (inl LiveError.entry_order_rejected, m)
  conclude ExecutionStatus.canceled id order deadline p event events m =
      if leb deadline (ex.monotonic m.outside)
      then some (late_end id order p event events m)
      else some (canceled_end order p event events m)
  conclude ExecutionStatus.new id order deadline p event events m =
      if leb deadline (ex.monotonic m.outside)
      then some (late_end id order p event events m)
      else none
  conclude ExecutionStatus.partially_filled id order deadline p event events m =
      if leb deadline (ex.monotonic m.outside)
      then some (late_end id order p event events m)
      else none

  abbrev pub rested : Manager W X → Manager W X
  rested m = if s.is_polling then ending_at m (ex.sleep m.outside) else m

  abbrev pub event_of : String → OrderRequest W → OrderPayload W → Manager W X → FillEvent W
  event_of id order p m =
      payload_to_fill_event upper (ex.new_id m.outside) (ex.now m.outside) p id order.price
        order.side

  abbrev pub key_of : FillEvent W → ExecutionStatus × W × Option W
  key_of event = (event.status, round10 event.qty, event.filled_price)

  -- A round of the loop: an order is fetched, its event is noted if it is new, and `rest` are the
  -- later rounds.
  unfoldable pub poll_round :
      (Seen W → List (FillEvent W) → Action W X (EntryFillResult W))
      → String
      → OrderRequest W
      → ℕ
      → Seen W
      → List (FillEvent W)
      → Action W X (EntryFillResult W)
  poll_round rest id order deadline seen events m =
      let (r, m') = fetch_order LiveError.entry_execution_failed id m in
      elim r [
        | inl e ↦ (inl e, m')
        | inr p ↦
            let event = event_of id order p m' in
            let known = is_seen (key_of event) seen in
            let events' = if known then events else events ++ (event ∷ []) in
            let seen' = if known then seen else key_of event ∷ seen in
            elim (conclude event.status id order deadline p event events' m') [
              | some done ↦ done
              | none ↦ rest seen' events' (rested m')
            ]
      ]

  unfoldable pub wait_loop :
      ℕ → String → OrderRequest W → ℕ → Seen W → List (FillEvent W) → Action W X (EntryFillResult W)
  wait_loop zero id order deadline seen events m = (inl LiveError.running, m)
  wait_loop (suc fuel) id order deadline seen events m =
      poll_round (wait_loop fuel id order deadline) id order deadline seen events m

  -- A poll for every unit of the clock, and two more
  unfoldable pub wait_for_entry_fill : String → OrderRequest W → Action W X (EntryFillResult W)
  wait_for_entry_fill id order m =
      let deadline = ex.monotonic m.outside + s.entry_timeout in
      wait_loop (suc (suc s.entry_timeout)) id order deadline [] [] m
