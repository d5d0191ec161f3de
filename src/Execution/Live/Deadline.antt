-- ===== src/Execution/Live/Deadline.antt =====
-- execution/live_execution_engine.py, `_wait_for_entry_fill`: the wait ends.
use btc_bot.Prelude.{
  [], ◌≡◌, ◌≢◌, refl, arith, ℕ, zero, suc, ◌+◌, ◌≤◌, ◌<◌, String, true, false, Option, none, some,
  List, ◌⊎◌, inl, inr, leb, Bool-cases, Option-cases, Sum-cases,
}
use btc_bot.Prelude.Double.{Double, nought, ◌≺◌}
use btc_bot.Execution.Paper.{ExecutionStatus, FillEvent}
use btc_bot.Execution.Orders.{OrderRequest, OrderPayload, RequestError, Exchange, Manager}
use btc_bot.Execution.Live.{
  LiveError, EntryFillResult, LiveSettings, Seen, to_float, request_failed,
}
use btc_bot.Execution.Live.Poll.{
  Action, poll_round, fetch_order, conclude, wait_loop, wait_for_entry_fill, event_of, rested,
  filled_or,
}

-- `time.monotonic()` does not go back, and has moved on after `time.sleep` of a positive time.
pub record IsClock {W X : Type 0} (ex : Exchange W X) : Type 0 where
  pub never_back :
      (symbol id : String) (x : X) → ex.monotonic x ≤ ex.monotonic (ex.get_order symbol id x).1
  pub sleeps : (x : X) → ex.monotonic x < ex.monotonic (ex.sleep x)

module _ {W X : Type 0} ⦃d : Double W⦄ (ex : Exchange W X) (upper : String → String)
    (round10 : W → W) (s : LiveSettings) where
  open d use {lt}

  -- The fill is whole, or a positive quantity was filled of an order that has ended; the loop raises
  -- what stands here.
  pub data IsEnded : LiveError ⊎ EntryFillResult W → Type 0 where
    whole : (r : EntryFillResult W) → r.fully_filled ≡ true → IsEnded (inr r)
    part :
        (r : EntryFillResult W) → r.fully_filled ≡ false → nought ≺ r.filled_qty → IsEnded (inr r)
    failed : (e : LiveError) → e ≢ LiveError.running → IsEnded (inl e)

  filled_or-IsEnded :
      (e : LiveError) (p : OrderPayload W) (order : OrderRequest W) (events : List (FillEvent W))
      (at : ℕ)
      → e ≢ LiveError.running
      → IsEnded (filled_or ex upper round10 s e p order events at)
  filled_or-IsEnded e p order events at n =
      elim (Bool-cases (lt nought (to_float p.executed_qty))) [
        | inl f ↦ rw f (IsEnded.part _ refl f)
        | inr f ↦ rw f (IsEnded.failed e n)
      ]

  -- The loop has ended, or goes on before the deadline.
  abbrev IsConcluded :
      ℕ → Manager W X → Option ((LiveError ⊎ EntryFillResult W) × Manager W X) → Type 0
  IsConcluded deadline m none = ex.monotonic m.outside < deadline
  IsConcluded deadline m (some done) = IsEnded done.0

  conclude-IsConcluded :
      (status : ExecutionStatus) (id : String) (order : OrderRequest W) (deadline : ℕ)
      (p : OrderPayload W) (event : FillEvent W) (events : List (FillEvent W)) (m : Manager W X)
      → IsConcluded deadline m
          (conclude ex upper round10 s status id order deadline p event events m)
  unfolding conclude
  conclude-IsConcluded ExecutionStatus.filled id order deadline p event events m =
      IsEnded.whole _ refl
  conclude-IsConcluded ExecutionStatus.rejected id order deadline p event events m =
      IsEnded.failed _ (λ e. cc)
  conclude-IsConcluded ExecutionStatus.canceled id order deadline p event events m =
      elim (Bool-cases (leb deadline (ex.monotonic m.outside))) [
        | inl e ↦ rw e (filled_or-IsEnded _ p order events _ (λ e. cc))
        | inr e ↦ rw e (filled_or-IsEnded _ p order events _ (λ e. cc))
      ]
  conclude-IsConcluded ExecutionStatus.new id order deadline p event events m =
      elim (Bool-cases (leb deadline (ex.monotonic m.outside))) [
        | inl e ↦ rw e (filled_or-IsEnded _ p order events _ (λ e. cc))
        | inr e ↦ rw e (ground arith)
      ]
  conclude-IsConcluded ExecutionStatus.partially_filled id order deadline p event events m =
      elim (Bool-cases (leb deadline (ex.monotonic m.outside))) [
        | inl e ↦ rw e (filled_or-IsEnded _ p order events _ (λ e. cc))
        | inr e ↦ rw e (ground arith)
      ]

  request_failed_lem :
      (e : RequestError) → request_failed LiveError.entry_execution_failed e ≢ LiveError.running
  request_failed_lem (RequestError.binance code) = λ e. cc
  request_failed_lem RequestError.rest_client = λ e. cc
  request_failed_lem (RequestError.unexpected _) = λ e. cc

  -- A request that fails ends the loop, and one that answers does not turn the clock back.
  abbrev IsFetched : Manager W X → (LiveError ⊎ OrderPayload W) × Manager W X → Type 0
  IsFetched m (inl e, m') = e ≢ LiveError.running
  IsFetched m (inr p, m') = ex.monotonic m.outside ≤ ex.monotonic m'.outside

  fetch_order-IsFetched :
      (clock : IsClock ex) (id : String) (m : Manager W X)
      → IsFetched m (fetch_order ex upper round10 s LiveError.entry_execution_failed id m)
  unfolding fetch_order
  fetch_order-IsFetched clock id m = elim (Sum-cases (ex.get_order s.symbol id m.outside).0) [
    | inl (e, f) ↦ rw (fetch_order, f) (request_failed_lem e)
    | inr (o, f) ↦ elim (Option-cases o) [
      | inl g ↦ rw (fetch_order, f, g) (λ e. cc)
      | inr (p, g) ↦ rw (fetch_order, f, g) (clock.never_back s.symbol id m.outside)
    ]
  ]

  -- The match on how a round is concluded
  ended_or_later :
      (deadline : ℕ) (m : Manager W X) (o : Option ((LiveError ⊎ EntryFillResult W) × Manager W X))
      (rest : (LiveError ⊎ EntryFillResult W) × Manager W X)
      → IsConcluded deadline m o
      → (ex.monotonic m.outside < deadline → IsEnded rest.0)
      → IsEnded
          (elim o as (λ _. (LiveError ⊎ EntryFillResult W) × Manager W X) [
            | some done ↦ done
            | none ↦ rest
          ]).0
  ended_or_later deadline m none rest c later = later c
  ended_or_later deadline m (some done) rest c later = c

  rested_later :
      (clock : IsClock ex) (m : Manager W X)
      → s.is_polling ≡ true
      → ex.monotonic m.outside < ex.monotonic (rested ex upper round10 s m).outside
  rested_later clock m polls = rw polls (clock.sleeps m.outside)

  poll_round_ends :
      (clock : IsClock ex) (rest : Seen W → List (FillEvent W) → Action W X (EntryFillResult W))
      (id : String) (order : OrderRequest W) (deadline : ℕ) (seen : Seen W)
      (events : List (FillEvent W)) (m : Manager W X)
      → s.is_polling ≡ true
      → ((seen' : Seen W) (events' : List (FillEvent W)) (m' : Manager W X)
          → ex.monotonic m.outside < deadline
          → ex.monotonic m.outside < ex.monotonic m'.outside
          → IsEnded (rest seen' events' m').0)
      → IsEnded (poll_round ex upper round10 s rest id order deadline seen events m).0
  unfolding poll_round
  poll_round_ends clock rest id order deadline seen events m polls later =
      let got = fetch_order ex upper round10 s LiveError.entry_execution_failed id m in
      let fetched = fetch_order-IsFetched clock id m in
      elim (Sum-cases got.0) [
        | inl (e, f) ↦ rw (poll_round, f) (IsEnded.failed e (rw f at fetched))
        | inr (p, f) ↦
            let event = event_of ex upper round10 s id order p got.1 in
            let after : ex.monotonic m.outside ≤ ex.monotonic got.1.outside = rw f at fetched in
            let concluded = conclude-IsConcluded event.status id order deadline p event _ got.1 in
            rw (poll_round, f)
              (ended_or_later deadline got.1 _ _ concluded (λ before.
                later _ _ (rested ex upper round10 s got.1) (omega (arith, before, after))
                  (omega (arith, after, rested_later clock got.1 polls))))
      ]

  wait_loop_ends :
      (clock : IsClock ex) (k : ℕ) (id : String) (order : OrderRequest W) (deadline : ℕ)
      (seen : Seen W) (events : List (FillEvent W)) (m : Manager W X)
      → s.is_polling ≡ true
      → deadline < ex.monotonic m.outside + k
      → IsEnded (wait_loop ex upper round10 s (suc k) id order deadline seen events m).0
  unfolding wait_loop
  wait_loop_ends clock zero id order deadline seen events m polls h =
      poll_round_ends clock _ id order deadline seen events m polls
        (λ seen' events' m' before after. absurd (omega (arith, h, before)))
  wait_loop_ends clock (suc k) id order deadline seen events m polls h =
      poll_round_ends clock _ id order deadline seen events m polls
        (λ seen' events' m' before after.
          wait_loop_ends clock k id order deadline seen' events' m' polls (omega (arith, h, after)))

  -- The wait for an entry ends after at most two polls more than the timeout has units of the clock,
  -- if the clock does not go back and the engine sleeps between the polls: with an order that is
  -- filled, with a positive quantity of an order that is not, or with an error of the code.
  pub wait_for_entry_fill_ends :
      (clock : IsClock ex) (id : String) (order : OrderRequest W) (m : Manager W X)
      → s.is_polling ≡ true
      → IsEnded (wait_for_entry_fill ex upper round10 s id order m).0
  unfolding wait_for_entry_fill
  wait_for_entry_fill_ends clock id order m polls =
      wait_loop_ends clock (suc s.entry_timeout) id order _ [] [] m polls (omega arith)
