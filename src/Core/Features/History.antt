-- ===== src/Core/Features/History.antt =====
-- core/feature_engine.py: the rolling histories of `FeatureEngine`, and what it reads from them.
-- The database rows that fill a history at the start come with the text of their time (`text`, by
-- which they are sorted) and the time that was read from it.
use btc_bot.Prelude.{
  ℕ, ◌+◌, ◌*◌, String, Bool, false, ◌&&◌, Option, none, some, List, [], ◌∷◌, map, foldl, length,
  ltb, ◌==◌, if◌then◌else◌,
}
use Prim.Native.Nat.{max as max_nat}
use btc_bot.Prelude.Double.{Double, nought}
use btc_bot.Prelude.Sorting.{sort}
use btc_bot.Prelude.Tails.{bounded, last_n, init, last, first}
use btc_bot.Core.Models.{Time, hours}
use btc_bot.Core.Features.Config.{FeatureEngineConfig}
use btc_bot.Core.Features.Numbers.{mean, std}

abbrev pub days : ℕ → ℕ
days n = hours (24 * n)

-- The attributes of `FeatureEngine`: (time, open interest), rates, and (time, price, cvd).
pub record Histories (W : Type 0) : Type 0 where
  pub oi_history : List (Time × W)
  pub force_order_rate_history : List W
  pub cvd_price_history : List (Time × (W × W))

abbrev pub reset : {W : Type 0} → Histories W
reset = record { oi_history = []; force_order_rate_history = []; cvd_price_history = [] }

-- A sample at the time of the last one takes its place; any other is appended.
unfoldable pub upsert : {A : Type 0} → (Time × A) → List (Time × A) → List (Time × A)
upsert x [] = x ∷ []
upsert x (y ∷ []) = if y.0 == x.0 then x ∷ [] else y ∷ x ∷ []
upsert x (y ∷ z ∷ ys) = y ∷ upsert x (z ∷ ys)

-- `while history and history[0][0] < threshold: history.popleft()`, with `threshold` the time `now`
-- less `window`
unfoldable pub expire : {A : Type 0} → ℕ → Time → List (Time × A) → List (Time × A)
expire window now [] = []
expire window now (y ∷ ys) = if ltb (y.0 + window) now then expire window now ys else y ∷ ys

pub record Row (A : Type 0) : Type 0 where
  pub text : String
  pub time : Option Time
  pub datum : A

-- An entry whose time cannot be read is left out.
abbrev keep_timed : {A : Type 0} → Option Time → A → List (Time × A) → List (Time × A)
keep_timed none a xs = xs
keep_timed (some t) a xs = (t, a) ∷ xs

unfoldable pub load : {A : Type 0} → List (Row A) → List (Time × A)
load [] = []
load (r ∷ rs) = keep_timed r.time r.datum (load rs)

pub record LoadReport : Type 0 where
  pub loaded : ℕ
  pub required : Option ℕ
  pub oldest_timestamp : Option Time
  pub newest_timestamp : Option Time

-- the time of an entry that may be missing
abbrev pub time_of : {A : Type 0} → Option (Time × A) → Option Time
time_of none = none
time_of (some x) = some x.0

abbrev pub or_nought : {W : Type 0} → ⦃d : Double W⦄ → Option W → W
or_nought none = nought
or_nought (some w) = w

module _ {W : Type 0} ⦃d : Double W⦄ where
  open d use {add, mul, lt, eq, of_nat}

  -- `text_lt` is the order of Python's strings.
  unfoldable pub bootstrap_oi_history :
      (String → String → Bool) → List (Row (Option W)) → Histories W → Histories W × LoadReport
  unfolding load sort
  bootstrap_oi_history text_lt samples h =
      let rows = load (sort (λ a b. text_lt a.text b.text) samples) in
      let oi_history = map (λ r. (r.0, or_nought r.1)) rows in
      (
        record {
          oi_history = oi_history;
          force_order_rate_history = h.force_order_rate_history;
          cvd_price_history = h.cvd_price_history;
        },
        record {
          loaded = length rows;
          required = none;
          oldest_timestamp = time_of (first oi_history);
          newest_timestamp = time_of (last oi_history);
        },
      )

  -- The deque keeps the last 500 of the bars that are loaded; all of them are counted.
  unfoldable pub bootstrap_cvd_price_history :
      FeatureEngineConfig W
      → (String → String → Bool)
      → List (Row (Option W × Option W))
      → Histories W
      → Histories W × LoadReport
  unfolding load sort
  bootstrap_cvd_price_history c text_lt bars h =
      let rows = load (sort (λ a b. text_lt a.text b.text) bars) in
      let cvd_price_history =
        bounded 500 (map (λ r. (r.0, (or_nought r.1.0, or_nought r.1.1))) rows) in
      (
        record {
          oi_history = h.oi_history;
          force_order_rate_history = h.force_order_rate_history;
          cvd_price_history = cvd_price_history;
        },
        record {
          loaded = length rows;
          required = some (max_nat c.cvd_divergence_bars 1);
          oldest_timestamp = time_of (first cvd_price_history);
          newest_timestamp = time_of (last cvd_price_history);
        },
      )

  -- the pairs of a price and the running total of the cvd
  abbrev pub rolling : W → List (Time × (W × W)) → List (W × W)
  rolling running [] = []
  rolling running (x ∷ xs) = let total = add running x.1.1 in (x.1.0, total) ∷ rolling total xs

  -- `max` and `min` with a key: the first of equal prices is kept.
  abbrev pub higher : (W × W) → (W × W) → W × W
  higher best p = if lt best.0 p.0 then p else best

  abbrev pub lower : (W × W) → (W × W) → W × W
  lower best p = if lt p.0 best.0 then p else best

  abbrev pub diverge : List (W × W) → Option (W × W) → Bool × Bool
  diverge [] current = (false, false)
  diverge (p ∷ ps) none = (false, false)
  diverge (p ∷ ps) (some current) =
      let at_high = foldl higher p ps in
      let at_low = foldl lower p ps in
      (
        lt current.0 at_low.0 && lt at_low.1 current.1,
        lt at_high.0 current.0 && lt current.1 at_high.1,
      )

  -- the pair (bullish, bearish)
  unfoldable pub compute_cvd_divergence : FeatureEngineConfig W → Histories W → Bool × Bool
  compute_cvd_divergence c h =
      let window = max_nat c.cvd_divergence_window_bars 3 in
      let pairs = rolling nought (last_n window h.cvd_price_history) in
      if ltb (length h.cvd_price_history) window
      then (false, false)
      else diverge (init pairs) (last pairs)

  unfoldable pub is_force_order_spike : Histories W → W → Bool
  unfolding mean std
  is_force_order_spike h current_rate =
      let baseline = init h.force_order_rate_history in
      let avg = mean baseline in
      let sd = std baseline in
      if ltb (length h.force_order_rate_history) 6
      then false
      else if eq sd nought
      then lt avg current_rate && lt nought current_rate
      else lt (add avg (mul (of_nat 2) sd)) current_rate

  abbrev falling : List W → Bool
  falling (a ∷ b ∷ c ∷ []) = lt c b && lt b a
  falling _ = false

  unfoldable pub is_force_order_decreasing : Histories W → Bool
  is_force_order_decreasing h =
      if ltb (length h.force_order_rate_history) 3
      then false
      else falling (last_n 3 h.force_order_rate_history)
