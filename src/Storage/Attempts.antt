-- ===== src/Storage/Attempts.antt =====
-- storage/state_store.py: the safe mode events that the calls of the store try to write, as a ghost
-- of the run. It is not in the database.
use mathlib.Core.List.{foldl-append, append-nil, map-append}
use btc_bot.Prelude.{
  ◌≡◌, refl, ap, Bool, true, false, none, List, [], ◌∷◌, ◌++◌, map, keep, keep-append, All,
  if◌then◌else◌,
}
use btc_bot.Prelude.Double.{Double}
use btc_bot.Storage.Tables.{Tables, SafeModeEvent}
use btc_bot.Storage.Runtime.{Store, refresh_runtime_state}
use btc_bot.Storage.State.{attempt}
use btc_bot.Storage.SafeMode.{replay_event, replay}
use btc_bot.Storage.Reach.{Reachable}

-- All the events, and those that the database took.
abbrev pub asked : List (SafeModeEvent × Bool) → List SafeModeEvent
asked = map (λ a. a.0)

abbrev pub taken : List (SafeModeEvent × Bool) → List SafeModeEvent
taken es = asked (keep (λ a. a.1) es)

pub asked_snoc :
    (es : List (SafeModeEvent × Bool)) (a : SafeModeEvent × Bool)
    → replay (asked (es ++ (a ∷ []))) ≡ replay_event (replay (asked es)) a.0
asked_snoc es a =
    rw (map-append (λ b. b.0) es (a ∷ []))
      (foldl-append replay_event (false, none) (asked es) (a.0 ∷ []))

pub taken_snoc :
    (es : List (SafeModeEvent × Bool)) (e : SafeModeEvent) (took : Bool)
    → taken (es ++ ((e, took) ∷ [])) ≡ (if took then taken es ++ (e ∷ []) else taken es)
taken_snoc es e true =
    rw (keep-append (λ b. b.1) es ((e, true) ∷ []))
      (map-append (λ b. b.0) (keep (λ b. b.1) es) ((e, true) ∷ []))
taken_snoc es e false = rw (keep-append (λ b. b.1) es ((e, false) ∷ [])) (ap asked (append-nil _))

pub all_taken : (es : List (SafeModeEvent × Bool)) → All (λ a. a.1 ≡ true) es → taken es ≡ asked es
all_taken [] h = refl
all_taken (a ∷ es) h = rw (h.0, all_taken es h.1) refl

module _ {W : Type 0} ⦃d : Double W⦄ (store : Store W) where
  -- Each call of `set_safe_mode` adds one event, with the database's answer; no other call does.
  unfoldable pub attempts : {t : Tables W} → Reachable store t → List (SafeModeEvent × Bool)
  attempts Reachable.start = []
  attempts (Reachable.initialized r) = attempts r
  attempts (Reachable.metrics_synced r day) = attempts r
  attempts (Reachable.refreshed r now) = attempts r
  attempts (Reachable.safe_mode_set {t = t} r enabled reason now) =
      attempts r ++ (attempt store enabled reason now (refresh_runtime_state store now t) ∷ [])
  attempts (Reachable.governance_read r now) = attempts r
  attempts (Reachable.risk_read r now) = attempts r
  attempts (Reachable.error_marked r message now) = attempts r
  attempts (Reachable.healthy_marked r now) = attempts r
  attempts (Reachable.position_persisted r p) = attempts r
  attempts (Reachable.trade_opened r labels candidate executable filled) = attempts r
  attempts (Reachable.trade_closed r position_id settlement closed_at) = attempts r
