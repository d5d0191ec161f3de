-- ===== src/Storage/SafeMode.antt =====
-- storage/state_store.py: safe mode, as the stored state and as the log of its events.
use btc_bot.Prelude.{
  ℕ, ◌≡◌, refl, Bool, true, false, Option, none, some, List, foldl, inl, inr, Option-cases,
  if◌then◌else◌,
}
use btc_bot.Prelude.Double.{Double}
use btc_bot.Core.Models.{Time, BotState}
use btc_bot.Storage.Tables.{Tables, SafeModeEvent, SafeModeEventType}
use btc_bot.Storage.Queries.{upsert_daily_metrics}
use btc_bot.Storage.Runtime.{
  Store, save, load, ensure_initialized, sync_daily_metrics, refresh_runtime_state,
}

-- Whether safe mode is on, and since when.
abbrev pub SafeView : Type 0
SafeView = Bool × Option Time

module _ {W : Type 0} where
  abbrev pub view_of : Option (BotState W) → SafeView
  view_of none = (false, none)
  view_of (some s) = (s.safe_mode, s.safe_mode_entry_at)

  abbrev pub view : Tables W → SafeView
  view t = view_of t.bot_state

  -- Neither safe mode nor its log is touched.
  pub record KeepsSafeMode (t t' : Tables W) : Type 0 where
    pub same_view : view t' ≡ view t
    pub same_events : t'.safe_mode_events ≡ t.safe_mode_events

-- What an event does to the view, and the log replayed from the start.
abbrev pub replay_event : SafeView → SafeModeEvent → SafeView
replay_event v e = elim e.event_type [
  | SafeModeEventType.entered ↦ (true, if v.0 then v.1 else some e.timestamp)
  | SafeModeEventType.cleared ↦ (false, none)
]

abbrev pub replay : List SafeModeEvent → SafeView
replay = foldl replay_event (false, none)

module _ {W : Type 0} ⦃d : Double W⦄ (store : Store W) where
  -- What `refresh_runtime_state` returns is stored; the trades and the positions stay.
  pub record IsFresh (t : Tables W) (fresh : BotState W × Tables W) : Type 0 where
    pub stored : fresh.1.bot_state ≡ some fresh.0
    pub same_view : (fresh.0.safe_mode, fresh.0.safe_mode_entry_at) ≡ view t
    pub same_events : fresh.1.safe_mode_events ≡ t.safe_mode_events
    pub same_trades : fresh.1.trade_log ≡ t.trade_log
    pub same_positions : fresh.1.positions ≡ t.positions

  pub refresh_runtime_state-IsFresh :
      (now : Time) (t : Tables W) → IsFresh t (refresh_runtime_state store now t)
  unfolding refresh_runtime_state ensure_initialized sync_daily_metrics upsert_daily_metrics load
      save
  refresh_runtime_state-IsFresh now t = elim (Option-cases t.bot_state) [
    | inl e ↦ rw e (record {
      stored = refl;
      same_view = refl;
      same_events = refl;
      same_trades = refl;
      same_positions = refl;
    })
    | inr (s, e) ↦ rw e (record {
      stored = refl;
      same_view = refl;
      same_events = refl;
      same_trades = refl;
      same_positions = refl;
    })
  ]

  -- The same for `sync_daily_metrics`.
  pub record IsSynced (t t' : Tables W) : Type 0 where
    pub kept : KeepsSafeMode t t'
    pub same_trades : t'.trade_log ≡ t.trade_log
    pub same_positions : t'.positions ≡ t.positions

  pub sync_daily_metrics-IsSynced :
      (day : ℕ) (t : Tables W) → IsSynced t (sync_daily_metrics store day t)
  unfolding ensure_initialized sync_daily_metrics upsert_daily_metrics load save
  sync_daily_metrics-IsSynced day t = elim (Option-cases t.bot_state) [
    | inl e ↦ rw e (record {
      kept = record { same_view = refl; same_events = refl };
      same_trades = refl;
      same_positions = refl;
    })
    | inr (s, e) ↦ rw e (record {
      kept = record { same_view = refl; same_events = refl };
      same_trades = refl;
      same_positions = refl;
    })
  ]

  -- The same for `ensure_initialized`, which returns the state that is stored.
  pub ensure_initialized-IsSynced :
      (t : Tables W)
      → let r = ensure_initialized store t in IsSynced t r.1 × (r.1.bot_state ≡ some r.0)
  unfolding ensure_initialized load save
  ensure_initialized-IsSynced t = elim (Option-cases t.bot_state) [
    | inl e ↦ rw e (
      record {
        kept = record { same_view = refl; same_events = refl };
        same_trades = refl;
        same_positions = refl;
      },
      refl,
    )
    | inr (s, e) ↦ rw e (
      record {
        kept = record { same_view = refl; same_events = refl };
        same_trades = refl;
        same_positions = refl;
      },
      refl,
    )
  ]
