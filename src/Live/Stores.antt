-- ===== src/Live/Stores.antt =====
-- store/accountStore.ts and store/simStore.ts.
use aiautomation.Common.{ℕ, String, Bool, false, Option, none, List, [], ◌∷◌, ◌++◌, take, take_last}
use aiautomation.Activity.{ActivityEvent, push_activity}
use aiautomation.Live.{Value}

-- `AccountState` without its actions.
pub record AccountState (N : Type 0) : Type 0 where
  pub account : Option (Value N)
  pub positions : List (Value N)
  pub orders : List (Value N)
  pub trades : List (Value N)
  pub activity_feed : List (ActivityEvent N)
  pub loading : Bool

module _ {N : Type 0} where
  abbrev pub no_account : AccountState N
  no_account = record {
    account = none;
    positions = [];
    orders = [];
    trades = [];
    activity_feed = [];
    loading = false;
  }

  abbrev pub set_account : Option (Value N) → AccountState N → AccountState N
  set_account a s = record s { account = a }

  abbrev pub set_positions : List (Value N) → AccountState N → AccountState N
  set_positions p s = record s { positions = p }

  abbrev pub set_orders : List (Value N) → AccountState N → AccountState N
  set_orders o s = record s { orders = o }

  unfoldable pub add_trade : Value N → AccountState N → AccountState N
  add_trade t s = record s { trades = take 500 (t ∷ s.trades) }

  abbrev pub set_trades : List (Value N) → AccountState N → AccountState N
  set_trades t s = record s { trades = t }

  abbrev pub set_account_loading : Bool → AccountState N → AccountState N
  set_account_loading v s = record s { loading = v }

  -- `pushActivity`
  abbrev pub push : (String → ℕ) → ActivityEvent N → AccountState N → AccountState N
  push time_of e s = record s { activity_feed = push_activity time_of e s.activity_feed }

-- `PlaybackState`, whose fields an event fills without a check.
pub record PlaybackState (N : Type 0) : Type 0 where
  pub active : Bool
  pub symbol : Value N
  pub speed : ℕ
  pub current_index : Value N
  pub total_bars : Value N
  pub progress : Value N
  pub start_ts : Value N
  pub current_ts : Value N
  pub end_ts : Value N

-- A bar of a replay, as it comes.
pub record ReplayBar (N : Type 0) : Type 0 where
  pub time : Value N
  pub open_ : Value N
  pub high : Value N
  pub low : Value N
  pub close : Value N
  pub volume : Value N

-- `SimState` without its actions.
pub record SimState (N : Type 0) : Type 0 where
  pub sim_account : Option (Value N)
  pub sim_positions : List (Value N)
  pub sim_orders : List (Value N)
  pub playback : PlaybackState N
  pub replay_bars : List (ReplayBar N)

module _ {N : Type 0} where
  abbrev pub set_sim_account : Option (Value N) → SimState N → SimState N
  set_sim_account a s = record s { sim_account = a }

  abbrev pub set_sim_positions : List (Value N) → SimState N → SimState N
  set_sim_positions p s = record s { sim_positions = p }

  abbrev pub set_sim_orders : List (Value N) → SimState N → SimState N
  set_sim_orders o s = record s { sim_orders = o }

  abbrev pub set_playback : PlaybackState N → SimState N → SimState N
  set_playback p s = record s { playback = p }

  unfoldable pub push_replay_bar : ReplayBar N → SimState N → SimState N
  push_replay_bar bar s = record s { replay_bars = take_last 1000 (s.replay_bars ++ bar ∷ []) }

  abbrev pub reset_replay_bars : SimState N → SimState N
  reset_replay_bars s = record s { replay_bars = [] }
