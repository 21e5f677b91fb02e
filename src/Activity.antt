-- ===== src/Activity.antt =====
-- The lists of recent events that the dashboard keeps: store/accountStore.ts and the alerts of
-- store/alertStore.ts, with the types of types/index.ts. A number is a value of the type `N`; a
-- timestamp is read by `time_of`, in milliseconds, and is a date.
pub mod Feeds
pub mod Stats
pub mod Counts
pub mod Summary
mod Tests
use aiautomation.Common.{
  ℕ, ◌+◌, ◌-◌, String, ◌==◌, Bool, true, false, not, ◌&&◌, Option, none, some, List, [], ◌∷◌, ◌++◌,
  map, filter, any, ltb, leb, take, length, if◌then◌else◌, or_else, Dict, lookup, insert,
}

pub data ActivityType : Type 0 where
  fill signal cancelled : ActivityType

pub data Side : Type 0 where
  buy sell : Side

pub data ActivityStatus : Type 0 where
  filled pending cancelled_order : ActivityStatus

pub record ActivityEvent (N : Type 0) : Type 0 where
  pub id : String
  pub timestamp : String
  pub type : ActivityType
  pub symbol : String
  pub action : Side
  pub qty : N
  pub price : Option N
  pub rule_name : String
  pub sl_price : Option N
  pub tp_price : Option N
  pub pct_of_account : Option N
  pub status : ActivityStatus

pub record AlertFiredEvent (N : Type 0) : Type 0 where
  pub alert_id : String
  pub name : String
  pub symbol : String
  pub condition_summary : String
  pub price : N
  pub timestamp : String

pub record AlertHistory (N : Type 0) : Type 0 where
  pub id : String
  pub alert_id : String
  pub alert_name : String
  pub symbol : String
  pub condition_summary : String
  pub price_at_trigger : N
  pub fired_at : String

pub record SymbolCount : Type 0 where
  pub symbol : String
  pub count : ℕ

pub record DayCount : Type 0 where
  pub date : String
  pub count : ℕ

pub record AlertStats : Type 0 where
  pub total_today : ℕ
  pub total_week : ℕ
  pub total_month : ℕ
  pub top_symbols : List SymbolCount
  pub daily_counts : List DayCount

-- The part of `AlertState` that events and the history are kept in.
pub record AlertState (N : Type 0) : Type 0 where
  pub history : List (AlertHistory N)
  pub unread_count : ℕ
  pub recent_fired : List (AlertFiredEvent N)
  pub loading : Bool
  pub alert_stats : Option AlertStats

module _ {N : Type 0} where
  unfoldable pub push_fired : AlertFiredEvent N → AlertState N → AlertState N
  push_fired e s = record s {
    recent_fired = take 20 (e ∷ s.recent_fired);
    unread_count = s.unread_count + 1;
  }

  unfoldable pub mark_read : AlertState N → AlertState N
  mark_read s = record s { unread_count = 0 }

  unfoldable pub load_history : Option (List (AlertHistory N)) → AlertState N → AlertState N
  load_history none s = s
  load_history (some h) s = record s { history = h }

-- `Math.abs(a - b)`
abbrev pub distance : ℕ → ℕ → ℕ
distance a b = a - b + (b - a)

module _ {N : Type 0} (time_of : String → ℕ) where
  -- The test of `pushActivity`.
  abbrev pub is_repeat : ActivityEvent N → ActivityEvent N → Bool
  is_repeat e a =
      a.symbol == e.symbol
      && a.rule_name == e.rule_name
      && ltb (distance (time_of a.timestamp) (time_of e.timestamp)) 5000

  -- `pushActivity`, on the feed
  unfoldable pub push_activity : ActivityEvent N → List (ActivityEvent N) → List (ActivityEvent N)
  push_activity e feed = if any (is_repeat e) feed then feed else take 20 (e ∷ feed)

  unfoldable pub push_all : List (ActivityEvent N) → List (ActivityEvent N) → List (ActivityEvent N)
  push_all [] feed = feed
  push_all (e ∷ es) feed = push_all es (push_activity e feed)
