-- ===== src/Analytics.antt =====
-- store/analyticsStore.ts: the matching of trades, the exposure by sector and the summary of profit
-- and loss, over the types of types/index.ts. A number is a value of the type `N`; a timestamp is
-- read by `time_of`, in milliseconds, and is a date.
pub mod Trades
pub mod Matching
pub mod Loop
pub mod Sectors
pub mod Summary
mod Tests
use aiautomation.Common.{ℕ, String, Bool, Option, List}

pub data TradeAction : Type 0 where
  buy sell : TradeAction

pub record TradeHistoryRow (N : Type 0) : Type 0 where
  pub id : String
  pub symbol : String
  pub action : TradeAction
  pub quantity : N
  pub fill_price : N
  pub pnl : Option N
  pub timestamp : String
  pub holding_days : Option N

pub record MatchedTrade (N : Type 0) : Type 0 where
  pub id : String
  pub symbol : String
  pub entry_date : String
  pub exit_date : String
  pub entry_price : N
  pub exit_price : N
  pub qty : N
  pub pnl : N
  pub pnl_pct : N
  pub hold_days : ℕ

-- An element of `ExposureBreakdown.positions`.
pub record ExposedPosition (N : Type 0) : Type 0 where
  pub symbol : String
  pub sector : String
  pub value : N
  pub weight_pct : N
  pub pnl : N
  pub pnl_pct : N

pub record SectorExposureRow (N : Type 0) : Type 0 where
  pub sector : String
  pub weight_pct : N
  pub value : N
  pub position_count : ℕ
  pub pnl : N

-- What the store computes of numbers.
pub record Calc (N : Type 0) : Type 0 where
  pub zero_ : N
  pub hundred : N
  pub add : N → N → N
  pub sub : N → N → N
  pub mul : N → N → N
  pub div : N → N → N
  pub is_greater : N → N → Bool
