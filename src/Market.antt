-- ===== src/Market.antt =====
-- store/marketStore.ts and the types of types/index.ts that it holds: quotes, bars and watchlists.
-- A price, a volume or a percentage is a value of the type `N`; a time is in whole seconds.
pub mod Quotes
pub mod HeikinAshi
pub mod Bars
pub mod Storage
pub mod Watchlists
pub mod Reload
pub mod Membership
mod Tests
use aiautomation.Common.{ℕ, String, Bool, Option, List}

pub data Source : Type 0 where
  ibkr yahoo : Source

pub data MarketPhase : Type 0 where
  market_open extended closed unknown : MarketPhase

pub record MarketQuote (N : Type 0) : Type 0 where
  pub symbol : String
  pub price : N
  pub change : N
  pub change_pct : N
  pub year_high : Option N
  pub year_low : Option N
  pub market_cap : Option N
  pub avg_volume : Option N
  pub volume : Option N
  pub bid : Option N
  pub ask : Option N
  pub last_update : String
  pub live_source : Option Source
  pub market_state : Option MarketPhase
  pub stale_s : Option N

-- `OHLCVBar`
pub record Bar (N : Type 0) : Type 0 where
  pub time : ℕ
  pub open_ : N
  pub high : N
  pub low : N
  pub close : N
  pub volume : N

pub record Watchlist : Type 0 where
  pub id : String
  pub name : String
  pub symbols : List String

pub data SortField : Type 0 where
  by_symbol by_price by_change_pct by_volume by_market_cap : SortField

pub data SortDir : Type 0 where
  asc desc : SortDir

pub data IndicatorId : Type 0 where
  sma20 sma50 ema12 ema26 bb vwap rsi macd : IndicatorId

pub data ChartType : Type 0 where
  candlestick ohlc line area baseline heikin_ashi : ChartType

-- What the store computes of a number: `Math.max`, `Math.min` and zero.
pub record Num (N : Type 0) : Type 0 where
  pub zero_ : N
  pub max_ : N → N → N
  pub min_ : N → N → N

-- `MarketState` without its actions.
pub record MarketState (N : Type 0) : Type 0 where
  pub quotes : List (String × MarketQuote N)
  pub bars : List (String × List (Bar N))
  pub comp_bars : List (String × List (Bar N))
  pub selected_symbol : String
  pub comp_symbol : String
  pub comp_mode : Bool
  pub watchlists : List Watchlist
  pub active_watchlist : String
  pub sort_field : SortField
  pub sort_dir : SortDir
  pub loading : Bool
  pub last_updated : Option ℕ
  pub selected_indicators : List IndicatorId
  pub chart_type : ChartType
