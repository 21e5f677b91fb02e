-- ===== src/Indicators.antt =====
-- utils/indicators.ts: the lines that a chart draws over its bars. A number is a value of the type
-- `N`, with the operations of `Reals`; a period is a count.
pub mod Averages
pub mod Oscillators
pub mod Sums
pub mod Windows
pub mod Times
pub mod Prefixes
pub mod Bounds
mod Tests
use aiautomation.Common.{ℕ, String, Bool, List, [], ◌∷◌}
use aiautomation.Market.{IndicatorId, sma20, sma50, ema12, ema26, bb, vwap, rsi, macd}

pub data IndicatorKind : Type 0 where
  overlay oscillator : IndicatorKind

pub record IndicatorDef : Type 0 where
  pub id : IndicatorId
  pub label : String
  pub type : IndicatorKind
  pub color : String

abbrev pub indicator_defs : List IndicatorDef
indicator_defs =
    record { id = sma20; label = "SMA 20"; type = overlay; color = "#60a5fa" }
    ∷ record { id = sma50; label = "SMA 50"; type = overlay; color = "#c084fc" }
    ∷ record { id = ema12; label = "EMA 12"; type = overlay; color = "#34d399" }
    ∷ record { id = ema26; label = "EMA 26"; type = overlay; color = "#fbbf24" }
    ∷ record { id = bb; label = "BB (20)"; type = overlay; color = "#94a3b8" }
    ∷ record { id = vwap; label = "VWAP"; type = overlay; color = "#fb923c" }
    ∷ record { id = rsi; label = "RSI 14"; type = oscillator; color = "#f472b6" }
    ∷ record { id = macd; label = "MACD"; type = oscillator; color = "#38bdf8" }
    ∷ []

pub record LinePoint (N : Type 0) : Type 0 where
  pub time : ℕ
  pub value : N

pub record BandsResult (N : Type 0) : Type 0 where
  pub upper : List (LinePoint N)
  pub middle : List (LinePoint N)
  pub lower : List (LinePoint N)

pub record MacdResult (N : Type 0) : Type 0 where
  pub macd : List (LinePoint N)
  pub signal : List (LinePoint N)
  pub histogram : List (LinePoint N)

-- What the indicators compute of numbers: `to_fixed` is `+x.toFixed(4)`, `to_fixed2` is
-- `+x.toFixed(2)`, `of_count` is a period as a number.
pub record Reals (N : Type 0) : Type 0 where
  pub zero_ : N
  pub of_count : ℕ → N
  pub add : N → N → N
  pub sub : N → N → N
  pub mul : N → N → N
  pub div : N → N → N
  pub neg : N → N
  pub max_ : N → N → N
  pub sqrt : N → N
  pub to_fixed : N → N
  pub to_fixed2 : N → N
  pub is_positive : N → Bool
  pub is_nonneg : N → Bool
  pub is_zero : N → Bool
