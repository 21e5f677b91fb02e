-- ===== src/Signals.antt =====
-- utils/opportunitySignals.ts: the signal of a quote, and the signals ranked by score. A number of a
-- quote is a value of the type `N`; scores and confidences are whole.
pub mod Build
pub mod Sound
pub mod Rank
mod Tests
use aiautomation.Common.{ℕ, String, Bool, List}

pub data OpportunitySignalKind : Type 0 where
  buy_opportunity sell_risk neutral : OpportunitySignalKind

pub record OpportunitySignal (N : Type 0) : Type 0 where
  pub symbol : String
  pub kind : OpportunitySignalKind
  pub confidence : ℕ
  pub sentiment_proxy : N
  pub score : ℕ
  pub reasons : List String

-- What the signals compute of numbers: `of_count` and `minus` are the constants `n` and `-n`,
-- `tenths` is `n / 10`, `fixed1` is `x.toFixed(1)` and `show` the text of a number.
pub record Measures (N : Type 0) : Type 0 where
  pub of_count : ℕ → N
  pub minus : ℕ → N
  pub tenths : ℕ → N
  pub add : N → N → N
  pub sub : N → N → N
  pub mul : N → N → N
  pub div : N → N → N
  pub max_ : N → N → N
  pub min_ : N → N → N
  pub round : N → N
  pub fixed1 : N → String
  pub show : N → String
  pub is_finite : N → Bool
  pub at_most : N → N → Bool
  pub is_less : N → N → Bool
