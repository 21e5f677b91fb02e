-- ===== src/Analytics/Tests.antt =====
-- Runs of the analytics code over the native numbers, with times of one digit.
use aiautomation.Analytics.Summary.{PortfolioAnalytics}
use aiautomation.Common.{
  some, true, false, arith, ℕ, ◌+◌, ◌-◌, ◌*◌, ◌/◌, ◌≤◌, String, ◌==◌, ◌≡◌, none, List, [], ◌∷◌, ltb,
  if◌then◌else◌,
}
use aiautomation.Analytics.{TradeHistoryRow, buy, sell, ExposedPosition, Calc}
use aiautomation.Analytics.Trades.{match_rows}
use aiautomation.Analytics.Loop.{finished, match_loop, match_loop-finished}

abbrev native : Calc ℕ
native = record {
  zero_ = 0;
  hundred = 100;
  add = λ a b. a + b;
  sub = λ a b. a - b;
  mul = λ a b. a * b;
  div = λ a b. a / b;
  is_greater = λ a b. ltb b a;
}

abbrev clock : String → ℕ
clock s = if s == "1" then 1 else if s == "2" then 2 else 3

abbrev bought : TradeHistoryRow ℕ
bought = record {
  id = "a";
  symbol = "AAPL";
  action = buy;
  quantity = 2;
  fill_price = 100;
  pnl = none;
  timestamp = "1";
  holding_days = none;
}

abbrev sold : TradeHistoryRow ℕ
sold = record bought { id = "b"; action = sell; fill_price = 120; timestamp = "2" }

abbrev rows : List (TradeHistoryRow ℕ)
rows = sold ∷ record bought { id = "c"; symbol = "SPY" } ∷ bought ∷ []

abbrev held : ExposedPosition ℕ
held = record {
  symbol = "AAPL";
  sector = "Tech";
  value = 200;
  weight_pct = 60;
  pnl = 4;
  pnl_pct = 2;
}

abbrev positions : List (ExposedPosition ℕ)
positions = held ∷ record held { symbol = "X"; sector = "" } ∷ record held { symbol = "MSFT" } ∷ []

abbrev report : PortfolioAnalytics ℕ
report = record {
  total_value = 1000;
  day_pnl = 1;
  day_pnl_pct = 1;
  total_pnl = 40;
  total_pnl_pct = 4;
  win_rate = 50;
  sharpe_ratio = 1;
  max_drawdown_pct = 3;
  equity_curve = [];
  benchmark_curve = [];
}

abbrev earned : List (TradeHistoryRow ℕ)
earned = record sold { pnl = some 7 } ∷ record sold { pnl = some 40 } ∷ bought ∷ []

at_most : (a b : ℕ) → ltb b a ≡ true → b ≤ a
at_most a b h = ground arith

not_above : (a b : ℕ) → ltb b a ≡ false → a ≤ b
not_above a b h = ground arith

match_loop-finished_example :
    match_loop native clock 4 rows 0 [] ≡ finished (match_rows native clock rows)
match_loop-finished_example = match_loop-finished native clock rows
