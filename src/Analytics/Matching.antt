-- ===== src/Analytics/Matching.antt =====
-- What the matching of trades of store/analyticsStore.ts pairs.
use aiautomation.Common.{ℕ, ◌+◌, ◌≤◌, String, ◌≡◌, List, [], ◌∷◌, length, All, Dict}
use aiautomation.Analytics.{buy, sell, TradeHistoryRow, MatchedTrade, Calc}
use aiautomation.Analytics.Trades.{matched_trade}

-- The rows under a symbol are of that symbol.
abbrev OwnRows : {N : Type 0} → Dict (List (TradeHistoryRow N)) → Type 0
OwnRows m = All (λ e. All (λ r. r.symbol ≡ e.0) e.1) m

module _ {N : Type 0} where
  abbrev row_count : Dict (List (TradeHistoryRow N)) → ℕ
  row_count [] = 0
  row_count ((k, rows) ∷ m) = length rows + row_count m

module _ {N : Type 0} (time_of : String → ℕ) where
  -- Rows in the order of their times.
  abbrev InOrder : List (TradeHistoryRow N) → Type 0
  InOrder [] = Unit
  InOrder (r ∷ rs) = All (λ q. time_of r.timestamp ≤ time_of q.timestamp) rs × InOrder rs

module _ {N : Type 0} (calc : Calc N) (time_of : String → ℕ) where
  -- A trade of a purchase and a sale of one symbol, the sale not before the purchase.
  abbrev pub IsRoundTrip : MatchedTrade N → Type 0
  IsRoundTrip m =
      (entry : TradeHistoryRow N) × (exit : TradeHistoryRow N) × (m
        ≡ matched_trade calc time_of entry exit)
      × (entry.action ≡ buy)
      × (exit.action ≡ sell)
      × (entry.symbol ≡ exit.symbol)
      × (time_of entry.timestamp ≤ time_of exit.timestamp)
