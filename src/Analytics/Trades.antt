-- ===== src/Analytics/Trades.antt =====
-- `fetchTradeHistory` of store/analyticsStore.ts, behind its request.
use Prim.Native.String
use aiautomation.Common.{
  ℕ, ◌+◌, ◌-◌, ◌/◌, String, Bool, true, false, List, [], ◌∷◌, ◌++◌, leb, or_else, if◌then◌else◌,
  Dict, lookup, insert,
}
use aiautomation.Analytics.{buy, sell, TradeHistoryRow, MatchedTrade, Calc}

module _ {N : Type 0} where
  -- the loop that fills `bySymbol`
  unfoldable pub by_symbol :
      Dict (List (TradeHistoryRow N)) → List (TradeHistoryRow N) → Dict (List (TradeHistoryRow N))
  by_symbol m [] = m
  by_symbol m (t ∷ ts) = by_symbol (insert t.symbol (or_else (lookup t.symbol m) [] ++ t ∷ []) m) ts

  abbrev pub is_pair : TradeHistoryRow N → TradeHistoryRow N → Bool
  is_pair entry exit = elim entry.action [
    | buy ↦ elim exit.action [ sell ↦ true | buy ↦ false ]
    | sell ↦ false
  ]

module _ {N : Type 0} (time_of : String → ℕ) where
  -- `[...rows].sort(…)` by time, which keeps the order of rows of one time.
  unfoldable pub insert_row :
      TradeHistoryRow N → List (TradeHistoryRow N) → List (TradeHistoryRow N)
  insert_row r [] = r ∷ []
  insert_row r (q ∷ qs) =
      let rest = insert_row r qs in
      if leb (time_of r.timestamp) (time_of q.timestamp) then r ∷ q ∷ qs else q ∷ rest

  unfoldable pub sort_rows : List (TradeHistoryRow N) → List (TradeHistoryRow N)
  unfolding insert_row
  sort_rows [] = []
  sort_rows (r ∷ rs) = insert_row r (sort_rows rs)

  -- `Math.max(0, Math.round((exitMs - entryMs) / 86_400_000))`
  abbrev pub hold_days_of : TradeHistoryRow N → TradeHistoryRow N → ℕ
  hold_days_of entry exit = (time_of exit.timestamp - time_of entry.timestamp + 43200000) / 86400000

module _ {N : Type 0} (calc : Calc N) (time_of : String → ℕ) where
  -- What the loop pushes for a pair.
  unfoldable pub matched_trade : TradeHistoryRow N → TradeHistoryRow N → MatchedTrade N
  matched_trade entry exit = record {
    id = String.◌++◌ entry.id (String.◌++◌ "_" exit.id);
    symbol = entry.symbol;
    entry_date = entry.timestamp;
    exit_date = exit.timestamp;
    entry_price = entry.fill_price;
    exit_price = exit.fill_price;
    qty = entry.quantity;
    pnl = or_else exit.pnl (calc.mul (calc.sub exit.fill_price entry.fill_price) entry.quantity);
    pnl_pct =
        if calc.is_greater entry.fill_price calc.zero_
        then calc.mul (calc.div (calc.sub exit.fill_price entry.fill_price) entry.fill_price)
            calc.hundred
        else calc.zero_;
    hold_days = hold_days_of time_of entry exit;
  }

  -- the `while` loop over the sorted rows of one symbol
  unfoldable pub match_rows : List (TradeHistoryRow N) → List (MatchedTrade N)
  unfolding matched_trade
  match_rows [] = []
  match_rows (entry ∷ []) = []
  match_rows (entry ∷ exit ∷ rest) = elim (is_pair entry exit) [
    | true ↦ matched_trade entry exit ∷ match_rows rest
    | false ↦ match_rows (exit ∷ rest)
  ]

  -- the loop over the symbols
  unfoldable pub match_symbols : Dict (List (TradeHistoryRow N)) → List (MatchedTrade N)
  unfolding match_rows sort_rows
  match_symbols [] = []
  match_symbols ((symbol, rows) ∷ m) = match_rows (sort_rows time_of rows) ++ match_symbols m

  unfoldable pub match_trades : List (TradeHistoryRow N) → List (MatchedTrade N)
  unfolding match_symbols by_symbol
  match_trades rows = match_symbols (by_symbol [] rows)
