-- ===== src/Analytics/Summary.antt =====
-- `fetchPortfolioAnalytics` of store/analyticsStore.ts, behind its request: the summary of profit and
-- loss. `infinity` and `abs` are those of JavaScript, and `of_count` is a length as a number.
use aiautomation.Common.{
  ℕ, String, true, false, ◌≡◌, refl, subst, inl, inr, Option, none, some, List, [], ◌∷◌, All,
  filter, length, or_else, if◌then◌else◌, Bool-cases,
}
use aiautomation.Analytics.{TradeHistoryRow, Calc}

pub record EquityPoint (N : Type 0) : Type 0 where
  pub time : N
  pub value : N

pub record PortfolioAnalytics (N : Type 0) : Type 0 where
  pub total_value : N
  pub day_pnl : N
  pub day_pnl_pct : N
  pub total_pnl : N
  pub total_pnl_pct : N
  pub win_rate : N
  pub sharpe_ratio : N
  pub max_drawdown_pct : N
  pub equity_curve : List (EquityPoint N)
  pub benchmark_curve : List (EquityPoint N)

pub record PnlSummary (N : Type 0) : Type 0 where
  pub realized_pnl : N
  pub realized_pnl_pct : N
  pub unrealized_pnl : N
  pub today_pnl : N
  pub today_pnl_pct : N
  pub win_rate : N
  pub profit_factor : N
  pub best_trade_pnl : N
  pub best_trade_symbol : String
  pub worst_trade_pnl : N
  pub worst_trade_symbol : String
  pub total_trades : ℕ

module _ {N : Type 0} (calc : Calc N) where
  abbrev pub pnl_of : TradeHistoryRow N → N
  pnl_of t = or_else t.pnl calc.zero_

  abbrev pub pnl_sum : N → List (TradeHistoryRow N) → N
  pnl_sum sum [] = sum
  pnl_sum sum (t ∷ ts) = pnl_sum (calc.add sum (pnl_of t)) ts

  -- The `reduce` that finds the best trade, and the one that finds the worst.
  unfoldable pub best_from : TradeHistoryRow N → List (TradeHistoryRow N) → TradeHistoryRow N
  best_from best [] = best
  best_from best (t ∷ ts) =
      best_from (if calc.is_greater (pnl_of t) (pnl_of best) then t else best) ts

  unfoldable pub worst_from : TradeHistoryRow N → List (TradeHistoryRow N) → TradeHistoryRow N
  worst_from worst [] = worst
  worst_from worst (t ∷ ts) =
      worst_from (if calc.is_greater (pnl_of worst) (pnl_of t) then t else worst) ts

  abbrev pub pnl_of_trade : Option (TradeHistoryRow N) → N
  pnl_of_trade none = calc.zero_
  pnl_of_trade (some t) = pnl_of t

  abbrev pub symbol_of_trade : Option (TradeHistoryRow N) → String
  symbol_of_trade none = "—"
  symbol_of_trade (some t) = t.symbol

  unfoldable pub best_trade : List (TradeHistoryRow N) → Option (TradeHistoryRow N)
  unfolding best_from
  best_trade [] = none
  best_trade (t ∷ ts) = some (best_from t (t ∷ ts))

  unfoldable pub worst_trade : List (TradeHistoryRow N) → Option (TradeHistoryRow N)
  unfolding worst_from
  worst_trade [] = none
  worst_trade (t ∷ ts) = some (worst_from t (t ∷ ts))

  abbrev pub profit_factor_of : N → N → N → N
  profit_factor_of infinity profit loss =
      if calc.is_greater loss calc.zero_
      then calc.div profit loss
      else if calc.is_greater profit calc.zero_
      then infinity
      else calc.zero_

  unfoldable pub pnl_summary :
      N → (N → N) → PortfolioAnalytics N → List (TradeHistoryRow N) → PnlSummary N
  unfolding best_trade worst_trade
  pnl_summary infinity abs report history =
      let wins = filter (λ t. calc.is_greater (pnl_of t) calc.zero_) history in
      let losses = filter (λ t. calc.is_greater calc.zero_ (pnl_of t)) history in
      record {
        realized_pnl = report.total_pnl;
        realized_pnl_pct = report.total_pnl_pct;
        unrealized_pnl = calc.zero_;
        today_pnl = report.day_pnl;
        today_pnl_pct = report.day_pnl_pct;
        win_rate = report.win_rate;
        profit_factor =
            profit_factor_of infinity (pnl_sum calc.zero_ wins) (abs (pnl_sum calc.zero_ losses));
        best_trade_pnl = pnl_of_trade (best_trade history);
        best_trade_symbol = symbol_of_trade (best_trade history);
        worst_trade_pnl = pnl_of_trade (worst_trade history);
        worst_trade_symbol = symbol_of_trade (worst_trade history);
        total_trades = length history;
      }

module _ {N : Type 0} (calc : Calc N) (le : N → N → Type 0) (le_refl : (a : N) → le a a)
    (le_trans : (a b c : N) → le a b → le b c → le a c)
    (greater : (a b : N) → calc.is_greater a b ≡ true → le b a)
    (not_greater : (a b : N) → calc.is_greater a b ≡ false → le a b) where
  abbrev Bounds : TradeHistoryRow N → TradeHistoryRow N → List (TradeHistoryRow N) → Type 0
  Bounds r best ts =
      le (pnl_of calc best) (pnl_of calc r) × All (λ t. le (pnl_of calc t) (pnl_of calc r)) ts

  best_from-bound :
      (best : TradeHistoryRow N) (ts : List (TradeHistoryRow N))
      → Bounds (best_from calc best ts) best ts
  unfolding best_from
  best_from-bound best [] = (le_refl _, tt)
  best_from-bound best (t ∷ ts) =
      elim (Bool-cases (calc.is_greater (pnl_of calc t) (pnl_of calc best))) [
        | inl e ↦
            let (first, all) = best_from-bound t ts in
            let step : best_from calc t ts ≡ best_from calc best (t ∷ ts) = rw e refl in
            subst (λ r. Bounds r best (t ∷ ts)) step
              (le_trans _ _ _ (greater _ _ e) first, (first, all))
        | inr e ↦
            let (first, all) = best_from-bound best ts in
            let step : best_from calc best ts ≡ best_from calc best (t ∷ ts) = rw e refl in
            subst (λ r. Bounds r best (t ∷ ts)) step
              (first, (le_trans _ _ _ (not_greater _ _ e) first, all))
      ]

  -- No trade of the history earned more than the best trade of the summary, if the comparison of
  -- numbers is that of a total order.
  pub pnl_summary-best :
      (infinity : N) (abs : N → N) (report : PortfolioAnalytics N)
      (history : List (TradeHistoryRow N))
      → All
          (λ t. le (pnl_of calc t) (pnl_summary calc infinity abs report history).best_trade_pnl)
          history
  unfolding pnl_summary best_trade
  pnl_summary-best infinity abs report [] = tt
  pnl_summary-best infinity abs report (t ∷ ts) = (best_from-bound t (t ∷ ts)).1
