-- ===== src/Activity/Tests.antt =====
-- Runs of the lists of recent events over the native numbers; times are texts of one digit, in
-- seconds.
use mathlib.Core.List.{Memᴰ}
use aiautomation.Common.{
  ◌*◌, All, filter, ℕ, String, ◌==◌, ◌≡◌, none, [], ◌∷◌, length, arith, if◌then◌else◌,
}
use aiautomation.Activity.{
  ActivityEvent, signal, buy, pending, AlertHistory, push_activity, push_all,
}
use aiautomation.Activity.Feeds.{IsRecord, IsFeed, push_activity-push_all}
use aiautomation.Activity.Stats.{day_ms, fallback_stats}
use aiautomation.Activity.Summary.{fired_since, AreTop, fallback_stats-AreTop}

abbrev clock : String → ℕ
clock s = if s == "1" then 1000 else if s == "3" then 3000 else 9000

abbrev event : String → ActivityEvent ℕ
event t = record {
  id = t;
  timestamp = t;
  type = signal;
  symbol = "AAPL";
  action = buy;
  qty = 1;
  price = none;
  rule_name = "dip";
  sl_price = none;
  tp_price = none;
  pct_of_account = none;
  status = pending;
}

push_activity-push_all_example :
    let after = push_activity clock (event "9") (push_all clock (event "1" ∷ event "3" ∷ []) []) in
    ((a : ActivityEvent ℕ) × Memᴰ a after × IsRecord clock (event "9") a) × IsFeed clock after
push_activity-push_all_example =
    push_activity-push_all clock (event "1" ∷ event "3" ∷ []) [] (event "9") (tt, omega arith)

abbrev fired : AlertHistory ℕ
fired = record {
  id = "h";
  alert_id = "a";
  alert_name = "high";
  symbol = "AAPL";
  condition_summary = "price > 100";
  price_at_trigger = 101;
  fired_at = "3";
}

abbrev some_day : ℕ → String
some_day ms = "1970-01-01"

fallback_stats-AreTop_example :
    let stats = fallback_stats clock some_day (λ s d. s == d) 90000000 (fired ∷ fired ∷ []) in
    (stats.total_today ≡ fired_since clock 90000000 day_ms (fired ∷ fired ∷ []))
    × (stats.total_week ≡ fired_since clock 90000000 (7 * day_ms) (fired ∷ fired ∷ []))
    × (stats.total_month ≡ fired_since clock 90000000 (30 * day_ms) (fired ∷ fired ∷ []))
    × All
        (λ d. d.count ≡ length (filter (λ h. h.fired_at == d.date) (fired ∷ fired ∷ [])))
        stats.daily_counts
    × AreTop (fired ∷ fired ∷ []) stats.top_symbols "MSFT"
fallback_stats-AreTop_example =
    fallback_stats-AreTop clock some_day (λ s d. s == d) 90000000 (fired ∷ fired ∷ []) "MSFT"
