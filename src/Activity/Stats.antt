-- ===== src/Activity/Stats.antt =====
-- The statistics of alerts that store/alertStore.ts computes when the backend is offline. `day_of` is
-- `new Date(ms).toISOString().slice(0, 10)`, and `on_day` is the test by `startsWith`.
use aiautomation.Common.{
  ℕ, zero, suc, ◌+◌, ◌-◌, ◌*◌, String, Bool, Option, none, some, List, [], ◌∷◌, map, filter, ltb,
  leb, take, length, if◌then◌else◌, or_else, Dict, lookup, insert,
}
use aiautomation.Activity.{AlertHistory, SymbolCount, DayCount, AlertStats, AlertState}

abbrev pub day_ms : ℕ
day_ms = 86400000

-- the loop that fills `symbolCounts`
unfoldable pub symbol_counts : {N : Type 0} → Dict ℕ → List (AlertHistory N) → Dict ℕ
symbol_counts m [] = m
symbol_counts m (h ∷ hs) = symbol_counts (insert h.symbol (or_else (lookup h.symbol m) 0 + 1) m) hs

-- `Object.entries(symbolCounts).sort((a, b) => b[1] - a[1])`, which keeps the order of equal counts.
unfoldable pub insert_count : String × ℕ → List (String × ℕ) → List (String × ℕ)
insert_count c [] = c ∷ []
insert_count c (d ∷ ds) =
    let rest = insert_count c ds in if leb d.1 c.1 then c ∷ d ∷ ds else d ∷ rest

unfoldable pub sort_counts : List (String × ℕ) → List (String × ℕ)
unfolding insert_count
sort_counts [] = []
sort_counts (c ∷ cs) = insert_count c (sort_counts cs)

abbrev pub count_of : String × ℕ → SymbolCount
count_of c = record { symbol = c.0; count = c.1 }

module _ {N : Type 0} (time_of : String → ℕ) (now : ℕ) where
  -- `now - new Date(h.fired_at).getTime() < ms`
  abbrev pub is_within : ℕ → AlertHistory N → Bool
  is_within ms h = ltb (now - time_of h.fired_at) ms

  unfoldable pub total_within : ℕ → List (AlertHistory N) → ℕ
  total_within ms history = length (filter (is_within ms) history)

module _ {N : Type 0} (day_of : ℕ → String) (on_day : String → String → Bool) (now : ℕ) where
  abbrev pub day_count : List (AlertHistory N) → ℕ → DayCount
  day_count history i = record {
    date = day_of (now - i * day_ms);
    count = length (filter (λ h. on_day h.fired_at (day_of (now - i * day_ms))) history);
  }

  -- the loop from `i` days ago to today
  unfoldable pub daily_counts : List (AlertHistory N) → ℕ → List DayCount
  daily_counts history zero = day_count history 0 ∷ []
  daily_counts history (suc i) = day_count history (suc i) ∷ daily_counts history i

module _ {N : Type 0} (time_of : String → ℕ) (day_of : ℕ → String)
    (on_day : String → String → Bool) where
  unfoldable pub fallback_stats : ℕ → List (AlertHistory N) → AlertStats
  unfolding total_within symbol_counts sort_counts daily_counts
  fallback_stats now history = record {
    total_today = total_within time_of now day_ms history;
    total_week = total_within time_of now (7 * day_ms) history;
    total_month = total_within time_of now (30 * day_ms) history;
    top_symbols = map count_of (take 5 (sort_counts (symbol_counts [] history)));
    daily_counts = daily_counts day_of on_day now history 13;
  }

  unfoldable pub fetch_alert_stats : ℕ → Option AlertStats → AlertState N → AlertState N
  unfolding fallback_stats
  fetch_alert_stats now (some stats) s = record s { alert_stats = some stats }
  fetch_alert_stats now none s = record s { alert_stats = some (fallback_stats now s.history) }
