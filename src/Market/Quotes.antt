-- ===== src/Market/Quotes.antt =====
-- store/marketStore.ts: quotes, bars and the simple setters. `now` is `Date.now()`, and `iso` is
-- `new Date(ms).toISOString()`.
use aiautomation.Common.{
  ℕ, ◌*◌, ◌/◌, max, String, Bool, not, Option, none, some, List, [], ◌∷◌, ◌++◌, eqb, ltb, leb, any,
  filter, take_last, drop_last, get_last?, or_else, if◌then◌else◌, lookup, insert,
}
use aiautomation.Market.{
  ChartType, SortField, SortDir, Source, MarketPhase, unknown, MarketQuote, Bar, Num, MarketState,
  IndicatorId, sma20, sma50, ema12, ema26, bb, vwap, rsi, macd,
}

-- `{ ...a, ...b }`
unfoldable pub spread {ℓ} : {V : Type ℓ} → List (String × V) → List (String × V) → List (String × V)
spread a [] = a
spread a ((k, v) ∷ b) = spread (insert k v a) b

abbrev pub max_bars : ℕ
max_bars = 5000

-- The start of the bar that a tick belongs to. A time that is not finite is `none`, and counts as
-- now; one below zero is 0.
abbrev pub tick_time : ℕ → Option ℕ → ℕ
tick_time now none = now / 1000
tick_time now (some t) = max 1 t

abbrev pub bar_time : ℕ → ℕ → ℕ
bar_time ts bar_seconds = ts / max 1 bar_seconds * max 1 bar_seconds

module _ {N : Type 0} where
  -- The loop of `setQuotes`: the last quote of a symbol counts.
  unfoldable pub quote_map :
      List (String × MarketQuote N) → List (MarketQuote N) → List (String × MarketQuote N)
  quote_map m [] = m
  quote_map m (q ∷ qs) = quote_map (insert q.symbol q m) qs

  unfoldable pub set_quotes : ℕ → List (MarketQuote N) → MarketState N → MarketState N
  unfolding quote_map spread
  set_quotes now qs s = record s {
    quotes = spread s.quotes (quote_map [] qs);
    last_updated = some now;
  }

  unfoldable pub update_quote : MarketQuote N → MarketState N → MarketState N
  update_quote q s = record s { quotes = insert q.symbol q s.quotes }

  unfoldable pub update_quote_price : (ℕ → String) → ℕ → String → N → MarketState N → MarketState N
  update_quote_price iso now symbol price s = elim (lookup symbol s.quotes) [
    | none ↦ s
    | some q ↦ record s {
      quotes = insert symbol (record q { price = price; last_update = iso now }) s.quotes;
    }
  ]

  abbrev pub write_series :
      String → Option (List (Bar N)) → List (String × List (Bar N)) → List (String × List (Bar N))
  write_series symbol none m = m
  write_series symbol (some series) m = insert symbol series m

abbrev pub live_phase : Option MarketPhase → Option MarketPhase → Option MarketPhase
live_phase none old = old
live_phase (some p) old = some p

module _ {N : Type 0} (num : Num N) where
  abbrev pub updated_last : N → Bar N → Bar N
  updated_last price last = record last {
    high = num.max_ last.high price;
    low = num.min_ last.low price;
    close = price;
  }

  abbrev pub next_bar : ℕ → N → Bar N → Bar N
  next_bar t price last = record {
    time = t;
    open_ = last.close;
    high = price;
    low = price;
    close = price;
    volume = num.zero_;
  }

  -- `patchSeries` behind its test of the series' last bar.
  unfoldable pub patch_last : ℕ → N → List (Bar N) → Bar N → Option (List (Bar N))
  patch_last t price series last =
      if leb t 0
      then none
      else if eqb last.time t
      then some (drop_last series ++ updated_last price last ∷ [])
      else if ltb last.time t
      then some (take_last max_bars (series ++ next_bar t price last ∷ []))
      else none

  unfoldable pub patch_series : ℕ → N → Option (List (Bar N)) → Option (List (Bar N))
  patch_series t price none = none
  patch_series t price (some series) = elim (get_last? series) [
    | none ↦ none
    | some last ↦ patch_last t price series last
  ]

  -- The quote that a tick makes of the one before it.
  unfoldable pub live_quote :
      String → N → String → Source → N → Option MarketPhase → Option (MarketQuote N) → MarketQuote N
  live_quote symbol price stamp source stale phase (some q) = record q {
    symbol = symbol;
    price = price;
    last_update = stamp;
    live_source = some source;
    stale_s = some stale;
    market_state = live_phase phase q.market_state;
  }
  live_quote symbol price stamp source stale phase none = record {
    symbol = symbol;
    price = price;
    change = num.zero_;
    change_pct = num.zero_;
    year_high = none;
    year_low = none;
    market_cap = none;
    avg_volume = none;
    volume = none;
    bid = none;
    ask = none;
    last_update = stamp;
    live_source = some source;
    stale_s = some stale;
    market_state = some (or_else phase unknown);
  }

  unfoldable pub apply_live_quote :
      (ℕ → String)
      → ℕ
      → String
      → N
      → Option ℕ
      → ℕ
      → Source
      → N
      → Option MarketPhase
      → MarketState N
      → MarketState N
  apply_live_quote iso now symbol price time bar_seconds source stale phase s =
      let ts = tick_time now time in
      let t = bar_time ts bar_seconds in
      record s {
        quotes =
            insert symbol
              (live_quote symbol price (iso (ts * 1000)) source stale phase
                (lookup symbol s.quotes))
              s.quotes;
        bars = write_series symbol (patch_series t price (lookup symbol s.bars)) s.bars;
        comp_bars =
            write_series symbol (patch_series t price (lookup symbol s.comp_bars)) s.comp_bars;
        last_updated = some now;
      }

abbrev pub indicator_index : IndicatorId → ℕ
indicator_index sma20 = 0
indicator_index sma50 = 1
indicator_index ema12 = 2
indicator_index ema26 = 3
indicator_index bb = 4
indicator_index vwap = 5
indicator_index rsi = 6
indicator_index macd = 7

-- `===` on the identifiers.
abbrev pub same_indicator : IndicatorId → IndicatorId → Bool
same_indicator a b = eqb (indicator_index a) (indicator_index b)

module _ {N : Type 0} where
  unfoldable pub set_bars : String → List (Bar N) → MarketState N → MarketState N
  set_bars symbol bars s = record s { bars = insert symbol bars s.bars }

  unfoldable pub set_comp_bars : String → List (Bar N) → MarketState N → MarketState N
  set_comp_bars symbol bars s = record s { comp_bars = insert symbol bars s.comp_bars }

  unfoldable pub toggle_indicator : IndicatorId → MarketState N → MarketState N
  toggle_indicator id s = record s {
    selected_indicators =
        if any (λ x. same_indicator x id) s.selected_indicators
        then filter (λ x. not (same_indicator x id)) s.selected_indicators
        else s.selected_indicators ++ id ∷ [];
  }

  -- The actions that set one field.
  unfoldable pub set_selected_symbol : String → MarketState N → MarketState N
  set_selected_symbol symbol s = record s { selected_symbol = symbol }

  unfoldable pub set_comp_symbol : String → MarketState N → MarketState N
  set_comp_symbol symbol s = record s { comp_symbol = symbol }

  unfoldable pub toggle_comp_mode : MarketState N → MarketState N
  toggle_comp_mode s = record s { comp_mode = not s.comp_mode }

  unfoldable pub set_chart_type : ChartType → MarketState N → MarketState N
  set_chart_type type s = record s { chart_type = type }

  unfoldable pub set_sort : SortField → SortDir → MarketState N → MarketState N
  set_sort field dir s = record s { sort_field = field; sort_dir = dir }

  unfoldable pub set_loading : Bool → MarketState N → MarketState N
  set_loading v s = record s { loading = v }
