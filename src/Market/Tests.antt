-- ===== src/Market/Tests.antt =====
-- Runs of the market store over the native numbers.
use aiautomation.Market.HeikinAshi.{
  Means, MeansLaws, IsCandle, to_heikin_ashi, times_and_volumes, to_heikin_ashi-IsCandle,
}
use aiautomation.Common.{
  ◌+◌, ◌/◌, ℕ, ◌≤◌, ◌<◌, ◌⊎◌, max, min, String, ◌≡◌, refl, false, none, some, List, [], ◌∷◌, All,
  arith, includes,
}
use aiautomation.Symbols.{
  normalize_symbol, trim_start, trim_end, to_upper, is_space, cons_trimmed, upper_char, nth_char,
}
use aiautomation.Market.{Bar, Num, MarketState, Watchlist, yahoo, by_change_pct, desc, candlestick}
use aiautomation.Market.Quotes.{apply_live_quote, patch_series}
use aiautomation.Market.Bars.{
  IsSeries, IsPatched, apply_live_quote-IsSeries, patch_series-IsPatched,
}
use aiautomation.Market.Storage.{
  Storage, json, saved, missing, writable, load_persisted, persist_watchlists, candidate,
  not_object,
}
use aiautomation.Market.Reload.{
  IsValid, IsNormal, load_persisted-IsValid, load_persisted-persist_watchlists,
}
use aiautomation.Market.Watchlists.{Browser, write, add_to_watchlist, remove_from_watchlist}
use aiautomation.Market.Membership.{remove_from_watchlist-add_to_watchlist}

abbrev native : Num ℕ
native = record { zero_ = 0; max_ = max; min_ = min }

abbrev bar_at : ℕ → ℕ → Bar ℕ
bar_at t p = record { time = t; open_ = p; high = p; low = p; close = p; volume = 0 }

abbrev series : List (Bar ℕ)
series = bar_at 60 100 ∷ bar_at 120 101 ∷ []

abbrev tech : Watchlist
tech = record { id = "t"; name = "Tech"; symbols = "AAPL" ∷ [] }

abbrev crypto : Watchlist
crypto = record { id = "c"; name = "Crypto"; symbols = [] }

abbrev market : MarketState ℕ
market = record {
  quotes = [];
  bars = ("AAPL", series) ∷ [];
  comp_bars = [];
  selected_symbol = "AAPL";
  comp_symbol = "";
  comp_mode = false;
  watchlists = tech ∷ crypto ∷ [];
  active_watchlist = "t";
  sort_field = by_change_pct;
  sort_dir = desc;
  loading = false;
  last_updated = none;
  selected_indicators = [];
  chart_type = candlestick;
}

abbrev browser : Browser ℕ
browser = record { market = market; storage = writable missing }

series-IsSeries : IsSeries series
series-IsSeries = record { ordered = ((omega arith, tt), (tt, tt)); bounded = omega arith }

abbrev stamp : ℕ → String
stamp t = "now"

apply_live_quote-IsSeries_example :
    let after = apply_live_quote native stamp 9000 "AAPL" 105 (some 190) 60 yahoo 1 none market in
    All (λ e. IsSeries e.1) after.bars × All (λ e. IsSeries e.1) after.comp_bars
apply_live_quote-IsSeries_example =
    apply_live_quote-IsSeries native stamp 9000 "AAPL" 105 (some 190) 60 yahoo 1 none market
      (series-IsSeries, tt) tt

one_positive : 0 < 180
one_positive = omega arith

patch_series-IsPatched_example :
    ((120 ≤ 180) × IsPatched 180 105 (patch_series native 180 105 (some series)))
    ⊎ ((180 < 120) × (patch_series native 180 105 (some series) ≡ none))
patch_series-IsPatched_example = patch_series-IsPatched native 180 105 series refl one_positive

abbrev stored : Storage
stored = writable (
    json (
      saved
        (some (
          not_object
          ∷ candidate (some " t ") (some "Tech") (some (some "aapl" ∷ []))
          ∷ candidate (some "t") (some "Again") (some [])
          ∷ candidate none (some "No id") (some [])
          ∷ []))
        (some "gone")))

load_persisted-IsValid_example : IsValid (load_persisted stored)
load_persisted-IsValid_example = load_persisted-IsValid stored

tech-IsNormal : IsNormal tech
unfolding trim_start trim_end is_space cons_trimmed normalize_symbol to_upper upper_char nth_char
tech-IsNormal = record {
  id_trimmed = refl;
  id_named = refl;
  name_trimmed = refl;
  name_named = refl;
  symbols_normal = (refl, tt);
  symbols_named = (refl, tt);
}

crypto-IsNormal : IsNormal crypto
unfolding trim_start trim_end is_space cons_trimmed
crypto-IsNormal = record {
  id_trimmed = refl;
  id_named = refl;
  name_trimmed = refl;
  name_named = refl;
  symbols_normal = tt;
  symbols_named = tt;
}

load_persisted-persist_watchlists_example :
    load_persisted (persist_watchlists (tech ∷ crypto ∷ []) "c" (writable missing))
    ≡ record { watchlists = tech ∷ crypto ∷ []; active = "c" }
load_persisted-persist_watchlists_example =
    load_persisted-persist_watchlists (tech ∷ crypto ∷ []) "c" missing
      (tech-IsNormal, (crypto-IsNormal, tt)) (refl, (refl, tt)) refl

spelled : normalize_symbol "spy" ≡ normalize_symbol " SPY"
unfolding trim_start trim_end is_space cons_trimmed normalize_symbol to_upper upper_char nth_char
spelled = refl

not_listed : All (λ w. includes (normalize_symbol "spy") w.symbols ≡ false) market.watchlists
unfolding trim_start trim_end is_space cons_trimmed normalize_symbol to_upper upper_char nth_char
not_listed = (refl, (refl, tt))

remove_from_watchlist-add_to_watchlist_example :
    remove_from_watchlist "t" "spy" (add_to_watchlist "t" "spy" browser)
    ≡ write market.watchlists "t" browser
remove_from_watchlist-add_to_watchlist_example =
    remove_from_watchlist-add_to_watchlist "t" "spy" browser not_listed

abbrev means : Means ℕ
means = record {
  mean4 = λ a b c d. (a + b + c + d) / 4;
  mean2 = λ a b. (a + b) / 2;
  max3 = λ a b c. max a (max b c);
  min3 = λ a b c. min a (min b c);
  to_fixed = λ a. a;
}

means_laws : MeansLaws means (λ a b. a ≤ b)
means_laws = record {
  max3_second = λ a b c. omega arith;
  max3_third = λ a b c. omega arith;
  min3_second = λ a b c. omega arith;
  min3_third = λ a b c. omega arith;
  to_fixed_mono = λ h. h;
}

to_heikin_ashi-IsCandle_example :
    All (IsCandle (λ a b. a ≤ b)) (to_heikin_ashi means series)
    × (times_and_volumes (to_heikin_ashi means series) ≡ (60, 0) ∷ (120, 0) ∷ [])
to_heikin_ashi-IsCandle_example = to_heikin_ashi-IsCandle means (λ a b. a ≤ b) means_laws series
