-- ===== src/Screener/Tests.antt =====
-- Runs of the screener over the native numbers.
use aiautomation.Common.{ℕ, refl, none, some, [], ◌∷◌}
use aiautomation.Screener.{ScanResultRow, EnrichResult, ScanResponse}
use aiautomation.Screener.Store.{
  removes, change, remove_filter, begin_scan, take_results, take_enriched, enriched_map,
  initial_screener,
}
use aiautomation.Screener.Requests.{
  scan_waits, enrich_waits, scan_enrich_waits, run_scan, enrich_results, receive_scan,
  receive_enriched, receive_scan_enriched,
}
use aiautomation.Screener.Scans.{
  ScannedPage, changes, scans, enriches, scan_came, scan_failed, enriched_came, scan_enriched_came,
  ScreenerRun, at_first, then_step, opened_screener, IsShown,
}
use aiautomation.Screener.Shown.{ScreenerRun-IsShown}

abbrev row : ScanResultRow ℕ
row = record {
  symbol = "AAPL";
  price = 150;
  change_pct = 1;
  volume = 9;
  indicators = [];
  screener_score = 5;
  setup = "pullback";
  relative_volume = 1;
  momentum_20d = 2;
  trend_strength = 3;
  notes = [];
}

abbrev apple : EnrichResult ℕ
apple = record { symbol = "AAPL"; name = "Apple"; sector = none; market_cap = some 3 }

abbrev response : ScanResponse ℕ
response = record {
  results = row ∷ [];
  skipped_symbols = [];
  elapsed_ms = some 12;
  total_symbols = none;
}

-- Two scans at once: the second answer comes first, and an enrichment by itself ends last.
abbrev overlapping : ScannedPage ℕ
overlapping = record {
  page = record {
    state = receive_enriched none (
        receive_scan_enriched (some (apple ∷ apple ∷ []))
          (enrich_results enrich_waits (
            receive_scan none (scan_enrich_waits ∷ [])
              (receive_scan (some response) (scan_waits ∷ []) (
                change (removes 0)
                  (run_scan (run_scan (opened_screener (λ n. n) "f").page)).state)).state)).state);
    waiting = [];
  };
  latest = row ∷ [];
}

overlap : ScreenerRun (opened_screener (λ n. n) "f") overlapping
unfolding run_scan begin_scan receive_scan receive_enriched receive_scan_enriched enrich_results
    take_results take_enriched enriched_map change remove_filter initial_screener
overlap =
    then_step
      (then_step
        (then_step
          (then_step
            (then_step
              (then_step (then_step (then_step at_first scans) scans) (changes (removes 0)))
              (scan_came (scan_waits ∷ []) [] response refl))
            (scan_failed [] (scan_enrich_waits ∷ []) refl))
          enriches)
        (scan_enriched_came [] (enrich_waits ∷ []) (some (apple ∷ apple ∷ [])) refl))
      (enriched_came [] [] none refl)

ScreenerRun-IsShown_example : IsShown overlapping
ScreenerRun-IsShown_example = ScreenerRun-IsShown (λ n. n) "f" overlap
