-- ===== src/Screener/Requests.antt =====
-- `runScan` and `enrichResults` of store/screenerStore.ts, up to and behind each of their requests.
-- The two writes at the end of an answer, one in each `finally`, are one step.
use aiautomation.Common.{true, false, Option, none, some, List, [], ◌∷◌, ◌++◌}
use aiautomation.Screener.{EnrichResult, ScreenerState, ScanResponse}
use aiautomation.Screener.Store.{begin_scan, take_results, take_enriched}

-- A request that has no answer yet: of a scan, of an enrichment, or of the enrichment that a scan
-- awaits.
pub data ScanRequest : Type 0 where
  scan_waits enrich_waits scan_enrich_waits : ScanRequest

pub record ScreenerPage (N : Type 0) : Type 0 where
  pub state : ScreenerState N
  pub waiting : List ScanRequest

module _ {N : Type 0} where
  -- `runScan` up to its request
  unfoldable pub run_scan : ScreenerPage N → ScreenerPage N
  unfolding begin_scan
  run_scan p = record { state = begin_scan p.state; waiting = p.waiting ++ scan_waits ∷ [] }

  -- `enrichResults` up to its request, which is of the kind `w`
  unfoldable pub enrich_results : ScanRequest → ScreenerPage N → ScreenerPage N
  enrich_results w p = elim p.state.results [
    | [] ↦ p
    | r ∷ rs ↦ record {
      state = record (p.state) { enriching = true };
      waiting = p.waiting ++ w ∷ [];
    }
  ]

  abbrev pub stop_scan : ScreenerState N → ScreenerState N
  stop_scan s = record s { scanning = false }

  -- `runScan` from its first await on, where `waiting` is what else waits; the page waits for the
  -- enrichment, or the scan is over.
  unfoldable pub receive_scan :
      Option (ScanResponse N) → List ScanRequest → ScreenerState N → ScreenerPage N
  unfolding take_results enrich_results
  receive_scan none waiting s = record { state = stop_scan s; waiting = waiting }
  receive_scan (some r) waiting s = elim r.results [
    | [] ↦ record { state = stop_scan (take_results r s); waiting = waiting }
    | x ∷ xs ↦
        enrich_results scan_enrich_waits (record { state = take_results r s; waiting = waiting })
  ]

  -- `enrichResults` from its await on, by itself or within a scan
  unfoldable pub receive_enriched :
      Option (List (EnrichResult N)) → ScreenerState N → ScreenerState N
  unfolding take_enriched
  receive_enriched answer s = take_enriched answer s

  unfoldable pub receive_scan_enriched :
      Option (List (EnrichResult N)) → ScreenerState N → ScreenerState N
  unfolding take_enriched
  receive_scan_enriched answer s = stop_scan (take_enriched answer s)
