-- ===== src/Screener/Scans.antt =====
-- What any number of scans and enrichments, under way at once and answered in any order, leave in
-- store/screenerStore.ts.
use aiautomation.Common.{
  ℕ, String, ◌≡◌, refl, sym, inl, inr, Bool, true, false, Bool-cases, Option, none, some, List, [],
  ◌∷◌, ◌++◌, All, Dict, insert, eq_iff, ◌==◌,
}
use aiautomation.Common.Pending.{OnlyWhile}
use aiautomation.Screener.{ScanResultRow, EnrichResult, ScanResponse}
use aiautomation.Screener.Store.{Change, change, enriched_map, initial_screener}
use aiautomation.Screener.Requests.{
  ScanRequest, scan_waits, enrich_waits, scan_enrich_waits, ScreenerPage, run_scan, enrich_results,
  receive_scan, receive_enriched, receive_scan_enriched,
}

abbrev pub of_scan : ScanRequest → Bool
of_scan scan_waits = true
of_scan enrich_waits = false
of_scan scan_enrich_waits = true

abbrev pub of_enrichment : ScanRequest → Bool
of_enrichment scan_waits = false
of_enrichment enrich_waits = true
of_enrichment scan_enrich_waits = true

-- The page with the rows that came last: those of the last answer to a scan since the last scan
-- began or the last reset, and none before it.
pub record ScannedPage (N : Type 0) : Type 0 where
  pub page : ScreenerPage N
  pub latest : List (ScanResultRow N)

module _ {N : Type 0} where
  -- One action, or one answer to a request that waits.
  pub data ScreenerStep (p : ScannedPage N) : ScannedPage N → Type 0 where
    changes :
        (c : Change N)
        → ScreenerStep p (record p { page = record (p.page) { state = change c p.page.state } })
    scans : ScreenerStep p (record { page = run_scan p.page; latest = [] })
    enriches : ScreenerStep p (record p { page = enrich_results enrich_waits p.page })
    resets :
        (n : ℕ → N) (uuid : String)
        → ScreenerStep p
            (record { page = record (p.page) { state = initial_screener n uuid }; latest = [] })
    scan_came :
        (before after : List ScanRequest) (r : ScanResponse N)
        → p.page.waiting ≡ before ++ scan_waits ∷ after
        → ScreenerStep p (record {
          page = receive_scan (some r) (before ++ after) p.page.state;
          latest = r.results;
        })
    scan_failed :
        (before after : List ScanRequest)
        → p.page.waiting ≡ before ++ scan_waits ∷ after
        → ScreenerStep p (record p { page = receive_scan none (before ++ after) p.page.state })
    enriched_came :
        (before after : List ScanRequest) (answer : Option (List (EnrichResult N)))
        → p.page.waiting ≡ before ++ enrich_waits ∷ after
        → ScreenerStep p (record p {
          page = record { state = receive_enriched answer p.page.state; waiting = before ++ after };
        })
    scan_enriched_came :
        (before after : List ScanRequest) (answer : Option (List (EnrichResult N)))
        → p.page.waiting ≡ before ++ scan_enrich_waits ∷ after
        → ScreenerStep p (record p {
          page = record {
            state = receive_scan_enriched answer p.page.state;
            waiting = before ++ after;
          };
        })

  pub data ScreenerRun (first : ScannedPage N) : ScannedPage N → Type 0 where
    at_first : ScreenerRun first first
    then_step : {p q : ScannedPage N} → ScreenerRun first p → ScreenerStep p q → ScreenerRun first q

  abbrev pub opened_screener : (ℕ → N) → String → ScannedPage N
  opened_screener n uuid = record {
    page = record { state = initial_screener n uuid; waiting = [] };
    latest = [];
  }

  -- Every entry stands under its own symbol.
  abbrev pub OwnKeys : Dict (EnrichResult N) → Type 0
  OwnKeys m = All (λ e. e.1.symbol ≡ e.0) m

  insert-OwnKeys :
      (e : EnrichResult N) (m : Dict (EnrichResult N)) → OwnKeys m → OwnKeys (insert e.symbol e m)
  unfolding insert
  insert-OwnKeys e [] h = (refl, tt)
  insert-OwnKeys e ((k, v) ∷ m) h = elim (Bool-cases (k == e.symbol)) [
    | inl t ↦ rw t (sym ((eq_iff k e.symbol).0 t), h.1)
    | inr t ↦ rw t (h.0, insert-OwnKeys e m h.1)
  ]

  pub enriched_map-OwnKeys :
      (m : Dict (EnrichResult N)) (es : List (EnrichResult N))
      → OwnKeys m
      → OwnKeys (enriched_map m es)
  unfolding enriched_map
  enriched_map-OwnKeys m [] h = h
  enriched_map-OwnKeys m (e ∷ es) h =
      enriched_map-OwnKeys (insert e.symbol e m) es (insert-OwnKeys e m h)

  -- The rows are the latest, each spinner turns only while a request of its kind waits, and each
  -- enrichment stands under its own symbol.
  abbrev pub IsShown : ScannedPage N → Type 0
  IsShown p =
      (p.page.state.results ≡ p.latest)
      × OnlyWhile of_scan p.page.state.scanning p.page.waiting
      × OnlyWhile of_enrichment p.page.state.enriching p.page.waiting
      × OwnKeys p.page.state.enriched
