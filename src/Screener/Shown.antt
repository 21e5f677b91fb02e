-- ===== src/Screener/Shown.antt =====
-- store/screenerStore.ts: the rows, the spinners and the enrichments of a page are kept by each step.
use aiautomation.Common.{
  ℕ, String, ◌≡◌, refl, sym, ap, ◌∙◌, subst, ◌⊎◌, inl, inr, true, false, Option, none, some, List,
  [], ◌∷◌, ◌++◌,
}
use aiautomation.Common.Pending.{OnlyWhile, waits_new, waits_more, waits_less}
use aiautomation.Screener.{ScanResultRow, EnrichResult, ScreenerState, ScanResponse}
use aiautomation.Screener.Store.{
  add_filter, remove_filter, update_filter, apply_preset, load_presets, load_universes, save_preset,
  delete_preset, set_filters, set_universe, set_custom_symbols, set_interval, set_period, Change,
  adds, removes, updates, applies, gets_presets, gets_universes, saves, deletes, sets_filters,
  sets_universe, sets_custom_symbols, sets_interval, sets_period, change, begin_scan, take_results,
  take_enriched, initial_screener,
}
use aiautomation.Screener.Requests.{
  ScanRequest, scan_waits, enrich_waits, scan_enrich_waits, ScreenerPage, run_scan, enrich_results,
  receive_scan, receive_enriched, receive_scan_enriched,
}
use aiautomation.Screener.Scans.{
  of_scan, of_enrichment, ScannedPage, ScreenerStep, changes, scans, enriches, resets, scan_came,
  scan_failed, enriched_came, scan_enriched_came, ScreenerRun, at_first, then_step, opened_screener,
  OwnKeys, enriched_map-OwnKeys, IsShown,
}

List-cases : {A : Type 0} (xs : List A) → (xs ≡ []) ⊎ ((x : A) × (rest : List A) × (xs ≡ x ∷ rest))
List-cases [] = inl refl
List-cases (x ∷ xs) = inr (x, xs, refl)

module _ {N : Type 0} where
  -- The parts of the state that scans and enrichments write.
  abbrev SameScan : ScreenerState N → ScreenerState N → Type 0
  SameScan s t =
      (s.results ≡ t.results)
      × (s.scanning ≡ t.scanning)
      × (s.enriching ≡ t.enriching)
      × (s.enriched ≡ t.enriched)

  change-SameScan : (c : Change N) (s : ScreenerState N) → SameScan s (change c s)
  unfolding change add_filter remove_filter update_filter apply_preset load_presets load_universes
      save_preset delete_preset set_filters set_universe set_custom_symbols set_interval set_period
  change-SameScan (adds f) s = (refl, refl, refl, refl)
  change-SameScan (removes index) s = (refl, refl, refl, refl)
  change-SameScan (updates index f) s = (refl, refl, refl, refl)
  change-SameScan (applies uuid p) s = (refl, refl, refl, refl)
  change-SameScan (gets_presets none) s = (refl, refl, refl, refl)
  change-SameScan (gets_presets (some ps)) s = (refl, refl, refl, refl)
  change-SameScan (gets_universes none) s = (refl, refl, refl, refl)
  change-SameScan (gets_universes (some us)) s = (refl, refl, refl, refl)
  change-SameScan (saves none) s = (refl, refl, refl, refl)
  change-SameScan (saves (some p)) s = (refl, refl, refl, refl)
  change-SameScan (deletes false id) s = (refl, refl, refl, refl)
  change-SameScan (deletes true id) s = (refl, refl, refl, refl)
  change-SameScan (sets_filters fs) s = (refl, refl, refl, refl)
  change-SameScan (sets_universe universe) s = (refl, refl, refl, refl)
  change-SameScan (sets_custom_symbols symbols) s = (refl, refl, refl, refl)
  change-SameScan (sets_interval interval) s = (refl, refl, refl, refl)
  change-SameScan (sets_period period) s = (refl, refl, refl, refl)

  change-IsShown :
      (c : Change N) (p : ScannedPage N)
      → IsShown p
      → IsShown (record p { page = record (p.page) { state = change c p.page.state } })
  change-IsShown c p (rows, scanning, enriching, own) =
      let (a, b, d, e) = change-SameScan c p.page.state in
      (
        sym a ∙ rows,
        subst (λ x. OnlyWhile of_scan x p.page.waiting) b scanning,
        subst (λ x. OnlyWhile of_enrichment x p.page.waiting) d enriching,
        subst OwnKeys e own,
      )

  take_enriched-OwnKeys :
      (answer : Option (List (EnrichResult N))) (s : ScreenerState N)
      → OwnKeys s.enriched
      → OwnKeys (take_enriched answer s).enriched
  unfolding take_enriched
  take_enriched-OwnKeys none s h = h
  take_enriched-OwnKeys (some es) s h = enriched_map-OwnKeys [] es tt

  take_enriched-fields :
      (answer : Option (List (EnrichResult N))) (s : ScreenerState N)
      → ((take_enriched answer s).results ≡ s.results)
        × ((take_enriched answer s).scanning ≡ s.scanning)
        × ((take_enriched answer s).enriching ≡ false)
  unfolding take_enriched
  take_enriched-fields none s = (refl, refl, refl)
  take_enriched-fields (some es) s = (refl, refl, refl)

  enrich_results-IsShown :
      (p : ScannedPage N)
      → IsShown p
      → IsShown (record p { page = enrich_results enrich_waits p.page })
  unfolding enrich_results
  enrich_results-IsShown p (rows, scanning, enriching, own) =
      elim (List-cases p.page.state.results) [
        | inl e ↦ rw (e, enrich_results) (rows, scanning, enriching, own)
        | inr (r, rs, e) ↦
            rw (e, enrich_results)
              (
                rows,
                waits_more of_scan _ p.page.waiting enrich_waits scanning,
                waits_new of_enrichment true p.page.waiting enrich_waits refl,
                own,
              )
      ]

  enrich_results-some :
      (w : ScanRequest) (p : ScreenerPage N) {x : ScanResultRow N} {xs : List (ScanResultRow N)}
      → p.state.results ≡ x ∷ xs
      → enrich_results w p
        ≡ record { state = record (p.state) { enriching = true }; waiting = p.waiting ++ w ∷ [] }
  unfolding enrich_results
  enrich_results-some w p e =
      rw (e, enrich_results)
        (ap
          (λ rows. record {
            state = record (p.state) { results = rows; enriching = true };
            waiting = p.waiting ++ w ∷ [];
          })
          e)

  receive_scan-enriching :
      (r : ScanResponse N) (waiting : List ScanRequest) (s : ScreenerState N) {x : ScanResultRow N}
      {xs : List (ScanResultRow N)}
      → r.results ≡ x ∷ xs
      → receive_scan (some r) waiting s ≡ record {
        state = record (take_results r s) { enriching = true };
        waiting = waiting ++ scan_enrich_waits ∷ [];
      }
  unfolding receive_scan take_results
  receive_scan-enriching r waiting s e =
      rw (e, receive_scan)
        (enrich_results-some scan_enrich_waits
            (record { state = take_results r s; waiting = waiting }) e
          ∙ ap
              (λ rows. record {
                state = record (take_results r s) { results = rows; enriching = true };
                waiting = waiting ++ scan_enrich_waits ∷ [];
              })
              e)

  receive_scan-IsShown :
      (p : ScannedPage N) (before after : List ScanRequest) (r : ScanResponse N)
      → p.page.waiting ≡ before ++ scan_waits ∷ after
      → IsShown p
      → IsShown (record {
        page = receive_scan (some r) (before ++ after) p.page.state;
        latest = r.results;
      })
  unfolding receive_scan take_results
  receive_scan-IsShown p before after r w (rows, scanning, enriching, own) =
      elim (List-cases r.results) [
        | inl e ↦
            rw (e, receive_scan)
              (
                e,
                inl refl,
                waits_less of_enrichment _ before after p.page.waiting scan_waits w refl enriching,
                own,
              )
        | inr (x, xs, e) ↦
            subst (λ page. IsShown (record { page = page; latest = r.results }))
              (sym (receive_scan-enriching r (before ++ after) p.page.state e))
              (
                refl,
                waits_new of_scan _ (before ++ after) scan_enrich_waits refl,
                waits_new of_enrichment true (before ++ after) scan_enrich_waits refl,
                own,
              )
      ]

  ScreenerStep-IsShown : {p q : ScannedPage N} → ScreenerStep p q → IsShown p → IsShown q
  unfolding run_scan begin_scan receive_scan receive_enriched receive_scan_enriched initial_screener
  ScreenerStep-IsShown {p} (changes c) h = change-IsShown c p h
  ScreenerStep-IsShown {p} scans (rows, scanning, enriching, own) = (
    refl,
    waits_new of_scan true p.page.waiting scan_waits refl,
    waits_more of_enrichment _ p.page.waiting scan_waits enriching,
    tt,
  )
  ScreenerStep-IsShown {p} enriches h = enrich_results-IsShown p h
  ScreenerStep-IsShown (resets n uuid) h = (refl, inl refl, inl refl, tt)
  ScreenerStep-IsShown {p} (scan_came before after r w) h =
      receive_scan-IsShown p before after r w h
  ScreenerStep-IsShown {p} (scan_failed before after w) (rows, scanning, enriching, own) = (
    rows,
    inl refl,
    waits_less of_enrichment _ before after p.page.waiting scan_waits w refl enriching,
    own,
  )
  ScreenerStep-IsShown {p} (enriched_came before after answer w) (rows, scanning, enriching, own) =
      let (same, kept, off) = take_enriched-fields answer p.page.state in
      (
        same ∙ rows,
        subst (λ x. OnlyWhile of_scan x (before ++ after)) (sym kept)
            (waits_less of_scan _ before after p.page.waiting enrich_waits w refl scanning),
        inl off,
        take_enriched-OwnKeys answer p.page.state own,
      )
  ScreenerStep-IsShown {p} (scan_enriched_came before after answer w)
        (rows, scanning, enriching, own) =
      let (same, kept, off) = take_enriched-fields answer p.page.state in
      (same ∙ rows, inl refl, inl off, take_enriched-OwnKeys answer p.page.state own)

  ScreenerRun-kept : {first p : ScannedPage N} → ScreenerRun first p → IsShown first → IsShown p
  ScreenerRun-kept at_first h = h
  ScreenerRun-kept (then_step r s) h = ScreenerStep-IsShown s (ScreenerRun-kept r h)

  -- From the store's creation on, however scans, enrichments, resets and the other actions interleave
  -- and their requests are answered, the rows are those of the last answer to a scan since the last
  -- scan began or the last reset; each spinner turns only while a request of its kind waits, so both
  -- are off when nothing waits; and each enrichment stands under its own symbol.
  pub ScreenerRun-IsShown :
      (n : ℕ → N) (uuid : String) {p : ScannedPage N}
      → ScreenerRun (opened_screener n uuid) p
      → IsShown p
  unfolding initial_screener
  ScreenerRun-IsShown n uuid r = ScreenerRun-kept r (refl, inl refl, inl refl, tt)
