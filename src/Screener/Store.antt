-- ===== src/Screener/Store.antt =====
-- The actions of store/screenerStore.ts. An answer of the backend is an argument, `none` if the call
-- fails, and so is each id of `crypto.randomUUID`.
use aiautomation.Common.{
  ℕ, zero, suc, String, ◌==◌, Bool, true, false, not, Option, none, some, List, [], ◌∷◌, ◌++◌,
  filter, length, ltb, or_else, if◌then◌else◌, Dict, insert,
}
use aiautomation.Screener.{
  number, by_number, ScanFilter, EnrichResult, ScreenerPreset, UniverseInfo, ScreenerState,
  ScanResponse,
}

-- `makeDefaultFilter`; `n` reads a numeral.
abbrev pub default_filter : {N : Type 0} → (ℕ → N) → String → ScanFilter N
default_filter n uuid = record {
  id = some uuid;
  indicator = "RSI";
  params = ("length", number (n 14)) ∷ [];
  operator = "LT";
  value = record {
    type = by_number;
    number = some (n 30);
    indicator = none;
    params = none;
    multiplier = none;
  };
}

-- the state that the store is created with
unfoldable pub initial_screener : {N : Type 0} → (ℕ → N) → String → ScreenerState N
initial_screener n uuid = record {
  results = [];
  skipped_symbols = [];
  enriched = [];
  presets = [];
  universes = [];
  filters = default_filter n uuid ∷ [];
  selected_universe = "sp500";
  custom_symbols = "";
  interval = "1d";
  period = "1y";
  scanning = false;
  enriching = false;
  presets_loaded = false;
  elapsed_ms = 0;
  total_symbols = 0;
}

-- `xs.filter((_, i) => i !== index)`
abbrev pub drop_at : {A : Type 0} → ℕ → List A → List A
drop_at n [] = []
drop_at zero (x ∷ xs) = xs
drop_at (suc n) (x ∷ xs) = x ∷ drop_at n xs

-- `xs.map((f, i) => (i === index ? x : f))`
abbrev pub replace_at : {A : Type 0} → ℕ → A → List A → List A
replace_at n y [] = []
replace_at zero y (x ∷ xs) = y ∷ xs
replace_at (suc n) y (x ∷ xs) = x ∷ replace_at n y xs

-- The actions but `runScan` and `enrichResults`, each with the answer to its own request.
pub data Change (N : Type 0) : Type 0 where
  adds : ScanFilter N → Change N
  removes : ℕ → Change N
  updates : ℕ → ScanFilter N → Change N
  applies : (ℕ → String) → ScreenerPreset N → Change N
  gets_presets : Option (List (ScreenerPreset N)) → Change N
  gets_universes : Option (List UniverseInfo) → Change N
  saves : Option (ScreenerPreset N) → Change N
  deletes : Bool → String → Change N
  sets_filters : List (ScanFilter N) → Change N
  sets_universe sets_custom_symbols sets_interval sets_period : String → Change N

module _ {N : Type 0} where
  unfoldable pub add_filter : ScanFilter N → ScreenerState N → ScreenerState N
  add_filter fresh s = record s { filters = s.filters ++ fresh ∷ [] }

  unfoldable pub remove_filter : ℕ → ScreenerState N → ScreenerState N
  remove_filter index s = record s {
    filters = if ltb 1 (length s.filters) then drop_at index s.filters else s.filters;
  }

  unfoldable pub update_filter : ℕ → ScanFilter N → ScreenerState N → ScreenerState N
  update_filter index f s = record s { filters = replace_at index f s.filters }

  -- `preset.filters.map((f) => ({ ...f, id: crypto.randomUUID() }))`, for the `i`-th id from `i`.
  abbrev pub with_ids : (ℕ → String) → ℕ → List (ScanFilter N) → List (ScanFilter N)
  with_ids uuid i [] = []
  with_ids uuid i (f ∷ fs) = record f { id = some (uuid i) } ∷ with_ids uuid (suc i) fs

  unfoldable pub apply_preset : (ℕ → String) → ScreenerPreset N → ScreenerState N → ScreenerState N
  apply_preset uuid preset s = record s { filters = with_ids uuid 0 preset.filters }

  unfoldable pub load_presets : Option (List (ScreenerPreset N)) → ScreenerState N → ScreenerState N
  load_presets none s = record s { presets_loaded = true }
  load_presets (some ps) s = record s { presets = ps; presets_loaded = true }

  unfoldable pub load_universes : Option (List UniverseInfo) → ScreenerState N → ScreenerState N
  load_universes none s = s
  load_universes (some us) s = record s { universes = us }

  unfoldable pub save_preset : Option (ScreenerPreset N) → ScreenerState N → ScreenerState N
  save_preset none s = s
  save_preset (some p) s = record s { presets = s.presets ++ p ∷ [] }

  -- `ok` says whether the backend has deleted it.
  unfoldable pub delete_preset : Bool → String → ScreenerState N → ScreenerState N
  delete_preset false id s = s
  delete_preset true id s = record s { presets = filter (λ p. not (p.id == id)) s.presets }

  -- The actions that set one field.
  unfoldable pub set_filters : List (ScanFilter N) → ScreenerState N → ScreenerState N
  set_filters fs s = record s { filters = fs }

  unfoldable pub set_universe : String → ScreenerState N → ScreenerState N
  set_universe universe s = record s { selected_universe = universe }

  unfoldable pub set_custom_symbols : String → ScreenerState N → ScreenerState N
  set_custom_symbols symbols s = record s { custom_symbols = symbols }

  unfoldable pub set_interval : String → ScreenerState N → ScreenerState N
  set_interval interval s = record s { interval = interval }

  unfoldable pub set_period : String → ScreenerState N → ScreenerState N
  set_period period s = record s { period = period }

  unfoldable pub change : Change N → ScreenerState N → ScreenerState N
  change (adds f) s = add_filter f s
  change (removes index) s = remove_filter index s
  change (updates index f) s = update_filter index f s
  change (applies uuid p) s = apply_preset uuid p s
  change (gets_presets r) s = load_presets r s
  change (gets_universes r) s = load_universes r s
  change (saves r) s = save_preset r s
  change (deletes ok id) s = delete_preset ok id s
  change (sets_filters fs) s = set_filters fs s
  change (sets_universe universe) s = set_universe universe s
  change (sets_custom_symbols symbols) s = set_custom_symbols symbols s
  change (sets_interval interval) s = set_interval interval s
  change (sets_period period) s = set_period period s

  -- `runScan` up to its request
  unfoldable pub begin_scan : ScreenerState N → ScreenerState N
  begin_scan s = record s {
    scanning = true;
    results = [];
    skipped_symbols = [];
    enriched = [];
    elapsed_ms = 0;
    total_symbols = 0;
  }

  unfoldable pub take_results : ScanResponse N → ScreenerState N → ScreenerState N
  take_results r s = record s {
    results = r.results;
    skipped_symbols = r.skipped_symbols;
    elapsed_ms = or_else r.elapsed_ms 0;
    total_symbols = or_else r.total_symbols 0;
  }

  -- the loop of `enrichResults`
  unfoldable pub enriched_map :
      Dict (EnrichResult N) → List (EnrichResult N) → Dict (EnrichResult N)
  enriched_map m [] = m
  enriched_map m (e ∷ es) = enriched_map (insert e.symbol e m) es

  unfoldable pub take_enriched : Option (List (EnrichResult N)) → ScreenerState N → ScreenerState N
  unfolding enriched_map
  take_enriched none s = record s { enriching = false }
  take_enriched (some es) s = record s { enriched = enriched_map [] es; enriching = false }
