-- ===== src/Research/Ownership.antt =====
-- store/stockProfileStore.ts: whose profile is shown, where no symbol is loaded or left while the
-- request for another one waits.
use aiautomation.Common.{
  ℕ, String, ◌≡◌, ◌⊎◌, Option, none, some, List, [], ◌∷◌, ◌++◌, All, length, map,
}
use aiautomation.Research.Profile.{
  StockProfile, ProfileState, ProfilePage, profile_came, profile_failed, sets_symbol,
  clears_profile, clears_error, loads, answers, opened_profile, no_profile, profile_step,
}

module _ {P : Type 0} where
  -- The thirteen sections, in the order of the state.
  abbrev pub shown_sections : ProfileState P → List (Option P)
  shown_sections s =
      s.overview ∷ s.key_stats ∷ s.financials ∷ s.analyst ∷ s.ownership ∷ s.events ∷ s.narrative
      ∷ s.financial_statements ∷ s.analyst_detail ∷ s.rating_scorecard ∷ s.company_info
      ∷ s.stock_splits ∷ s.earnings_detail ∷ []

  abbrev pub sections_of : StockProfile P → List (Option P)
  sections_of p = map some (
      p.overview ∷ p.key_stats ∷ p.financials ∷ p.analyst ∷ p.ownership ∷ p.events ∷ p.narrative
      ∷ p.financial_statements ∷ p.analyst_detail ∷ p.rating_scorecard ∷ p.company_info
      ∷ p.stock_splits ∷ p.earnings_detail ∷ [])

  abbrev pub blank : List (Option P)
  blank =
      none ∷ none ∷ none ∷ none ∷ none ∷ none ∷ none ∷ none ∷ none ∷ none ∷ none ∷ none ∷ none ∷ []

-- The page, with the symbol of the last `loadAll` and the one that `setSymbol` has chosen since. A
-- page that is left or reset has neither.
pub record Watched (P : Type 0) : Type 0 where
  pub page : ProfilePage P
  pub last_load : Option String
  pub chosen : Option String

-- What is chosen goes before what is loaded.
abbrev pub symbol_shown : Option String → Option String → Option String
symbol_shown none last = last
symbol_shown (some symbol) last = some symbol

module _ {P : Type 0} where
  abbrev pub first_visit : Watched P
  first_visit = record { page = opened_profile; last_load = none; chosen = none }

module _ {P : Type 0} (profile_of : String → StockProfile P) where
  -- A step of the page where the backend answers the request for a symbol with its profile, and no
  -- symbol is loaded or left while the request for another one waits. `setSymbol` is free.
  pub data CalmStep (w : Watched P) : Watched P → Type 0 where
    loading :
        (symbol : String)
        → All (λ s. s ≡ symbol) w.page.asked
        → CalmStep w (record {
          page = profile_step (loads symbol) w.page;
          last_load = some symbol;
          chosen = none;
        })
    loaded :
        (symbol : String) (before after : List String) (now : ℕ)
        → w.page.asked ≡ before ++ symbol ∷ after
        → CalmStep w (record w {
          page =
              profile_step (answers (length before) (profile_came (profile_of symbol) now)) w.page;
        })
    failing :
        (n : ℕ) (message : String)
        → CalmStep w (record w { page = profile_step (answers n (profile_failed message)) w.page })
    choosing :
        (symbol : String)
        → CalmStep w
            (record w { page = profile_step (sets_symbol symbol) w.page; chosen = some symbol })
    leaving :
        w.page.asked ≡ []
        → CalmStep w
            (record { page = profile_step clears_profile w.page; last_load = none; chosen = none })
    resetting :
        w.page.asked ≡ []
        → CalmStep w (record {
          page = record (w.page) { state = no_profile };
          last_load = none;
          chosen = none;
        })
    dismissing : CalmStep w (record w { page = profile_step clears_error w.page })

  pub data CalmRun : Watched P → Type 0 where
    start : CalmRun first_visit
    more : {w next : Watched P} → CalmRun w → CalmStep w next → CalmRun next

  -- Nothing is shown, or the profile of the symbol that was loaded last; and the page's symbol is
  -- that one, unless another one was chosen since.
  abbrev pub IsOwn : Watched P → Type 0
  IsOwn w =
      (w.page.state.symbol ≡ symbol_shown w.chosen w.last_load)
      × ((shown_sections w.page.state ≡ blank)
          ⊎ ((symbol : String) × (w.last_load ≡ some symbol)
              × (shown_sections w.page.state ≡ sections_of (profile_of symbol))))

  -- All requests that wait are for the symbol that was loaded last.
  abbrev IsCalm : Watched P → Type 0
  IsCalm w = All (λ s. w.last_load ≡ some s) w.page.asked × IsOwn w
