-- ===== src/Research/Profile.antt =====
-- store/stockProfileStore.ts. A section of a profile is a value of the type `P`.
use aiautomation.Common.{
  ℕ, String, Bool, true, false, Option, none, some, List, [], ◌∷◌, ◌++◌, drop_nth,
}

-- What `fetchStockProfile` answers with.
pub record StockProfile (P : Type 0) : Type 0 where
  pub overview : P
  pub key_stats : P
  pub financials : P
  pub analyst : P
  pub ownership : P
  pub events : P
  pub narrative : P
  pub financial_statements : P
  pub analyst_detail : P
  pub rating_scorecard : P
  pub company_info : P
  pub stock_splits : P
  pub earnings_detail : P

-- `StockProfileState` without its actions.
pub record ProfileState (P : Type 0) : Type 0 where
  pub symbol : Option String
  pub loading : Bool
  pub error : Option String
  pub overview : Option P
  pub key_stats : Option P
  pub financials : Option P
  pub analyst : Option P
  pub ownership : Option P
  pub events : Option P
  pub narrative : Option P
  pub financial_statements : Option P
  pub analyst_detail : Option P
  pub rating_scorecard : Option P
  pub company_info : Option P
  pub stock_splits : Option P
  pub earnings_detail : Option P
  pub last_fetched : Option ℕ

-- The store, with the symbols of the requests that have no answer yet.
pub record ProfilePage (P : Type 0) : Type 0 where
  pub state : ProfileState P
  pub asked : List String

module _ {P : Type 0} where
  -- the state that the store is created with, and that a reset restores
  abbrev pub no_profile : ProfileState P
  no_profile = record {
    symbol = none;
    loading = false;
    error = none;
    overview = none;
    key_stats = none;
    financials = none;
    analyst = none;
    ownership = none;
    events = none;
    narrative = none;
    financial_statements = none;
    analyst_detail = none;
    rating_scorecard = none;
    company_info = none;
    stock_splits = none;
    earnings_detail = none;
    last_fetched = none;
  }

  abbrev pub opened_profile : ProfilePage P
  opened_profile = record { state = no_profile; asked = [] }

  -- the sections all null
  abbrev no_sections : ProfileState P → ProfileState P
  no_sections s = record s {
    overview = none;
    key_stats = none;
    financials = none;
    analyst = none;
    ownership = none;
    events = none;
    narrative = none;
    financial_statements = none;
    analyst_detail = none;
    rating_scorecard = none;
    company_info = none;
    stock_splits = none;
    earnings_detail = none;
    last_fetched = none;
  }

  unfoldable pub clear_profile : ProfileState P → ProfileState P
  clear_profile s = record (no_sections s) { symbol = none; error = none }

  abbrev pub clear_error : ProfileState P → ProfileState P
  clear_error s = record s { error = none }

  abbrev pub set_symbol : String → ProfileState P → ProfileState P
  set_symbol symbol s = record s { symbol = some symbol }

  -- `loadAll` up to its await
  unfoldable pub load_all : String → ProfilePage P → ProfilePage P
  load_all symbol page = record {
    state = record (no_sections page.state) { loading = true; error = none; symbol = some symbol };
    asked = page.asked ++ symbol ∷ [];
  }

  abbrev set_sections : StockProfile P → ℕ → ProfileState P → ProfileState P
  set_sections profile now s = record s {
    overview = some profile.overview;
    key_stats = some profile.key_stats;
    financials = some profile.financials;
    analyst = some profile.analyst;
    ownership = some profile.ownership;
    events = some profile.events;
    narrative = some profile.narrative;
    financial_statements = some profile.financial_statements;
    analyst_detail = some profile.analyst_detail;
    rating_scorecard = some profile.rating_scorecard;
    company_info = some profile.company_info;
    stock_splits = some profile.stock_splits;
    earnings_detail = some profile.earnings_detail;
    last_fetched = some now;
  }

-- The outcome of a request: a profile and the time, or the message of an error.
pub data ProfileAnswer (P : Type 0) : Type 0 where
  profile_came : StockProfile P → ℕ → ProfileAnswer P
  profile_failed : String → ProfileAnswer P

module _ {P : Type 0} where
  -- `loadAll` from its await on, for the `n`-th request that has no answer yet
  unfoldable pub finish_load : ℕ → ProfileAnswer P → ProfilePage P → ProfilePage P
  finish_load n (profile_came profile now) page = record {
    state = record (set_sections profile now page.state) { loading = false };
    asked = drop_nth n page.asked;
  }
  finish_load n (profile_failed message) page = record {
    state = record (page.state) { error = some message; loading = false };
    asked = drop_nth n page.asked;
  }

pub data ProfileStep (P : Type 0) : Type 0 where
  loads : String → ProfileStep P
  answers : ℕ → ProfileAnswer P → ProfileStep P
  sets_symbol : String → ProfileStep P
  clears_profile clears_error : ProfileStep P

module _ {P : Type 0} where
  unfoldable pub profile_step : ProfileStep P → ProfilePage P → ProfilePage P
  profile_step (loads symbol) page = load_all symbol page
  profile_step (answers n a) page = finish_load n a page
  profile_step (sets_symbol symbol) page = record page { state = set_symbol symbol page.state }
  profile_step clears_profile page = record page { state = clear_profile page.state }
  profile_step clears_error page = record page { state = clear_error page.state }
