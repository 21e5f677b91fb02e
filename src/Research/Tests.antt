-- ===== src/Research/Tests.antt =====
-- Runs of the research stores.
use aiautomation.Common.{String, refl, true, false, inl, none, some, [], ◌∷◌}
use aiautomation.Research.Profile.{
  StockProfile, profile_came, sets_symbol, loads, answers, opened_profile, profile_step,
}
use aiautomation.Research.Ownership.{Watched, loading}
use aiautomation.Research.Diagnostics.{
  RefreshRun, DiagnosticsPage, quarter, poll_waits, receive_poll,
}
use aiautomation.Research.Loading.{PageRun, at_first, then_step, poll_came, IsBusy, PageRun-IsBusy}

abbrev profile_of : String → StockProfile String
profile_of s = record {
  overview = s;
  key_stats = s;
  financials = s;
  analyst = s;
  ownership = s;
  events = s;
  narrative = s;
  financial_statements = s;
  analyst_detail = s;
  rating_scorecard = s;
  company_info = s;
  stock_splits = s;
  earnings_detail = s;
}

-- A symbol is chosen, loaded twice and answered twice; then another one is chosen.
abbrev visited : Watched String
visited = record {
  page = profile_step (sets_symbol "MSFT") (
      profile_step (answers 0 (profile_came (profile_of "AAPL") 9)) (
        profile_step (answers 1 (profile_came (profile_of "AAPL") 8)) (
          profile_step (loads "AAPL")
            (profile_step (loads "AAPL") (profile_step (sets_symbol "AAPL") opened_profile)))));
  last_load = some "AAPL";
  chosen = some "MSFT";
}

abbrev closed_page : DiagnosticsPage String
closed_page = record {
  state = record {
    enabled = true;
    loading = false;
    error = none;
    lookback_days = quarter;
    overview = none;
    indicators = [];
    market_map = [];
    projections = none;
    news = [];
    refresh_run = none;
    refreshing = false;
    last_fetched = none;
  };
  waiting = poll_waits 7 ∷ [];
}

abbrev expired_run : RefreshRun
expired_run = record {
  run_id = 7;
  status = "running";
  locked_by = none;
  lock_expires_at = some 5;
  error = none;
}

abbrev lower : String → String
lower s = s

abbrev reloading : DiagnosticsPage String
reloading = receive_poll lower (some (expired_run, 9000)) "" (record closed_page { waiting = [] })

poll : PageRun lower closed_page reloading
poll = then_step at_first (poll_came 7 [] [] (some (expired_run, 9000)) "" refl)

PageRun-IsBusy_example : IsBusy reloading
PageRun-IsBusy_example = PageRun-IsBusy lower poll (inl refl)
