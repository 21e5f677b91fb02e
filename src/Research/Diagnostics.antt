-- ===== src/Research/Diagnostics.antt =====
-- store/diagnosticsStore.ts. What the diagnostics consist of is a value of the type `D`.
use aiautomation.Common.{
  ℕ, ◌/◌, String, ◌==◌, Bool, true, false, not, ◌&&◌, ◌||◌, Option, none, some, or_else, List, [],
  ◌∷◌, ◌++◌, eqb, leb, if◌then◌else◌,
}

-- `90 | 180 | 365`
pub data Lookback : Type 0 where
  quarter half_year year : Lookback

-- `DiagnosticRefreshRun`
pub record RefreshRun : Type 0 where
  pub run_id : ℕ
  pub status : String
  pub locked_by : Option String
  pub lock_expires_at : Option ℕ
  pub error : Option String

-- What the five requests of `loadAll` answer with.
pub record Diagnostics (D : Type 0) : Type 0 where
  pub overview : D
  pub indicators : List D
  pub market_map : List D
  pub projections : D
  pub news : List D

-- `DiagnosticsState` without its actions.
pub record DiagnosticsState (D : Type 0) : Type 0 where
  pub enabled : Bool
  pub loading : Bool
  pub error : Option String
  pub lookback_days : Lookback
  pub overview : Option D
  pub indicators : List D
  pub market_map : List D
  pub projections : Option D
  pub news : List D
  pub refresh_run : Option RefreshRun
  pub refreshing : Bool
  pub last_fetched : Option ℕ

pub data Waiting : Type 0 where
  load_waits refresh_waits : Waiting
  poll_waits : ℕ → Waiting

-- The store, with what waits for an answer.
pub record DiagnosticsPage (D : Type 0) : Type 0 where
  pub state : DiagnosticsState D
  pub waiting : List Waiting

module _ {D : Type 0} where
  abbrev pub set_enabled : Bool → DiagnosticsState D → DiagnosticsState D
  set_enabled v s = record s { enabled = v }

  abbrev pub set_lookback_days : Lookback → DiagnosticsState D → DiagnosticsState D
  set_lookback_days days s = record s { lookback_days = days }

  abbrev pub dismiss_error : DiagnosticsState D → DiagnosticsState D
  dismiss_error s = record s { error = none }

  -- `loadAll` up to its await
  unfoldable pub ask_all : DiagnosticsPage D → DiagnosticsPage D
  ask_all page =
      if page.state.enabled
      then record {
        state = record (page.state) { loading = true; error = none };
        waiting = page.waiting ++ load_waits ∷ [];
      }
      else page

  -- `loadAll` from its await on: the diagnostics and the time, or the message of an error
  unfoldable pub receive_all :
      Option (Diagnostics D × ℕ) → String → DiagnosticsState D → DiagnosticsState D
  receive_all (some (d, now)) message s = record s {
    overview = some d.overview;
    indicators = d.indicators;
    market_map = d.market_map;
    projections = some d.projections;
    news = d.news;
    last_fetched = some now;
    loading = false;
  }
  receive_all none message s = record s { error = some message; loading = false }

  -- `refreshNow` up to its await
  unfoldable pub ask_refresh : DiagnosticsPage D → DiagnosticsPage D
  ask_refresh page =
      if page.state.enabled
      then record {
        state = record (page.state) { refreshing = true; error = none };
        waiting = page.waiting ++ refresh_waits ∷ [];
      }
      else page

  -- `refreshNow` from its await on: the HTTP status and the run, or the message of an error
  unfoldable pub receive_refresh :
      Option (ℕ × RefreshRun) → String → DiagnosticsState D → DiagnosticsState D
  receive_refresh (some (code, run)) message s = record s {
    refresh_run =
        if eqb code 202
        then some (record {
          run_id = run.run_id;
          status = run.status;
          locked_by = none;
          lock_expires_at = none;
          error = none;
        })
        else some (record {
          run_id = run.run_id;
          status = "locked";
          locked_by = run.locked_by;
          lock_expires_at = run.lock_expires_at;
          error = none;
        });
  }
  receive_refresh none message s = record s { error = some message; refreshing = false }

  -- `pollRefreshRun` up to its await
  unfoldable pub ask_poll : ℕ → DiagnosticsPage D → DiagnosticsPage D
  ask_poll run_id page = record page { waiting = page.waiting ++ poll_waits run_id ∷ [] }

-- `typeof x === 'number' && x <= nowTs`
abbrev is_past : ℕ → Option ℕ → Bool
is_past now none = false
is_past now (some t) = leb t now

module _ (to_lower : String → String) where
  abbrev pub is_completed : RefreshRun → Bool
  is_completed run = to_lower run.status == "completed"

  abbrev pub is_failed : RefreshRun → Bool
  is_failed run = to_lower run.status == "failed"

  -- `nowMs` is `Date.now()`.
  abbrev pub lock_expired : ℕ → RefreshRun → Bool
  lock_expired now_ms run =
      to_lower run.status == "running" && is_past (now_ms / 1000) run.lock_expires_at

  abbrev pub is_done : ℕ → RefreshRun → Bool
  is_done now_ms run = is_completed run || is_failed run || lock_expired now_ms run

  unfoldable pub poll_error : ℕ → RefreshRun → Option String
  poll_error now_ms run =
      if is_done now_ms run
      then (if is_failed run
          then some (or_else run.error "Diagnostics refresh failed")
          else (if lock_expired now_ms run
              then some "Refresh lock expired; re-sync required."
              else none))
      else none

module _ {D : Type 0} (to_lower : String → String) where
  -- `pollRefreshRun` from its await on: the run and the time, or the message of an error
  unfoldable pub receive_poll :
      Option (RefreshRun × ℕ) → String → DiagnosticsPage D → DiagnosticsPage D
  unfolding ask_all poll_error
  receive_poll (some (run, now_ms)) message page =
      let polled : DiagnosticsPage D = record page {
        state = record (page.state) {
          refresh_run = some run;
          refreshing = not (is_done to_lower now_ms run);
          error = poll_error to_lower now_ms run;
        };
      } in
      let loading_again = ask_all polled in
      if is_done to_lower now_ms run
        && (is_completed to_lower run || lock_expired to_lower now_ms run)
      then loading_again
      else polled
  receive_poll none message page = record page {
    state = record (page.state) { error = some message; refreshing = false };
  }
