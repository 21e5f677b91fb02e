-- ===== src/Session.antt =====
-- store/sessionStore.ts: the operator's session, with what its actions do outside the store.
pub mod Http
pub mod Invariant
pub mod Requests
pub mod Bootstrap
pub mod Launch
mod Tests
use aiautomation.Common.{
  ℕ, suc, ◌+◌, String, ◌==◌, Bool, true, false, not, ◌&&◌, ◌||◌, Option, none, some, List, [], ◌∷◌,
  ◌++◌, ltb, leb, if◌then◌else◌,
}

pub data SessionStatus : Type 0 where
  idle bootstrapping authenticated expired failed : SessionStatus

pub record SessionState : Type 0 where
  pub token : Option String
  pub expires_at : Option String
  pub generation : ℕ
  pub status : SessionStatus
  pub error : Option String

-- The events that services/api/client.ts dispatches on the window.
pub data BrowserEvent : Type 0 where
  popstate api_unauthorized : BrowserEvent

-- The session, the page's path, the events dispatched so far, and how often `resetAllStores` ran.
pub record Page : Type 0 where
  pub session : SessionState
  pub open session use *
  pub path : String
  pub events : List BrowserEvent
  pub store_resets : ℕ

abbrev pub truthy : Option String → Bool
truthy none = false
truthy (some s) = not (s == "")

abbrev pub is_authenticated : SessionStatus → Bool
is_authenticated authenticated = true
is_authenticated _ = false

-- `expiry <= Date.now()`, where `none` is NaN.
abbrev pub lapsed : Option ℕ → ℕ → Bool
lapsed none now = false
lapsed (some t) now = leb t now

-- `expiry > Date.now()`
abbrev pub alive : Option ℕ → ℕ → Bool
alive none now = false
alive (some t) now = ltb now t

-- `Number.isFinite(expiry)`
abbrev pub is_finite : Option ℕ → Bool
is_finite none = false
is_finite (some t) = true

-- A session that `...EMPTY_SESSION` clears, one generation on.
abbrev pub emptied : SessionStatus → Option String → SessionState → SessionState
emptied status error s = record {
  token = none;
  expires_at = none;
  generation = s.generation + 1;
  status = status;
  error = error;
}

abbrev pub set_session_state : SessionState → Page → Page
set_session_state s c = record c { session = s }

abbrev pub reset_all_stores : Page → Page
reset_all_stores c = record c { store_resets = c.store_resets + 1 }

unfoldable pub begin_bootstrap : Page → Page
begin_bootstrap c = set_session_state (emptied bootstrapping none c.session) c

unfoldable pub fail_bootstrap : String → Page → Page
fail_bootstrap message c =
    set_session_state (emptied failed (some message) c.session) (reset_all_stores c)

unfoldable pub reset : String → Page → Page
reset message c = set_session_state (emptied expired (some message) c.session) (reset_all_stores c)

abbrev pub invalid_session : String
invalid_session = "The backend returned an invalid or expired session."

-- `Date.parse` in milliseconds: `none` for NaN, and 0 for a date before 1970.
module _ (date_parse : String → Option ℕ) where
  -- The test of `setSession` at the time `now`.
  abbrev pub acceptable : String → String → ℕ → Bool
  acceptable token expires now =
      not (token == "" || not (is_finite (date_parse expires)) || lapsed (date_parse expires) now)

  unfoldable pub set_session : String → String → ℕ → Page → Page
  set_session token expires now c =
      if acceptable token expires now
      then set_session_state
          (record {
            token = some token;
            expires_at = some expires;
            generation = c.generation + 1;
            status = authenticated;
            error = none;
          })
          c
      else set_session_state (emptied failed (some invalid_session) c.session) (reset_all_stores c)

  -- `session.expiresAt ? Date.parse(session.expiresAt) : Number.NaN`
  abbrev pub expiry_of : Option String → Option ℕ
  expiry_of none = none
  expiry_of (some s) = if s == "" then none else date_parse s

  -- `sessionIsCurrent`
  unfoldable pub session_is_current : ℕ → SessionState → Bool
  session_is_current now s =
      is_authenticated s.status
      && truthy s.token
      && truthy s.expires_at
      && alive (expiry_of s.expires_at) now

-- The actions of the store.
pub data SessionAction : Type 0 where
  begins : SessionAction
  sets : String → String → ℕ → SessionAction
  fails resets : String → SessionAction

module _ (date_parse : String → Option ℕ) where
  unfoldable pub act : SessionAction → Page → Page
  act begins c = begin_bootstrap c
  act (sets token expires now) c = set_session date_parse token expires now c
  act (fails message) c = fail_bootstrap message c
  act (resets message) c = reset message c

  unfoldable pub act_all : List SessionAction → Page → Page
  act_all [] c = c
  act_all (x ∷ xs) c = act_all xs (act x c)

-- The page before the first bootstrap.
abbrev pub initial_session : SessionState
initial_session = record {
  token = none;
  expires_at = none;
  generation = 0;
  status = idle;
  error = none;
}
