-- ===== src/Session/Http.antt =====
-- services/api/client.ts: a request under the session, as the session may change while the request
-- is under way. `fetch`, `Date.parse` and `JSON.parse` are given by their results.
use aiautomation.Common.{
  ℕ, String, ◌==◌, Bool, true, false, not, ◌&&◌, ◌||◌, Option, none, some, List, [], ◌∷◌, ◌++◌, leb,
  eqb, any, if◌then◌else◌,
}
use aiautomation.Session.{
  SessionState, Page, SessionAction, popstate, api_unauthorized, truthy, is_authenticated, lapsed,
  alive, expiry_of, reset, act_all,
}

abbrev pub session_expired_path : String
session_expired_path = "/session-expired"

-- `routeToSessionExpired`, in a browser
unfoldable pub route_to_session_expired : Page → Page
route_to_session_expired c =
    if c.path == session_expired_path
    then record c { events = c.events ++ api_unauthorized ∷ [] }
    else record c {
      path = session_expired_path;
      events = c.events ++ popstate ∷ api_unauthorized ∷ [];
    }

unfoldable pub is_public : String → Bool
is_public path =
    any (λ p. p == path) ("/api/health" ∷ "/api/status" ∷ "/api/session/bootstrap" ∷ [])

abbrev pub expired_message : String
expired_message = "Your session expired. Reconnect to continue."

abbrev pub unavailable_message : String
unavailable_message = "Your session is unavailable or expired."

-- What a request has read of the session: `requestGeneration`, `requestToken`, and the token of its
-- `Authorization` header, if it has one.
pub record Pending : Type 0 where
  pub public : Bool
  pub generation : ℕ
  pub request_token : Option String
  pub authorization : Option String

-- What `fetch` resolves to. The text is `none` if reading it fails.
pub record Response : Type 0 where
  pub status : ℕ
  pub text : Option String

abbrev pub is_ok : ℕ → Bool
is_ok status = leb 200 status && leb status 299

pub data Outcome (D : Type 0) : Type 0 where
  blocked : Outcome D
  network_error : Outcome D
  stale : Outcome D
  http_error : ℕ → Outcome D
  unreadable : Outcome D
  malformed : Outcome D
  delivered : ℕ → Option D → Outcome D

abbrev pub same_token : Option String → Option String → Bool
same_token none none = true
same_token (some a) (some b) = a == b
same_token _ _ = false

-- The session is no longer the one that the request was sent under.
unfoldable pub has_changed : Pending → SessionState → Bool
has_changed p s = not (eqb s.generation p.generation) || not (same_token s.token p.request_token)

abbrev pub rejected_message : ℕ → String
rejected_message status =
    if eqb status 401
    then "The backend rejected this session."
    else "This session is not authorized for the requested operation."

unfoldable pub reject : ℕ → Page → Page
unfolding route_to_session_expired reset
reject status c =
    if eqb status 401 || eqb status 403
    then route_to_session_expired (reset (rejected_message status) c)
    else c

module _ (date_parse : String → Option ℕ) where
  -- `getAuthToken`
  unfoldable pub get_auth_token : ℕ → Page → Option String × Page
  unfolding route_to_session_expired reset
  get_auth_token now c =
      if is_authenticated c.status
        && truthy c.token
        && alive (expiry_of date_parse c.expires_at) now
      then (c.token, c)
      else if truthy c.token
      then (none, route_to_session_expired (reset expired_message c))
      else (none, c)

  -- The part of `reqWithStatus` before `fetch`: `none` if the request is blocked.
  unfoldable pub begin_request : ℕ → String → Page → Option Pending × Page
  unfolding route_to_session_expired reset is_public
  begin_request now path c =
      if is_public path
      then (
        some (record {
          public = true;
          generation = c.generation;
          request_token = c.token;
          authorization = none;
        }),
        c,
      )
      else if not (is_authenticated c.status)
          || not (truthy c.token)
          || lapsed (expiry_of date_parse c.expires_at) now
      then (none, route_to_session_expired (reset unavailable_message c))
      else (
        some (record {
          public = false;
          generation = c.generation;
          request_token = c.token;
          authorization = c.token;
        }),
        c,
      )

-- What follows the answer: an outcome, or the text is read, of an error or of the data.
pub data Next : Type 0 where
  ignores reads_error reads_data : Next

unfoldable pub on_response : Pending → List ℕ → ℕ → Page → Next × Page
unfolding has_changed reject
on_response p accepted status c =
    if not p.public && has_changed p c.session
    then (ignores, c)
    else if not (is_ok status) && not (any (λ s. eqb s status) accepted)
    then (reads_error, reject status c)
    else (reads_data, c)

module _ {D : Type 0} (json_parse : String → Option D) where
  -- `text ? JSON.parse(text) : undefined`
  unfoldable pub parse_text : ℕ → String → Outcome D
  parse_text status text =
      if text == ""
      then delivered status none
      else elim (json_parse text) [ none ↦ malformed | some d ↦ delivered status (some d) ]

  unfoldable pub on_text : Pending → ℕ → Option String → SessionState → Outcome D
  unfolding has_changed parse_text
  on_text p status none s = unreadable
  on_text p status (some text) s =
      if not p.public && has_changed p s then stale else parse_text status text

  -- The outcome once the text of the answer is there.
  unfoldable pub conclude : Next → Pending → Response → SessionState → Outcome D
  unfolding on_text
  conclude ignores p r s = stale
  conclude reads_error p r s = http_error r.status
  conclude reads_data p r s = on_text p r.status r.text s

  module _ (date_parse : String → Option ℕ) where
    -- From the answer of `fetch` on, with what other code does to the session while the text is
    -- read.
    unfoldable pub receive :
        Pending → List ℕ → Option Response → List SessionAction → Page → Outcome D × Page
    receive p accepted none meanwhile c = (network_error, c)
    receive p accepted (some r) meanwhile c =
        let (next, c') = on_response p accepted r.status c in
        let c'' = act_all date_parse meanwhile c' in (conclude next p r c''.session, c'')

    -- `reqWithStatus`, with what other code does to the session during its two awaits: `before`
    -- until `fetch` answers, and `meanwhile` until the text is there.
    unfoldable pub req_with_status :
        ℕ
        → String
        → List ℕ
        → Option Response
        → List SessionAction
        → List SessionAction
        → Page
        → Outcome D × Page
    req_with_status now path accepted r before meanwhile c =
        let (p, c') = begin_request date_parse now path c in
        elim p [
          | none ↦ (blocked, c')
          | some p ↦ receive p accepted r meanwhile (act_all date_parse before c')
        ]
