-- ===== src/Session/Tests.antt =====
-- Runs of the session code: dates are texts of one or two digits, and JSON is any text but "x".
use aiautomation.Common.{
  ℕ, String, ◌==◌, ◌≡◌, refl, true, false, not, ◌||◌, Option, none, some, List, [], ◌∷◌, is_some,
  if◌then◌else◌,
}
use aiautomation.Session.{
  Page, SessionAction, begins, sets, resets, act_all, set_session, reset, session_is_current,
  authenticated, truthy, is_authenticated, lapsed, expiry_of,
}
use aiautomation.Session.Http.{
  req_with_status, receive, begin_request, delivered, blocked, is_public, get_auth_token,
  expired_message, route_to_session_expired, parse_text, on_text, has_changed, on_response,
  conclude,
}
use aiautomation.Session.Invariant.{
  IsConsistent, act_all-IsConsistent, get_auth_token-session_is_current,
}
use aiautomation.Session.Requests.{IsOver, req_with_status-delivered, req_with_status-blocked}
use aiautomation.Session.Bootstrap.{
  SessionBootstrapResponse, bootstrap_session, settle, callers, valid_response,
  bootstrap_session_shared, valid_response-session_is_current,
}

abbrev dates : String → Option ℕ
dates s = if s == "10" then some 10 else if s == "99" then some 99 else none

abbrev texts : String → Option String
texts s = if s == "x" then none else some s

abbrev signed_in : Page
signed_in = record {
  session = record {
    token = some "t";
    expires_at = some "99";
    generation = 2;
    status = authenticated;
    error = none;
  };
  path = "/";
  events = [];
  store_resets = 0;
}

abbrev lapsed_page : Page
lapsed_page = record signed_in { session = record (signed_in.session) { expires_at = some "10" } }

abbrev nothing : List SessionAction
nothing = []

abbrev actions : List SessionAction
actions = begins ∷ sets "t" "99" 20 ∷ resets "bye" ∷ begins ∷ sets "u" "10" 20 ∷ []

act_all-IsConsistent_example : IsConsistent dates (act_all dates actions signed_in).session
act_all-IsConsistent_example = act_all-IsConsistent dates refl actions signed_in (refl, refl)

get_auth_token-session_is_current_example :
    let current = session_is_current dates 20 lapsed_page.session in
    let result = get_auth_token dates 20 lapsed_page in
    (is_some result.0 ≡ current)
    × (truthy result.1.token ≡ current)
    × (result.1 ≡ (
        if current || not (truthy lapsed_page.token)
        then lapsed_page
        else route_to_session_expired (reset expired_message lapsed_page)))
get_auth_token-session_is_current_example = get_auth_token-session_is_current dates 20 lapsed_page

private_path : is_public "/api/bot" ≡ false
unfolding is_public
private_path = refl

bot_answer :
    (req_with_status texts dates 20 "/api/bot" []
      (some (record { status = 200; text = some "ok" }))
      []
      []
      signed_in).0
    ≡ delivered 200 (some "ok")
unfolding req_with_status begin_request receive is_public act_all on_response conclude on_text
    parse_text has_changed
bot_answer = refl

req_with_status-delivered_example :
    (is_authenticated signed_in.status ≡ true)
    × (truthy signed_in.token ≡ true)
    × (lapsed (expiry_of dates signed_in.expires_at) 20 ≡ false)
    × (nothing ≡ [])
    × (nothing ≡ [])
req_with_status-delivered_example =
    req_with_status-delivered texts dates 20 "/api/bot" []
      (some (record { status = 200; text = some "ok" })) nothing nothing signed_in private_path
      bot_answer

req_with_status-blocked_example :
    let result = req_with_status texts dates 20 "/api/bot" [] none [] [] lapsed_page in
    (result.0 ≡ blocked) × IsOver result.1
req_with_status-blocked_example =
    req_with_status-blocked texts dates 20 "/api/bot" [] none [] [] lapsed_page private_path refl

bot_sent : is_some (begin_request dates 20 "/api/bot" signed_in).0 ≡ true
unfolding begin_request is_public
bot_sent = refl

bootstrap_session_shared_example :
    let first = bootstrap_session (record { in_flight = none; sent = 4 }) in
    let later = bootstrap_session (callers 2 first.1) in
    (later.0 ≡ first.0) × (later.1.sent ≡ 5) × ((bootstrap_session (settle first.0 later.1)).0 ≡ 5)
bootstrap_session_shared_example =
    bootstrap_session_shared 2 (record { in_flight = none; sent = 4 }) refl

abbrev answer : SessionBootstrapResponse
answer = record {
  access_token = "t";
  token_type = "bearer";
  expires_at = "99";
  expires_in_seconds = 79;
}

answer_valid : valid_response dates answer 20 ≡ true
unfolding valid_response
answer_valid = refl

valid_response-session_is_current_example :
    session_is_current dates 21 (set_session dates "t" "99" 21 signed_in).session ≡ true
valid_response-session_is_current_example =
    valid_response-session_is_current dates answer 20 21 signed_in refl answer_valid refl
