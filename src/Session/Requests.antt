-- ===== src/Session/Requests.antt =====
-- What services/api/client.ts promises of a request while the session may change under it.
use aiautomation.Common.{
  ℕ, ◌<◌, String, eq_iff, eq_refl, ◌≡◌, refl, ap, ◌⊎◌, true, false, not, ◌&&◌, Option, none, some,
  List, [], ◌∷◌, length, any, eqb, Option-cases, inl, inr, arith, is_some,
}
use aiautomation.Session.{
  expired, SessionState, Page, truthy, is_authenticated, lapsed, expiry_of, reset, SessionAction,
  act_all,
}
use aiautomation.Session.Http.{
  Pending, Response, blocked, delivered, http_error, Next, ignores, reads_error, reads_data,
  is_public, has_changed, begin_request, on_response, on_text, conclude, receive, req_with_status,
  route_to_session_expired, reject, session_expired_path, same_token, unavailable_message,
  rejected_message,
}
use aiautomation.Session.Invariant.{generation-act_all}

has_changed_of_generation :
    (p : Pending) (s : SessionState) → p.generation < s.generation → has_changed p s ≡ true
unfolding has_changed
has_changed_of_generation p s h = ground arith

same_token_self : (o : Option String) → same_token o o ≡ true
same_token_self none = refl
same_token_self (some a) = eq_refl a

-- The session is over, and the page shows it.
abbrev pub IsOver : Page → Type 0
IsOver c = (c.status ≡ expired) × (c.token ≡ none) × (c.path ≡ session_expired_path)

route-reset-IsOver :
    (message : String) (c : Page) → IsOver (route_to_session_expired (reset message c))
unfolding route_to_session_expired reset
route-reset-IsOver message c =
    (ground arith, ground arith, ground (arith, eq_iff c.path session_expired_path))

module _ {D : Type 0} (json_parse : String → Option D) (date_parse : String → Option ℕ) where
  on_text-stale :
      (p : Pending) (status : ℕ) (text : Option String) (s : SessionState) {n : ℕ} {d : Option D}
      → p.public ≡ false
      → on_text json_parse p status text s ≡ delivered n d
      → has_changed p s ≡ false
  unfolding on_text
  on_text-stale p status none s e h = cc
  on_text-stale p status (some text) s e h = ground arith

  conclude-delivered :
      (next : Next) (p : Pending) (r : Response) (s : SessionState) {n : ℕ} {d : Option D}
      → conclude json_parse next p r s ≡ delivered n d
      → (next ≡ reads_data) × (on_text json_parse p r.status r.text s ≡ delivered n d)
  unfolding conclude
  conclude-delivered ignores p r s h = cc
  conclude-delivered reads_error p r s h = cc
  conclude-delivered reads_data p r s h = (refl, h)

  on_response-reads_data :
      (p : Pending) (accepted : List ℕ) (status : ℕ) (c : Page)
      → p.public ≡ false
      → (on_response p accepted status c).0 ≡ reads_data
      → (has_changed p c.session ≡ false) × ((on_response p accepted status c).1 ≡ c)
  unfolding on_response
  on_response-reads_data p accepted status c e h = (ground arith, ground arith)

  begin_request-sent :
      (now : ℕ) (path : String) (c : Page) {p : Pending}
      → is_public path ≡ false
      → (begin_request date_parse now path c).0 ≡ some p
      → (p.public ≡ false)
        × (p.generation ≡ c.generation)
        × (p.authorization ≡ c.token)
        × (is_authenticated c.status ≡ true)
        × (truthy c.token ≡ true)
        × (lapsed (expiry_of date_parse c.expires_at) now ≡ false)
        × ((begin_request date_parse now path c).1 ≡ c)
  unfolding begin_request
  begin_request-sent now path c {p} e h = (
    ground arith,
    ground arith,
    ground arith,
    ground arith,
    ground arith,
    ground arith,
    ground arith,
  )

  begin_request-blocked :
      (now : ℕ) (path : String) (c : Page)
      → is_public path ≡ false
      → (is_authenticated c.status
          && truthy c.token
          && not (lapsed (expiry_of date_parse c.expires_at) now))
        ≡ false
      → begin_request date_parse now path c
        ≡ (none, route_to_session_expired (reset unavailable_message c))
  unfolding begin_request
  begin_request-blocked now path c e h = ground arith

  begin_request-unchanged :
      (now : ℕ) (path : String) (c : Page) {p : Pending}
      → (begin_request date_parse now path c).0 ≡ some p
      → (has_changed p c.session ≡ false) × ((begin_request date_parse now path c).1 ≡ c)
  unfolding begin_request has_changed
  begin_request-unchanged now path c {p} h = (ground (arith, same_token_self c.token), ground arith)

  on_response-unauthorized :
      (p : Pending) (accepted : List ℕ) (status : ℕ) (c : Page)
      → (status ≡ 401) ⊎ (status ≡ 403)
      → any (λ s. eqb s status) accepted ≡ false
      → has_changed p c.session ≡ false
      → on_response p accepted status c
        ≡ (reads_error, route_to_session_expired (reset (rejected_message status) c))
  unfolding on_response reject
  on_response-unauthorized p accepted status c (inl e) a u = ground arith
  on_response-unauthorized p accepted status c (inr e) a u = ground arith

  unchanged :
      (p : Pending) (xs : List SessionAction) (c : Page)
      → p.generation ≡ c.generation
      → has_changed p (act_all date_parse xs c).session ≡ false
      → xs ≡ []
  unchanged p [] c e h = refl
  unchanged p (x ∷ xs) c e h =
      let moved : has_changed p (act_all date_parse (x ∷ xs) c).session ≡ true =
        has_changed_of_generation p _ (omega (arith, generation-act_all date_parse (x ∷ xs) c)) in
      cc

  receive-delivered :
      (p : Pending) (accepted : List ℕ) (r : Option Response)
      (before meanwhile : List SessionAction) (c : Page) {n : ℕ} {d : Option D}
      → p.public ≡ false
      → p.generation ≡ c.generation
      → (receive json_parse date_parse p accepted r meanwhile (act_all date_parse before c)).0
        ≡ delivered n d
      → (before ≡ []) × (meanwhile ≡ [])
  unfolding receive
  receive-delivered p accepted none before meanwhile c pub_ same h = cc
  receive-delivered p accepted (some r) before meanwhile c pub_ same h =
      let c' = act_all date_parse before c in
      let got = conclude-delivered (on_response p accepted r.status c').0 p r _ h in
      let seen = on_response-reads_data p accepted r.status c' pub_ got.0 in
      let quiet : before ≡ [] = unchanged p before c same seen.0 in
      let still : p.generation ≡ (on_response p accepted r.status c').1.generation = omega (
        arith,
        generation-act_all date_parse before c,
        ap length quiet,
        ap (λ x. x.generation) seen.1,
        same,
      ) in
      (quiet, unchanged p meanwhile _ still (on_text-stale p r.status r.text _ pub_ got.1))

  -- A request to a protected path gives data only if it was sent under an authenticated session with
  -- a token that had not lapsed, and if no action of the session store ran until the data was there.
  pub req_with_status-delivered :
      (now : ℕ) (path : String) (accepted : List ℕ) (r : Option Response)
      (before meanwhile : List SessionAction) (c : Page) {n : ℕ} {d : Option D}
      → is_public path ≡ false
      → (req_with_status json_parse date_parse now path accepted r before meanwhile c).0
        ≡ delivered n d
      → (is_authenticated c.status ≡ true)
        × (truthy c.token ≡ true)
        × (lapsed (expiry_of date_parse c.expires_at) now ≡ false)
        × (before ≡ [])
        × (meanwhile ≡ [])
  unfolding req_with_status
  req_with_status-delivered now path accepted r before meanwhile c e h =
      elim (Option-cases (begin_request date_parse now path c).0) [
        | inl b ↦ absurd (cc (rw (b, req_with_status) at h))
        | inr (p, b) ↦
            let sent = begin_request-sent now path c e b in
            let got =
              receive-delivered p accepted r before meanwhile c sent.0 sent.1
                (rw (b, req_with_status, sent.6) at h) in
            (sent.3, sent.4, sent.5, got.0, got.1)
      ]

  -- A request to a protected path that the session does not allow never reaches `fetch`: it is
  -- blocked, the session is expired and has no token, and the page shows that.
  pub req_with_status-blocked :
      (now : ℕ) (path : String) (accepted : List ℕ) (r : Option Response)
      (before meanwhile : List SessionAction) (c : Page)
      → is_public path ≡ false
      → (is_authenticated c.status
          && truthy c.token
          && not (lapsed (expiry_of date_parse c.expires_at) now))
        ≡ false
      → let result = req_with_status json_parse date_parse now path accepted r before meanwhile c in
        (result.0 ≡ blocked) × IsOver result.1
  unfolding req_with_status
  req_with_status-blocked now path accepted r before meanwhile c e h =
      let out = begin_request-blocked now path c e h in
      rw (ap (λ x. x.0) out, req_with_status, out) (refl, route-reset-IsOver unavailable_message c)

  -- A 401 or 403 that the caller does not accept ends the session that sent the request, whatever
  -- the path, and the page shows that; the caller gets the status as an error.
  pub req_with_status-unauthorized :
      (now : ℕ) (path : String) (accepted : List ℕ) (status : ℕ) (text : Option String) (c : Page)
      → (status ≡ 401) ⊎ (status ≡ 403)
      → any (λ s. eqb s status) accepted ≡ false
      → is_some (begin_request date_parse now path c).0 ≡ true
      → let result =
          req_with_status json_parse date_parse now path accepted
            (some (record { status = status; text = text }))
            []
            []
            c in
        (result.0 ≡ http_error status) × IsOver result.1
  unfolding req_with_status receive act_all conclude
  req_with_status-unauthorized now path accepted status text c h a b =
      elim (Option-cases (begin_request date_parse now path c).0) [
        | inl e ↦ absurd (cc (rw e at b))
        | inr (p, e) ↦
            let (same, back) = begin_request-unchanged now path c e in
            rw (e, req_with_status, back, on_response-unauthorized p accepted status c h a same)
              (refl, route-reset-IsOver (rejected_message status) c)
      ]
