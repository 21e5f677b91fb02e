-- ===== src/Session/Invariant.antt =====
-- What holds of the session after any actions of store/sessionStore.ts.
use aiautomation.Common.{
  ℕ, ◌+◌, String, eq_iff, ◌==◌, ◌≡◌, refl, true, ◌||◌, if◌then◌else◌, not, Option, none, some, List,
  [], ◌∷◌, length, Bool-cases, inl, inr, arith, is_some,
}
use aiautomation.Session.{
  SessionStatus, authenticated, SessionState, Page, truthy, is_finite, expiry_of, acceptable,
  begin_bootstrap, fail_bootstrap, reset, set_session, session_is_current, SessionAction, begins,
  sets, fails, resets, act, act_all,
}
use aiautomation.Session.Http.{get_auth_token, route_to_session_expired, expired_message}

module _ (date_parse : String → Option ℕ) where
  generation-act :
      (x : SessionAction) (c : Page) → (act date_parse x c).generation ≡ c.generation + 1
  unfolding act begin_bootstrap set_session fail_bootstrap reset
  generation-act begins c = refl
  generation-act (sets token expires now) c = ground arith
  generation-act (fails message) c = refl
  generation-act (resets message) c = refl

  -- The generation counts the actions of the store: after any actions it is higher by their number.
  pub generation-act_all :
      (xs : List SessionAction) (c : Page)
      → (act_all date_parse xs c).generation ≡ c.generation + length xs
  unfolding act_all
  generation-act_all [] c = omega arith
  generation-act_all (x ∷ xs) c =
      omega (arith, generation-act_all xs (act date_parse x c), generation-act x c)

  -- An authenticated session has a token, and an expiry that is a date; any other has neither.
  abbrev pub ConsistentAs : SessionStatus → SessionState → Type 0
  ConsistentAs authenticated s =
      (truthy s.token ≡ true) × (is_finite (expiry_of date_parse s.expires_at) ≡ true)
  ConsistentAs _ s = (s.token ≡ none) × (s.expires_at ≡ none)

  abbrev pub IsConsistent : SessionState → Type 0
  IsConsistent s = ConsistentAs s.status s

  module _ (blank : date_parse "" ≡ none) where
    acceptable-live :
        (token expires : String) (now : ℕ)
        → acceptable date_parse token expires now ≡ true
        → (truthy (some token) ≡ true) × (is_finite (expiry_of date_parse (some expires)) ≡ true)
    acceptable-live token expires now h = elim (Bool-cases (expires == "")) [
      | inl e ↦
          let same : expires ≡ "" = (eq_iff expires "").0 e in
          let nan : date_parse expires ≡ none = rw same blank in absurd (ground arith)
      | inr e ↦ (ground arith, rw e (ground arith))
    ]

    act-IsConsistent : (x : SessionAction) (c : Page) → IsConsistent (act date_parse x c).session
    unfolding act begin_bootstrap set_session fail_bootstrap reset
    act-IsConsistent begins c = (refl, refl)
    act-IsConsistent (sets token expires now) c =
        elim (Bool-cases (acceptable date_parse token expires now)) [
          | inl e ↦ rw e (acceptable-live token expires now e)
          | inr e ↦ rw e (refl, refl)
        ]
    act-IsConsistent (fails message) c = (refl, refl)
    act-IsConsistent (resets message) c = (refl, refl)

    -- Any actions keep a session consistent: an authenticated one has a token and an expiry that is a
    -- date, any other has neither, given that `Date.parse` of the empty text is NaN.
    pub act_all-IsConsistent :
        (xs : List SessionAction) (c : Page)
        → IsConsistent c.session
        → IsConsistent (act_all date_parse xs c).session
    unfolding act_all
    act_all-IsConsistent [] c h = h
    act_all-IsConsistent (x ∷ xs) c h =
        act_all-IsConsistent xs (act date_parse x c) (act-IsConsistent x c)

  -- `getAuthToken` agrees with `sessionIsCurrent`: it gives a token, and leaves one, exactly when the
  -- session is current; then it changes nothing, and otherwise it ends a session that has a token.
  pub get_auth_token-session_is_current :
      (now : ℕ) (c : Page)
      → let current = session_is_current date_parse now c.session in
        let result = get_auth_token date_parse now c in
        (is_some result.0 ≡ current)
        × (truthy result.1.token ≡ current)
        × (result.1 ≡ (
            if current || not (truthy c.token)
            then c
            else route_to_session_expired (reset expired_message c)))
  unfolding get_auth_token session_is_current route_to_session_expired reset
  get_auth_token-session_is_current now c = (ground arith, ground arith, ground arith)
