-- ===== src/Session/Bootstrap.antt =====
-- services/api/session.ts: the check of the bootstrap answer, and the request that concurrent
-- callers share. How the launch token is taken from the page is not modelled.
use aiautomation.Common.{
  ℕ, zero, suc, ◌+◌, String, eq_iff, ◌==◌, ◌≡◌, refl, ap, ◌∙◌, Bool, true, false, not, ◌||◌, Option,
  none, some, leb, eqb, if◌then◌else◌, arith, Bool-cases, inl, inr,
}
use aiautomation.Session.{Page, is_finite, lapsed, set_session, session_is_current}

-- A number of seconds that is not above zero is 0.
pub record SessionBootstrapResponse : Type 0 where
  pub access_token : String
  pub token_type : String
  pub expires_at : String
  pub expires_in_seconds : ℕ

-- The requests that were sent, and the one that callers share, each by its number.
pub record Bootstrapper : Type 0 where
  pub in_flight : Option ℕ
  pub sent : ℕ

-- `bootstrapSession`: the request that the caller gets.
unfoldable pub bootstrap_session : Bootstrapper → ℕ × Bootstrapper
bootstrap_session b = elim b.in_flight [
  | some r ↦ (r, b)
  | none ↦ (b.sent, record { in_flight = some b.sent; sent = b.sent + 1 })
]

-- The `finally` of a request.
unfoldable pub settle : ℕ → Bootstrapper → Bootstrapper
settle r b = elim b.in_flight [
  | none ↦ b
  | some s ↦ if eqb s r then record b { in_flight = none } else b
]

-- `n` more callers before any request has settled.
unfoldable pub callers : ℕ → Bootstrapper → Bootstrapper
callers zero b = b
callers (suc n) b = callers n (bootstrap_session b).1

bootstrap_session-some :
    (r : ℕ) (b : Bootstrapper) → b.in_flight ≡ some r → bootstrap_session b ≡ (r, b)
unfolding bootstrap_session
bootstrap_session-some r b h = ground arith

bootstrap_session-none :
    (b : Bootstrapper)
    → b.in_flight ≡ none
    → bootstrap_session b ≡ (b.sent, record { in_flight = some b.sent; sent = b.sent + 1 })
unfolding bootstrap_session
bootstrap_session-none b h = ground arith

callers-some : (n r : ℕ) (b : Bootstrapper) → b.in_flight ≡ some r → callers n b ≡ b
unfolding callers
callers-some zero r b h = refl
callers-some (suc n) r b h =
    ap (λ x. callers n x.1) (bootstrap_session-some r b h) ∙ callers-some n r b h

-- Callers that come before the request has settled share it: however many come first, the next one
-- gets the request of the first, and one request was sent. After it has settled a caller gets a new
-- request.
pub bootstrap_session_shared :
    (n : ℕ) (b : Bootstrapper)
    → b.in_flight ≡ none
    → let first = bootstrap_session b in
      let later = bootstrap_session (callers n first.1) in
      (later.0 ≡ first.0)
      × (later.1.sent ≡ b.sent + 1)
      × ((bootstrap_session (settle first.0 later.1)).0 ≡ b.sent + 1)
unfolding settle
bootstrap_session_shared n b h =
    let b1 : Bootstrapper = record { in_flight = some b.sent; sent = b.sent + 1 } in
    let idle : Bootstrapper = record { in_flight = none; sent = b.sent + 1 } in
    ground (
      arith,
      bootstrap_session-none b h,
      callers-some n b.sent b1 refl,
      bootstrap_session-some b.sent b1 refl,
      bootstrap_session-none idle refl,
    )

module _ (date_parse : String → Option ℕ) where
  -- The test of `requestBootstrap` at the time `now`.
  unfoldable pub valid_response : SessionBootstrapResponse → ℕ → Bool
  valid_response r now = not (
      r.access_token == ""
      || not (r.token_type == "bearer")
      || not (is_finite (date_parse r.expires_at))
      || lapsed (date_parse r.expires_at) now
      || leb r.expires_in_seconds 0)

  -- A bootstrap answer that passed its test makes a current session, if it has not expired by the
  -- time it is installed. `Date.parse` of the empty text is NaN.
  pub valid_response-session_is_current :
      (r : SessionBootstrapResponse) (now later : ℕ) (c : Page)
      → date_parse "" ≡ none
      → valid_response r now ≡ true
      → lapsed (date_parse r.expires_at) later ≡ false
      → session_is_current date_parse later
          (set_session date_parse r.access_token r.expires_at later c).session
        ≡ true
  unfolding valid_response session_is_current set_session
  valid_response-session_is_current r now later c blank h alive_ =
      elim (Bool-cases (r.expires_at == "")) [
        | inl e ↦
            let same : r.expires_at ≡ "" = (eq_iff r.expires_at "").0 e in
            let nan : date_parse r.expires_at ≡ none = rw same blank in absurd (ground arith)
        | inr e ↦ ground arith
      ]
