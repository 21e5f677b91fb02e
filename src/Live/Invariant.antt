-- ===== src/Live/Invariant.antt =====
-- hooks/useWebSocket.ts: the invariant of the stores, and the single handlers.
use aiautomation.Common.{
  ℕ, ◌≤◌, String, ◌≡◌, refl, Bool, true, false, Bool-cases, inl, inr, Option, none, some, subst,
  sym, ◌∙◌, List, [], ◌∷◌, ◌++◌, All, length, length-take, length-take_last, filter-All, arith,
  if◌then◌else◌,
}
use aiautomation.Activity.{push_fired, ActivityEvent}
use aiautomation.Activity.Feeds.{IsFeed, push_activity-IsFeed}
use aiautomation.Market.{Num}
use aiautomation.Market.Bars.{IsSeries, apply_live_quote-IsSeries}
use aiautomation.Live.{Value, undefined, null_, bool, number, text, object, array, Fields, Js}
use aiautomation.Live.Guards.{
  get, is_position_like, is_account_like, elements, parse_positions, parse_account,
  parse_positions_update,
}
use aiautomation.Live.Stores.{AccountState, push, push_replay_bar}
use aiautomation.Live.Handlers.{
  Request, with_positions, with_account, Dashboard, on_replay_bar, on_bar, on_positions_update,
  on_alert_fired,
}
use aiautomation.Live.Run.{trades_came, positions_came, account_came, failed, Step, event, answer}

module _ {N : Type 0} (js : Js N) where
  abbrev pub ArePositions : List (Value N) → Type 0
  ArePositions ps = All (λ p. is_position_like js p ≡ true) ps

  abbrev pub IsAccount : Option (Value N) → Type 0
  IsAccount none = Unit
  IsAccount (some a) = is_account_like js a ≡ true

  -- The backend answers with positions and accounts; what an event holds is not trusted.
  abbrev pub IsExpected : Step N → Type 0
  IsExpected (event type_ ev) = Unit
  IsExpected (answer (trades_came t)) = Unit
  IsExpected (answer (positions_came p)) = ArePositions p
  IsExpected (answer (account_came a)) = IsAccount a
  IsExpected (answer (failed r)) = Unit

module _ {N R : Type 0} (js : Js N) (time_of : String → ℕ) where
  -- The bounds and the shapes of what the stores hold.
  pub record IsLive (d : Dashboard N R) : Type 0 where
    pub feed : IsFeed time_of d.account.activity_feed
    pub replayed : length d.sim.replay_bars ≤ 1000
    pub fired : length d.alerts.recent_fired ≤ 20
    pub charted : All (λ e. IsSeries e.1) d.market.bars
    pub compared : All (λ e. IsSeries e.1) d.market.comp_bars
    pub positions : ArePositions js d.account.positions
    pub account : IsAccount js d.account.account

module _ {N : Type 0} (js : Js N) where
  abbrev AreParsed : Option (List (Value N)) → Type 0
  AreParsed none = Unit
  AreParsed (some ps) = ArePositions js ps

  AreParsed-parse_positions : (v : Value N) → AreParsed (parse_positions js v)
  unfolding parse_positions
  AreParsed-parse_positions (array vs) =
      filter-All (λ p. is_position_like js p ≡ true) (is_position_like js) (elements vs) (λ p h. h)
  AreParsed-parse_positions undefined = tt
  AreParsed-parse_positions null_ = tt
  AreParsed-parse_positions (bool b) = tt
  AreParsed-parse_positions (number x) = tt
  AreParsed-parse_positions (text t) = tt
  AreParsed-parse_positions (object o) = tt

  IsAccount-parse_account : (v : Value N) → IsAccount js (parse_account js v)
  unfolding parse_account
  IsAccount-parse_account v = elim (Bool-cases (is_account_like js v)) [
    | inl e ↦ rw (e, parse_account) e
    | inr e ↦ rw (e, parse_account) tt
  ]

  with_positions-ArePositions :
      (o : Option (List (Value N))) (s : AccountState N)
      → AreParsed o
      → ArePositions js s.positions
      → ArePositions js (with_positions o s).positions
  with_positions-ArePositions none s k h = h
  with_positions-ArePositions (some ps) s k h = k

  with_account-IsAccount :
      (o : Option (Value N)) (s : AccountState N)
      → IsAccount js o
      → IsAccount js s.account
      → IsAccount js (with_account o s).account
  with_account-IsAccount none s k h = h
  with_account-IsAccount (some a) s k h = k

module _ {N : Type 0} where
  with_positions_account :
      (o : Option (List (Value N))) (s : AccountState N)
      → ((with_positions o s).account ≡ s.account)
        × ((with_positions o s).activity_feed ≡ s.activity_feed)
  with_positions_account none s = (refl, refl)
  with_positions_account (some ps) s = (refl, refl)

  with_account_positions :
      (o : Option (Value N)) (s : AccountState N)
      → ((with_account o s).positions ≡ s.positions)
        × ((with_account o s).activity_feed ≡ s.activity_feed)
  with_account_positions none s = (refl, refl)
  with_account_positions (some a) s = (refl, refl)

module _ {N R : Type 0} (js : Js N) (num : Num N) (one : N) (time_of : String → ℕ) where
  -- An event for the activity feed.
  pub pushed-IsLive :
      (e : ActivityEvent N) (d : Dashboard N R) (asked : List Request)
      → IsLive js time_of d
      → IsLive js time_of (record d { account = push time_of e d.account; requests = asked })
  pushed-IsLive e d asked h = record {
    feed = push_activity-IsFeed time_of e d.account.activity_feed h.feed;
    replayed = h.replayed;
    fired = h.fired;
    charted = h.charted;
    compared = h.compared;
    positions = h.positions;
    account = h.account;
  }

  pub on_replay_bar-IsLive :
      (ev : Fields N) (d : Dashboard N R)
      → IsLive js time_of d
      → IsLive js time_of (on_replay_bar js ev d)
  unfolding on_replay_bar push_replay_bar
  on_replay_bar-IsLive ev d h = record {
    feed = h.feed;
    replayed = omega (arith, length-take_last 1000 (d.sim.replay_bars ++ _ ∷ []));
    fired = h.fired;
    charted = h.charted;
    compared = h.compared;
    positions = h.positions;
    account = h.account;
  }

  pub either-IsLive :
      (test : Bool) (d e : Dashboard N R)
      → IsLive js time_of d
      → IsLive js time_of e
      → IsLive js time_of (if test then d else e)
  either-IsLive true d e h k = h
  either-IsLive false d e h k = k

  pub on_bar-IsLive :
      (iso : ℕ → String) (now : ℕ) (ev : Fields N) (d : Dashboard N R)
      → IsLive js time_of d
      → IsLive js time_of (on_bar js num iso now ev d)
  unfolding on_bar
  on_bar-IsLive iso now ev d h = either-IsLive _ d _ h (record {
    feed = h.feed;
    replayed = h.replayed;
    fired = h.fired;
    charted = (apply_live_quote-IsSeries num iso now _ _ _ _ _ _ _ d.market h.charted h.compared).0;
    compared =
        (apply_live_quote-IsSeries num iso now _ _ _ _ _ _ _ d.market h.charted h.compared).1;
    positions = h.positions;
    account = h.account;
  })

  pub on_positions_update-IsLive :
      (ev : Fields N) (d : Dashboard N R)
      → IsLive js time_of d
      → IsLive js time_of (on_positions_update js ev d)
  unfolding on_positions_update parse_positions_update
  on_positions_update-IsLive ev d h =
      let ps = parse_positions js (get "positions" ev) in
      let a = parse_account js (get "account" ev) in
      let before = with_positions_account ps d.account in
      let after = with_account_positions a (with_positions ps d.account) in
      record {
        feed = subst (IsFeed time_of) (sym (after.1 ∙ before.1)) h.feed;
        replayed = h.replayed;
        fired = h.fired;
        charted = h.charted;
        compared = h.compared;
        positions = subst (ArePositions js) (sym after.0) (
            with_positions-ArePositions js ps d.account
              (AreParsed-parse_positions js (get "positions" ev)) h.positions);
        account =
            with_account-IsAccount js a (with_positions ps d.account)
              (IsAccount-parse_account js (get "account" ev))
              (subst (IsAccount js) (sym before.0) h.account);
      }

  pub on_alert_fired-IsLive :
      (ev : Fields N) (d : Dashboard N R)
      → IsLive js time_of d
      → IsLive js time_of (on_alert_fired js ev d)
  unfolding on_alert_fired push_fired
  on_alert_fired-IsLive ev d h = record {
    feed = h.feed;
    replayed = h.replayed;
    fired = omega (arith, length-take 20 (js.as_fired ev ∷ d.alerts.recent_fired));
    charted = h.charted;
    compared = h.compared;
    positions = h.positions;
    account = h.account;
  }
