-- ===== src/Signals/Sound.antt =====
-- utils/opportunitySignals.ts: what a signal says of its quote.
use aiautomation.Common.{
  ℕ, ◌+◌, ◌≤◌, String, ◌≡◌, refl, ◌⊎◌, Bool, true, false, Bool-cases, inl, inr, ◌&&◌, some,
  some_inj, none, length, length-take, leb, arith, subst, if◌then◌else◌,
}
use aiautomation.Market.{MarketQuote}
use aiautomation.Signals.{OpportunitySignal, buy_opportunity, sell_risk, neutral, Measures}
use aiautomation.Signals.Build.{
  Tally, award, no_points, change_of, buy_tally, sell_tally, sentiment_of, judge, is_unusable,
  build_opportunity_signal,
}

-- What comparison with constants satisfies.
pub record AreThresholds {N : Type 0} (m : Measures N) : Type 0 where
  pub falls : (x : N) → m.at_most x (m.minus 3) ≡ true → m.is_less x (m.of_count 0) ≡ true
  pub rises : (x : N) → m.at_most (m.of_count 4) x ≡ true → m.is_less (m.of_count 0) x ≡ true
  pub soars : (x : N) → m.at_most (m.of_count 8) x ≡ true → m.is_less (m.of_count 0) x ≡ true

-- The score of four awards.
abbrev four : Bool → Bool → Bool → Bool → ℕ → ℕ → ℕ → ℕ → ℕ
four a b c d i j k l =
    0 + (if a then i else 0) + (if b then j else 0) + (if c then k else 0) + (if d then l else 0)

score-award :
    (test : Bool) (points : ℕ) (reason : String) (t : Tally)
    → (award test points reason t).score ≡ t.score + (if test then points else 0)
unfolding award
score-award test points reason t = ground arith

module _ (a b c d : Bool) (i j k l : ℕ) (u v w x : String) where
  score_of_four :
      (award d l x (award c k w (award b j v (award a i u no_points)))).score ≡ four a b c d i j k l
  score_of_four = omega (
    arith,
    score-award d l x (award c k w (award b j v (award a i u no_points))),
    score-award c k w (award b j v (award a i u no_points)),
    score-award b j v (award a i u no_points),
    score-award a i u no_points,
  )

-- Fifty points are not the first and the third of the awards for a purchase.
buy_cause : (a b c d : Bool) → 50 ≤ four a b c d 35 25 14 18 → (b ≡ true) ⊎ (d ≡ true)
buy_cause a true c d h = inl refl
buy_cause a false c true h = inr refl
buy_cause true false true false h = absurd (omega arith)
buy_cause true false false false h = absurd (omega arith)
buy_cause false false true false h = absurd (omega arith)
buy_cause false false false false h = absurd (omega arith)

-- Nor are they the first award for a sale.
sell_cause :
    (a b c d : Bool) → 50 ≤ four a b c d 35 25 10 18 → (b ≡ true) ⊎ ((c ≡ true) ⊎ (d ≡ true))
sell_cause a true c d h = inl refl
sell_cause a false true d h = inr (inl refl)
sell_cause a false false true h = inr (inr refl)
sell_cause true false false false h = absurd (omega arith)
sell_cause false false false false h = absurd (omega arith)

and_right : (a b : Bool) → (a && b) ≡ true → b ≡ true
and_right true b h = h
and_right false b h = cc

module _ {N : Type 0} (m : Measures N) where
  -- What holds of the signal of a quote.
  abbrev pub IsSound : MarketQuote N → OpportunitySignal N → Type 0
  IsSound q s = elim s.kind [
    | buy_opportunity ↦
        (m.is_less (change_of m q) (m.of_count 0) ≡ true)
        × (50 ≤ s.confidence)
        × (s.confidence ≤ 99)
        × (length s.reasons ≤ 3)
    | sell_risk ↦
        (m.is_less (m.of_count 0) (change_of m q) ≡ true)
        × (50 ≤ s.confidence)
        × (s.confidence ≤ 99)
        × (length s.reasons ≤ 3)
    | neutral ↦ s.confidence ≤ 49
  ]

module _ {N : Type 0} (m : Measures N) (thresholds : AreThresholds m) where
  buy_tally-falling :
      (q : MarketQuote N)
      → 50 ≤ (buy_tally m q).score
      → m.is_less (change_of m q) (m.of_count 0) ≡ true
  unfolding buy_tally
  buy_tally-falling q h =
      elim (buy_cause _ _ _ _ (rw (score_of_four _ _ _ _ 35 25 14 18 _ _ _ _) at h)) [
        | inl e ↦ thresholds.falls (change_of m q) e
        | inr e ↦ and_right _ _ e
      ]

  sell_tally-rising :
      (q : MarketQuote N)
      → 50 ≤ (sell_tally m q).score
      → m.is_less (m.of_count 0) (change_of m q) ≡ true
  unfolding sell_tally
  sell_tally-rising q h =
      elim (sell_cause _ _ _ _ (rw (score_of_four _ _ _ _ 35 25 10 18 _ _ _ _) at h)) [
        | inl e ↦ thresholds.rises (change_of m q) e
        | inr (inl e) ↦ thresholds.soars (change_of m q) e
        | inr (inr e) ↦ and_right _ _ e
      ]

  judge-IsSound :
      (q : MarketQuote N) (sentiment : N) (buy sell : Tally)
      → (50 ≤ buy.score → m.is_less (change_of m q) (m.of_count 0) ≡ true)
      → (50 ≤ sell.score → m.is_less (m.of_count 0) (change_of m q) ≡ true)
      → IsSound m q (judge q.symbol sentiment buy sell)
  unfolding judge
  judge-IsSound q sentiment buy sell hb hs =
      elim (Bool-cases (leb 50 buy.score && leb (sell.score + 12) buy.score)) [
        | inl e ↦
            rw (e, judge)
              (
                hb (ground arith),
                ground arith,
                omega arith,
                omega (arith, length-take 3 buy.reasons),
              )
        | inr e ↦ elim (Bool-cases (leb 50 sell.score && leb (buy.score + 12) sell.score)) [
          | inl f ↦
              rw (e, f, judge)
                (
                  hs (ground arith),
                  ground arith,
                  omega arith,
                  omega (arith, length-take 3 sell.reasons),
                )
          | inr f ↦ rw (e, f, judge) (omega arith)
        ]
      ]

  -- A buying opportunity is of a quote that falls and a selling risk of one that rises, with a
  -- confidence from 50 to 99 and at most three reasons; any other signal has a confidence below 50.
  pub build_opportunity_signal-IsSound :
      (q : MarketQuote N) {s : OpportunitySignal N}
      → build_opportunity_signal m q ≡ some s
      → IsSound m q s
  unfolding build_opportunity_signal
  build_opportunity_signal-IsSound q h = elim (Bool-cases (is_unusable m q)) [
    | inl e ↦ let clash : none ≡ some _ = rw (e, build_opportunity_signal) at h in cc
    | inr e ↦ subst (IsSound m q) (some_inj (rw (e, build_opportunity_signal) at h)) (
        judge-IsSound q (sentiment_of m q) (buy_tally m q) (sell_tally m q) (buy_tally-falling q)
          (sell_tally-rising q))
  ]
