-- ===== src/Signals/Rank.antt =====
-- utils/opportunitySignals.ts: rankOpportunitySignals.
use mathlib.Core.List.{Memᴰ}
use mathlib.Core.List.Memᴰ
use aiautomation.Common.{
  ◌+◌, ◌≤◌, ◌≡◌, refl, sym, subst, ◌⊎◌, inl, inr, true, false, not, Bool-cases, none, some, List,
  [], ◌∷◌, All, All-imp, filter, length, leb, leb→le, arith, if◌then◌else◌,
}
use aiautomation.Market.{MarketQuote}
use aiautomation.Signals.{OpportunitySignal, Measures}
use aiautomation.Signals.Build.{
  is_unusable, sentiment_of, buy_tally, sell_tally, judge, build_opportunity_signal,
}

module _ {N : Type 0} (m : Measures N) where
  -- `.map(buildOpportunitySignal).filter((signal) => signal != null)`
  unfoldable pub signals_of : List (MarketQuote N) → List (OpportunitySignal N)
  unfolding build_opportunity_signal
  signals_of [] = []
  signals_of (q ∷ qs) =
      let rest = signals_of qs in
      elim (build_opportunity_signal m q) [ none ↦ rest | some s ↦ s ∷ rest ]

module _ {N : Type 0} where
  -- `.sort((a, b) => b.score - a.score)`, which keeps the order of equal scores
  unfoldable pub insert_signal :
      OpportunitySignal N → List (OpportunitySignal N) → List (OpportunitySignal N)
  insert_signal s [] = s ∷ []
  insert_signal s (t ∷ ts) =
      let rest = insert_signal s ts in if leb t.score s.score then s ∷ t ∷ ts else t ∷ rest

  unfoldable pub sort_signals : List (OpportunitySignal N) → List (OpportunitySignal N)
  unfolding insert_signal
  sort_signals [] = []
  sort_signals (s ∷ ss) = insert_signal s (sort_signals ss)

module _ {N : Type 0} (m : Measures N) where
  unfoldable pub rank_opportunity_signals : List (MarketQuote N) → List (OpportunitySignal N)
  unfolding signals_of sort_signals
  rank_opportunity_signals quotes = sort_signals (signals_of m quotes)

module _ {N : Type 0} where
  -- Each score is at least those behind it.
  abbrev pub IsDescending : List (OpportunitySignal N) → Type 0
  IsDescending [] = Unit
  IsDescending (s ∷ ss) = All (λ t. t.score ≤ s.score) ss × IsDescending ss

  Memᴰ-insert_signal :
      (t s : OpportunitySignal N) (ss : List (OpportunitySignal N))
      → Memᴰ t (s ∷ ss)
      → Memᴰ t (insert_signal s ss)
  unfolding insert_signal
  Memᴰ-insert_signal t s [] h = h
  Memᴰ-insert_signal t s (u ∷ us) h = elim (Bool-cases (leb u.score s.score)) [
    | inl e ↦ rw (e, insert_signal) h
    | inr e ↦ elim (Memᴰ.cases_cons h) [
      | inl q ↦ rw (e, insert_signal) (Memᴰ.tail (Memᴰ-insert_signal t s us (Memᴰ.head q)))
      | inr k ↦ elim (Memᴰ.cases_cons k) [
        | inl q ↦ rw (e, insert_signal) (Memᴰ.head q)
        | inr i ↦ rw (e, insert_signal) (Memᴰ.tail (Memᴰ-insert_signal t s us (Memᴰ.tail i)))
      ]
    ]
  ]

  length-insert_signal :
      (s : OpportunitySignal N) (ss : List (OpportunitySignal N))
      → length (insert_signal s ss) ≡ length ss + 1
  unfolding insert_signal
  length-insert_signal s [] = omega arith
  length-insert_signal s (t ∷ ts) = ground (arith, length-insert_signal s ts)

  module _ {κ} (P : OpportunitySignal N → Type κ) where
    All-insert_signal :
        (s : OpportunitySignal N) (ss : List (OpportunitySignal N))
        → P s
        → All P ss
        → All P (insert_signal s ss)
    unfolding insert_signal
    All-insert_signal s [] p h = (p, tt)
    All-insert_signal s (t ∷ ts) p h = elim (Bool-cases (leb t.score s.score)) [
      | inl e ↦ rw e (p, h)
      | inr e ↦ rw e (h.0, All-insert_signal s ts p h.1)
    ]

  insert_signal-IsDescending :
      (s : OpportunitySignal N) (ss : List (OpportunitySignal N))
      → IsDescending ss
      → IsDescending (insert_signal s ss)
  unfolding insert_signal
  insert_signal-IsDescending s [] h = (tt, tt)
  insert_signal-IsDescending s (t ∷ ts) h = elim (Bool-cases (leb t.score s.score)) [
    | inl e ↦
        let first : t.score ≤ s.score = leb→le _ _ e in
        rw e ((first, All-imp ts (λ u k. omega arith) h.0), h)
    | inr e ↦ rw e (
      All-insert_signal (λ u. u.score ≤ t.score) s ts (ground arith) h.0,
      insert_signal-IsDescending s ts h.1,
    )
  ]

  sort_signals-IsDescending : (ss : List (OpportunitySignal N)) → IsDescending (sort_signals ss)
  unfolding sort_signals
  sort_signals-IsDescending [] = tt
  sort_signals-IsDescending (s ∷ ss) =
      insert_signal-IsDescending s (sort_signals ss) (sort_signals-IsDescending ss)

module _ {N : Type 0} (m : Measures N) where
  -- A quote cannot be used, or its signal is among those of a ranking.
  abbrev pub IsRanked : List (OpportunitySignal N) → MarketQuote N → Type 0
  IsRanked ss q =
      (is_unusable m q ≡ true)
      ⊎ ((s : OpportunitySignal N) × (build_opportunity_signal m q ≡ some s) × Memᴰ s ss)

  -- A signal is that of one of the quotes.
  abbrev pub IsBuilt : List (MarketQuote N) → OpportunitySignal N → Type 0
  IsBuilt quotes s = (q : MarketQuote N) × Memᴰ q quotes × (build_opportunity_signal m q ≡ some s)

  build_opportunity_signal-cases :
      (q : MarketQuote N)
      → ((is_unusable m q ≡ true) × (build_opportunity_signal m q ≡ none))
        ⊎ ((is_unusable m q ≡ false)
            × (s : OpportunitySignal N) × (build_opportunity_signal m q ≡ some s))
  unfolding build_opportunity_signal
  build_opportunity_signal-cases q = elim (Bool-cases (is_unusable m q)) [
    | inl e ↦ inl (e, rw e refl)
    | inr e ↦ inr (e, judge q.symbol (sentiment_of m q) (buy_tally m q) (sell_tally m q), rw e refl)
  ]

  -- A ranking from the quotes' first one on.
  rank_opportunity_signals-none :
      (q : MarketQuote N) (qs : List (MarketQuote N))
      → build_opportunity_signal m q ≡ none
      → rank_opportunity_signals m (q ∷ qs) ≡ rank_opportunity_signals m qs
  unfolding rank_opportunity_signals signals_of
  rank_opportunity_signals-none q qs e = rw (e, signals_of) refl

  rank_opportunity_signals-some :
      (q : MarketQuote N) (qs : List (MarketQuote N)) (s : OpportunitySignal N)
      → build_opportunity_signal m q ≡ some s
      → rank_opportunity_signals m (q ∷ qs) ≡ insert_signal s (rank_opportunity_signals m qs)
  unfolding rank_opportunity_signals signals_of sort_signals
  rank_opportunity_signals-some q qs s e = rw (e, signals_of) refl

  IsRanked-insert_signal :
      (s : OpportunitySignal N) (ss : List (OpportunitySignal N)) (q : MarketQuote N)
      → IsRanked ss q
      → IsRanked (insert_signal s ss) q
  IsRanked-insert_signal s ss q (inl e) = inl e
  IsRanked-insert_signal s ss q (inr (t, e, i)) =
      inr (t, e, Memᴰ-insert_signal t s ss (Memᴰ.tail i))

  IsBuilt-cons :
      (q : MarketQuote N) (qs : List (MarketQuote N)) (s : OpportunitySignal N)
      → IsBuilt qs s
      → IsBuilt (q ∷ qs) s
  IsBuilt-cons q qs s (p, i, e) = (p, Memᴰ.tail i, e)

  -- A ranking of the quotes: each usable quote's signal, and nothing else.
  abbrev pub IsRankingOf : List (MarketQuote N) → List (OpportunitySignal N) → Type 0
  IsRankingOf quotes ss =
      IsDescending ss
      × All (IsRanked ss) quotes
      × All (IsBuilt quotes) ss
      × (length ss ≡ length (filter (λ q. not (is_unusable m q)) quotes))

  IsRankingOf-insert_signal :
      (q : MarketQuote N) (qs : List (MarketQuote N)) (s : OpportunitySignal N)
      (ss : List (OpportunitySignal N))
      → is_unusable m q ≡ false
      → build_opportunity_signal m q ≡ some s
      → IsRankingOf qs ss
      → IsRankingOf (q ∷ qs) (insert_signal s ss)
  IsRankingOf-insert_signal q qs s ss u e (down, ranked, built, count) = (
    insert_signal-IsDescending s ss down,
    (
      inr (s, e, Memᴰ-insert_signal s s ss (Memᴰ.head refl)),
      All-imp qs (IsRanked-insert_signal s ss) ranked,
    ),
    All-insert_signal (IsBuilt (q ∷ qs)) s ss (q, Memᴰ.head refl, e)
        (All-imp ss (IsBuilt-cons q qs) built),
    rw u (omega (arith, length-insert_signal s ss, count)),
  )

  -- The ranking is by falling score. The signal of each quote that can be used is in it, each of its
  -- signals is that of a quote, and there are as many as quotes that can be used.
  pub rank_opportunity_signals-IsRankingOf :
      (quotes : List (MarketQuote N)) → IsRankingOf quotes (rank_opportunity_signals m quotes)
  unfolding rank_opportunity_signals signals_of sort_signals
  rank_opportunity_signals-IsRankingOf [] = (tt, tt, tt, omega arith)
  rank_opportunity_signals-IsRankingOf (q ∷ qs) =
      let (down, ranked, built, count) = rank_opportunity_signals-IsRankingOf qs in
      elim (build_opportunity_signal-cases q) [
        | inl (u, e) ↦
            subst (IsRankingOf (q ∷ qs)) (sym (rank_opportunity_signals-none q qs e))
              (down, (inl u, ranked), All-imp _ (IsBuilt-cons q qs) built, rw u count)
        | inr (u, s, e) ↦
            subst (IsRankingOf (q ∷ qs)) (sym (rank_opportunity_signals-some q qs s e)) (
              IsRankingOf-insert_signal q qs s (rank_opportunity_signals m qs) u e
                (down, ranked, built, count))
      ]
