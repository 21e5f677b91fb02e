-- ===== src/Indicators/Windows.antt =====
-- utils/indicators.ts: calcSMA and calcBB against the windows of the bars.
use aiautomation.Common.{
  ℕ, zero, suc, ◌≡◌, refl, ap, ◌∙◌, sym, inl, inr, Bool-cases, List, [], ◌∷◌, ◌++◌, map, length,
  take, drop, ltb, ltb→lt, lt→ltb, arith,
}
use aiautomation.Market.{Bar}
use aiautomation.Indicators.{Reals, LinePoint, BandsResult}
use aiautomation.Indicators.Averages.{
  add_closes, sma_loop, sma_from, calc_sma, deviation, push_bands, bb_loop, bb_from, calc_bb,
}
use aiautomation.Indicators.Sums.{
  IsExact, add_closes_slide, windows, windows_short, windows_long, drop-cases,
}

abbrev pub values_of : {N : Type 0} → List (LinePoint N) → List N
values_of ps = map (λ p. p.value) ps

module _ {N : Type 0} (r : Reals N) where
  -- The mean of the closes of a window.
  abbrev pub mean_of : ℕ → List (Bar N) → N
  mean_of period w = r.div (add_closes r r.zero_ w) (r.of_count period)

  abbrev pub rounded_mean : ℕ → List (Bar N) → N
  rounded_mean period w = r.to_fixed (mean_of period w)

module _ {N : Type 0} (r : Reals N) (exact : IsExact r) where
  -- The running sum, moved from the window of `o` to the next one.
  slid_sum :
      (q : ℕ) (o b : Bar N) (os : List (Bar N))
      → take (suc q) os ≡ take q os ++ b ∷ []
      → r.add (add_closes r r.zero_ (take (suc q) (o ∷ os))) (r.sub b.close o.close)
        ≡ add_closes r r.zero_ (take (suc q) os)
  slid_sum q o b os t =
      add_closes_slide r exact r.zero_ o b (take q os) ∙ ap (add_closes r r.zero_) (sym t)

  sma_loop-values :
      (q : ℕ) (o : Bar N) (os : List (Bar N))
      → values_of
          (sma_loop r (suc q) (add_closes r r.zero_ (take (suc q) (o ∷ os))) (o ∷ os) (drop q os))
        ≡ map (rounded_mean r (suc q)) (windows (suc q) os)
  unfolding sma_loop
  sma_loop-values zero o [] = rw (windows_short {A = Bar N} 1 [] (omega arith)) refl
  sma_loop-values (suc m) o [] = rw (windows_short {A = Bar N} (suc (suc m)) [] (omega arith)) refl
  sma_loop-values q o (p ∷ os) = elim (drop-cases q (p ∷ os)) [
    | inl (e, l) ↦ rw (e, windows_short (suc q) (p ∷ os) (omega arith)) refl
    | inr (b, rest, d, e, t, l) ↦
        rw (d, slid_sum q o b (p ∷ os) t, windows_long (suc q) p os (omega arith))
          (ap (λ vs. rounded_mean r (suc q) (take (suc q) (p ∷ os)) ∷ vs)
            (rw e at (sma_loop-values q p os)))
  ]

  -- For exact sums, `calcSMA` gives the mean of each window of `period` bars, in order.
  pub calc_sma-windows :
      (q : ℕ) (bars : List (Bar N))
      → values_of (calc_sma r bars (suc q)) ≡ map (rounded_mean r (suc q)) (windows (suc q) bars)
  unfolding calc_sma sma_from
  calc_sma-windows q [] =
      rw (lt→ltb 0 (suc q) (omega arith), windows_short {A = Bar N} (suc q) [] (omega arith)) refl
  calc_sma-windows q (o ∷ os) = elim (Bool-cases (ltb (length (o ∷ os)) (suc q))) [
    | inl e ↦ rw (e, windows_short (suc q) (o ∷ os) (ltb→lt _ _ e)) refl
    | inr e ↦ elim (drop-cases q (o ∷ os)) [
      | inl (d, l) ↦ rw (e, d, windows_short (suc q) (o ∷ os) (omega arith)) refl
      | inr (b, rest, d, f, t, l) ↦
          rw (e, d, windows_long (suc q) o os (omega arith))
            (ap (λ vs. rounded_mean r (suc q) (take (suc q) (o ∷ os)) ∷ vs)
              (rw f at (sma_loop-values q o os)))
    ]
  ]

module _ {N : Type 0} (r : Reals N) (period : ℕ) (mult : N) where
  -- The bands of a window, around its mean.
  abbrev pub spread_of : List (Bar N) → N
  spread_of w = r.mul mult (deviation r period (mean_of r period w) w)

  abbrev pub upper_of : List (Bar N) → N
  upper_of w = r.to_fixed (r.add (mean_of r period w) (spread_of w))

  abbrev pub lower_of : List (Bar N) → N
  lower_of w = r.to_fixed (r.sub (mean_of r period w) (spread_of w))

  bb_loop-middle :
      (sum : N) (olds news : List (Bar N))
      → (bb_loop r period mult sum olds news).middle ≡ sma_loop r period sum olds news
  unfolding bb_loop push_bands sma_loop
  bb_loop-middle sum olds [] = refl
  bb_loop-middle sum [] (b ∷ bs) = refl
  bb_loop-middle sum (o ∷ os) (b ∷ bs) =
      rw (bb_loop-middle (r.add sum (r.sub b.close o.close)) os bs) refl

module _ {N : Type 0} (r : Reals N) where
  -- The middle band of `calcBB` is the moving average of the same bars and period.
  pub middle-calc_bb :
      (bars : List (Bar N)) (period : ℕ) (mult : N)
      → (calc_bb r bars period mult).middle ≡ calc_sma r bars period
  unfolding calc_bb calc_sma bb_from sma_from push_bands
  middle-calc_bb bars zero mult = refl
  middle-calc_bb bars (suc q) mult = elim (Bool-cases (ltb (length bars) (suc q))) [
    | inl e ↦ rw e refl
    | inr e ↦ elim (drop-cases q bars) [
      | inl h ↦ rw (e, h.0) refl
      | inr (b, rest, d, f, t, l) ↦
          rw
            (
              e,
              d,
              bb_loop-middle r (suc q) mult (add_closes r r.zero_ (take (suc q) bars)) bars rest,
            )
            refl
    ]
  ]

module _ {N : Type 0} (r : Reals N) (exact : IsExact r) (mult : N) where
  abbrev AreBands : ℕ → BandsResult N → List (List (Bar N)) → Type 0
  AreBands q bands ws =
      (values_of bands.upper ≡ map (upper_of r (suc q) mult) ws)
      × (values_of bands.lower ≡ map (lower_of r (suc q) mult) ws)

  bb_loop-AreBands :
      (q : ℕ) (o : Bar N) (os : List (Bar N))
      → AreBands q
          (bb_loop r
            (suc q)
            mult
            (add_closes r r.zero_ (take (suc q) (o ∷ os)))
            (o ∷ os)
            (drop q os))
          (windows (suc q) os)
  unfolding bb_loop push_bands
  bb_loop-AreBands zero o [] = rw (windows_short {A = Bar N} 1 [] (omega arith)) (refl, refl)
  bb_loop-AreBands (suc m) o [] =
      rw (windows_short {A = Bar N} (suc (suc m)) [] (omega arith)) (refl, refl)
  bb_loop-AreBands q o (p ∷ os) = elim (drop-cases q (p ∷ os)) [
    | inl (e, l) ↦ rw (e, windows_short (suc q) (p ∷ os) (omega arith)) (refl, refl)
    | inr (b, rest, d, e, t, l) ↦
        let next = rw e at (bb_loop-AreBands q p os) in
        rw (d, slid_sum r exact q o b (p ∷ os) t, windows_long (suc q) p os (omega arith))
          (
            ap (λ vs. upper_of r (suc q) mult (take (suc q) (p ∷ os)) ∷ vs) next.0,
            ap (λ vs. lower_of r (suc q) mult (take (suc q) (p ∷ os)) ∷ vs) next.1,
          )
  ]

  -- For exact sums, the outer bands of `calcBB` lie `mult` deviations around each window's mean.
  pub calc_bb-windows :
      (q : ℕ) (bars : List (Bar N))
      → (values_of (calc_bb r bars (suc q) mult).upper
          ≡ map (upper_of r (suc q) mult) (windows (suc q) bars))
        × (values_of (calc_bb r bars (suc q) mult).lower
            ≡ map (lower_of r (suc q) mult) (windows (suc q) bars))
  unfolding calc_bb bb_from push_bands
  calc_bb-windows q [] =
      rw (lt→ltb 0 (suc q) (omega arith), windows_short {A = Bar N} (suc q) [] (omega arith))
        (refl, refl)
  calc_bb-windows q (o ∷ os) = elim (Bool-cases (ltb (length (o ∷ os)) (suc q))) [
    | inl e ↦ rw (e, windows_short (suc q) (o ∷ os) (ltb→lt _ _ e)) (refl, refl)
    | inr e ↦ elim (drop-cases q (o ∷ os)) [
      | inl (d, l) ↦ rw (e, d, windows_short (suc q) (o ∷ os) (omega arith)) (refl, refl)
      | inr (b, rest, d, f, t, l) ↦
          let next = rw f at (bb_loop-AreBands q o os) in
          rw (e, d, windows_long (suc q) o os (omega arith))
            (
              ap (λ vs. upper_of r (suc q) mult (take (suc q) (o ∷ os)) ∷ vs) next.0,
              ap (λ vs. lower_of r (suc q) mult (take (suc q) (o ∷ os)) ∷ vs) next.1,
            )
    ]
  ]
