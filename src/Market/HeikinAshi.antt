-- ===== src/Market/HeikinAshi.antt =====
-- utils/heikinAshi.ts: the bars of a Heikin-Ashi chart.
use aiautomation.Common.{ℕ, ◌≡◌, refl, ap, Option, none, some, List, [], ◌∷◌, All}
use aiautomation.Market.{Bar}

-- The arithmetic of the code: the two means, `Math.max` and `Math.min` of three numbers, and
-- `+x.toFixed(4)`.
pub record Means (N : Type 0) : Type 0 where
  pub mean4 : N → N → N → N → N
  pub mean2 : N → N → N
  pub max3 : N → N → N → N
  pub min3 : N → N → N → N
  pub to_fixed : N → N

module _ {N : Type 0} (means : Means N) where
  abbrev pub ha_close_of : Bar N → N
  ha_close_of b = means.mean4 b.open_ b.high b.low b.close

  -- The open before it is rounded, after the bar `prev` of the result.
  abbrev pub ha_open_of : Option (Bar N) → Bar N → N
  ha_open_of none b = means.mean2 b.open_ b.close
  ha_open_of (some prev) b = means.mean2 prev.open_ prev.close

  unfoldable pub ha_bar : Option (Bar N) → Bar N → Bar N
  ha_bar prev b = record {
    time = b.time;
    open_ = means.to_fixed (ha_open_of prev b);
    high = means.to_fixed (means.max3 b.high (ha_open_of prev b) (ha_close_of b));
    low = means.to_fixed (means.min3 b.low (ha_open_of prev b) (ha_close_of b));
    close = means.to_fixed (ha_close_of b);
    volume = b.volume;
  }

  -- the loop, behind the bar `prev` of the result
  unfoldable pub ha_bars : Option (Bar N) → List (Bar N) → List (Bar N)
  unfolding ha_bar
  ha_bars prev [] = []
  ha_bars prev (b ∷ bs) = let h = ha_bar prev b in h ∷ ha_bars (some h) bs

  unfoldable pub to_heikin_ashi : List (Bar N) → List (Bar N)
  unfolding ha_bars
  to_heikin_ashi bars = ha_bars none bars

-- Open and close lie between low and high.
abbrev pub IsCandle : {N : Type 0} → (N → N → Type 0) → Bar N → Type 0
IsCandle le b = le b.low b.open_ × le b.open_ b.high × le b.low b.close × le b.close b.high

-- What holds of the maximum, the minimum and rounding in the order of numbers.
pub record MeansLaws {N : Type 0} (means : Means N) (le : N → N → Type 0) : Type 0 where
  pub max3_second : (a b c : N) → le b (means.max3 a b c)
  pub max3_third : (a b c : N) → le c (means.max3 a b c)
  pub min3_second : (a b c : N) → le (means.min3 a b c) b
  pub min3_third : (a b c : N) → le (means.min3 a b c) c
  pub to_fixed_mono : {a b : N} → le a b → le (means.to_fixed a) (means.to_fixed b)

abbrev pub times_and_volumes : {N : Type 0} → List (Bar N) → List (ℕ × N)
times_and_volumes [] = []
times_and_volumes (b ∷ bs) = (b.time, b.volume) ∷ times_and_volumes bs

module _ {N : Type 0} (means : Means N) (le : N → N → Type 0) (laws : MeansLaws means le) where
  ha_bar-IsCandle : (prev : Option (Bar N)) (b : Bar N) → IsCandle le (ha_bar means prev b)
  unfolding ha_bar
  ha_bar-IsCandle prev b =
      let o = ha_open_of means prev b in
      let c = ha_close_of means b in
      (
        laws.to_fixed_mono (laws.min3_second b.low o c),
        laws.to_fixed_mono (laws.max3_second b.high o c),
        laws.to_fixed_mono (laws.min3_third b.low o c),
        laws.to_fixed_mono (laws.max3_third b.high o c),
      )

  kept :
      (prev : Option (Bar N)) (b : Bar N) (bs : List (Bar N))
      → times_and_volumes (ha_bars means (some (ha_bar means prev b)) bs) ≡ times_and_volumes bs
      → times_and_volumes (ha_bars means prev (b ∷ bs)) ≡ times_and_volumes (b ∷ bs)
  unfolding ha_bars ha_bar
  kept prev b bs h = ap (λ t. (b.time, b.volume) ∷ t) h

  ha_bars-IsCandle :
      (prev : Option (Bar N)) (bs : List (Bar N))
      → All (IsCandle le) (ha_bars means prev bs)
        × (times_and_volumes (ha_bars means prev bs) ≡ times_and_volumes bs)
  unfolding ha_bars
  ha_bars-IsCandle prev [] = (tt, refl)
  ha_bars-IsCandle prev (b ∷ bs) =
      let (all, same) = ha_bars-IsCandle (some (ha_bar means prev b)) bs in
      ((ha_bar-IsCandle prev b, all), kept prev b bs same)

  -- Each bar of a Heikin-Ashi chart has its open and its close between its low and its high, and the
  -- bars have the times and the volumes of the bars that they are made of, if maximum and minimum
  -- bound their arguments and rounding keeps the order.
  pub to_heikin_ashi-IsCandle :
      (bars : List (Bar N))
      → All (IsCandle le) (to_heikin_ashi means bars)
        × (times_and_volumes (to_heikin_ashi means bars) ≡ times_and_volumes bars)
  unfolding to_heikin_ashi
  to_heikin_ashi-IsCandle bars = ha_bars-IsCandle none bars
