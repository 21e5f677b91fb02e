-- ===== src/Indicators/Averages.antt =====
-- utils/indicators.ts: calcSMA, calcEMA, calcBB and calcVWAP.
-- A loop from `period` on walks two lists: the bars that leave the window and those that enter it.
use aiautomation.Common.{
  ℕ, zero, suc, Option, none, some, List, [], ◌∷◌, length, take, drop, ltb, if◌then◌else◌,
}
use aiautomation.Market.{Bar}
use aiautomation.Indicators.{Reals, LinePoint, BandsResult}

abbrev pub no_bands : {N : Type 0} → BandsResult N
no_bands = record { upper = []; middle = []; lower = [] }

module _ {N : Type 0} (r : Reals N) where
  -- `sum += bars[i].close` over a slice
  unfoldable pub add_closes : N → List (Bar N) → N
  add_closes sum [] = sum
  add_closes sum (b ∷ bs) = add_closes (r.add sum b.close) bs

  -- `{ time: b.time, value: +x.toFixed(4) }`
  abbrev pub point : Bar N → N → LinePoint N
  point b x = record { time = b.time; value = r.to_fixed x }

  -- the loop from `period` on
  unfoldable pub sma_loop : ℕ → N → List (Bar N) → List (Bar N) → List (LinePoint N)
  sma_loop period sum olds [] = []
  sma_loop period sum [] (b ∷ bs) = []
  sma_loop period sum (o ∷ os) (b ∷ bs) =
      let new = r.add sum (r.sub b.close o.close) in
      point b (r.div new (r.of_count period)) ∷ sma_loop period new os bs

  -- the point of `bars[period - 1]`, the first of the last argument, and the loop behind it
  unfoldable pub sma_from : ℕ → N → List (Bar N) → List (Bar N) → List (LinePoint N)
  unfolding sma_loop
  sma_from period sum bars [] = []
  sma_from period sum bars (b ∷ bs) =
      point b (r.div sum (r.of_count period)) ∷ sma_loop period sum bars bs

  unfoldable pub calc_sma : List (Bar N) → ℕ → List (LinePoint N)
  unfolding sma_from add_closes
  calc_sma bars zero = []
  calc_sma bars (suc q) =
      if ltb (length bars) (suc q)
      then []
      else sma_from (suc q) (add_closes r.zero_ (take (suc q) bars)) bars (drop q bars)

  -- `2 / (period + 1)`
  abbrev pub smoothing : ℕ → N
  smoothing period = r.div (r.of_count 2) (r.add (r.of_count period) (r.of_count 1))

  -- `x * k + ema * (1 - k)`
  abbrev pub smooth : N → N → N → N
  smooth k ema x = r.add (r.mul x k) (r.mul ema (r.sub (r.of_count 1) k))

  unfoldable pub ema_loop : N → N → List (Bar N) → List (LinePoint N)
  ema_loop k ema [] = []
  ema_loop k ema (b ∷ bs) = let new = smooth k ema b.close in point b new ∷ ema_loop k new bs

  -- No `bars[period - 1]` is a fault, `none`.
  unfoldable pub ema_from : N → N → List (Bar N) → Option (List (LinePoint N))
  unfolding ema_loop
  ema_from k ema [] = none
  ema_from k ema (b ∷ bs) = some (point b ema ∷ ema_loop k ema bs)

  unfoldable pub calc_ema : List (Bar N) → ℕ → Option (List (LinePoint N))
  unfolding ema_from add_closes
  calc_ema bars zero = none
  calc_ema bars (suc q) =
      if ltb (length bars) (suc q)
      then some []
      else ema_from (smoothing (suc q))
          (r.div (add_closes r.zero_ (take (suc q) bars)) (r.of_count (suc q))) (drop q bars)

  -- `sse += d * d` over the window
  unfoldable pub add_squares : N → N → List (Bar N) → N
  add_squares avg sse [] = sse
  add_squares avg sse (b ∷ bs) =
      let d = r.sub b.close avg in add_squares avg (r.add sse (r.mul d d)) bs

  -- `Math.sqrt(sse / period)`
  unfoldable pub deviation : ℕ → N → List (Bar N) → N
  unfolding add_squares
  deviation period avg window = r.sqrt (r.div (add_squares avg r.zero_ window) (r.of_count period))

  -- The three points that `push` adds for the bar that ends the window, before those of the rest.
  unfoldable pub push_bands : ℕ → N → N → Bar N → List (Bar N) → BandsResult N → BandsResult N
  unfolding deviation
  push_bands period mult sum b window rest =
      let avg = r.div sum (r.of_count period) in
      let spread = r.mul mult (deviation period avg window) in
      record {
        upper = point b (r.add avg spread) ∷ rest.upper;
        middle = point b avg ∷ rest.middle;
        lower = point b (r.sub avg spread) ∷ rest.lower;
      }

  unfoldable pub bb_loop : ℕ → N → N → List (Bar N) → List (Bar N) → BandsResult N
  unfolding push_bands
  bb_loop period mult sum olds [] = no_bands
  bb_loop period mult sum [] (b ∷ bs) = no_bands
  bb_loop period mult sum (o ∷ os) (b ∷ bs) =
      let new = r.add sum (r.sub b.close o.close) in
      push_bands period mult new b (take period os) (bb_loop period mult new os bs)

  unfoldable pub bb_from : ℕ → N → N → List (Bar N) → List (Bar N) → BandsResult N
  unfolding push_bands bb_loop
  bb_from period mult sum bars [] = no_bands
  bb_from period mult sum bars (b ∷ bs) =
      push_bands period mult sum b (take period bars) (bb_loop period mult sum bars bs)

  unfoldable pub calc_bb : List (Bar N) → ℕ → N → BandsResult N
  unfolding bb_from add_closes
  calc_bb bars zero mult = no_bands
  calc_bb bars (suc q) mult =
      if ltb (length bars) (suc q)
      then no_bands
      else bb_from (suc q) mult (add_closes r.zero_ (take (suc q) bars)) bars (drop q bars)

  -- `(b.high + b.low + b.close) / 3`
  abbrev pub typical : Bar N → N
  typical b = r.div (r.add (r.add b.high b.low) b.close) (r.of_count 3)

  -- `cumVol > 0 ? cumTPV / cumVol : b.close`
  abbrev pub vwap_value : N → N → Bar N → N
  vwap_value tpv vol b = if r.is_positive vol then r.div tpv vol else b.close

  unfoldable pub vwap_loop : N → N → List (Bar N) → List (LinePoint N)
  vwap_loop tpv vol [] = []
  vwap_loop tpv vol (b ∷ bs) =
      let new_tpv = r.add tpv (r.mul (typical b) b.volume) in
      let new_vol = r.add vol b.volume in
      point b (vwap_value new_tpv new_vol b) ∷ vwap_loop new_tpv new_vol bs

  unfoldable pub calc_vwap : List (Bar N) → List (LinePoint N)
  unfolding vwap_loop
  calc_vwap bars = vwap_loop r.zero_ r.zero_ bars
