-- ===== src/Indicators/Oscillators.antt =====
-- utils/indicators.ts: calcRSI and calcMACD.
use aiautomation.Common.{
  ℕ, zero, suc, ◌-◌, Option, none, some, List, [], ◌∷◌, map, length, take, drop, filter, is_some,
  ltb, eqb, if◌then◌else◌, or_else,
}
use aiautomation.Market.{Bar}
use aiautomation.Indicators.{Reals, LinePoint, MacdResult}
use aiautomation.Indicators.Averages.{calc_ema, smoothing, smooth}

-- `new Map(points.map((p) => [p.time, p.value])).get(time)`: the last entry of a time counts.
unfoldable pub value_at : {N : Type 0} → ℕ → List (LinePoint N) → Option N
value_at time [] = none
value_at time (p ∷ ps) =
    let rest = value_at time ps in
    if is_some rest then rest else (if eqb p.time time then some p.value else none)

module _ {N : Type 0} (r : Reals N) where
  -- the sums of gains and losses behind the bar `prev`
  unfoldable pub rsi_seed : N → N → Bar N → List (Bar N) → N × N
  rsi_seed gain loss prev [] = (gain, loss)
  rsi_seed gain loss prev (b ∷ bs) =
      let d = r.sub b.close prev.close in
      let up = r.is_nonneg d in
      rsi_seed (if up then r.add gain d else gain) (if up then loss else r.sub loss d) b bs

  unfoldable pub to_rsi : N → N → N
  to_rsi g l = r.to_fixed2 (
      if r.is_zero l
      then r.of_count 100
      else r.sub (r.of_count 100) (r.div (r.of_count 100) (r.add (r.of_count 1) (r.div g l))))

  -- `(avg * (period - 1) + x) / period`
  abbrev pub wilder : ℕ → N → N → N
  wilder period avg x = r.div (r.add (r.mul avg (r.of_count (period - 1))) x) (r.of_count period)

  unfoldable pub rsi_loop : ℕ → N → N → Bar N → List (Bar N) → List (LinePoint N)
  unfolding to_rsi
  rsi_loop period gain loss prev [] = []
  rsi_loop period gain loss prev (b ∷ bs) =
      let d = r.sub b.close prev.close in
      let g = wilder period gain (r.max_ d r.zero_) in
      let l = wilder period loss (r.max_ (r.neg d) r.zero_) in
      record { time = b.time; value = to_rsi g l } ∷ rsi_loop period g l b bs

  -- the point of `bars[period]`, the first of the last argument, and the loop behind it
  unfoldable pub rsi_from : ℕ → N × N → List (Bar N) → List (LinePoint N)
  unfolding to_rsi rsi_loop
  rsi_from period sums [] = []
  rsi_from period sums (b ∷ bs) =
      let g = r.div sums.0 (r.of_count period) in
      let l = r.div sums.1 (r.of_count period) in
      record { time = b.time; value = to_rsi g l } ∷ rsi_loop period g l b bs

  unfoldable pub calc_rsi : List (Bar N) → ℕ → List (LinePoint N)
  unfolding rsi_from rsi_seed
  calc_rsi [] period = []
  calc_rsi (b ∷ bs) period =
      if ltb (length (b ∷ bs)) (suc period)
      then []
      else rsi_from period (rsi_seed r.zero_ r.zero_ b (take period bs)) (drop period (b ∷ bs))

  -- The points of `minuends` at a time of `subtrahends`, with the difference of the two values.
  unfoldable pub differences : List (LinePoint N) → List (LinePoint N) → List (LinePoint N)
  unfolding value_at
  differences subtrahends minuends =
      map
        (λ p. record {
          time = p.time;
          value = r.to_fixed (r.sub p.value (or_else (value_at p.time subtrahends) r.zero_));
        })
        (filter (λ p. is_some (value_at p.time subtrahends)) minuends)

  -- the sum of the first values
  unfoldable pub add_values : N → List (LinePoint N) → N
  add_values sum [] = sum
  add_values sum (p ∷ ps) = add_values (r.add sum p.value) ps

  unfoldable pub signal_loop : N → N → List (LinePoint N) → List (LinePoint N)
  signal_loop k ema [] = []
  signal_loop k ema (p ∷ ps) =
      let new = smooth r k ema p.value in
      record { time = p.time; value = r.to_fixed new } ∷ signal_loop k new ps

  -- No `macdLine[sig - 1]` is a fault, `none`.
  unfoldable pub signal_from : N → N → List (LinePoint N) → Option (List (LinePoint N))
  unfolding signal_loop
  signal_from k ema [] = none
  signal_from k ema (p ∷ ps) =
      some (record { time = p.time; value = r.to_fixed ema } ∷ signal_loop k ema ps)

  unfoldable pub signal_line : List (LinePoint N) → ℕ → Option (List (LinePoint N))
  unfolding signal_from add_values
  signal_line line zero = none
  signal_line line (suc q) =
      signal_from (smoothing r (suc q))
        (r.div (add_values r.zero_ (take (suc q) line)) (r.of_count (suc q))) (drop q line)

  abbrev with_signal : List (LinePoint N) → Option (List (LinePoint N)) → Option (MacdResult N)
  with_signal line none = none
  with_signal line (some signal) =
      some (record { macd = line; signal = signal; histogram = differences signal line })

  unfoldable pub macd_of : List (LinePoint N) → ℕ → Option (MacdResult N)
  unfolding signal_line differences
  macd_of line sig =
      if ltb (length line) sig
      then some (record { macd = line; signal = []; histogram = [] })
      else with_signal line (signal_line line sig)

  abbrev with_averages :
      ℕ → Option (List (LinePoint N)) → Option (List (LinePoint N)) → Option (MacdResult N)
  with_averages sig (some fast) (some slow) = macd_of (differences slow fast) sig
  with_averages sig none _ = none
  with_averages sig (some fast) none = none

  unfoldable pub calc_macd : List (Bar N) → ℕ → ℕ → ℕ → Option (MacdResult N)
  unfolding calc_ema macd_of differences
  calc_macd bars fast slow sig = with_averages sig (calc_ema r bars fast) (calc_ema r bars slow)
