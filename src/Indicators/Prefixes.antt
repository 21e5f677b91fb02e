-- ===== src/Indicators/Prefixes.antt =====
-- utils/indicators.ts: calcVWAP against the sums over each prefix of the bars.
use aiautomation.Common.{◌≡◌, refl, ap, sym, List, [], ◌∷◌, ◌++◌, map}
use aiautomation.Market.{Bar}
use aiautomation.Indicators.{Reals, LinePoint}
use aiautomation.Indicators.Averages.{typical, vwap_value, point, vwap_loop, calc_vwap}

-- Each bar, with the bars up to it, behind those of `before`.
unfoldable pub prefixes : {N : Type 0} → List (Bar N) → List (Bar N) → List (List (Bar N) × Bar N)
prefixes before [] = []
prefixes before (b ∷ bs) = (before ++ b ∷ [], b) ∷ prefixes (before ++ b ∷ []) bs

module _ {N : Type 0} (r : Reals N) where
  unfoldable pub total : (Bar N → N) → N → List (Bar N) → N
  total f s [] = s
  total f s (b ∷ bs) = total f (r.add s (f b)) bs

  -- The traded value and the volume of some bars.
  abbrev pub traded_value : List (Bar N) → N
  traded_value bars = total (λ b. r.mul (typical r b) b.volume) r.zero_ bars

  abbrev pub traded_volume : List (Bar N) → N
  traded_volume bars = total (λ b. b.volume) r.zero_ bars

  -- The point of a bar, from all the bars up to it.
  abbrev pub vwap_point : List (Bar N) × Bar N → LinePoint N
  vwap_point e = point r e.1 (vwap_value r (traded_value e.0) (traded_volume e.0) e.1)

  total-snoc :
      (f : Bar N → N) (s : N) (bars : List (Bar N)) (b : Bar N)
      → total f s (bars ++ b ∷ []) ≡ r.add (total f s bars) (f b)
  unfolding total
  total-snoc f s [] b = refl
  total-snoc f s (c ∷ bars) b = total-snoc f (r.add s (f c)) bars b

  vwap_loop-prefixes :
      (before bars : List (Bar N))
      → vwap_loop r (traded_value before) (traded_volume before) bars
        ≡ map vwap_point (prefixes before bars)
  unfolding vwap_loop prefixes
  vwap_loop-prefixes before [] = refl
  vwap_loop-prefixes before (b ∷ bars) =
      rw
        (
          sym (total-snoc (λ c. r.mul (typical r c) c.volume) r.zero_ before b),
          sym (total-snoc (λ c. c.volume) r.zero_ before b),
        )
        (ap (λ ps. vwap_point (before ++ b ∷ [], b) ∷ ps)
          (vwap_loop-prefixes (before ++ b ∷ []) bars))

  -- Each point of `calcVWAP` is the traded value over the volume of all bars up to its own, or the
  -- close where no volume was traded.
  pub calc_vwap-prefixes :
      (bars : List (Bar N)) → calc_vwap r bars ≡ map vwap_point (prefixes [] bars)
  unfolding calc_vwap total
  calc_vwap-prefixes bars = vwap_loop-prefixes [] bars
