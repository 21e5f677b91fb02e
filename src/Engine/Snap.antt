-- ===== src/Engine/Snap.antt =====
-- utils/drawingEngine.ts: snapToCandle. Its two loops keep the element of the least difference so
-- far, with that difference; the first candle is below the `Infinity` that the first one starts from.
use aiautomation.Common.{Bool, List, [], ◌∷◌, if◌then◌else◌}
use aiautomation.Market.{Bar}
use aiautomation.Drawing.{DrawingPoint}
use aiautomation.Engine.{Plane}

module _ {ℓ} {N : Type 0} {A : Type ℓ} (is_less : N → N → Bool) (diff_of : A → N) where
  unfoldable pub least_from : A → N → List A → A
  least_from best best_diff [] = best
  least_from best best_diff (x ∷ xs) =
      let diff = diff_of x in
      let closer = is_less diff best_diff in
      least_from (if closer then x else best) (if closer then diff else best_diff) xs

module _ {N : Type 0} (g : Plane N) where
  -- `Math.abs(candle.time - time)`
  abbrev pub time_diff : N → Bar N → N
  time_diff time candle = g.abs (g.sub (g.of_count candle.time) time)

  -- `Math.abs(price - value)`
  abbrev pub price_diff : N → N → N
  price_diff price value = g.abs (g.sub price value)

  unfoldable pub nearest_candle : N → Bar N → List (Bar N) → Bar N
  unfolding least_from
  nearest_candle time first rest =
      least_from g.is_less (time_diff time) first (time_diff time first) rest

  unfoldable pub nearest_value : N → Bar N → N
  unfolding least_from
  nearest_value price candle =
      least_from g.is_less (price_diff price) candle.open_ (price_diff price candle.open_)
        (candle.high ∷ candle.low ∷ candle.close ∷ [])

  unfoldable pub snap_to_candle : N → N → List (Bar N) → DrawingPoint N
  unfolding nearest_candle nearest_value
  snap_to_candle price time [] = record { price = price; time = time }
  snap_to_candle price time (first ∷ rest) =
      let candle = nearest_candle time first rest in
      record { price = nearest_value price candle; time = g.of_count candle.time }
