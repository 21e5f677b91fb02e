-- ===== src/Engine/HitTest.antt =====
-- utils/drawingEngine.ts: hitTestDrawings. A coordinate function of the chart returns null for what
-- is off its scale.
use mathlib.Core.List.{reverse}
use aiautomation.Common.{
  ℕ, Bool, true, false, ◌||◌, Option, none, some, List, [], ◌∷◌, or_else, if◌then◌else◌,
}
use aiautomation.Drawing.{
  Drawing, DrawingPoint, DrawingOptions, horizontal_line, trendline, fibonacci,
}
use aiautomation.Engine.{Plane, HitTestResult, ShapeHit, FibLevel, LevelY}
use aiautomation.Engine.Geometry.{
  hit_test_horizontal_line, hit_test_trendline, hit_test_fibonacci, calc_fib_levels,
}

-- What one pass of the loop, or the loop, does: `fault` is the exception of reading a point that
-- is not there, `missed` goes on.
pub data HitOutcome : Type 0 where
  fault missed : HitOutcome
  found : HitTestResult → HitOutcome

-- The mouse and the chart: the arguments but the drawings.
pub record Canvas (N : Type 0) : Type 0 where
  pub mouse_x : N
  pub mouse_y : N
  pub price_to_y : N → Option N
  pub time_to_x : N → Option N
  pub width : N

-- `{ hit: true, drawingId: d.id, part, handleIndex }` where the shape is hit
abbrev hit_of : {N : Type 0} → Drawing N → Option ℕ → ShapeHit → HitOutcome
hit_of d handle_index shape =
    if shape.hit
    then found
        (record { hit = true; drawing_id = d.id; part = shape.part; handle_index = handle_index })
    else missed

abbrev extends_left : Option DrawingOptions → Bool
extends_left none = false
extends_left (some o) = or_else o.extend_left false

abbrev extends_right : Option DrawingOptions → Bool
extends_right none = false
extends_right (some o) = or_else o.extend_right false

-- `levelYs`: the levels that are on the scale
unfoldable pub level_ys : {N : Type 0} → (N → Option N) → List (FibLevel N) → List (LevelY N)
level_ys price_to_y [] = []
level_ys price_to_y (lv ∷ levels) =
    let rest = level_ys price_to_y levels in
    elim (price_to_y lv.price) [ none ↦ rest | some y ↦ record { y = y; price = lv.price } ∷ rest ]

module _ {N : Type 0} (g : Plane N) (c : Canvas N) where
  unfoldable pub hit_horizontal : Drawing N → List (DrawingPoint N) → HitOutcome
  unfolding hit_test_horizontal_line
  hit_horizontal d [] = fault
  hit_horizontal d (p ∷ ps) = elim (c.price_to_y p.price) [
    | none ↦ missed
    | some y ↦ hit_of d none (hit_test_horizontal_line g c.mouse_x c.mouse_y y c.width none)
  ]

  -- the trend line between two points of the screen, each coordinate or null
  unfoldable pub hit_between : Drawing N → Option N → Option N → Option N → Option N → HitOutcome
  unfolding hit_test_trendline
  hit_between d (some x1) (some y1) (some x2) (some y2) =
      let shape =
        hit_test_trendline g c.mouse_x c.mouse_y x1 y1 x2 y2
          (extends_left d.options || extends_right d.options) in
      hit_of d shape.handle_index shape
  hit_between d (some x1) (some y1) (some x2) none = missed
  hit_between d (some x1) (some y1) none y2 = missed
  hit_between d (some x1) none x2 y2 = missed
  hit_between d none y1 x2 y2 = missed

  unfoldable pub hit_trendline : Drawing N → List (DrawingPoint N) → HitOutcome
  unfolding hit_between
  hit_trendline d [] = missed
  hit_trendline d (p ∷ []) = missed
  hit_trendline d (p ∷ q ∷ rest) =
      hit_between d (c.time_to_x p.time) (c.price_to_y p.price) (c.time_to_x q.time)
        (c.price_to_y q.price)

  unfoldable pub hit_fibonacci : Drawing N → List (DrawingPoint N) → HitOutcome
  unfolding hit_test_fibonacci calc_fib_levels level_ys
  hit_fibonacci d [] = missed
  hit_fibonacci d (p ∷ []) = missed
  hit_fibonacci d (p ∷ q ∷ rest) =
      let high = g.max_ p.price q.price in
      let low = g.min_ p.price q.price in
      let levels = level_ys c.price_to_y (calc_fib_levels g high low) in
      hit_of d none (hit_test_fibonacci g c.mouse_x c.mouse_y levels c.width)

  -- the body of the loop
  unfoldable pub hit_drawing : Drawing N → HitOutcome
  unfolding hit_horizontal hit_trendline hit_fibonacci
  hit_drawing d =
      if d.visible
      then elim d.type [
        | horizontal_line ↦ hit_horizontal d d.points
        | trendline ↦ hit_trendline d d.points
        | fibonacci ↦ hit_fibonacci d d.points
      ]
      else missed

  unfoldable pub hit_from : List (Drawing N) → HitOutcome
  unfolding hit_drawing
  hit_from [] = missed
  hit_from (d ∷ ds) =
      let rest = hit_from ds in
      elim (hit_drawing d) [ fault ↦ fault | missed ↦ rest | found r ↦ found r ]

  -- from the last drawing to the first
  unfoldable pub hit_test_drawings : List (Drawing N) → HitOutcome
  unfolding hit_from
  hit_test_drawings drawings = hit_from (reverse drawings)
