-- ===== src/Engine/Geometry.antt =====
-- utils/drawingEngine.ts: distances, the hit tests of the three shapes, the levels and the measures.
use aiautomation.Common.{
  ℕ, suc, String, Bool, true, false, ◌&&◌, not, Option, none, some, List, [], ◌∷◌, map,
  if◌then◌else◌,
}
use aiautomation.Drawing.{DrawingPoint}
use aiautomation.Engine.{
  Plane, HitPart, on_line, on_handle, on_label, ShapeHit, FibLevel, LevelY, TrendlineMeasurement,
}

abbrev pub hit_at : HitPart → ShapeHit
hit_at part = record { hit = true; part = part; handle_index = none; level_index = none }

abbrev pub hit_handle : ℕ → ShapeHit
hit_handle i = record { hit = true; part = on_handle; handle_index = some i; level_index = none }

abbrev pub hit_level : HitPart → ℕ → ShapeHit
hit_level part i = record { hit = true; part = part; handle_index = none; level_index = some i }

abbrev pub no_hit : ShapeHit
no_hit = record { hit = false; part = on_line; handle_index = none; level_index = none }

-- `FIB_LEVELS` and `FIB_LABELS`, the levels in thousandths
abbrev pub fib_levels : List (ℕ × String)
fib_levels =
    (0, "0%")
    ∷ (236, "23.6%")
    ∷ (382, "38.2%")
    ∷ (500, "50%")
    ∷ (618, "61.8%")
    ∷ (786, "78.6%")
    ∷ (1000, "100%")
    ∷ []

abbrev pub hit_tolerance : ℕ
hit_tolerance = 8

module _ {N : Type 0} (g : Plane N) where
  -- `Math.hypot(ax - bx, ay - by)`
  abbrev pub point_distance : N → N → N → N → N
  point_distance ax ay bx by_ = g.hypot (g.sub ax bx) (g.sub ay by_)

  unfoldable pub point_to_line_distance : N → N → N → N → N → N → N
  point_to_line_distance px py x1 y1 x2 y2 =
      let dx = g.sub x2 x1 in
      let dy = g.sub y2 y1 in
      let len_sq = g.add (g.mul dx dx) (g.mul dy dy) in
      let along = g.add (g.mul (g.sub px x1) dx) (g.mul (g.sub py y1) dy) in
      let t = g.max_ (g.of_count 0) (g.min_ (g.of_count 1) (g.div along len_sq)) in
      if g.is_zero len_sq
      then point_distance px py x1 y1
      else point_distance px py (g.add x1 (g.mul t dx)) (g.add y1 (g.mul t dy))

  unfoldable pub point_to_infinite_line_distance : N → N → N → N → N → N → N
  point_to_infinite_line_distance px py x1 y1 x2 y2 =
      let dx = g.sub x2 x1 in
      let dy = g.sub y2 y1 in
      let len = g.hypot dx dy in
      let cross = g.sub (g.add (g.sub (g.mul dy px) (g.mul dx py)) (g.mul x2 y1)) (g.mul y2 x1) in
      if g.is_zero len then point_distance px py x1 y1 else g.div (g.abs cross) len

  -- `d <= HIT_TOLERANCE`
  abbrev pub is_near : N → Bool
  is_near d = g.at_most d (g.of_count hit_tolerance)

  -- `handleX !== undefined && Math.hypot(…) <= HIT_TOLERANCE`
  abbrev near_handle : N → N → N → Option N → Bool
  near_handle mouse_x mouse_y price_y none = false
  near_handle mouse_x mouse_y price_y (some handle_x) =
      is_near (point_distance mouse_x mouse_y handle_x price_y)

  unfoldable pub hit_test_horizontal_line : N → N → N → N → Option N → ShapeHit
  hit_test_horizontal_line mouse_x mouse_y price_y canvas_width handle_x =
      let off = g.abs (g.sub mouse_y price_y) in
      if near_handle mouse_x mouse_y price_y handle_x
      then hit_at on_handle
      else (if g.at_most (g.sub canvas_width (g.of_count 80)) mouse_x
            && g.at_most off (g.of_count 12)
          then hit_at on_label
          else (if is_near off then hit_at on_line else no_hit))

  -- `extended` is whether the line goes on to the left or to the right.
  unfoldable pub hit_test_trendline : N → N → N → N → N → N → Bool → ShapeHit
  unfolding point_to_line_distance point_to_infinite_line_distance
  hit_test_trendline mouse_x mouse_y x1 y1 x2 y2 extended =
      let dist =
        (if extended
          then point_to_infinite_line_distance mouse_x mouse_y x1 y1 x2 y2
          else point_to_line_distance mouse_x mouse_y x1 y1 x2 y2) in
      if is_near (point_distance mouse_x mouse_y x1 y1)
      then hit_handle 0
      else (if is_near (point_distance mouse_x mouse_y x2 y2)
          then hit_handle 1
          else (if is_near dist then hit_at on_line else no_hit))

  -- the loop, from the level `i` on
  unfoldable pub hit_levels : N → N → ℕ → List (LevelY N) → N → ShapeHit
  hit_levels mouse_x mouse_y i [] canvas_width = no_hit
  hit_levels mouse_x mouse_y i (level ∷ levels) canvas_width =
      let off = g.abs (g.sub mouse_y level.y) in
      let rest = hit_levels mouse_x mouse_y (suc i) levels canvas_width in
      if g.at_most (g.sub canvas_width (g.of_count 120)) mouse_x && g.at_most off (g.of_count 10)
      then hit_level on_label i
      else (if is_near off then hit_level on_line i else rest)

  unfoldable pub hit_test_fibonacci : N → N → List (LevelY N) → N → ShapeHit
  unfolding hit_levels
  hit_test_fibonacci mouse_x mouse_y level_ys canvas_width =
      hit_levels mouse_x mouse_y 0 level_ys canvas_width

  unfoldable pub calc_fib_levels : N → N → List (FibLevel N)
  calc_fib_levels high low =
      map
        (λ e. record {
          level = g.thousandths e.0;
          price = g.sub high (g.mul (g.sub high low) (g.thousandths e.0));
          label = e.1;
          is_golden_zone =
              g.at_most (g.thousandths 382) (g.thousandths e.0)
              && g.at_most (g.thousandths e.0) (g.thousandths 618);
        })
        fib_levels

  unfoldable pub measure_trendline : DrawingPoint N → DrawingPoint N → N → TrendlineMeasurement N
  measure_trendline p1 p2 bar_seconds =
      let none_ = g.of_count 0 in
      let price_delta = g.sub p2.price p1.price in
      let bar_count =
        (if g.is_less none_ bar_seconds
          then g.round (g.div (g.abs (g.sub p2.time p1.time)) bar_seconds)
          else none_) in
      let run = (if g.is_zero bar_count then g.of_count 1 else bar_count) in
      record {
        price_delta = price_delta;
        price_delta_pct =
            if not (g.is_zero p1.price)
            then g.mul (g.div price_delta p1.price) (g.of_count 100)
            else none_;
        bar_count = bar_count;
        angle = g.mul (g.atan2 price_delta run) (g.div (g.of_count 180) g.pi);
      }
