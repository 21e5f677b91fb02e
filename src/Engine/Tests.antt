-- ===== src/Engine/Tests.antt =====
-- Runs of the drawing engine on a plane of native numbers, whose distance is that of the two axes.
use aiautomation.Common.{
  ◌+◌, ◌-◌, ◌*◌, ◌/◌, ℕ, max, min, String, ◌≡◌, refl, true, false, none, some, List, [], ◌∷◌, All,
  arith, eqb, ltb, leb,
}
use aiautomation.Market.{Bar}
use aiautomation.Drawing.{Drawing, DrawingPoint, DrawingType, horizontal_line}
use aiautomation.Drawing.Points.{HasPoints}
use aiautomation.Engine.{Plane, on_line}
use aiautomation.Engine.Geometry.{hit_test_horizontal_line}
use aiautomation.Engine.HitTest.{
  Canvas, found, hit_horizontal, hit_drawing, hit_from, hit_test_drawings,
}
use aiautomation.Engine.Topmost.{IsTopmost, hit_test_drawings-IsTopmost}
use aiautomation.Engine.Snap.{time_diff, price_diff, snap_to_candle}
use aiautomation.Engine.Nearest.{IsStrictOrder, IsNearest, snap_to_candle-IsNearest}

abbrev axes : ℕ → ℕ → ℕ
axes a b = a + b

abbrev grid : Plane ℕ
grid = record {
  of_count = λ n. n;
  thousandths = λ n. n / 1000;
  add = ◌+◌;
  sub = λ a b. (a - b) + (b - a);
  mul = ◌*◌;
  div = ◌/◌;
  abs = λ a. a;
  hypot = axes;
  max_ = max;
  min_ = min;
  round = λ a. a;
  atan2 = λ a b. a / b;
  pi = 3;
  at_most = leb;
  is_less = ltb;
  is_zero = λ a. eqb a 0;
}

abbrev mouse : Canvas ℕ
mouse = record {
  mouse_x = 50;
  mouse_y = 103;
  price_to_y = λ p. some p;
  time_to_x = λ t. some t;
  width = 500;
}

abbrev drawn : String → DrawingType → List (DrawingPoint ℕ) → Drawing ℕ
drawn id type points = record {
  id = id;
  type = type;
  symbol = "AAPL";
  timeframe = "1d";
  color = "#4F46E5";
  points = points;
  visible = true;
  locked = false;
  label = none;
  options = none;
}

abbrev spot : ℕ → ℕ → DrawingPoint ℕ
spot t p = record { time = t; price = p }

abbrev sketch : List (Drawing ℕ)
sketch =
    drawn "low" horizontal_line (spot 0 100 ∷ [])
    ∷ drawn "top" horizontal_line (spot 0 101 ∷ [])
    ∷ drawn "far" horizontal_line (spot 0 300 ∷ [])
    ∷ []

top_is_hit :
    hit_test_drawings grid mouse sketch
    ≡ found (record { hit = true; drawing_id = "top"; part = on_line; handle_index = none })
unfolding hit_test_drawings hit_from hit_drawing hit_horizontal hit_test_horizontal_line
top_is_hit = refl

sketch-HasPoints : All HasPoints sketch
sketch-HasPoints = (refl, (refl, (refl, tt)))

hit_test_drawings-IsTopmost_example :
    IsTopmost grid mouse sketch (hit_test_drawings grid mouse sketch)
hit_test_drawings-IsTopmost_example = hit_test_drawings-IsTopmost grid mouse sketch sketch-HasPoints

ltb-IsStrictOrder : IsStrictOrder ltb
ltb-IsStrictOrder = record {
  irrefl = λ a. ground arith;
  asymm = λ a b h. ground arith;
  not_less_trans = λ a b c h k. ground arith;
}

abbrev candle_at : ℕ → ℕ → Bar ℕ
candle_at t p = record { time = t; open_ = p; high = p + 4; low = p - 4; close = p + 2; volume = 1 }

snap_to_candle-IsNearest_example :
    let snapped = snap_to_candle grid 23 70 (candle_at 60 20 ∷ candle_at 120 30 ∷ []) in
    (candle : Bar ℕ) × IsNearest ltb
      (time_diff grid 70)
      candle
      (candle_at 60 20 ∷ candle_at 120 30 ∷ [])
    × (snapped.time ≡ candle.time)
    × IsNearest ltb
        (price_diff grid 23)
        snapped.price
        (candle.open_ ∷ candle.high ∷ candle.low ∷ candle.close ∷ [])
snap_to_candle-IsNearest_example =
    snap_to_candle-IsNearest grid ltb-IsStrictOrder 23 70 (candle_at 60 20) (candle_at 120 30 ∷ [])
