-- ===== src/Engine.antt =====
-- utils/drawingEngine.ts, the part that computes: where the mouse hits a drawing, the levels of a
-- retracement, the snap to a candle and the measures of a trend line. A coordinate, a price or a
-- time is a value of the type `N`, with the operations of `Plane`.
pub mod Geometry
pub mod HitTest
pub mod Topmost
pub mod Snap
pub mod Nearest
mod Tests
use aiautomation.Common.{ℕ, String, Bool, Option}

-- What the engine computes of numbers; `of_count` is a whole number, `thousandths` a constant with
-- three decimals.
pub record Plane (N : Type 0) : Type 0 where
  pub of_count : ℕ → N
  pub thousandths : ℕ → N
  pub add : N → N → N
  pub sub : N → N → N
  pub mul : N → N → N
  pub div : N → N → N
  pub abs : N → N
  pub hypot : N → N → N
  pub max_ : N → N → N
  pub min_ : N → N → N
  pub round : N → N
  pub atan2 : N → N → N
  pub pi : N
  pub at_most : N → N → Bool
  pub is_less : N → N → Bool
  pub is_zero : N → Bool

pub data HitPart : Type 0 where
  on_line on_handle on_label : HitPart

pub record HitTestResult : Type 0 where
  pub hit : Bool
  pub drawing_id : String
  pub part : HitPart
  pub handle_index : Option ℕ

-- What the test of one shape returns.
pub record ShapeHit : Type 0 where
  pub hit : Bool
  pub part : HitPart
  pub handle_index : Option ℕ
  pub level_index : Option ℕ

pub record FibLevel (N : Type 0) : Type 0 where
  pub level : N
  pub price : N
  pub label : String
  pub is_golden_zone : Bool

-- An element of the argument `levelYs`.
pub record LevelY (N : Type 0) : Type 0 where
  pub y : N
  pub price : N

pub record TrendlineMeasurement (N : Type 0) : Type 0 where
  pub price_delta : N
  pub price_delta_pct : N
  pub bar_count : N
  pub angle : N
