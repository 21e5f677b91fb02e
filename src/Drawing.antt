-- ===== src/Drawing.antt =====
-- types/drawing.ts: the drawings of a chart. A JavaScript number is a value of the type `N`, over
-- which the code of this component is generic.
pub mod Schema
pub mod Keys
pub mod State
pub mod Store
pub mod Transfer
pub mod History
pub mod Timeline
pub mod Reset
pub mod Saving
pub mod Steps
pub mod RoundTrip
pub mod Editing
pub mod Points
pub mod PointsKept
mod Tests
use aiautomation.Common.{ℕ, String, Bool, List, Option, length, eqb}

pub data DrawingType : Type 0 where
  horizontal_line trendline fibonacci : DrawingType

pub record DrawingPoint (N : Type 0) : Type 0 where
  pub time : N
  pub price : N

pub record DrawingOptions : Type 0 where
  pub extend_left : Option Bool
  pub extend_right : Option Bool

pub record Drawing (N : Type 0) : Type 0 where
  pub id : String
  pub type : DrawingType
  pub symbol : String
  pub timeframe : String
  pub color : String
  pub points : List (DrawingPoint N)
  pub visible : Bool
  pub locked : Bool
  pub label : Option String
  pub options : Option DrawingOptions

-- `Record<string, Drawing[]>`, keyed by `${symbol}_${timeframe}`.
abbrev pub Drawings : Type 0 → Type 0
Drawings N = List (String × List (Drawing N))

-- The number of points that a tool needs: the comment above `interface Drawing`.
abbrev pub point_count : DrawingType → ℕ
point_count horizontal_line = 1
point_count trendline = 2
point_count fibonacci = 2

-- The test that the schema refines a drawing by.
abbrev pub points_ok : DrawingType → ℕ → Bool
points_ok horizontal_line n = eqb n 1
points_ok _ n = eqb n 2
