-- ===== src/Live.antt =====
-- hooks/useWebSocket.ts with the stores that it writes to: what an event of the socket does to the
-- dashboard. The fields of an event are values of any type, and what the code casts stays a value.
pub mod Guards
pub mod Stores
pub mod Bot
pub mod Handlers
pub mod Orders
pub mod Run
pub mod Invariant
pub mod Kept
mod Tests
use aiautomation.Common.{ℕ, String, Bool, Option}
use aiautomation.Activity.{Side, AlertFiredEvent}

mutual
  pub data Value (N : Type 0) : Type 0 where
    undefined null_ : Value N
    bool : Bool → Value N
    number : N → Value N
    text : String → Value N
    object : Fields N → Value N
    array : Values N → Value N

  pub data Values (N : Type 0) : Type 0 where
    nil : Values N
    cons : Value N → Values N → Values N

  pub data Fields (N : Type 0) : Type 0 where
    empty : Fields N
    field : String → Value N → Fields N → Fields N

-- What the code calls of JavaScript: `Number(v)`, `String(v)`, `!!v`, `Number.isFinite`,
-- `toUpperCase` and `Math.floor`, the test `0 < x`, and the two casts of what an event holds.
pub record Js (N : Type 0) : Type 0 where
  pub zero_ : N
  pub to_number : Value N → N
  pub to_text : Value N → String
  pub truthy : Value N → Bool
  pub is_finite : N → Bool
  pub is_positive : N → Bool
  pub floor : N → ℕ
  pub to_upper : String → String
  pub as_side : String → Side
  pub as_fired : Fields N → AlertFiredEvent N
