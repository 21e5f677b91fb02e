-- ===== src/Feed.antt =====
-- `MarketDataWsService` of services/ws.ts: the socket over which quotes come. A socket that was
-- replaced or given up is of interest only for the events that it still has. Times are `Date.now()`.
pub mod Service
pub mod InStep
pub mod Kept
mod Tests
use aiautomation.Common.{ℕ, String, Bool, Option, List, Dict}

-- What `_send` sends.
pub data Outgoing : Type 0 where
  subscribe unsubscribe : List String → Outgoing
  ping : Outgoing

-- `readyState`
pub data Phase : Type 0 where
  connecting open_ closing closed : Phase

pub record Socket : Type 0 where
  pub phase : Phase
  pub sent : List Outgoing

-- What a message is once it is parsed; a handler is a number.
pub data Incoming : Type 0 where
  malformed : Incoming
  no_quote : Incoming
  quote : String → Incoming

pub record FeedState : Type 0 where
  pub ws : Option Socket
  pub handlers : Dict (List ℕ)
  pub subscribed : List String
  pub stopped : Bool
  pub reconn_timer : Bool
  pub ping_timer : Bool
  pub stale_timer : Bool
  pub last_msg : ℕ
