-- ===== src/Live/Run.antt =====
-- hooks/useWebSocket.ts: the events of the socket, and the answers to the requests of its handlers, in
-- any order.
use aiautomation.Common.{ℕ, String, Bool, true, false, Option, List, [], ◌∷◌, any, if◌then◌else◌}
use aiautomation.Market.{Num}
use aiautomation.Live.{Value, Fields, Js}
use aiautomation.Live.Stores.{set_account, set_positions, set_trades}
use aiautomation.Live.Handlers.{
  Request, trades_asked, positions_asked, account_asked, Dashboard, on_ibkr_state, on_bot,
  on_replay_bar, on_replay_done, on_bar, on_positions_update, on_alert_fired,
}
use aiautomation.Live.Orders.{Moment, on_filled, on_signal, on_order_modified}

-- The types that the hook subscribes to.
pub data EventType : Type 0 where
  ibkr_state bot filled signal replay_bar replay_done bar positions_update : EventType
  order_modified alert_fired : EventType

pub data Answer (N : Type 0) : Type 0 where
  trades_came : List (Value N) → Answer N
  positions_came : List (Value N) → Answer N
  account_came : Option (Value N) → Answer N
  failed : Request → Answer N

pub data Step (N : Type 0) : Type 0 where
  event : EventType → Fields N → Step N
  answer : Answer N → Step N

abbrev pub same_request : Request → Request → Bool
same_request trades_asked trades_asked = true
same_request positions_asked positions_asked = true
same_request account_asked account_asked = true
same_request _ _ = false

-- The requests without the first one of a kind.
unfoldable pub without_first : Request → List Request → List Request
without_first r [] = []
without_first r (q ∷ qs) =
    let rest = without_first r qs in if same_request q r then qs else q ∷ rest

module _ {N : Type 0} where
  abbrev pub request_of : Answer N → Request
  request_of (trades_came t) = trades_asked
  request_of (positions_came p) = positions_asked
  request_of (account_came a) = account_asked
  request_of (failed r) = r

module _ {N R : Type 0} where
  -- `.then(setTrades).catch(() => {})`, of a request that is under way
  unfoldable pub settle_answer : Answer N → Dashboard N R → Dashboard N R
  settle_answer (trades_came t) d = record d { account = set_trades t d.account }
  settle_answer (positions_came p) d = record d { account = set_positions p d.account }
  settle_answer (account_came a) d = record d { account = set_account a d.account }
  settle_answer (failed r) d = d

module _ {N R : Type 0} (js : Js N) (num : Num N) (one : N) (time_of : String → ℕ) where
  unfoldable pub dispatch : Moment → EventType → Fields N → Dashboard N R → Dashboard N R
  dispatch m ibkr_state ev d = on_ibkr_state js ev d
  dispatch m bot ev d = on_bot js ev d
  dispatch m filled ev d = on_filled js time_of m ev d
  dispatch m signal ev d = on_signal js time_of m ev d
  dispatch m replay_bar ev d = on_replay_bar js ev d
  dispatch m replay_done ev d = on_replay_done js one d
  dispatch m bar ev d = on_bar js num m.iso m.now ev d
  dispatch m positions_update ev d = on_positions_update js ev d
  dispatch m order_modified ev d = on_order_modified js time_of m ev d
  dispatch m alert_fired ev d = on_alert_fired js ev d

  unfoldable pub react : Moment × Step N → Dashboard N R → Dashboard N R
  react (m, event type_ ev) d = dispatch m type_ ev d
  react (m, answer a) d =
      if any (λ q. same_request q (request_of a)) d.requests
      then record (settle_answer a d) { requests = without_first (request_of a) d.requests }
      else d

  unfoldable pub react_all : List (Moment × Step N) → Dashboard N R → Dashboard N R
  react_all [] d = d
  react_all (s ∷ ss) d = react_all ss (react s d)
