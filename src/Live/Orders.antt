-- ===== src/Live/Orders.antt =====
-- hooks/useWebSocket.ts: the handlers that add to the activity feed. What they show as a toast is
-- left out.
use Prim.Native.String
use aiautomation.Common.{ℕ, String, ◌==◌, Option, none, some, [], ◌∷◌, ◌++◌, if◌then◌else◌}
use aiautomation.Activity.{ActivityEvent, fill, signal, sell, filled, pending, push_activity}
use aiautomation.Live.{Value, undefined, null_, text, Fields, Js}
use aiautomation.Live.Guards.{get}
use aiautomation.Live.Stores.{push}
use aiautomation.Live.Handlers.{
  Dashboard, trades_asked, positions_asked, account_asked, or_value, count_field,
}

-- What an event is handled with: the time of the clock, in milliseconds, its text, and the identifier
-- that `crypto.randomUUID` would give.
pub record Moment : Type 0 where
  pub now : ℕ
  pub iso : ℕ → String
  pub uuid : String

module _ {N : Type 0} (js : Js N) where
  -- `String(ev[name] ?? d)`
  abbrev pub text_field : String → String → Fields N → String
  text_field name d ev = js.to_text (or_value (get name ev) (text d))

  -- `ev[name] != null ? Number(ev[name]) : undefined`
  abbrev number_field : Value N → Option N
  number_field undefined = none
  number_field null_ = none
  number_field v = some (js.to_number v)

module _ {N : Type 0} (js : Js N) (m : Moment) where
  unfoldable pub fill_event : Fields N → ActivityEvent N
  fill_event ev = record {
    id = text_field js "trade_id" m.uuid ev;
    timestamp = m.iso m.now;
    type = fill;
    symbol = js.to_upper (text_field js "symbol" "" ev);
    action = js.as_side (text_field js "action" "BUY" ev);
    qty = count_field js "qty" ev;
    price = number_field js (get "price" ev);
    rule_name = text_field js "rule_name" "Manual" ev;
    sl_price = number_field js (get "sl_price" ev);
    tp_price = number_field js (get "tp_price" ev);
    pct_of_account = number_field js (get "pct_of_account" ev);
    status = filled;
  }

  unfoldable pub signal_event : Fields N → ActivityEvent N
  signal_event ev = record {
    id = text_field js "trade_id" m.uuid ev;
    timestamp = m.iso m.now;
    type = signal;
    symbol = js.to_upper (text_field js "symbol" "" ev);
    action = js.as_side (text_field js "action" "BUY" ev);
    qty = count_field js "qty" ev;
    price = none;
    rule_name = text_field js "rule_name" "" ev;
    sl_price = none;
    tp_price = none;
    pct_of_account = none;
    status = pending;
  }

  unfoldable pub modified_event : Fields N → ActivityEvent N
  modified_event ev =
      let type_ = text_field js "order_type" "Order" ev in
      let price = count_field js "new_price" ev in
      record {
        id = m.uuid;
        timestamp = m.iso m.now;
        type = signal;
        symbol = text_field js "symbol" "" ev;
        action = sell;
        qty = js.zero_;
        price = none;
        rule_name = String.◌++◌ type_ " Modified";
        sl_price = if type_ == "Stop Loss" then some price else none;
        tp_price = if type_ == "Take Profit" then some price else none;
        pct_of_account = none;
        status = filled;
      }

module _ {N R : Type 0} (js : Js N) (time_of : String → ℕ) (m : Moment) where
  unfoldable pub on_filled : Fields N → Dashboard N R → Dashboard N R
  unfolding fill_event push_activity
  on_filled ev d = record d {
    account = push time_of (fill_event js m ev) d.account;
    requests = d.requests ++ trades_asked ∷ positions_asked ∷ account_asked ∷ [];
  }

  unfoldable pub on_signal : Fields N → Dashboard N R → Dashboard N R
  unfolding signal_event push_activity
  on_signal ev d = record d { account = push time_of (signal_event js m ev) d.account }

  unfoldable pub on_order_modified : Fields N → Dashboard N R → Dashboard N R
  unfolding modified_event push_activity
  on_order_modified ev d = record d { account = push time_of (modified_event js m ev) d.account }
