-- ===== src/Bus.antt =====
-- `WebSocketService` of services/ws.ts: the socket over which the backend's events come. `url` is the
-- address that `connect` makes of the page's location, `ok` says whether the browser made the socket,
-- and a timer's field says whether the timer is set.
pub mod Recovery
mod Tests
use aiautomation.Common.{
  ℕ, String, Bool, true, false, not, ◌||◌, Option, none, some, List, [], ◌∷◌, ◌++◌, any, filter,
  eqb, or_else, if◌then◌else◌, Dict, lookup, insert,
}
use aiautomation.Feed.{Phase, connecting, open_, closing, closed}

pub record BusState : Type 0 where
  pub ws : Option Phase
  pub url : String
  pub handlers : Dict (List ℕ)
  pub stopped : Bool
  pub reconn_timer : Bool
  pub ping_interval : Bool

-- OPEN or CONNECTING
abbrev pub is_live_bus : Option Phase → Bool
is_live_bus (some connecting) = true
is_live_bus (some open_) = true
is_live_bus _ = false

-- `connected`
abbrev pub connected : Option Phase → Bool
connected (some open_) = true
connected _ = false

-- `_connect`
unfoldable pub make_socket : Bool → BusState → BusState
make_socket ok s =
    if is_live_bus s.ws
    then s
    else if ok
    then record s { ws = some connecting }
    else record s { reconn_timer = true }

unfoldable pub connect_bus : Bool → String → BusState → BusState
unfolding make_socket
connect_bus ok url s = make_socket ok (record s { stopped = false; url = url })

unfoldable pub disconnect_bus : BusState → BusState
disconnect_bus s = record s {
  stopped = true;
  ping_interval = false;
  reconn_timer = false;
  ws = none;
}

unfoldable pub add_bus_handler : String → ℕ → BusState → BusState
add_bus_handler type h s =
    let hs = or_else (lookup type s.handlers) [] in
    record s {
      handlers = insert type (if any (λ g. eqb g h) hs then hs else hs ++ h ∷ []) s.handlers;
    }

-- What `subscribe` returns.
unfoldable pub drop_bus_handler : String → ℕ → BusState → BusState
drop_bus_handler type h s = elim (lookup type s.handlers) [
  | none ↦ s
  | some hs ↦ record s { handlers = insert type (filter (λ g. not (eqb g h)) hs) s.handlers }
]

-- `_dispatch`: the handlers that are called, in their order.
unfoldable pub dispatch : String → BusState → List ℕ
dispatch type s = or_else (lookup type s.handlers) [] ++ or_else (lookup "*" s.handlers) []

abbrev pub opened_phase : Option Phase → Option Phase
opened_phase (some connecting) = some open_
opened_phase w = w

abbrev pub is_connecting_bus : Option Phase → Bool
is_connecting_bus (some connecting) = true
is_connecting_bus _ = false

-- `onopen`, of the socket that connects; it emits `ibkr_state`.
unfoldable pub on_bus_open : BusState → BusState × List ℕ
unfolding dispatch
on_bus_open s =
    if is_connecting_bus s.ws
    then (record s { ws = opened_phase s.ws; ping_interval = true }, dispatch "ibkr_state" s)
    else (s, [])

-- `onmessage`: the text is given by the type of the event that it holds, `none` if it is malformed.
unfoldable pub on_bus_message : Option String → BusState → List ℕ
unfolding dispatch
on_bus_message none s = []
on_bus_message (some type) s = dispatch type s

-- `onclose`
unfoldable pub on_bus_close : BusState → BusState
on_bus_close s = record s { ping_interval = false; reconn_timer = not s.stopped }

abbrev pub at_phase : Phase → Option Phase → Option Phase
at_phase p none = none
at_phase p (some q) = some p

-- The events of `old` sockets are of those that the service no longer holds.
pub data BusEvent : Type 0 where
  connects : Bool → String → BusEvent
  disconnects : BusEvent
  adds drops : String → ℕ → BusEvent
  opens starts_closing closes old_closes : BusEvent
  reconnects : Bool → BusEvent

unfoldable pub occur : BusEvent → BusState → BusState
occur (connects ok url) s = connect_bus ok url s
occur disconnects s = disconnect_bus s
occur (adds type h) s = add_bus_handler type h s
occur (drops type h) s = drop_bus_handler type h s
occur opens s = (on_bus_open s).0
occur starts_closing s = record s { ws = at_phase closing s.ws }
occur closes s = on_bus_close (record s { ws = at_phase closed s.ws })
occur old_closes s = on_bus_close s
occur (reconnects ok) s =
    if s.reconn_timer then make_socket ok (record s { reconn_timer = false }) else s

unfoldable pub occur_all : List BusEvent → BusState → BusState
occur_all [] s = s
occur_all (e ∷ es) s = occur_all es (occur e s)

abbrev pub initial_bus : BusState
initial_bus = record {
  ws = none;
  url = "";
  handlers = [];
  stopped = false;
  reconn_timer = false;
  ping_interval = false;
}
