-- ===== src/Feed/Service.antt =====
-- The operations of `MarketDataWsService` and the events of its sockets and timers. A timer's field
-- says whether the timer is set; `ok` says whether the browser made the socket.
use aiautomation.Common.{
  ℕ, ◌-◌, String, ◌==◌, Bool, true, false, not, ◌||◌, Option, none, some, List, [], ◌∷◌, ◌++◌, any,
  filter, length, eqb, ltb, or_else, if◌then◌else◌, lookup, insert, includes, without,
}
use aiautomation.Symbols.{normalize_symbol, to_upper}
use aiautomation.Feed.{
  Outgoing, subscribe, unsubscribe, ping, Phase, connecting, open_, closing, closed, Socket,
  Incoming, malformed, no_quote, quote, FeedState,
}

-- `ws.send`, if `readyState` is OPEN
abbrev pub sent_on : Outgoing → Socket → Socket
sent_on m w = elim w.phase [ open_ ↦ record w { sent = w.sent ++ m ∷ [] } | _ ↦ w ]

abbrev pub send_to : Outgoing → Option Socket → Option Socket
send_to m none = none
send_to m (some w) = some (sent_on m w)

-- `_send`
unfoldable pub send : Outgoing → FeedState → FeedState
send m s = record s { ws = send_to m s.ws }

abbrev pub is_open : Option Socket → Bool
is_open none = false
is_open (some w) = elim w.phase [ open_ ↦ true | _ ↦ false ]

abbrev pub is_live : Option Socket → Bool
is_live none = false
is_live (some w) = elim w.phase [ connecting ↦ true | open_ ↦ true | _ ↦ false ]

-- `_clearTimers`
abbrev pub clear_timers : FeedState → FeedState
clear_timers s = record s { reconn_timer = false; ping_timer = false; stale_timer = false }

-- `_scheduleReconnect`
abbrev pub schedule_reconnect : FeedState → FeedState
schedule_reconnect s = record s { reconn_timer = true }

-- `_connect`
unfoldable pub open_socket : Bool → FeedState → FeedState
open_socket false s = schedule_reconnect s
open_socket true s = record s { ws = some (record { phase = connecting; sent = [] }) }

unfoldable pub connect : Bool → FeedState → FeedState
unfolding open_socket
connect ok s = if is_live s.ws then s else open_socket ok (record s { stopped = false })

unfoldable pub disconnect : FeedState → FeedState
disconnect s = record (clear_timers s) { stopped = true; ws = none; last_msg = 0 }

abbrev pub add_handler : ℕ → List ℕ → List ℕ
add_handler h hs = if any (λ g. eqb g h) hs then hs else hs ++ h ∷ []

abbrev pub handle : String → ℕ → FeedState → FeedState
handle symbol h s = record s {
  handlers = insert symbol (add_handler h (or_else (lookup symbol s.handlers) [])) s.handlers;
}

-- The part of `subscribe` behind the handlers.
unfoldable pub request_symbol : String → FeedState → FeedState
unfolding send
request_symbol symbol s =
    if includes symbol s.subscribed
    then s
    else send (subscribe (symbol ∷ [])) (record s { subscribed = s.subscribed ++ symbol ∷ [] })

-- `subscribe`, for a symbol that is normalised already
unfoldable pub subscribe_to : Bool → String → ℕ → FeedState → FeedState
unfolding connect request_symbol
subscribe_to ok symbol h s =
    if symbol == "" then s else request_symbol symbol (handle symbol h (connect ok s))

unfoldable pub subscribe_symbol : Bool → String → ℕ → FeedState → FeedState
unfolding subscribe_to normalize_symbol
subscribe_symbol ok raw h s = subscribe_to ok (normalize_symbol raw) h s

abbrev pub unhandle : String → ℕ → FeedState → FeedState
unhandle symbol h s = elim (lookup symbol s.handlers) [
  | none ↦ s
  | some hs ↦ record s { handlers = insert symbol (filter (λ g. not (eqb g h)) hs) s.handlers }
]

abbrev pub is_handled : Option (List ℕ) → Bool
is_handled none = false
is_handled (some []) = false
is_handled (some (h ∷ hs)) = true

-- The part of the function that `subscribe` returns behind the handlers.
unfoldable pub release_symbol : String → FeedState → FeedState
unfolding send
release_symbol symbol s =
    if is_handled (lookup symbol s.handlers)
    then s
    else send (unsubscribe (symbol ∷ [])) (record s { subscribed = without symbol s.subscribed })

-- The function that `subscribe` returns.
unfoldable pub unsubscribe_symbol : String → ℕ → FeedState → FeedState
unfolding release_symbol
unsubscribe_symbol symbol h s = release_symbol symbol (unhandle symbol h s)

-- The message that `onopen` sends, unless no symbol is subscribed.
abbrev pub resent : List String → Option Socket → Option Socket
resent [] w = w
resent (x ∷ xs) w = send_to (subscribe (x ∷ xs)) w

-- `onopen`
unfoldable pub on_open : ℕ → FeedState → FeedState
on_open now s = record s {
  ws = resent s.subscribed s.ws;
  last_msg = now;
  ping_timer = true;
  stale_timer = true;
}

-- `onmessage`, with the handlers that it calls
unfoldable pub on_message : ℕ → Incoming → FeedState → FeedState × List ℕ
unfolding to_upper
on_message now malformed s = (s, [])
on_message now no_quote s = (record s { last_msg = now }, [])
on_message now (quote symbol) s =
    (record s { last_msg = now }, or_else (lookup (to_upper symbol) s.handlers) [])

-- `onclose`
unfoldable pub on_close : FeedState → FeedState
on_close s = if s.stopped then clear_timers s else schedule_reconnect (clear_timers s)

abbrev pub in_phase : Phase → Option Socket → Option Socket
in_phase p none = none
in_phase p (some w) = some (record w { phase = p })

-- The callback of the watchdog.
unfoldable pub watch : ℕ → FeedState → FeedState
unfolding send
watch now s =
    let warned = if ltb 10000 (now - s.last_msg) then send ping s else s in
    if not (is_open s.ws) || eqb (length s.subscribed) 0
    then s
    else if ltb 30000 (now - s.last_msg)
    then record warned { ws = in_phase closing warned.ws }
    else warned

-- What the service does and what happens to it; the events of `old` sockets are of those that it no
-- longer holds.
pub data Event : Type 0 where
  connects : Bool → Event
  disconnects : Event
  subscribes : Bool → String → ℕ → Event
  unsubscribes : String → ℕ → Event
  opens old_opens : ℕ → Event
  messages : ℕ → Incoming → Event
  closes old_closes : Event
  pings : Event
  watches : ℕ → Event
  reconnects : Bool → Event

abbrev pub is_connecting : Option Socket → Bool
is_connecting none = false
is_connecting (some w) = elim w.phase [ connecting ↦ true | _ ↦ false ]

-- The browser opens a socket once, while it is connecting.
unfoldable pub happen : Event → FeedState → FeedState
happen (connects ok) s = connect ok s
happen disconnects s = disconnect s
happen (subscribes ok raw h) s = subscribe_symbol ok raw h s
happen (unsubscribes symbol h) s = unsubscribe_symbol symbol h s
happen (opens now) s =
    if is_connecting s.ws then on_open now (record s { ws = in_phase open_ s.ws }) else s
happen (old_opens now) s = on_open now s
happen (messages now m) s = (on_message now m s).0
happen closes s = on_close (record s { ws = in_phase closed s.ws })
happen old_closes s = on_close s
happen pings s = send ping s
happen (watches now) s = watch now s
happen (reconnects ok) s = open_socket ok (record s { reconn_timer = false })

unfoldable pub happen_all : List Event → FeedState → FeedState
happen_all [] s = s
happen_all (e ∷ es) s = happen_all es (happen e s)

abbrev pub initial_service : FeedState
initial_service = record {
  ws = none;
  handlers = [];
  subscribed = [];
  stopped = false;
  reconn_timer = false;
  ping_timer = false;
  stale_timer = false;
  last_msg = 0;
}
