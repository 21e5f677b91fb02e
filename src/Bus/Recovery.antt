-- ===== src/Bus/Recovery.antt =====
-- Why `WebSocketService` comes back after its socket has closed, and stays away once it is stopped.
use aiautomation.Common.{
  ℕ, String, ◌≡◌, refl, ◌∙◌, Bool, true, false, not, ◌||◌, Option, none, some, List, [], ◌∷◌,
  if◌then◌else◌, Bool-cases, Option-cases, inl, inr, lookup,
}
use aiautomation.Feed.{Phase, connecting, open_, closing, closed}
use aiautomation.Bus.{
  BusState, is_live_bus, make_socket, connect_bus, disconnect_bus, add_bus_handler,
  drop_bus_handler, opened_phase, is_connecting_bus, on_bus_open, on_bus_close, at_phase, BusEvent,
  connects, disconnects, adds, drops, opens, starts_closing, closes, old_closes, reconnects, occur,
  occur_all, initial_bus,
}

-- A socket whose close event is still to come.
abbrev pub is_present : Option Phase → Bool
is_present none = false
is_present (some closed) = false
is_present _ = true

-- A stopped service has no reconnect scheduled; any other has one, or a socket that will close.
abbrev pub is_tended : BusState → Bool
is_tended s = if s.stopped then not s.reconn_timer else s.reconn_timer || is_present s.ws

or_true : (b : Bool) → (b || true) ≡ true
or_true true = refl
or_true false = refl

is_present_live : (w : Option Phase) → is_live_bus w ≡ true → is_present w ≡ true
is_present_live none h = cc
is_present_live (some connecting) h = refl
is_present_live (some open_) h = refl
is_present_live (some closing) h = refl
is_present_live (some closed) h = cc

is_present_opened : (w : Option Phase) → is_present (opened_phase w) ≡ is_present w
is_present_opened none = refl
is_present_opened (some connecting) = refl
is_present_opened (some open_) = refl
is_present_opened (some closing) = refl
is_present_opened (some closed) = refl

is_present_closing :
    (w : Option Phase) → is_present w ≡ true → is_present (at_phase closing w) ≡ true
is_present_closing none h = cc
is_present_closing (some p) h = refl

make_socket_tended :
    (ok : Bool) (s : BusState) → s.stopped ≡ false → is_tended (make_socket ok s) ≡ true
unfolding make_socket
make_socket_tended ok s h = elim (Bool-cases (is_live_bus s.ws)) [
  | inl e ↦ rw (e, h, is_present_live s.ws e) (or_true s.reconn_timer)
  | inr e ↦ elim (Bool-cases ok) [
    | inl f ↦ rw (e, f, h) (or_true s.reconn_timer)
    | inr f ↦ rw (e, f, h) refl
  ]
]

drop_bus_handler_tended :
    (type : String) (h : ℕ) (s : BusState) → is_tended (drop_bus_handler type h s) ≡ is_tended s
unfolding drop_bus_handler
drop_bus_handler_tended type h s = elim (Option-cases (lookup type s.handlers)) [
  | inl e ↦ rw (e, drop_bus_handler) refl
  | inr (hs, e) ↦ rw (e, drop_bus_handler) refl
]

on_bus_open_tended : (s : BusState) → is_tended (on_bus_open s).0 ≡ is_tended s
unfolding on_bus_open
on_bus_open_tended s = elim (Bool-cases (is_connecting_bus s.ws)) [
  | inl e ↦ rw (e, on_bus_open, is_present_opened s.ws) refl
  | inr e ↦ rw (e, on_bus_open) refl
]

on_bus_close_tended : (s : BusState) → is_tended (on_bus_close s) ≡ true
unfolding on_bus_close
on_bus_close_tended s = elim (Bool-cases s.stopped) [ inl e ↦ rw e refl | inr e ↦ rw e refl ]

starts_closing_tended :
    (s : BusState) → is_tended s ≡ true → is_tended (record s { ws = at_phase closing s.ws }) ≡ true
starts_closing_tended s h = elim (Bool-cases s.stopped) [
  | inl e ↦ rw e (rw e at h)
  | inr e ↦ elim (Bool-cases s.reconn_timer) [
    | inl f ↦ rw (e, f) refl
    | inr f ↦ rw (e, f) (is_present_closing s.ws (rw (e, f) at h))
  ]
]

reconnects_tended :
    (ok : Bool) (s : BusState) → is_tended s ≡ true → is_tended (occur (reconnects ok) s) ≡ true
unfolding occur
reconnects_tended ok s h = elim (Bool-cases s.reconn_timer) [
  | inl f ↦ elim (Bool-cases s.stopped) [
    | inl e ↦ cc (rw (e, f) at h)
    | inr e ↦ rw f (make_socket_tended ok (record s { reconn_timer = false }) e)
  ]
  | inr f ↦ rw f (rw f at h)
]

occur_tended : (x : BusEvent) (s : BusState) → is_tended s ≡ true → is_tended (occur x s) ≡ true
unfolding occur connect_bus disconnect_bus add_bus_handler
occur_tended (connects ok url) s h =
    make_socket_tended ok (record s { stopped = false; url = url }) refl
occur_tended disconnects s h = refl
occur_tended (adds type k) s h = h
occur_tended (drops type k) s h = drop_bus_handler_tended type k s ∙ h
occur_tended opens s h = on_bus_open_tended s ∙ h
occur_tended starts_closing s h = starts_closing_tended s h
occur_tended closes s h = on_bus_close_tended (record s { ws = at_phase closed s.ws })
occur_tended old_closes s h = on_bus_close_tended s
occur_tended (reconnects ok) s h = reconnects_tended ok s h

occur_all_tended :
    (xs : List BusEvent) (s : BusState) → is_tended s ≡ true → is_tended (occur_all xs s) ≡ true
unfolding occur_all
occur_all_tended [] s h = h
occur_all_tended (x ∷ xs) s h = occur_all_tended xs (occur x s) (occur_tended x s h)

-- From its first `connect` on, whatever happens, the service has a socket whose close event is still
-- to come or a reconnect scheduled, unless it is stopped, and then no reconnect is scheduled.
pub occur_all-connect_bus :
    (ok : Bool) (url : String) (xs : List BusEvent)
    → is_tended (occur_all xs (connect_bus ok url initial_bus)) ≡ true
unfolding connect_bus
occur_all-connect_bus ok url xs =
    occur_all_tended xs (connect_bus ok url initial_bus)
      (make_socket_tended ok (record initial_bus { url = url }) refl)
