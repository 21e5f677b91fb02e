-- ===== src/Bus/Tests.antt =====
-- A run of the event socket: it opens, breaks off, comes back, and is stopped.
use aiautomation.Common.{◌≡◌, true, List, [], ◌∷◌}
use aiautomation.Bus.{
  BusEvent, adds, opens, starts_closing, closes, reconnects, disconnects, old_closes, connect_bus,
  occur_all, initial_bus,
}
use aiautomation.Bus.Recovery.{is_tended, occur_all-connect_bus}

abbrev outage : List BusEvent
outage =
    opens
    ∷ adds "bot" 1
    ∷ starts_closing
    ∷ closes
    ∷ reconnects true
    ∷ opens
    ∷ disconnects
    ∷ old_closes
    ∷ []

occur_all-connect_bus_example :
    is_tended (occur_all outage (connect_bus true "wss://host/ws" initial_bus)) ≡ true
occur_all-connect_bus_example = occur_all-connect_bus true "wss://host/ws" outage
