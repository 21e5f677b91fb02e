-- ===== src/Feed/Tests.antt =====
-- A run of the socket service: subscriptions before and after the socket opens, and a reconnect.
use aiautomation.Common.{List, [], ◌∷◌, true}
use aiautomation.Feed.Service.{
  Event, subscribes, unsubscribes, opens, closes, reconnects, watches, happen_all, initial_service,
}
use aiautomation.Feed.InStep.{IsInStep}
use aiautomation.Feed.Kept.{happen_all-IsInStep}

abbrev events : List Event
events =
    subscribes true " aapl " 1
    ∷ opens 5
    ∷ subscribes true "SPY" 2
    ∷ unsubscribes "AAPL" 1
    ∷ watches 50000
    ∷ closes
    ∷ reconnects true
    ∷ opens 50010
    ∷ subscribes true "QQQ" 2
    ∷ []

happen_all-IsInStep_example : IsInStep (happen_all events initial_service)
happen_all-IsInStep_example = happen_all-IsInStep events
