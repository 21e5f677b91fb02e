-- ===== src/Live/Kept.antt =====
-- hooks/useWebSocket.ts: runs, and the invariant of the stores.
use aiautomation.Common.{ℕ, String, List, [], ◌∷◌, All, any}
use aiautomation.Market.{Num}
use aiautomation.Live.{Fields, Js}
use aiautomation.Live.Stores.{PlaybackState, set_playback}
use aiautomation.Live.Bot.{BotState}
use aiautomation.Live.Handlers.{Request, Dashboard, on_ibkr_state, on_bot, on_replay_done}
use aiautomation.Live.Orders.{
  Moment, on_filled, on_signal, on_order_modified, fill_event, signal_event, modified_event,
}
use aiautomation.Live.Run.{
  EventType, ibkr_state, bot, filled, signal, replay_bar, replay_done, bar, positions_update,
  order_modified, alert_fired, Answer, trades_came, positions_came, account_came, failed, Step,
  event, answer, settle_answer, dispatch, react, react_all, same_request, request_of, without_first,
}
use aiautomation.Live.Invariant.{
  IsExpected, IsLive, either-IsLive, pushed-IsLive, on_replay_bar-IsLive, on_bar-IsLive,
  on_positions_update-IsLive, on_alert_fired-IsLive,
}

module _ {N R : Type 0} (js : Js N) (num : Num N) (one : N) (time_of : String → ℕ) where
  -- What the invariant does not read.
  with_bot :
      (b : BotState N R) (d : Dashboard N R)
      → IsLive js time_of d
      → IsLive js time_of (record d { bot = b })
  with_bot b d h = record {
    feed = h.feed;
    replayed = h.replayed;
    fired = h.fired;
    charted = h.charted;
    compared = h.compared;
    positions = h.positions;
    account = h.account;
  }

  with_playback :
      (p : PlaybackState N) (d : Dashboard N R)
      → IsLive js time_of d
      → IsLive js time_of (record d { sim = set_playback p d.sim })
  with_playback p d h = record {
    feed = h.feed;
    replayed = h.replayed;
    fired = h.fired;
    charted = h.charted;
    compared = h.compared;
    positions = h.positions;
    account = h.account;
  }

  with_requests :
      (rs : List Request) (d : Dashboard N R)
      → IsLive js time_of d
      → IsLive js time_of (record d { requests = rs })
  with_requests rs d h = record {
    feed = h.feed;
    replayed = h.replayed;
    fired = h.fired;
    charted = h.charted;
    compared = h.compared;
    positions = h.positions;
    account = h.account;
  }

  dispatch-IsLive :
      (m : Moment) (type_ : EventType) (ev : Fields N) (d : Dashboard N R)
      → IsLive js time_of d
      → IsLive js time_of (dispatch js num one time_of m type_ ev d)
  unfolding dispatch on_ibkr_state on_bot on_replay_done on_filled on_signal on_order_modified
  dispatch-IsLive m ibkr_state ev d h = with_bot _ d h
  dispatch-IsLive m bot ev d h = with_bot _ d h
  dispatch-IsLive m filled ev d h = pushed-IsLive js num one time_of (fill_event js m ev) d _ h
  dispatch-IsLive m signal ev d h = pushed-IsLive js num one time_of (signal_event js m ev) d _ h
  dispatch-IsLive m replay_bar ev d h = on_replay_bar-IsLive js num one time_of ev d h
  dispatch-IsLive m replay_done ev d h = with_playback _ d h
  dispatch-IsLive m bar ev d h = on_bar-IsLive js num one time_of m.iso m.now ev d h
  dispatch-IsLive m positions_update ev d h = on_positions_update-IsLive js num one time_of ev d h
  dispatch-IsLive m order_modified ev d h =
      pushed-IsLive js num one time_of (modified_event js m ev) d _ h
  dispatch-IsLive m alert_fired ev d h = on_alert_fired-IsLive js num one time_of ev d h

  settle_answer-IsLive :
      (a : Answer N) (d : Dashboard N R)
      → IsExpected js (answer a)
      → IsLive js time_of d
      → IsLive js time_of (settle_answer a d)
  unfolding settle_answer
  settle_answer-IsLive (trades_came t) d e h = record {
    feed = h.feed;
    replayed = h.replayed;
    fired = h.fired;
    charted = h.charted;
    compared = h.compared;
    positions = h.positions;
    account = h.account;
  }
  settle_answer-IsLive (positions_came p) d e h = record {
    feed = h.feed;
    replayed = h.replayed;
    fired = h.fired;
    charted = h.charted;
    compared = h.compared;
    positions = e;
    account = h.account;
  }
  settle_answer-IsLive (account_came a) d e h = record {
    feed = h.feed;
    replayed = h.replayed;
    fired = h.fired;
    charted = h.charted;
    compared = h.compared;
    positions = h.positions;
    account = e;
  }
  settle_answer-IsLive (failed r) d e h = h

  react-IsLive :
      (m : Moment) (s : Step N) (d : Dashboard N R)
      → IsExpected js s
      → IsLive js time_of d
      → IsLive js time_of (react js num one time_of (m, s) d)
  unfolding react
  react-IsLive m (event type_ ev) d e h = dispatch-IsLive m type_ ev d h
  react-IsLive m (answer a) d e h =
      either-IsLive js num one time_of (any (λ q. same_request q (request_of a)) d.requests)
        (record (settle_answer a d) { requests = without_first (request_of a) d.requests }) d
        (with_requests _ (settle_answer a d) (settle_answer-IsLive a d e h)) h

  -- Whatever events come and requests are answered, in any order, the stores stay within their
  -- bounds, any two events of one symbol and one rule in the activity feed lie at least five seconds
  -- apart, the times of each series rise, and the positions and the account have the shape that the
  -- guards test, if the backend answers with such.
  pub react_all-IsLive :
      (ss : List (Moment × Step N)) (d : Dashboard N R)
      → All (λ s. IsExpected js s.1) ss
      → IsLive js time_of d
      → IsLive js time_of (react_all js num one time_of ss d)
  unfolding react_all
  react_all-IsLive [] d e h = h
  react_all-IsLive ((m, s) ∷ ss) d e h =
      react_all-IsLive ss (react js num one time_of (m, s) d) e.1 (react-IsLive m s d e.0 h)
