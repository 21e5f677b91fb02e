-- ===== src/Live/Handlers.antt =====
-- hooks/useWebSocket.ts: the handlers of the events but those of orders.
use aiautomation.Common.{
  ℕ, ◌-◌, String, ◌==◌, Bool, true, false, ◌&&◌, ◌||◌, not, Option, none, some, or_else, List, [],
  ◌∷◌, lookup, ltb, if◌then◌else◌,
}
use aiautomation.Activity.{AlertState, push_fired}
use aiautomation.Market.{Bar, Num, MarketState, ibkr}
use aiautomation.Market.Quotes.{apply_live_quote}
use aiautomation.Live.{Value, undefined, null_, number, text, Fields, Js}
use aiautomation.Live.Guards.{get, parse_positions_update}
use aiautomation.Live.Stores.{
  AccountState, set_account, set_positions, SimState, set_playback, push_replay_bar,
}
use aiautomation.Live.Bot.{BotState, set_ibkr, set_bot_running, set_cycle_stats}

-- The requests that a handler sends, until they are answered.
pub data Request : Type 0 where
  trades_asked positions_asked account_asked : Request

-- The stores that the events reach.
pub record Dashboard (N R : Type 0) : Type 0 where
  pub account : AccountState N
  pub bot : BotState N R
  pub sim : SimState N
  pub market : MarketState N
  pub alerts : AlertState N
  pub requests : List Request

module _ {N : Type 0} where
  -- `v ?? d`
  abbrev pub or_value : Value N → Value N → Value N
  or_value undefined d = d
  or_value null_ d = d
  or_value v d = v

  -- `v === s` for a text `s`
  abbrev pub is_text : Value N → String → Bool
  is_text (text t) s = t == s
  is_text _ s = false

  -- The seconds between the last two bars, or five.
  unfoldable pub bar_seconds_of : List (Bar N) → ℕ
  bar_seconds_of [] = 5
  bar_seconds_of (b ∷ []) = 5
  bar_seconds_of (prev ∷ last ∷ []) = if ltb prev.time last.time then last.time - prev.time else 5
  bar_seconds_of (a ∷ b ∷ c ∷ rest) = bar_seconds_of (b ∷ c ∷ rest)

  abbrev pub with_positions : Option (List (Value N)) → AccountState N → AccountState N
  with_positions none s = s
  with_positions (some p) s = set_positions p s

  abbrev pub with_account : Option (Value N) → AccountState N → AccountState N
  with_account none s = s
  with_account (some a) s = set_account (some a) s

module _ {N : Type 0} (js : Js N) where
  abbrev zero_value : Value N
  zero_value = number js.zero_

  -- `Number(ev[name] ?? 0)`
  abbrev pub count_field : String → Fields N → N
  count_field name ev = js.to_number (or_value (get name ev) zero_value)

module _ {N R : Type 0} (js : Js N) where
  unfoldable pub on_ibkr_state : Fields N → Dashboard N R → Dashboard N R
  on_ibkr_state ev d = record d { bot = set_ibkr (js.truthy (get "connected" ev)) d.bot }

  unfoldable pub on_bot : Fields N → Dashboard N R → Dashboard N R
  on_bot ev d =
      let running = is_text (get "status" ev) "running" && js.truthy (get "rules_enabled" ev) in
      record d {
        bot =
            set_cycle_stats
              (record {
                rules_enabled = count_field js "rules_enabled" ev;
                rules_checked = count_field js "rules_checked" ev;
                symbols_scanned = count_field js "symbols_scanned" ev;
                signals = count_field js "signals" ev;
                last_run = or_value (get "last_run" ev) null_;
                next_run = or_value (get "next_run" ev) null_;
              })
              (set_bot_running running d.bot);
      }

  -- `setPlayback`, then `pushReplayBar`
  unfoldable pub on_replay_bar : Fields N → Dashboard N R → Dashboard N R
  unfolding push_replay_bar
  on_replay_bar ev d = record d {
    sim =
        push_replay_bar
          (record {
            time = get "time" ev;
            open_ = get "open" ev;
            high = get "high" ev;
            low = get "low" ev;
            close = get "close" ev;
            volume = get "volume" ev;
          })
          (set_playback
            (record {
              active = true;
              symbol = get "symbol" ev;
              speed = 1;
              current_index = get "current_index" ev;
              total_bars = get "total_bars" ev;
              progress = get "progress" ev;
              start_ts = undefined;
              current_ts = get "time" ev;
              end_ts = undefined;
            })
            d.sim);
  }

  -- `one` is the number 1.
  unfoldable pub on_replay_done : N → Dashboard N R → Dashboard N R
  on_replay_done one d = record d {
    sim =
        set_playback
          (record {
            active = false;
            symbol = text "";
            speed = 1;
            current_index = (zero_value js);
            total_bars = (zero_value js);
            progress = number one;
            start_ts = undefined;
            current_ts = undefined;
            end_ts = undefined;
          })
          d.sim;
  }

  unfoldable pub on_bar : Num N → (ℕ → String) → ℕ → Fields N → Dashboard N R → Dashboard N R
  unfolding bar_seconds_of
  on_bar num iso now ev d =
      let symbol = js.to_upper (js.to_text (or_value (get "symbol" ev) (text ""))) in
      let close = js.to_number (get "close" ev) in
      let time = js.to_number (get "time" ev) in
      let series =
        or_else (lookup symbol d.market.bars) (or_else (lookup symbol d.market.comp_bars) []) in
      if symbol == ""
        || not (js.is_finite close)
        || not (js.is_positive close)
        || not (js.is_finite time)
        || not (js.is_positive time)
      then d
      else record d {
        market =
            apply_live_quote num iso now symbol close (some (js.floor time)) (bar_seconds_of series)
              ibkr js.zero_ none d.market;
      }

  unfoldable pub on_positions_update : Fields N → Dashboard N R → Dashboard N R
  unfolding parse_positions_update
  on_positions_update ev d =
      let parsed = parse_positions_update js ev in
      record d { account = with_account parsed.1 (with_positions parsed.0 d.account) }

  -- The notification of the browser is left out.
  unfoldable pub on_alert_fired : Fields N → Dashboard N R → Dashboard N R
  unfolding push_fired
  on_alert_fired ev d = record d { alerts = push_fired (js.as_fired ev) d.alerts }
