-- ===== src/Live/Tests.antt =====
-- Runs of the socket's events over the native numbers.
use aiautomation.Common.{
  ℕ, max, min, String, ◌==◌, ◌≡◌, refl, Bool, true, false, none, List, [], ◌∷◌, All, ltb,
  if◌then◌else◌, arith,
}
use aiautomation.Activity.{AlertFiredEvent, buy, sell}
use aiautomation.Market.{Bar, Num, MarketState, by_symbol, asc, candlestick}
use aiautomation.Market.Bars.{IsSeries}
use aiautomation.Live.{
  Value, undefined, null_, bool, number, text, object, array, nil, cons, Fields, empty, field, Js,
}
use aiautomation.Live.Guards.{get, has_field, is_position_fields, is_position_like}
use aiautomation.Live.Stores.{no_account}
use aiautomation.Live.Bot.{BotState}
use aiautomation.Live.Handlers.{Dashboard}
use aiautomation.Live.Orders.{Moment}
use aiautomation.Live.Run.{
  Step, event, answer, filled, bar, replay_bar, positions_update, alert_fired, positions_came,
  react_all,
}
use aiautomation.Live.Invariant.{IsExpected, IsLive}
use aiautomation.Live.Kept.{react_all-IsLive}

abbrev numeral : Value ℕ → ℕ
numeral (number n) = n
numeral (bool true) = 1
numeral _ = 0

abbrev wording : Value ℕ → String
wording (text t) = t
wording undefined = "undefined"
wording null_ = "null"
wording _ = "value"

abbrev truth : Value ℕ → Bool
truth undefined = false
truth null_ = false
truth (bool b) = b
truth (number n) = ltb 0 n
truth _ = true

abbrev fired_of : Fields ℕ → AlertFiredEvent ℕ
fired_of ev = record {
  alert_id = "a";
  name = "alert";
  symbol = "AAPL";
  condition_summary = "price above 100";
  price = 101;
  timestamp = "now";
}

abbrev native_js : Js ℕ
native_js = record {
  zero_ = 0;
  to_number = numeral;
  to_text = wording;
  truthy = truth;
  is_finite = λ n. true;
  is_positive = λ n. ltb 0 n;
  floor = λ n. n;
  to_upper = λ s. s;
  as_side = λ s. if s == "SELL" then sell else buy;
  as_fired = fired_of;
}

abbrev num : Num ℕ
num = record { zero_ = 0; max_ = max; min_ = min }

abbrev clock : String → ℕ
clock s = 0

abbrev moment : Moment
moment = record { now = 9000; iso = λ n. "now"; uuid = "id" }

abbrev position : Value ℕ
position = object (
    field "symbol" (text "AAPL") (
      field "qty" (number 2) (
        field "avg_cost" (number 90) (
          field "market_value" (number 200) (
            field "unrealized_pnl" (number 20)
              (field "current_price" (number 100) (field "pnl_pct" (number 11) empty)))))))

is_position : is_position_like native_js position ≡ true
unfolding is_position_like is_position_fields get has_field
is_position = refl

abbrev tick : Fields ℕ
tick = field "symbol" (text "AAPL") (field "close" (number 105) (field "time" (number 190) empty))

abbrev steps : List (Moment × Step ℕ)
steps =
    (moment, event filled (field "symbol" (text "AAPL") empty))
    ∷ (moment, answer (positions_came (position ∷ [])))
    ∷ (moment, event bar tick)
    ∷ (moment, event replay_bar tick)
    ∷ (moment, event positions_update (field "positions" (array (cons position nil)) empty))
    ∷ (moment, event alert_fired empty)
    ∷ []

abbrev quiet : BotState ℕ String
quiet = record {
  status = none;
  status_running = false;
  rules = [];
  ibkr_connected = false;
  sim_mode = false;
  bot_running = false;
  autopilot_mode = none;
  live_trading_enabled = none;
  cycle_stats = record {
    rules_enabled = 0;
    rules_checked = 0;
    symbols_scanned = 0;
    signals = 0;
    last_run = null_;
    next_run = null_;
  };
}

abbrev candle : ℕ → Bar ℕ
candle t = record { time = t; open_ = 100; high = 100; low = 100; close = 100; volume = 0 }

abbrev market : MarketState ℕ
market = record {
  quotes = [];
  bars = ("AAPL", candle 60 ∷ candle 120 ∷ []) ∷ [];
  comp_bars = [];
  selected_symbol = "AAPL";
  comp_symbol = "";
  comp_mode = false;
  watchlists = [];
  active_watchlist = "";
  sort_field = by_symbol;
  sort_dir = asc;
  loading = false;
  last_updated = none;
  selected_indicators = [];
  chart_type = candlestick;
}

abbrev dashboard : Dashboard ℕ String
dashboard = record {
  account = no_account;
  bot = quiet;
  sim = record {
    sim_account = none;
    sim_positions = [];
    sim_orders = [];
    playback = record {
      active = false;
      symbol = text "";
      speed = 1;
      current_index = number 0;
      total_bars = number 0;
      progress = number 0;
      start_ts = undefined;
      current_ts = undefined;
      end_ts = undefined;
    };
    replay_bars = [];
  };
  market = market;
  alerts = record {
    history = [];
    unread_count = 0;
    recent_fired = [];
    loading = false;
    alert_stats = none;
  };
  requests = [];
}

candles-IsSeries : IsSeries (candle 60 ∷ candle 120 ∷ [])
candles-IsSeries = record { ordered = ((omega arith, tt), (tt, tt)); bounded = omega arith }

dashboard-IsLive : IsLive native_js clock dashboard
dashboard-IsLive = record {
  feed = (tt, omega arith);
  replayed = omega arith;
  fired = omega arith;
  charted = (candles-IsSeries, tt);
  compared = tt;
  positions = tt;
  account = tt;
}

steps-IsExpected : All (λ s. IsExpected native_js s.1) steps
steps-IsExpected = (tt, ((is_position, tt), (tt, (tt, (tt, (tt, tt))))))

react_all-IsLive_example : IsLive native_js clock (react_all native_js num 1 clock steps dashboard)
react_all-IsLive_example =
    react_all-IsLive native_js num 1 clock steps dashboard steps-IsExpected dashboard-IsLive
