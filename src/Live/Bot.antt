-- ===== src/Live/Bot.antt =====
-- store/botStore.ts. A rule is a value of the type `R`, with its identifier.
use aiautomation.Common.{String, ◌==◌, Bool, Option, List, map, if◌then◌else◌}
use aiautomation.Live.{Value}

pub data AutopilotMode : Type 0 where
  off paper live : AutopilotMode

-- The fields of `SystemStatus` that the store reads; `live_trading_enabled` is there only if it is a
-- Boolean.
pub record SystemStatus : Type 0 where
  pub ibkr_connected : Bool
  pub sim_mode : Bool
  pub bot_running : Bool
  pub autopilot_mode : Option AutopilotMode
  pub live_trading_enabled : Option Bool

pub record BotCycleStats (N : Type 0) : Type 0 where
  pub rules_enabled : N
  pub rules_checked : N
  pub symbols_scanned : N
  pub signals : N
  pub last_run : Value N
  pub next_run : Value N

-- `BotState` without its actions; of `botStatus`, the field that the store reads.
pub record BotState (N R : Type 0) : Type 0 where
  pub status : Option SystemStatus
  pub status_running : Bool
  pub rules : List R
  pub ibkr_connected : Bool
  pub sim_mode : Bool
  pub bot_running : Bool
  pub autopilot_mode : Option AutopilotMode
  pub live_trading_enabled : Option Bool
  pub cycle_stats : BotCycleStats N

module _ {N R : Type 0} where
  unfoldable pub set_status : SystemStatus → BotState N R → BotState N R
  set_status s b = record b {
    status = Option.some s;
    ibkr_connected = s.ibkr_connected;
    sim_mode = s.sim_mode;
    bot_running = s.bot_running;
    autopilot_mode = s.autopilot_mode;
    live_trading_enabled = s.live_trading_enabled;
  }

  abbrev pub set_bot_status : Bool → BotState N R → BotState N R
  set_bot_status running b = record b { status_running = running; bot_running = running }

  abbrev pub set_rules : List R → BotState N R → BotState N R
  set_rules r b = record b { rules = r }

  unfoldable pub update_rule : (R → String) → R → BotState N R → BotState N R
  update_rule id_of r b = record b {
    rules = map (λ x. if id_of x == id_of r then r else x) b.rules;
  }

  abbrev pub set_ibkr : Bool → BotState N R → BotState N R
  set_ibkr v b = record b { ibkr_connected = v }

  abbrev pub set_bot_running : Bool → BotState N R → BotState N R
  set_bot_running v b = record b { bot_running = v }

  -- Every caller passes all six fields.
  abbrev pub set_cycle_stats : BotCycleStats N → BotState N R → BotState N R
  set_cycle_stats c b = record b { cycle_stats = c }
