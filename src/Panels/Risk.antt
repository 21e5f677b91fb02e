-- ===== src/Panels/Risk.antt =====
-- store/riskStore.ts. A number is a value of the type `N`.
use Prim.Native.String
use aiautomation.Common.{
  ℕ, String, Bool, true, false, Option, none, some, or_else, List, map, if◌then◌else◌,
}

-- `'$' | '%' | 'count'`
pub data LimitUnit : Type 0 where
  dollars percent count : LimitUnit

pub data RiskCheckStatus : Type 0 where
  ok warn breach : RiskCheckStatus

pub record RiskLimitItem (N : Type 0) : Type 0 where
  pub label : String
  pub used : N
  pub limit : N
  pub unit : LimitUnit

-- Of `RiskLimits`, the list that the store reads.
pub record RiskLimits (N : Type 0) : Type 0 where
  pub limits : List (RiskLimitItem N)

pub record RiskCheckResult (N : Type 0) : Type 0 where
  pub name : String
  pub current : N
  pub limit : N
  pub unit : LimitUnit
  pub status : RiskCheckStatus
  pub description : String

pub record RiskSettings (N : Type 0) : Type 0 where
  pub max_position_size_pct : N
  pub daily_loss_limit : N
  pub drawdown_limit_pct : N
  pub max_open_positions : N
  pub max_sector_pct : N
  pub max_corr_threshold : N

-- `Partial<RiskSettings>`
pub record RiskChanges (N : Type 0) : Type 0 where
  pub max_position_size_pct : Option N
  pub daily_loss_limit : Option N
  pub drawdown_limit_pct : Option N
  pub max_open_positions : Option N
  pub max_sector_pct : Option N
  pub max_corr_threshold : Option N

-- `RiskState` without its actions; nothing writes `portfolioRisk`.
pub record RiskState (N : Type 0) : Type 0 where
  pub risk_limits : Option (RiskLimits N)
  pub risk_checks : List (RiskCheckResult N)
  pub risk_settings : RiskSettings N
  pub loading : Bool
  pub error : Option String

-- What the store computes of numbers: `tenths` is `n / 10`, `show` the text of a number.
pub record Ratios (N : Type 0) : Type 0 where
  pub zero_ : N
  pub tenths : ℕ → N
  pub div : N → N → N
  pub is_positive : N → Bool
  pub at_most : N → N → Bool
  pub show : N → String

abbrev unit_text : LimitUnit → String
unit_text dollars = "$"
unit_text percent = "%"
unit_text count = "count"

module _ {N : Type 0} (r : Ratios N) where
  unfoldable pub status_of : RiskLimitItem N → RiskCheckStatus
  status_of item =
      let ratio = (if r.is_positive item.limit then r.div item.used item.limit else r.zero_) in
      if r.at_most (r.tenths 10) ratio
      then breach
      else (if r.at_most (r.tenths 8) ratio then warn else ok)

  abbrev describe : RiskLimitItem N → String
  describe item =
      let unit = unit_text item.unit in
      let used = String.◌++◌ (r.show item.used) unit in
      let limit = String.◌++◌ (r.show item.limit) unit in
      String.◌++◌ item.label
        (String.◌++◌ ": " (String.◌++◌ used (String.◌++◌ " of " (String.◌++◌ limit " limit"))))

  unfoldable pub compute_risk_checks : RiskLimits N → RiskState N → RiskState N
  unfolding status_of
  compute_risk_checks limits s = record s {
    risk_checks =
        map
          (λ item. record {
            name = item.label;
            current = item.used;
            limit = item.limit;
            unit = item.unit;
            status = status_of item;
            description = describe item;
          })
          limits.limits;
  }

  abbrev pub start_risk_limits : RiskState N → RiskState N
  start_risk_limits s = record s { loading = true }

  -- `fetchRiskLimits` from its await on: the limits, or the message of an error
  unfoldable pub finish_risk_limits : Option (RiskLimits N) → String → RiskState N → RiskState N
  unfolding compute_risk_checks
  finish_risk_limits (some limits) message s =
      record (compute_risk_checks limits (record s { risk_limits = some limits })) {
        loading = false;
      }
  finish_risk_limits none message s = record s { error = some message; loading = false }

module _ {N : Type 0} where
  unfoldable pub update_risk_settings : RiskChanges N → RiskState N → RiskState N
  update_risk_settings u s = record s {
    risk_settings = record {
      max_position_size_pct = or_else u.max_position_size_pct s.risk_settings.max_position_size_pct;
      daily_loss_limit = or_else u.daily_loss_limit s.risk_settings.daily_loss_limit;
      drawdown_limit_pct = or_else u.drawdown_limit_pct s.risk_settings.drawdown_limit_pct;
      max_open_positions = or_else u.max_open_positions s.risk_settings.max_open_positions;
      max_sector_pct = or_else u.max_sector_pct s.risk_settings.max_sector_pct;
      max_corr_threshold = or_else u.max_corr_threshold s.risk_settings.max_corr_threshold;
    };
  }
