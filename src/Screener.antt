-- ===== src/Screener.antt =====
-- store/screenerStore.ts and the types of types/index.ts that it holds. A number is a value of the
-- type `N`; an indicator and an operator are the texts that the backend knows them by.
pub mod Store
pub mod Requests
pub mod Scans
pub mod Shown
mod Tests
use aiautomation.Common.{ℕ, String, Bool, Option, List, Dict}

pub data Param (N : Type 0) : Type 0 where
  number : N → Param N
  text : String → Param N

pub data ValueType : Type 0 where
  by_number by_indicator : ValueType

pub record FilterValue (N : Type 0) : Type 0 where
  pub type : ValueType
  pub number : Option N
  pub indicator : Option String
  pub params : Option (Dict (Param N))
  pub multiplier : Option N

pub record ScanFilter (N : Type 0) : Type 0 where
  pub id : Option String
  pub indicator : String
  pub params : Dict (Param N)
  pub operator : String
  pub value : FilterValue N

pub record ScanResultRow (N : Type 0) : Type 0 where
  pub symbol : String
  pub price : N
  pub change_pct : N
  pub volume : N
  pub indicators : Dict N
  pub screener_score : N
  pub setup : String
  pub relative_volume : N
  pub momentum_20d : N
  pub trend_strength : N
  pub notes : List String

pub record EnrichResult (N : Type 0) : Type 0 where
  pub symbol : String
  pub name : String
  pub sector : Option String
  pub market_cap : Option N

pub record ScreenerPreset (N : Type 0) : Type 0 where
  pub id : String
  pub name : String
  pub filters : List (ScanFilter N)
  pub built_in : Bool
  pub created_at : String

pub record UniverseInfo : Type 0 where
  pub id : String
  pub name : String
  pub count : ℕ

-- `ScreenerState` without its actions.
pub record ScreenerState (N : Type 0) : Type 0 where
  pub results : List (ScanResultRow N)
  pub skipped_symbols : List String
  pub enriched : Dict (EnrichResult N)
  pub presets : List (ScreenerPreset N)
  pub universes : List UniverseInfo
  pub filters : List (ScanFilter N)
  pub selected_universe : String
  pub custom_symbols : String
  pub interval : String
  pub period : String
  pub scanning : Bool
  pub enriching : Bool
  pub presets_loaded : Bool
  pub elapsed_ms : ℕ
  pub total_symbols : ℕ

-- The answer to a scan, as far as the store reads it.
pub record ScanResponse (N : Type 0) : Type 0 where
  pub results : List (ScanResultRow N)
  pub skipped_symbols : List String
  pub elapsed_ms : Option ℕ
  pub total_symbols : Option ℕ
