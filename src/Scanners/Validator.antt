-- ===== src/Scanners/Validator.antt =====
-- app/scanner/validator.py, and the checks of a strategy: `all(checks.values())` and the reason. Of the
-- reasons, the numbers are left out; an `assert` that fails raises AssertionError.
use ai_market_scanning_engin.Prelude.{
  String, Bool, true, false, ◌&&◌, Option, none, some, List, [], ◌∷◌, if◌then◌else◌, Float, Result,
  ok, raise, map,
}
use ai_market_scanning_engin.Settings.{Settings}
use ai_market_scanning_engin.Scanning.Models.{ValidationResult, ScanOutcome}
use ai_market_scanning_engin.Scanners.Candidate.{Column}
use ai_market_scanning_engin.Scanners.Contexts.{ScanContext, Context, daily_context}
use ai_market_scanning_engin.Scanners.Composite.{rounded_total, daily_total}

abbrev pub assertion_error : String
assertion_error = "AssertionError"

abbrev pub passed : ValidationResult
passed = record { valid = true; reason = [] }

-- The fields that a strategy asks for by name.
pub data Field : Type 0 where
  price_field ema20_field ema50_field ema200_field adx14_field relative_volume_field
        resistance_level_field momentum_score_field :
      Field

abbrev pub field_name : Field → String
field_name price_field = "price"
field_name ema20_field = "ema20"
field_name ema50_field = "ema50"
field_name ema200_field = "ema200"
field_name adx14_field = "adx14"
field_name relative_volume_field = "relative_volume"
field_name resistance_level_field = "resistance_level"
field_name momentum_score_field = "momentum_score"

module _ {D W : Type 0} where
  abbrev pub value_of : Field → ScanContext D W → Option D
  value_of price_field c = c.price
  value_of ema20_field c = c.features.ema20
  value_of ema50_field c = c.features.ema50
  value_of ema200_field c = c.features.ema200
  value_of adx14_field c = c.features.adx14
  value_of relative_volume_field c = c.features.relative_volume
  value_of resistance_level_field c = c.features.resistance_level
  value_of momentum_score_field c = c.features.momentum_score

  unfoldable pub require_fields : ScanContext D W → List Field → ValidationResult
  require_fields c [] = passed
  require_fields c (field ∷ rest) =
      let others = require_fields c rest in
      elim (value_of field c) [
        | none ↦ record {
          valid = false;
          reason = "missing required field: " ∷ field_name field ∷ [];
        }
        | some _ ↦ others
      ]

-- the labels of the checks that fail
unfoldable pub failed_labels : List (String × Bool) → List String
failed_labels [] = []
failed_labels ((label, check) ∷ rest) =
    let others = failed_labels rest in if check then others else label ∷ others

-- `all(checks.values())`
unfoldable pub all_checks : List (String × Bool) → Bool
all_checks [] = true
all_checks ((label, check) ∷ rest) = check && all_checks rest

unfoldable pub outcome_of : List (String × Bool) → ScanOutcome
unfolding failed_labels all_checks
outcome_of checks =
    if all_checks checks
    then record { qualified = true; reason = "all conditions met: " ∷ map (λ c. c.0) checks }
    else record { qualified = false; reason = "failed: " ∷ failed_labels checks }

module _ {D W : Type 0} ⦃f : Float W⦄ ⦃d : Column D W⦄ where
  unfoldable pub require_ranges : ScanContext D W → List (Field × W × W) → ValidationResult
  require_ranges c [] = passed
  require_ranges c ((field, low, high) ∷ rest) =
      let others = require_ranges c rest in
      elim (value_of field c) [
        | none ↦ others
        | some x ↦ if f.le low (d.to_float x) && f.le (d.to_float x) high then others else record {
          valid = false;
          reason = field_name field ∷ " outside expected range" ∷ [];
        }
      ]

  module _ (settings : Settings W) where
    unfoldable pub daily_score : Context D W → Result String W
    unfolding rounded_total daily_total
    daily_score (daily_context c) = ok (rounded_total (daily_total settings c.features c.price))
    daily_score _ = raise assertion_error
