-- ===== src/Decision/Validator.antt =====
-- app/decision/validator.py.
use ai_market_scanning_engin.Prelude.{
  ℕ, ◌-◌, Bool, true, false, String, Option, none, some, List, [], ◌∷◌, Float, if◌then◌else◌, leb,
}
use ai_market_scanning_engin.Values.{
  Value, null, flag, number, text, nested, Snapshot, get, is_missing,
}

module _ {W : Type 0} where
  unfoldable pub missing_features : Snapshot W → List String → List String
  unfolding get is_missing
  missing_features snapshot [] = []
  missing_features snapshot (key ∷ keys) =
      let rest = missing_features snapshot keys in
      if is_missing (get key snapshot) then key ∷ rest else rest

-- `(reference - scan_date).days <= max_age_days`. A scan date in the future counts as age 0, which is
-- within every limit, as the negative number of days is in the source.
unfoldable pub is_fresh : ℕ → ℕ → ℕ → Bool
is_fresh scan_date max_age_days reference = leb (reference - scan_date) max_age_days

module _ {W : Type 0} ⦃f : Float W⦄ where
  -- `float(value)`, with `none` where it raises
  unfoldable pub to_float : Value W → Option W
  to_float null = none
  to_float (flag true) = some (f.lit 1)
  to_float (flag false) = some (f.lit 0)
  to_float (number x) = some x
  to_float (text s) = f.of_text s
  to_float (nested empty shown) = none

  unfoldable pub as_float : Snapshot W → String → Option W
  unfolding get is_missing to_float
  as_float snapshot key =
      let value = get key snapshot in if is_missing value then none else to_float value
