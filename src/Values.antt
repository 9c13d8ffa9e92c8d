-- ===== src/Values.antt =====
-- The values of a `feature_snapshot` (a JSON object, `dict[str, object]`), and what the code asks of
-- them: `dict.get`, truth, and text.
use ai_market_scanning_engin.Prelude.{
  String, Bool, true, false, not, ◌&&◌, List, [], ◌∷◌, Float, if◌then◌else◌, str_eq,
}

pub data Value (W : Type 0) : Type 0 where
  null : Value W
  flag : Bool → Value W
  number : W → Value W
  text : String → Value W
  -- a list or an object: whether it is empty, and its text
  nested : (empty : Bool) (shown : String) → Value W

abbrev pub Snapshot : Type 0 → Type 0
Snapshot W = List (String × Value W)

module _ {W : Type 0} where
  -- `snapshot.get(key)`: a missing key reads as `None`.
  unfoldable pub get : String → Snapshot W → Value W
  get key [] = null
  get key ((k, v) ∷ rest) = if str_eq k key then v else get key rest

  -- `value in (None, "None")`
  unfoldable pub is_missing : Value W → Bool
  is_missing null = true
  is_missing (text s) = str_eq s "None"
  is_missing _ = false

module _ {W : Type 0} ⦃f : Float W⦄ where
  -- `bool(value)`
  unfoldable pub truthy : Value W → Bool
  truthy null = false
  truthy (flag b) = b
  truthy (number x) = not (f.le x (f.lit 0) && f.le (f.lit 0) x)
  truthy (text s) = not (str_eq s "")
  truthy (nested empty shown) = not empty

  -- `a or b`
  unfoldable pub either : Value W → Value W → Value W
  unfolding truthy
  either a b = if truthy a then a else b

  -- `str(value)`
  unfoldable pub shown : Value W → String
  shown null = "None"
  shown (flag true) = "True"
  shown (flag false) = "False"
  shown (number x) = f.to_text x
  shown (text s) = s
  shown (nested empty s) = s
