-- ===== src/Scanners/Candidates.antt =====
-- app/candidates/scanner_base.py, fno_momentum_scanner.py, pre_breakout_scanner.py and
-- ipo_intraday_scanner.py. `scan` writes its verdict into the candidate. Of the reasons, the numbers are
-- left out; the symbols of the two universes are arguments.
use ai_market_scanning_engin.Prelude.{
  String, Bool, true, false, Option, none, some, List, [], ◌∷◌, if◌then◌else◌, Float, Result, ok,
  raise,
}
use ai_market_scanning_engin.Values.{Value, null, get}
use ai_market_scanning_engin.Decision.Validator.{to_float}
use ai_market_scanning_engin.Scanning.Models.{Symbol, ValidationResult, ScanOutcome}
use ai_market_scanning_engin.Scanners.Candidate.{
  Column, Universe, ipo_universe, SetupState, pre_breakout, breakout_confirmed, momentum,
  AlertCategory, ipo_pre_breakout, ipo_breakout, ipo_momentum, fno_breakout, fno_momentum,
  StockCandidate,
}
use ai_market_scanning_engin.Scanners.Contexts.{Context, candidate_context}
use ai_market_scanning_engin.Scanners.Validator.{assertion_error, passed, all_checks, failed_labels}

abbrev pub is_ipo : Universe → Bool
is_ipo ipo_universe = true
is_ipo _ = false

abbrev pub is_null : {W : Type 0} → Value W → Bool
is_null null = true
is_null _ = false

-- the labels of the checks that hold
unfoldable pub passed_labels : List (String × Bool) → List String
passed_labels [] = []
passed_labels ((label, check) ∷ rest) =
    let others = passed_labels rest in if check then label ∷ others else others

module _ {D W : Type 0} where
  -- `CandidateScannerBase.validate`
  unfoldable pub candidate_validate : Context D W → Result String ValidationResult
  unfolding get
  candidate_validate (candidate_context k) =
      let c = k.candidate in
      ok (
        if is_ipo c.universe then passed else elim c.setup_state [
          | none ↦ record { valid = false; reason = "no identifiable setup state" ∷ [] }
          | some _ ↦
              if is_null (get "adx14" c.technical_feature_snapshot)
              then record { valid = false; reason = "missing adx14/relative_volume" ∷ [] }
              else if is_null (get "relative_volume" c.technical_feature_snapshot)
              then record { valid = false; reason = "missing adx14/relative_volume" ∷ [] }
              else passed
        ])
  candidate_validate _ = raise assertion_error

  -- what every `scan` writes into its candidate
  unfoldable pub label_candidate :
      List (String × Bool) → AlertCategory → StockCandidate D W → ScanOutcome × StockCandidate D W
  unfolding all_checks passed_labels failed_labels
  label_candidate checks category c =
      let qualifies = all_checks checks in
      let passes = passed_labels checks in
      let failures = failed_labels checks in
      let why = if qualifies then "all conditions met: " ∷ passes else "failed: " ∷ failures in
      (
        record { qualified = qualifies; reason = why },
        record c {
          passed_rules = passes;
          failed_rules = failures;
          alert_category = if qualifies then some category else none;
          reason = why;
        },
      )

  abbrev pub labelled :
      Symbol → ScanOutcome × StockCandidate D W → Result String (ScanOutcome × Context D W)
  labelled symbol (outcome, candidate) =
      ok (outcome, candidate_context (record { symbol = symbol; candidate = candidate }))

  unfoldable pub candidate_score : Context D W → Result String W
  candidate_score (candidate_context k) = ok k.candidate.overall_score
  candidate_score _ = raise assertion_error

abbrev pub is_pre_breakout : Option SetupState → Bool
is_pre_breakout (some pre_breakout) = true
is_pre_breakout _ = false

abbrev pub is_momentum_or_confirmed : Option SetupState → Bool
is_momentum_or_confirmed (some momentum) = true
is_momentum_or_confirmed (some breakout_confirmed) = true
is_momentum_or_confirmed _ = false

abbrev pub has_setup : Option SetupState → Bool
has_setup (some _) = true
has_setup none = false

abbrev pub fno_category : Option SetupState → AlertCategory
fno_category (some momentum) = fno_momentum
fno_category _ = fno_breakout

abbrev pub ipo_category : Option SetupState → AlertCategory
ipo_category (some momentum) = ipo_momentum
ipo_category (some breakout_confirmed) = ipo_breakout
ipo_category _ = ipo_pre_breakout

module _ {W : Type 0} ⦃f : Float W⦄ where
  -- `x is not None and x >= threshold`, and with `>`
  abbrev pub at_least : W → Option W → Bool
  at_least threshold none = false
  at_least threshold (some x) = f.le threshold x

  abbrev pub more_than : W → Option W → Bool
  more_than threshold none = false
  more_than threshold (some x) = f.lt threshold x

module _ {D W : Type 0} ⦃f : Float W⦄ ⦃d : Column D W⦄ where
  abbrev pub feature_of : StockCandidate D W → String → Option W
  feature_of c key = to_float (get key c.technical_feature_snapshot)

  abbrev pub price_of : StockCandidate D W → Option W
  price_of c = elim c.price [ none ↦ none | some p ↦ some (d.to_float p) ]
