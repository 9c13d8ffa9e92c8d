-- ===== src/Fundamentals/Apply.antt =====
-- app/fundamentals/queue_service.py: what `_process_one` writes to its row, with `_apply_result`.
use ai_market_scanning_engin.Prelude.{ℕ, String, Option, none, some, List, [], ◌∷◌, insert, Float}
use ai_market_scanning_engin.Settings.{Settings}
use ai_market_scanning_engin.Values.{Snapshot, Value, text, number, get}
use ai_market_scanning_engin.Scanning.Tables.{ResultRow}
use ai_market_scanning_engin.Scanners.Candidate.{
  Texts, list_value, number_or_null, quality_value, update,
}
use ai_market_scanning_engin.Scanners.Builder.{ScoreResult, combine_scores, quality_from_score}
use ai_market_scanning_engin.Scanners.Composite.{rounded_total}
use ai_market_scanning_engin.Fundamentals.Log.{
  FetchStatus, pending, processing, success, rate_limited, failed, cached,
}
use ai_market_scanning_engin.Fundamentals.Select.{coerce_float}

abbrev pub status_value : FetchStatus → String
status_value pending = "PENDING"
status_value processing = "PROCESSING"
status_value success = "SUCCESS"
status_value rate_limited = "RATE_LIMITED"
status_value failed = "FAILED"
status_value cached = "CACHED"

-- `snapshot["fundamental_status"] = status.value`
unfoldable pub mark_status : {W : Type 0} → FetchStatus → ResultRow W → ResultRow W
unfolding insert
mark_status status row = record row {
  feature_snapshot = insert "fundamental_status" (text (status_value status)) row.feature_snapshot;
}

-- `F` is the fundamental data: what the scorer gives for them, and their field sources as a JSON value.
module _ {F W : Type 0} ⦃f : Float W⦄ (settings : Settings W) (texts : Texts)
    (score : F → ScoreResult (Option W) W) (field_sources : F → Value W)
    (isoformat : ℕ → String) where
  unfoldable pub overall_score_of : F → Snapshot W → W
  unfolding coerce_float combine_scores rounded_total get
  overall_score_of found snapshot =
      rounded_total (
        combine_scores settings (score found).score (coerce_float (get "technical_score" snapshot)))

  unfoldable pub fundamental_entries : F → FetchStatus → ℕ → Snapshot W → List (String × Value W)
  unfolding overall_score_of quality_from_score
  fundamental_entries found status now snapshot =
      let result = score found in
      let overall_score = overall_score_of found snapshot in
      ("fundamental_score", number_or_null result.score)
      ∷ ("overall_score", number overall_score)
      ∷ ("quality", text (quality_value (quality_from_score overall_score)))
      ∷ ("fundamental_reasons", list_value texts result.positive_reasons)
      ∷ ("fundamental_factors", result.factors)
      ∷ ("fundamental_field_sources", field_sources found)
      ∷ ("risk_flags", list_value texts result.risk_flags)
      ∷ ("data_completeness_pct", number result.completeness)
      ∷ ("fundamental_status", text (status_value status))
      ∷ ("fundamental_fetched_at", text (isoformat now))
      ∷ []

  unfoldable pub apply_result : F → FetchStatus → ℕ → ResultRow W → ResultRow W
  unfolding fundamental_entries update
  apply_result found status now row = record row {
    feature_snapshot =
        update (fundamental_entries found status now row.feature_snapshot) row.feature_snapshot;
    score = overall_score_of found row.feature_snapshot;
  }

  -- the row after the fetch: `data is not None`, then `status in (FAILED, RATE_LIMITED)`
  unfoldable pub settle_row : Option F → FetchStatus → ℕ → ResultRow W → ResultRow W
  unfolding apply_result mark_status
  settle_row (some found) status now row = apply_result found status now row
  settle_row none failed now row = mark_status failed row
  settle_row none rate_limited now row = mark_status rate_limited row
  settle_row none _ now row = row
