-- ===== src/Scanners/Labels.antt =====
-- app/candidates: the verdict that `scan` writes into a candidate, in the snapshot of its row, and the bot
-- that app/notifications/router.py finds by it.
use ai_market_scanning_engin.Prelude.{
  String, Bool, Option, none, some, List, ◌≡◌, refl, ap, ◌∙◌, if◌then◌else◌, Float, Result, ok,
  raise, Bool-cases, inl, inr,
}
use ai_market_scanning_engin.Settings.{Settings}
use ai_market_scanning_engin.Values.{get}
use ai_market_scanning_engin.Alerts.Store.{Channel, default_bot, ipo_bot, fno_bot}
use ai_market_scanning_engin.Notifications.Router.{resolve}
use ai_market_scanning_engin.Notifications.Delivery.{category_of}
use ai_market_scanning_engin.Scanning.Models.{ScanOutcome}
use ai_market_scanning_engin.Scanners.Candidate.{
  Column, Texts, Universe, ipo_universe, fno_universe, listed_universe, SetupState, pre_breakout,
  breakout_confirmed, momentum, ipo_pre_breakout, fno_pre_breakout, StockCandidate,
  CandidateContext, AlertCategory, category_value, value_or_null, candidate_entries,
  to_feature_snapshot,
}
use ai_market_scanning_engin.Scanners.Updates.{last_entry, get-update}
use ai_market_scanning_engin.Scanners.Contexts.{Context, candidate_context, feature_snapshot_of}
use ai_market_scanning_engin.Scanners.Validator.{all_checks}
use ai_market_scanning_engin.Scanners.Candidates.{
  is_ipo, label_candidate, labelled, fno_category, ipo_category,
}
use ai_market_scanning_engin.Scanners.CandidateScans.{
  fno_checks, pre_breakout_checks, ipo_checks, fno_scan, pre_breakout_scan, ipo_scan,
}

-- the bot of an alert on a candidate that qualifies, or the one for alerts without a category
abbrev pub bot_when : Bool → Channel → Channel
bot_when qualifies bot = if qualifies then bot else default_bot

module _ {D W : Type 0} ⦃d : Column D W⦄ where
  get-to_feature_snapshot :
      (texts : Texts) (c : StockCandidate D W)
      → get "alert_category" (to_feature_snapshot texts c)
        ≡ value_or_null category_value c.alert_category
  unfolding to_feature_snapshot last_entry
  get-to_feature_snapshot texts c =
      get-update "alert_category" (candidate_entries texts c) c.technical_feature_snapshot

  -- whether a scan qualifies its candidate, and the bot of the row that is saved then
  abbrev pub routed_by : Texts → Result String (ScanOutcome × Context D W) → Option (Bool × Channel)
  routed_by texts (raise e) = none
  routed_by texts (ok (o, k)) =
      some (o.qualified, resolve (category_of (get "alert_category" (feature_snapshot_of texts k))))

  routed-label_candidate :
      (texts : Texts) (k : CandidateContext D W) (checks : List (String × Bool))
      (category : AlertCategory)
      → routed_by texts (labelled k.symbol (label_candidate checks category k.candidate))
        ≡ some (
          all_checks checks,
          bot_when (all_checks checks) (resolve (some (category_value category))),
        )
  unfolding label_candidate feature_snapshot_of category_of resolve
  routed-label_candidate texts k checks category =
      let after = (label_candidate checks category k.candidate).1 in
      rw (get-to_feature_snapshot texts after)
        (elim (Bool-cases (all_checks checks)) [ inl e ↦ rw e refl | inr e ↦ rw e refl ])

abbrev pub bot_of_universe : Universe → Channel
bot_of_universe universe = if is_ipo universe then ipo_bot else fno_bot

resolve-fno_category :
    (state : Option SetupState) → resolve (some (category_value (fno_category state))) ≡ fno_bot
unfolding resolve
resolve-fno_category none = refl
resolve-fno_category (some pre_breakout) = refl
resolve-fno_category (some breakout_confirmed) = refl
resolve-fno_category (some momentum) = refl

resolve-ipo_category :
    (state : Option SetupState) → resolve (some (category_value (ipo_category state))) ≡ ipo_bot
unfolding resolve
resolve-ipo_category none = refl
resolve-ipo_category (some pre_breakout) = refl
resolve-ipo_category (some breakout_confirmed) = refl
resolve-ipo_category (some momentum) = refl

resolve-pre_breakout_category :
    (universe : Universe)
    → resolve
        (some (category_value (if is_ipo universe then ipo_pre_breakout else fno_pre_breakout)))
      ≡ bot_of_universe universe
unfolding resolve
resolve-pre_breakout_category ipo_universe = refl
resolve-pre_breakout_category fno_universe = refl
resolve-pre_breakout_category listed_universe = refl

module _ {D W : Type 0} ⦃f : Float W⦄ ⦃d : Column D W⦄ where
  -- For every candidate, the F&O, the pre-breakout and the IPO scanner each qualify it exactly when all
  -- their checks hold, and the row that is saved then is one that the notification router sends to the bot
  -- of the scanner's universe (for the pre-breakout scanner, of the candidate's) when it qualified, and to
  -- the default bot when it did not.
  pub scans-routed_by :
      (settings : Settings W) (texts : Texts) (k : CandidateContext D W)
      → (routed_by texts (fno_scan settings (candidate_context k))
          ≡ some (
            all_checks (fno_checks settings k.candidate),
            bot_when (all_checks (fno_checks settings k.candidate)) fno_bot,
          ))
        × (routed_by texts (pre_breakout_scan settings (candidate_context k))
            ≡ some (
              all_checks (pre_breakout_checks settings k.candidate),
              bot_when
                  (all_checks (pre_breakout_checks settings k.candidate))
                  (bot_of_universe k.candidate.universe),
            ))
        × (routed_by texts (ipo_scan settings (candidate_context k))
            ≡ some (
              all_checks (ipo_checks settings k.candidate),
              bot_when (all_checks (ipo_checks settings k.candidate)) ipo_bot,
            ))
  unfolding fno_scan pre_breakout_scan ipo_scan
  scans-routed_by settings texts k =
      let c = k.candidate in
      let routed = routed-label_candidate texts k in
      (
        routed (fno_checks settings c) (fno_category c.setup_state)
            ∙ ap
                (λ bot. some (
                  all_checks (fno_checks settings c),
                  bot_when (all_checks (fno_checks settings c)) bot,
                ))
                (resolve-fno_category c.setup_state),
        routed (pre_breakout_checks settings c)
              (if is_ipo c.universe then ipo_pre_breakout else fno_pre_breakout)
            ∙ ap
                (λ bot. some (
                  all_checks (pre_breakout_checks settings c),
                  bot_when (all_checks (pre_breakout_checks settings c)) bot,
                ))
                (resolve-pre_breakout_category c.universe),
        routed (ipo_checks settings c) (ipo_category c.setup_state)
            ∙ ap
                (λ bot. some (
                  all_checks (ipo_checks settings c),
                  bot_when (all_checks (ipo_checks settings c)) bot,
                ))
                (resolve-ipo_category c.setup_state),
      )
