-- ===== src/Scanners/Answers.antt =====
-- The asserts of the strategies of app/scanner and app/candidates, strategy by strategy.
use ai_market_scanning_engin.Prelude.{
  ℕ, String, true, ◌≡◌, refl, ap, ◌∙◌, Float, Result, ok, is_ok, is_ok→ok, arith,
}
use ai_market_scanning_engin.Settings.{Settings}
use ai_market_scanning_engin.Scanning.Models.{ValidationResult, ScanOutcome, Strategy, unchanged}
use ai_market_scanning_engin.Scanning.Errors.{IsAnswered}
use ai_market_scanning_engin.Scanners.Candidate.{Column, Texts}
use ai_market_scanning_engin.Scanners.Contexts.{
  Context, daily_context, orb_context, candidate_context, Rows,
}
use ai_market_scanning_engin.Scanners.Validator.{require_fields, require_ranges, daily_score}
use ai_market_scanning_engin.Scanners.Breakout.{breakout_validate, breakout_scan, breakout_v1}
use ai_market_scanning_engin.Scanners.Vcp.{vcp_validate, vcp_scan, vcp_v1}
use ai_market_scanning_engin.Scanners.Momentum.{momentum_validate, momentum_scan, momentum_v1}
use ai_market_scanning_engin.Scanners.Orb.{orb_validate, orb_scan, orb_score, orb_v1}
use ai_market_scanning_engin.Scanners.Builder.{Scorers}
use ai_market_scanning_engin.Scanners.Candidates.{candidate_validate, candidate_score}
use ai_market_scanning_engin.Scanners.CandidateScans.{fno_scan, pre_breakout_scan, ipo_scan}
use ai_market_scanning_engin.Scanners.Universes.{
  Universes, fno_momentum_v1, pre_breakout_v1, ipo_intraday_v1,
}
use ai_market_scanning_engin.Scanners.Built.{daily, orb, candidate, kind_of}

module _ {C W : Type 0} where
  -- a `scan` that leaves its context alone, and a score that does not look at the verdict
  answer_of :
      (scanner : Strategy C W) (c : C) (v : ValidationResult) (verdict : Result String ScanOutcome)
      → scanner.validate c ≡ ok v
      → scanner.scan c ≡ unchanged c verdict
      → (v.valid ≡ true → is_ok verdict ≡ true)
      → is_ok (scanner.score_of c) ≡ true
      → IsAnswered C W scanner c
  answer_of scanner c v verdict e s scans scores = record {
    validation = v;
    validates = e;
    answer = λ h.
        let o = is_ok→ok verdict (scans h) in
        let x = is_ok→ok (scanner.score_of c) scores in
        (o.0, c, s ∙ ap (unchanged c) o.1, x.0, x.1);
  }

module _ {D W : Type 0} ⦃f : Float W⦄ ⦃d : Column D W⦄ (settings : Settings W) (texts : Texts)
    (day : ℕ → ℕ) (scorers : Scorers W) (universes : Universes D) (rows : Rows D W) where
  pub breakout_v1-answers :
      (c : Context D W)
      → kind_of c ≡ daily
      → IsAnswered (Context D W) W (breakout_v1 settings texts day rows) c
  unfolding breakout_v1 breakout_validate breakout_scan daily_score kind_of require_fields
      require_ranges
  breakout_v1-answers (daily_context k) h =
      answer_of (breakout_v1 settings texts day rows) (daily_context k) _
        (breakout_scan settings (daily_context k)) refl refl (λ v. ground (arith, v)) refl
  breakout_v1-answers (orb_context k) h = absurd (ground (arith, h))
  breakout_v1-answers (candidate_context k) h = absurd (ground (arith, h))

  pub vcp_v1-answers :
      (c : Context D W)
      → kind_of c ≡ daily
      → IsAnswered (Context D W) W (vcp_v1 settings texts day rows) c
  unfolding vcp_v1 vcp_validate vcp_scan daily_score kind_of
  vcp_v1-answers (daily_context k) h =
      answer_of (vcp_v1 settings texts day rows) (daily_context k) _ (vcp_scan (daily_context k))
        refl refl (λ v. refl) refl
  vcp_v1-answers (orb_context k) h = absurd (ground (arith, h))
  vcp_v1-answers (candidate_context k) h = absurd (ground (arith, h))

  pub momentum_v1-answers :
      (c : Context D W)
      → kind_of c ≡ daily
      → IsAnswered (Context D W) W (momentum_v1 settings texts day rows) c
  unfolding momentum_v1 momentum_validate momentum_scan daily_score kind_of require_fields
  momentum_v1-answers (daily_context k) h =
      answer_of (momentum_v1 settings texts day rows) (daily_context k) _
        (momentum_scan settings (daily_context k)) refl refl (λ v. ground (arith, v)) refl
  momentum_v1-answers (orb_context k) h = absurd (ground (arith, h))
  momentum_v1-answers (candidate_context k) h = absurd (ground (arith, h))

  pub orb_v1-answers :
      (c : Context D W)
      → kind_of c ≡ orb
      → IsAnswered (Context D W) W (orb_v1 settings texts day rows) c
  unfolding orb_v1 orb_validate orb_scan orb_score kind_of
  orb_v1-answers (orb_context k) h =
      answer_of (orb_v1 settings texts day rows) (orb_context k) _ (orb_scan (orb_context k)) refl
        refl (λ v. ground (arith, v)) refl
  orb_v1-answers (daily_context k) h = absurd (ground (arith, h))
  orb_v1-answers (candidate_context k) h = absurd (ground (arith, h))

  pub fno_momentum_v1-answers :
      (c : Context D W)
      → kind_of c ≡ candidate
      → IsAnswered (Context D W) W (fno_momentum_v1 settings texts day scorers universes rows) c
  unfolding fno_momentum_v1 candidate_validate fno_scan candidate_score kind_of
  fno_momentum_v1-answers (candidate_context k) h = record {
    validation = _;
    validates = refl;
    answer = λ v. (_, _, refl, _, refl);
  }
  fno_momentum_v1-answers (daily_context k) h = absurd (ground (arith, h))
  fno_momentum_v1-answers (orb_context k) h = absurd (ground (arith, h))

  pub pre_breakout_v1-answers :
      (c : Context D W)
      → kind_of c ≡ candidate
      → IsAnswered (Context D W) W (pre_breakout_v1 settings texts day scorers universes rows) c
  unfolding pre_breakout_v1 candidate_validate pre_breakout_scan candidate_score kind_of
  pre_breakout_v1-answers (candidate_context k) h = record {
    validation = _;
    validates = refl;
    answer = λ v. (_, _, refl, _, refl);
  }
  pre_breakout_v1-answers (daily_context k) h = absurd (ground (arith, h))
  pre_breakout_v1-answers (orb_context k) h = absurd (ground (arith, h))

  pub ipo_intraday_v1-answers :
      (c : Context D W)
      → kind_of c ≡ candidate
      → IsAnswered (Context D W) W (ipo_intraday_v1 settings texts day scorers universes rows) c
  unfolding ipo_intraday_v1 candidate_validate ipo_scan candidate_score kind_of
  ipo_intraday_v1-answers (candidate_context k) h = record {
    validation = _;
    validates = refl;
    answer = λ v. (_, _, refl, _, refl);
  }
  ipo_intraday_v1-answers (daily_context k) h = absurd (ground (arith, h))
  ipo_intraday_v1-answers (orb_context k) h = absurd (ground (arith, h))
