-- ===== src/Scanners/Scores.antt =====
-- The scores of the rows that the registered strategies write.
use ai_market_scanning_engin.Prelude.{
  IsOrdered, ℕ, String, Option, some, List, ◌≡◌, refl, subst, sym, Float, ok, arith, All,
  Option-cases, inl, inr,
}
use ai_market_scanning_engin.Settings.{Settings}
use ai_market_scanning_engin.Scanning.Tables.{Tables}
use ai_market_scanning_engin.Scanning.Models.{Symbol, ScanOutcome, Writes}
use ai_market_scanning_engin.Scanning.Engine.{nothing_run, run_all_scanners}
use ai_market_scanning_engin.Scanners.Candidate.{
  Column, Texts, fno_universe, ipo_universe, Universe, CandidateContext, StockCandidate,
}
use ai_market_scanning_engin.Scanners.Contexts.{
  Context, daily_context, orb_context, candidate_context, Rows, bulk,
}
use ai_market_scanning_engin.Scanners.Validator.{daily_score}
use ai_market_scanning_engin.Scanners.Breakout.{breakout_v1}
use ai_market_scanning_engin.Scanners.Vcp.{vcp_v1}
use ai_market_scanning_engin.Scanners.Momentum.{momentum_v1}
use ai_market_scanning_engin.Scanners.Orb.{orb_v1}
use ai_market_scanning_engin.Scanners.Builder.{Scorers}
use ai_market_scanning_engin.Scanners.Candidates.{candidate_score, label_candidate, labelled}
use ai_market_scanning_engin.Scanners.CandidateScans.{fno_scan, pre_breakout_scan, ipo_scan}
use ai_market_scanning_engin.Scanners.Universes.{
  Universes, fno_momentum_v1, pre_breakout_v1, ipo_intraday_v1,
}
use ai_market_scanning_engin.Scanners.Registry.{registered, registry, get_all-registry}
use ai_market_scanning_engin.Scanning.Rows.{GivesRows, run_each-All}
use ai_market_scanning_engin.Scanning.Manager.{result_row}
use ai_market_scanning_engin.Scanners.Builder.{
  combine_scores, build_candidate, stock_candidate, build_context,
}
use ai_market_scanning_engin.Scanners.Universes.{
  add_ipo_values, build_ipo_context, build_pre_breakout_context,
}
use ai_market_scanning_engin.Scanners.Built.{bulk_induction}
use ai_market_scanning_engin.Scanners.Bounds.{
  IsScore, IsScoredRow, IsRounding, rounded_total-IsScore, round2-IsScore, daily_score-IsScore,
  orb_score-IsScore,
}

module _ {D W : Type 0} ⦃f : Float W⦄ where
  -- the score of a candidate, in a context that has one
  IsScoredCandidate : Context D W → Type 0
  IsScoredCandidate (candidate_context c) = IsScore c.candidate.overall_score
  IsScoredCandidate _ = Unit

  IsScore-labelled :
      (laws : IsOrdered W) (rounding : IsRounding W) (c : CandidateContext D W)
      (verdict : ScanOutcome × StockCandidate D W)
      → verdict.1.overall_score ≡ c.candidate.overall_score
      → IsScore c.candidate.overall_score
      → (o : ScanOutcome) (k : Context D W) (x : W) → labelled c.symbol verdict ≡ ok (o, k)
      → candidate_score k ≡ ok x
      → IsScore (f.round2 x)
  unfolding candidate_score
  IsScore-labelled laws rounding c (v, after) same h o k x hs hx =
      let e : candidate_context (record { symbol = c.symbol; candidate = after }) ≡ k =
        ground (arith, hs) in
      let scored : candidate_score
            (candidate_context (record { symbol = c.symbol; candidate = after }))
          ≡ ok x =
        subst (λ z. candidate_score z ≡ ok x) (sym e) hx in
      let ex : c.candidate.overall_score ≡ x = ground (arith, scored, same) in
      round2-IsScore laws rounding x (rw (← ex) h)

module _ {D W : Type 0} ⦃f : Float W⦄ ⦃d : Column D W⦄ (laws : IsOrdered W)
    (rounding : IsRounding W) (settings : Settings W) (texts : Texts) (day : ℕ → ℕ)
    (scorers : Scorers W) (universes : Universes D) (rows : Rows D W) where
  build_context-IsScored :
      (universe : Universe) (name : String) (s : Symbol) (c : Context D W)
      → build_context settings texts scorers rows universe name s ≡ some c
      → IsScoredCandidate c
  unfolding build_context build_candidate stock_candidate IsScoredCandidate
  build_context-IsScored universe name s (daily_context c) h = tt
  build_context-IsScored universe name s (orb_context c) h = tt
  build_context-IsScored universe name s (candidate_context c) h = ground (
    arith,
    h,
    rounded_total-IsScore laws rounding
        (combine_scores settings scorers.fundamental.score (scorers.technical s.id).score),
  )

  add_ipo_values-IsScored :
      (b : Context D W)
      → IsScoredCandidate b
      → IsScoredCandidate (add_ipo_values settings texts day scorers universes rows b)
  unfolding add_ipo_values IsScoredCandidate
  add_ipo_values-IsScored (candidate_context b) h = h
  add_ipo_values-IsScored (daily_context b) h = h
  add_ipo_values-IsScored (orb_context b) h = h

  build_ipo_context-IsScored :
      (s : Symbol) (c : Context D W)
      → build_ipo_context settings texts day scorers universes rows s ≡ some c
      → IsScoredCandidate c
  unfolding build_ipo_context
  build_ipo_context-IsScored s c h =
      elim (Option-cases
        (build_context settings texts scorers rows ipo_universe "ipo_intraday_v1" s)) [
          | inl e ↦ absurd (ground (arith, e, h))
          | inr (b, e) ↦
              let same : add_ipo_values settings texts day scorers universes rows b ≡ c =
                ground (arith, e, h) in
              rw (← same) (
                add_ipo_values-IsScored b
                  (build_context-IsScored ipo_universe "ipo_intraday_v1" s b e))
        ]

  build_pre_breakout_context-IsScored :
      (s : Symbol) (c : Context D W)
      → build_pre_breakout_context settings texts day scorers universes rows s ≡ some c
      → IsScoredCandidate c
  unfolding build_pre_breakout_context
  build_pre_breakout_context-IsScored s c h = build_context-IsScored _ "pre_breakout_v1" s c h

  bulk-IsScored :
      (build : Symbol → Option (Context D W))
      → ((s : Symbol) (c : Context D W) → build s ≡ some c → IsScoredCandidate c)
      → (symbols : List Symbol) (id : ℕ) (c : Context D W) → bulk build symbols id ≡ some c
      → IsScoredCandidate c
  bulk-IsScored build each symbols id c =
      bulk_induction IsScoredCandidate build symbols id c (λ s y h. each s c h)

  fno_momentum_v1-scores :
      (c : Context D W)
      → IsScoredCandidate c
      → (o : ScanOutcome) (k : Context D W) (x : W) → fno_scan settings c ≡ ok (o, k)
      → candidate_score k ≡ ok x
      → IsScore (f.round2 x)
  unfolding fno_scan label_candidate IsScoredCandidate
  fno_momentum_v1-scores (candidate_context c) scored o k x hs hx =
      IsScore-labelled laws rounding c _ refl scored o k x hs hx
  fno_momentum_v1-scores (daily_context c) scored o k x hs hx = absurd (ground (arith, hs))
  fno_momentum_v1-scores (orb_context c) scored o k x hs hx = absurd (ground (arith, hs))

  pre_breakout_v1-scores :
      (c : Context D W)
      → IsScoredCandidate c
      → (o : ScanOutcome) (k : Context D W) (x : W) → pre_breakout_scan settings c ≡ ok (o, k)
      → candidate_score k ≡ ok x
      → IsScore (f.round2 x)
  unfolding pre_breakout_scan label_candidate IsScoredCandidate
  pre_breakout_v1-scores (candidate_context c) scored o k x hs hx =
      IsScore-labelled laws rounding c _ refl scored o k x hs hx
  pre_breakout_v1-scores (daily_context c) scored o k x hs hx = absurd (ground (arith, hs))
  pre_breakout_v1-scores (orb_context c) scored o k x hs hx = absurd (ground (arith, hs))

  ipo_intraday_v1-scores :
      (c : Context D W)
      → IsScoredCandidate c
      → (o : ScanOutcome) (k : Context D W) (x : W) → ipo_scan settings c ≡ ok (o, k)
      → candidate_score k ≡ ok x
      → IsScore (f.round2 x)
  unfolding ipo_scan label_candidate IsScoredCandidate
  ipo_intraday_v1-scores (candidate_context c) scored o k x hs hx =
      IsScore-labelled laws rounding c _ refl scored o k x hs hx
  ipo_intraday_v1-scores (daily_context c) scored o k x hs hx = absurd (ground (arith, hs))
  ipo_intraday_v1-scores (orb_context c) scored o k x hs hx = absurd (ground (arith, hs))

  registered-GivesRows :
      All (GivesRows IsScoredRow) (registered settings texts day scorers universes rows)
  unfolding breakout_v1 vcp_v1 momentum_v1 orb_v1 fno_momentum_v1 pre_breakout_v1 ipo_intraday_v1
      result_row
  registered-GivesRows =
      let daily_row : (k : Context D W) (x : W)
          → daily_score settings k ≡ ok x
          → IsScore (f.round2 x) =
        λ k x hx.
          round2-IsScore laws rounding x (daily_score-IsScore laws rounding settings k x hx) in
      let on_fno = bulk-IsScored _ (build_context-IsScored fno_universe "fno_momentum_v1") in
      let on_pre = bulk-IsScored _ build_pre_breakout_context-IsScored in
      let on_ipo = bulk-IsScored _ build_ipo_context-IsScored in
      (
        λ symbols id c h o k x hs hx. daily_row k x hx,
        (
          λ symbols id c h o k x hs hx. daily_row k x hx,
          (
            λ symbols id c h o k x hs hx. daily_row k x hx,
            (
              λ symbols id c h o k x hs hx.
                  round2-IsScore laws rounding x (orb_score-IsScore laws rounding settings k x hx),
              (
                λ symbols id c h o k x hs hx.
                    fno_momentum_v1-scores c (on_fno symbols id c h) o k x hs hx,
                (
                  λ symbols id c h o k x hs hx.
                      pre_breakout_v1-scores c (on_pre symbols id c h) o k x hs hx,
                  (
                    λ symbols id c h o k x hs hx.
                        ipo_intraday_v1-scores c (on_ipo symbols id c h) o k x hs hx,
                    tt,
                  ),
                ),
              ),
            ),
          ),
        ),
      )

  -- Whatever features, prices, scores and weights there are, a pass of the registered strategies leaves
  -- only rows whose score lies from 0 to 100 or is a NaN, when the rows before it are such. The
  -- comparisons of floats, and rounding to two places, are as Python promises.
  pub run_all_scanners-IsScored :
      (writes : Writes W) (start_time finish_time : ℕ → ℕ) (symbols : List Symbol) (t : Tables W)
      → All IsScoredRow t.results
      → All IsScoredRow
          (run_all_scanners writes start_time finish_time symbols
            (registry settings texts day scorers universes rows)
            t).0.results
  unfolding run_all_scanners
  run_all_scanners-IsScored writes start_time finish_time symbols t h =
      rw (get_all-registry settings texts day scorers universes rows) (
        run_each-All IsScoredRow writes start_time finish_time symbols
          (registered settings texts day scorers universes rows) t nothing_run registered-GivesRows
          h)
