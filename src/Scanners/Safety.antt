-- ===== src/Scanners/Safety.antt =====
-- The registry of app/main.py: the asserts of its strategies, and what their contexts carry.
use ai_market_scanning_engin.Prelude.{
  ℕ, String, List, ◌≡◌, refl, ap, Float, Result, ok, raise, arith, All,
}
use ai_market_scanning_engin.Settings.{Settings}
use ai_market_scanning_engin.Scanning.Tables.{Tables}
use ai_market_scanning_engin.Scanning.Models.{Symbol, ScanOutcome, Writes, unchanged}
use ai_market_scanning_engin.Scanning.Errors.{IsGuarded, IsWritable, run_each-errors}
use ai_market_scanning_engin.Scanning.Standing.{KeepsContext}
use ai_market_scanning_engin.Scanning.Days.{IsFaithful}
use ai_market_scanning_engin.Scanning.Engine.{nothing_run, get_all, run_all_scanners}
use ai_market_scanning_engin.Scanners.Candidate.{
  Column, Texts, fno_universe, CandidateContext, StockCandidate,
}
use ai_market_scanning_engin.Scanners.Contexts.{
  Context, daily_context, orb_context, candidate_context, Rows, build_daily, build_orb, symbol_of,
  scan_date_of,
}
use ai_market_scanning_engin.Scanners.Breakout.{breakout_scan, breakout_v1}
use ai_market_scanning_engin.Scanners.Vcp.{vcp_scan, vcp_v1}
use ai_market_scanning_engin.Scanners.Momentum.{momentum_scan, momentum_v1}
use ai_market_scanning_engin.Scanners.Orb.{orb_scan, orb_v1}
use ai_market_scanning_engin.Scanners.Builder.{Scorers}
use ai_market_scanning_engin.Scanners.Candidates.{label_candidate, labelled}
use ai_market_scanning_engin.Scanners.CandidateScans.{fno_scan, pre_breakout_scan, ipo_scan}
use ai_market_scanning_engin.Scanners.Universes.{
  Universes, fno_momentum_v1, pre_breakout_v1, ipo_intraday_v1,
}
use ai_market_scanning_engin.Scanners.Built.{
  daily, orb, candidate, bulk-kind_of, bulk-symbol_of, build_daily-IsBuilt, build_orb-IsBuilt,
  build_context-IsBuilt, build_ipo_context-IsBuilt, build_pre_breakout_context-IsBuilt,
}
use ai_market_scanning_engin.Scanners.Answers.{
  breakout_v1-answers, vcp_v1-answers, momentum_v1-answers, orb_v1-answers, fno_momentum_v1-answers,
  pre_breakout_v1-answers, ipo_intraday_v1-answers,
}
use ai_market_scanning_engin.Scanners.Registry.{registered, registry, get_all-registry}

unchanged-keeps :
    {C : Type 0} (c : C) (verdict : Result String ScanOutcome) (o : ScanOutcome) (k : C)
    → unchanged c verdict ≡ ok (o, k)
    → k ≡ c
unchanged-keeps c (ok v) o k h = ground (arith, h)
unchanged-keeps c (raise e) o k h = absurd (ground (arith, h))

keeps-unchanged :
    {D W : Type 0} (day : ℕ → ℕ) (c : Context D W) (verdict : Result String ScanOutcome)
    (o : ScanOutcome) (k : Context D W)
    → unchanged c verdict ≡ ok (o, k)
    → ((symbol_of k).id ≡ (symbol_of c).id) × (scan_date_of day k ≡ scan_date_of day c)
keeps-unchanged day c verdict o k h =
    let e = unchanged-keeps c verdict o k h in
    (ap (λ x. (symbol_of x).id) e, ap (scan_date_of day) e)

keeps-labelled :
    {D W : Type 0} (day : ℕ → ℕ) (c : CandidateContext D W)
    (verdict : ScanOutcome × StockCandidate D W)
    → verdict.1.timestamp ≡ c.candidate.timestamp
    → (o : ScanOutcome) (k : Context D W) → labelled c.symbol verdict ≡ ok (o, k)
    → ((symbol_of k).id ≡ c.symbol.id) × (scan_date_of day k ≡ day c.candidate.timestamp)
unfolding scan_date_of
keeps-labelled day c (v, after) same o k h =
    let e : candidate_context (record { symbol = c.symbol; candidate = after }) ≡ k =
      ground (arith, h) in
    rw (← e) (refl, ap day same)

module _ {D W : Type 0} ⦃f : Float W⦄ ⦃d : Column D W⦄ (settings : Settings W) (texts : Texts)
    (day : ℕ → ℕ) (scorers : Scorers W) (universes : Universes D) (rows : Rows D W) where
  registered-IsGuarded :
      All
        (IsGuarded {C = Context D W} {W = W})
        (registered settings texts day scorers universes rows)
  unfolding breakout_v1 vcp_v1 momentum_v1 orb_v1 fno_momentum_v1 pre_breakout_v1 ipo_intraday_v1
  registered-IsGuarded =
      let on_daily = bulk-kind_of daily (build_daily rows) (build_daily-IsBuilt rows) in
      let on_fno =
        build_context-IsBuilt settings texts scorers universes rows fno_universe
          "fno_momentum_v1" in
      let on_pre = build_pre_breakout_context-IsBuilt settings texts scorers universes rows day in
      let on_ipo = build_ipo_context-IsBuilt settings texts scorers universes rows day in
      (
        λ symbols id c h.
            breakout_v1-answers settings texts day scorers universes rows c
              (on_daily symbols id c h),
        (
          λ symbols id c h.
              vcp_v1-answers settings texts day scorers universes rows c (on_daily symbols id c h),
          (
            λ symbols id c h.
                momentum_v1-answers settings texts day scorers universes rows c
                  (on_daily symbols id c h),
            (
              λ symbols id c h.
                  orb_v1-answers settings texts day scorers universes rows c
                    (bulk-kind_of orb (build_orb rows) (build_orb-IsBuilt rows) symbols id c h),
              (
                λ symbols id c h.
                    fno_momentum_v1-answers settings texts day scorers universes rows c
                      (bulk-kind_of candidate _ on_fno symbols id c h),
                (
                  λ symbols id c h.
                      pre_breakout_v1-answers settings texts day scorers universes rows c
                        (bulk-kind_of candidate _ on_pre symbols id c h),
                  (
                    λ symbols id c h.
                        ipo_intraday_v1-answers settings texts day scorers universes rows c
                          (bulk-kind_of candidate _ on_ipo symbols id c h),
                    tt,
                  ),
                ),
              ),
            ),
          ),
        ),
      )

  -- While the database takes every write, a pass of the seven registered strategies counts no error,
  -- whatever rows of features and prices there are: none of their asserts can fail, for a symbol that
  -- lacks what a strategy needs is turned down by its validation.
  pub run_all_scanners-no_errors :
      (writes : Writes W) (start_time finish_time : ℕ → ℕ) (symbols : List Symbol) (t : Tables W)
      → IsWritable W writes
      → (run_all_scanners writes start_time finish_time symbols
          (registry settings texts day scorers universes rows)
          t).1.totals.error_count
        ≡ 0
  unfolding run_all_scanners
  run_all_scanners-no_errors writes start_time finish_time symbols t w =
      rw (get_all-registry settings texts day scorers universes rows) (
        run_each-errors writes start_time finish_time symbols
          (registered settings texts day scorers universes rows) t nothing_run w
          registered-IsGuarded)

  fno_momentum_v1-KeepsContext :
      KeepsContext (fno_momentum_v1 settings texts day scorers universes rows)
  unfolding fno_momentum_v1 fno_scan label_candidate
  fno_momentum_v1-KeepsContext (candidate_context c) o k h = keeps-labelled day c _ refl o k h
  fno_momentum_v1-KeepsContext (daily_context c) o k h = absurd (ground (arith, h))
  fno_momentum_v1-KeepsContext (orb_context c) o k h = absurd (ground (arith, h))

  pre_breakout_v1-KeepsContext :
      KeepsContext (pre_breakout_v1 settings texts day scorers universes rows)
  unfolding pre_breakout_v1 pre_breakout_scan label_candidate
  pre_breakout_v1-KeepsContext (candidate_context c) o k h = keeps-labelled day c _ refl o k h
  pre_breakout_v1-KeepsContext (daily_context c) o k h = absurd (ground (arith, h))
  pre_breakout_v1-KeepsContext (orb_context c) o k h = absurd (ground (arith, h))

  ipo_intraday_v1-KeepsContext :
      KeepsContext (ipo_intraday_v1 settings texts day scorers universes rows)
  unfolding ipo_intraday_v1 ipo_scan label_candidate
  ipo_intraday_v1-KeepsContext (candidate_context c) o k h = keeps-labelled day c _ refl o k h
  ipo_intraday_v1-KeepsContext (daily_context c) o k h = absurd (ground (arith, h))
  ipo_intraday_v1-KeepsContext (orb_context c) o k h = absurd (ground (arith, h))

  registered-IsFaithful : All IsFaithful (registered settings texts day scorers universes rows)
  unfolding breakout_v1 vcp_v1 momentum_v1 orb_v1 fno_momentum_v1 pre_breakout_v1 ipo_intraday_v1
  registered-IsFaithful =
      let daily_symbol = bulk-symbol_of daily (build_daily rows) (build_daily-IsBuilt rows) in
      let on_fno =
        build_context-IsBuilt settings texts scorers universes rows fno_universe
          "fno_momentum_v1" in
      let on_pre = build_pre_breakout_context-IsBuilt settings texts scorers universes rows day in
      let on_ipo = build_ipo_context-IsBuilt settings texts scorers universes rows day in
      (
        (daily_symbol, λ c. keeps-unchanged day c (breakout_scan settings c)),
        (
          (daily_symbol, λ c. keeps-unchanged day c (vcp_scan c)),
          (
            (daily_symbol, λ c. keeps-unchanged day c (momentum_scan settings c)),
            (
              (
                bulk-symbol_of orb (build_orb rows) (build_orb-IsBuilt rows),
                λ c. keeps-unchanged day c (orb_scan c),
              ),
              (
                (bulk-symbol_of candidate _ on_fno, fno_momentum_v1-KeepsContext),
                (
                  (bulk-symbol_of candidate _ on_pre, pre_breakout_v1-KeepsContext),
                  ((bulk-symbol_of candidate _ on_ipo, ipo_intraday_v1-KeepsContext), tt),
                ),
              ),
            ),
          ),
        ),
      )

  pub registry-IsFaithful :
      All IsFaithful (get_all (registry settings texts day scorers universes rows))
  registry-IsFaithful =
      rw (get_all-registry settings texts day scorers universes rows) registered-IsFaithful
