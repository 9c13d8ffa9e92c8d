-- ===== src/Decision/Verdicts.antt =====
-- app/decision/evaluator.py: when a candidate is rejected, watched or alerted on.
use ai_market_scanning_engin.Calendar.Trading.{is_market_open}
use ai_market_scanning_engin.Decision.Evaluator.{
  has_name, any_in, with_status, all_in, data_quality_rules, evaluate, verdict, status_eq,
  core_alert_rules, name_index, verdict,
}
use ai_market_scanning_engin.Prelude.{
  ℕ, ◌≡◌, ◌⊎◌, Float, arith, List, ◌&&◌, ◌||◌, ◌∷◌, ◌==◌, [], Bool, Bool-cases, false, true, refl,
  inl, inr, if◌then◌else◌, none, not, some,
}
use ai_market_scanning_engin.Runtime.{Runtime}
use ai_market_scanning_engin.Settings.{Settings}
use ai_market_scanning_engin.Decision.Models.{
  DecisionCandidate, pass, fail, warning, RuleStatus, Quality, high, medium, low, alert, watch,
  reject,
}
use ai_market_scanning_engin.Decision.Rules.{
  check_required_features, check_data_freshness, check_minimum_score, check_trend,
  check_relative_volume, check_adx, check_resistance_proximity, check_market_session,
  market_session, RuleResult, RuleName, result, required_features, data_freshness, minimum_score,
  trend, relative_volume, adx, resistance_proximity, pass_if, run_rules,
}

-- Looking a name up among those with a status, one result at a time.
has_name-with_status :
    (n : RuleName) (wanted : RuleStatus) (r : RuleResult) (rest : List RuleResult)
    → has_name n (with_status wanted (r ∷ rest)) ≡ (
        ((name_index r.rule_name == name_index n) && status_eq r.status wanted)
        || has_name n (with_status wanted rest))
unfolding has_name with_status
has_name-with_status n wanted r rest = ground arith

has_name-nil : (n : RuleName) (wanted : RuleStatus) → has_name n (with_status wanted []) ≡ false
unfolding has_name with_status
has_name-nil n wanted = refl

or_false : (b : Bool) → (b || false) ≡ b
or_false true = refl
or_false false = refl

and_true : (b : Bool) → (b && true) ≡ b
and_true true = refl
and_true false = refl

ruleset name_laws = (has_name-with_status, has_name-nil, or_false, and_true)

pass_if-cases : (b : Bool) → (pass_if b ≡ pass) ⊎ (pass_if b ≡ fail)
pass_if-cases true = inl refl
pass_if-cases false = inr refl

module _ (features fresh score stack volume strength near session : RuleStatus) where
  abbrev eight : List RuleResult
  eight =
      result required_features features
      ∷ result data_freshness fresh
      ∷ result minimum_score score
      ∷ result trend stack
      ∷ result relative_volume volume
      ∷ result adx strength
      ∷ result resistance_proximity near
      ∷ result market_session session
      ∷ []

  quality_failed :
      any_in data_quality_rules (with_status fail eight)
      ≡ (status_eq features fail || status_eq fresh fail)
  unfolding any_in
  quality_failed = simp name_laws

  core_passed : all_in core_alert_rules (with_status pass eight) ≡ (
      status_eq score pass
      && (status_eq stack pass
          && (status_eq volume pass && (status_eq strength pass && status_eq near pass))))
  unfolding all_in
  core_passed = simp name_laws

  session_warned : has_name market_session (with_status warning eight) ≡ status_eq session warning
  session_warned = simp name_laws

status_eq-≡ : (a b : RuleStatus) → status_eq a b ≡ true → a ≡ b
status_eq-≡ pass pass e = refl
status_eq-≡ fail fail e = refl
status_eq-≡ warning warning e = refl
status_eq-≡ pass fail e = ground arith
status_eq-≡ pass warning e = ground arith
status_eq-≡ fail pass e = ground arith
status_eq-≡ fail warning e = ground arith
status_eq-≡ warning pass e = ground arith
status_eq-≡ warning fail e = ground arith

-- The verdict on eight results, in terms of their statuses.
module _ {W : Type 0} ⦃f : Float W⦄ (settings : Settings W) (score : W) where
  abbrev qualified_quality : Quality
  qualified_quality = if f.le settings.alert_high_priority_score score then high else medium

  verdict-eight :
      (features fresh minimum stack volume strength near session : RuleStatus)
      → verdict settings score (eight features fresh minimum stack volume strength near session) ≡ (
          if status_eq features fail || status_eq fresh fail
          then (reject, none)
          else if (status_eq minimum pass
                && (status_eq stack pass
                    && (status_eq volume pass && (status_eq strength pass && status_eq near pass))))
              && not (status_eq session warning)
          then (alert, some qualified_quality)
          else (watch, some low))
  unfolding verdict
  verdict-eight a b c d e g h i =
      rw (
        quality_failed a b c d e g h i,
        core_passed a b c d e g h i,
        session_warned a b c d e g h i,
      )

pass-status_eq : (a : RuleStatus) → a ≡ pass → status_eq a pass ≡ true
pass-status_eq a e = rw e

and-parts : (a b : Bool) → (a && b) ≡ true → (a ≡ true) × (b ≡ true)
and-parts true b e = (refl, e)
and-parts false b e = ground arith

not-true : (b : Bool) → not b ≡ true → b ≡ false
not-true true e = ground arith
not-true false e = refl

-- What eight statuses mean, where the rules on quality and session have two values each.
module _ (a b c d e g h i : RuleStatus) where
  abbrev AllPass : Type 0
  AllPass = (c ≡ pass) × (d ≡ pass) × (e ≡ pass) × (g ≡ pass) × (h ≡ pass) × (i ≡ pass)

  abbrev alerts : Bool
  alerts =
      (status_eq c pass
        && (status_eq d pass && (status_eq e pass && (status_eq g pass && status_eq h pass))))
      && not (status_eq i warning)

  AllPass-alerts : AllPass → alerts ≡ true
  AllPass-alerts (ec, ed, ee, eg, eh, ei) = rw (ec, ed, ee, eg, eh, ei)

  alerts-AllPass : (i ≡ pass) ⊎ (i ≡ warning) → alerts ≡ true → AllPass
  alerts-AllPass r t =
      let both = and-parts _ _ t in
      let p1 = and-parts _ _ both.0 in
      let p2 = and-parts _ _ p1.1 in
      let p3 = and-parts _ _ p2.1 in
      let p4 = and-parts _ _ p3.1 in
      (
        status_eq-≡ c pass p1.0,
        status_eq-≡ d pass p2.0,
        status_eq-≡ e pass p3.0,
        status_eq-≡ g pass p4.0,
        status_eq-≡ h pass p4.1,
        elim r [ inl q ↦ q | inr q ↦ cc (not-true _ both.1, q) ],
      )

  eight_cases :
      (a ≡ pass) ⊎ (a ≡ fail)
      → (b ≡ pass) ⊎ (b ≡ fail)
      → (i ≡ pass) ⊎ (i ≡ warning)
      → (¬ ((a ≡ pass) × (b ≡ pass)) × ((status_eq a fail || status_eq b fail) ≡ true))
        ⊎ ((a ≡ pass) × (b ≡ pass) × AllPass)
        ⊎ ((a ≡ pass) × (b ≡ pass) × ¬ AllPass × (alerts ≡ false))
  eight_cases p q r = elim p [
    | inr ea ↦ inl ((λ x. cc), rw ea)
    | inl ea ↦ elim q [
      | inr eb ↦ inl ((λ x. cc), rw (ea, eb))
      | inl eb ↦ elim (Bool-cases alerts) [
        | inl t ↦ inr (inl (ea, eb, alerts-AllPass r t))
        | inr t ↦ inr (inr (ea, eb, (λ x. cc (AllPass-alerts x, t)), t))
      ]
    ]
  ]

module _ (rt : Runtime) {W : Type 0} ⦃f : Float W⦄ (settings : Settings W) where
  -- what the eight rules say of a candidate
  abbrev pub TrustsData : DecisionCandidate W → ℕ → Type 0
  TrustsData c now =
      (check_required_features c ≡ pass) × (check_data_freshness rt settings c now ≡ pass)

  abbrev pub Qualifies : DecisionCandidate W → ℕ → Type 0
  Qualifies c now =
      (check_minimum_score settings c ≡ pass)
      × (check_trend settings c ≡ pass)
      × (check_relative_volume settings c ≡ pass)
      × (check_adx settings c ≡ pass)
      × (check_resistance_proximity settings c ≡ pass)
      × (check_market_session rt settings now ≡ pass)

  -- A rule on data quality gives pass or fail, and the session rule pass or warning.
  two_valued :
      (c : DecisionCandidate W) (now : ℕ)
      → ((check_required_features c ≡ pass) ⊎ (check_required_features c ≡ fail))
        × ((check_data_freshness rt settings c now ≡ pass)
            ⊎ (check_data_freshness rt settings c now ≡ fail))
        × ((check_market_session rt settings now ≡ pass)
            ⊎ (check_market_session rt settings now ≡ warning))
  unfolding check_required_features check_data_freshness check_market_session
  two_valued c now = (
    pass_if-cases _,
    pass_if-cases _,
    elim (Bool-cases (is_market_open rt settings now)) [ inl e ↦ inl (rw e) | inr e ↦ inr (rw e) ],
  )

  -- Every candidate is judged in one of three ways. Rejected, without a quality, exactly when a
  -- data-quality rule does not pass (missing features or stale data). Otherwise an alert exactly
  -- when score, trend, relative volume, adx, resistance proximity and the market session all pass,
  -- of high quality from the high-priority score on and medium below it; and otherwise watched,
  -- with low quality.
  pub evaluate_verdict :
      (c : DecisionCandidate W) (now : ℕ)
      → (¬ TrustsData c now
          × ((evaluate rt settings c now).decision ≡ reject)
          × ((evaluate rt settings c now).quality ≡ none))
        ⊎ (TrustsData c now
            × Qualifies c now
            × ((evaluate rt settings c now).decision ≡ alert)
            × ((evaluate rt settings c now).quality
                ≡ some (if f.le settings.alert_high_priority_score c.score then high else medium)))
        ⊎ (TrustsData c now
            × ¬ Qualifies c now
            × ((evaluate rt settings c now).decision ≡ watch)
            × ((evaluate rt settings c now).quality ≡ some low))
  unfolding evaluate run_rules
  evaluate_verdict c now =
      let v =
        verdict-eight settings c.score (check_required_features c)
          (check_data_freshness rt settings c now) (check_minimum_score settings c)
          (check_trend settings c) (check_relative_volume settings c) (check_adx settings c)
          (check_resistance_proximity settings c) (check_market_session rt settings now) in
      let two = two_valued c now in
      elim (eight_cases _ _ (check_minimum_score settings c) (check_trend settings c)
        (check_relative_volume settings c) (check_adx settings c)
        (check_resistance_proximity settings c) (check_market_session rt settings now) two.0 two.1
        two.2) [
          | inl (against, t) ↦ inl (against, rw (v, t), rw (v, t))
          | inr (inl (ea, eb, all)) ↦ inr (
              inl (
                (ea, eb),
                all,
                rw (v, ea, eb, all.0, all.1, all.2, all.3, all.4, all.5),
                rw (v, ea, eb, all.0, all.1, all.2, all.3, all.4, all.5),
              ))
          | inr (inr (ea, eb, against, t)) ↦
              inr (inr ((ea, eb), against, rw (v, ea, eb, t), rw (v, ea, eb, t)))
        ]
