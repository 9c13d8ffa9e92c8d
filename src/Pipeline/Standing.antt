-- ===== src/Pipeline/Standing.antt =====
-- app/decision/momentum_pipeline_coordinator.py: the verdict and the stored state.
use ai_market_scanning_engin.Prelude.{
  ℕ, String, ◌≡◌, refl, ◌∙◌, sym, ap, Option, none, some, Float, Result, ok, raise, arith,
  Bool-cases, Option-cases, inl, inr, ◌⊎◌, subst, true, is_some, false,
}
use ai_market_scanning_engin.Runtime.{Runtime}
use ai_market_scanning_engin.Settings.{Settings}
use ai_market_scanning_engin.Values.{Value}
use ai_market_scanning_engin.Momentum.States.{
  setup, activating, triggered, confirmed, exhausted, invalidated, is_alert_worthy, MomentumState,
}
use ai_market_scanning_engin.Momentum.Machine.{evaluate_transition}
use ai_market_scanning_engin.Momentum.Edges.{apply_transition-evaluate_transition}
use ai_market_scanning_engin.Momentum.Repository.{
  StateTransition, MomentumStore, get_current, state_of, store_transition,
}
use ai_market_scanning_engin.Momentum.Engine.{
  Tables, EvaluationResult, EngineError, evaluate, raise_alert,
}
use ai_market_scanning_engin.Momentum.Log.{
  IsConsistent, Evaluated, evaluate-Evaluated, state_of-put_record,
}
use ai_market_scanning_engin.Pipeline.Decide.{
  PipelineDecisionResult, reject, decide, PipelineVerdict, trigger, invalidate,
}
use ai_market_scanning_engin.Pipeline.Coordinator.{
  engine_failed, Fusion, Pipeline, PipelineError, Reads, standing, conclude, observe,
  evaluate_scored, evaluate_fusion, evaluate_one, record_observation,
}

module _ (rt : Runtime) {W : Type 0} ⦃f : Float W⦄ (settings : Settings W) where
  -- After a transition, the table has its new state.
  abbrev pub Stands : Option ℕ → Result EngineError (Tables W × EvaluationResult W) → Type 0
  Stands row (raise e) = Unit
  Stands row (ok (after, r)) =
      (t : StateTransition W)
      → r.transition ≡ some t
      → standing row after.momentum ≡ some t.to_state

  store_transition-state :
      (t : StateTransition W) (m : MomentumStore W)
      → state_of (get_current t.symbol_id (store_transition t m).0) ≡ some t.to_state
  unfolding store_transition get_current
  store_transition-state t m = state_of-put_record t.symbol_id t m.records ∙ ground arith

  raise_alert-Stands :
      (symbol : String) (t : StateTransition W) (transition_id db_now : ℕ) (tables : Tables W)
      → state_of (get_current t.symbol_id tables.momentum) ≡ some t.to_state
      → Stands (some t.symbol_id) (raise_alert rt settings symbol t transition_id db_now tables)
  unfolding raise_alert
  raise_alert-Stands symbol t transition_id db_now tables h =
      elim (Bool-cases (is_alert_worthy t.to_state)) [
        | inl e ↦ rw e (λ u p. cc)
        | inr e ↦ rw e (λ u p. cc)
      ]

  evaluate-Stands :
      (symbol_row : Option ℕ) (symbol : String) (score : W) (evidence : Value W) (moment db_now : ℕ)
      (tables : Tables W)
      → Stands symbol_row
          (evaluate rt settings symbol_row symbol score evidence moment db_now tables)
  unfolding evaluate
  evaluate-Stands none symbol score evidence moment db_now tables = λ u p. cc
  evaluate-Stands (some symbol_id) symbol score evidence moment db_now tables =
      let current = state_of (get_current symbol_id tables.momentum) in
      elim (Option-cases (evaluate_transition current score settings.decision_min_alert_score)) [
        | inl e ↦ rw (e, evaluate) (λ u p. cc)
        | inr ((next, reason), e) ↦
            let edge = apply_transition-evaluate_transition current score _ e in
            rw (e, evaluate)
              (rw edge
                (raise_alert-Stands symbol _ _ db_now _ (store_transition-state _ tables.momentum)))
      ]

-- the verdict that each state has, and that of a symbol without one
abbrev pub verdict_on : Option MomentumState → PipelineVerdict
verdict_on none = reject
verdict_on (some setup) = PipelineVerdict.watch
verdict_on (some MomentumState.watch) = PipelineVerdict.watch
verdict_on (some activating) = PipelineVerdict.watch
verdict_on (some triggered) = trigger
verdict_on (some confirmed) = trigger
verdict_on (some exhausted) = invalidate
verdict_on (some invalidated) = invalidate

module _ (rt : Runtime) {W : Type 0} ⦃f : Float W⦄ (settings : Settings W) (reads : Reads W) where
  -- no score, or too little confidence
  abbrev pub IsHeldBack : Fusion W → Type 0
  IsHeldBack fusion =
      (fusion.overall_score ≡ none)
      ⊎ (f.lt fusion.confidence settings.pipeline_min_confidence_pct ≡ true)

  abbrev pub IsAdmitted : Fusion W → Type 0
  IsAdmitted fusion =
      (is_some fusion.overall_score ≡ true)
      × (f.lt fusion.confidence settings.pipeline_min_confidence_pct ≡ false)

  -- The call returned. Either the symbol is held back, it is rejected, and nothing is changed; or it is
  -- admitted, and the result has the state which the symbol then has in the table, and its verdict.
  abbrev pub Labelled :
      String
      → Fusion W
      → Pipeline W
      → Result PipelineError (Pipeline W × PipelineDecisionResult W)
      → Type 0
  Labelled symbol fusion before (raise e) = ⊥
  Labelled symbol fusion before (ok (after, r)) =
      IsConsistent after.tables.momentum
      × ((IsHeldBack fusion × (after ≡ before) × (r.verdict ≡ reject) × (r.alert_id ≡ none))
          ⊎ (IsAdmitted fusion
              × (r.momentum_state ≡ standing (reads.symbol_row symbol) after.tables.momentum)
              × (r.verdict
                  ≡ verdict_on (standing (reads.symbol_row symbol) after.tables.momentum))))

  decide-verdict_on :
      (fusion : Fusion W) (state : Option MomentumState)
      → IsAdmitted fusion
      → decide settings fusion.confidence state ≡ verdict_on state
  unfolding decide
  decide-verdict_on fusion state admitted = ground (arith, admitted.1)

  observe_tables :
      (symbol : String) (r : EvaluationResult W) (t : StateTransition W) (score confidence : W)
      (moment : ℕ) (p : Pipeline W)
      → (observe settings reads symbol r t score confidence moment p).tables ≡ p.tables
  unfolding record_observation
  observe_tables symbol r t score confidence moment p = ground arith

  conclude-Labelled :
      (symbol : String) (fusion : Fusion W) (score : W) (moment : ℕ) (before p : Pipeline W)
      (r : EvaluationResult W)
      → IsAdmitted fusion
      → IsConsistent p.tables.momentum
      → ((t : StateTransition W)
          → r.transition ≡ some t
          → standing (reads.symbol_row symbol) p.tables.momentum ≡ some t.to_state)
      → Labelled symbol fusion before (ok (conclude settings reads symbol fusion score moment r p))
  unfolding conclude
  conclude-Labelled symbol fusion score moment before p r admitted h stands =
      elim (Option-cases r.transition) [
        | inl e ↦ rw e (
          h,
          inr (
            admitted,
            refl,
            decide-verdict_on fusion (standing (reads.symbol_row symbol) p.tables.momentum)
                admitted,
          ),
        )
        | inr (t, e) ↦
            let same = observe_tables symbol r t score fusion.confidence moment p in
            let state = stands t e in
            rw e (
              subst (λ (u : Tables W). IsConsistent u.momentum) (sym same) h,
              inr (
                admitted,
                subst
                    (λ (u : Tables W).
                      some t.to_state ≡ standing (reads.symbol_row symbol) u.momentum)
                    (sym same) (sym state),
                subst
                    (λ (u : Tables W).
                      decide settings fusion.confidence (some t.to_state)
                      ≡ verdict_on (standing (reads.symbol_row symbol) u.momentum))
                    (sym same)
                    (decide-verdict_on fusion (some t.to_state) admitted
                      ∙ ap verdict_on (sym state)),
              ),
            )
      ]

  evaluate_scored-Labelled :
      (symbol : String) (fusion : Fusion W) (score : W) (moment db_now : ℕ) (p : Pipeline W)
      → IsAdmitted fusion
      → IsConsistent p.tables.momentum
      → Labelled symbol fusion p
          (evaluate_scored rt settings reads symbol fusion score moment db_now p)
  unfolding evaluate_scored
  evaluate_scored-Labelled symbol fusion score moment db_now p admitted h =
      go
        (evaluate rt settings (reads.symbol_row symbol) symbol score fusion.evidence moment db_now
          p.tables)
        (evaluate-Evaluated rt settings (reads.symbol_row symbol) symbol score fusion.evidence
          moment db_now p.tables h)
        (evaluate-Stands rt settings (reads.symbol_row symbol) symbol score fusion.evidence moment
          db_now p.tables)
    where
      go :
          (result : Result EngineError (Tables W × EvaluationResult W))
          → Evaluated rt settings p.tables result
          → Stands rt settings (reads.symbol_row symbol) result
          → Labelled symbol fusion p (elim result [
            | raise e ↦ raise (engine_failed e)
            | ok (tables, r) ↦ ok (
                conclude settings reads symbol fusion score moment r (record p { tables = tables }))
          ])
      go (raise e) evaluated stands = elim evaluated [ ]
      go (ok (tables, r)) evaluated stands =
          conclude-Labelled symbol fusion score moment p (record p { tables = tables }) r admitted
            evaluated.0 stands

  evaluate_fusion-Labelled :
      (symbol : String) (fusion : Fusion W) (moment db_now : ℕ) (p : Pipeline W)
      → IsConsistent p.tables.momentum
      → Labelled symbol fusion p (evaluate_fusion rt settings reads symbol fusion moment db_now p)
  unfolding evaluate_fusion
  evaluate_fusion-Labelled symbol fusion moment db_now p h =
      elim (Option-cases fusion.overall_score) [
        | inl none_given ↦ simp (none_given, evaluate_fusion) (h, inl (inl refl, refl, refl, refl))
        | inr (score, given) ↦
            elim (Bool-cases (f.lt fusion.confidence settings.pipeline_min_confidence_pct)) [
              | inl below ↦
                  simp (given, below, evaluate_fusion) (h, inl (inr refl, refl, refl, refl))
              | inr enough ↦
                  simp (given, enough, evaluate_fusion)
                    (evaluate_scored-Labelled symbol fusion score moment db_now p
                      (rw given refl, enough) h)
            ]
      ]

  -- On consistent tables, a symbol whose fusion is computed is always given a result: the call does not
  -- raise. Without a score, or with less confidence than the minimum, the symbol is rejected without an
  -- alert and nothing changes. Else the result has the state that the symbol has in the table after the
  -- call, whether this evaluation moved it there or an earlier one did, and the verdict is TRIGGER on
  -- TRIGGERED and CONFIRMED, INVALIDATE on EXHAUSTED and INVALIDATED, WATCH on the other states and
  -- REJECT without a state. The tables stay consistent.
  pub evaluate_one-Labelled :
      (symbol : String) (fusion : Fusion W) (moment db_now : ℕ) (p : Pipeline W)
      → reads.fusion symbol ≡ some fusion
      → IsConsistent p.tables.momentum
      → Labelled symbol fusion p (evaluate_one rt settings reads symbol moment db_now p)
  unfolding evaluate_one
  evaluate_one-Labelled symbol fusion moment db_now p e h =
      rw (e, evaluate_one) (evaluate_fusion-Labelled symbol fusion moment db_now p h)
