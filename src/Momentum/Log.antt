-- ===== src/Momentum/Log.antt =====
-- app/momentum/momentum_engine.py: the log of transitions and the current states.
use ai_market_scanning_engin.Momentum.Edges.{apply_transition-evaluate_transition}
use ai_market_scanning_engin.Values.{Value}
use ai_market_scanning_engin.Prelude.{
  ℕ, ◌≡◌, refl, ◌∙◌, true, String, Option, none, some, List, [], ◌∷◌, if◌then◌else◌, ◌==◌, Float,
  Result, ok, raise, arith, inl, inr, ◌⊎◌, Bool-cases, ap, Option-cases,
}
use ai_market_scanning_engin.Runtime.{Runtime}
use ai_market_scanning_engin.Settings.{Settings}
use ai_market_scanning_engin.Momentum.States.{MomentumState, is_alert_worthy}
use ai_market_scanning_engin.Momentum.Machine.{apply_transition, evaluate_transition}
use ai_market_scanning_engin.Momentum.Repository.{
  MomentumStore, StateTransition, MomentumStateRecord, get_current, find_record, put_record,
  record_of, state_of, store_transition,
}
use ai_market_scanning_engin.Momentum.Engine.{
  Tables, EvaluationResult, EngineError, raise_alert, evaluate,
}

module _ {W : Type 0} where
  -- where the log says that a symbol stands
  abbrev pub last_state : ℕ → List (StateTransition W) → Option MomentumState
  last_state symbol_id [] = none
  last_state symbol_id (t ∷ rest) =
      if t.symbol_id == symbol_id then some t.to_state else last_state symbol_id rest

  -- Each row starts where the symbol stood before it, and takes an allowed edge.
  abbrev pub IsChained : List (StateTransition W) → Type 0
  IsChained [] = Unit
  IsChained (t ∷ rest) =
      (t.from_state ≡ last_state t.symbol_id rest)
      × (apply_transition t.from_state t.to_state ≡ ok tt)
      × IsChained rest

  pub record IsConsistent (m : MomentumStore W) : Type 0 where
    pub chained : IsChained m.transitions
    pub agrees :
        (symbol_id : ℕ) → state_of (get_current symbol_id m) ≡ last_state symbol_id m.transitions

  pub state_of-put_record :
      (symbol_id : ℕ) (t : StateTransition W) (records : List (MomentumStateRecord W))
      → state_of (find_record symbol_id (put_record (record_of t) records)) ≡ (
          if t.symbol_id == symbol_id
          then some t.to_state
          else state_of (find_record symbol_id records))
  unfolding state_of find_record put_record
  state_of-put_record symbol_id t [] = ground arith
  state_of-put_record symbol_id t (r ∷ rest) = ground (arith, state_of-put_record symbol_id t rest)

  store_transition-IsConsistent :
      (t : StateTransition W) (m : MomentumStore W)
      → t.from_state ≡ state_of (get_current t.symbol_id m)
      → apply_transition t.from_state t.to_state ≡ ok tt
      → IsConsistent m
      → IsConsistent (store_transition t m).0
  unfolding store_transition get_current
  store_transition-IsConsistent t m from edge h = record {
    chained = (from ∙ h.agrees t.symbol_id, edge, h.chained);
    agrees = λ symbol_id.
        state_of-put_record symbol_id t m.records
        ∙ ap (λ s. if t.symbol_id == symbol_id then some t.to_state else s) (h.agrees symbol_id);
  }

  -- what an evaluation may change, given its transition and its alert
  abbrev pub Changed : Tables W → Tables W → Option (StateTransition W) → Option ℕ → Type 0
  Changed before after none alert_id = after ≡ before
  Changed before after (some t) alert_id =
      (is_alert_worthy t.to_state ≡ true) ⊎ ((after.alerting ≡ before.alerting) × (alert_id ≡ none))

module _ (rt : Runtime) {W : Type 0} ⦃f : Float W⦄ (settings : Settings W) where
  -- The call returned; log and states are consistent; with no transition nothing is changed, and only
  -- an alert-worthy transition touches the alert tables.
  abbrev pub Evaluated : Tables W → Result EngineError (Tables W × EvaluationResult W) → Type 0
  Evaluated before (raise e) = ⊥
  Evaluated before (ok (after, r)) =
      IsConsistent after.momentum × Changed before after r.transition r.alert_id

  raise_alert-Evaluated :
      (symbol : String) (t : StateTransition W) (transition_id db_now : ℕ)
      (before tables : Tables W)
      → tables.alerting ≡ before.alerting
      → IsConsistent tables.momentum
      → Evaluated before (raise_alert rt settings symbol t transition_id db_now tables)
  unfolding raise_alert
  raise_alert-Evaluated symbol t transition_id db_now before tables same h =
      elim (Bool-cases (is_alert_worthy t.to_state)) [
        | inl e ↦ rw e (h, inl e)
        | inr e ↦ rw e (h, inr (same, refl))
      ]

  -- On consistent tables, an evaluation of any symbol, known or not, with any score never raises: the
  -- guard of the state machine passes and the decision has its quality. It leaves the log chained by
  -- allowed edges and every symbol's stored state equal to the last state of the log. Where there is
  -- no transition nothing changes, and a transition that is not alert-worthy leaves the alert tables
  -- alone.
  pub evaluate-Evaluated :
      (symbol_row : Option ℕ) (symbol : String) (score : W) (evidence : Value W) (moment db_now : ℕ)
      (tables : Tables W)
      → IsConsistent tables.momentum
      → Evaluated tables
          (evaluate rt settings symbol_row symbol score evidence moment db_now tables)
  unfolding evaluate
  evaluate-Evaluated none symbol score evidence moment db_now tables h = (h, refl)
  evaluate-Evaluated (some symbol_id) symbol score evidence moment db_now tables h =
      let current = state_of (get_current symbol_id tables.momentum) in
      elim (Option-cases (evaluate_transition current score settings.decision_min_alert_score)) [
        | inl e ↦ rw (e, evaluate) (h, refl)
        | inr ((next, reason), e) ↦
            let edge = apply_transition-evaluate_transition current score _ e in
            rw (e, evaluate)
              (rw edge (
                raise_alert-Evaluated symbol _ _ db_now tables _ refl
                  (store_transition-IsConsistent _ tables.momentum refl edge h)))
      ]
