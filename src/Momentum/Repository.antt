-- ===== src/Momentum/Repository.antt =====
-- app/repositories/momentum_state_repository.py: the current state of each symbol, and the log of
-- transitions, the newest first.
use ai_market_scanning_engin.Prelude.{
  ℕ, ◌+◌, Option, none, some, List, [], ◌∷◌, if◌then◌else◌, ◌==◌,
}
use ai_market_scanning_engin.Momentum.States.{MomentumState}
use ai_market_scanning_engin.Momentum.Machine.{Reason}
use ai_market_scanning_engin.Values.{Value}

-- app/momentum/momentum_models.py, with the symbol's id that the row is stored under.
pub record StateTransition (W : Type 0) : Type 0 where
  pub symbol_id : ℕ
  pub from_state : Option MomentumState
  pub to_state : MomentumState
  pub timestamp : ℕ
  pub reason : Reason W
  pub score : W
  pub evidence : Value W

pub record MomentumStateRecord (W : Type 0) : Type 0 where
  pub symbol_id : ℕ
  pub state : MomentumState
  pub score : W
  pub reason : Reason W
  pub evidence : Value W
  pub entered_at : ℕ

pub record MomentumStore (W : Type 0) : Type 0 where
  pub records : List (MomentumStateRecord W)
  pub transitions : List (StateTransition W)
  -- the id of the next row of the log
  pub next_id : ℕ

module _ {W : Type 0} where
  unfoldable pub find_record : ℕ → List (MomentumStateRecord W) → Option (MomentumStateRecord W)
  find_record symbol_id [] = none
  find_record symbol_id (r ∷ rest) =
      if r.symbol_id == symbol_id then some r else find_record symbol_id rest

  unfoldable pub get_current : ℕ → MomentumStore W → Option (MomentumStateRecord W)
  unfolding find_record
  get_current symbol_id m = find_record symbol_id m.records

  unfoldable pub state_of : Option (MomentumStateRecord W) → Option MomentumState
  state_of none = none
  state_of (some r) = some r.state

  -- the record of a symbol after a transition; an old one is overwritten in every field but its key
  abbrev pub record_of : StateTransition W → MomentumStateRecord W
  record_of t = record {
    symbol_id = t.symbol_id;
    state = t.to_state;
    score = t.score;
    reason = t.reason;
    evidence = t.evidence;
    entered_at = t.timestamp;
  }

  unfoldable pub put_record :
      MomentumStateRecord W → List (MomentumStateRecord W) → List (MomentumStateRecord W)
  put_record new [] = new ∷ []
  put_record new (r ∷ rest) =
      if r.symbol_id == new.symbol_id then new ∷ rest else r ∷ put_record new rest

  -- Both writes belong to one transaction. The result has the new row's id.
  unfoldable pub store_transition : StateTransition W → MomentumStore W → MomentumStore W × ℕ
  unfolding put_record
  store_transition t m = (
    record m {
      records = put_record (record_of t) m.records;
      transitions = t ∷ m.transitions;
      next_id = m.next_id + 1;
    },
    m.next_id,
  )
