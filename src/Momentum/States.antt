-- ===== src/Momentum/States.antt =====
-- app/momentum/momentum_models.py: the states, the allowed edges, and the row of one transition.
use ai_market_scanning_engin.Prelude.{String, ℕ, Bool, true, false, List, [], ◌∷◌, ◌==◌, ◌&&◌, ◌||◌}

pub data MomentumState : Type 0 where
  setup watch activating triggered confirmed exhausted invalidated : MomentumState

-- the position of a state in the enumeration, for comparisons
abbrev pub index : MomentumState → ℕ
index setup = 0
index watch = 1
index activating = 2
index triggered = 3
index confirmed = 4
index exhausted = 5
index invalidated = 6

abbrev pub state_eq : MomentumState → MomentumState → Bool
state_eq s t = index s == index t

abbrev pub allowed_transitions : List (MomentumState × MomentumState)
allowed_transitions =
    (setup, watch)
    ∷ (setup, invalidated)
    ∷ (watch, activating)
    ∷ (watch, invalidated)
    ∷ (activating, triggered)
    ∷ (activating, invalidated)
    ∷ (triggered, confirmed)
    ∷ (triggered, exhausted)
    ∷ (triggered, invalidated)
    ∷ (confirmed, exhausted)
    ∷ (confirmed, invalidated)
    ∷ []

abbrev pub contains_edge :
    MomentumState → MomentumState → List (MomentumState × MomentumState) → Bool
contains_edge s t [] = false
contains_edge s t ((a, b) ∷ edges) = state_eq a s && state_eq b t || contains_edge s t edges

-- `ALERT_WORTHY_STATES`
abbrev pub is_alert_worthy : MomentumState → Bool
is_alert_worthy triggered = true
is_alert_worthy confirmed = true
is_alert_worthy _ = false

unfoldable pub is_valid_transition : MomentumState → MomentumState → Bool
is_valid_transition from to = contains_edge from to allowed_transitions

-- `state.value`
unfoldable pub state_value : MomentumState → String
state_value setup = "SETUP"
state_value watch = "WATCH"
state_value activating = "ACTIVATING"
state_value triggered = "TRIGGERED"
state_value confirmed = "CONFIRMED"
state_value exhausted = "EXHAUSTED"
state_value invalidated = "INVALIDATED"

abbrev pub momentum_scanner_name : String
momentum_scanner_name = "momentum_state_v1"
