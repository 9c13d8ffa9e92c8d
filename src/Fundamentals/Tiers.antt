-- ===== src/Fundamentals/Tiers.antt =====
-- app/fundamentals/queue_service.py: which place a row has in the queue by the comments on
-- `_SETUP_STATE_TIER`, and that `_priority_key` computes it.
use ai_market_scanning_engin.Prelude.{
  ℕ, ◌≡◌, ◌≢◌, refl, String, Bool, true, false, none, some, Float, false≢true, Bool-cases,
  Option-cases, inl, inr, str_eq, eq_iff, sym, ◌∙◌,
}
use ai_market_scanning_engin.Values.{Value, null, flag, number, text, nested, get, shown}
use ai_market_scanning_engin.Scanning.Tables.{ResultRow}
use ai_market_scanning_engin.Fundamentals.Select.{priority_key, coerce_float, setup_state_tier}

unlisted : (s t : String) → s ≢ t → str_eq s t ≡ false
unlisted s t n = elim (Bool-cases (str_eq s t)) [
  | inl e ↦ absurd (n ((eq_iff s t).0 e))
  | inr e ↦ e
]

apart : (s t : String) → str_eq s t ≡ false → s ≢ t
apart s t e p = false≢true (sym e ∙ (eq_iff s t).1 p)

setup_state_tier-unlisted :
    (s : String)
    → s ≢ "BREAKOUT_CONFIRMED"
    → s ≢ "MOMENTUM"
    → s ≢ "PRE_BREAKOUT"
    → setup_state_tier s ≡ 4
unfolding setup_state_tier
setup_state_tier-unlisted s a b c = rw (unlisted s _ a, unlisted s _ b, unlisted s _ c) refl

module _ {W : Type 0} ⦃f : Float W⦄ where
  abbrev pub state_text : ResultRow W → String
  state_text r = shown (get "setup_state" r.feature_snapshot)

  -- a setup state that the spec does not list
  abbrev pub IsUnlisted : ResultRow W → Type 0
  IsUnlisted r =
      (state_text r ≢ "BREAKOUT_CONFIRMED")
      × (state_text r ≢ "MOMENTUM")
      × (state_text r ≢ "PRE_BREAKOUT")

  -- BREAKOUT_CONFIRMED > MOMENTUM > PRE_BREAKOUT > rejected > the rest
  pub data InTier (r : ResultRow W) : ℕ → Type 0 where
    breaking_out : state_text r ≡ "BREAKOUT_CONFIRMED" → InTier r 0
    moving : state_text r ≡ "MOMENTUM" → InTier r 1
    nearing : state_text r ≡ "PRE_BREAKOUT" → InTier r 2
    turned_down : IsUnlisted r → r.is_qualified ≡ false → InTier r 3
    the_rest : IsUnlisted r → r.is_qualified ≡ true → InTier r 4

  -- the float that a value of the snapshot is read as; what is no float is read as 0.0
  pub data IsReadAs : Value W → W → Type 0 where
    absent : IsReadAs null (f.lit 0)
    as_number : (x : W) → IsReadAs (number x) x
    as_true : IsReadAs (flag true) (f.lit 1)
    as_false : IsReadAs (flag false) (f.lit 0)
    as_text : (s : String) (x : W) → f.of_text s ≡ some x → IsReadAs (text s) x
    no_float : (s : String) → f.of_text s ≡ none → IsReadAs (text s) (f.lit 0)
    as_nested : (empty : Bool) (s : String) → IsReadAs (nested empty s) (f.lit 0)

  abbrev pub HasScore : ResultRow W → W → Type 0
  HasScore r x = IsReadAs (get "technical_score" r.feature_snapshot) x

  coerce_float-read : {v : Value W} {x : W} → IsReadAs v x → coerce_float v ≡ x
  unfolding coerce_float
  coerce_float-read absent = refl
  coerce_float-read (as_number x) = refl
  coerce_float-read as_true = refl
  coerce_float-read as_false = refl
  coerce_float-read (as_text s x e) = rw (e, coerce_float) refl
  coerce_float-read (no_float s e) = rw (e, coerce_float) refl
  coerce_float-read (as_nested empty s) = refl

  coerce_float-IsReadAs : (v : Value W) → IsReadAs v (coerce_float v)
  unfolding coerce_float
  coerce_float-IsReadAs null = absent
  coerce_float-IsReadAs (flag true) = as_true
  coerce_float-IsReadAs (flag false) = as_false
  coerce_float-IsReadAs (number x) = as_number x
  coerce_float-IsReadAs (text s) = elim (Option-cases (f.of_text s)) [
    | inl e ↦ rw (e, coerce_float) (no_float s e)
    | inr (x, e) ↦ rw (e, coerce_float) (as_text s x e)
  ]
  coerce_float-IsReadAs (nested empty s) = as_nested empty s

  pub priority_key-score : (r : ResultRow W) {x : W} → HasScore r x → (priority_key r).1 ≡ x
  unfolding priority_key
  priority_key-score r h = coerce_float-read h

  pub priority_key-HasScore : (r : ResultRow W) → HasScore r (priority_key r).1
  unfolding priority_key
  priority_key-HasScore r = coerce_float-IsReadAs (get "technical_score" r.feature_snapshot)

  pub priority_key-tier : (r : ResultRow W) {n : ℕ} → InTier r n → (priority_key r).0 ≡ n
  unfolding priority_key setup_state_tier
  priority_key-tier r (breaking_out e) = rw e refl
  priority_key-tier r (moving e) = rw e refl
  priority_key-tier r (nearing e) = rw e refl
  priority_key-tier r (turned_down (a, b, c) q) = rw (setup_state_tier-unlisted _ a b c, q) refl
  priority_key-tier r (the_rest (a, b, c) q) = rw (setup_state_tier-unlisted _ a b c, q) refl

  pub tier_of : (r : ResultRow W) → (n : ℕ) × InTier r n
  tier_of r =
      let t = state_text r in
      elim (Bool-cases (str_eq t "BREAKOUT_CONFIRMED")) [
        | inl e ↦ (0, breaking_out ((eq_iff t _).0 e))
        | inr a ↦ elim (Bool-cases (str_eq t "MOMENTUM")) [
          | inl e ↦ (1, moving ((eq_iff t _).0 e))
          | inr b ↦ elim (Bool-cases (str_eq t "PRE_BREAKOUT")) [
            | inl e ↦ (2, nearing ((eq_iff t _).0 e))
            | inr c ↦
                let u : IsUnlisted r = (apart t _ a, apart t _ b, apart t _ c) in
                elim (Bool-cases r.is_qualified) [
                  | inl q ↦ (4, the_rest u q)
                  | inr q ↦ (3, turned_down u q)
                ]
          ]
        ]
      ]
