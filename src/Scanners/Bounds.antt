-- ===== src/Scanners/Bounds.antt =====
-- The scores of app/scanner/*_scanner.py.
use ai_market_scanning_engin.Prelude.{
  ℕ, ◌≤◌, false, ◌≡◌, if◌then◌else◌, Float, ok, arith, Bool-cases, inl, inr, ◌⊎◌, ◌≼◌, IsOrdered,
}
use ai_market_scanning_engin.Settings.{Settings}
use ai_market_scanning_engin.Scanning.Tables.{ResultRow}
use ai_market_scanning_engin.Scanners.Candidate.{Column}
use ai_market_scanning_engin.Scanners.Contexts.{
  candidate_context, Context, daily_context, orb_context, close_of,
}
use ai_market_scanning_engin.Scanners.Composite.{rounded_total, daily_total, orb_total}
use ai_market_scanning_engin.Scanners.Validator.{daily_score}
use ai_market_scanning_engin.Scanners.Orb.{orb_score}

-- What Python promises of `round(x, 2)` and of literals: a NaN stays one, a bound of whole numbers is kept,
-- and literals are ordered as their numbers.
pub record IsRounding (W : Type 0) ⦃f : Float W⦄ : Type 0 where
  pub nan : (x : W) → f.le x x ≡ false → f.le (f.round2 x) (f.round2 x) ≡ false
  pub above : (n : ℕ) (x : W) → f.lit n ≼ x → f.lit n ≼ f.round2 x
  pub below : (n : ℕ) (x : W) → x ≼ f.lit n → f.round2 x ≼ f.lit n
  pub lits : (m n : ℕ) → m ≤ n → f.lit m ≼ f.lit n

module _ {W : Type 0} ⦃f : Float W⦄ where
  -- from 0 to 100, or not a number
  abbrev pub IsScore : W → Type 0
  IsScore x = ((f.lit 0 ≼ x) × (x ≼ f.lit 100)) ⊎ (f.le x x ≡ false)

  module _ (laws : IsOrdered W) (rounding : IsRounding W) where
    pub round2-IsScore : (x : W) → IsScore x → IsScore (f.round2 x)
    round2-IsScore x (inl h) = inl (rounding.above 0 x h.0, rounding.below 100 x h.1)
    round2-IsScore x (inr h) = inr (rounding.nan x h)

    -- `max(total, 0.0)`, then `min(m, 100.0)`
    raised : W → W
    raised total = if f.lt total (f.lit 0) then f.lit 0 else total

    lowered : W → W
    lowered m = if f.lt (f.lit 100) m then f.lit 100 else m

    raised-cases :
        (total : W) → (f.lit 0 ≼ raised total) ⊎ (f.le (raised total) (raised total) ≡ false)
    unfolding raised
    raised-cases total = elim (Bool-cases (f.le total total)) [
      | inr n ↦ elim (Bool-cases (f.lt total (f.lit 0))) [
        | inl l ↦ rw l (inl (rounding.lits 0 0 (omega arith)))
        | inr l ↦ rw l (inr n)
      ]
      | inl n ↦ elim (Bool-cases (f.lt total (f.lit 0))) [
        | inl l ↦ rw l (inl (rounding.lits 0 0 (omega arith)))
        | inr l ↦ rw l (
            inl
              (ground (arith, laws.linear (f.lit 0) total (rounding.lits 0 0 (omega arith)) n, l)))
      ]
    ]

    lowered-IsScore : (m : W) → (f.lit 0 ≼ m) ⊎ (f.le m m ≡ false) → IsScore (lowered m)
    unfolding lowered
    lowered-IsScore m h = elim (Bool-cases (f.lt (f.lit 100) m)) [
      | inl l ↦ rw l (inl (rounding.lits 0 100 (omega arith), rounding.lits 100 100 (omega arith)))
      | inr l ↦ rw l (elim h [
        | inr n ↦ inr n
        | inl z ↦ inl (
          z,
          ground (
            arith,
            l,
            laws.linear m (f.lit 100) (laws.numbers (f.lit 0) m z).1
                (rounding.lits 100 100 (omega arith)),
          ),
        )
      ])
    ]

    pub rounded_total-IsScore : (total : W) → IsScore (rounded_total total)
    unfolding rounded_total raised lowered
    rounded_total-IsScore total =
        round2-IsScore (lowered (raised total))
          (lowered-IsScore (raised total) (raised-cases total))

-- every row of the results
abbrev pub IsScoredRow : {W : Type 0} ⦃f : Float W⦄ → ResultRow W → Type 0
IsScoredRow r = IsScore r.score

module _ {D W : Type 0} ⦃f : Float W⦄ ⦃d : Column D W⦄ (laws : IsOrdered W)
    (rounding : IsRounding W) (settings : Settings W) where
  pub daily_score-IsScore : (c : Context D W) (x : W) → daily_score settings c ≡ ok x → IsScore x
  unfolding daily_score
  daily_score-IsScore (daily_context c) x h =
      let e : rounded_total (daily_total settings c.features c.price) ≡ x = ground (arith, h) in
      rw (← e) (rounded_total-IsScore laws rounding (daily_total settings c.features c.price))
  daily_score-IsScore (orb_context c) x h = absurd (ground (arith, h))
  daily_score-IsScore (candidate_context c) x h = absurd (ground (arith, h))

  pub orb_score-IsScore : (c : Context D W) (x : W) → orb_score settings c ≡ ok x → IsScore x
  unfolding orb_score
  orb_score-IsScore (orb_context c) x h =
      let total = orb_total settings c.daily_feature (close_of c.latest_price) in
      let e : rounded_total total ≡ x = ground (arith, h) in
      rw (← e) (rounded_total-IsScore laws rounding total)
  orb_score-IsScore (daily_context c) x h = absurd (ground (arith, h))
  orb_score-IsScore (candidate_context c) x h = absurd (ground (arith, h))
