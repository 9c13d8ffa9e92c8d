-- ===== src/Prelude/Floats.antt =====
-- Python's `float`, as far as the modelled code uses it: comparisons, literals, arithmetic, and the
-- readings from and to text. The type and its operations are an interface.
use Prim.Native.Nat.{ℕ, ◌+◌, ◌-◌, ◌*◌, ◌/◌, ◌^◌}
use Prim.Native.String.{String}
use mathlib.Core.Path.{◌≡◌}
use mathlib.Core.Bool.{Bool, true, false}
use mathlib.Core.Option.{Option, none, some}
use native.Mathlib.Omega.{arith}
use ai_market_scanning_engin.Prelude.Tests.{ltb, leb}

pub record Float (W : Type 0) : Type 0 where
  -- `a <= b` and `a < b`; `a >= b` is `b <= a`
  pub le : W → W → Bool
  pub lt : W → W → Bool
  -- the literal n.0
  pub lit : ℕ → W
  pub add : W → W → W
  pub sub : W → W → W
  pub mul : W → W → W
  pub div : W → W → W
  -- `x ** n`; the exception on an overflow is not modelled
  pub pow : W → ℕ → W
  -- `f"{x:.2f}"`
  pub fixed2 : W → String
  pub abs : W → W
  -- `round(x, 2)`
  pub round2 : W → W
  -- `float(text)`, and `str(value)`
  pub of_text : String → Option W
  pub to_text : W → String

infix 4 ◌≼◌
abbrev pub ◌≼◌ : {W : Type 0} ⦃f : Float W⦄ → W → W → Type 0
◌≼◌ ⦃f⦄ x y = f.le x y ≡ true

-- Every float but a NaN is `<=` itself.
abbrev pub IsNumber : {W : Type 0} ⦃f : Float W⦄ → W → Type 0
IsNumber a = a ≼ a

-- What IEEE 754 promises of `<=` and `<`, and no more than the modelled code relies on.
pub record IsOrdered (W : Type 0) ⦃f : Float W⦄ : Type 0 where
  pub chain : (a b c : W) → b ≼ c → a ≼ b → a ≼ c
  -- a NaN is on neither side of an order that holds
  pub numbers : (a b : W) → a ≼ b → IsNumber a × IsNumber b
  pub strict : (a b : W) → f.lt a b ≡ true → (a ≼ b) × (f.le b a ≡ false)
  pub not-lt_of_le : (a b : W) → b ≼ a → f.lt a b ≡ false
  pub linear : (a b : W) → IsNumber a → IsNumber b → f.le a b ≡ false → f.lt b a ≡ true

-- A small arithmetic that meets the laws: naturals, and `none` for NaN.
abbrev pub Whole : Type 0
Whole = Option ℕ

abbrev compare_with : (ℕ → ℕ → Bool) → Whole → Whole → Bool
compare_with test (some a) (some b) = test a b
compare_with test _ _ = false

abbrev compute_with : (ℕ → ℕ → ℕ) → Whole → Whole → Whole
compute_with op (some a) (some b) = some (op a b)
compute_with op _ _ = none

instance abbrev pub whole_float : Float Whole
whole_float = record {
  le = compare_with leb;
  lt = compare_with ltb;
  lit = some;
  add = compute_with λ a b. a + b;
  sub = compute_with λ a b. a - b;
  mul = compute_with λ a b. a * b;
  div = compute_with λ a b. a / b;
  pow = λ x n. compute_with (λ a b. a ^ b) x (some n);
  abs = λ x. x;
  fixed2 = λ x. "";
  round2 = λ x. x;
  of_text = λ s. none;
  to_text = λ x. "";
}

pub Whole-IsOrdered : IsOrdered Whole
Whole-IsOrdered = ground arith
