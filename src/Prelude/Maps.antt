-- ===== src/Prelude/Maps.antt =====
-- A `dict` with text keys: pairs in the order of insertion, where a key that is there keeps its place.
use Prim.Native.String.{String}
use mathlib.Core.Path.{◌≡◌, refl}
use mathlib.Core.Bool.{true, false}
use mathlib.Core.Option.{Option, none, some}
use mathlib.Core.List.{List, [], ◌∷◌}
use native.Mathlib.Omega.{arith}
use text.Mathlib.TextEquality.{eq_iff}
use text.Mathlib.Text.{◌==◌ as str_eq}
use ai_market_scanning_engin.Prelude.Tests.{if◌then◌else◌}

abbrev pub Map {ℓ} : Type ℓ → Type ℓ
Map V = List (String × V)

pub str_eq_refl : (s : String) → str_eq s s ≡ true
str_eq_refl s = (eq_iff s s).1 refl

apart :
    (k key other : String) → str_eq k key ≡ true → str_eq key other ≡ false → str_eq k other ≡ false
apart k key other e h = rw ((eq_iff k key).0 e) h

module _ {ℓ} {V : Type ℓ} where
  -- `entries.get(key)`
  unfoldable pub lookup : String → Map V → Option V
  lookup key [] = none
  lookup key ((k, v) ∷ rest) = if str_eq k key then some v else lookup key rest

  -- `entries[key] = value`
  unfoldable pub insert : String → V → Map V → Map V
  insert key value [] = (key, value) ∷ []
  insert key value ((k, v) ∷ rest) =
      let others = insert key value rest in
      if str_eq k key then (k, value) ∷ rest else (k, v) ∷ others

  pub lookup-insert :
      (key : String) (value : V) (m : Map V) → lookup key (insert key value m) ≡ some value
  unfolding lookup insert
  lookup-insert key value [] = rw (str_eq_refl key)
  lookup-insert key value ((k, v) ∷ rest) =
      ground (arith, lookup-insert key value rest, str_eq_refl key)

  pub lookup-insert_other :
      (key other : String) (value : V) (m : Map V)
      → str_eq key other ≡ false
      → lookup other (insert key value m) ≡ lookup other m
  unfolding lookup insert
  lookup-insert_other key other value [] h = ground arith
  lookup-insert_other key other value ((k, v) ∷ rest) h =
      ground (arith, apart k key other, lookup-insert_other key other value rest h)
