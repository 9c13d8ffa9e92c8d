-- ===== src/Prelude/Sorting.antt =====
-- Python's `list.sort`, which keeps what it finds equal in its order. The sort that is written here is by
-- insertion; a stable sort by an order of this kind has one result only.
use mathlib.Core.Path.{◌≡◌, refl, ◌∙◌}
use mathlib.Core.Logic.{inl, inr}
use mathlib.Core.Bool.{Bool, true, false}
use mathlib.Core.List.{List, [], ◌∷◌, Perm}
use mathlib.Core.List.Perm
use native.Mathlib.Omega.{arith}
use ai_market_scanning_engin.Prelude.Tests.{if◌then◌else◌, Bool-cases}
use ai_market_scanning_engin.Prelude.Lists.{All}

module _ {A : Type 0} where
  -- every element stands in the relation to all that come after it
  abbrev pub InOrder : (A → A → Type 0) → List A → Type 0
  InOrder R [] = Unit
  InOrder R (x ∷ xs) = All (R x) xs × InOrder R xs

  -- the elements that pass a test, in their order
  unfoldable pub keep : (A → Bool) → List A → List A
  keep test [] = []
  keep test (x ∷ xs) = let rest = keep test xs in if test x then x ∷ rest else rest

  All-step :
      (R S : A → A → Type 0) (P : A → Type 0)
      → ((x y : A) → P x → P y → R x y → S x y)
      → (x : A) (ys : List A) → P x
      → All P ys
      → All (R x) ys
      → All (S x) ys
  All-step R S P step x [] px ps h = tt
  All-step R S P step x (y ∷ ys) px ps h =
      (step x y px ps.0 h.0, All-step R S P step x ys px ps.1 h.1)

  pub InOrder-map :
      (R S : A → A → Type 0) (P : A → Type 0)
      → ((x y : A) → P x → P y → R x y → S x y)
      → (xs : List A) → All P xs
      → InOrder R xs
      → InOrder S xs
  InOrder-map R S P step [] ps h = tt
  InOrder-map R S P step (x ∷ xs) ps h =
      (All-step R S P step x xs ps.0 ps.1 h.0, InOrder-map R S P step xs ps.1 h.1)

module _ {A : Type 0} (lt : A → A → Bool) where
  unfoldable pub insert_sorted : A → List A → List A
  insert_sorted x [] = x ∷ []
  insert_sorted x (y ∷ ys) =
      let rest = insert_sorted x ys in if lt y x then y ∷ rest else x ∷ y ∷ ys

  unfoldable pub sort : List A → List A
  unfolding insert_sorted
  sort [] = []
  sort (x ∷ xs) = insert_sorted x (sort xs)

  -- What a sort needs of `lt` on the elements in `P`.
  pub record IsOrder (P : A → Type 0) : Type 0 where
    pub one_way : (a b : A) → lt a b ≡ true → lt b a ≡ false
    pub through : (a b c : A) → P a → P b → P c → lt b a ≡ false → lt c b ≡ false → lt c a ≡ false

  pub insert_sorted-perm : (x : A) (xs : List A) → Perm (insert_sorted x xs) (x ∷ xs)
  unfolding insert_sorted
  insert_sorted-perm x [] = Perm.rfl
  insert_sorted-perm x (y ∷ ys) = elim (Bool-cases (lt y x)) [
    | inl e ↦ rw e (Perm.trans (Perm.cons y (insert_sorted-perm x ys)) (Perm.swap x y ys))
    | inr e ↦ rw e Perm.rfl
  ]

  pub sort-perm : (xs : List A) → Perm (sort xs) xs
  unfolding sort
  sort-perm [] = Perm.rfl
  sort-perm (x ∷ xs) = Perm.trans (insert_sorted-perm x (sort xs)) (Perm.cons x (sort-perm xs))

  pub All-insert_sorted :
      (Q : A → Type 0) (x : A) (xs : List A) → Q x → All Q xs → All Q (insert_sorted x xs)
  unfolding insert_sorted
  All-insert_sorted Q x [] q qs = (q, tt)
  All-insert_sorted Q x (y ∷ ys) q qs = elim (Bool-cases (lt y x)) [
    | inl e ↦ rw e (qs.0, All-insert_sorted Q x ys q qs.1)
    | inr e ↦ rw e (q, qs)
  ]

  pub All-sort : (Q : A → Type 0) (xs : List A) → All Q xs → All Q (sort xs)
  unfolding sort
  All-sort Q [] qs = tt
  All-sort Q (x ∷ xs) qs = All-insert_sorted Q x (sort xs) qs.0 (All-sort Q xs qs.1)

  module _ {P : A → Type 0} (order : IsOrder P) where
    -- below the head is below all that come after it
    below_head :
        (x y : A) (ys : List A)
        → P x
        → P y
        → All P ys
        → lt y x ≡ false
        → All (λ z. lt z y ≡ false) ys
        → All (λ z. lt z x ≡ false) ys
    below_head x y [] px py ps h below = tt
    below_head x y (z ∷ zs) px py ps h below =
        (order.through x y z px py ps.0 h below.0, below_head x y zs px py ps.1 h below.1)

    pub insert_sorted-InOrder :
        (x : A) (xs : List A)
        → P x
        → All P xs
        → InOrder (λ a b. lt b a ≡ false) xs
        → InOrder (λ a b. lt b a ≡ false) (insert_sorted x xs)
    unfolding insert_sorted
    insert_sorted-InOrder x [] px ps s = (tt, tt)
    insert_sorted-InOrder x (y ∷ ys) px ps s = elim (Bool-cases (lt y x)) [
      | inl lt_eq ↦ rw lt_eq (
        All-insert_sorted (λ z. lt z y ≡ false) x ys (order.one_way y x lt_eq) s.0,
        insert_sorted-InOrder x ys px ps.1 s.1,
      )
      | inr lt_eq ↦ rw lt_eq ((lt_eq, below_head x y ys px ps.0 ps.1 lt_eq s.0), s)
    ]

    pub sort-InOrder : (xs : List A) → All P xs → InOrder (λ a b. lt b a ≡ false) (sort xs)
    unfolding sort
    sort-InOrder [] ps = tt
    sort-InOrder (x ∷ xs) ps =
        insert_sorted-InOrder x (sort xs) ps.0 (All-sort P xs ps.1) (sort-InOrder xs ps.1)

  -- a sort keeps the order of elements that go neither before nor after one another
  module _ (test : A → Bool)
      (tied : (x y : A) → test x ≡ true → test y ≡ true → lt x y ≡ false) where
    keep-insert_sorted : (x : A) (xs : List A) → keep test (insert_sorted x xs) ≡ keep test (x ∷ xs)
    unfolding insert_sorted keep
    keep-insert_sorted x [] = refl
    keep-insert_sorted x (y ∷ ys) = ground (arith, keep-insert_sorted x ys, tied y x)

    pub keep-sort : (xs : List A) → keep test (sort xs) ≡ keep test xs
    unfolding sort keep
    keep-sort [] = refl
    keep-sort (x ∷ xs) = keep-insert_sorted x (sort xs) ∙ ground (arith, keep-sort xs)
