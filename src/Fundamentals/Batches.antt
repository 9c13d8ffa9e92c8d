-- ===== src/Fundamentals/Batches.antt =====
-- app/fundamentals/queue_service.py: the batches of a run.
use ai_market_scanning_engin.Prelude.{
  ℕ, zero, suc, ◌≤◌, ◌≡◌, refl, ap, ◌∙◌, List, [], ◌∷◌, ◌++◌, length, take, drop, length-drop,
  take-append-drop, arith, max,
}
use ai_market_scanning_engin.Fundamentals.Queue.{batches}

module _ {ℓ} {A : Type ℓ} where
  abbrev pub join : List (List A) → List A
  join [] = []
  join (b ∷ more) = b ++ join more

  join-batches_enough :
      (n k : ℕ) (rows : List A) → length rows ≤ n → join (batches n (suc k) rows) ≡ rows
  unfolding batches
  join-batches_enough zero k [] le = refl
  join-batches_enough zero k (r ∷ rest) le = absurd (omega arith)
  join-batches_enough (suc n) k [] le = refl
  join-batches_enough (suc n) k (r ∷ rest) le =
      ap (λ tail. take (suc k) (r ∷ rest) ++ tail)
        (join-batches_enough n k (drop k rest) (omega (arith, length-drop k rest)))
      ∙ take-append-drop (suc k) (r ∷ rest)

  -- as many batches as there are rows are enough, whatever batch size is set
  pub join-batches :
      (size : ℕ) (rows : List A) → join (batches (length rows) (max 1 size) rows) ≡ rows
  join-batches zero rows = join-batches_enough (length rows) 0 rows (omega arith)
  join-batches (suc k) rows =
      let e : max 1 (suc k) ≡ suc k = omega arith in
      rw e (join-batches_enough (length rows) k rows (omega arith))
