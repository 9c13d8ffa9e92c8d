-- ===== src/Scanning/Keys.antt =====
-- app/repositories/scanner_repository.py: rows and their keys.
use ai_market_scanning_engin.Prelude.{
  ℕ, String, true, ◌&&◌, none, some, List, [], ◌∷◌, ◌≡◌, refl, eq_iff, str_eq_refl, ◌==◌,
  if◌then◌else◌, arith, is_some,
}
use ai_market_scanning_engin.Scanning.Tables.{
  ResultRow, is_among, exists_bulk, is_row_of, find_row, upsert_row,
}

module _ {W : Type 0} where
  pub is_row_of-keys :
      (s d : ℕ) (n : String) (r : ResultRow W)
      → is_row_of s n d r ≡ true
      → (r.symbol_id ≡ s) × (r.scanner_name ≡ n) × (r.date ≡ d)
  unfolding is_row_of
  is_row_of-keys s d n r h = ground (arith, eq_iff r.scanner_name n)

  pub is_row_of_self : (r : ResultRow W) → is_row_of r.symbol_id r.scanner_name r.date r ≡ true
  unfolding is_row_of
  is_row_of_self r = ground (arith, str_eq_refl r.scanner_name)

  -- a row with the same key answers to the same queries
  is_row_of-same :
      (s d : ℕ) (n : String) (a b : ResultRow W)
      → is_row_of a.symbol_id a.scanner_name a.date b ≡ true
      → is_row_of s n d a ≡ is_row_of s n d b
  unfolding is_row_of
  is_row_of-same s d n a b h =
      let k = is_row_of-keys a.symbol_id a.date a.scanner_name b h in rw (k.0, k.1, k.2) refl

  is_row_of-meet :
      (s d : ℕ) (n : String) (a b : ResultRow W)
      → is_row_of s n d a ≡ true
      → is_row_of s n d b ≡ true
      → is_row_of a.symbol_id a.scanner_name a.date b ≡ true
  is_row_of-meet s d n a b p q = let k = is_row_of-keys s d n a p in rw (k.0, k.1, k.2) q

  pub find_row-upsert_row :
      (s d : ℕ) (n : String) (new : ResultRow W) (rows : List (ResultRow W))
      → find_row s n d (upsert_row new rows)
        ≡ (if is_row_of s n d new then some new else find_row s n d rows)
  unfolding find_row upsert_row
  find_row-upsert_row s d n new [] = refl
  find_row-upsert_row s d n new (r ∷ rest) = ground (
    arith,
    find_row-upsert_row s d n new rest,
    is_row_of-same s d n new r,
    is_row_of-meet s d n new r,
  )

  -- No two rows have the same symbol, scanner and date.
  unfoldable pub IsKeyed : List (ResultRow W) → Type 0
  unfolding find_row
  IsKeyed [] = Unit
  IsKeyed (r ∷ rest) = (find_row r.symbol_id r.scanner_name r.date rest ≡ none) × IsKeyed rest

  find_row-same :
      (a b : ResultRow W) (rows : List (ResultRow W))
      → is_row_of a.symbol_id a.scanner_name a.date b ≡ true
      → find_row a.symbol_id a.scanner_name a.date rows
        ≡ find_row b.symbol_id b.scanner_name b.date rows
  find_row-same a b rows h =
      let k = is_row_of-keys a.symbol_id a.date a.scanner_name b h in rw (k.0, k.1, k.2) refl

  pub upsert_row-IsKeyed :
      (new : ResultRow W) (rows : List (ResultRow W)) → IsKeyed rows → IsKeyed (upsert_row new rows)
  unfolding upsert_row IsKeyed find_row
  upsert_row-IsKeyed new [] h = (refl, tt)
  upsert_row-IsKeyed new (r ∷ rest) h = ground (
    arith,
    find_row-same new r rest,
    find_row-upsert_row r.symbol_id r.date r.scanner_name new rest,
    is_row_of-same r.symbol_id r.date r.scanner_name r new,
    is_row_of-meet r.symbol_id r.date r.scanner_name new r,
    is_row_of_self r,
    is_row_of_self new,
    upsert_row-IsKeyed new rest h.1,
  )

  find_row-pair :
      (s s2 d d2 : ℕ) (n : String) (rows : List (ResultRow W))
      → ((s2 == s) && (d2 == d)) ≡ true
      → find_row s2 n d2 rows ≡ find_row s n d rows
  find_row-pair s s2 d d2 n rows h =
      let es : s2 ≡ s = ground arith in let ed : d2 ≡ d = ground arith in rw (es, ed) refl

  pub is_among-exists_bulk :
      (s d : ℕ) (n : String) (rows : List (ResultRow W)) (pairs : List (ℕ × ℕ))
      → is_among s d (exists_bulk rows pairs n)
        ≡ (is_among s d pairs && is_some (find_row s n d rows))
  unfolding is_among exists_bulk
  is_among-exists_bulk s d n rows [] = refl
  is_among-exists_bulk s d n rows ((s2, d2) ∷ pairs) =
      ground (arith, is_among-exists_bulk s d n rows pairs, find_row-pair s s2 d d2 n rows)
