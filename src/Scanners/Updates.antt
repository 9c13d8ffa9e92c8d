-- ===== src/Scanners/Updates.antt =====
-- What `dict.get` finds in a snapshot after a write.
use ai_market_scanning_engin.Prelude.{
  String, List, [], ◌∷◌, ◌≡◌, refl, ap, ◌∙◌, if◌then◌else◌, arith, insert, str_eq, eq_iff,
}
use ai_market_scanning_engin.Values.{Snapshot, Value, get}
use ai_market_scanning_engin.Scanners.Candidate.{update}

module _ {W : Type 0} where
  pub get-insert :
      (key k : String) (v : Value W) (snapshot : Snapshot W)
      → get key (insert k v snapshot) ≡ (if str_eq k key then v else get key snapshot)
  unfolding get insert
  get-insert key k v [] = refl
  get-insert key k v ((k2, v2) ∷ rest) =
      ground (arith, get-insert key k v rest, eq_iff k2 k, eq_iff k key, eq_iff k2 key)

  -- the last entry with the key
  unfoldable pub last_entry : String → List (String × Value W) → Value W → Value W
  last_entry key [] v = v
  last_entry key ((k, v) ∷ rest) before = last_entry key rest (if str_eq k key then v else before)

  pub get-update :
      (key : String) (entries : List (String × Value W)) (snapshot : Snapshot W)
      → get key (update entries snapshot) ≡ last_entry key entries (get key snapshot)
  unfolding update last_entry
  get-update key [] snapshot = refl
  get-update key ((k, v) ∷ rest) snapshot =
      get-update key rest (insert k v snapshot)
      ∙ ap (last_entry key rest) (get-insert key k v snapshot)
