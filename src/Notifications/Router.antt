-- ===== src/Notifications/Router.antt =====
-- app/notifications/router.py, and the split of app/notifications/digest.py, which keeps its own copy
-- of the category names.
use ai_market_scanning_engin.Prelude.{
  Bool, false, ◌||◌, String, str_eq, Option, none, some, List, [], ◌∷◌, if◌then◌else◌, ◌≡◌, true,
  arith, eq_iff, All, Bool-cases, false≢true, inl, inr, subst, refl,
}
use ai_market_scanning_engin.Alerts.Store.{Channel, default_bot, ipo_bot, fno_bot}

abbrev pub contains : List String → String → Bool
contains [] s = false
contains (x ∷ xs) s = str_eq x s || contains xs s

abbrev pub ipo_alert_categories : List String
ipo_alert_categories = "IPO_PRE_BREAKOUT" ∷ "IPO_BREAKOUT" ∷ "IPO_MOMENTUM" ∷ []

abbrev pub fno_alert_categories : List String
fno_alert_categories = "FNO_PRE_BREAKOUT" ∷ "FNO_BREAKOUT" ∷ "FNO_MOMENTUM" ∷ []

unfoldable pub resolve : Option String → Channel
resolve none = default_bot
resolve (some category) =
    if contains ipo_alert_categories category
    then ipo_bot
    else if contains fno_alert_categories category
    then fno_bot
    else default_bot

abbrev pub digest_ipo_categories : List String
digest_ipo_categories = "IPO_PRE_BREAKOUT" ∷ "IPO_BREAKOUT" ∷ "IPO_MOMENTUM" ∷ []

abbrev pub digest_fno_categories : List String
digest_fno_categories = "FNO_PRE_BREAKOUT" ∷ "FNO_BREAKOUT" ∷ "FNO_MOMENTUM" ∷ []

pub record DigestEntry (W : Type 0) : Type 0 where
  pub symbol : String
  pub alert_category : Option String
  pub score : W

-- `e.alert_category in names`
abbrev pub is_in : List String → Option String → Bool
is_in names none = false
is_in names (some c) = contains names c

module _ {W : Type 0} where
  unfoldable pub keep : List String → List (DigestEntry W) → List (DigestEntry W)
  keep names [] = []
  keep names (e ∷ rest) =
      let kept = keep names rest in if is_in names e.alert_category then e ∷ kept else kept

  unfoldable pub split_by_universe :
      List (DigestEntry W) → List (DigestEntry W) × List (DigestEntry W)
  unfolding keep
  split_by_universe entries =
      (keep digest_ipo_categories entries, keep digest_fno_categories entries)

-- The entries whose alerts go to a bot.
abbrev pub channel_eq : Channel → Channel → Bool
channel_eq default_bot default_bot = true
channel_eq ipo_bot ipo_bot = true
channel_eq fno_bot fno_bot = true
channel_eq _ _ = false

abbrev pub routed_to : {W : Type 0} → Channel → List (DigestEntry W) → List (DigestEntry W)
routed_to bot [] = []
routed_to bot (e ∷ rest) =
    let routed = routed_to bot rest in
    if channel_eq (resolve e.alert_category) bot then e ∷ routed else routed

-- What holds of every name of a list holds of each name that the list contains.
contains_all {ℓ} :
    (P : String → Type ℓ) (xs : List String) (c : String) → All P xs → contains xs c ≡ true → P c
contains_all P [] c h found = absurd (false≢true found)
contains_all P (x ∷ xs) c h found = elim (Bool-cases (str_eq x c)) [
  | inl e ↦ subst P ((eq_iff x c).0 e) h.0
  | inr e ↦ contains_all P xs c h.1 (ground arith)
]

-- No category is both an IPO and an F&O one.
categories_disjoint :
    (c : String) → contains fno_alert_categories c ≡ true → contains ipo_alert_categories c ≡ false
categories_disjoint c found =
    contains_all (λ x. contains ipo_alert_categories x ≡ false) fno_alert_categories c
      (refl, (refl, (refl, tt))) found

is_in-resolve :
    (category : Option String)
    → (is_in digest_ipo_categories category ≡ channel_eq (resolve category) ipo_bot)
      × (is_in digest_fno_categories category ≡ channel_eq (resolve category) fno_bot)
unfolding resolve
is_in-resolve none = (refl, refl)
is_in-resolve (some c) = elim (Bool-cases (contains fno_alert_categories c)) [
  | inl e ↦ rw (e, categories_disjoint c e) (refl, refl)
  | inr e ↦ elim (Bool-cases (contains ipo_alert_categories c)) [
    | inl i ↦ rw (e, i) (refl, refl)
    | inr i ↦ rw (e, i) (refl, refl)
  ]
]

module _ {W : Type 0} where
  keep-routed_to :
      (names : List String) (bot : Channel) (entries : List (DigestEntry W))
      → ((category : Option String) → is_in names category ≡ channel_eq (resolve category) bot)
      → keep names entries ≡ routed_to bot entries
  unfolding keep
  keep-routed_to names bot [] agree = refl
  keep-routed_to names bot (e ∷ rest) agree =
      rw (agree e.alert_category, keep-routed_to names bot rest agree)

  -- The digest and the router, which keep separate copies of the category names, agree: the digest's
  -- IPO part is exactly the entries whose alerts the router sends to the IPO bot, in order, and its
  -- F&O part exactly those that it sends to the F&O bot.
  pub split_by_universe-routed_to :
      (entries : List (DigestEntry W))
      → split_by_universe entries ≡ (routed_to ipo_bot entries, routed_to fno_bot entries)
  unfolding split_by_universe
  split_by_universe-routed_to entries = rw (
    keep-routed_to digest_ipo_categories ipo_bot entries (λ c. (is_in-resolve c).0),
    keep-routed_to digest_fno_categories fno_bot entries (λ c. (is_in-resolve c).1),
  )
