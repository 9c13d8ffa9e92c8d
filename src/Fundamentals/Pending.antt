-- ===== src/Fundamentals/Pending.antt =====
-- app/fundamentals/queue_service.py: which rows `_select_pending` takes.
use ai_market_scanning_engin.Prelude.{
  arith, ℕ, ◌+◌, ◌*◌, ◌<◌, ◌≡◌, refl, String, true, Option, some, List, [], ◌∷◌, Bool-cases,
  Option-cases, inl, inr, ◌⊎◌, eq_iff, false≢true, Float, All, sym, ◌∙◌,
}
use ai_market_scanning_engin.Settings.{Settings}
use ai_market_scanning_engin.Values.{Value, null, flag, number, text, nested, Snapshot, get}
use ai_market_scanning_engin.Scanning.Tables.{ResultRow}
use ai_market_scanning_engin.Fundamentals.Select.{
  is_candidate_scanner, is_recent, is_success, time_of, pending_rows,
}

abbrev pub IsCandidateScanner : String → Type 0
IsCandidateScanner name =
    (name ≡ "fno_momentum_v1") ⊎ (name ≡ "pre_breakout_v1") ⊎ (name ≡ "ipo_intraday_v1")

is_candidate_scanner-IsCandidateScanner :
    (name : String) → is_candidate_scanner name ≡ true → IsCandidateScanner name
unfolding is_candidate_scanner
is_candidate_scanner-IsCandidateScanner name h = ground (
  arith,
  eq_iff name "fno_momentum_v1",
  eq_iff name "pre_breakout_v1",
  eq_iff name "ipo_intraday_v1",
)

IsCandidateScanner-is_candidate_scanner :
    (name : String) → IsCandidateScanner name → is_candidate_scanner name ≡ true
unfolding is_candidate_scanner
IsCandidateScanner-is_candidate_scanner name h = ground (
  arith,
  eq_iff name "fno_momentum_v1",
  eq_iff name "pre_breakout_v1",
  eq_iff name "ipo_intraday_v1",
)

module _ {W : Type 0} where
  is_success-text : (v : Value W) → is_success v ≡ true → v ≡ text "SUCCESS"
  unfolding is_success
  is_success-text (text s) h = rw ((eq_iff s "SUCCESS").0 h) refl
  is_success-text null h = absurd (false≢true h)
  is_success-text (flag b) h = absurd (false≢true h)
  is_success-text (number x) h = absurd (false≢true h)
  is_success-text (nested empty s) h = absurd (false≢true h)

  time_of-text :
      (fromisoformat : String → Option ℕ) (v : Value W) (t : ℕ)
      → time_of fromisoformat v ≡ some t
      → (s : String) × (v ≡ text s) × (fromisoformat s ≡ some t)
  unfolding time_of
  time_of-text fromisoformat (text s) t h = (s, refl, h)
  time_of-text fromisoformat null t h = absurd (ground arith)
  time_of-text fromisoformat (flag b) t h = absurd (ground arith)
  time_of-text fromisoformat (number x) t h = absurd (ground arith)
  time_of-text fromisoformat (nested empty s) t h = absurd (ground arith)

module _ {W : Type 0} ⦃f : Float W⦄ (settings : Settings W) (fromisoformat : String → Option ℕ)
    (now : ℕ) where
  -- fetched with success, and less than the time to live ago
  abbrev pub IsFresh : Snapshot W → Type 0
  IsFresh s =
      (get "fundamental_status" s ≡ text "SUCCESS")
      × ((shown : String) × (t : ℕ) × (get "fundamental_fetched_at" s ≡ text shown)
          × (fromisoformat shown ≡ some t)
          × (now < t + settings.fundamental_cache_ttl_minutes * 60))

  is_recent-IsFresh : (s : Snapshot W) → is_recent settings fromisoformat now s ≡ true → IsFresh s
  unfolding is_recent
  is_recent-IsFresh s h =
      let status = get "fundamental_status" s in
      let fetched = get "fundamental_fetched_at" s in
      let served : is_success status ≡ true = ground arith in
      elim (Option-cases (time_of fromisoformat fetched)) [
        | inl e ↦ absurd (ground arith)
        | inr (t, e) ↦
            let (shown, k, reads) = time_of-text fromisoformat fetched t e in
            (is_success-text status served, (shown, t, k, reads, ground arith))
      ]

  IsFresh-is_recent : (s : Snapshot W) → IsFresh s → is_recent settings fromisoformat now s ≡ true
  unfolding is_recent is_success time_of
  IsFresh-is_recent s (e, (shown, t, k, reads, lt)) = rw (e, k, reads) (ground arith)

  -- a row of a candidate scanner whose fundamentals are not fresh
  abbrev pub IsPending : ResultRow W → Type 0
  IsPending r = IsCandidateScanner r.scanner_name × (IsFresh r.feature_snapshot → ⊥)

  -- the pending rows of a table, each once and in its order
  pub data Taken : List (ResultRow W) → List (ResultRow W) → Type 0 where
    done : Taken [] []
    take_row :
        (r : ResultRow W) {rows taken : List (ResultRow W)}
        → IsPending r
        → Taken rows taken
        → Taken (r ∷ rows) (r ∷ taken)
    pass_row :
        (r : ResultRow W) {rows taken : List (ResultRow W)}
        → (IsPending r → ⊥)
        → Taken rows taken
        → Taken (r ∷ rows) taken

  pub pending_rows-Taken :
      (rows : List (ResultRow W)) → Taken rows (pending_rows settings fromisoformat now rows)
  unfolding pending_rows
  pending_rows-Taken [] = done
  pending_rows-Taken (r ∷ rest) =
      let others = pending_rows-Taken rest in
      elim (Bool-cases (is_candidate_scanner r.scanner_name)) [
        | inr e ↦
            rw (e, pending_rows)
              (pass_row r
                (λ p.
                  false≢true (sym e ∙ IsCandidateScanner-is_candidate_scanner r.scanner_name p.0))
                others)
        | inl e ↦ elim (Bool-cases (is_recent settings fromisoformat now r.feature_snapshot)) [
          | inl fresh ↦
              rw (e, fresh, pending_rows)
                (pass_row r (λ p. p.1 (is_recent-IsFresh r.feature_snapshot fresh)) others)
          | inr stale ↦
              rw (e, stale, pending_rows)
                (take_row r
                  (
                    is_candidate_scanner-IsCandidateScanner r.scanner_name e,
                    λ fresh. false≢true (sym stale ∙ IsFresh-is_recent r.feature_snapshot fresh),
                  )
                  others)
        ]
      ]

  pub All-Taken :
      (Q : ResultRow W → Type 0) {rows taken : List (ResultRow W)}
      → Taken rows taken
      → All Q rows
      → All Q taken
  All-Taken Q done qs = tt
  All-Taken Q (take_row r p more) qs = (qs.0, All-Taken Q more qs.1)
  All-Taken Q (pass_row r p more) qs = All-Taken Q more qs.1
