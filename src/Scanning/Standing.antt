-- ===== src/Scanning/Standing.antt =====
-- app/scanner/scanner_manager.py: what a run does to the rows that are there.
use ai_market_scanning_engin.Prelude.{
  ℕ, String, true, false, ◌&&◌, Option, none, some, List, [], ◌∷◌, ◌≡◌, refl, ◌∙◌, eq_iff, str_eq,
  ◌==◌, Float, arith, All, All-map, All-both, Option-cases, Bool-cases, Result-cases, inl, inr, ok,
}
use ai_market_scanning_engin.Scanning.Tables.{
  info, ResultRow, Tables, is_among, exists_bulk, is_row_of, find_row,
}
use ai_market_scanning_engin.Scanning.Models.{Symbol, ScanOutcome, Strategy, Writes}
use ai_market_scanning_engin.Scanning.Manager.{entry_of, result_row}
use ai_market_scanning_engin.Scanning.Batches.{
  run_scanner, select_symbols, with_context, not_scanned, scan_pairs,
}
use ai_market_scanning_engin.Scanning.Verdicts.{
  Fate, fate, fate_of_row, stands, turned_down, fails, keep_row,
}
use ai_market_scanning_engin.Scanning.Passes.{keep_all, results-run_scanner}
use ai_market_scanning_engin.Scanning.Keys.{
  IsKeyed, upsert_row-IsKeyed, find_row-upsert_row, is_among-exists_bulk,
}

-- `scan` leaves the symbol and the date of a context as they are.
abbrev pub KeepsContext : {C W : Type 0} → Strategy C W → Type 0
KeepsContext {C = C} scanner =
    (c : C) (o : ScanOutcome) (k : C)
    → scanner.scan c ≡ ok (o, k)
    → ((scanner.context_symbol k).id ≡ (scanner.context_symbol c).id)
      × (scanner.scan_date k ≡ scanner.scan_date c)

module _ {C W : Type 0} ⦃f : Float W⦄ (scanner : Strategy C W) (writes : Writes W)
    (run_id : ℕ) where
  apart_row :
      (symbol : Symbol) (o : ScanOutcome) (row : ResultRow W) (rows : List (ResultRow W)) (s d : ℕ)
      (n : String)
      → is_row_of s n d row ≡ false
      → find_row s n d (keep_row (fate_of_row scanner writes run_id symbol o row) rows)
        ≡ find_row s n d rows
  unfolding keep_row fate_of_row
  apart_row symbol o row rows s d n h = ground (arith, find_row-upsert_row s d n row rows)

  module _ (symbol : Symbol) (c : C) where
    pub fate_induction :
        (P : Fate W → Type 0)
        → P (fails false)
        → P turned_down
        → ((o : ScanOutcome) (k : C) (x : W)
            → scanner.scan c ≡ ok (o, k)
            → scanner.score_of k ≡ ok x
            → P (fate_of_row scanner writes run_id symbol o (result_row scanner k o x)))
        → P (fate scanner writes run_id symbol c)
    unfolding fate
    fate_induction P bad out good = elim (Result-cases (scanner.validate c)) [
      | inl (e, h) ↦ rw (h, fate) bad
      | inr (v, h) ↦
          rw (h, fate)
            (elim (Bool-cases v.valid) [
              | inl y ↦ rw y (elim (Result-cases (scanner.scan c)) [
                | inl (e, hs) ↦ rw hs bad
                | inr ((o, k), hs) ↦ rw hs (elim (Result-cases (scanner.score_of k)) [
                  | inl (e, hx) ↦ rw hx bad
                  | inr (x, hx) ↦ rw hx (good o k x hs hx)
                ])
              ])
              | inr y ↦
                  rw y
                    (elim (Option-cases (
                      writes.log_error (
                        entry_of scanner writes run_id info ("validation failed: " ∷ v.reason)
                          symbol))) [ inl e ↦ rw e out | inr (m, e) ↦ rw e bad ])
            ])
    ]

    find_row-keep_row :
        KeepsContext scanner
        → (s d : ℕ) (n : String) (rows : List (ResultRow W))
        → (((scanner.context_symbol c).id == s)
            && str_eq scanner.name n
            && (scanner.scan_date c == d))
          ≡ false
        → find_row s n d (keep_row (fate scanner writes run_id symbol c) rows) ≡ find_row s n d rows
    unfolding keep_row is_row_of result_row
    find_row-keep_row keeps s d n rows h =
        fate_induction (λ k. find_row s n d (keep_row k rows) ≡ find_row s n d rows) refl refl
          (λ o k x hs hx.
            let same = keeps c o k hs in
            apart_row symbol o (result_row scanner k o x) rows s d n (rw (same.0, same.1) h))

  -- the rows that a pass can write
  abbrev IsApart : ℕ → ℕ → String → Symbol × C → Type 0
  IsApart s d n (symbol, c) =
      (((scanner.context_symbol c).id == s) && str_eq scanner.name n && (scanner.scan_date c == d))
      ≡ false

  find_row-keep_all :
      KeepsContext scanner
      → (s d : ℕ) (n : String) (xs : List (Symbol × C)) (rows : List (ResultRow W))
      → All (IsApart s d n) xs
      → find_row s n d (keep_all scanner writes run_id xs rows) ≡ find_row s n d rows
  unfolding keep_all
  find_row-keep_all keeps s d n [] rows h = refl
  find_row-keep_all keeps s d n ((symbol, c) ∷ rest) rows h =
      find_row-keep_all keeps s d n rest (keep_row (fate scanner writes run_id symbol c) rows) h.1
      ∙ find_row-keep_row symbol c keeps s d n rows h.0

  keep_row-IsKeyed :
      (k : Fate W) (rows : List (ResultRow W)) → IsKeyed rows → IsKeyed (keep_row k rows)
  unfolding keep_row
  keep_row-IsKeyed (stands row) rows h = upsert_row-IsKeyed row rows h
  keep_row-IsKeyed turned_down rows h = h
  keep_row-IsKeyed (fails late) rows h = h

  keep_all-IsKeyed :
      (xs : List (Symbol × C)) (rows : List (ResultRow W))
      → IsKeyed rows
      → IsKeyed (keep_all scanner writes run_id xs rows)
  unfolding keep_all
  keep_all-IsKeyed [] rows h = h
  keep_all-IsKeyed ((symbol, c) ∷ rest) rows h =
      keep_all-IsKeyed rest _ (keep_row-IsKeyed (fate scanner writes run_id symbol c) rows h)

module _ {C W : Type 0} (scanner : Strategy C W) where
  -- The context of a symbol carries that symbol, as `build_context` makes it.
  abbrev pub HasSymbols : Type 0
  HasSymbols =
      (symbols : List Symbol) (id : ℕ) (c : C)
      → scanner.context_of symbols id ≡ some c
      → (scanner.context_symbol c).id ≡ id

  IsOwn : Symbol × C → Type 0
  IsOwn p = (scanner.context_symbol p.1).id ≡ p.0.id

  pub with_context-All :
      (P : Symbol × C → Type 0) (contexts : ℕ → Option C)
      → ((s : Symbol) (c : C) → contexts s.id ≡ some c → P (s, c))
      → (xs : List Symbol) → All P (with_context contexts xs)
  unfolding with_context
  with_context-All P contexts each [] = tt
  with_context-All P contexts each (s ∷ rest) = elim (Option-cases (contexts s.id)) [
    | inl e ↦ rw (e, with_context) (with_context-All P contexts each rest)
    | inr (c, e) ↦ rw (e, with_context) (each s c e, with_context-All P contexts each rest)
  ]

  IsPaired : List (ℕ × ℕ) → Symbol × C → Type 0
  IsPaired pairs p = is_among p.0.id (scanner.scan_date p.1) pairs ≡ true

  scan_pairs-All : (xs : List (Symbol × C)) → All (IsPaired (scan_pairs scanner xs)) xs
  unfolding IsPaired is_among
  scan_pairs-All [] = tt
  scan_pairs-All ((s, c) ∷ rest) =
      (ground arith, All-map (λ p h. ground arith) rest (scan_pairs-All rest))

  abbrev pub IsNew : List (ℕ × ℕ) → Symbol × C → Type 0
  IsNew scanned p = is_among p.0.id (scanner.scan_date p.1) scanned ≡ false

  pub not_scanned-All :
      (P : Symbol × C → Type 0) (scanned : List (ℕ × ℕ)) (xs : List (Symbol × C))
      → All P xs
      → All (λ p. P p × IsNew scanned p) (not_scanned scanner scanned xs)
  unfolding not_scanned
  not_scanned-All P scanned [] h = tt
  not_scanned-All P scanned ((s, c) ∷ rest) h =
      elim (Bool-cases (is_among s.id (scanner.scan_date c) scanned)) [
        | inl e ↦ rw (e, not_scanned) (not_scanned-All P scanned rest h.1)
        | inr e ↦ rw (e, not_scanned) ((h.0, e), not_scanned-All P scanned rest h.1)
      ]

  IsFresh : List (ResultRow W) → Symbol × C → Type 0
  IsFresh rows p = IsOwn p × (find_row p.0.id scanner.name (scanner.scan_date p.1) rows ≡ none)

  select_symbols-All :
      HasSymbols
      → (symbols : List Symbol) (t : Tables W)
      → All (IsFresh t.results) (select_symbols scanner symbols t)
  unfolding select_symbols IsFresh IsPaired IsOwn
  select_symbols-All law symbols t =
      let candidates = with_context (scanner.context_of symbols) symbols in
      let pairs = scan_pairs scanner candidates in
      let scanned = exists_bulk t.results pairs scanner.name in
      All-map
        (λ p h. (
          h.0.0,
          ground (
            arith,
            h.0.1,
            h.1,
            is_among-exists_bulk p.0.id (scanner.scan_date p.1) scanner.name t.results pairs,
          ),
        ))
        (not_scanned scanner scanned candidates)
        (not_scanned-All (λ p. IsOwn p × IsPaired pairs p) scanned candidates
          (All-both IsOwn (IsPaired pairs) candidates
            (with_context-All IsOwn (scanner.context_of symbols) (λ s c e. law symbols s.id c e)
              symbols)
            (scan_pairs-All candidates)))

module _ {C W : Type 0} ⦃f : Float W⦄ (scanner : Strategy C W) (writes : Writes W)
    (run_id : ℕ) where
  fresh-IsApart :
      (s d : ℕ) (n : String) (r : ResultRow W) (rows : List (ResultRow W))
      → find_row s n d rows ≡ some r
      → (p : Symbol × C) → IsFresh scanner rows p
      → IsApart scanner writes run_id s d n p
  unfolding IsFresh IsOwn
  fresh-IsApart s d n r rows h (symbol, c) fresh =
      elim (Bool-cases (
        ((scanner.context_symbol c).id == s)
        && str_eq scanner.name n
        && (scanner.scan_date c == d))) [
          | inr e ↦ e
          | inl e ↦
              let es : (scanner.context_symbol c).id ≡ s = ground arith in
              let en : scanner.name ≡ n = ground (arith, eq_iff scanner.name n) in
              let ed : scanner.scan_date c ≡ d = ground arith in
              let clash : find_row s n d rows ≡ none = rw (← en, ← ed, ← es, fresh.0) fresh.1 in
              absurd (ground (arith, clash, h))
        ]

  pub run_scanner-stands :
      HasSymbols scanner × KeepsContext scanner
      → (symbols : List Symbol) (t : Tables W) (s d : ℕ) (n : String) (r : ResultRow W)
      → find_row s n d t.results ≡ some r
      → find_row s n d (run_scanner scanner writes run_id symbols t).tables.results ≡ some r
  run_scanner-stands law symbols t s d n r h =
      let chosen = select_symbols scanner symbols t in
      rw (results-run_scanner scanner writes run_id symbols t) (
        find_row-keep_all scanner writes run_id law.1 s d n chosen t.results (
          All-map (fresh-IsApart s d n r t.results h) chosen
            (select_symbols-All scanner law.0 symbols t))
        ∙ h)

  pub run_scanner-IsKeyed :
      (symbols : List Symbol) (t : Tables W)
      → IsKeyed t.results
      → IsKeyed (run_scanner scanner writes run_id symbols t).tables.results
  run_scanner-IsKeyed symbols t h =
      rw (results-run_scanner scanner writes run_id symbols t)
        (keep_all-IsKeyed scanner writes run_id (select_symbols scanner symbols t) t.results h)
