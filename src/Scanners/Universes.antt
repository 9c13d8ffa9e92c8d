-- ===== src/Scanners/Universes.antt =====
-- app/candidates/fno_momentum_scanner.py, pre_breakout_scanner.py and ipo_intraday_scanner.py: the universes
-- and the strategies.
use ai_market_scanning_engin.Prelude.{
  ℕ, Bool, false, ◌||◌, ◌==◌, Option, none, some, List, [], ◌∷◌, insert, if◌then◌else◌, Float,
}
use ai_market_scanning_engin.Values.{Snapshot, number, text}
use ai_market_scanning_engin.Settings.{Settings}
use ai_market_scanning_engin.Scanning.Models.{Symbol, Strategy}
use ai_market_scanning_engin.Scanners.Candidate.{Column, Texts, ipo_universe, fno_universe}
use ai_market_scanning_engin.Scanners.Contexts.{
  Context, candidate_context, Rows, bulk, symbol_of, scan_date_of, feature_snapshot_of,
}
use ai_market_scanning_engin.Scanners.Builder.{Scorers, build_context}
use ai_market_scanning_engin.Scanners.Candidates.{candidate_validate, candidate_score}
use ai_market_scanning_engin.Scanners.CandidateScans.{fno_scan, pre_breakout_scan, ipo_scan}

-- `merged[s.id] = s`, which keeps the place of an id that is there, and `merged.setdefault(s.id, s)`
unfoldable pub set_symbol : Symbol → List Symbol → List Symbol
set_symbol s [] = s ∷ []
set_symbol s (x ∷ rest) =
    let others = set_symbol s rest in if x.id == s.id then s ∷ rest else x ∷ others

unfoldable pub set_default : Symbol → List Symbol → List Symbol
set_default s [] = s ∷ []
set_default s (x ∷ rest) =
    let others = set_default s rest in if x.id == s.id then x ∷ rest else x ∷ others

unfoldable pub add_all :
    (Symbol → List Symbol → List Symbol) → List Symbol → List Symbol → List Symbol
add_all put [] merged = merged
add_all put (s ∷ rest) merged = add_all put rest (put s merged)

unfoldable pub merged_symbols : List Symbol → List Symbol → List Symbol
unfolding set_symbol set_default add_all
merged_symbols fno_symbols ipo_symbols =
    add_all set_default ipo_symbols (add_all set_symbol fno_symbols [])

-- `symbol.id in self._ipo_symbol_ids`
unfoldable pub has_id : ℕ → List Symbol → Bool
has_id id [] = false
has_id id (s ∷ rest) = s.id == id || has_id id rest

-- The universes, and what `PriceRepository` reads for an IPO: the trailing high and low, and the volume.
pub record Universes (D : Type 0) : Type 0 where
  pub fno_symbols : List Symbol
  pub ipo_symbols : List Symbol
  pub high_low_by_id : ℕ → Option (D × D)
  pub volume_by_id : ℕ → Option ℕ

module _ {W : Type 0} ⦃f : Float W⦄ where
  abbrev pub with_volume : Option ℕ → Snapshot W → Snapshot W
  with_volume none snapshot = snapshot
  with_volume (some volume) snapshot = insert "ipo_latest_volume" (number (f.lit volume)) snapshot

module _ {D W : Type 0} ⦃f : Float W⦄ ⦃d : Column D W⦄ where
  abbrev pub with_high_low : Option (D × D) → Snapshot W → Snapshot W
  with_high_low none snapshot = snapshot
  with_high_low (some (high, low)) snapshot =
      insert "ipo_52w_low" (text (d.shown_as low))
        (insert "ipo_52w_high" (text (d.shown_as high)) snapshot)

  module _ (settings : Settings W) (texts : Texts) (day : ℕ → ℕ) (scorers : Scorers W)
      (universes : Universes D) (rows : Rows D W) where
    -- what `IpoIntradayScanner.build_context` adds to the candidate
    unfoldable pub add_ipo_values : Context D W → Context D W
    unfolding insert
    add_ipo_values (candidate_context k) = candidate_context (record k {
      candidate = record k.candidate {
        technical_feature_snapshot = with_volume (universes.volume_by_id k.symbol.id) (
            with_high_low (universes.high_low_by_id k.symbol.id)
              k.candidate.technical_feature_snapshot);
      };
    })
    add_ipo_values c = c

    unfoldable pub build_ipo_context : Symbol → Option (Context D W)
    unfolding build_context add_ipo_values
    build_ipo_context symbol =
        elim (build_context settings texts scorers rows ipo_universe "ipo_intraday_v1" symbol) [
          | none ↦ none
          | some c ↦ some (add_ipo_values c)
        ]

    unfoldable pub build_pre_breakout_context : Symbol → Option (Context D W)
    unfolding build_context has_id
    build_pre_breakout_context symbol =
        build_context settings texts scorers rows
          (if has_id symbol.id universes.ipo_symbols then ipo_universe else fno_universe)
          "pre_breakout_v1" symbol

    unfoldable pub fno_momentum_v1 : Strategy (Context D W) W
    unfolding bulk build_context scan_date_of feature_snapshot_of candidate_validate fno_scan
        candidate_score
    fno_momentum_v1 = record {
      name = "fno_momentum_v1";
      get_candidate_symbols = λ symbols. universes.fno_symbols;
      context_of = bulk (build_context settings texts scorers rows fno_universe "fno_momentum_v1");
      context_symbol = symbol_of;
      scan_date = scan_date_of day;
      snapshot_of = feature_snapshot_of texts;
      validate = candidate_validate;
      scan = fno_scan settings;
      score_of = candidate_score;
    }

    unfoldable pub pre_breakout_v1 : Strategy (Context D W) W
    unfolding bulk build_context scan_date_of feature_snapshot_of build_pre_breakout_context
        candidate_validate pre_breakout_scan candidate_score merged_symbols
    pre_breakout_v1 = record {
      name = "pre_breakout_v1";
      get_candidate_symbols = λ symbols. merged_symbols universes.fno_symbols universes.ipo_symbols;
      context_of = bulk (build_pre_breakout_context);
      context_symbol = symbol_of;
      scan_date = scan_date_of day;
      snapshot_of = feature_snapshot_of texts;
      validate = candidate_validate;
      scan = pre_breakout_scan settings;
      score_of = candidate_score;
    }

    unfoldable pub ipo_intraday_v1 : Strategy (Context D W) W
    unfolding bulk build_context scan_date_of feature_snapshot_of candidate_validate ipo_scan
        candidate_score build_ipo_context
    ipo_intraday_v1 = record {
      name = "ipo_intraday_v1";
      get_candidate_symbols = λ symbols. universes.ipo_symbols;
      context_of = bulk (build_ipo_context);
      context_symbol = symbol_of;
      scan_date = scan_date_of day;
      snapshot_of = feature_snapshot_of texts;
      validate = candidate_validate;
      scan = ipo_scan settings;
      score_of = candidate_score;
    }
