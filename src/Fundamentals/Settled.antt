-- ===== src/Fundamentals/Settled.antt =====
-- app/fundamentals/queue_service.py: what a fetch leaves of its row for the next run.
use ai_market_scanning_engin.Prelude.{
  ℕ, ◌+◌, ◌*◌, ◌≡◌, refl, String, Bool, true, false, ◌&&◌, Option, none, some, Float, ltb, ap, ◌∙◌,
}
use ai_market_scanning_engin.Settings.{Settings}
use ai_market_scanning_engin.Values.{Snapshot, Value, get, text}
use ai_market_scanning_engin.Scanning.Tables.{ResultRow}
use ai_market_scanning_engin.Scanners.Candidate.{Texts}
use ai_market_scanning_engin.Scanners.Builder.{ScoreResult}
use ai_market_scanning_engin.Scanners.Updates.{last_entry, get-update, get-insert}
use ai_market_scanning_engin.Fundamentals.Log.{
  FetchStatus, pending, processing, success, rate_limited, failed, cached,
}
use ai_market_scanning_engin.Fundamentals.Select.{priority_key, is_recent, is_success, time_of}
use ai_market_scanning_engin.Fundamentals.Apply.{
  fundamental_entries, apply_result, status_value, settle_row, mark_status,
}

abbrev is_done : FetchStatus → Bool
is_done success = true
is_done _ = false

module _ {W : Type 0} ⦃f : Float W⦄ where
  priority_key-same :
      (r s : ResultRow W)
      → r.is_qualified ≡ s.is_qualified
      → get "setup_state" r.feature_snapshot ≡ get "setup_state" s.feature_snapshot
      → get "technical_score" r.feature_snapshot ≡ get "technical_score" s.feature_snapshot
      → priority_key r ≡ priority_key s
  unfolding priority_key
  priority_key-same r s q e k = rw (q, e, k) refl

module _ {F W : Type 0} ⦃f : Float W⦄ (settings : Settings W)
    (fromisoformat : String → Option ℕ) where
  -- whether the row is fresh at the time `t`
  abbrev pub is_recent_after : Option F → FetchStatus → ℕ → ResultRow W → ℕ → Bool
  is_recent_after (some found) status now row t =
      is_done status && ltb t (now + settings.fundamental_cache_ttl_minutes * 60)
  is_recent_after none failed now row t = false
  is_recent_after none rate_limited now row t = false
  is_recent_after none _ now row t = is_recent settings fromisoformat t row.feature_snapshot

  -- `after` is what the fetch of `row` left.
  pub record IsSettled (found : Option F) (status : FetchStatus) (now : ℕ) (row after : ResultRow W)
      : Type 0 where
    pub same_row :
        (after.symbol_id ≡ row.symbol_id)
        × (after.scanner_name ≡ row.scanner_name)
        × (after.date ≡ row.date)
    -- its place among the pending rows
    pub same_priority : priority_key after ≡ priority_key row
    pub recent :
        (t : ℕ)
        → is_recent settings fromisoformat t after.feature_snapshot
          ≡ is_recent_after found status now row t

module _ {F W : Type 0} ⦃f : Float W⦄ (settings : Settings W) (texts : Texts)
    (score : F → ScoreResult (Option W) W) (field_sources : F → Value W) (isoformat : ℕ → String)
    (fromisoformat : String → Option ℕ) where
  apply_result-same_priority :
      (found : F) (status : FetchStatus) (now : ℕ) (row : ResultRow W)
      → priority_key
          (apply_result settings texts score field_sources isoformat found status now row)
        ≡ priority_key row
  unfolding apply_result fundamental_entries last_entry
  apply_result-same_priority found status now row =
      let entries =
        fundamental_entries settings texts score field_sources isoformat found status now
          row.feature_snapshot in
      priority_key-same
        (apply_result settings texts score field_sources isoformat found status now row) row refl
        (get-update "setup_state" entries row.feature_snapshot)
        (get-update "technical_score" entries row.feature_snapshot)

  is_recent-at :
      (snapshot : Snapshot W) (status : FetchStatus) (now t : ℕ) (fetched_at : String)
      → get "fundamental_status" snapshot ≡ text (status_value status)
      → get "fundamental_fetched_at" snapshot ≡ text fetched_at
      → fromisoformat fetched_at ≡ some now
      → is_recent settings fromisoformat t snapshot
        ≡ (is_done status && ltb t (now + settings.fundamental_cache_ttl_minutes * 60))
  unfolding is_recent is_success time_of
  is_recent-at snapshot pending now t fetched_at e k reads = rw e refl
  is_recent-at snapshot processing now t fetched_at e k reads = rw e refl
  is_recent-at snapshot success now t fetched_at e k reads = rw (e, k, reads) refl
  is_recent-at snapshot rate_limited now t fetched_at e k reads = rw e refl
  is_recent-at snapshot failed now t fetched_at e k reads = rw e refl
  is_recent-at snapshot cached now t fetched_at e k reads = rw e refl

  -- a row that is marked with another status than SUCCESS is not fresh
  is_recent-unserved :
      (snapshot : Snapshot W) (t : ℕ)
      → is_success (get "fundamental_status" snapshot) ≡ false
      → is_recent settings fromisoformat t snapshot ≡ false
  unfolding is_recent
  is_recent-unserved snapshot t e = rw e refl

  apply_result-recent :
      (found : F) (status : FetchStatus) (now : ℕ) (row : ResultRow W)
      → fromisoformat (isoformat now) ≡ some now
      → (t : ℕ)
      → is_recent settings fromisoformat t
          (apply_result settings texts score field_sources isoformat found status now
            row).feature_snapshot
        ≡ (is_done status && ltb t (now + settings.fundamental_cache_ttl_minutes * 60))
  unfolding apply_result fundamental_entries last_entry
  apply_result-recent found status now row reads t =
      let entries =
        fundamental_entries settings texts score field_sources isoformat found status now
          row.feature_snapshot in
      let after = apply_result settings texts score field_sources isoformat found status now row in
      is_recent-at after.feature_snapshot status now t (isoformat now)
        (get-update "fundamental_status" entries row.feature_snapshot)
        (get-update "fundamental_fetched_at" entries row.feature_snapshot) reads

  mark_status-same_priority :
      (status : FetchStatus) (row : ResultRow W)
      → priority_key (mark_status status row) ≡ priority_key row
  unfolding mark_status
  mark_status-same_priority status row =
      priority_key-same (mark_status status row) row refl
        (get-insert "setup_state" "fundamental_status" (text (status_value status))
          row.feature_snapshot)
        (get-insert "technical_score" "fundamental_status" (text (status_value status))
          row.feature_snapshot)

  mark_status-unserved :
      (status : FetchStatus) (row : ResultRow W) (t : ℕ)
      → is_success {W = W} (text (status_value status)) ≡ false
      → is_recent settings fromisoformat t (mark_status status row).feature_snapshot ≡ false
  unfolding mark_status
  mark_status-unserved status row t h =
      is_recent-unserved (mark_status status row).feature_snapshot t (
        ap is_success (
          get-insert "fundamental_status" "fundamental_status" (text (status_value status))
            row.feature_snapshot)
        ∙ h)

  unchanged-IsSettled :
      (status : FetchStatus) (now : ℕ) (row : ResultRow W)
      → ((t : ℕ)
          → is_recent settings fromisoformat t row.feature_snapshot
            ≡ is_recent_after {F = F} settings fromisoformat none status now row t)
      → IsSettled {F = F} settings fromisoformat none status now row row
  unchanged-IsSettled status now row same = record {
    same_row = (refl, refl, refl);
    same_priority = refl;
    recent = same;
  }

  -- A fetch that brings data makes its row fresh until the time to live is over, when the status is
  -- SUCCESS, and else leaves it pending; one that fails or meets the rate limit without data leaves
  -- it pending, and any other leaves its freshness. Whatever the fetch gives, the row keeps its symbol,
  -- scanner, date and place in the priority. A time that `isoformat` writes is read back.
  pub settle_row-IsSettled :
      (found : Option F) (status : FetchStatus) (now : ℕ) (row : ResultRow W)
      → fromisoformat (isoformat now) ≡ some now
      → IsSettled settings fromisoformat found status now row
          (settle_row settings texts score field_sources isoformat found status now row)
  unfolding settle_row is_success mark_status apply_result
  settle_row-IsSettled (some found) status now row reads = record {
    same_row = (refl, refl, refl);
    same_priority = apply_result-same_priority found status now row;
    recent = apply_result-recent found status now row reads;
  }
  settle_row-IsSettled none failed now row reads = record {
    same_row = (refl, refl, refl);
    same_priority = mark_status-same_priority failed row;
    recent = λ t. mark_status-unserved failed row t refl;
  }
  settle_row-IsSettled none rate_limited now row reads = record {
    same_row = (refl, refl, refl);
    same_priority = mark_status-same_priority rate_limited row;
    recent = λ t. mark_status-unserved rate_limited row t refl;
  }
  settle_row-IsSettled none pending now row reads = unchanged-IsSettled pending now row λ t. refl
  settle_row-IsSettled none processing now row reads =
      unchanged-IsSettled processing now row λ t. refl
  settle_row-IsSettled none success now row reads = unchanged-IsSettled success now row λ t. refl
  settle_row-IsSettled none cached now row reads = unchanged-IsSettled cached now row λ t. refl
