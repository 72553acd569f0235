-- ===== src/Download/Outcomes.antt =====
-- The ways in which the processing of an item ends, and the tallies and rows that show them.
use teleparse.Base.{
  ℕ, ◌+◌, ◌≤◌, ◌<◌, Bool, true, false, Option, none, some, ◌≡◌, refl, ◌∙◌, ◌⊎◌, String, Bool-cases,
  inl, inr, ℤ, arith,
}
use teleparse.Store.Table.{query_row, update_where}
use teleparse.Store.Media.{
  MediaItem, at_key, status_downloading, status_done, status_failed, mark_done, mark_failed,
  mark_interrupted, record_attempt, set_done, set_failed, set_interrupted, set_attempt,
}
use teleparse.Store.Media.Steps.{
  KeepsIdentity, set_done-KeepsIdentity, set_failed-KeepsIdentity, set_interrupted-KeepsIdentity,
  set_attempt-KeepsIdentity,
}
use teleparse.Store.Media.Unique.{query_row-at_key}
use teleparse.Download.{Fault, Tally, error_string, is_cancellation_err, count_failed}
use teleparse.Download.Settle.{
  World, Clock, stored, record_failure, note_attempt, settle_done, fail_item, interrupt_item,
  settle_interruptible, park_run, skip_item,
}

unfoldable pub row_of : MediaItem → World → Option MediaItem
row_of item w = query_row (at_key item.chat_id item.message_id item.media_index) w.media

-- The tallies of the ways in which an item can end.
abbrev pub ends_of : World → ℕ × ℕ × ℕ × ℕ × ℕ
ends_of w = (w.res.downloaded, w.res.skipped, w.res.failed, w.res.interrupted, w.res.linked)

-- The row is claimed.
pub record Held (item : MediaItem) (w : World) : Type 0 where
  pub row : MediaItem
  pub found : row_of item w ≡ some row
  pub claimed : row.status ≡ status_downloading

-- The row is as it should be; or the store has refused a statement, which is counted, and the row is
-- still claimed.
abbrev pub Recorded : MediaItem → (MediaItem → Type 0) → World → World → Type 0
Recorded item P w w' =
    ((r : MediaItem) × (row_of item w' ≡ some r) × P r)
    ⊎ ((w.store_errors < w'.store_errors) × Held item w')

abbrev pub IsDone : String → MediaItem → Type 0
IsDone path r = (r.status ≡ status_done) × (r.path ≡ some path)

abbrev pub IsPaused : MediaItem → Type 0
IsPaused r = (r.status ≡ status_downloading) × (r.attempts ≡ 0)

-- One of the tallies went up by one and the row is recorded so; or the run parked, and the row is
-- still being downloaded.
pub data Ends (item : MediaItem) (final_path : String) (w w' : World) : Type 0 where
  downloaded :
      Recorded item (IsDone final_path) w w'
      → ends_of w'
        ≡ (w.res.downloaded + 1, w.res.skipped, w.res.failed, w.res.interrupted, w.res.linked)
      → Ends item final_path w w'
  skipped :
      Recorded item (IsDone final_path) w w'
      → ends_of w'
        ≡ (w.res.downloaded, w.res.skipped + 1, w.res.failed, w.res.interrupted, w.res.linked)
      → Ends item final_path w w'
  failed :
      Recorded item (λ r. r.status ≡ status_failed) w w'
      → ends_of w'
        ≡ (w.res.downloaded, w.res.skipped, w.res.failed + 1, w.res.interrupted, w.res.linked)
      → Ends item final_path w w'
  interrupted :
      Recorded item IsPaused w w'
      → ends_of w'
        ≡ (w.res.downloaded, w.res.skipped, w.res.failed, w.res.interrupted + 1, w.res.linked)
      → Ends item final_path w w'
  linked :
      Recorded item (IsDone final_path) w w'
      → ends_of w'
        ≡ (w.res.downloaded, w.res.skipped, w.res.failed, w.res.interrupted, w.res.linked + 1)
      → Ends item final_path w w'
  parked :
      Held item w'
      → w'.res.parked ≡ true
      → w'.canceled ≡ true
      → ends_of w' ≡ ends_of w
      → Ends item final_path w w'

-- A statement on the row, which the store may refuse.
pub stored-Recorded :
    (refused : Bool) (item : MediaItem) (set : MediaItem → MediaItem) (P : MediaItem → Type 0)
    (w : World) (res : Tally)
    → KeepsIdentity set
    → ((r : MediaItem) → P (set r))
    → Held item w
    → Recorded item P w
        (record (stored refused
          (update_where (at_key item.chat_id item.message_id item.media_index) set w.media)
          w) { res = res })
unfolding row_of
stored-Recorded true item set P w res keeps p h =
    inr (omega arith, record { row = h.row; found = h.found; claimed = h.claimed })
stored-Recorded false item set P w res keeps p h = inl (
  set h.row,
  query_row-at_key set keeps item.chat_id item.message_id item.media_index w.media h.row h.found,
  p h.row,
)

pub stored-Held :
    (refused : Bool) (item : MediaItem) (set : MediaItem → MediaItem) (w : World)
    → KeepsIdentity set
    → ((r : MediaItem) → (set r).status ≡ r.status)
    → Held item w
    → Held item (
        stored refused
          (update_where (at_key item.chat_id item.message_id item.media_index) set w.media)
          w)
unfolding row_of
stored-Held true item set w keeps same_status h = record {
  row = h.row;
  found = h.found;
  claimed = h.claimed;
}
stored-Held false item set w keeps same_status h = record {
  row = set h.row;
  found =
      query_row-at_key set keeps item.chat_id item.message_id item.media_index w.media h.row
        h.found;
  claimed = same_status h.row ∙ h.claimed;
}

module _ (item : MediaItem) (final_path : String) where
  pub fail_item-Ends :
      (t : Clock) (w : World) (e : Fault) (n : ℕ)
      → Held item w
      → Ends item final_path w (fail_item t item w e n)
  unfolding fail_item record_failure mark_failed count_failed set_failed
  fail_item-Ends t w e n h =
      failed
        (stored-Recorded t.settle_error item (set_failed t.stamp (error_string e) n)
          (λ r. r.status ≡ status_failed) w (count_failed item.chat_id (error_string e) w.res)
          (set_failed-KeepsIdentity t.stamp (error_string e) n) (λ r. refl) h)
        refl

  pub interrupt_item-Ends :
      (t : Clock) (w : World) (e : Fault)
      → Held item w
      → Ends item final_path w (interrupt_item t item w e)
  unfolding interrupt_item mark_interrupted set_interrupted
  interrupt_item-Ends t w e h =
      interrupted
        (stored-Recorded t.settle_error item (set_interrupted t.stamp (error_string e)) IsPaused w
          (record w.res { interrupted = w.res.interrupted + 1 })
          (set_interrupted-KeepsIdentity t.stamp (error_string e)) (λ r. (refl, refl)) h)
        refl

  pub settle_done-Recorded :
      (t : Clock) (w : World) (path : String) (sha : Option String) (res : Tally)
      → Held item w
      → Recorded item (IsDone path) w (settle_done t item w path sha res)
  unfolding settle_done mark_done set_done
  settle_done-Recorded t w path sha res h =
      stored-Recorded t.settle_error item (set_done t.stamp path sha) (IsDone path) w res
        (set_done-KeepsIdentity t.stamp path sha) (λ r. (refl, refl)) h

  pub settle_interruptible-Ends :
      (t : Clock) (w : World) (e : Fault) (n : ℕ)
      → Held item w
      → Ends item final_path w (settle_interruptible t item w e n)
  unfolding settle_interruptible
  settle_interruptible-Ends t w e n h = elim (Bool-cases (is_cancellation_err e)) [
    | inl c ↦ simp (c, settle_interruptible) (interrupt_item-Ends t w e h)
    | inr c ↦ simp (c, settle_interruptible) (fail_item-Ends t w e n h)
  ]

  pub note_attempt-Held :
      (t : Clock) (w : World) (e : Fault) (n : ℕ)
      → Held item w
      → Held item (note_attempt t item w e n)
  unfolding note_attempt record_attempt set_attempt
  note_attempt-Held t w e n h =
      stored-Held t.attempt_error item (set_attempt t.stamp (error_string e) n) w
        (set_attempt-KeepsIdentity t.stamp (error_string e) n) (λ r. refl) h

  -- What an attempt's note leaves: the tallies, and no fewer refused statements.
  pub note_attempt_keeps :
      (t : Clock) (w : World) (e : Fault) (n : ℕ)
      → (ends_of (note_attempt t item w e n) ≡ ends_of w)
        × (w.store_errors ≤ (note_attempt t item w e n).store_errors)
  unfolding note_attempt
  note_attempt_keeps t w e n = (refl, ground arith)

  pub park_run-Ends :
      (t : Clock) (run_id : String) (w : World) (e : Fault) (n : ℕ) (seconds : ℤ)
      → Held item w
      → Ends item final_path w (park_run t item run_id w e n seconds)
  unfolding park_run row_of
  park_run-Ends t run_id w e n seconds h =
      let held = note_attempt-Held t w e n h in
      parked (record { row = held.row; found = held.found; claimed = held.claimed }) refl refl refl

Recorded-from :
    (item : MediaItem) (P : MediaItem → Type 0) (w0 w w' : World)
    → w0.store_errors ≤ w.store_errors
    → Recorded item P w w'
    → Recorded item P w0 w'
Recorded-from item P w0 w w' more (inl r) = inl r
Recorded-from item P w0 w w' more (inr (refused, h)) = inr (omega arith, h)

-- What an earlier state had too.
pub Ends-from :
    (item : MediaItem) (final_path : String) (w0 w w' : World)
    → ends_of w ≡ ends_of w0
    → w0.store_errors ≤ w.store_errors
    → Ends item final_path w w'
    → Ends item final_path w0 w'
Ends-from item final_path w0 w w' e more (downloaded r counted) =
    downloaded (Recorded-from item (IsDone final_path) w0 w w' more r) (cc)
Ends-from item final_path w0 w w' e more (skipped r counted) =
    skipped (Recorded-from item (IsDone final_path) w0 w w' more r) (cc)
Ends-from item final_path w0 w w' e more (failed r counted) =
    failed (Recorded-from item (λ x. x.status ≡ status_failed) w0 w w' more r) (cc)
Ends-from item final_path w0 w w' e more (interrupted r counted) =
    interrupted (Recorded-from item IsPaused w0 w w' more r) (cc)
Ends-from item final_path w0 w w' e more (linked r counted) =
    linked (Recorded-from item (IsDone final_path) w0 w w' more r) (cc)
Ends-from item final_path w0 w w' e more (parked h p c counted) = parked h p c (counted ∙ e)

module _ (item : MediaItem) (path : String) where
  pub skip_item-Ends :
      (t : Clock) (w : World) → Held item w → Ends item path w (skip_item t item w path)
  unfolding skip_item settle_done
  skip_item-Ends t w h =
      skipped
        (settle_done-Recorded item path t w path none (record w.res { skipped = w.res.skipped + 1 })
          h)
        refl
