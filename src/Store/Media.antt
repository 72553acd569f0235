-- ===== src/Store/Media.antt =====
-- internal/store/media.go and incremental.go: the media table. An attempt count, which no caller
-- makes negative, and a row limit are natural numbers.
pub mod Steps
pub mod Unique
pub mod Index
pub mod Ownership
pub mod Claims
pub mod Recovery
use teleparse.Base.{
  ℕ, ◌+◌, Bool, true, false, not, ◌&&◌, ◌||◌, Option, none, some, List, [], ◌∷◌, ltb, take, length,
  ℤ, pos, same_ℤ, ltb_ℤ, is_zero_ℤ, String, same, is_empty, if◌then◌else◌,
}
use teleparse.Base.Results.{Result, ok, err}
use teleparse.Store.Table.{select_where, query_row, update_where, count_where, order_by, insert_row}

abbrev pub status_discovered : String
status_discovered = "discovered"

abbrev pub status_queued : String
status_queued = "queued"

abbrev pub status_running : String
status_running = "running"

abbrev pub status_parked : String
status_parked = "parked"

abbrev pub status_downloading : String
status_downloading = "downloading"

abbrev pub status_done : String
status_done = "done"

abbrev pub status_failed : String
status_failed = "failed"

abbrev pub status_skipped : String
status_skipped = "skipped"

pub record MediaItem : Type 0 where
  pub chat_id : ℤ
  pub message_id : ℤ
  pub media_index : ℤ
  pub media_class : String
  pub media_id : ℤ
  pub mime : Option String
  pub size : Option ℤ
  pub date : Option String
  pub sender_id : Option ℤ
  pub filename : Option String
  pub grouped_id : Option ℤ
  pub status : String
  pub attempts : ℕ
  pub last_error : Option String
  pub path : Option String
  pub bytes_done : ℤ
  pub sha256 : Option String
  pub updated_at : String

-- The primary key, and the unique index on files.
unfoldable pub at_key : ℤ → ℤ → ℤ → MediaItem → Bool
at_key chat message index r =
    same_ℤ r.chat_id chat && same_ℤ r.message_id message && same_ℤ r.media_index index

unfoldable pub of_file : String → ℤ → MediaItem → Bool
of_file class id r = same r.media_class class && same_ℤ r.media_id id

unfoldable pub has_status : String → MediaItem → Bool
has_status s r = same r.status s

unfoldable pub of_chat : ℤ → MediaItem → Bool
of_chat chat r = same_ℤ r.chat_id chat

unfoldable pub keyed_as : MediaItem → MediaItem → Bool
keyed_as item = at_key item.chat_id item.message_id item.media_index

unfoldable pub filed_as : MediaItem → MediaItem → Bool
filed_as item = of_file item.media_class item.media_id

-- The columns that DO UPDATE SET takes from the excluded row.
unfoldable pub refresh : MediaItem → MediaItem → MediaItem
refresh item r = record r {
  status = item.status;
  attempts = item.attempts;
  last_error = item.last_error;
  path = item.path;
  bytes_done = item.bytes_done;
  sha256 = item.sha256;
  updated_at = item.updated_at;
}

-- The statement of `UpsertMedia`, with whether a row was changed: the first conflict clause that
-- applies decides.
unfoldable pub upsert_media : List MediaItem → String → MediaItem → List MediaItem × Bool
upsert_media rows now given =
    let item = record given { updated_at = now } in
    elim (query_row (keyed_as item) rows) [
      | some _ ↦ (update_where (keyed_as item) (refresh item) rows, true)
      | none ↦ elim (query_row (filed_as item) rows) [
        | some _ ↦ (rows, false)
        | none ↦ (insert_row item rows, true)
      ]
    ]

unfoldable pub media_by_file : List MediaItem → String → ℤ → Option MediaItem
media_by_file rows class id = query_row (of_file class id) rows

-- ORDER BY message_id, media_index
unfoldable pub by_message : MediaItem → MediaItem → Bool
by_message a b =
    ltb_ℤ a.message_id b.message_id
    || same_ℤ a.message_id b.message_id && ltb_ℤ a.media_index b.media_index

unfoldable pub claimable : ℤ → ℕ → MediaItem → Bool
unfolding of_chat has_status
claimable chat max_attempts r =
    of_chat chat r
    && (has_status status_queued r || has_status status_failed r)
    && ltb r.attempts max_attempts

unfoldable pub pending_rows : List MediaItem → ℤ → ℕ → ℕ → List MediaItem
pending_rows rows chat limit max_attempts =
    take limit (order_by by_message (select_where (claimable chat max_attempts) rows))

unfoldable pub set_claimed : String → MediaItem → MediaItem
set_claimed now r = record r { status = status_downloading; updated_at = now }

-- The loop that executes the prepared UPDATE for each item; `fails` is what the driver reports.
module _ {E : Type 0} (fails : MediaItem → Option E) (now : String) where
  unfoldable pub claim_rows :
      List MediaItem → List MediaItem → Result E (List MediaItem × List MediaItem)
  claim_rows rows [] = ok (rows, [])
  claim_rows rows (item ∷ items) =
      let rest = claim_rows (update_where (keyed_as item) (set_claimed now) rows) items in
      elim (fails item) [
        | some e ↦ err e
        | none ↦ elim rest [
          | err e ↦ err e
          | ok (rows', claimed) ↦ ok (rows', record item { status = status_downloading } ∷ claimed)
        ]
      ]

-- `withTx`: what beginning and committing report, and a body on the table; a failure rolls back.
unfoldable pub with_tx :
    {E A : Type 0}
    → Option E
    → Option E
    → (List MediaItem → Result E (List MediaItem × A))
    → List MediaItem
    → List MediaItem × Result E A
with_tx (some e) commit body rows = (rows, err e)
with_tx none commit body rows = elim (body rows) [
  | err e ↦ (rows, err e)
  | ok (rows', a) ↦ elim commit [ some e ↦ (rows, err e) | none ↦ (rows', ok a) ]
]

-- What the driver reports for the parts of the transaction of `ClaimPending`.
pub record Faults (E : Type 0) : Type 0 where
  pub begin : Option E
  pub select : Option E
  pub claim : MediaItem → Option E
  pub commit : Option E

module _ {E : Type 0} (faults : Faults E) where
  unfoldable pub claim_body :
      String → ℤ → ℕ → ℕ → List MediaItem → Result E (List MediaItem × List MediaItem)
  claim_body now chat limit max_attempts rows = elim faults.select [
    | some e ↦ err e
    | none ↦ claim_rows faults.claim now rows (pending_rows rows chat limit max_attempts)
  ]

  unfoldable pub claim_pending :
      List MediaItem → String → ℤ → ℕ → ℕ → List MediaItem × Result E (List MediaItem)
  claim_pending rows now chat limit max_attempts =
      with_tx faults.begin faults.commit (claim_body now chat limit max_attempts) rows

-- `&errText`, or nil for an empty text.
unfoldable pub error_text : String → Option String
error_text text = if is_empty text then none else some text

unfoldable pub set_done : String → String → Option String → MediaItem → MediaItem
set_done now path sha r = record r {
  status = status_done;
  path = some path;
  sha256 = sha;
  updated_at = now;
}

unfoldable pub set_attempt : String → String → ℕ → MediaItem → MediaItem
set_attempt now text attempts r = record r {
  last_error = error_text text;
  attempts = attempts;
  updated_at = now;
}

unfoldable pub set_failed : String → String → ℕ → MediaItem → MediaItem
set_failed now text attempts r = record r {
  status = status_failed;
  last_error = error_text text;
  attempts = attempts;
  updated_at = now;
}

unfoldable pub set_interrupted : String → String → MediaItem → MediaItem
set_interrupted now text r = record r {
  status = status_downloading;
  last_error = error_text text;
  attempts = 0;
  updated_at = now;
}

unfoldable pub set_requeued : String → MediaItem → MediaItem
set_requeued now r = record r {
  status = status_queued;
  attempts = 0;
  last_error = none;
  updated_at = now;
}

module _ (rows : List MediaItem) (now : String) (chat message index : ℤ) where
  unfoldable pub mark_done : String → Option String → List MediaItem
  mark_done path sha = update_where (at_key chat message index) (set_done now path sha) rows

  unfoldable pub record_attempt : String → ℕ → List MediaItem
  record_attempt text attempts =
      update_where (at_key chat message index) (set_attempt now text attempts) rows

  unfoldable pub mark_failed : String → ℕ → List MediaItem
  mark_failed text attempts =
      update_where (at_key chat message index) (set_failed now text attempts) rows

  unfoldable pub mark_interrupted : String → List MediaItem
  mark_interrupted text = update_where (at_key chat message index) (set_interrupted now text) rows

  unfoldable pub requeue_media : List MediaItem
  requeue_media = update_where (at_key chat message index) (set_requeued now) rows

unfoldable pub set_reset : String → MediaItem → MediaItem
set_reset now r = record r { status = status_queued; updated_at = now }

unfoldable pub reset_downloading : List MediaItem → String → List MediaItem × ℕ
reset_downloading rows now = (
  update_where (has_status status_downloading) (set_reset now) rows,
  count_where (has_status status_downloading) rows,
)

unfoldable pub cached_matched : List MediaItem → ℤ → ℕ
cached_matched rows chat =
    count_where (λ r. of_chat chat r && not (has_status status_failed r)) rows

unfoldable pub pending_media : List MediaItem → ℤ → List MediaItem
pending_media rows chat = order_by by_message (
    select_where
      (λ r.
        of_chat chat r
        && (has_status status_discovered r
            || has_status status_queued r
            || has_status status_failed r))
      rows)
