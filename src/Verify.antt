-- ===== src/Verify.antt =====
-- internal/verify/sweep.go: the sweep of the manifest against the files. What the file system answers
-- is an argument; the texts of details are left out.
pub mod Accounts
mod Balanced
pub mod ReadOnly
pub mod Sweep
mod Walks
mod Tests
use teleparse.Base.{
  ℕ, suc, ◌+◌, ◌-◌, min, Bool, true, false, not, ◌&&◌, ◌||◌, Option, none, some, List, [], ◌∷◌,
  ◌++◌, map, length, ℤ, pos, ◌-ℤ◌, same_ℤ, leb_ℤ, String, same, is_empty, is_nil, any, Char, code,
  ◌==◌, if◌then◌else◌,
}
use teleparse.Base.Results.{Result, ok, err, ◌>>=◌}
use teleparse.Store.Media.{MediaItem, media_by_file, requeue_media, status_done}
use teleparse.Store.Reports.{MediaRow, list_media_rows, add_status}

abbrev pub class_ok : String
class_ok = "ok"

abbrev pub class_missing : String
class_missing = "missing"

abbrev pub class_final_missing_blob_alive : String
class_final_missing_blob_alive = "final-missing-blob-alive"

abbrev pub class_size_mismatch : String
class_size_mismatch = "size-mismatch"

abbrev pub class_hash_mismatch : String
class_hash_mismatch = "hash-mismatch"

abbrev pub class_format_error : String
class_format_error = "format-error"

abbrev pub class_unchecked_format : String
class_unchecked_format = "unchecked-format"

abbrev pub class_orphan_blob : String
class_orphan_blob = "orphan-blob"

-- `fixed` is the repair action, empty where there was none.
pub record Finding : Type 0 where
  pub chat_id : ℤ
  pub message_id : ℤ
  pub media_index : ℤ
  pub media_class : String
  pub media_id : ℤ
  pub filename : String
  pub path : String
  pub kind : String
  pub fixed : String

pub record Options : Type 0 where
  pub deep : Bool
  pub fix : Bool
  pub chats : List ℤ

pub record Report : Type 0 where
  pub rows : ℕ
  pub skipped_no_path : ℕ
  pub blobs : ℕ
  pub orphaned : ℕ
  pub classes : List (String × ℕ)
  pub findings : List Finding
  pub relinked : ℕ
  pub requeued : ℕ
  pub gc_removed : ℕ
  pub problems : ℕ
  pub remaining : ℤ

-- `os.Stat`: the size of a file, that there is none, or another error.
pub data Stat (E : Type 0) : Type 0 where
  present : ℤ → Stat E
  absent : Stat E
  failed : E → Stat E

pub data Verdict : Type 0 where
  checked : Verdict
  unsupported : Verdict

-- A file of the blob store, by its path, the name of its directory, and its own name.
pub record Blob : Type 0 where
  pub path : String
  pub media_class : String
  pub name : String

-- What the file system and the driver answer: `requeue_error` is what `RequeueMedia` reports, `blob_of` is `BlobPath`, `validate` the native validators by path and
-- extension (`none` is a verdict of an unsupported format), `link` what `relinkBlob` reports, `gc`
-- what `BlobGC` reports and `parse_int` is `strconv.ParseInt`.
pub record Disk (E : Type 0) : Type 0 where
  pub stat : String → Stat E
  pub blob_of : MediaRow → String
  pub hash : String → Result E String
  pub validate : MediaRow → Result E Verdict
  pub link : String → String → Option E
  pub requeue_error : MediaRow → Option E
  pub blob_root : Stat E
  pub blobs : List Blob
  pub gc : Result E ℕ
  pub parse_int : String → Option ℤ
  pub canceled : MediaRow → Option E

unfoldable pub is_problem : String → Bool
is_problem kind = any (same kind) (
    class_missing ∷ class_final_missing_blob_alive ∷ class_size_mismatch ∷ class_hash_mismatch
    ∷ class_format_error ∷ class_orphan_blob ∷ [])

unfoldable pub chat_scope : List ℤ → ℤ → Bool
chat_scope chats chat = if is_nil chats then true else any (same_ℤ chat) chats

unfoldable pub text_or_empty : Option String → String
text_or_empty none = ""
text_or_empty (some t) = t

unfoldable pub row_finding : MediaRow → String → String → String → Finding
unfolding text_or_empty
row_finding row path kind fixed = record {
  chat_id = row.chat_id;
  message_id = row.message_id;
  media_index = row.media_index;
  media_class = row.media_class;
  media_id = row.media_id;
  filename = text_or_empty row.filename;
  path = path;
  kind = kind;
  fixed = fixed;
}

module _ {E : Type 0} (disk : Disk E) (opts : Options) where
  unfoldable pub classify_format : MediaRow → String
  classify_format row = elim (disk.validate row) [
    | err e ↦ class_format_error
    | ok unsupported ↦ class_unchecked_format
    | ok checked ↦ class_ok
  ]

  unfoldable pub classify_content : MediaRow → String → String
  classify_content row path =
      let recorded = text_or_empty row.sha256 in
      if is_empty recorded then classify_format row else elim (disk.hash path) [
        | err e ↦ class_format_error
        | ok sum ↦ if same sum recorded then classify_format row else class_hash_mismatch
      ]

  unfoldable pub size_differs : Option ℤ → ℤ → Bool
  size_differs none actual = false
  size_differs (some size) actual = not (same_ℤ actual size)

  -- `final` and `blob` are the two stats, of which neither failed.
  unfoldable pub classify_row : MediaRow → String → Option ℤ → Bool → String
  classify_row row path none blob_alive =
      if blob_alive then class_final_missing_blob_alive else class_missing
  classify_row row path (some actual) blob_alive =
      if size_differs row.size actual
      then class_size_mismatch
      else if opts.deep
      then classify_content row path
      else class_ok

  -- The table afterwards, and the action if there was one.
  unfoldable pub repair_row :
      String → List MediaItem → String → MediaRow → String → List MediaItem × Option String
  repair_row now table kind row path =
      if same kind class_final_missing_blob_alive
      then (elim (disk.link (disk.blob_of row) path) [
        | some e ↦ (table, none)
        | none ↦ (table, some "relinked from blob")
      ])
      else if any (same kind) (class_missing ∷ class_size_mismatch ∷ class_hash_mismatch ∷ [])
      then (elim (disk.requeue_error row) [
        | some e ↦ (table, none)
        | none ↦ (
          requeue_media table now row.chat_id row.message_id row.media_index,
          some "requeued for re-download",
        )
      ])
      else (table, none)
