-- ===== src/Verify/Sweep.antt =====
-- internal/verify/sweep.go: the walk over the rows of the manifest and over the blob store.
use teleparse.Base.{
  ◌+◌, min, Bool, true, false, not, ◌&&◌, ◌||◌, Option, none, some, List, [], ◌∷◌, ◌++◌, length, ℤ,
  pos, ◌-ℤ◌, leb_ℤ, String, same, is_empty, code, ◌==◌, if◌then◌else◌,
}
use teleparse.Base.Results.{Result, ok, err, ◌>>=◌}
use teleparse.Store.Media.{MediaItem, media_by_file, status_done}
use teleparse.Store.Reports.{MediaRow, list_media_rows, add_status}
use teleparse.Verify.{
  class_ok, class_final_missing_blob_alive, class_unchecked_format, class_orphan_blob, Finding,
  Options, Report, present, absent, failed, Blob, Disk, is_problem, chat_scope, text_or_empty,
  row_finding, classify_row, repair_row,
}

module _ {E : Type 0} (disk : Disk E) (opts : Options) where
  unfoldable pub count_repair : String → Option String → Report → Report
  count_repair kind none report = report
  count_repair kind (some action) report =
      if same kind class_final_missing_blob_alive
      then record report { relinked = report.relinked + 1 }
      else record report { requeued = report.requeued + 1 }

  -- The end of `sweepRow`, for a class that is neither fine nor unchecked.
  unfoldable pub settle_row :
      String → List MediaItem → String → MediaRow → String → Report → List MediaItem × Report
  settle_row now table kind row path report =
      let repaired : List MediaItem × Option String =
        if opts.fix then repair_row disk opts now table kind row path else (table, none) in
      let report' = count_repair kind repaired.1 report in
      let finding = row_finding row path kind (text_or_empty repaired.1) in
      (
        repaired.0,
        if is_problem kind
            then record report' { findings = report'.findings ++ (finding ∷ []) }
            else report',
      )

  unfoldable pub sweep_class :
      String → List MediaItem → String → MediaRow → String → Report → List MediaItem × Report
  sweep_class now table kind row path report =
      let report' = record report { classes = add_status kind report.classes } in
      if same kind class_ok || same kind class_unchecked_format
      then (table, report')
      else settle_row now table kind row path report'

  unfoldable pub sweep_file :
      String → List MediaItem → MediaRow → String → Report → Result E (List MediaItem × Report)
  sweep_file now table row path report = elim (disk.stat path) [
    | failed e ↦ err e
    | absent ↦ elim (disk.stat (disk.blob_of row)) [
      | failed e ↦ err e
      | absent ↦
          ok (sweep_class now table (classify_row disk opts row path none false) row path report)
      | present n ↦
          ok (sweep_class now table (classify_row disk opts row path none true) row path report)
    ]
    | present size ↦ elim (disk.stat (disk.blob_of row)) [
      | failed e ↦ err e
      | absent ↦ ok (
          sweep_class now table (classify_row disk opts row path (some size) false) row path report)
      | present n ↦
          ok (
            sweep_class now table (classify_row disk opts row path (some size) true) row path
              report)
    ]
  ]

  unfoldable pub sweep_row :
      String → List MediaItem → MediaRow → Report → Result E (List MediaItem × Report)
  sweep_row now table row report =
      let path = text_or_empty row.path in
      if is_empty path || not (same row.status status_done)
      then ok (table, record report { skipped_no_path = report.skipped_no_path + 1 })
      else sweep_file now table row path report

  unfoldable pub sweep_rows :
      String → List MediaRow → List MediaItem → Report → Result E (List MediaItem × Report)
  sweep_rows now [] table report = ok (table, report)
  sweep_rows now (row ∷ rows) table report = elim (chat_scope opts.chats row.chat_id) [
    | false ↦ sweep_rows now rows table report
    | true ↦ elim (sweep_row now table row (record report { rows = report.rows + 1 })) [
      | err e ↦ err e
      | ok (table', report') ↦ elim (disk.canceled row) [
        | some e ↦ err e
        | none ↦ sweep_rows now rows table' report'
      ]
    ]
  ]

  -- The part of a name in front of its first dot.
  unfoldable pub before_dot : String → String
  before_dot String.[] = String.[]
  before_dot (String.◌∷◌ c rest) =
      let more = before_dot rest in if code c == b'.' then String.[] else String.◌∷◌ c more

  unfoldable pub blob_identity : String → Option ℤ
  blob_identity name = elim (disk.parse_int (before_dot name)) [
    | none ↦ none
    | some id ↦ if leb_ℤ id (pos 0) then none else some id
  ]

  unfoldable pub is_tracked : List MediaItem → Blob → Bool
  is_tracked table blob = elim (blob_identity blob.name) [
    | none ↦ false
    | some id ↦ elim (media_by_file table blob.media_class id) [ some r ↦ true | none ↦ false ]
  ]

  unfoldable pub orphan_finding : Blob → Finding
  orphan_finding blob = record {
    chat_id = pos 0;
    message_id = pos 0;
    media_index = pos 0;
    media_class = "";
    media_id = pos 0;
    filename = "";
    path = blob.path;
    kind = class_orphan_blob;
    fixed = "";
  }

  unfoldable pub visit_blob : List MediaItem → Blob → Report → Report
  visit_blob table blob report =
      let seen = record report { blobs = report.blobs + 1 } in
      if is_tracked table blob then seen else record seen {
        orphaned = seen.orphaned + 1;
        findings = seen.findings ++ (orphan_finding blob ∷ []);
      }

  unfoldable pub visit_blobs : List MediaItem → List Blob → Report → Report
  visit_blobs table [] report = report
  visit_blobs table (blob ∷ blobs) report = visit_blobs table blobs (visit_blob table blob report)

  unfoldable pub sweep_blobs : List MediaItem → Report → Result E Report
  sweep_blobs table report = elim disk.blob_root [
    | absent ↦ ok report
    | failed e ↦ err e
    | present n ↦ ok (visit_blobs table disk.blobs report)
  ]

  unfoldable pub collect_garbage : Report → Result E Report
  collect_garbage report =
      if opts.fix && not (report.orphaned == 0)
      then (disk.gc >>= λ removed. ok (record report { gc_removed = removed }))
      else ok report

  unfoldable pub conclude : Report → Report
  conclude report = record report {
    remaining =
        pos report.problems
        -ℤ pos report.relinked
        -ℤ pos report.requeued
        -ℤ pos (min report.gc_removed report.orphaned);
  }

  unfoldable pub empty_report : Report
  empty_report = record {
    rows = 0;
    skipped_no_path = 0;
    blobs = 0;
    orphaned = 0;
    classes = [];
    findings = [];
    relinked = 0;
    requeued = 0;
    gc_removed = 0;
    problems = 0;
    remaining = pos 0;
  }

  unfoldable pub sweep : String → List MediaItem → Result E (List MediaItem × Report)
  unfolding conclude
  sweep now table = sweep_rows now (list_media_rows table (pos 0)) table empty_report >>= λ swept.
      sweep_blobs swept.0 swept.1 >>= λ report.
      collect_garbage (record report { problems = length report.findings }) >>= λ report'.
      ok (swept.0, conclude report')
