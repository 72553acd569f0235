-- ===== src/Verify/Tests.antt =====
-- A sweep over two rows.
use teleparse.Base.{
  true, false, none, some, List, [], ◌∷◌, ◌≡◌, refl, pos, String, same, if◌then◌else◌,
}
use teleparse.Base.Results.{ok}
use teleparse.Store.Table.{update_where, order_by, place}
use teleparse.Store.Media.{
  MediaItem, at_key, requeue_media, set_requeued, status_done, status_queued, by_message,
}
use teleparse.Store.Reports.{add_status, list_media_rows, row_from_item, by_key}
use teleparse.Verify.{
  chat_scope, text_or_empty, classify_row, classify_format, classify_content, size_differs,
  repair_row, row_finding, Options, Disk, Report, present, absent, checked, is_problem,
  class_unchecked_format,
}
use teleparse.Verify.Sweep.{
  sweep_row, sweep_rows, sweep_file, sweep_blobs, collect_garbage, sweep_class, settle_row,
  count_repair, conclude, empty_report, sweep,
}
use teleparse.Verify.ReadOnly.{sweep_reads_only}

abbrev saved : MediaItem
saved = record {
  chat_id = pos 3;
  message_id = pos 10;
  media_index = pos 0;
  media_class = "video";
  media_id = pos 900;
  mime = none;
  size = some (pos 64);
  date = none;
  sender_id = none;
  filename = none;
  grouped_id = none;
  status = status_done;
  attempts = 2;
  last_error = none;
  path = some "out/a.mp4";
  bytes_done = pos 0;
  sha256 = none;
  updated_at = "t0";
}

abbrev gone : MediaItem
gone = record saved { message_id = pos 11; media_id = pos 901; path = some "out/b.mp4" }

abbrev disk : Disk String
disk = record {
  stat = λ path. if same path "out/a.mp4" then present (pos 64) else absent;
  blob_of = λ row. "blob";
  hash = λ path. ok "00";
  validate = λ row. ok checked;
  link = λ blob path. none;
  requeue_error = λ row. none;
  blob_root = absent;
  blobs = [];
  gc = ok 0;
  parse_int = λ s. none;
  canceled = λ row. none;
}

abbrev options : Options
options = record { deep = true; fix = true; chats = [] }

abbrev swept : List MediaItem × Report
swept = (
  saved ∷ record gone { status = status_queued; attempts = 0; updated_at = "t1" } ∷ [],
  record {
    rows = 2;
    skipped_no_path = 0;
    blobs = 0;
    orphaned = 0;
    classes = ("ok", 1) ∷ ("missing", 1) ∷ [];
    findings =
        record {
          chat_id = pos 3;
          message_id = pos 11;
          media_index = pos 0;
          media_class = "video";
          media_id = pos 901;
          filename = "";
          path = "out/b.mp4";
          kind = "missing";
          fixed = "requeued for re-download";
        }
        ∷ [];
    relinked = 0;
    requeued = 1;
    gc_removed = 0;
    problems = 1;
    remaining = pos 0;
  },
)

abbrev look : Options
look = record options { fix = false }

abbrev seen : List MediaItem × Report
seen = (
  saved ∷ gone ∷ [],
  record swept.1 {
    findings =
        record {
          chat_id = pos 3;
          message_id = pos 11;
          media_index = pos 0;
          media_class = "video";
          media_id = pos 901;
          filename = "";
          path = "out/b.mp4";
          kind = "missing";
          fixed = "";
        }
        ∷ [];
    requeued = 0;
    remaining = pos 1;
  },
)

seen_rows : sweep disk look "t1" (saved ∷ gone ∷ []) ≡ ok seen
unfolding sweep list_media_rows order_by place by_key by_message row_from_item add_status
    requeue_media set_requeued update_where at_key is_problem chat_scope sweep_row sweep_rows
    text_or_empty sweep_file sweep_blobs collect_garbage sweep_class classify_row settle_row
    count_repair classify_format classify_content size_differs repair_row row_finding conclude
    empty_report
seen_rows = refl

sweep_reads_only_example : (seen.0 ≡ saved ∷ gone ∷ []) × (seen.1.remaining ≡ pos seen.1.problems)
sweep_reads_only_example = sweep_reads_only disk look refl "t1" (saved ∷ gone ∷ []) seen seen_rows

unchecked_passes : is_problem class_unchecked_format ≡ false
unfolding is_problem
unchecked_passes = refl
