-- ===== src/Store/Tests.antt =====
-- The store at concrete tables.
use mathlib.Core.List.Memᴰ.{head}
use teleparse.Base.{
  true, false, none, some, List, [], ◌∷◌, ◌≡◌, refl, pos, negsuc, leb_ℤ, String, All, arith,
}
use teleparse.Base.Results.{err, ok}
use teleparse.Store.Table.{query_row, update_where, select_where, count_where, order_by, place}
use teleparse.Store.Media.{
  MediaItem, Faults, at_key, keyed_as, filed_as, of_file, has_status, of_chat, claimable,
  claim_pending, claim_body, claim_rows, with_tx, pending_rows, set_claimed, by_message,
  status_queued, status_downloading, status_done, status_failed, reset_downloading, record_attempt,
  mark_interrupted, set_attempt, set_reset, error_text, upsert_media,
}
use teleparse.Store.Media.Steps as Steps
use teleparse.Store.Media.Steps.{attempt, claim}
use teleparse.Store.Media.Unique.{Unique, run-Unique}
use teleparse.Store.Media.Index as Index
use teleparse.Store.Media.Index.{view, edits_refine}
use teleparse.Store.Media.Claims.{claim_pending_exclusive}
use teleparse.Store.Media.Recovery.{crashed, crash_exhausted, interrupt_resumes}
use teleparse.Store.Reports.{entry_of, counts, stats_per_chat}
use teleparse.Store.Reports.Totals.{
  Ascending, chats_of, done_total, counts_exact, stats_per_chat_complete,
}
use teleparse.Store.Chats.{Chat, watermark}
use teleparse.Store.Chats.Watermark as Watermark
use teleparse.Store.Chats.Watermark.{advance, progress, run_refines, watermark_grows}
use teleparse.Store.Runs.{Run, cleanup_finished_runs}
use teleparse.Store.Runs.Cleanup.{cleanup_removes_later}
use teleparse.Store.Migrations.{
  MigrateFaults, failed, Db, applied, migrate, apply_migrations, migrate_from, apply_migration,
  migration_for, schema_version, migrate_settles,
}

abbrev photo : MediaItem
photo = record {
  chat_id = negsuc 4;
  message_id = pos 10;
  media_index = pos 0;
  media_class = "photo";
  media_id = pos 900;
  mime = none;
  size = some (pos 64);
  date = none;
  sender_id = none;
  filename = none;
  grouped_id = none;
  status = status_queued;
  attempts = 0;
  last_error = none;
  path = none;
  bytes_done = pos 0;
  sha256 = none;
  updated_at = "t0";
}

abbrev clip : MediaItem
clip = record photo {
  message_id = pos 7;
  media_class = "video";
  media_id = pos 901;
  status = status_failed;
  attempts = 2;
}

abbrev table : List MediaItem
table = photo ∷ clip ∷ []

abbrev no_faults : Faults String
no_faults = record { begin = none; select = none; claim = λ r. none; commit = none }

-- The file of the photo again, in another chat.
abbrev forwarded : MediaItem
forwarded = record photo { chat_id = pos 3 }

forwarded_ignored : upsert_media table "t1" forwarded ≡ (table, false)
unfolding upsert_media query_row keyed_as filed_as at_key of_file
forwarded_ignored = refl

table-Unique : Unique table
unfolding query_row keyed_as filed_as at_key of_file
table-Unique = (refl, refl, (refl, refl, tt))

abbrev some_ops : List Steps.Op
some_ops = claim no_faults "t1" (negsuc 4) 5 3 ∷ Steps.upsert "t2" forwarded ∷ []

run-Unique_example : Unique (Steps.run some_ops table)
run-Unique_example = run-Unique some_ops table table-Unique

abbrev some_edits : List Index.Edit
some_edits =
    Index.upsert "t1" forwarded
    ∷ Index.requeue "t2" (negsuc 4) (pos 7) (pos 0)
    ∷ Index.reset "t3"
    ∷ []

edits_refine_example : view (Index.edits some_edits table) ≡ Index.replay some_edits (view table)
edits_refine_example = edits_refine some_edits table

-- The rows as they are claimed: the clip's message is the older one.
abbrev claimed_clip : MediaItem
claimed_clip = record clip { status = status_downloading }

abbrev one_attempt : List Steps.Op
one_attempt = attempt "t2" (negsuc 4) (pos 7) (pos 0) "timeout" 3 ∷ []

first_claim : (claim_pending no_faults table "t1" (negsuc 4) 1 3).1 ≡ ok (claimed_clip ∷ [])
unfolding claim_pending with_tx claim_body claim_rows pending_rows claimable of_chat has_status
    select_where order_by place by_message
first_claim = refl

abbrev claimed_photo : MediaItem
claimed_photo = record photo { status = status_downloading }

second_claim :
    (claim_pending no_faults
      (Steps.run one_attempt (claim_pending no_faults table "t1" (negsuc 4) 1 3).0)
      "t3"
      (negsuc 4)
      5
      9).1
    ≡ ok (claimed_photo ∷ [])
unfolding claim_pending with_tx claim_body claim_rows pending_rows claimable of_chat has_status
    select_where order_by place by_message Steps.run record_attempt update_where at_key keyed_as
    set_claimed set_attempt error_text
second_claim = refl

claim_pending_exclusive_example : All (λ b. keyed_as claimed_clip b ≡ false) (claimed_photo ∷ [])
claim_pending_exclusive_example =
    claim_pending_exclusive no_faults no_faults table "t1" "t3" (negsuc 4) (negsuc 4) 1 5 3 9
      (claimed_clip ∷ []) (claimed_photo ∷ []) claimed_clip one_attempt first_claim (head refl)
      (tt, tt) second_claim

stranded :
    (claim_pending no_faults
      (reset_downloading
        (record_attempt (claimed_clip ∷ []) "t1" (negsuc 4) (pos 7) (pos 0) "lost" 3)
        "t2").0
      "t3"
      (negsuc 4)
      5
      3).1
    ≡ ok []
unfolding claim_pending with_tx claim_body claim_rows pending_rows claimable of_chat has_status
    select_where order_by place record_attempt update_where at_key set_attempt error_text
    reset_downloading set_reset
stranded = refl

clip_found : query_row (at_key (negsuc 4) (pos 7) (pos 0)) (claimed_clip ∷ []) ≡ some claimed_clip
unfolding query_row at_key
clip_found = refl

crash_exhausted_example :
    (r' : MediaItem) × (query_row
        (at_key (negsuc 4) (pos 7) (pos 0))
        (crashed (claimed_clip ∷ []) "t1" "t2" (negsuc 4) (pos 7) (pos 0) "lost" 3)
      ≡ some r')
    × (r'.status ≡ status_queued)
    × (r'.attempts ≡ 3)
    × All (λ b. at_key (negsuc 4) (pos 7) (pos 0) b ≡ false) []
crash_exhausted_example =
    crash_exhausted (claimed_clip ∷ []) "t1" "t2" "lost" (negsuc 4) (pos 7) (pos 0) 3 3 claimed_clip
      [] no_faults "t3" (negsuc 4) 5 [] (omega arith) clip_found refl stranded

interrupt_resumes_test :
    (r' : MediaItem) × (query_row
        (at_key (negsuc 4) (pos 7) (pos 0))
        (reset_downloading
          (mark_interrupted (claimed_clip ∷ []) "t1" (negsuc 4) (pos 7) (pos 0) "stop")
          "t2").0
      ≡ some r')
    × (claimable (negsuc 4) 3 r' ≡ true)
interrupt_resumes_test =
    interrupt_resumes (claimed_clip ∷ []) "t1" "t2" "stop" (negsuc 4) (pos 7) (pos 0) 3 claimed_clip
      (omega arith) clip_found

abbrev channel : Chat
channel = record { chat_id = pos 3; kind = "channel"; title = none; username = none }

abbrev walks : List Watermark.ChatOp
walks =
    Watermark.upsert channel
    ∷ advance (pos 3) (pos 40) (some "t1")
    ∷ advance (pos 3) (pos 20) (some "t2")
    ∷ []

run_refines_example :
    progress (Watermark.run walks []) (pos 3) ≡ Watermark.replay (pos 3) walks (progress [] (pos 3))
run_refines_example = run_refines walks [] (pos 3)

watermark_grows_test :
    leb_ℤ (watermark [] (pos 3)) (watermark (Watermark.run walks []) (pos 3)) ≡ true
watermark_grows_test = watermark_grows walks [] (pos 3) (tt, (tt, (tt, tt)))

counts_exact_example :
    entry_of status_failed (counts table) ≡ some (count_where (has_status status_failed) table)
counts_exact_example = counts_exact status_failed table

abbrev done_photo : MediaItem
done_photo = record photo { status = status_done }

stats_per_chat_complete_example :
    Ascending (chats_of (stats_per_chat [] (done_photo ∷ clip ∷ [])))
    × (done_total (stats_per_chat [] (done_photo ∷ clip ∷ []))
        ≡ count_where (has_status status_done) (done_photo ∷ clip ∷ []))
stats_per_chat_complete_example = stats_per_chat_complete [] (done_photo ∷ clip ∷ [])

abbrev finished : Run
finished = record {
  run_id = "r1";
  account = "a";
  profile = none;
  filter_json = "{}";
  status = status_done;
  resume_at = none;
  started_at = "2024-01-02T03:00:00Z";
  finished_at = some "2024-01-02T03:04:05.5Z";
  error = none;
}

cleanup_removes_later_example :
    cleanup_finished_runs (finished ∷ []) (some "2024-01-02T03:04:05Z") ≡ ([], 1)
cleanup_removes_later_example = cleanup_removes_later finished "2024-01-02T03:04:05" "5Z" refl refl

abbrev fresh : Db
fresh = record { versions = []; created = false }

abbrev no_failure : MigrateFaults String
no_failure = record {
  create_table = none;
  begin = none;
  read_version = none;
  batch = λ version. none;
  insert_version = λ version. none;
  commit = none;
}

-- A driver that cannot begin.
abbrev busy : MigrateFaults String
busy = record no_failure { begin = some "busy" }

fresh_migrates : (migrate no_failure fresh).1 ≡ ok tt
unfolding migrate apply_migrations migrate_from apply_migration migration_for applied
fresh_migrates = refl

migrate_settles_example :
    (applied (migrate no_failure fresh).0.versions ≡ schema_version)
    × (migrate busy (migrate no_failure fresh).0
        ≡ ((migrate no_failure fresh).0, err (failed "busy")))
migrate_settles_example = migrate_settles no_failure busy fresh fresh_migrates
