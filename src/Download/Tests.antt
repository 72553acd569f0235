-- ===== src/Download/Tests.antt =====
-- The pipeline at concrete items and answers.
use teleparse.Base.{
  ◌++◌, take, drop, ltb, if◌then◌else◌, ℕ, ◌*◌, ◌-◌, ◌^◌, min, Bool, true, false, none, some, List,
  [], ◌∷◌, ◌≡◌, refl, pos, negsuc, String, same, arith,
}
use teleparse.Base.Results.{ok}
use teleparse.Pace.{Pacer}
use teleparse.Store.Table.{query_row}
use teleparse.Store.Media.{MediaItem, at_key, status_downloading, claimable}
use teleparse.Download.{Fault, Tally, oversized_for_takeout, clamp}
use teleparse.Download as Download
use teleparse.Download.Settle.{World, Clock}
use teleparse.Download.Outcomes.{row_of, Ends, Held}
use teleparse.Download.Ladder.{Env, Disk, linked}
use teleparse.Download.Process.{Site, process_item}
use teleparse.Download.Process.Items.{process_item_settles, process_item_oversized}
use teleparse.Download.Feed.{backoff_delay, backoff_delay_lem}
use teleparse.Download.Ranged.{
  Turn, flood, failure, migrated, chunk, request, ranged_chunk_retries, Source, fetch_loop,
}
use teleparse.Download.Ranged.Budget.{request_survives}
use teleparse.Download.Ranged.Complete.{Serves, fetch_completes}
use teleparse.Download.Progress.{writes, write_at}

abbrev video : MediaItem
video = record {
  chat_id = negsuc 4;
  message_id = pos 10;
  media_index = pos 0;
  media_class = "video";
  media_id = pos 900;
  mime = none;
  size = some (pos 64);
  date = none;
  sender_id = none;
  filename = none;
  grouped_id = none;
  status = status_downloading;
  attempts = 0;
  last_error = none;
  path = none;
  bytes_done = pos 0;
  sha256 = none;
  updated_at = "t0";
}

abbrev no_tally : Tally
no_tally = record {
  downloaded = 0;
  skipped = 0;
  failed = 0;
  retries = 0;
  bytes = pos 0;
  duplicates = 0;
  interrupted = 0;
  linked = 0;
  link_copies = 0;
  parked = false;
  resume_at = 0;
  fail_reasons = [];
  failed_by_chat = [];
}

abbrev pacer : Pacer
pacer = record {
  capacity = 1;
  held = 0;
  delay_min = pos 0;
  spread = pos 0;
  threshold = pos 60000000000;
  flood_until = 0;
  flood_gen = 0;
  wakes = 0;
  flood_stop = none;
}

abbrev world : World
world = record {
  media = video ∷ [];
  runs = [];
  pacer = pacer;
  timers = [];
  res = no_tally;
  store_errors = 0;
  canceled = false;
}

abbrev config : Download.Config
config = record {
  collision = "index";
  part_suffix = ".part";
  sha256 = false;
  concurrency = pos 2;
  retry_max = pos 3;
  claim_batch = pos 10;
  dedupe = "hardlink";
  skip_existing = false;
  backoff_base = pos 1000000;
  hook_timeout = pos 2000000000;
  file_max_size = pos 0;
}

abbrev lost : Fault
lost = record {
  transport = record {
    canceled = false;
    deadline_exceeded = false;
    rpc = none;
    temporary = false;
    eof = true;
    unexpected_eof = false;
    epipe = false;
    conn_reset = false;
    text = "EOF";
  };
  rpc_type = none;
  flood_wait = none;
  message_gone = false;
  media_gone = false;
  too_big = false;
}

abbrev noon : Clock
noon = record {
  stamp = "t1";
  now = 5;
  format = λ t. some "later";
  attempt_error = false;
  settle_error = false;
  resume_error = false;
  finish_error = false;
}

abbrev good_disk : Disk
good_disk = record {
  sync = none;
  stat = ok (pos 64);
  hash = ok "00";
  make_dir = none;
  rename = none;
  link = linked;
}

-- The first fetch loses the connection, the later ones succeed.
abbrev env : Env ℕ
env = record {
  cfg = config;
  run_id = "r1";
  clock = λ n. noon;
  acquire = λ n. none;
  pace = λ n. none;
  fetch = λ n offset location. if ltb 1 n then none else some lost;
  disk = λ n. good_disk;
  size_mismatch = lost;
  run_error = λ n. false;
  file_reference_expired = "FILE_REFERENCE_EXPIRED";
  refetch = none;
  part_size = λ n. some (pos 16);
  backoff = λ n. none;
  wait = λ n. none;
  stop_in_time = λ n. true;
}

abbrev site : Site ℕ
site = record {
  resolve = λ r. ok ("out/a.mp4", 7);
  exists = λ path. same path "out/a.mp4";
  name = λ path n. "out/a (1).mp4";
  open_part = λ path. ok (pos 0);
  blob_path = λ r. "blobs/video/900";
  same_file = λ path blob. false;
  make_dir = none;
  link = linked;
  too_big = lost;
  no_free_index = lost;
  start = noon;
}

held : Held video world
unfolding row_of query_row at_key
held = record { row = video; found = refl; claimed = refl }

process_item_settles_example :
    (path : String) × (w' : World) × (process_item env site video world ≡ some w')
    × Ends video path world w'
process_item_settles_example = process_item_settles env site video world (omega arith) held

-- A session with a cap of 50 bytes.
abbrev takeout : Env ℕ
takeout = record env { cfg = record config { file_max_size = pos 50 } }

over_cap : oversized_for_takeout (pos 50) (some (pos 64)) ≡ true
unfolding oversized_for_takeout
over_cap = refl

process_item_oversized_example :
    (w' : World) × (r : MediaItem) × (process_item takeout site video world ≡ some w')
    × (w'.res.failed ≡ 1)
    × (row_of video w' ≡ some r)
    × (r.size ≡ held.row.size)
    × (claimable (negsuc 4) 3 r ≡ true)
process_item_oversized_example =
    process_item_oversized takeout site video world over_cap (omega arith) refl held

abbrev taken : String → Bool
taken path = same path "a (1)"

abbrev name : ℕ → String
name n = if ltb 1 n then "a (2)" else "a (1)"

backoff_delay_lem_example :
    backoff_delay (pos 500000000) 9 ≡ pos (min 30000000000 (500000000 * 2 ^ (9 - 1)))
backoff_delay_lem_example = backoff_delay_lem 500000000 9 (omega arith)

abbrev log : List (ℕ × ℕ)
log = (0, 16) ∷ (8, 16) ∷ (4, 0) ∷ (0, 8) ∷ []

log_reported : (writes log (record { hwm = 0; reported = 0 })).reported ≡ 24
unfolding writes write_at
log_reported = refl

clamped : (clamp (record config { retry_max = negsuc 0 })).retry_max ≡ pos 1
unfolding clamp
clamped = refl

-- Turns before a chunk arrives.
abbrev bumpy : List Turn
bumpy = flood (pos 3) lost none ∷ failure true lost none ∷ migrated ∷ []

request_survives_example :
    request ranged_chunk_retries 0 (bumpy ++ (chunk (1 ∷ 2 ∷ []) ∷ [])) ≡ some (ok (1 ∷ 2 ∷ []))
request_survives_example =
    request_survives ranged_chunk_retries bumpy [] (1 ∷ 2 ∷ [])
      ((refl, refl), ((refl, refl), (tt, tt))) (omega arith)

-- A short file, and a server that has all of it.
abbrev content : List ℕ
content = 5 ∷ 6 ∷ 7 ∷ []

abbrev source : Source
source = record {
  ask = λ offset. ok (take 4096 (drop offset content));
  write_error = λ offset. none;
  short_file = lost;
  total = 3;
}

serving : Serves source content (λ offset. 4096)
serving = record {
  answers = λ offset. refl;
  large = λ offset. omega arith;
  written = λ offset. refl;
  sized = refl;
}

fetch_completes_example : fetch_loop source 5 1 1 (5 ∷ []) ≡ some (ok (2, content))
fetch_completes_example =
    fetch_completes source content (λ offset. 4096) 5 1 serving (omega arith) (omega arith)
