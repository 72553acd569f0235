-- ===== src/Download.antt =====
-- internal/download/downloader.go: the download pipeline. This module has its configuration, its
-- errors and the tallies of a run. Hardlink mode, sidecars, hooks and the live display are left
-- out, and every statement of the store runs.
pub mod Settle
pub mod Outcomes
pub mod Ladder
pub mod Process
pub mod Feed
pub mod Progress
pub mod Ranged
mod Tests
use teleparse.Base.{
  ℕ, ◌+◌, ◌*◌, Bool, true, false, ◌||◌, Option, none, some, List, [], ◌∷◌, ltb, ℤ, pos, ltb_ℤ,
  leb_ℤ, same_ℤ, String, same, is_empty, any, if◌then◌else◌,
}
use teleparse.Scan.Retry.{WalkError}
use teleparse.Store.Reports.{add_status}

abbrev pub default_claim_batch : ℤ
default_claim_batch = pos 32

-- Durations are nanoseconds.
abbrev pub default_backoff : ℤ
default_backoff = pos 500000000

abbrev pub default_hook_timeout : ℤ
default_hook_timeout = pos 10000000000

abbrev pub backoff_max : ℤ
backoff_max = pos 30000000000

abbrev pub collision_index_max : ℕ
collision_index_max = 1000

-- `collision`, `part_suffix` and `sha256` are those of `Output`.
pub record Config : Type 0 where
  pub collision : String
  pub part_suffix : String
  pub sha256 : Bool
  pub concurrency : ℤ
  pub retry_max : ℤ
  pub claim_batch : ℤ
  pub dedupe : String
  pub skip_existing : Bool
  pub backoff_base : ℤ
  pub hook_timeout : ℤ
  pub file_max_size : ℤ

-- The clamps of `NewManager`.
unfoldable pub clamp : Config → Config
clamp cfg = record cfg {
  claim_batch = if ltb_ℤ cfg.claim_batch (pos 1) then default_claim_batch else cfg.claim_batch;
  retry_max = if ltb_ℤ cfg.retry_max (pos 1) then pos 1 else cfg.retry_max;
  concurrency = if ltb_ℤ cfg.concurrency (pos 1) then pos 1 else cfg.concurrency;
  backoff_base = if leb_ℤ cfg.backoff_base (pos 0) then default_backoff else cfg.backoff_base;
  hook_timeout = if leb_ℤ cfg.hook_timeout (pos 0) then default_hook_timeout else cfg.hook_timeout;
  part_suffix = if is_empty cfg.part_suffix then ".part" else cfg.part_suffix;
}

unfoldable pub dedupe_enabled : String → Bool
dedupe_enabled mode = same mode "hardlink" || same mode "unique-id" || same mode "hash"

-- An error is what `errors.Is`, `errors.As` and `Error()` find in it: `rpc_type` is the type of a
-- Telegram error, and `flood_wait` the seconds of a flood wait.
pub record Fault : Type 0 where
  pub transport : WalkError
  pub rpc_type : Option String
  pub flood_wait : Option ℤ
  pub message_gone : Bool
  pub media_gone : Bool
  pub too_big : Bool

abbrev pub error_string : Fault → String
error_string e = e.transport.text

-- `tgerr.Is`
unfoldable pub is_rpc : Fault → String → Bool
is_rpc e kind = elim e.rpc_type [ none ↦ false | some t ↦ same t kind ]

unfoldable pub is_cancellation_err : Fault → Bool
is_cancellation_err e = e.transport.canceled || e.transport.deadline_exceeded

abbrev pub takeout_err_file_too_big : String
takeout_err_file_too_big = "TAKEOUT_FILE_TOO_BIG"

abbrev pub takeout_precheck_attempts : ℕ
takeout_precheck_attempts = 1

unfoldable pub oversized_for_takeout : ℤ → Option ℤ → Bool
oversized_for_takeout cap none = false
oversized_for_takeout cap (some size) = if leb_ℤ cap (pos 0) then false else ltb_ℤ cap size

abbrev pub fatal_types : List String
fatal_types =
    "MESSAGE_ID_INVALID" ∷ "MESSAGE_DELETED" ∷ "MEDIA_EMPTY" ∷ "MEDIA_INVALID"
    ∷ takeout_err_file_too_big ∷ []

unfoldable pub is_fatal_tg_error : Fault → Bool
unfolding is_rpc
is_fatal_tg_error e = any (is_rpc e) fatal_types || e.message_gone || e.media_gone

unfoldable pub fatal_takeout_reason : Fault → Fault
fatal_takeout_reason e =
    if is_rpc e takeout_err_file_too_big then record e { too_big = true } else e

-- `Result`, with its two maps as lists; `resume_at` is in nanoseconds since Go's zero time.
pub record Tally : Type 0 where
  pub downloaded : ℕ
  pub skipped : ℕ
  pub failed : ℕ
  pub retries : ℕ
  pub bytes : ℤ
  pub duplicates : ℕ
  pub interrupted : ℕ
  pub linked : ℕ
  pub link_copies : ℕ
  pub parked : Bool
  pub resume_at : ℕ
  pub fail_reasons : List (String × ℕ)
  pub failed_by_chat : List (ℤ × ℕ)

unfoldable pub hardlink_mode : Config → Bool
hardlink_mode cfg = same cfg.dedupe "hardlink"

unfoldable pub add_chat : ℤ → List (ℤ × ℕ) → List (ℤ × ℕ)
add_chat c [] = (c, 1) ∷ []
add_chat c ((d, n) ∷ rest) =
    let more = add_chat c rest in if same_ℤ c d then (d, n + 1) ∷ rest else (d, n) ∷ more

unfoldable pub count_failed : ℤ → String → Tally → Tally
count_failed chat reason res = record res {
  failed = res.failed + 1;
  failed_by_chat = add_chat chat res.failed_by_chat;
  fail_reasons = add_status reason res.fail_reasons;
}
