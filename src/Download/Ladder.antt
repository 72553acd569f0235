-- ===== src/Download/Ladder.antt =====
-- internal/download/downloader.go: the retry ladder of one item.
pub mod Ends
use teleparse.Base.{
  ℕ, zero, suc, ◌+◌, ◌-◌, Bool, true, false, not, ◌||◌, ◌&&◌, Option, none, some, List, ◌∷◌, ltb, ℤ,
  same_ℤ, ◌+ℤ◌, String, pos_part, if◌then◌else◌,
}
use teleparse.Base.Results.{Result, ok, err, ◌>>=◌, ◌>>◌}
use teleparse.Pace.{act, report_flood, should_park}
use teleparse.Scan.Retry.{is_dead_transport}
use teleparse.Store.Media.{MediaItem}
use teleparse.Download.{
  Config, Fault, hardlink_mode, is_rpc, is_cancellation_err, is_fatal_tg_error,
  fatal_takeout_reason,
}
use teleparse.Download.Settle.{
  World, Clock, note_attempt, settle_done, fail_item, interrupt_item, settle_interruptible,
  park_run,
}

-- What comes of a hard link: it is made, the target is there already, or it is refused, with what the
-- copy in its place reports.
pub data Linking : Type 0 where
  linked : Linking
  exists : Linking
  refused : Option Fault → Linking

-- What the file system answers when an attempt is verified and promoted.
pub record Disk : Type 0 where
  pub sync : Option Fault
  pub stat : Result Fault ℤ
  pub hash : Result Fault String
  pub make_dir : Option Fault
  pub rename : Option Fault
  pub link : Linking

-- `err` of what an operation without a result reports.
unfoldable pub check : Option Fault → Result Fault (Unit {0})
check none = ok tt
check (some e) = err e

unfoldable pub link_or_copy : Linking → World → Result Fault World
link_or_copy linked w = ok w
link_or_copy exists w = ok w
link_or_copy (refused (some e)) w = err e
link_or_copy (refused none) w =
    ok (record w { res = record w.res { link_copies = w.res.link_copies + 1 } })

unfoldable pub check_size : Fault → Option ℤ → ℤ → Result Fault (Unit {0})
check_size mismatch none size = ok tt
check_size mismatch (some want) size = if same_ℤ size want then ok tt else err mismatch

-- What stops the processing of an item, or the state and the location to go on with.
pub data Handled (L : Type 0) : Type 0 where
  stopped : World → Handled L
  go_on : World → L → Handled L

-- The answers to an attempt by its number, for a location type `L` of the Telegram client.
-- `run_error` is whether the context of the run has ended when the failure is classified;
-- `part_size` is the new size of the part file, and `stop_in_time` whether a timer that the pacer
-- replaces is stopped before it fires.
pub record Env (L : Type 0) : Type 0 where
  pub cfg : Config
  pub run_id : String
  pub clock : ℕ → Clock
  pub acquire : ℕ → Option Fault
  pub pace : ℕ → Option Fault
  pub fetch : ℕ → ℤ → L → Option Fault
  pub disk : ℕ → Disk
  pub size_mismatch : Fault
  pub run_error : ℕ → Bool
  pub file_reference_expired : String
  pub refetch : Option (ℕ → Result Fault L)
  pub part_size : ℕ → Option ℤ
  pub backoff : ℕ → Option Fault
  pub wait : ℕ → Option Fault
  pub stop_in_time : ℕ → Bool

module _ {L : Type 0} (env : Env L) (item : MediaItem) (final_path : String) where
  unfoldable pub attempt_once : ℕ → ℤ → L → Option Fault
  attempt_once attempt offset location = elim (env.acquire attempt) [
    | some e ↦ some e
    | none ↦ elim (env.pace attempt) [ some e ↦ some e | none ↦ env.fetch attempt offset location ]
  ]

  unfoldable pub finish_done : World → ℕ → Option String → ℤ → World
  unfolding settle_done
  finish_done w attempt sha size =
      settle_done (env.clock attempt) item w final_path sha
        (record w.res { downloaded = w.res.downloaded + 1; bytes = w.res.bytes +ℤ size })

  -- In hardlink mode the part file is promoted to the blob, and the final path is linked to it.
  unfoldable pub verify_and_promote : World → ℕ → Result Fault World
  verify_and_promote w attempt = do
    let disk = env.disk attempt
    check disk.sync
    size ← disk.stat
    check_size env.size_mismatch item.size size
    sha ← if env.cfg.sha256 then (disk.hash >>= λ s. ok (some s)) else ok none
    check disk.make_dir
    check disk.rename
    w' ← if hardlink_mode env.cfg then link_or_copy disk.link w else ok w
    ok (finish_done w' attempt sha size)

  unfoldable pub note_flood : World → ℕ → ℤ → World
  note_flood w attempt seconds =
      let (pacer, commands) = report_flood w.pacer (env.clock attempt).now seconds in
      record w { pacer = pacer; timers = act (env.stop_in_time attempt) w.timers commands }

  unfoldable pub handle_refetch : World → Fault → ℕ → L → Handled L
  handle_refetch w e attempt location = elim env.refetch [
    | none ↦ go_on w location
    | some ask ↦
        if is_rpc e env.file_reference_expired
        then elim (ask attempt) [
          | ok fresh ↦ go_on w fresh
          | err x ↦
              if is_fatal_tg_error x
              then stopped (fail_item (env.clock attempt) item w x attempt)
              else go_on w location
        ]
        else go_on w location
  ]

  unfoldable pub handle_flood_or_refetch : World → Fault → ℕ → L → Handled L
  handle_flood_or_refetch w e attempt location = elim e.flood_wait [
    | some seconds ↦
        let w' = note_flood w attempt seconds in
        if should_park w'.pacer seconds
        then stopped (park_run (env.clock attempt) item env.run_id w' e attempt seconds)
        else go_on w' location
    | none ↦ handle_refetch w e attempt location
  ]

  unfoldable pub handle_failure : World → Fault → ℕ → L → Handled L
  handle_failure w e attempt location =
      let run_ended = env.run_error attempt || w.canceled in
      let t = env.clock attempt in
      if run_ended && is_cancellation_err e
      then stopped (interrupt_item t item w e)
      else if run_ended
      then stopped (fail_item t item w e attempt)
      else if is_fatal_tg_error e
      then stopped (fail_item t item w (fatal_takeout_reason e) (pos_part env.cfg.retry_max))
      else handle_flood_or_refetch w e attempt location

  unfoldable pub count_retry : World → ℕ → World
  count_retry w attempt =
      if ltb attempt (pos_part env.cfg.retry_max)
      then record w { res = record w.res { retries = w.res.retries + 1 } }
      else w

  -- The end of a round whose attempt failed; `again` is the rest of the loop.
  unfoldable pub after_failure :
      (World → ℤ → L → Option World) → Fault → ℕ → ℤ → Handled L → Option World
  after_failure again e attempt offset (stopped w) = some w
  after_failure again e attempt offset (go_on w location) =
      let t = env.clock attempt in
      let w' = count_retry (note_attempt t item w e attempt) attempt in
      let offset' : ℤ = elim (env.part_size attempt) [ some size ↦ size | none ↦ offset ] in
      elim (env.backoff attempt) [
        | some x ↦ some (settle_interruptible t item w' x attempt)
        | none ↦ elim (env.wait attempt) [
          | some x ↦ some (settle_interruptible t item w' x attempt)
          | none ↦ again w' offset' location
        ]
      ]

  -- What the loop leaves behind. Without an attempt there is no last error, and its text is asked of
  -- a nil error, which panics: `none`.
  unfoldable pub exhausted : World → ℕ → Option Fault → Option World
  exhausted w attempt none = none
  exhausted w attempt (some e) =
      let t = env.clock attempt in
      if is_cancellation_err e || is_dead_transport e.transport
      then some (interrupt_item t item w e)
      else some (fail_item t item w e attempt)

  -- An attempt: the error that it ends with, or the state after it.
  unfoldable pub try_once : World → ℕ → ℤ → L → Result Fault World
  try_once w attempt offset location = elim (attempt_once attempt offset location) [
    | some e ↦ err e
    | none ↦ verify_and_promote w attempt
  ]

  -- The loop of `downloadWithRetries` with so many attempts left.
  unfoldable pub ladder : ℕ → World → ℕ → ℤ → L → Option Fault → Option World
  ladder zero w attempt offset location last = exhausted w attempt last
  ladder (suc left) w attempt offset location last =
      let next = suc attempt in
      elim (try_once w next offset location) [
        | ok w' ↦ some w'
        | err e ↦
            after_failure (λ w' offset' location'. ladder left w' next offset' location' (some e)) e
              next offset (handle_failure w e next location)
      ]

  -- From the claimed item; `offset` is the size of the part file.
  unfoldable pub download_with_retries : World → ℤ → L → Option World
  download_with_retries w offset location =
      ladder (pos_part env.cfg.retry_max - item.attempts) w item.attempts offset location none
