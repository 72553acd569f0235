-- ===== src/Download/Settle.antt =====
-- internal/download/downloader.go: how the processing of an item ends, and parking the run.
use teleparse.Base.{ℕ, ◌+◌, Bool, true, Option, none, List, ℤ, String, if◌then◌else◌}
use teleparse.Pace.{Pacer, Timer, add_time, seconds_of}
use teleparse.Store.Media.{
  MediaItem, mark_done, mark_failed, mark_interrupted, record_attempt, status_parked,
}
use teleparse.Store.Runs.{Run, set_resume_at, finish_run}
use teleparse.Download.{Fault, Tally, error_string, is_cancellation_err, count_failed}

-- What the workers of a run share: the store, the pacer with its timers, the tallies, the reporter's
-- counter `store_errors`, and whether the run has cancelled itself.
pub record World : Type 0 where
  pub media : List MediaItem
  pub runs : List Run
  pub pacer : Pacer
  pub timers : List Timer
  pub res : Tally
  pub store_errors : ℕ
  pub canceled : Bool

-- What an operation meets: `nowUTC()`, `m.now()` and the format of a time, and whether the store
-- refuses `RecordAttempt`, the statement that settles the row, `SetResumeAt` and `FinishRun`.
pub record Clock : Type 0 where
  pub stamp : String
  pub now : ℕ
  pub format : ℕ → Option String
  pub attempt_error : Bool
  pub settle_error : Bool
  pub resume_error : Bool
  pub finish_error : Bool

-- A statement that the store may refuse, which is counted and otherwise ignored.
abbrev pub stored : Bool → List MediaItem → World → World
stored refused media w = record w {
  media = if refused then w.media else media;
  store_errors = (if refused then 1 else 0) + w.store_errors;
}

abbrev pub stored_runs : Bool → List Run → World → World
stored_runs refused runs w = record w {
  runs = if refused then w.runs else runs;
  store_errors = (if refused then 1 else 0) + w.store_errors;
}

module _ (t : Clock) (item : MediaItem) where
  unfoldable pub record_failure : World → Fault → ℕ → World
  record_failure w e attempts =
      stored t.settle_error
        (mark_failed w.media t.stamp item.chat_id item.message_id item.media_index (error_string e)
          attempts)
        w

  unfoldable pub note_attempt : World → Fault → ℕ → World
  note_attempt w e attempts =
      stored t.attempt_error
        (record_attempt w.media t.stamp item.chat_id item.message_id item.media_index
          (error_string e) attempts)
        w

  -- `MarkDone`, with the tallies that follow.
  unfoldable pub settle_done : World → String → Option String → Tally → World
  settle_done w path sha res =
      record (stored t.settle_error
        (mark_done w.media t.stamp item.chat_id item.message_id item.media_index path sha) w) {
          res = res;
        }

  unfoldable pub fail_item : World → Fault → ℕ → World
  unfolding record_failure count_failed
  fail_item w e attempts = record (record_failure w e attempts) {
    res = count_failed item.chat_id (error_string e) w.res;
  }

  unfoldable pub interrupt_item : World → Fault → World
  interrupt_item w e =
      record (stored t.settle_error
        (mark_interrupted w.media t.stamp item.chat_id item.message_id item.media_index
          (error_string e))
        w) { res = record w.res { interrupted = w.res.interrupted + 1 } }

  unfoldable pub skip_item : World → String → World
  unfolding settle_done
  skip_item w path = settle_done w path none (record w.res { skipped = w.res.skipped + 1 })

  unfoldable pub settle_interruptible : World → Fault → ℕ → World
  settle_interruptible w e attempt =
      if is_cancellation_err e then interrupt_item w e else fail_item w e attempt

  unfoldable pub park_run : String → World → Fault → ℕ → ℤ → World
  unfolding note_attempt
  park_run run_id w e attempt seconds =
      let resume_at = add_time t.now (seconds_of seconds) in
      let noted = note_attempt w e attempt in
      let resumed =
        stored_runs t.resume_error (set_resume_at noted.runs run_id (t.format resume_at)) noted in
      let ended =
        stored_runs t.finish_error (finish_run resumed.runs t.stamp run_id status_parked "")
          resumed in
      record ended { res = record w.res { parked = true; resume_at = resume_at }; canceled = true }
