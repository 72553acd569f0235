-- ===== src/Store/Runs.antt =====
-- internal/store/runs.go: the runs table. Times are texts in the layout RFC3339Nano.
pub mod Cleanup
use teleparse.Base.{
  ℕ, Bool, true, false, not, ◌&&◌, ◌||◌, Option, none, some, List, [], ◌∷◌, ltb, ◌==◌, take, length,
  ℤ, pos, pos_part, leb_ℤ, Char, code, String, same, if◌then◌else◌,
}
use teleparse.Base.Results.{Result, ok, err}
use teleparse.Store.Table.{select_where, query_row, update_where, count_where, order_by, insert_row}
use teleparse.Store.Media.{status_running, status_done, status_failed, error_text}

pub record Run : Type 0 where
  pub run_id : String
  pub account : String
  pub profile : Option String
  pub filter_json : String
  pub status : String
  pub resume_at : Option String
  pub started_at : String
  pub finished_at : Option String
  pub error : Option String

-- The primary key is taken.
pub data RunError : Type 0 where
  run_exists : RunError

unfoldable pub is_run : String → Run → Bool
is_run id r = same r.run_id id

-- The order of SQLite's TEXT columns.
unfoldable pub text_lt : String → String → Bool
text_lt s String.[] = false
text_lt String.[] (String.◌∷◌ d t) = true
text_lt (String.◌∷◌ c s) (String.◌∷◌ d t) =
    let rest = text_lt s t in
    if ltb (code c) (code d) then true else if code c == code d then rest else false

-- The run as the caller has it afterwards, and the row, whose other columns are NULL.
unfoldable pub create_run : List Run → String → Run → Result RunError (List Run × Run)
create_run rows now given =
    let run = record given { status = status_running; started_at = now } in
    elim (query_row (is_run run.run_id) rows) [
      | some _ ↦ err run_exists
      | none ↦ ok (insert_row (record run { finished_at = none; error = none }) rows, run)
    ]

unfoldable pub set_finished : String → String → String → Run → Run
set_finished now status text r = record r {
  status = status;
  finished_at = some now;
  error = error_text text;
}

unfoldable pub finish_run : List Run → String → String → String → String → List Run
finish_run rows now id status text = update_where (is_run id) (set_finished now status text) rows

unfoldable pub set_resume : Option String → Run → Run
set_resume stamp r = record r { resume_at = stamp }

-- `stamp` is `formatTime(when)`.
unfoldable pub set_resume_at : List Run → String → Option String → List Run
set_resume_at rows id stamp = update_where (is_run id) (set_resume stamp) rows

unfoldable pub newest_first : Run → Run → Bool
newest_first a b = text_lt b.started_at a.started_at

unfoldable pub list_runs : List Run → ℤ → List Run
list_runs rows limit =
    if leb_ℤ limit (pos 0)
    then order_by newest_first rows
    else take (pos_part limit) (order_by newest_first rows)

unfoldable pub get_run : List Run → String → Option Run
get_run rows id = query_row (is_run id) rows

-- `finished_at IS NOT NULL AND finished_at < ?`, false where either side is NULL.
unfoldable pub finished_before : Option String → Run → Bool
finished_before none r = false
finished_before (some cutoff) r = elim r.finished_at [ none ↦ false | some t ↦ text_lt t cutoff ]

unfoldable pub expired : Option String → Run → Bool
unfolding finished_before
expired cutoff r =
    (same r.status status_done || same r.status status_failed) && finished_before cutoff r

-- `cutoff` is `formatTime(olderThan)`.
unfoldable pub cleanup_finished_runs : List Run → Option String → List Run × ℕ
cleanup_finished_runs rows cutoff =
    (select_where (λ r. not (expired cutoff r)) rows, count_where (expired cutoff) rows)
