-- ===== src/Webproxy/Window.antt =====
-- internal/webproxy/window.go: credit in both directions. A method is one critical section of its
-- mutex; the channel that wakes a blocked `Reserve` is the answer `waits`, after which the caller
-- comes back. `int` arguments are natural numbers: zero stands for all that are not positive.
pub mod Credit
mod Tests
use teleparse.Base.{
  ℕ, ◌+◌, ◌-◌, ◌*◌, ◌/◌, ◌%◌, ◌^◌, min, List, [], ◌∷◌, Option, none, some, ltb, ◌==◌, if◌then◌else◌,
}

abbrev pub initial_window : ℕ
initial_window = 4 * 1024 * 1024

abbrev pub data_chunk : ℕ
data_chunk = 64 * 1024

abbrev pub window_refill_threshold : ℕ
window_refill_threshold = initial_window / 2

abbrev pub max_uint32 : ℕ
max_uint32 = 2 ^ 32 - 1

-- `E` is the type of the errors that a window can be aborted with.
pub record SendWindow (E : Type 0) : Type 0 where
  pub available : ℕ
  pub aborted : Option E

pub data Reservation (E : Type 0) : Type 0 where
  invalid : Reservation E
  failed : E → Reservation E
  got : ℕ → Reservation E
  waits : Reservation E

module _ {E : Type 0} where
  unfoldable pub new_send_window : SendWindow E
  new_send_window = record { available = initial_window; aborted = none }

  -- One pass of the loop of `Reserve`.
  unfoldable pub reserve : SendWindow E → ℕ → Reservation E × SendWindow E
  reserve w want = if want == 0 then (invalid, w) else elim w.aborted [
    | some e ↦ (failed e, w)
    | none ↦
        if ltb 0 w.available
        then (
          got (min want w.available),
          record w { available = w.available - min want w.available },
        )
        else (waits, w)
  ]

  unfoldable pub grant : SendWindow E → ℕ → SendWindow E
  grant w delta =
      let next = w.available + delta in
      if delta == 0
      then w
      else record w { available = (if ltb max_uint32 next then max_uint32 else next) % 2 ^ 32 }

  unfoldable pub abort : SendWindow E → E → SendWindow E
  abort w e = elim w.aborted [ some first ↦ w | none ↦ record w { aborted = some e } ]

pub record RecvWindow : Type 0 where
  pub ungranted : ℕ

unfoldable pub new_recv_window : RecvWindow
new_recv_window = record { ungranted = 0 }

-- The grant, and the account after it.
unfoldable pub consume : RecvWindow → ℕ → ℕ × RecvWindow
consume w n =
    let total = w.ungranted + n in
    if n == 0
    then (0, w)
    else if ltb total window_refill_threshold
    then (0, record w { ungranted = total })
    else (total % 2 ^ 32, record w { ungranted = 0 })

unfoldable pub data_chunk_size : ℕ → ℕ
data_chunk_size remaining = min remaining data_chunk
