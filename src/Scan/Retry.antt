-- ===== src/Scan/Retry.antt =====
-- internal/scan/retry.go and internal/transport/transport.go: which failed history pages are asked
-- for again, and how often. An error is what `errors.Is`, `errors.As` and `Error()` find in it.
pub mod Attempts
mod Tests
use teleparse.Base.{
  ℕ, zero, suc, ◌+◌, ◌*◌, ◌-◌, bit_xor, Bool, true, false, not, ◌||◌, Option, none, some, leb, ◌==◌,
  ℤ, pos, leb_ℤ, Char, code, String, if◌then◌else◌,
}
use teleparse.Base.Results.{Result, ok, err}

abbrev pub walk_retry_max : ℕ
walk_retry_max = 3

-- `time.Second`, in nanoseconds.
abbrev pub walk_retry_base : ℕ
walk_retry_base = 1000000000

abbrev pub walk_retry_factor : ℕ
walk_retry_factor = 3

abbrev pub rpc_server_code_floor : ℤ
rpc_server_code_floor = pos 500

-- `temporary` is what `isTemporaryTransport` finds along the chain, and `rpc` the code of a Telegram
-- error in it.
pub record WalkError : Type 0 where
  pub canceled : Bool
  pub deadline_exceeded : Bool
  pub rpc : Option ℤ
  pub temporary : Bool
  pub eof : Bool
  pub unexpected_eof : Bool
  pub epipe : Bool
  pub conn_reset : Bool
  pub text : String

unfoldable pub starts_with : String → String → Bool
starts_with s String.[] = true
starts_with String.[] (String.◌∷◌ c rest) = false
starts_with (String.◌∷◌ d s) (String.◌∷◌ c rest) =
    let more = starts_with s rest in if code d == code c then more else false

-- `strings.Contains`
unfoldable pub contains_text : String → String → Bool
contains_text String.[] phrase = starts_with "" phrase
contains_text (String.◌∷◌ c rest) phrase =
    let later = contains_text rest phrase in
    if starts_with (String.◌∷◌ c rest) phrase then true else later

unfoldable pub dead_transport_message : String → Bool
dead_transport_message text =
    contains_text text "broken pipe" || contains_text text "connection reset by peer"

unfoldable pub is_dead_transport : WalkError → Bool
is_dead_transport e =
    e.eof || e.unexpected_eof || e.epipe || e.conn_reset || dead_transport_message e.text

unfoldable pub retryable_walk_rpc : WalkError → Bool
retryable_walk_rpc e = if e.canceled || e.deadline_exceeded then false else elim e.rpc [
  | some c ↦ leb_ℤ rpc_server_code_floor c
  | none ↦ e.temporary || is_dead_transport e
]

-- The delay of `defaultWalkRetrySleep`: Go's `^` is exclusive or.
unfoldable pub walk_retry_delay : ℕ → ℕ
walk_retry_delay attempt = walk_retry_base * bit_xor walk_retry_factor attempt

-- How `Query` fails: after so many attempts, or cancelled while it sleeps.
pub data QueryError : Type 0 where
  after_attempts : ℕ → WalkError → QueryError
  retry_canceled : WalkError → QueryError
  no_attempt : QueryError

-- The loop of `Query` with so many rounds left. `ask n` is the answer to the request of attempt `n`,
-- and `sleep n` what the pause after it returns.
module _ {A : Type 0} (ask : ℕ → Result WalkError A) (sleep : ℕ → Option WalkError) where
  unfoldable pub query_from : ℕ → ℕ → Result QueryError A
  query_from zero attempt = err no_attempt
  query_from (suc left) attempt =
      let again = query_from left (attempt + 1) in
      elim (ask attempt) [
        | ok result ↦ ok result
        | err e ↦
            if not (retryable_walk_rpc e) || attempt == walk_retry_max
            then err (after_attempts (attempt + 1) e)
            else elim (sleep attempt) [ some x ↦ err (retry_canceled x) | none ↦ again ]
      ]

  unfoldable pub query : Result QueryError A
  query = query_from (walk_retry_max + 1) 0
