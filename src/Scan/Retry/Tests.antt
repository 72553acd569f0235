-- ===== src/Scan/Retry/Tests.antt =====
-- A query at concrete answers.
use teleparse.Base.{ℕ, suc, zero, ◌<◌, ◌≡◌, refl, true, false, none, some, pos, inr, arith}
use teleparse.Base.Results.{Result, ok, err}
use teleparse.Scan.Retry.{
  WalkError, retryable_walk_rpc, is_dead_transport, dead_transport_message, contains_text,
  starts_with, walk_retry_delay, after_attempts, query,
}
use teleparse.Scan.Retry.Attempts.{query_answers, query_gives_up, walk_retry_delay_shrinks}

abbrev broken : WalkError
broken = record {
  canceled = false;
  deadline_exceeded = false;
  rpc = none;
  temporary = false;
  eof = false;
  unexpected_eof = false;
  epipe = false;
  conn_reset = false;
  text = "write: broken pipe";
}

abbrev refused : WalkError
refused = record broken { rpc = some (pos 420) }

broken_retryable : retryable_walk_rpc broken ≡ true
unfolding retryable_walk_rpc is_dead_transport dead_transport_message contains_text starts_with
broken_retryable = refl

refused_fatal : retryable_walk_rpc refused ≡ false
unfolding retryable_walk_rpc
refused_fatal = refl

-- Two broken pipes, and then page 7.
abbrev recovers : ℕ → Result WalkError ℕ
recovers zero = err broken
recovers (suc zero) = err broken
recovers (suc (suc n)) = ok 7

abbrev fails : ℕ → Result WalkError ℕ
fails zero = err broken
fails (suc n) = err refused

query_answers_test : query recovers (λ n. none) ≡ ok 7
query_answers_test =
    query_answers recovers (λ n. none) 2 7 (omega arith)
      ((broken, refl, broken_retryable), refl, ((broken, refl, broken_retryable), refl, tt)) refl

query_gives_up_test : query fails (λ n. none) ≡ err (after_attempts 2 refused)
query_gives_up_test =
    query_gives_up fails (λ n. none) 1 refused (omega arith)
      ((broken, refl, broken_retryable), refl, tt) refl (inr refused_fatal)

walk_retry_delay_shrinks_example : walk_retry_delay 2 < walk_retry_delay 1
walk_retry_delay_shrinks_example = walk_retry_delay_shrinks 1 (omega arith)
