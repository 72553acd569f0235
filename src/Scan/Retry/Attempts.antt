-- ===== src/Scan/Retry/Attempts.antt =====
-- How often a page is asked for, and what comes back.
use teleparse.Base.{
  ℕ, zero, suc, ◌+◌, ◌≤◌, ◌<◌, ◌≡◌, ap, ◌∙◌, ◌⊎◌, inl, inr, ◌-◌, true, false, Option, none, ◌==◌,
  arith,
}
use teleparse.Base.Results.{Result, ok, err}
use teleparse.Scan.Retry.{
  WalkError, walk_retry_max, retryable_walk_rpc, walk_retry_delay, after_attempts, query_from,
  query,
}

-- The attempts before `n` fail with errors worth a retry, and the pauses after them end.
abbrev pub Retries :
    {A : Type 0} → (ℕ → Result WalkError A) → (ℕ → Option WalkError) → ℕ → ℕ → Type 0
Retries ask sleep from zero = Unit
Retries ask sleep from (suc n) =
    ((e : WalkError) × (ask from ≡ err e) × (retryable_walk_rpc e ≡ true))
    × (sleep from ≡ none)
    × Retries ask sleep (from + 1) n

module _ {A : Type 0} (ask : ℕ → Result WalkError A) (sleep : ℕ → Option WalkError) where
  one_retry :
      (left attempt : ℕ) (e : WalkError)
      → attempt < walk_retry_max
      → ask attempt ≡ err e
      → retryable_walk_rpc e ≡ true
      → sleep attempt ≡ none
      → query_from ask sleep (suc left) attempt ≡ query_from ask sleep left (attempt + 1)
  unfolding query_from
  one_retry left attempt e small a r s =
      let early : (attempt == walk_retry_max) ≡ false = ground arith in
      simp (a, r, early, s, query_from)

  query_from-Retries :
      (n total left attempt : ℕ)
      → total ≡ n + left
      → attempt + n ≤ walk_retry_max
      → Retries ask sleep attempt n
      → query_from ask sleep total attempt ≡ query_from ask sleep left (attempt + n)
  query_from-Retries zero total left attempt sum small r =
      let same : total ≡ left = omega (arith, sum) in
      let here : attempt ≡ attempt + 0 = omega arith in
      ap (λ k. query_from ask sleep k attempt) same ∙ ap (λ k. query_from ask sleep left k) here
  query_from-Retries (suc n) zero left attempt sum small r = absurd (omega (arith, sum))
  query_from-Retries (suc n) (suc total) left attempt sum small ((e, a, t), s, more) =
      one_retry total attempt e (omega (arith, small)) a t s
      ∙ query_from-Retries n total left (attempt + 1) (omega (arith, sum)) (omega (arith, small))
          more
      ∙ ap (λ k. query_from ask sleep left k) (omega arith)

  query_after :
      (n : ℕ)
      → n ≤ walk_retry_max
      → Retries ask sleep 0 n
      → query ask sleep ≡ query_from ask sleep (suc (walk_retry_max - n)) n
  unfolding query
  query_after n small r =
      let counted : 0 + n ≡ n = omega arith in
      query_from-Retries n (walk_retry_max + 1) (suc (walk_retry_max - n)) 0 (omega arith)
        (omega arith) r
      ∙ ap (λ k. query_from ask sleep (suc (walk_retry_max - n)) k) counted

  stop_ok :
      (left attempt : ℕ) (result : A)
      → ask attempt ≡ ok result
      → query_from ask sleep (suc left) attempt ≡ ok result
  unfolding query_from
  stop_ok left attempt result a = simp (a, query_from)

  stop_err :
      (left attempt : ℕ) (e : WalkError)
      → ask attempt ≡ err e
      → (attempt ≡ walk_retry_max) ⊎ (retryable_walk_rpc e ≡ false)
      → query_from ask sleep (suc left) attempt ≡ err (after_attempts (attempt + 1) e)
  unfolding query_from
  stop_err left attempt e a (inl last) =
      let late : (attempt == walk_retry_max) ≡ true = ground (arith, last) in
      simp (a, query_from) (ground (arith, late))
  stop_err left attempt e a (inr fatal) = simp (a, fatal, query_from)

  -- A page that comes within the first four attempts, after failures worth a retry, is returned.
  pub query_answers :
      (n : ℕ) (result : A)
      → n ≤ walk_retry_max
      → Retries ask sleep 0 n
      → ask n ≡ ok result
      → query ask sleep ≡ ok result
  query_answers n result small r a = query_after n small r ∙ stop_ok (walk_retry_max - n) n result a

  -- After failures worth a retry, the first error that is not ends the query at once, and so does
  -- the fourth error of any kind: the answer counts the attempts and carries that last error.
  pub query_gives_up :
      (n : ℕ) (e : WalkError)
      → n ≤ walk_retry_max
      → Retries ask sleep 0 n
      → ask n ≡ err e
      → (n ≡ walk_retry_max) ⊎ (retryable_walk_rpc e ≡ false)
      → query ask sleep ≡ err (after_attempts (n + 1) e)
  query_gives_up n e small r a last =
      query_after n small r ∙ stop_err (walk_retry_max - n) n e a last

-- The pauses between the attempts of a query get shorter, not longer: each is below the one before.
pub walk_retry_delay_shrinks :
    (attempt : ℕ)
    → attempt + 1 < walk_retry_max
    → walk_retry_delay (attempt + 1) < walk_retry_delay attempt
unfolding walk_retry_delay
walk_retry_delay_shrinks zero h = omega arith
walk_retry_delay_shrinks (suc zero) h = omega arith
walk_retry_delay_shrinks (suc (suc n)) h = absurd (omega arith)
