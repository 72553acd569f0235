-- ===== src/Download/Feed.antt =====
-- internal/download/downloader.go: the order in which chats are fed, and the pauses of the ladder.
use teleparse.Base.{
  ◌*◌, ◌^◌, min, ap, ℕ, zero, suc, ◌-◌, ◌≤◌, ◌≡◌, ℤ, pos, ◌*ℤ◌, wrap_64, leb_ℤ, if◌then◌else◌,
  arith, Bool-cases, inl, inr,
}
use native.Mathlib.Nat.{pow-suc, mul-le-mul_left}
use teleparse.Download.{backoff_max}

-- The doublings of `sleepBackoff`, so many of them.
unfoldable pub doubled : ℕ → ℤ → ℤ
doubled zero delay = delay
doubled (suc n) delay =
    let twice = wrap_64 (delay *ℤ pos 2) in
    let more = doubled n twice in if leb_ℤ backoff_max twice then backoff_max else more

unfoldable pub backoff_delay : ℤ → ℕ → ℤ
backoff_delay base attempt = doubled (attempt - 1) base

-- Two to any power is positive.
pow_pos : (n : ℕ) → 1 ≤ 2 ^ n
pow_pos zero = omega arith
pow_pos (suc n) = omega (arith, pow-suc 2 n, pow_pos n)

twice_pos : (b : ℕ) → b ≤ 30000000000 → wrap_64 (pos b *ℤ pos 2) ≡ pos (2 * b)
twice_pos b small = ground arith

doubled_lem : (n b : ℕ) → b ≤ 30000000000 → doubled n (pos b) ≡ pos (min 30000000000 (b * 2 ^ n))
unfolding doubled
doubled_lem zero b small = ap pos (omega arith)
doubled_lem (suc n) b small =
    let regroup : b * 2 ^ suc n ≡ 2 * b * 2 ^ n = simp (pow-suc 2 n) (grind arith) in
    simp (twice_pos b small, regroup)
      (elim (Bool-cases (leb_ℤ backoff_max (pos (2 * b)))) [
        | inl big ↦
            let enough : 30000000000 ≤ 2 * b * 2 ^ n =
              ground (arith, mul-le-mul_left (2 * b) (pow_pos n), big) in
            simp (big) (ap pos (omega (arith, enough)))
        | inr low ↦ simp (low) (doubled_lem n (2 * b) (ground (arith, low)))
      ])

-- The pause after an attempt, with a base of at most thirty seconds: the base doubled once for each
-- attempt before this one, and never more than thirty seconds; no doubling wraps round.
pub backoff_delay_lem :
    (b attempt : ℕ)
    → b ≤ 30000000000
    → backoff_delay (pos b) attempt ≡ pos (min 30000000000 (b * 2 ^ (attempt - 1)))
unfolding backoff_delay
backoff_delay_lem b attempt small = doubled_lem (attempt - 1) b small
