-- ===== src/Download/Progress.antt =====
-- internal/download/downloader.go: the bytes that a transfer reports, by its high-water mark. Offsets
-- in a file are natural numbers.
use teleparse.Base.{ℕ, ◌+◌, ◌-◌, max, List, [], ◌∷◌, ltb, leb, if◌then◌else◌}

-- `hwm` of the writer, and the sum of what its sink was told.
pub record Meter : Type 0 where
  pub hwm : ℕ
  pub reported : ℕ

unfoldable pub report_delta : Meter → ℕ → Meter
report_delta m end =
    if leb end m.hwm then m else record { hwm = end; reported = m.reported + (end - m.hwm) }

-- `WriteAt`, where `written` is what the inner writer wrote at `off`, with or without an error.
unfoldable pub write_at : Meter → ℕ → ℕ → Meter
unfolding report_delta
write_at m off written = if ltb 0 written then report_delta m (off + written) else m

unfoldable pub writes : List (ℕ × ℕ) → Meter → Meter
writes [] m = m
writes ((off, written) ∷ rest) m = writes rest (write_at m off written)

-- The end of the furthest byte that was written, at least `so_far`.
abbrev pub furthest : ℕ → List (ℕ × ℕ) → ℕ
furthest so_far [] = so_far
furthest so_far ((off, written) ∷ rest) =
    furthest (if ltb 0 written then max so_far (off + written) else so_far) rest
