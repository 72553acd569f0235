-- ===== src/Pace/Delays.antt =====
-- The delays between downloads, whatever the configuration.
use teleparse.Base.{◌^◌, ◌<◌, ◌≡◌, true, ℤ, pos, leb_ℤ, ltb_ℤ, arith}
use teleparse.Pace.{Config, clamp, new_pacer, jitter}

-- A pacer has a slot at least, and its delays start at zero at the earliest; the delay before a
-- download lies between the configured bounds once these are clamped, for every draw from zero to
-- the spread. (Bounds are durations of 63 bits.)
pub jitter_bounds :
    (cfg : Config) (draw : ℤ)
    → ltb_ℤ cfg.delay_min (pos (2 ^ 63)) ≡ true
    → ltb_ℤ cfg.delay_max (pos (2 ^ 63)) ≡ true
    → leb_ℤ (pos 0) draw ≡ true
    → leb_ℤ draw (new_pacer cfg).spread ≡ true
    → (0 < (new_pacer cfg).capacity)
      × (leb_ℤ (pos 0) (new_pacer cfg).delay_min ≡ true)
      × (leb_ℤ (clamp cfg).delay_min (jitter (new_pacer cfg) draw) ≡ true)
      × (leb_ℤ (jitter (new_pacer cfg) draw) (clamp cfg).delay_max ≡ true)
unfolding clamp new_pacer jitter
jitter_bounds cfg draw low high nonneg small =
    (ground arith, ground arith, ground (arith, small), ground (arith, small))
