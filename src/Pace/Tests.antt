-- ===== src/Pace/Tests.antt =====
-- A pacer at concrete calls.
use teleparse.Base.{◌+◌, ◌<◌, ◌≡◌, ◌⊎◌, refl, true, false, [], pos, leb_ℤ, arith}
use teleparse.Pace.{
  Config, Timer, clamp, new_pacer, set_deadline, await_flood, jitter, fire, should_park,
}
use teleparse.Pace.Ends.{await_flood_ends}
use teleparse.Pace.Delays.{jitter_bounds}
use teleparse.Pace.Flood.{World, armed, IsArmed, start, next, parks, passes, await_flood_parked}

-- Inverted bounds and no slots.
abbrev odd_config : Config
odd_config = record {
  concurrency = pos 0;
  delay_min = pos 700;
  delay_max = pos 200;
  flood_sleep_threshold = pos 60000000000;
}

abbrev config : Config
config = record odd_config { delay_max = pos 900 }

odd_pacer : (new_pacer odd_config).spread ≡ pos 0
unfolding new_pacer clamp
odd_pacer = refl

parks_long_waits : should_park (new_pacer config) (pos 61) ≡ true
unfolding should_park new_pacer clamp
parks_long_waits = refl

jitter_bounds_example :
    (0 < (new_pacer config).capacity)
    × (leb_ℤ (pos 0) (new_pacer config).delay_min ≡ true)
    × (leb_ℤ (clamp config).delay_min (jitter (new_pacer config) (pos 150)) ≡ true)
    × (leb_ℤ (jitter (new_pacer config) (pos 150)) (clamp config).delay_max ≡ true)
unfolding new_pacer clamp
jitter_bounds_example = jitter_bounds config (pos 150) refl refl refl refl

abbrev idle : World
idle = record { pacer = new_pacer config; timers = []; now = 10 }

abbrev parked : World
parked = armed true idle (set_deadline idle.pacer 10 100)

abbrev later : World
later = record parked { now = 50 }

parked_now : parked.now ≡ 10
unfolding set_deadline new_pacer clamp
parked_now = refl

await_flood_parked_example : await_flood later.pacer later.now ≡ false
unfolding new_pacer clamp
await_flood_parked_example =
    await_flood_parked true idle 100 1 later tt (omega arith)
      (next start (passes 50 (omega (arith, parked_now)))) (omega arith)

idle_unpaused : idle.pacer.flood_until ≡ 0
unfolding new_pacer
idle_unpaused = refl

idle_gen : idle.pacer.flood_gen ≡ 0
unfolding new_pacer
idle_gen = refl

await_flood_ends_example :
    (later.pacer.flood_until ≡ 0)
    ⊎ ((t : Timer) × IsArmed t later.timers
        × (t.due ≡ later.pacer.flood_until)
        × ((fire later.pacer t).wakes ≡ later.pacer.wakes + 1)
        × (await_flood (fire later.pacer t) 100 ≡ true))
await_flood_ends_example =
    await_flood_ends idle 2 later 100 tt idle_unpaused (omega (arith, idle_gen))
      (next (next start (parks true 100)) (passes 50 (omega (arith, parked_now))))
