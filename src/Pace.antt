-- ===== src/Pace.antt =====
-- internal/pace/pace.go: spacing of downloads and the pause after a flood wait. A method is one
-- critical section of the mutex. Times are nanoseconds since Go's zero time, and durations are
-- signed 64-bit numbers. What a section asks of the clock is a list of commands, in order; stopping a
-- timer may come too late, when its callback already waits for the mutex.
pub mod Flood
pub mod Delays
pub mod Ends
mod Tests
use teleparse.Base.{
  ℕ, suc, ◌+◌, ◌-◌, ◌*◌, ◌%◌, ◌^◌, Bool, not, ◌||◌, Option, none, some, List, [], ◌∷◌, ◌++◌, ltb,
  leb, ◌==◌, ℤ, pos, ◌+ℤ◌, ◌-ℤ◌, ◌*ℤ◌, leb_ℤ, ltb_ℤ, pos_part, neg_part, wrap_64, if◌then◌else◌,
}

abbrev pub second : ℤ
second = pos 1000000000

pub record Config : Type 0 where
  pub concurrency : ℤ
  pub delay_min : ℤ
  pub delay_max : ℤ
  pub flood_sleep_threshold : ℤ

-- `held` counts the entries of `sem` and `capacity` is its size; `wakes` counts the channels
-- `floodWake` that were closed; `flood_stop` is the generation of the timer that `floodStop` stops.
pub record Pacer : Type 0 where
  pub capacity : ℕ
  pub held : ℕ
  pub delay_min : ℤ
  pub spread : ℤ
  pub threshold : ℤ
  pub flood_until : ℕ
  pub flood_gen : ℕ
  pub wakes : ℕ
  pub flood_stop : Option ℕ

-- What `AfterFunc` is given: the generation that the callback compares, and the time it is due.
pub record Timer : Type 0 where
  pub gen : ℕ
  pub due : ℕ

pub data Command : Type 0 where
  stop_timer : ℕ → Command
  start_timer : Timer → Command

-- The pending timers but for those of a generation, which are stopped or have fired.
unfoldable pub without : ℕ → List Timer → List Timer
without g [] = []
without g (t ∷ ts) = let rest = without g ts in if t.gen == g then rest else t ∷ rest

-- The pending timers after commands; `in_time` is whether a stop comes before the callback runs.
abbrev pub act : Bool → List Timer → List Command → List Timer
act in_time ts [] = ts
act in_time ts (stop_timer g ∷ cs) = act in_time (if in_time then without g ts else ts) cs
act in_time ts (start_timer t ∷ cs) = act in_time (t ∷ ts) cs

unfoldable pub clamp : Config → Config
clamp cfg =
    let low = if ltb_ℤ cfg.delay_min (pos 0) then pos 0 else cfg.delay_min in
    record cfg {
      concurrency = if ltb_ℤ cfg.concurrency (pos 1) then pos 1 else cfg.concurrency;
      delay_min = low;
      delay_max = if ltb_ℤ cfg.delay_max low then low else cfg.delay_max;
    }

unfoldable pub new_pacer : Config → Pacer
unfolding clamp
new_pacer config =
    let cfg = clamp config in
    record {
      capacity = pos_part cfg.concurrency;
      held = 0;
      delay_min = cfg.delay_min;
      spread = wrap_64 (cfg.delay_max -ℤ cfg.delay_min);
      threshold = cfg.flood_sleep_threshold;
      flood_until = 0;
      flood_gen = 0;
      wakes = 0;
      flood_stop = none;
    }

-- `Acquire`, with `none` while every slot is held; `Release`, with `none` while none is.
unfoldable pub acquire : Pacer → Option Pacer
acquire p = if ltb p.held p.capacity then some (record p { held = p.held + 1 }) else none

unfoldable pub release : Pacer → Option Pacer
release p = if ltb 0 p.held then some (record p { held = p.held - 1 }) else none

-- `if p.floodStop != nil { p.floodStop() }`
abbrev pub stop_flood : Option ℕ → List Command
stop_flood none = []
stop_flood (some g) = stop_timer g ∷ []

unfoldable pub set_deadline : Pacer → ℕ → ℕ → Pacer × List Command
set_deadline p now deadline =
    let gen = (p.flood_gen + 1) % 2 ^ 64 in
    if leb deadline now || leb deadline p.flood_until then (p, []) else (
      record p { flood_gen = gen; flood_until = deadline; flood_stop = some gen },
      stop_flood p.flood_stop ++ (start_timer (record { gen = gen; due = deadline }) ∷ []),
    )

-- The callback of a timer.
unfoldable pub fire : Pacer → Timer → Pacer
fire p t = if t.gen == p.flood_gen then record p { flood_until = 0; wakes = p.wakes + 1 } else p

-- `time.Duration(seconds) * time.Second`
abbrev pub seconds_of : ℤ → ℤ
seconds_of seconds = wrap_64 (seconds *ℤ second)

-- `now.Add(d)`; a time before the zero time is never reached, so it counts as the zero time.
abbrev pub add_time : ℕ → ℤ → ℕ
add_time now d = now + pos_part d - neg_part d

unfoldable pub park_for : Pacer → ℕ → ℤ → Pacer × List Command
park_for p now d = set_deadline p now (add_time now d)

unfoldable pub report_flood : Pacer → ℕ → ℤ → Pacer × List Command
report_flood p now seconds =
    if leb_ℤ seconds (pos 0) then (p, []) else park_for p now (seconds_of seconds)

unfoldable pub should_park : Pacer → ℤ → Bool
should_park p seconds = ltb_ℤ p.threshold (seconds_of seconds)

-- One round of the loop of `awaitFlood`: whether the waiter goes on.
unfoldable pub await_flood : Pacer → ℕ → Bool
await_flood p now = not (ltb now p.flood_until)

-- `draw` is what `rand.Int64N(int64(p.spread)+1)` answers.
unfoldable pub jitter : Pacer → ℤ → ℤ
jitter p draw = if leb_ℤ p.spread (pos 0) then p.delay_min else wrap_64 (p.delay_min +ℤ draw)
