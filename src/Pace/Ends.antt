-- ===== src/Pace/Ends.antt =====
-- Every pause has a timer that ends it.
use teleparse.Base.{
  ℕ, ◌+◌, ◌^◌, ◌<◌, ◌≡◌, refl, ◌⊎◌, inl, inr, Bool, true, false, List, [], ◌∷◌, ◌++◌, Option, none,
  some, ap, ◌==◌, leb_ℤ, pos, Bool-cases, arith,
}
use teleparse.Pace.{
  Timer, start_timer, without, act, stop_flood, set_deadline, fire, report_flood, park_for,
  await_flood,
}
use teleparse.Pace.Flood.{
  World, armed, IsArmed, Step, parks, reports, fires, passes, Run, start, next, IsWorld,
  set_deadline_cases, run_keeps,
}

-- No pause is on, or the timer of its generation is pending for its end.
abbrev pub HasTimer : World → Type 0
HasTimer w =
    (w.pacer.flood_until ≡ 0)
    ⊎ ((t : Timer) × IsArmed t w.timers
        × (t.gen ≡ w.pacer.flood_gen)
        × (t.due ≡ w.pacer.flood_until))

IsArmed-without :
    (g : ℕ) (t : Timer) (ts : List Timer)
    → (t.gen == g) ≡ false
    → IsArmed t ts
    → IsArmed t (without g ts)
unfolding without
IsArmed-without g t [] h m = m
IsArmed-without g t (x ∷ ts) h m = elim (Bool-cases (x.gen == g)) [
  | inl e ↦ simp e (elim m [
    | inl f ↦ (let same_gen = ap (λ (y : Timer). y.gen == g) f in cc)
    | inr n ↦ IsArmed-without g t ts h n
  ])
  | inr e ↦ simp e (elim m [ inl f ↦ inl f | inr n ↦ inr (IsArmed-without g t ts h n) ])
]

-- What is stopped was there before, so the timer that is started is pending.
started :
    (in_time : Bool) (ts : List Timer) (old : Option ℕ) (t : Timer)
    → IsArmed t (act in_time ts (stop_flood old ++ (start_timer t ∷ [])))
started in_time ts none t = inl refl
started in_time ts (some g) t = inl refl

park-HasTimer :
    (in_time : Bool) (w : World) (deadline : ℕ)
    → w.pacer.flood_gen + 1 < 2 ^ 64
    → HasTimer w
    → HasTimer (armed in_time w (set_deadline w.pacer w.now deadline))
park-HasTimer in_time w deadline small h = elim (set_deadline_cases w.pacer w.now deadline small) [
  | inl (_, e) ↦ simp e h
  | inr (_, _, e) ↦
      let t : Timer = record { gen = w.pacer.flood_gen + 1; due = deadline } in
      simp e (inr (t, started in_time w.timers w.pacer.flood_stop t, refl, refl))
]

fire-HasTimer :
    (w : World) (t : Timer)
    → HasTimer w
    → HasTimer (record w { pacer = fire w.pacer t; timers = without t.gen w.timers })
unfolding fire
fire-HasTimer w t h = elim (Bool-cases (t.gen == w.pacer.flood_gen)) [
  | inl e ↦ simp e (inl refl)
  | inr e ↦ simp e (elim h [
    | inl idle ↦ inl idle
    | inr (u, m, same, due) ↦
        inr (u, IsArmed-without t.gen u w.timers (ground (arith, e, same)) m, same, due)
  ])
]

Step-HasTimer : {w u : World} → Step w u → w.pacer.flood_gen + 1 < 2 ^ 64 → HasTimer w → HasTimer u
Step-HasTimer {w} (parks in_time deadline) small h = park-HasTimer in_time w deadline small h
Step-HasTimer {w} (reports in_time seconds) small h = elim (Bool-cases (leb_ℤ seconds (pos 0))) [
  | inl e ↦ unfold report_flood in simp e h
  | inr e ↦ unfold report_flood park_for in simp e (park-HasTimer in_time w _ small h)
]
Step-HasTimer {w} (fires t m due) small h = fire-HasTimer w t h
Step-HasTimer {w} (passes later k) small h = h

Run-HasTimer :
    {w u : World} {n : ℕ}
    → Run w n u
    → IsWorld w
    → w.pacer.flood_gen + n < 2 ^ 64
    → HasTimer w
    → HasTimer u
Run-HasTimer start v small h = h
Run-HasTimer (next {n} {u} r s) v small h =
    let (_, slow, _) = run_keeps 0 r v (omega arith) (inl (omega arith)) in
    Step-HasTimer s (omega (arith, slow)) (Run-HasTimer r v (omega arith) h)

-- No pause is for ever: after any steps from an unpaused pacer, with replaced timers stopped in time or
-- too late, either no pause is on, or a timer that is pending, neither stopped nor fired, is due at the
-- very end of the pause, and once it fires the waiters are woken and each goes on. (Fewer than 2 ^ 64
-- steps, since the generation is a uint64.)
pub await_flood_ends :
    (w : World) (n : ℕ) (u : World) (now : ℕ)
    → IsWorld w
    → w.pacer.flood_until ≡ 0
    → w.pacer.flood_gen + n < 2 ^ 64
    → Run w n u
    → (u.pacer.flood_until ≡ 0)
      ⊎ ((t : Timer) × IsArmed t u.timers
          × (t.due ≡ u.pacer.flood_until)
          × ((fire u.pacer t).wakes ≡ u.pacer.wakes + 1)
          × (await_flood (fire u.pacer t) now ≡ true))
unfolding fire await_flood
await_flood_ends w n u now v idle small r = elim (Run-HasTimer r v small (inl idle)) [
  | inl e ↦ inl e
  | inr (t, m, same, due) ↦ inr (t, m, due, ground (arith, same), ground (arith, same))
]
