-- ===== src/Pace/Flood.antt =====
-- The pause over any order of reports, parks, timers and waiting.
use teleparse.Base.{
  ℕ, suc, ◌+◌, ◌^◌, ◌≤◌, ◌<◌, ◌≡◌, refl, ◌⊎◌, inl, inr, Bool, true, false, List, [], ◌∷◌, ◌++◌,
  Option, none, some, ℤ, All, arith, pos, leb_ℤ, leb, ◌||◌, ◌%◌, Bool-cases, ◌==◌,
}
use teleparse.Pace.{
  Pacer, Timer, Command, start_timer, without, act, stop_flood, set_deadline, fire, park_for,
  report_flood, await_flood,
}

-- A pacer, the timers that are pending, and the time.
pub record World : Type 0 where
  pub pacer : Pacer
  pub timers : List Timer
  pub now : ℕ

abbrev pub armed : Bool → World → Pacer × List Command → World
armed in_time w (p, cs) = record w { pacer = p; timers = act in_time w.timers cs }

abbrev pub IsArmed : Timer → List Timer → Type 0
IsArmed t [] = ⊥
IsArmed t (x ∷ xs) = (t ≡ x) ⊎ IsArmed t xs

-- One critical section, or time that passes. A timer fires when it is due or later, and once.
pub data Step (w : World) : World → Type 0 where
  parks :
      (in_time : Bool) (deadline : ℕ)
      → Step w (armed in_time w (set_deadline w.pacer w.now deadline))
  reports :
      (in_time : Bool) (seconds : ℤ) → Step w (armed in_time w (report_flood w.pacer w.now seconds))
  fires :
      (t : Timer)
      → IsArmed t w.timers
      → t.due ≤ w.now
      → Step w (record w { pacer = fire w.pacer t; timers = without t.gen w.timers })
  passes : (later : ℕ) → w.now ≤ later → Step w (record w { now = later })

pub data Run (w : World) : ℕ → World → Type 0 where
  start : Run w 0 w
  next : {n : ℕ} {u v : World} → Run w n u → Step u v → Run w (suc n) v

-- A timer is of an older generation, or due no earlier than the pause ends.
abbrev pub IsFit : Pacer → Timer → Type 0
IsFit p t = (t.gen < p.flood_gen) ⊎ ((t.gen ≡ p.flood_gen) × (p.flood_until ≤ t.due))

abbrev pub IsWorld : World → Type 0
IsWorld w = All (IsFit w.pacer) w.timers

IsFit-of : (p : Pacer) (t : Timer) (ts : List Timer) → All (IsFit p) ts → IsArmed t ts → IsFit p t
IsFit-of p t [] h m = elim m [ ]
IsFit-of p t (x ∷ xs) h (inl e) = ground (arith, h.0, e)
IsFit-of p t (x ∷ xs) h (inr m) = IsFit-of p t xs h.1 m

All-without :
    (p : Pacer) (g : ℕ) (ts : List Timer) → All (IsFit p) ts → All (IsFit p) (without g ts)
unfolding without
All-without p g [] a = tt
All-without p g (t ∷ ts) a = elim (Bool-cases (t.gen == g)) [
  | inl h ↦ simp h (All-without p g ts a.1)
  | inr h ↦ simp h (a.0, All-without p g ts a.1)
]

All-stop_flood :
    (p : Pacer) (in_time : Bool) (ts : List Timer) (old : Option ℕ) (t : Timer)
    → All (IsFit p) ts
    → IsFit p t
    → All (IsFit p) (act in_time ts (stop_flood old ++ (start_timer t ∷ [])))
All-stop_flood p in_time ts none t a h = (h, a)
All-stop_flood p true ts (some g) t a h = (h, All-without p g ts a)
All-stop_flood p false ts (some g) t a h = (h, a)

-- Older timers stay fit when the generation grows, or the pause ends earlier.
All-older :
    (p q : Pacer) (ts : List Timer)
    → p.flood_gen < q.flood_gen
    → All (IsFit p) ts
    → All (IsFit q) ts
All-older p q [] h a = tt
All-older p q (t ∷ ts) h a = (ground (arith, a.0, h), All-older p q ts h a.1)

All-shorter :
    (p q : Pacer) (ts : List Timer)
    → p.flood_gen ≡ q.flood_gen
    → q.flood_until ≤ p.flood_until
    → All (IsFit p) ts
    → All (IsFit q) ts
All-shorter p q [] h k a = tt
All-shorter p q (t ∷ ts) h k a = (ground (arith, a.0, h, k), All-shorter p q ts h k a.1)

-- What one step keeps: timers are fit, the generation grows by one at most, and a pause until `d`
-- lasts unless `d` has come.
record Keeps (d : ℕ) (w v : World) : Type 0 where
  fit : IsWorld v
  slow : v.pacer.flood_gen ≤ w.pacer.flood_gen + 1
  lasts : (d ≤ v.pacer.flood_until) ⊎ (d ≤ v.now)

pub set_deadline_cases :
    (p : Pacer) (now deadline : ℕ)
    → p.flood_gen + 1 < 2 ^ 64
    → (((deadline ≤ now) ⊎ (deadline ≤ p.flood_until)) × (set_deadline p now deadline ≡ (p, [])))
      ⊎ ((now < deadline)
          × (p.flood_until < deadline)
          × (set_deadline p now deadline ≡ (
            record p {
              flood_gen = p.flood_gen + 1;
              flood_until = deadline;
              flood_stop = some (p.flood_gen + 1);
            },
            stop_flood p.flood_stop
                ++ (start_timer (record { gen = p.flood_gen + 1; due = deadline }) ∷ []),
          )))
unfolding set_deadline
set_deadline_cases p now deadline small =
    elim (Bool-cases (leb deadline now || leb deadline p.flood_until)) [
      | inl h ↦ inl (ground (arith, h), simp h)
      | inr h ↦
          let gen : (p.flood_gen + 1) % 2 ^ 64 ≡ p.flood_gen + 1 = omega arith in
          inr (ground (arith, h), ground (arith, h), simp (h, gen))
    ]

abbrev replaced : Pacer → ℕ → Pacer
replaced p deadline = record p {
  flood_gen = p.flood_gen + 1;
  flood_until = deadline;
  flood_stop = some (p.flood_gen + 1);
}

park-Keeps :
    (in_time : Bool) (w : World) (deadline d : ℕ)
    → IsWorld w
    → w.pacer.flood_gen + 1 < 2 ^ 64
    → (d ≤ w.pacer.flood_until) ⊎ (d ≤ w.now)
    → Keeps d w (armed in_time w (set_deadline w.pacer w.now deadline))
park-Keeps in_time w deadline d v small l = elim (set_deadline_cases w.pacer w.now deadline small) [
  | inl (_, e) ↦ simp e (record { fit = v; slow = omega arith; lasts = l })
  | inr (_, longer, e) ↦ simp e (record {
    fit =
        All-stop_flood (replaced w.pacer deadline) in_time w.timers w.pacer.flood_stop
          (record { gen = w.pacer.flood_gen + 1; due = deadline })
          (All-older w.pacer (replaced w.pacer deadline) w.timers (omega arith) v)
          (inr (refl, omega arith));
    slow = omega arith;
    lasts = ground (arith, l, longer);
  })
]

same-Keeps :
    (w : World) (d : ℕ)
    → IsWorld w
    → (d ≤ w.pacer.flood_until) ⊎ (d ≤ w.now)
    → Keeps d w (record w { pacer = w.pacer })
same-Keeps w d v l = record { fit = v; slow = omega arith; lasts = l }

fire-Keeps :
    (w : World) (t : Timer) (d : ℕ)
    → IsWorld w
    → IsArmed t w.timers
    → t.due ≤ w.now
    → (d ≤ w.pacer.flood_until) ⊎ (d ≤ w.now)
    → Keeps d w (record w { pacer = fire w.pacer t; timers = without t.gen w.timers })
unfolding fire
fire-Keeps w t d v m due l =
    let f = IsFit-of w.pacer t w.timers v m in
    elim (Bool-cases (t.gen == w.pacer.flood_gen)) [
      | inl h ↦ simp h (record {
        fit =
            All-shorter w.pacer (record w.pacer { flood_until = 0; wakes = w.pacer.wakes + 1 })
              (without t.gen w.timers) refl (omega arith) (All-without w.pacer t.gen w.timers v);
        slow = omega arith;
        lasts = ground (arith, f, h, due, l);
      })
      | inr h ↦
          simp h
            (record { fit = All-without w.pacer t.gen w.timers v; slow = omega arith; lasts = l })
    ]

Step-Keeps :
    {w u : World} (d : ℕ)
    → Step w u
    → IsWorld w
    → w.pacer.flood_gen + 1 < 2 ^ 64
    → (d ≤ w.pacer.flood_until) ⊎ (d ≤ w.now)
    → Keeps d w u
Step-Keeps {w} d (parks in_time deadline) v small l = park-Keeps in_time w deadline d v small l
Step-Keeps {w} d (reports in_time seconds) v small l = elim (Bool-cases (leb_ℤ seconds (pos 0))) [
  | inl h ↦ unfold report_flood in simp h (same-Keeps w d v l)
  | inr h ↦ unfold report_flood park_for in simp h (park-Keeps in_time w _ d v small l)
]
Step-Keeps {w} d (fires t m due) v small l = fire-Keeps w t d v m due l
Step-Keeps {w} d (passes later h) v small l = record {
  fit = v;
  slow = omega arith;
  lasts = ground (arith, l, h);
}

pub run_keeps :
    {w u : World} {n : ℕ} (d : ℕ)
    → Run w n u
    → IsWorld w
    → w.pacer.flood_gen + n < 2 ^ 64
    → (d ≤ w.pacer.flood_until) ⊎ (d ≤ w.now)
    → IsWorld u
      × (u.pacer.flood_gen ≤ w.pacer.flood_gen + n)
      × ((d ≤ u.pacer.flood_until) ⊎ (d ≤ u.now))
run_keeps d start v small l = (v, omega arith, l)
run_keeps d (next {n} {u} r s) v small l =
    let (fit, slow, lasts) = run_keeps d r v (omega arith) l in
    let k = Step-Keeps d s fit (omega (arith, slow)) lasts in
    (k.fit, omega (arith, slow, k.slow), k.lasts)

parked_until :
    (in_time : Bool) (w : World) (deadline : ℕ)
    → w.pacer.flood_gen + 1 < 2 ^ 64
    → let u = armed in_time w (set_deadline w.pacer w.now deadline) in
      (deadline ≤ u.pacer.flood_until) ⊎ (deadline ≤ u.now)
parked_until in_time w deadline small = elim (set_deadline_cases w.pacer w.now deadline small) [
  | inl (early, e) ↦ simp e (ground (arith, early))
  | inr (_, _, e) ↦ simp e (inl (omega arith))
]

-- No waiter is let go early: once the pacer is parked until a deadline, whatever reports, parks and
-- timers, late ones of replaced pauses included, come after it, a waiter that looks before the
-- deadline keeps waiting. (Fewer than 2 ^ 64 steps, since the generation is a uint64.)
pub await_flood_parked :
    (in_time : Bool) (w : World) (deadline : ℕ) (n : ℕ) (u : World)
    → IsWorld w
    → w.pacer.flood_gen + 1 + n < 2 ^ 64
    → Run (armed in_time w (set_deadline w.pacer w.now deadline)) n u
    → u.now < deadline
    → await_flood u.pacer u.now ≡ false
unfolding await_flood
await_flood_parked in_time w deadline n u v small r early =
    let k = park-Keeps in_time w deadline 0 v (omega arith) (inr (omega arith)) in
    let (_, _, lasts) =
      run_keeps deadline r k.fit (omega (arith, k.slow))
        (parked_until in_time w deadline (omega arith)) in
    ground (arith, lasts, early)
