-- ===== src/Download/Ladder/Ends.antt =====
-- The retry ladder ends every item in exactly one way.
use teleparse.Base.{
  if◌then◌else◌, ℕ, zero, suc, ◌+◌, ◌-◌, ◌<◌, ◌≤◌, ◌||◌, Option, none, some, ◌≡◌, refl, ◌∙◌, sym,
  subst, ltb, String, pos_part, Bool-cases, Option-cases, inl, inr, arith, ℤ, ◌⊎◌,
}
use teleparse.Base.Results.{◌>>=◌, Result, ok, Result-cases, bind_ok}
use teleparse.Pace.{should_park}
use teleparse.Scan.Retry.{is_dead_transport}
use teleparse.Store.Media.{MediaItem}
use teleparse.Download.{
  Fault, hardlink_mode, is_cancellation_err, is_fatal_tg_error, fatal_takeout_reason, is_rpc,
}
use teleparse.Download.Settle.{
  World, note_attempt, settle_done, fail_item, interrupt_item, settle_interruptible,
}
use teleparse.Download.Outcomes.{
  row_of, ends_of, Ends, downloaded, Held, Ends-from, fail_item-Ends, interrupt_item-Ends,
  settle_interruptible-Ends, park_run-Ends, note_attempt-Held, note_attempt_keeps,
  settle_done-Recorded,
}
use teleparse.Download.Ladder.{
  Env, Handled, stopped, go_on, Linking, linked, exists, refused, link_or_copy, finish_done,
  verify_and_promote, note_flood, handle_refetch, handle_flood_or_refetch, handle_failure,
  count_retry, attempt_once, check, check_size, after_failure, exhausted, try_once, ladder,
  download_with_retries,
}

abbrev keep_ok : World → Result Fault World
keep_ok w = ok w

-- A link changes at most the number of copies.
pub link_or_copy_keeps :
    (item : MediaItem) (l : Linking) (w w' : World)
    → link_or_copy l w ≡ ok w'
    → Held item w
    → Held item w' × (ends_of w' ≡ ends_of w) × (w.store_errors ≤ w'.store_errors)
unfolding link_or_copy row_of
link_or_copy_keeps item linked w w' e h =
    let same_world : w ≡ w' = cc in
    subst (λ (v : World). Held item v × (ends_of v ≡ ends_of w) × (w.store_errors ≤ v.store_errors))
      same_world (h, refl, omega arith)
link_or_copy_keeps item exists w w' e h =
    let same_world : w ≡ w' = cc in
    subst (λ (v : World). Held item v × (ends_of v ≡ ends_of w) × (w.store_errors ≤ v.store_errors))
      same_world (h, refl, omega arith)
link_or_copy_keeps item (refused (some x)) w w' e h = cc
link_or_copy_keeps item (refused none) w w' e h =
    let copied : World = record w { res = record w.res { link_copies = w.res.link_copies + 1 } } in
    let same_world : copied ≡ w' = cc in
    subst (λ (v : World). Held item v × (ends_of v ≡ ends_of w) × (w.store_errors ≤ v.store_errors))
      same_world (record { row = h.row; found = h.found; claimed = h.claimed }, refl, omega arith)

module _ {L : Type 0} (env : Env L) (item : MediaItem) (final_path : String) where
  -- The row is still claimed, and nothing is settled.
  abbrev Kept : World → World → Type 0
  Kept w w' = Held item w' × (ends_of w' ≡ ends_of w) × (w.store_errors ≤ w'.store_errors)

  Kept-refl : (w : World) → Held item w → Kept w w
  Kept-refl w h = (h, refl, omega arith)

  abbrev Fine : World → Handled L → Type 0
  Fine w (stopped w') = Ends item final_path w w'
  Fine w (go_on w' location) = Kept w w'

  -- The loop comes to an end, and the item with it.
  abbrev Settles : World → Option World → Type 0
  Settles w o = (w' : World) × (o ≡ some w') × Ends item final_path w w'

  handle_refetch-Fine :
      (w : World) (e : Fault) (n : ℕ) (location : L)
      → Held item w
      → Fine w (handle_refetch env item final_path w e n location)
  unfolding handle_refetch
  handle_refetch-Fine w e n location h = elim (Option-cases env.refetch) [
    | inl f ↦ simp (f, handle_refetch) (Kept-refl w h)
    | inr (ask, f) ↦ elim (Bool-cases (is_rpc e env.file_reference_expired)) [
      | inr g ↦ simp (f, g, handle_refetch) (Kept-refl w h)
      | inl g ↦ elim (Result-cases (ask n)) [
        | inl (fresh, k) ↦ simp (f, g, k, handle_refetch) (Kept-refl w h)
        | inr (x, k) ↦ elim (Bool-cases (is_fatal_tg_error x)) [
          | inl fatal ↦
              simp (f, g, k, fatal, handle_refetch)
                (fail_item-Ends item final_path (env.clock n) w x n h)
          | inr mild ↦ simp (f, g, k, mild, handle_refetch) (Kept-refl w h)
        ]
      ]
    ]
  ]

  note_flood-Kept :
      (w : World) (n : ℕ) (seconds : ℤ)
      → Held item w
      → Kept w (note_flood env item final_path w n seconds)
  unfolding note_flood row_of
  note_flood-Kept w n seconds h =
      (record { row = h.row; found = h.found; claimed = h.claimed }, refl, omega arith)

  handle_flood_or_refetch-Fine :
      (w : World) (e : Fault) (n : ℕ) (location : L)
      → Held item w
      → Fine w (handle_flood_or_refetch env item final_path w e n location)
  unfolding handle_flood_or_refetch
  handle_flood_or_refetch-Fine w e n location h = elim (Option-cases e.flood_wait) [
    | inl f ↦ simp (f, handle_flood_or_refetch) (handle_refetch-Fine w e n location h)
    | inr (seconds, f) ↦
        let w' = note_flood env item final_path w n seconds in
        let (h', same, more) = note_flood-Kept w n seconds h in
        elim (Bool-cases (should_park w'.pacer seconds)) [
          | inl g ↦
              simp (f, g, handle_flood_or_refetch)
                (Ends-from item final_path w w' _ same more
                  (park_run-Ends item final_path (env.clock n) env.run_id w' e n seconds h'))
          | inr g ↦ simp (f, g, handle_flood_or_refetch) (h', same, more)
        ]
  ]

  handle_failure-Fine :
      (w : World) (e : Fault) (n : ℕ) (location : L)
      → Held item w
      → Fine w (handle_failure env item final_path w e n location)
  unfolding handle_failure
  handle_failure-Fine w e n location h =
      let t = env.clock n in
      elim (Bool-cases (env.run_error n || w.canceled)) [
        | inl f ↦ elim (Bool-cases (is_cancellation_err e)) [
          | inl g ↦ simp (f, g, handle_failure) (interrupt_item-Ends item final_path t w e h)
          | inr g ↦ simp (f, g, handle_failure) (fail_item-Ends item final_path t w e n h)
        ]
        | inr f ↦ elim (Bool-cases (is_fatal_tg_error e)) [
          | inl g ↦
              simp (f, g, handle_failure)
                (fail_item-Ends item final_path t w (fatal_takeout_reason e)
                  (pos_part env.cfg.retry_max) h)
          | inr g ↦ simp (f, g, handle_failure) (handle_flood_or_refetch-Fine w e n location h)
        ]
      ]

  count_retry-Kept :
      (w : World) (n : ℕ) → Held item w → Kept w (count_retry env item final_path w n)
  unfolding count_retry row_of
  count_retry-Kept w n h = elim (Bool-cases (ltb n (pos_part env.cfg.retry_max))) [
    | inl f ↦
        simp (f, count_retry)
          (record { row = h.row; found = h.found; claimed = h.claimed }, refl, omega arith)
    | inr f ↦ simp (f, count_retry) (Kept-refl w h)
  ]

  exhausted-Settles :
      (w : World) (n : ℕ) (e : Fault)
      → Held item w
      → Settles w (exhausted env item final_path w n (some e))
  unfolding exhausted
  exhausted-Settles w n e h =
      elim (Bool-cases (is_cancellation_err e || is_dead_transport e.transport)) [
        | inl f ↦ (
          interrupt_item (env.clock n) item w e,
          simp (f, exhausted),
          interrupt_item-Ends item final_path (env.clock n) w e h,
        )
        | inr f ↦ (
          fail_item (env.clock n) item w e n,
          simp (f, exhausted),
          fail_item-Ends item final_path (env.clock n) w e n h,
        )
      ]

  after_failure-Settles :
      (again : World → ℤ → L → Option World) (w : World) (e : Fault) (n : ℕ) (offset : ℤ)
      (handled : Handled L)
      → ((w' : World) (offset' : ℤ) (location' : L)
          → Held item w'
          → Settles w' (again w' offset' location'))
      → Fine w handled
      → Settles w (after_failure env item final_path again e n offset handled)
  unfolding after_failure
  after_failure-Settles again w e n offset (stopped w') goes fine = (w', refl, fine)
  after_failure-Settles again w e n offset (go_on w1 location) goes (h, same, more) =
      let t = env.clock n in
      let noted = note_attempt t item w1 e n in
      let (noted_same, noted_more) = note_attempt_keeps item final_path t w1 e n in
      let (held, counted, counted_more) =
        count_retry-Kept noted n (note_attempt-Held item final_path t w1 e n h) in
      let w2 = count_retry env item final_path noted n in
      let tallies : ends_of w2 ≡ ends_of w = counted ∙ noted_same ∙ same in
      let errors : w.store_errors ≤ w2.store_errors =
        omega (arith, more, noted_more, counted_more) in
      let next_offset : ℤ = elim (env.part_size n) [ some size ↦ size | none ↦ offset ] in
      elim (Option-cases (env.backoff n)) [
        | inr (x, f) ↦ (
          settle_interruptible t item w2 x n,
          simp (f, after_failure),
          Ends-from item final_path w w2 _ tallies errors
              (settle_interruptible-Ends item final_path t w2 x n held),
        )
        | inl f ↦ elim (Option-cases (env.wait n)) [
          | inr (x, g) ↦ (
            settle_interruptible t item w2 x n,
            simp (f, g, after_failure),
            Ends-from item final_path w w2 _ tallies errors
                (settle_interruptible-Ends item final_path t w2 x n held),
          )
          | inl g ↦
              let (w', e', ends) = goes w2 next_offset location held in
              (
                w',
                simp (f, g, after_failure) e',
                Ends-from item final_path w w2 w' tallies errors ends,
              )
        ]
      ]

  -- A promotion that succeeds ends in `finish_done`, in hardlink mode after the link.
  promoted :
      (w w' : World) (n : ℕ)
      → verify_and_promote env item final_path w n ≡ ok w'
      → Held item w
      → (sha : Option String) × (size : ℤ) × (w1 : World) × Kept w w1
        × (w' ≡ finish_done env item final_path w1 n sha size)
  unfolding verify_and_promote
  promoted w w' n e h =
      let (_, _, r1) = bind_ok (check (env.disk n).sync) _ w' e in
      let (size, _, r2) = bind_ok (env.disk n).stat _ w' r1 in
      let (_, _, r3) = bind_ok (check_size env.size_mismatch item.size size) _ w' r2 in
      let (sha, _, r4) =
        bind_ok (if env.cfg.sha256 then ((env.disk n).hash >>= λ s. ok (some s)) else ok none) _ w'
          r3 in
      let (_, _, r5) = bind_ok (check (env.disk n).make_dir) _ w' r4 in
      let (_, _, r6) = bind_ok (check (env.disk n).rename) _ w' r5 in
      let (w1, link_ok, r7) =
        bind_ok (if hardlink_mode env.cfg then link_or_copy (env.disk n).link w else ok w) _ w'
          r6 in
      (sha, size, w1, after_link w1 link_ok, cc)
    where
      after_link :
          (w1 : World)
          → (if hardlink_mode env.cfg then link_or_copy (env.disk n).link w else ok w) ≡ ok w1
          → Kept w w1
      after_link w1 link_ok = elim (Bool-cases (hardlink_mode env.cfg)) [
        | inl f ↦ link_or_copy_keeps item (env.disk n).link w w1 (simp (f) at link_ok) h
        | inr f ↦
            let shown : keep_ok w ≡ keep_ok w1 = simp (f) at link_ok in
            let same_world : w ≡ w1 = cc in subst (Kept w) same_world (Kept-refl w h)
      ]

  finish_done-Ends :
      (w : World) (n : ℕ) (sha : Option String) (size : ℤ)
      → Held item w
      → Ends item final_path w (finish_done env item final_path w n sha size)
  unfolding finish_done settle_done
  finish_done-Ends w n sha size h =
      downloaded (settle_done-Recorded item final_path (env.clock n) w final_path sha _ h) refl

  try_once-Ends :
      (w w' : World) (n : ℕ) (offset : ℤ) (location : L)
      → try_once env item final_path w n offset location ≡ ok w'
      → Held item w
      → Ends item final_path w w'
  unfolding try_once
  try_once-Ends w w' n offset location e h =
      elim (Option-cases (attempt_once env item final_path n offset location)) [
        | inr (x, f) ↦ let shown = simp (f, try_once) at e in cc
        | inl f ↦
            let (sha, size, w1, (h1, same, more), done) =
              promoted w w' n (simp (f, try_once) at e) h in
            subst (Ends item final_path w) (sym done)
              (Ends-from item final_path w w1 _ same more (finish_done-Ends w1 n sha size h1))
      ]

  ladder-Settles :
      (left : ℕ) (w : World) (n : ℕ) (offset : ℤ) (location : L) (last : Option Fault)
      → (0 < left) ⊎ ((e : Fault) × (last ≡ some e))
      → Held item w
      → Settles w (ladder env item final_path left w n offset location last)
  unfolding ladder
  ladder-Settles zero w n offset location last (inl none_left) h = absurd (omega arith)
  ladder-Settles zero w n offset location last (inr (e, f)) h = simp (f) (exhausted-Settles w n e h)
  ladder-Settles (suc left) w n offset location last more h =
      let next = suc n in
      elim (Result-cases (try_once env item final_path w next offset location)) [
        | inl (w', f) ↦ (w', simp (f, ladder), try_once-Ends w w' next offset location f h)
        | inr (e, f) ↦
            let (w', e', ends) =
              after_failure-Settles (λ w1 o l. ladder env item final_path left w1 next o l (some e))
                w e next offset (handle_failure env item final_path w e next location)
                (λ w1 o l held. ladder-Settles left w1 next o l (some e) (inr (e, refl)) held)
                (handle_failure-Fine w e next location h) in
            (w', simp (f, ladder) e', ends)
      ]

  -- A claimed item with attempts left is always settled, whatever the network, the disk, the store,
  -- the clock and the pauses answer: the loop ends without asking a nil error for its text.
  pub download_settles :
      (w : World) (offset : ℤ) (location : L)
      → item.attempts < pos_part env.cfg.retry_max
      → Held item w
      → (w' : World) × (download_with_retries env item final_path w offset location ≡ some w')
        × Ends item final_path w w'
  unfolding download_with_retries
  download_settles w offset location few h =
      ladder-Settles (pos_part env.cfg.retry_max - item.attempts) w item.attempts offset location
        none (inl (omega (arith, few))) h
