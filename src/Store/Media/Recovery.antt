-- ===== src/Store/Media/Recovery.antt =====
-- What becomes of the rows that a crash leaves in the middle of a download.
use teleparse.Base.{
  true, false, some, List, [], ◌∷◌, ◌≡◌, refl, ◌∙◌, ap, ℕ, ◌≤◌, ◌<◌, ℤ, same_ℤ_iff, String, All,
  All-imp, Bool-cases, inl, inr, arith, if◌then◌else◌,
}
use mathlib.Core.Option
use teleparse.Base.Results.{ok}
use teleparse.Store.Table.{
  query_row, update_where, All-update_where, query_row-update_where, query_row_found,
}
use teleparse.Store.Media.{
  MediaItem, at_key, keyed_as, has_status, of_chat, status_downloading, status_queued, set_claimed,
  claimable, Faults, claim_pending, set_attempt, set_interrupted, set_reset, record_attempt,
  mark_interrupted, reset_downloading,
}
use teleparse.Store.Media.Steps.{
  set_interrupted-KeepsIdentity, set_reset-KeepsIdentity, set_attempt-KeepsIdentity,
  claim_pending_keeps,
}
use teleparse.Store.Media.Unique.{at_key_parts, at_key-KeepsIdentity, query_row-at_key}
use teleparse.Store.Media.Claims.{claim_pending_skips}

-- The attempts of this row are used up.
abbrev Spent : ℤ → ℤ → ℤ → ℕ → List MediaItem → Type 0
Spent c m i n rows = All (λ r. at_key c m i r ≡ true → n ≤ r.attempts) rows

Spent-record_attempt :
    (rows : List MediaItem) (now text : String) (c m i : ℤ) (n k : ℕ)
    → n ≤ k
    → Spent c m i n (record_attempt rows now c m i text k)
unfolding record_attempt update_where set_attempt at_key
Spent-record_attempt [] now text c m i n k used = tt
Spent-record_attempt (r ∷ rows) now text c m i n k used =
    let rest = Spent-record_attempt rows now text c m i n k used in
    elim (Bool-cases (at_key c m i r)) [
      | inl e ↦ simp (e) ((λ h. used), rest)
      | inr e ↦ simp (e) ((λ h. cc), rest)
    ]

Spent-reset_downloading :
    (rows : List MediaItem) (now : String) (c m i : ℤ) (n : ℕ)
    → Spent c m i n rows
    → Spent c m i n (reset_downloading rows now).0
unfolding reset_downloading set_reset at_key
Spent-reset_downloading rows now c m i n =
    All-update_where (λ r. at_key c m i r ≡ true → n ≤ r.attempts) (has_status status_downloading)
      (set_reset now) rows
      λ r h. elim (Bool-cases (has_status status_downloading r)) [
        | inl e ↦ simp (e) h
        | inr e ↦ simp (e) h
      ]

-- A later claim, with the answers of the driver: the time, the chat and the size of the batch.
pub record Claim : Type 0 where
  pub faults : Faults String
  pub now : String
  pub chat : ℤ
  pub limit : ℕ

-- The table after claims that allow so many attempts.
abbrev pub claims : ℕ → List Claim → List MediaItem → List MediaItem
claims n [] rows = rows
claims n (c ∷ cs) rows = claims n cs (claim_pending c.faults rows c.now c.chat c.limit n).0

Spent-set_claimed :
    (c m i : ℤ) (n : ℕ) (now : String) (item : MediaItem) (rows : List MediaItem)
    → Spent c m i n rows
    → Spent c m i n (update_where (keyed_as item) (set_claimed now) rows)
unfolding set_claimed at_key
Spent-set_claimed c m i n now item rows =
    All-update_where (λ r. at_key c m i r ≡ true → n ≤ r.attempts) (keyed_as item) (set_claimed now)
      rows λ r h. elim (Bool-cases (keyed_as item r)) [ inl e ↦ simp (e) h | inr e ↦ simp (e) h ]

Spent-claims :
    (c m i : ℤ) (n : ℕ) (cs : List Claim) (rows : List MediaItem)
    → Spent c m i n rows
    → Spent c m i n (claims n cs rows)
Spent-claims c m i n [] rows h = h
Spent-claims c m i n (k ∷ cs) rows h =
    Spent-claims c m i n cs (claim_pending k.faults rows k.now k.chat k.limit n).0 (
      claim_pending_keeps (Spent c m i n) (Spent-set_claimed c m i n) k.faults rows k.now k.chat
        k.limit n h)

-- An attempt is recorded, the program dies, and the next one resets the rows.
abbrev pub crashed : List MediaItem → String → String → ℤ → ℤ → ℤ → String → ℕ → List MediaItem
crashed rows t1 t2 c m i text k = (reset_downloading (record_attempt rows t1 c m i text k) t2).0

-- After an attempt is recorded for a row being downloaded that is the last one allowed, a crash and
-- the reset that follows it leave the row queued with all its attempts used up, and no claim, after
-- whatever other claims, returns it.
pub crash_exhausted :
    (rows : List MediaItem) (t1 t2 text : String) (c m i : ℤ) (n k : ℕ) (r : MediaItem)
    (cs : List Claim) (faults : Faults String) (t3 : String) (chat : ℤ) (limit : ℕ)
    (claimed : List MediaItem)
    → n ≤ k
    → query_row (at_key c m i) rows ≡ some r
    → r.status ≡ status_downloading
    → (claim_pending faults (claims n cs (crashed rows t1 t2 c m i text k)) t3 chat limit n).1
      ≡ ok claimed
    → (r' : MediaItem) × (query_row (at_key c m i) (crashed rows t1 t2 c m i text k) ≡ some r')
      × (r'.status ≡ status_queued)
      × (r'.attempts ≡ k)
      × All (λ b. at_key c m i b ≡ false) claimed
unfolding claimable record_attempt reset_downloading set_attempt set_reset has_status
crash_exhausted rows t1 t2 text c m i n k r cs faults t3 chat limit claimed used found down e =
    let after = claims n cs (crashed rows t1 t2 c m i text k) in
    let tried = set_attempt t1 text k r in
    let noted : query_row (at_key c m i) (record_attempt rows t1 c m i text k) ≡ some tried =
      query_row-at_key (set_attempt t1 text k) (set_attempt-KeepsIdentity t1 text k) c m i rows r
        found in
    let reset : query_row (at_key c m i) (crashed rows t1 t2 c m i text k)
        ≡ some (set_reset t2 tried) =
      query_row-update_where (at_key c m i) (has_status status_downloading) (set_reset t2)
        (record_attempt rows t1 c m i text k)
        (at_key-KeepsIdentity (set_reset t2) (set_reset-KeepsIdentity t2) c m i)
      ∙ ap (Option.map (λ x. if has_status status_downloading x then set_reset t2 x else x)) noted
      ∙ simp (down) in
    let spent : Spent c m i n after = Spent-claims c m i n cs _ (
      Spent-reset_downloading (record_attempt rows t1 c m i text k) t2 c m i n
        (Spent-record_attempt rows t1 text c m i n k used)) in
    (
      set_reset t2 tried,
      reset,
      refl,
      refl,
      claim_pending_skips faults after t3 chat limit n claimed c m i e (
          All-imp (λ x. at_key c m i x ≡ true → n ≤ x.attempts)
            (λ x. at_key c m i x ≡ true → claimable chat n x ≡ false) after
            (λ x many_at here. let many = many_at here in ground (arith, many)) spent),
    )

-- An interrupted row, after the reset, is queued again with all its attempts, and claimable.
pub interrupt_resumes :
    (rows : List MediaItem) (t1 t2 text : String) (c m i : ℤ) (n : ℕ) (r : MediaItem)
    → 0 < n
    → query_row (at_key c m i) rows ≡ some r
    → (r' : MediaItem) × (query_row
          (at_key c m i)
          (reset_downloading (mark_interrupted rows t1 c m i text) t2).0
        ≡ some r')
      × (claimable c n r' ≡ true)
unfolding mark_interrupted reset_downloading set_interrupted set_reset claimable of_chat has_status
interrupt_resumes rows t1 t2 text c m i n r positive found =
    let held = set_interrupted t1 text r in
    let free = set_reset t2 held in
    let here = query_row_found (at_key c m i) rows r found in
    let (chat, _, _) = at_key_parts c m i r here in
    let of_chat_c = (same_ℤ_iff r.chat_id c).1 chat in
    let stopped : query_row (at_key c m i) (mark_interrupted rows t1 c m i text) ≡ some held =
      query_row-update_where (at_key c m i) (at_key c m i) (set_interrupted t1 text) rows (
        at_key-KeepsIdentity (set_interrupted t1 text) (set_interrupted-KeepsIdentity t1 text) c m
          i)
      ∙ simp (found, here) in
    (
      free,
      query_row-update_where (at_key c m i) (has_status status_downloading) (set_reset t2)
            (mark_interrupted rows t1 c m i text)
            (at_key-KeepsIdentity (set_reset t2) (set_reset-KeepsIdentity t2) c m i)
          ∙ ap (Option.map (λ x. if has_status status_downloading x then set_reset t2 x else x))
              stopped,
      simp (of_chat_c) (ground arith),
    )
