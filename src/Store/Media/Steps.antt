-- ===== src/Store/Media/Steps.antt =====
-- The operations that write the media table, as values, and what they do to it in any order.
use teleparse.Base.{
  ℕ, subst, Bool, some, Option, none, List, [], ◌∷◌, ◌≡◌, refl, ℤ, String, Option-cases, inl, inr,
}
use teleparse.Base.Results.{Result, ok, Result-cases}
use teleparse.Store.Table.{query_row, update_where, insert_row}
use teleparse.Store.Media.{
  MediaItem, keyed_as, filed_as, refresh, upsert_media, set_claimed, claim_rows, with_tx, Faults,
  claim_pending, claim_body, pending_rows, set_done, set_attempt, set_failed, set_interrupted,
  set_requeued, set_reset, mark_done, record_attempt, mark_failed, mark_interrupted, requeue_media,
  reset_downloading,
}

pub data Op : Type 0 where
  upsert : String → MediaItem → Op
  claim : Faults String → String → ℤ → ℕ → ℕ → Op
  done : String → ℤ → ℤ → ℤ → String → Option String → Op
  attempt : String → ℤ → ℤ → ℤ → String → ℕ → Op
  fail : String → ℤ → ℤ → ℤ → String → ℕ → Op
  interrupt : String → ℤ → ℤ → ℤ → String → Op
  requeue : String → ℤ → ℤ → ℤ → Op
  reset : String → Op

abbrev pub apply : Op → List MediaItem → List MediaItem
apply (upsert now item) rows = (upsert_media rows now item).0
apply (claim faults now chat limit max_attempts) rows =
    (claim_pending faults rows now chat limit max_attempts).0
apply (done now c m i path sha) rows = mark_done rows now c m i path sha
apply (attempt now c m i text n) rows = record_attempt rows now c m i text n
apply (fail now c m i text n) rows = mark_failed rows now c m i text n
apply (interrupt now c m i text) rows = mark_interrupted rows now c m i text
apply (requeue now c m i) rows = requeue_media rows now c m i
apply (reset now) rows = (reset_downloading rows now).0

unfoldable pub run : List Op → List MediaItem → List MediaItem
run [] rows = rows
run (op ∷ ops) rows = run ops (apply op rows)

-- The columns that no update writes.
pub record KeepsIdentity (set : MediaItem → MediaItem) : Type 0 where
  pub chat : (r : MediaItem) → (set r).chat_id ≡ r.chat_id
  pub message : (r : MediaItem) → (set r).message_id ≡ r.message_id
  pub index : (r : MediaItem) → (set r).media_index ≡ r.media_index
  pub class : (r : MediaItem) → (set r).media_class ≡ r.media_class
  pub file : (r : MediaItem) → (set r).media_id ≡ r.media_id

-- Every update of the source leaves these columns.
pub set_claimed-KeepsIdentity : (now : String) → KeepsIdentity (set_claimed now)
unfolding set_claimed
set_claimed-KeepsIdentity now = record {
  chat = λ r. refl;
  message = λ r. refl;
  index = λ r. refl;
  class = λ r. refl;
  file = λ r. refl;
}

pub refresh-KeepsIdentity : (item : MediaItem) → KeepsIdentity (refresh item)
unfolding refresh
refresh-KeepsIdentity item = record {
  chat = λ r. refl;
  message = λ r. refl;
  index = λ r. refl;
  class = λ r. refl;
  file = λ r. refl;
}

pub set_done-KeepsIdentity :
    (now path : String) (sha : Option String) → KeepsIdentity (set_done now path sha)
unfolding set_done
set_done-KeepsIdentity now path sha = record {
  chat = λ r. refl;
  message = λ r. refl;
  index = λ r. refl;
  class = λ r. refl;
  file = λ r. refl;
}

pub set_attempt-KeepsIdentity : (now text : String) (n : ℕ) → KeepsIdentity (set_attempt now text n)
unfolding set_attempt
set_attempt-KeepsIdentity now text n = record {
  chat = λ r. refl;
  message = λ r. refl;
  index = λ r. refl;
  class = λ r. refl;
  file = λ r. refl;
}

pub set_failed-KeepsIdentity : (now text : String) (n : ℕ) → KeepsIdentity (set_failed now text n)
unfolding set_failed
set_failed-KeepsIdentity now text n = record {
  chat = λ r. refl;
  message = λ r. refl;
  index = λ r. refl;
  class = λ r. refl;
  file = λ r. refl;
}

pub set_interrupted-KeepsIdentity : (now text : String) → KeepsIdentity (set_interrupted now text)
unfolding set_interrupted
set_interrupted-KeepsIdentity now text = record {
  chat = λ r. refl;
  message = λ r. refl;
  index = λ r. refl;
  class = λ r. refl;
  file = λ r. refl;
}

pub set_requeued-KeepsIdentity : (now : String) → KeepsIdentity (set_requeued now)
unfolding set_requeued
set_requeued-KeepsIdentity now = record {
  chat = λ r. refl;
  message = λ r. refl;
  index = λ r. refl;
  class = λ r. refl;
  file = λ r. refl;
}

pub set_reset-KeepsIdentity : (now : String) → KeepsIdentity (set_reset now)
unfolding set_reset
set_reset-KeepsIdentity now = record {
  chat = λ r. refl;
  message = λ r. refl;
  index = λ r. refl;
  class = λ r. refl;
  file = λ r. refl;
}

-- What holds of a table whatever is written, if updates that keep the identity columns and inserts
-- of rows with a new key and a new file preserve it.
pub record Closed (P : List MediaItem → Type 0) : Type 0 where
  pub update :
      (p : MediaItem → Bool) (set : MediaItem → MediaItem) (rows : List MediaItem)
      → KeepsIdentity set
      → P rows
      → P (update_where p set rows)
  pub insert :
      (item : MediaItem) (rows : List MediaItem)
      → query_row (keyed_as item) rows ≡ none
      → query_row (filed_as item) rows ≡ none
      → P rows
      → P (insert_row item rows)

-- What the claim of each row keeps, the claiming transaction keeps.
module _ (P : List MediaItem → Type 0)
    (one : (now : String) (item : MediaItem) (rows : List MediaItem)
      → P rows
      → P (update_where (keyed_as item) (set_claimed now) rows)) where
  pub claim_rows_keeps :
      {E : Type 0} (fails : MediaItem → Option E) (now : String) (rows items : List MediaItem)
      (out : List MediaItem × List MediaItem)
      → claim_rows fails now rows items ≡ ok out
      → P rows
      → P out.0
  unfolding claim_rows
  claim_rows_keeps fails now rows [] out e h = subst P (cc) h
  claim_rows_keeps fails now rows (item ∷ items) out e h =
      let next = update_where (keyed_as item) (set_claimed now) rows in
      let kept = one now item rows h in
      elim (Option-cases (fails item)) [
        | inr (x, f) ↦ let shown = simp (f, claim_rows) at e in cc
        | inl f ↦ elim (Result-cases (claim_rows fails now next items)) [
          | inr (x, g) ↦ let shown = simp (f, g, claim_rows) at e in cc
          | inl (deeper, g) ↦
              subst P (let shown = simp (f, g, claim_rows) at e in cc (shown))
                (claim_rows_keeps fails now next items deeper g kept)
        ]
      ]

  with_tx_keeps :
      {E A : Type 0} (begin commit : Option E)
      (body : List MediaItem → Result E (List MediaItem × A)) (rows : List MediaItem)
      → ((out : List MediaItem × A) → body rows ≡ ok out → P out.0)
      → P rows
      → P (with_tx begin commit body rows).0
  unfolding with_tx
  with_tx_keeps (some e) commit body rows kept h = h
  with_tx_keeps none commit body rows kept h = elim (Result-cases (body rows)) [
    | inr (x, f) ↦ simp (f, with_tx) h
    | inl (out, f) ↦ elim (Option-cases commit) [
      | inr (x, g) ↦ simp (f, g, with_tx) h
      | inl g ↦ simp (f, g, with_tx) (kept out f)
    ]
  ]

  claim_body_keeps :
      (faults : Faults String) (rows : List MediaItem) (now : String) (chat : ℤ) (limit n : ℕ)
      (out : List MediaItem × List MediaItem)
      → claim_body faults now chat limit n rows ≡ ok out
      → P rows
      → P out.0
  unfolding claim_body
  claim_body_keeps faults rows now chat limit n out e h = elim (Option-cases faults.select) [
    | inr (x, f) ↦ let shown = simp (f, claim_body) at e in cc
    | inl f ↦
        claim_rows_keeps faults.claim now rows (pending_rows rows chat limit n) out
          (simp (f, claim_body) at e) h
  ]

  pub claim_pending_keeps :
      (faults : Faults String) (rows : List MediaItem) (now : String) (chat : ℤ) (limit n : ℕ)
      → P rows
      → P (claim_pending faults rows now chat limit n).0
  unfolding claim_pending
  claim_pending_keeps faults rows now chat limit n h =
      with_tx_keeps faults.begin faults.commit (claim_body faults now chat limit n) rows
        (λ out e. claim_body_keeps faults rows now chat limit n out e h) h

-- What a refresh and an insert keep, an upsert keeps.
module _ (P : List MediaItem → Type 0) where
  pub upsert_media_keeps :
      (rows : List MediaItem) (now : String) (item : MediaItem)
      → ((rs : List MediaItem)
          → P rs
          → P (
              update_where
                (keyed_as (record item { updated_at = now }))
                (refresh (record item { updated_at = now }))
                rs))
      → ((rs : List MediaItem)
          → query_row (keyed_as (record item { updated_at = now })) rs ≡ none
          → query_row (filed_as (record item { updated_at = now })) rs ≡ none
          → P rs
          → P (insert_row (record item { updated_at = now }) rs))
      → P rows
      → P (upsert_media rows now item).0
  unfolding upsert_media
  upsert_media_keeps rows now item refreshed inserted h =
      let stamped = record item { updated_at = now } in
      elim (Option-cases (query_row (keyed_as stamped) rows)) [
        | inr (r, f) ↦ simp (f, upsert_media) (refreshed rows h)
        | inl f ↦ elim (Option-cases (query_row (filed_as stamped) rows)) [
          | inr (r, g) ↦ simp (f, g, upsert_media) h
          | inl g ↦ simp (f, g, upsert_media) (inserted rows f g h)
        ]
      ]

module _ (P : List MediaItem → Type 0) (closed : Closed P) where
  pub apply-Closed : (op : Op) (rows : List MediaItem) → P rows → P (apply op rows)
  unfolding mark_done record_attempt mark_failed mark_interrupted requeue_media reset_downloading
  apply-Closed (upsert now item) rows h =
      upsert_media_keeps P rows now item
        (λ rs.
          closed.update _ (refresh (record item { updated_at = now })) rs (refresh-KeepsIdentity _))
        (closed.insert (record item { updated_at = now })) h
  apply-Closed (claim faults now chat limit n) rows h =
      claim_pending_keeps P
        (λ t r rs. closed.update (keyed_as r) (set_claimed t) rs (set_claimed-KeepsIdentity t))
        faults rows now chat limit n h
  apply-Closed (done now c m i path sha) rows h =
      closed.update _ (set_done now path sha) rows (set_done-KeepsIdentity now path sha) h
  apply-Closed (attempt now c m i text n) rows h =
      closed.update _ (set_attempt now text n) rows (set_attempt-KeepsIdentity now text n) h
  apply-Closed (fail now c m i text n) rows h =
      closed.update _ (set_failed now text n) rows (set_failed-KeepsIdentity now text n) h
  apply-Closed (interrupt now c m i text) rows h =
      closed.update _ (set_interrupted now text) rows (set_interrupted-KeepsIdentity now text) h
  apply-Closed (requeue now c m i) rows h =
      closed.update _ (set_requeued now) rows (set_requeued-KeepsIdentity now) h
  apply-Closed (reset now) rows h =
      closed.update _ (set_reset now) rows (set_reset-KeepsIdentity now) h

  -- Whatever such a property is, any sequence of operations keeps it.
  pub run-Closed : (ops : List Op) (rows : List MediaItem) → P rows → P (run ops rows)
  unfolding run
  run-Closed [] rows h = h
  run-Closed (op ∷ ops) rows h = run-Closed ops (apply op rows) (apply-Closed op rows h)
