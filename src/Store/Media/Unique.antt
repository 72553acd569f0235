-- ===== src/Store/Media/Unique.antt =====
-- No two rows of the media table have one key, nor one file.
use teleparse.Base.{
  Bool, true, false, none, some, List, [], ◌∷◌, ◌≡◌, refl, ◌∙◌, ap, Bool-cases, inl, inr, ℤ,
  same_ℤ_iff, same_sym, arith, if◌then◌else◌,
}
use mathlib.Core.Option
use teleparse.Store.Table.{
  query_row, update_where, insert_row, query_row-update_where, query_row_found,
}
use teleparse.Store.Media.{MediaItem, at_key, of_file, keyed_as, filed_as}
use teleparse.Store.Media.Steps.{Op, run, KeepsIdentity, run-Closed}

abbrev pub Unique : List MediaItem → Type 0
Unique [] = Unit
Unique (r ∷ rows) =
    (query_row (keyed_as r) rows ≡ none) × (query_row (filed_as r) rows ≡ none) × Unique rows

pub keyed_as_sym : (a b : MediaItem) → keyed_as a b ≡ keyed_as b a
unfolding keyed_as at_key
keyed_as_sym a b = ground arith

pub filed_as_sym : (a b : MediaItem) → filed_as a b ≡ filed_as b a
unfolding filed_as of_file
filed_as_sym a b = ground (arith, same_sym a.media_class b.media_class)

pub at_key_parts :
    (c m i : ℤ) (r : MediaItem)
    → at_key c m i r ≡ true
    → (r.chat_id ≡ c) × (r.message_id ≡ m) × (r.media_index ≡ i)
unfolding at_key
at_key_parts c m i r e = (
  (same_ℤ_iff _ _).0 (ground arith),
  (same_ℤ_iff _ _).0 (ground arith),
  (same_ℤ_iff _ _).0 (ground arith),
)

pub at_key_of_parts :
    (c m i : ℤ) (r : MediaItem)
    → r.chat_id ≡ c
    → r.message_id ≡ m
    → r.media_index ≡ i
    → at_key c m i r ≡ true
unfolding at_key
at_key_of_parts c m i r chat message index =
    let e = (same_ℤ_iff r.chat_id c).1 chat in
    let f = (same_ℤ_iff r.message_id m).1 message in
    let g = (same_ℤ_iff r.media_index i).1 index in simp (e, f, g)

-- An update changes neither what a row is compared by nor what it is compared with.
module _ (set : MediaItem → MediaItem) (k : KeepsIdentity set) where
  pub keyed_as-KeepsIdentity : (a b : MediaItem) → keyed_as (set a) (set b) ≡ keyed_as a b
  unfolding keyed_as at_key
  keyed_as-KeepsIdentity a b = simp (k.chat, k.message, k.index)

  pub filed_as-KeepsIdentity : (a b : MediaItem) → filed_as (set a) (set b) ≡ filed_as a b
  unfolding filed_as of_file
  filed_as-KeepsIdentity a b = simp (k.class, k.file)

  pub keyed_as-set_left : (a : MediaItem) → keyed_as (set a) ≡ keyed_as a
  unfolding keyed_as
  keyed_as-set_left a = simp (k.chat, k.message, k.index)

  pub filed_as-set_left : (a : MediaItem) → filed_as (set a) ≡ filed_as a
  unfolding filed_as
  filed_as-set_left a = simp (k.class, k.file)

  pub at_key-KeepsIdentity : (c m i : ℤ) (r : MediaItem) → at_key c m i (set r) ≡ at_key c m i r
  unfolding at_key
  at_key-KeepsIdentity c m i r = simp (k.chat, k.message, k.index)

  pub keyed_as-set_right : (a b : MediaItem) → keyed_as a (set b) ≡ keyed_as a b
  unfolding keyed_as at_key
  keyed_as-set_right a b = simp (k.chat, k.message, k.index)

  pub filed_as-set_right : (a b : MediaItem) → filed_as a (set b) ≡ filed_as a b
  unfolding filed_as of_file
  filed_as-set_right a b = simp (k.class, k.file)

  Unique-update_where :
      (p : MediaItem → Bool) (rows : List MediaItem)
      → Unique rows
      → Unique (update_where p set rows)
  unfolding update_where
  Unique-update_where p [] u = tt
  Unique-update_where p (r ∷ rows) (no_key, no_file, more) =
      let missed_key = still_missing p (keyed_as r) rows (keyed_as-set_right r) no_key in
      let missed_file = still_missing p (filed_as r) rows (filed_as-set_right r) no_file in
      elim (Bool-cases (p r)) [
        | inl e ↦
            simp (e, keyed_as-set_left, filed_as-set_left)
              (missed_key, missed_file, Unique-update_where p rows more)
        | inr e ↦ simp (e) (missed_key, missed_file, Unique-update_where p rows more)
      ]
    where
      still_missing :
          (p q : MediaItem → Bool) (rows : List MediaItem)
          → ((r : MediaItem) → q (set r) ≡ q r)
          → query_row q rows ≡ none
          → query_row q (update_where p set rows) ≡ none
      still_missing p q rows keep h =
          query_row-update_where q p set rows keep
          ∙ ap (Option.map (λ r. if p r then set r else r)) h

query_row-insert_row :
    (q : MediaItem → Bool) (item : MediaItem) (rows : List MediaItem)
    → q item ≡ false
    → query_row q rows ≡ none
    → query_row q (insert_row item rows) ≡ none
unfolding query_row insert_row
query_row-insert_row q item [] off h = rw off
query_row-insert_row q item (r ∷ rows) off h = elim (Bool-cases (q r)) [
  | inl e ↦ let shown = simp (e, query_row) at h in cc
  | inr e ↦ simp (e, query_row) (query_row-insert_row q item rows off (simp (e, query_row) at h))
]

pub missed_head :
    (q : MediaItem → Bool) (r : MediaItem) (rows : List MediaItem)
    → query_row q (r ∷ rows) ≡ none
    → (q r ≡ false) × (query_row q rows ≡ none)
unfolding query_row
missed_head q r rows h = elim (Bool-cases (q r)) [
  | inl e ↦ let shown = simp (e, query_row) at h in cc
  | inr e ↦ (e, simp (e, query_row) at h)
]

Unique-insert_row :
    (item : MediaItem) (rows : List MediaItem)
    → query_row (keyed_as item) rows ≡ none
    → query_row (filed_as item) rows ≡ none
    → Unique rows
    → Unique (insert_row item rows)
unfolding insert_row query_row
Unique-insert_row item [] new_key new_file u = (refl, refl, tt)
Unique-insert_row item (r ∷ rows) new_key new_file (no_key, no_file, more) =
    let (other_key, key_rest) = missed_head (keyed_as item) r rows new_key in
    let (other_file, file_rest) = missed_head (filed_as item) r rows new_file in
    (
      query_row-insert_row (keyed_as r) item rows (keyed_as_sym r item ∙ other_key) no_key,
      query_row-insert_row (filed_as r) item rows (filed_as_sym r item ∙ other_file) no_file,
      Unique-insert_row item rows key_rest file_rest more,
    )

-- Whatever operations run on a media table, in any order and with any failures of the claiming
-- transaction: if no two of its rows had one key or one file before, none have after.
pub run-Unique : (ops : List Op) (rows : List MediaItem) → Unique rows → Unique (run ops rows)
run-Unique ops rows u =
    run-Closed Unique
      (record { update = λ p set rs k. Unique-update_where set k p rs; insert = Unique-insert_row })
      ops rows u

-- The row of a key after an update at that key.
pub query_row-at_key :
    (set : MediaItem → MediaItem)
    → KeepsIdentity set
    → (c m i : ℤ) (rows : List MediaItem) (r : MediaItem) → query_row (at_key c m i) rows ≡ some r
    → query_row (at_key c m i) (update_where (at_key c m i) set rows) ≡ some (set r)
query_row-at_key set k c m i rows r e =
    query_row-update_where (at_key c m i) (at_key c m i) set rows (at_key-KeepsIdentity set k c m i)
    ∙ simp (e, query_row_found (at_key c m i) rows r e)
