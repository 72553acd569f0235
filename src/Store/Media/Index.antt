-- ===== src/Store/Media/Index.antt =====
-- The media table as what it promises: a map from keys to rows and a map from files to rows. What each
-- operation writes is said here by its columns.
use mathlib.Core.Option
use teleparse.Base.{
  Bool, true, false, ◌&&◌, Option, none, some, List, [], ◌∷◌, ◌≡◌, refl, ◌∙◌, ap, ℕ, ℤ, same_ℤ,
  same_ℤ_iff, String, same, same_iff, is_empty, if◌then◌else◌, arith, Option-cases, inl, inr,
}
use teleparse.Store.Table.{
  query_row, update_where, insert_row, query_row-update_where, query_row_found,
  query_row-insert_row,
}
use teleparse.Store.Media.{
  MediaItem, at_key, of_file, keyed_as, filed_as, has_status, status_downloading, refresh,
  upsert_media, set_done, set_attempt, set_failed, set_interrupted, set_requeued, set_reset,
  error_text, mark_done, record_attempt, mark_failed, mark_interrupted, requeue_media,
  reset_downloading,
}
use teleparse.Store.Media.Unique.{at_key-KeepsIdentity, at_key_parts}
use teleparse.Store.Media.Steps.{
  KeepsIdentity, refresh-KeepsIdentity, set_done-KeepsIdentity, set_attempt-KeepsIdentity,
  set_failed-KeepsIdentity, set_interrupted-KeepsIdentity, set_requeued-KeepsIdentity,
  set_reset-KeepsIdentity,
}

pub record View : Type 0 where
  pub item : ℤ → ℤ → ℤ → Option MediaItem
  pub filed : String → ℤ → Option MediaItem

unfoldable pub view : List MediaItem → View
view rows = record {
  item = λ c m i. query_row (at_key c m i) rows;
  filed = λ class id. query_row (of_file class id) rows;
}

abbrev same_key : ℤ → ℤ → ℤ → ℤ → ℤ → ℤ → Bool
same_key c m i c' m' i' = same_ℤ c c' && same_ℤ m m' && same_ℤ i i'

abbrev is_key : ℤ → ℤ → ℤ → MediaItem → Bool
is_key c m i r = same_key r.chat_id r.message_id r.media_index c m i

-- Change the row at one key, change every row, and add one.
unfoldable pub alter : (MediaItem → MediaItem) → ℤ → ℤ → ℤ → View → View
alter set c m i v = record {
  item = λ c' m' i'.
      if same_key c' m' i' c m i then Option.map set (v.item c' m' i') else v.item c' m' i';
  filed = λ class id. Option.map (λ r. if is_key c m i r then set r else r) (v.filed class id);
}

unfoldable pub alter_all : (MediaItem → MediaItem) → View → View
alter_all set v = record {
  item = λ c m i. Option.map set (v.item c m i);
  filed = λ class id. Option.map set (v.filed class id);
}

unfoldable pub put : MediaItem → View → View
put r v = record {
  item =
      λ c m i. if same_key r.chat_id r.message_id r.media_index c m i then some r else v.item c m i;
  filed = λ class id.
      if same r.media_class class && same_ℤ r.media_id id then some r else v.filed class id;
}

-- The operations by key, and the reset.
pub data Edit : Type 0 where
  upsert : String → MediaItem → Edit
  done : String → ℤ → ℤ → ℤ → String → Option String → Edit
  attempt : String → ℤ → ℤ → ℤ → String → ℕ → Edit
  fail : String → ℤ → ℤ → ℤ → String → ℕ → Edit
  interrupt : String → ℤ → ℤ → ℤ → String → Edit
  requeue : String → ℤ → ℤ → ℤ → Edit
  reset : String → Edit

abbrev pub edit : Edit → List MediaItem → List MediaItem
edit (upsert now r) rows = (upsert_media rows now r).0
edit (done now c m i path sha) rows = mark_done rows now c m i path sha
edit (attempt now c m i text n) rows = record_attempt rows now c m i text n
edit (fail now c m i text n) rows = mark_failed rows now c m i text n
edit (interrupt now c m i text) rows = mark_interrupted rows now c m i text
edit (requeue now c m i) rows = requeue_media rows now c m i
edit (reset now) rows = (reset_downloading rows now).0

unfoldable pub edits : List Edit → List MediaItem → List MediaItem
edits [] rows = rows
edits (e ∷ es) rows = edits es (edit e rows)

-- The same operations on the view.
unfoldable pub change : Edit → View → View
change (upsert now given) v =
    let r = record given { updated_at = now } in
    elim (v.item r.chat_id r.message_id r.media_index) [
      | some _ ↦
          alter
            (λ old. record old {
              status = r.status;
              attempts = r.attempts;
              last_error = r.last_error;
              path = r.path;
              bytes_done = r.bytes_done;
              sha256 = r.sha256;
              updated_at = now;
            })
            r.chat_id r.message_id r.media_index v
      | none ↦ elim (v.filed r.media_class r.media_id) [ some _ ↦ v | none ↦ put r v ]
    ]
change (done now c m i path sha) v =
    alter (λ r. record r { status = "done"; path = some path; sha256 = sha; updated_at = now }) c m
      i v
change (attempt now c m i text n) v =
    alter
      (λ r. record r {
        last_error = if is_empty text then none else some text;
        attempts = n;
        updated_at = now;
      })
      c m i v
change (fail now c m i text n) v =
    alter
      (λ r. record r {
        status = "failed";
        last_error = if is_empty text then none else some text;
        attempts = n;
        updated_at = now;
      })
      c m i v
change (interrupt now c m i text) v =
    alter
      (λ r. record r {
        status = "downloading";
        last_error = if is_empty text then none else some text;
        attempts = 0;
        updated_at = now;
      })
      c m i v
change (requeue now c m i) v =
    alter (λ r. record r { status = "queued"; attempts = 0; last_error = none; updated_at = now }) c
      m i v
change (reset now) v =
    alter_all
      (λ r.
        if same r.status "downloading" then record r { status = "queued"; updated_at = now } else r)
      v

unfoldable pub replay : List Edit → View → View
replay [] v = v
replay (e ∷ es) v = replay es (change e v)

module _ (set : MediaItem → MediaItem) (k : KeepsIdentity set) where
  of_file-KeepsIdentity :
      (class : String) (id : ℤ) (r : MediaItem) → of_file class id (set r) ≡ of_file class id r
  unfolding of_file
  of_file-KeepsIdentity class id r = simp (k.class, k.file)

at_key_found :
    (c m i c' m' i' : ℤ) (r : MediaItem)
    → at_key c' m' i' r ≡ true
    → at_key c m i r ≡ same_key c' m' i' c m i
unfolding at_key
at_key_found c m i c' m' i' r e =
    let (chat, message, index) = at_key_parts c' m' i' r e in simp (chat, message, index)

view-eq :
    (v w : View)
    → ((c m i : ℤ) → v.item c m i ≡ w.item c m i)
    → ((class : String) (id : ℤ) → v.filed class id ≡ w.filed class id)
    → v ≡ w
view-eq v w h k = λ j. record { item = λ c m i. h c m i j; filed = λ class id. k class id j }

update-at_key :
    (set : MediaItem → MediaItem)
    → KeepsIdentity set
    → (c m i : ℤ) (rows : List MediaItem)
    → view (update_where (at_key c m i) set rows) ≡ alter set c m i (view rows)
unfolding view alter at_key
update-at_key set k c m i rows = view-eq _ _ by_key by_file
  where
    by_key :
        (c' m' i' : ℤ)
        → query_row (at_key c' m' i') (update_where (at_key c m i) set rows) ≡ (
            if same_key c' m' i' c m i
            then Option.map set (query_row (at_key c' m' i') rows)
            else query_row (at_key c' m' i') rows)
    by_key c' m' i' =
        query_row-update_where (at_key c' m' i') (at_key c m i) set rows
          (at_key-KeepsIdentity set k c' m' i')
        ∙ (elim (Option-cases (query_row (at_key c' m' i') rows)) [
          | inl e ↦ simp (e) (ground arith)
          | inr (r, e) ↦
              simp (e, at_key_found c m i c' m' i' r (query_row_found (at_key c' m' i') rows r e))
                (ground arith)
        ])

    by_file :
        (class : String) (id : ℤ)
        → query_row (of_file class id) (update_where (at_key c m i) set rows)
          ≡ Option.map
              (λ r. if is_key c m i r then set r else r)
              (query_row (of_file class id) rows)
    by_file class id =
        query_row-update_where (of_file class id) (at_key c m i) set rows
          (of_file-KeepsIdentity set k class id)

update_all :
    (set : MediaItem → MediaItem)
    → KeepsIdentity set
    → (p : MediaItem → Bool) (rows : List MediaItem)
    → view (update_where p set rows) ≡ alter_all (λ r. if p r then set r else r) (view rows)
unfolding view alter_all
update_all set k p rows =
    view-eq _ _
      (λ c m i. query_row-update_where (at_key c m i) p set rows (at_key-KeepsIdentity set k c m i))
      (λ class id.
        query_row-update_where (of_file class id) p set rows (of_file-KeepsIdentity set k class id))

key_free :
    (c m i : ℤ) (r : MediaItem) (rows : List MediaItem)
    → at_key c m i r ≡ true
    → query_row (keyed_as r) rows ≡ none
    → query_row (at_key c m i) rows ≡ none
unfolding keyed_as
key_free c m i r rows e free =
    let (chat, message, index) = at_key_parts c m i r e in simp (chat, message, index) at free

file_free :
    (class : String) (id : ℤ) (r : MediaItem) (rows : List MediaItem)
    → of_file class id r ≡ true
    → query_row (filed_as r) rows ≡ none
    → query_row (of_file class id) rows ≡ none
unfolding filed_as of_file
file_free class id r rows e free =
    let file : r.media_id ≡ id = (same_ℤ_iff _ _).0 (ground arith) in
    let classes : r.media_class ≡ class = (same_iff _ _).0 (ground arith) in
    simp (classes, file) at free

insert_case :
    (found : Option MediaItem) (b : Bool) (r : MediaItem)
    → (b ≡ true → found ≡ none)
    → (elim found [ some x ↦ some x | none ↦ if b then some r else none ])
      ≡ (if b then some r else found)
insert_case none b r free = ground arith
insert_case (some x) true r free = let absent = free refl in cc
insert_case (some x) false r free = refl

view-insert_row :
    (r : MediaItem) (rows : List MediaItem)
    → query_row (keyed_as r) rows ≡ none
    → query_row (filed_as r) rows ≡ none
    → view (insert_row r rows) ≡ put r (view rows)
unfolding view put at_key of_file
view-insert_row r rows a b =
    view-eq _ _
      (λ c m i.
        query_row-insert_row (at_key c m i) r rows
        ∙ insert_case (query_row (at_key c m i) rows) (at_key c m i r) r
            (λ e. key_free c m i r rows e a))
      (λ class id.
        query_row-insert_row (of_file class id) r rows
        ∙ insert_case (query_row (of_file class id) rows) (of_file class id r) r
            (λ e. file_free class id r rows e b))

upsert_media-view :
    (rows : List MediaItem) (now : String) (given : MediaItem)
    → view (upsert_media rows now given).0 ≡ change (upsert now given) (view rows)
unfolding upsert_media change view keyed_as filed_as refresh
upsert_media-view rows now given =
    let r = record given { updated_at = now } in
    let key = query_row (at_key given.chat_id given.message_id given.media_index) rows in
    let file = query_row (of_file given.media_class given.media_id) rows in
    elim (Option-cases key) [
      | inr (old, e) ↦
          simp (e, upsert_media, change)
            (update-at_key (refresh r) (refresh-KeepsIdentity r) given.chat_id given.message_id
              given.media_index rows)
      | inl e ↦ elim (Option-cases file) [
        | inr (old, f) ↦ simp (e, f, upsert_media, change)
        | inl f ↦ simp (e, f, upsert_media, change) (view-insert_row r rows e f)
      ]
    ]

edit-view : (e : Edit) (rows : List MediaItem) → view (edit e rows) ≡ change e (view rows)
unfolding change mark_done record_attempt mark_failed mark_interrupted requeue_media
    reset_downloading set_done set_attempt set_failed set_interrupted set_requeued set_reset
    error_text has_status
edit-view (upsert now r) rows = upsert_media-view rows now r
edit-view (done now c m i path sha) rows =
    update-at_key (set_done now path sha) (set_done-KeepsIdentity now path sha) c m i rows
edit-view (attempt now c m i text n) rows =
    update-at_key (set_attempt now text n) (set_attempt-KeepsIdentity now text n) c m i rows
edit-view (fail now c m i text n) rows =
    update-at_key (set_failed now text n) (set_failed-KeepsIdentity now text n) c m i rows
edit-view (interrupt now c m i text) rows =
    update-at_key (set_interrupted now text) (set_interrupted-KeepsIdentity now text) c m i rows
edit-view (requeue now c m i) rows =
    update-at_key (set_requeued now) (set_requeued-KeepsIdentity now) c m i rows
edit-view (reset now) rows =
    update_all (set_reset now) (set_reset-KeepsIdentity now) (has_status status_downloading) rows

-- The table implements a map from keys to rows and a map from files to rows: after any sequence of
-- upserts, updates by key and resets, the row that a lookup by key or by file finds is the one that
-- the same sequence, each operation told by the columns that it writes, makes of the two maps.
pub edits_refine :
    (es : List Edit) (rows : List MediaItem) → view (edits es rows) ≡ replay es (view rows)
unfolding edits replay
edits_refine [] rows = refl
edits_refine (e ∷ es) rows = edits_refine es (edit e rows) ∙ ap (replay es) (edit-view e rows)
