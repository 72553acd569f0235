-- ===== src/Store/Media/Ownership.antt =====
-- Which operations leave a row in the hands of the worker that claimed it.
use teleparse.Base.{
  Bool, true, false, ◌||◌, List, [], ◌∷◌, ◌≡◌, refl, sym, ◌∙◌, ℤ, String, inl, inr, Bool-cases, All,
}
use teleparse.Store.Table.{update_where, insert_row, All-update_where, All-insert_row}
use teleparse.Store.Media.{
  MediaItem, at_key, keyed_as, has_status, status_downloading, status_done, set_claimed, set_done,
  set_attempt, set_failed, set_interrupted, set_requeued, refresh, mark_done, record_attempt,
  mark_failed, mark_interrupted, requeue_media,
}
use teleparse.Store.Media.Steps.{
  Op, upsert, claim, done, attempt, fail, interrupt, requeue, reset, apply, run, KeepsIdentity,
  set_claimed-KeepsIdentity, refresh-KeepsIdentity, set_done-KeepsIdentity,
  set_attempt-KeepsIdentity, set_failed-KeepsIdentity, set_interrupted-KeepsIdentity,
  set_requeued-KeepsIdentity, claim_pending_keeps, upsert_media_keeps,
}
use teleparse.Store.Media.Unique.{keyed_as-set_right, keyed_as_sym, at_key_parts, at_key_of_parts}

abbrev pub busy : MediaItem → Bool
busy r = has_status status_downloading r || has_status status_done r

-- The row of this key, if there is one, is being downloaded or done.
abbrev pub Owned : MediaItem → List MediaItem → Type 0
Owned a rows = All (λ r. keyed_as a r ≡ true → busy r ≡ true) rows

-- An operation that gives no row with the key of `a` back: it does not start the whole table over, and it does not queue or
-- fail that row.
abbrev pub Spares : MediaItem → Op → Type 0
Spares a (upsert now item) = keyed_as item a ≡ false
Spares a (claim faults now chat limit n) = Unit
Spares a (done now c m i path sha) = Unit
Spares a (attempt now c m i text n) = Unit
Spares a (fail now c m i text n) = at_key c m i a ≡ false
Spares a (interrupt now c m i text) = Unit
Spares a (requeue now c m i) = at_key c m i a ≡ false
Spares a (reset now) = ⊥

Owned-update_where :
    (a : MediaItem) (p : MediaItem → Bool) (set : MediaItem → MediaItem)
    → KeepsIdentity set
    → ((r : MediaItem) → keyed_as a r ≡ true → p r ≡ true → busy r ≡ true → busy (set r) ≡ true)
    → (rows : List MediaItem) → Owned a rows
    → Owned a (update_where p set rows)
Owned-update_where a p set k stays rows =
    All-update_where (λ r. keyed_as a r ≡ true → busy r ≡ true) p set rows
      λ r h. elim (Bool-cases (p r)) [
        | inl e ↦ simp (e) (λ here.
            let there = sym (keyed_as-set_right set k a r) ∙ here in stays r there e (h there))
        | inr e ↦ simp (e) h
      ]

same_row :
    (c m i : ℤ) (a r : MediaItem)
    → keyed_as a r ≡ true
    → at_key c m i r ≡ true
    → at_key c m i a ≡ true
unfolding keyed_as
same_row c m i a r e f =
    let (chat, message, index) = at_key_parts a.chat_id a.message_id a.media_index r e in
    let (chat', message', index') = at_key_parts c m i r f in
    at_key_of_parts c m i a (sym chat ∙ chat') (sym message ∙ message') (sym index ∙ index')

Owned-insert_row :
    (a item : MediaItem) (rows : List MediaItem)
    → keyed_as item a ≡ false
    → Owned a rows
    → Owned a (insert_row item rows)
Owned-insert_row a item rows other =
    All-insert_row (λ r. keyed_as a r ≡ true → busy r ≡ true) item rows
      (λ e. let off = keyed_as_sym a item ∙ other in cc)

-- An update at the key of another row.
Owned-elsewhere :
    (a : MediaItem) (c m i : ℤ) (set : MediaItem → MediaItem)
    → KeepsIdentity set
    → at_key c m i a ≡ false
    → (rows : List MediaItem) → Owned a rows
    → Owned a (update_where (at_key c m i) set rows)
Owned-elsewhere a c m i set k other =
    Owned-update_where a (at_key c m i) set k
      λ r here there b. let same = same_row c m i a r here there in cc

pub Owned-claim :
    (a : MediaItem) (now : String) (item : MediaItem) (rows : List MediaItem)
    → Owned a rows
    → Owned a (update_where (keyed_as item) (set_claimed now) rows)
unfolding set_claimed has_status
Owned-claim a now item rows =
    Owned-update_where a (keyed_as item) (set_claimed now) (set_claimed-KeepsIdentity now)
      (λ r here there b. refl) rows

apply-Owned :
    (a : MediaItem) (op : Op) (rows : List MediaItem)
    → Spares a op
    → Owned a rows
    → Owned a (apply op rows)
unfolding mark_done record_attempt mark_failed mark_interrupted requeue_media set_done set_attempt
    set_interrupted has_status at_key keyed_as
apply-Owned a (upsert now item) rows other =
    upsert_media_keeps (Owned a) rows now item
      (λ rs.
        Owned-elsewhere a item.chat_id item.message_id item.media_index
          (refresh (record item { updated_at = now }))
          (refresh-KeepsIdentity (record item { updated_at = now })) other rs)
      (λ rs x y. Owned-insert_row a (record item { updated_at = now }) rs other)
apply-Owned a (claim faults now chat limit n) rows other =
    claim_pending_keeps (Owned a) (Owned-claim a) faults rows now chat limit n
apply-Owned a (done now c m i path sha) rows other =
    Owned-update_where a (at_key c m i) (set_done now path sha)
      (set_done-KeepsIdentity now path sha) (λ r here there b. refl) rows
apply-Owned a (attempt now c m i text n) rows other =
    Owned-update_where a (at_key c m i) (set_attempt now text n)
      (set_attempt-KeepsIdentity now text n) (λ r here there b. b) rows
apply-Owned a (fail now c m i text n) rows other =
    Owned-elsewhere a c m i (set_failed now text n) (set_failed-KeepsIdentity now text n) other rows
apply-Owned a (interrupt now c m i text) rows other =
    Owned-update_where a (at_key c m i) (set_interrupted now text)
      (set_interrupted-KeepsIdentity now text) (λ r here there b. refl) rows
apply-Owned a (requeue now c m i) rows other =
    Owned-elsewhere a c m i (set_requeued now) (set_requeued-KeepsIdentity now) other rows
apply-Owned a (reset now) rows other = absurd other

pub run-Owned :
    (a : MediaItem) (ops : List Op) (rows : List MediaItem)
    → All (Spares a) ops
    → Owned a rows
    → Owned a (run ops rows)
unfolding run
run-Owned a [] rows spared h = h
run-Owned a (op ∷ ops) rows spared h =
    run-Owned a ops (apply op rows) spared.1 (apply-Owned a op rows spared.0 h)
