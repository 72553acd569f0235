-- ===== src/Store/Chats/Watermark.antt =====
-- The watermark of a chat over any sequence of operations on the table.
use mathlib.Core.Option
use teleparse.Base.{
  Bool, true, false, Option, none, some, List, [], ◌∷◌, ◌≡◌, refl, ◌∙◌, ap, subst, ℤ, pos, same_ℤ,
  same_ℤ_iff, leb_ℤ, String, All, if◌then◌else◌, arith, Bool-cases, Option-cases, inl, inr,
}
use teleparse.Store.Table.{
  query_row, update_where, query_row-update_where, query_row_found, query_row-insert_row,
}
use teleparse.Store.Chats.{
  ChatRow, Chat, is_chat, set_chat, new_chat, upsert_chat, watermark, max_ℤ, set_seen,
  advance_watermark, set_unseen, reset_watermark,
}

pub data ChatOp : Type 0 where
  upsert : Chat → ChatOp
  advance : ℤ → ℤ → Option String → ChatOp
  reset : String → ℤ → ChatOp

abbrev pub apply : ChatOp → List ChatRow → List ChatRow
apply (upsert chat) rows = upsert_chat rows chat
apply (advance chat id stamp) rows = advance_watermark rows chat id stamp
apply (reset now chat) rows = reset_watermark rows now chat

unfoldable pub run : List ChatOp → List ChatRow → List ChatRow
run [] rows = rows
run (op ∷ ops) rows = run ops (apply op rows)

-- What the operations promise of one chat: whether it has a row, and its watermark.
pub record Progress : Type 0 where
  pub known : Bool
  pub seen : ℤ

abbrev progress_of : Option ChatRow → Progress
progress_of none = record { known = false; seen = pos 0 }
progress_of (some r) = record { known = true; seen = r.last_seen_message_id }

unfoldable pub progress : List ChatRow → ℤ → Progress
progress rows chat = progress_of (query_row (is_chat chat) rows)

unfoldable pub move : ℤ → ChatOp → Progress → Progress
move chat (upsert c) p = if same_ℤ c.chat_id chat then record p { known = true } else p
move chat (advance c id stamp) p =
    if same_ℤ c chat then (if p.known then record p { seen = max_ℤ p.seen id } else p) else p
move chat (reset now c) p = if same_ℤ c chat then record p { seen = pos 0 } else p

unfoldable pub replay : ℤ → List ChatOp → Progress → Progress
replay chat [] p = p
replay chat (op ∷ ops) p = replay chat ops (move chat op p)

-- An update of the rows of one chat, seen from another or from itself.
progress-update_where :
    (set : ChatRow → ChatRow) (chat c : ℤ) (rows : List ChatRow)
    → ((r : ChatRow) → (set r).chat_id ≡ r.chat_id)
    → progress (update_where (is_chat c) set rows) chat ≡ (
        if same_ℤ c chat
        then progress_of (Option.map set (query_row (is_chat chat) rows))
        else progress rows chat)
unfolding progress is_chat
progress-update_where set chat c rows keep =
    ap progress_of (
      query_row-update_where (is_chat chat) (is_chat c) set rows
        (λ r. ap (λ t. same_ℤ t chat) (keep r)))
    ∙ (elim (Option-cases (query_row (is_chat chat) rows)) [
      | inl e ↦ simp (e) (ground arith)
      | inr (r, e) ↦
          let here = (same_ℤ_iff r.chat_id chat).0 (query_row_found (is_chat chat) rows r e) in
          let turned : same_ℤ r.chat_id c ≡ same_ℤ c chat = simp (here) (ground arith) in
          simp (e, turned) (ground arith)
    ])

advance_found :
    (id : ℤ) (stamp : Option String) (b : Bool) (found : Option ChatRow)
    → (if b then progress_of (Option.map (set_seen id stamp) found) else progress_of found) ≡ (
        if b
        then (if (progress_of found).known
            then record (progress_of found) { seen = max_ℤ (progress_of found).seen id }
            else progress_of found)
        else progress_of found)
unfolding set_seen
advance_found id stamp true none = refl
advance_found id stamp true (some r) = refl
advance_found id stamp false found = refl

reset_found :
    (now : String) (b : Bool) (found : Option ChatRow)
    → (if b then progress_of (Option.map (set_unseen now) found) else progress_of found)
      ≡ (if b then record (progress_of found) { seen = pos 0 } else progress_of found)
unfolding set_unseen
reset_found now true none = refl
reset_found now true (some r) = refl
reset_found now false found = refl

upsert-move :
    (chat : ℤ) (c : Chat) (rows : List ChatRow)
    → progress (upsert_chat rows c) chat ≡ move chat (upsert c) (progress rows chat)
unfolding upsert_chat move set_chat new_chat progress is_chat
upsert-move chat c rows = elim (Option-cases (query_row (is_chat c.chat_id) rows)) [
  | inr (r, e) ↦
      simp (e, upsert_chat)
        (progress-update_where (set_chat c) chat c.chat_id rows (λ x. refl)
          ∙ (elim (Bool-cases (same_ℤ c.chat_id chat)) [
            | inl f ↦
                let found =
                  subst (λ t. query_row (is_chat t) rows ≡ some r) ((same_ℤ_iff c.chat_id chat).0 f)
                    e in
                simp (f, found, progress)
            | inr f ↦ simp (f)
          ]))
  | inl e ↦
      simp (e, upsert_chat)
        (elim (Bool-cases (same_ℤ c.chat_id chat)) [
          | inl f ↦
              let missing =
                subst (λ t. query_row (is_chat t) rows ≡ none) ((same_ℤ_iff c.chat_id chat).0 f)
                  e in
              ap progress_of (query_row-insert_row (is_chat chat) (new_chat c) rows)
              ∙ simp (f, missing, progress, is_chat)
          | inr f ↦
              ap progress_of (query_row-insert_row (is_chat chat) (new_chat c) rows)
              ∙ (elim (Option-cases (query_row (is_chat chat) rows)) [
                | inl g ↦ simp (f, g, progress, is_chat)
                | inr (x, g) ↦ simp (f, g, progress, is_chat)
              ])
        ])
]

apply-move :
    (chat : ℤ) (op : ChatOp) (rows : List ChatRow)
    → progress (apply op rows) chat ≡ move chat op (progress rows chat)
unfolding move advance_watermark reset_watermark progress
apply-move chat (advance c id stamp) rows =
    progress-update_where (set_seen id stamp) chat c rows set_seen_chat
    ∙ advance_found id stamp (same_ℤ c chat) (query_row (is_chat chat) rows)
  where
    set_seen_chat : (r : ChatRow) → (set_seen id stamp r).chat_id ≡ r.chat_id
    set_seen_chat r = unfold set_seen in refl
apply-move chat (reset now c) rows =
    progress-update_where (set_unseen now) chat c rows set_unseen_chat
    ∙ reset_found now (same_ℤ c chat) (query_row (is_chat chat) rows)
  where
    set_unseen_chat : (r : ChatRow) → (set_unseen now r).chat_id ≡ r.chat_id
    set_unseen_chat r = unfold set_unseen in refl
apply-move chat (upsert c) rows = upsert-move chat c rows

-- Over any sequence of discoveries, finished walks and resets, what the table knows of a chat is
-- what a counter of its own would: discovery makes it known and leaves the watermark, a finished
-- walk of a known chat raises the watermark to the message it reached and never lowers it, a reset
-- clears it, and no operation on another chat has an effect.
pub run_refines :
    (ops : List ChatOp) (rows : List ChatRow) (chat : ℤ)
    → progress (run ops rows) chat ≡ replay chat ops (progress rows chat)
unfolding run replay
run_refines [] rows chat = refl
run_refines (op ∷ ops) rows chat =
    run_refines ops (apply op rows) chat ∙ ap (replay chat ops) (apply-move chat op rows)

-- No reset among the operations.
abbrev pub Forward : ChatOp → Type 0
Forward (upsert c) = Unit
Forward (advance c id stamp) = Unit
Forward (reset now c) = ⊥

move_grows :
    (chat : ℤ) (op : ChatOp) (p : Progress) → Forward op → leb_ℤ p.seen (move chat op p).seen ≡ true
unfolding move
move_grows chat (upsert c) p f = ground arith
move_grows chat (advance c id stamp) p f = ground arith
move_grows chat (reset now c) p f = absurd f

leb_trans : (a b c : ℤ) → leb_ℤ a b ≡ true → leb_ℤ b c ≡ true → leb_ℤ a c ≡ true
leb_trans a b c h k = ground arith

replay_grows :
    (chat : ℤ) (ops : List ChatOp) (p : Progress)
    → All Forward ops
    → leb_ℤ p.seen (replay chat ops p).seen ≡ true
unfolding replay
replay_grows chat [] p f = ground arith
replay_grows chat (op ∷ ops) p f =
    leb_trans p.seen (move chat op p).seen (replay chat ops (move chat op p)).seen
      (move_grows chat op p f.0) (replay_grows chat ops (move chat op p) f.1)

watermark-progress :
    (rows : List ChatRow) (chat : ℤ) → watermark rows chat ≡ (progress rows chat).seen
unfolding watermark progress
watermark-progress rows chat = elim (Option-cases (query_row (is_chat chat) rows)) [
  | inl e ↦ simp (e)
  | inr (r, e) ↦ simp (e)
]

-- Without a reset, no sequence of discoveries and finished walks, of this chat and others and in
-- any order, lowers the watermark of a chat.
pub watermark_grows :
    (ops : List ChatOp) (rows : List ChatRow) (chat : ℤ)
    → All Forward ops
    → leb_ℤ (watermark rows chat) (watermark (run ops rows) chat) ≡ true
watermark_grows ops rows chat f =
    simp (watermark-progress, run_refines) (replay_grows chat ops (progress rows chat) f)
