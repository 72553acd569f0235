-- ===== src/Store/Chats.antt =====
-- internal/store/chats.go and incremental.go: the chats table with its watermarks.
pub mod Watermark
use teleparse.Base.{
  Bool, true, false, ◌||◌, Option, none, some, List, [], ◌∷◌, ℤ, pos, same_ℤ, ltb_ℤ, String,
  is_empty, if◌then◌else◌,
}
use teleparse.Base.Results.{Result, ok, err}
use teleparse.Store.Table.{query_row, update_where, insert_row}

-- A row: what `Chat` has, and the columns of the walk.
pub record ChatRow : Type 0 where
  pub chat_id : ℤ
  pub kind : String
  pub title : Option String
  pub username : Option String
  pub last_seen_message_id : ℤ
  pub last_synced_at : Option String

pub record Chat : Type 0 where
  pub chat_id : ℤ
  pub kind : String
  pub title : Option String
  pub username : Option String

unfoldable pub is_chat : ℤ → ChatRow → Bool
is_chat chat r = same_ℤ r.chat_id chat

unfoldable pub set_chat : Chat → ChatRow → ChatRow
set_chat chat r = record r { kind = chat.kind; title = chat.title; username = chat.username }

unfoldable pub new_chat : Chat → ChatRow
new_chat chat = record {
  chat_id = chat.chat_id;
  kind = chat.kind;
  title = chat.title;
  username = chat.username;
  last_seen_message_id = pos 0;
  last_synced_at = none;
}

unfoldable pub upsert_chat : List ChatRow → Chat → List ChatRow
unfolding new_chat
upsert_chat rows chat = elim (query_row (is_chat chat.chat_id) rows) [
  | some _ ↦ update_where (is_chat chat.chat_id) (set_chat chat) rows
  | none ↦ insert_row (new_chat chat) rows
]

unfoldable pub chat_title : List ChatRow → ℤ → String × Bool
chat_title rows chat = elim (query_row (is_chat chat) rows) [
  | none ↦ ("", false)
  | some r ↦ elim r.title [
    | none ↦ ("", false)
    | some title ↦ if is_empty title then ("", false) else (title, true)
  ]
]

-- COALESCE((SELECT ...), 0)
abbrev pub seen_or_zero : Option ChatRow → ℤ
seen_or_zero none = pos 0
seen_or_zero (some r) = r.last_seen_message_id

unfoldable pub watermark : List ChatRow → ℤ → ℤ
watermark rows chat = seen_or_zero (query_row (is_chat chat) rows)

-- `parse` is `time.Parse` with the layout RFC3339Nano.
module _ {T E : Type 0} (parse : String → Result E T) where
  unfoldable pub chat_last_walked : List ChatRow → ℤ → Result E (Option T)
  chat_last_walked rows chat = elim (query_row (is_chat chat) rows) [
    | none ↦ ok none
    | some r ↦ elim r.last_synced_at [
      | none ↦ ok none
      | some stamped ↦ elim (parse stamped) [ ok when ↦ ok (some when) | err e ↦ err e ]
    ]
  ]

-- SQL's MAX of two integers.
abbrev pub max_ℤ : ℤ → ℤ → ℤ
max_ℤ a b = if ltb_ℤ a b then b else a

unfoldable pub set_seen : ℤ → Option String → ChatRow → ChatRow
set_seen id stamp r = record r {
  last_seen_message_id = max_ℤ r.last_seen_message_id id;
  last_synced_at = stamp;
}

-- `stamp` is `formatTime(when)`.
unfoldable pub advance_watermark : List ChatRow → ℤ → ℤ → Option String → List ChatRow
advance_watermark rows chat id stamp = update_where (is_chat chat) (set_seen id stamp) rows

unfoldable pub set_unseen : String → ChatRow → ChatRow
set_unseen now r = record r { last_seen_message_id = pos 0; last_synced_at = some now }

unfoldable pub reset_watermark : List ChatRow → String → ℤ → List ChatRow
reset_watermark rows now chat = update_where (is_chat chat) (set_unseen now) rows
