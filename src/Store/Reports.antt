-- ===== src/Store/Reports.antt =====
-- internal/store/media.go and chats.go: the reports on the media table. A sum of sizes is taken
-- without the driver's overflow error.
pub mod Totals
use teleparse.Base.{
  ℕ, suc, ◌+◌, Bool, true, false, ◌&&◌, ◌||◌, Option, none, some, List, [], ◌∷◌, map, ℤ, pos, ◌+ℤ◌,
  same_ℤ, ltb_ℤ, is_zero_ℤ, String, same, if◌then◌else◌,
}
use teleparse.Store.Table.{select_where, query_row, count_where, order_by}
use teleparse.Store.Media.{
  MediaItem, of_chat, has_status, by_message, status_discovered, status_queued, status_downloading,
  status_done, status_failed, status_skipped,
}
use teleparse.Store.Chats.{ChatRow, is_chat}

-- A map from statuses to counts, and an assignment to it.
abbrev pub count_at : String → List (String × ℕ) → ℕ
count_at s [] = 0
count_at s ((t, n) ∷ counts) = if same s t then n else count_at s counts

-- A lookup that tells a missing key from a zero.
abbrev pub entry_of : String → List (String × ℕ) → Option ℕ
entry_of s [] = none
entry_of s ((t, n) ∷ counts) = if same s t then some n else entry_of s counts

unfoldable pub assign : String → ℕ → List (String × ℕ) → List (String × ℕ)
assign s n [] = (s, n) ∷ []
assign s n ((t, m) ∷ counts) =
    let rest = assign s n counts in if same s t then (t, n) ∷ counts else (t, m) ∷ rest

-- SELECT status, COUNT(*) ... GROUP BY status, with one row for each status that occurs.
unfoldable pub add_status : String → List (String × ℕ) → List (String × ℕ)
add_status s [] = (s, 1) ∷ []
add_status s ((t, n) ∷ groups) =
    let rest = add_status s groups in if same s t then (t, suc n) ∷ groups else (t, n) ∷ rest

unfoldable pub group_statuses : List MediaItem → List (String × ℕ)
group_statuses [] = []
group_statuses (r ∷ rows) = add_status r.status (group_statuses rows)

abbrev pub zeroed : List (String × ℕ)
zeroed =
    (status_discovered, 0)
    ∷ (status_queued, 0)
    ∷ (status_downloading, 0)
    ∷ (status_done, 0)
    ∷ (status_failed, 0)
    ∷ (status_skipped, 0)
    ∷ []

-- The loop over the groups; each status has one, so their order does not matter.
unfoldable pub assign_all : List (String × ℕ) → List (String × ℕ) → List (String × ℕ)
unfolding assign
assign_all [] counts = counts
assign_all ((s, n) ∷ groups) counts = assign s n (assign_all groups counts)

unfoldable pub counts : List MediaItem → List (String × ℕ)
unfolding group_statuses add_status assign_all
counts rows = assign_all (group_statuses rows) zeroed

-- SELECT DISTINCT chat_id ... ORDER BY chat_id
unfoldable pub add_id : ℤ → List ℤ → List ℤ
add_id x [] = x ∷ []
add_id x (y ∷ ys) =
    let rest = add_id x ys in
    if same_ℤ x y then y ∷ ys else if ltb_ℤ x y then x ∷ y ∷ ys else y ∷ rest

unfoldable pub distinct_chat_ids : List MediaItem → List ℤ
distinct_chat_ids [] = []
distinct_chat_ids (r ∷ rows) = add_id r.chat_id (distinct_chat_ids rows)

pub record ChatStats : Type 0 where
  pub chat_id : ℤ
  pub title : String
  pub done_count : ℕ
  pub done_bytes : ℤ

-- COALESCE(c.title, '') of the joined row, and COALESCE(SUM(m.size), 0).
abbrev title_or_empty : Option ChatRow → String
title_or_empty none = ""
title_or_empty (some c) = elim c.title [ none ↦ "" | some title ↦ title ]

abbrev size_or_zero : Option ℤ → ℤ
size_or_zero none = pos 0
size_or_zero (some n) = n

unfoldable pub sum_sizes : List MediaItem → ℤ
sum_sizes [] = pos 0
sum_sizes (r ∷ rows) = size_or_zero r.size +ℤ sum_sizes rows

unfoldable pub chat_stats : List ChatRow → List MediaItem → ℤ → ChatStats
chat_stats chats done chat = record {
  chat_id = chat;
  title = title_or_empty (query_row (is_chat chat) chats);
  done_count = count_where (of_chat chat) done;
  done_bytes = sum_sizes (select_where (of_chat chat) done);
}

unfoldable pub stats_per_chat : List ChatRow → List MediaItem → List ChatStats
unfolding distinct_chat_ids add_id
stats_per_chat chats rows =
    let done = select_where (has_status status_done) rows in
    map (chat_stats chats done) (distinct_chat_ids done)

pub record MediaRow : Type 0 where
  pub chat_id : ℤ
  pub message_id : ℤ
  pub media_index : ℤ
  pub media_class : String
  pub media_id : ℤ
  pub mime : Option String
  pub size : Option ℤ
  pub date : Option String
  pub sender_id : Option ℤ
  pub filename : Option String
  pub grouped_id : Option ℤ
  pub status : String
  pub path : Option String
  pub sha256 : Option String

unfoldable pub row_from_item : MediaItem → MediaRow
row_from_item item = record {
  chat_id = item.chat_id;
  message_id = item.message_id;
  media_index = item.media_index;
  media_class = item.media_class;
  media_id = item.media_id;
  mime = item.mime;
  size = item.size;
  date = item.date;
  sender_id = item.sender_id;
  filename = item.filename;
  grouped_id = item.grouped_id;
  status = item.status;
  path = item.path;
  sha256 = item.sha256;
}

-- ORDER BY chat_id, message_id, media_index
unfoldable pub by_key : MediaItem → MediaItem → Bool
by_key a b = ltb_ℤ a.chat_id b.chat_id || same_ℤ a.chat_id b.chat_id && by_message a b

unfoldable pub list_media_rows : List MediaItem → ℤ → List MediaRow
list_media_rows rows chat =
    map row_from_item
      (order_by by_key (if is_zero_ℤ chat then rows else select_where (of_chat chat) rows))
