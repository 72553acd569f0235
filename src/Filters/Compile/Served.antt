-- ===== src/Filters/Compile/Served.antt =====
-- What the server's search hides of the messages that the predicates accept. The server is a
-- parameter; `is_selected` is what the documentation of messages.search says of it.
use teleparse.Base.{
  Bool, false, ◌&&◌, ◌||◌, List, [], ◌∷◌, none, some, pos, same_ℤ, leb_ℤ, ltb_ℤ, String, is_empty,
  same, if◌then◌else◌,
}
use teleparse.Filters.Library.{Library}
use teleparse.Filters.Context.{Context, file_of}
use teleparse.Filters.Options.{Options, contains}
use teleparse.Filters.Compile.{Pushdown}

-- The kinds of media that each of the server's filters finds.
unfoldable pub served_kinds : String → List String
served_kinds filter =
    if same filter "photo"
    then "photo" ∷ []
    else if same filter "video"
    then "video" ∷ []
    else if same filter "photo_video"
    then "photo" ∷ "video" ∷ []
    else if same filter "round_video"
    then "video-note" ∷ []
    else if same filter "voice"
    then "voice" ∷ []
    else if same filter "music"
    then "audio" ∷ []
    else if same filter "document"
    then "document" ∷ []
    else if same filter "gif"
    then "gif" ∷ []
    else if same filter "geo"
    then "geo" ∷ []
    else if same filter "contact"
    then "contact" ∷ []
    else if same filter "url"
    then "webpage" ∷ []
    else []

-- The documented constraints of a search: media of the filter's kinds, where there is a filter, and
-- "only messages with a sending date bigger" than `min_date` and "smaller" than `max_date`, each
-- where it is positive. (The walk passes no senders, although the plan lists them.)
unfoldable pub is_selected : Pushdown → Context → Bool
is_selected push ctx =
    (is_empty push.messages_filter || elim (file_of ctx) [
      | none ↦ false
      | some f ↦ contains (served_kinds push.messages_filter) f.kind
    ])
    && ((leb_ℤ push.min_date (pos 0) || ltb_ℤ push.min_date ctx.message.date)
        && (leb_ℤ push.max_date (pos 0) || ltb_ℤ ctx.message.date push.max_date))

-- The message is dated at the very second of a bound that is pushed down.
unfoldable pub on_bound : Pushdown → Context → Bool
on_bound push ctx =
    ltb_ℤ (pos 0) push.min_date && same_ℤ push.min_date ctx.message.date
    || ltb_ℤ (pos 0) push.max_date && same_ℤ push.max_date ctx.message.date

abbrev serves_own : String × String → Bool
serves_own (kind, filter) = contains (served_kinds filter) kind
