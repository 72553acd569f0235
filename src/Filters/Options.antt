-- ===== src/Filters/Options.antt =====
-- internal/filters/options.go: the options, their vocabularies and `Validate`. The texts that are
-- wrapped round the sentinel errors are left out.
use teleparse.Base.{ℕ, Bool, false, List, [], ◌∷◌, ℤ, pos, String, same, any, if◌then◌else◌}
use teleparse.Base.Results.{Result, ok, err}

-- The sentinels of options.go, parse.go and `path.Match` (`bad_pattern`), those of `time` and
-- `strconv` being inside `bad_parse` and `bad_size_number`; and `out_of_fuel` of this model.
pub data FilterError : Type 0 where
  bad_vocab bad_regex bad_id_range bad_parse bad_pattern : FilterError
  empty_size bad_size_number negative_size empty_time bad_time_format : FilterError
  empty_relative bad_relative_num non_positive out_of_fuel : FilterError

pub record TriBool : Type 0 where
  pub set : Bool
  pub value : Bool

pub record Recursion : Type 0 where
  pub topics : Bool
  pub albums : String
  pub replies : ℤ
  pub forwards : ℤ

-- `min_mp` is a `float64`, as its bits.
pub record Options : Type 0 where
  pub chat_type : List String
  pub exclude_chat_type : List String
  pub chat_glob : String
  pub chat_regex : String
  pub archived : String
  pub saved_only : Bool
  pub chat_min_age : String
  pub chat_username : String
  pub chat_deleted : TriBool
  pub contacts_only : Bool
  pub mutual_only : Bool
  pub from_me : TriBool
  pub from_users : List String
  pub exclude_users : List String
  pub sender_bot : TriBool
  pub sender_premium : TriBool
  pub sender_verified : TriBool
  pub sender_scam : TriBool
  pub sender_deleted : TriBool
  pub sender_non_contacts : Bool
  pub sender_non_mutual : Bool
  pub sender_name_regex : String
  pub sender_username_regex : String
  pub sender_phone_regex : String
  pub media : List String
  pub exclude_media : List String
  pub sticker_kind : List String
  pub has_media : TriBool
  pub in_album : String
  pub mime : List String
  pub exclude_mime : List String
  pub ext : List String
  pub exclude_ext : List String
  pub name_glob : String
  pub name_regex : String
  pub min_size : String
  pub max_size : String
  pub min_duration : String
  pub max_duration : String
  pub min_width : ℤ
  pub max_width : ℤ
  pub min_height : ℤ
  pub max_height : ℤ
  pub min_mp : ℕ
  pub streamable : TriBool
  pub no_sound : TriBool
  pub text_regex : String
  pub has_text : String
  pub hashtag : List String
  pub any_hashtag : Bool
  pub mention : List String
  pub was_mentioned : TriBool
  pub has_url : TriBool
  pub url_regex : String
  pub has_email : Bool
  pub has_phone : Bool
  pub command : String
  pub emoji_only : Bool
  pub after : String
  pub before : String
  pub last : String
  pub older_than : String
  pub edited : TriBool
  pub forwarded : TriBool
  pub fwd_from : List String
  pub fwd_hidden : TriBool
  pub fwd_date_after : String
  pub fwd_date_before : String
  pub is_reply : TriBool
  pub min_views : ℤ
  pub min_forwards : ℤ
  pub min_reactions : ℤ
  pub reaction : List String
  pub pinned : TriBool
  pub min_id : ℤ
  pub max_id : ℤ
  pub service : String
  pub silent : TriBool
  pub has_spoiler : TriBool
  pub skip_protected : Bool
  pub limit : ℤ
  pub reverse : Bool
  pub order : String
  pub dedupe : String
  pub skip_existing : Bool
  pub since_state : String
  pub recursion : Recursion

abbrev pub no_tri : TriBool
no_tri = record { set = false; value = false }

abbrev pub no_recursion : Recursion
no_recursion = record { topics = false; albums = ""; replies = pos 0; forwards = pos 0 }

-- `Options{}`
abbrev pub no_options : Options
no_options = record {
  chat_type = [];
  exclude_chat_type = [];
  chat_glob = "";
  chat_regex = "";
  archived = "";
  saved_only = false;
  chat_min_age = "";
  chat_username = "";
  chat_deleted = no_tri;
  contacts_only = false;
  mutual_only = false;
  from_me = no_tri;
  from_users = [];
  exclude_users = [];
  sender_bot = no_tri;
  sender_premium = no_tri;
  sender_verified = no_tri;
  sender_scam = no_tri;
  sender_deleted = no_tri;
  sender_non_contacts = false;
  sender_non_mutual = false;
  sender_name_regex = "";
  sender_username_regex = "";
  sender_phone_regex = "";
  media = [];
  exclude_media = [];
  sticker_kind = [];
  has_media = no_tri;
  in_album = "";
  mime = [];
  exclude_mime = [];
  ext = [];
  exclude_ext = [];
  name_glob = "";
  name_regex = "";
  min_size = "";
  max_size = "";
  min_duration = "";
  max_duration = "";
  min_width = pos 0;
  max_width = pos 0;
  min_height = pos 0;
  max_height = pos 0;
  min_mp = 0;
  streamable = no_tri;
  no_sound = no_tri;
  text_regex = "";
  has_text = "";
  hashtag = [];
  any_hashtag = false;
  mention = [];
  was_mentioned = no_tri;
  has_url = no_tri;
  url_regex = "";
  has_email = false;
  has_phone = false;
  command = "";
  emoji_only = false;
  after = "";
  before = "";
  last = "";
  older_than = "";
  edited = no_tri;
  forwarded = no_tri;
  fwd_from = [];
  fwd_hidden = no_tri;
  fwd_date_after = "";
  fwd_date_before = "";
  is_reply = no_tri;
  min_views = pos 0;
  min_forwards = pos 0;
  min_reactions = pos 0;
  reaction = [];
  pinned = no_tri;
  min_id = pos 0;
  max_id = pos 0;
  service = "";
  silent = no_tri;
  has_spoiler = no_tri;
  skip_protected = false;
  limit = pos 0;
  reverse = false;
  order = "";
  dedupe = "";
  skip_existing = false;
  since_state = "";
  recursion = no_recursion;
}

abbrev pub media_kinds : List String
media_kinds =
    "photo" ∷ "video" ∷ "video-note" ∷ "voice" ∷ "audio" ∷ "document" ∷ "sticker" ∷ "gif"
    ∷ "webpage" ∷ "poll" ∷ "geo" ∷ "contact" ∷ "dice" ∷ "game" ∷ "invoice" ∷ "story" ∷ "paid"
    ∷ "unsupported" ∷ []

abbrev pub chat_types : List String
chat_types = "private" ∷ "bot" ∷ "group" ∷ "supergroup" ∷ "channel" ∷ "forum" ∷ []

abbrev pub sticker_kinds : List String
sticker_kinds = "static" ∷ "animated" ∷ "video" ∷ []

abbrev pub album_modes : List String
album_modes = "" ∷ "expand" ∷ "first" ∷ "skip" ∷ []

abbrev pub archived_modes : List String
archived_modes = "" ∷ "only" ∷ "exclude" ∷ "any" ∷ []

abbrev pub has_text_modes : List String
has_text_modes = "" ∷ "any" ∷ "only" ∷ "none" ∷ []

abbrev pub service_modes : List String
service_modes = "" ∷ "any" ∷ "only" ∷ "exclude" ∷ []

abbrev pub dedupe_modes : List String
dedupe_modes = "" ∷ "hardlink" ∷ "unique-id" ∷ "hash" ∷ "off" ∷ []

unfoldable pub contains : List String → String → Bool
contains list v = any (λ item. same item v) list

unfoldable pub check_vocab : List String → List String → Result FilterError (Unit {0})
check_vocab [] allowed = ok tt
check_vocab (v ∷ values) allowed =
    let rest = check_vocab values allowed in if contains allowed v then rest else err bad_vocab
