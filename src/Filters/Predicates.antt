-- ===== src/Filters/Predicates.antt =====
-- internal/filters/plan.go and compile.go: named predicates, and the tests that they are made of.
use teleparse.Base.{
  ℕ, Bool, true, false, not, ◌&&◌, ◌||◌, List, [], ◌∷◌, map, Option, none, some, leb, ℤ, code,
  String, is_empty, same, any, if◌then◌else◌,
}
use teleparse.Filters.Library.{Library}
use teleparse.Filters.Context.{Context, Entity, FileInfo, Reaction, file_of, text_or_caption}
use teleparse.Filters.Options.{contains}
use teleparse.Filters.Parse.{is_ascii_digit}

pub record NamedPredicate : Type 0 where
  pub name : String
  pub fn : Context → Bool

-- `if on { preds = append(preds, NamedPredicate{Name: name, Fn: fn}) }`
abbrev pub when : Bool → String → (Context → Bool) → List NamedPredicate
when on name fn = if on then record { name = name; fn = fn } ∷ [] else []

-- A predicate that is there when its regular expression is.
abbrev pub when_regex :
    Option (String → Bool) → String → ((String → Bool) → Context → Bool) → List NamedPredicate
when_regex none name test = []
when_regex (some matcher) name test = record { name = name; fn = test matcher } ∷ []

-- `get(ctx) == want` of `triPredicate`
abbrev pub agrees : Bool → Bool → Bool
agrees true want = want
agrees false want = not want

-- `requireFilePredicate`
abbrev pub require_file : (FileInfo → Bool) → Context → Bool
require_file pass ctx = elim (file_of ctx) [ none ↦ false | some f ↦ pass f ]

-- The shape of `exclude_media`, `exclude_mime` and `exclude_ext`.
abbrev pub refuse_file : (FileInfo → Bool) → Context → Bool
refuse_file hit ctx = elim (file_of ctx) [ none ↦ true | some f ↦ not (hit f) ]

-- `strings.TrimPrefix` with a prefix of one character.
unfoldable pub trim_prefix : String → ℕ → String
trim_prefix String.[] c = ""
trim_prefix (String.◌∷◌ d rest) c =
    if leb (code d) c && leb c (code d) then rest else String.◌∷◌ d rest

unfoldable pub digits_only : String → String
digits_only String.[] = ""
digits_only (String.◌∷◌ c rest) =
    let more = digits_only rest in if is_ascii_digit c then String.◌∷◌ c more else more

unfoldable pub chat_type_matches : List String → Context → Bool
chat_type_matches types ctx =
    any
      (λ want.
        (same want "bot" && (same ctx.chat.typ "bot" || ctx.sender.is_bot))
        || same ctx.chat.typ want)
      types

unfoldable pub has_entity_kind : List Entity → String → Bool
has_entity_kind entities kind = any (λ (e : Entity). same e.kind kind) entities

unfoldable pub command_matches : String → List Entity → Bool
command_matches want entities =
    any (λ (e : Entity). same e.kind "bot_command" && same e.text want) entities

unfoldable pub has_url_value : Context → Bool
has_url_value ctx =
    has_entity_kind ctx.message.entities "url"
    || has_entity_kind ctx.message.entities "text_link"
    || elim ctx.file [ none ↦ false | some f ↦ same f.kind "webpage" ]

unfoldable pub url_entities_match : (String → Bool) → List Entity → Bool
url_entities_match url entities =
    any (λ (e : Entity). (same e.kind "url" || same e.kind "text_link") && url e.data_) entities

unfoldable pub has_text_matches : String → Context → Bool
has_text_matches mode ctx =
    let text = text_or_caption ctx in
    if same mode "any"
    then not (is_empty text)
    else if same mode "none"
    then is_empty text
    else if same mode "only"
    then not (is_empty text) && elim (file_of ctx) [ none ↦ true | some f ↦ false ]
    else true

unfoldable pub reactions_match : List String → List Reaction → Bool
reactions_match wanted reactions = any (λ (r : Reaction). contains wanted r.emoji) reactions

unfoldable pub forward_present : Context → Bool
forward_present ctx = elim ctx.message.forward [ none ↦ false | some f ↦ f.present ]

module _ (lib : Library) where
  unfoldable pub match_glob : String → String → Bool
  match_glob pattern value = elim (lib.glob pattern value) [ none ↦ false | some b ↦ b ]

  unfoldable pub any_glob_matches : List String → String → Bool
  any_glob_matches patterns value = any (λ p. match_glob p value) patterns

  abbrev pub lower_all : List String → List String
  lower_all values = map lib.to_lower values

  unfoldable pub normalize_handle : String → String
  normalize_handle handle = trim_prefix (lib.to_lower handle) b'@'

  unfoldable pub normalize_ext : String → String
  normalize_ext raw = lib.to_lower (trim_prefix raw b'.')

  abbrev pub normalize_exts : List String → List String
  normalize_exts raw = map normalize_ext raw

  unfoldable pub match_id_handle_or_phone : String → ℤ → String → String → Bool
  match_id_handle_or_phone entry id username phone =
      let needle = trim_prefix entry b'@' in
      same (lib.format_int id) needle
      || lib.equal_fold (trim_prefix username b'@') needle
      || (not (is_empty (digits_only entry))
          && not (is_empty (digits_only phone))
          && same (digits_only entry) (digits_only phone))

  unfoldable pub sender_matches : List String → Context → Bool
  sender_matches entries ctx =
      any
        (λ entry. match_id_handle_or_phone entry ctx.sender.id ctx.sender.username ctx.sender.phone)
        entries

  unfoldable pub fwd_from_matches : List String → Context → Bool
  fwd_from_matches entries ctx = elim ctx.message.forward [
    | none ↦ false
    | some f ↦
        f.present
        && any (λ entry. match_id_handle_or_phone entry f.from_id f.from_username "") entries
  ]

  unfoldable pub entities_contain_tag : List Entity → String → Bool
  entities_contain_tag entities want =
      any
        (λ (e : Entity).
          same e.kind "hashtag" && lib.equal_fold (trim_prefix e.text b'#') (trim_prefix want b'#'))
        entities

  -- Every entry must be there; "*" asks for any hashtag.
  unfoldable pub hashtags_match : List String → List Entity → Bool
  hashtags_match [] entities = true
  hashtags_match (entry ∷ entries) entities =
      let rest = hashtags_match entries entities in
      (if same entry "*"
        then has_entity_kind entities "hashtag"
        else entities_contain_tag entities entry)
      && rest

  unfoldable pub entities_contain_mention : List Entity → String → Bool
  entities_contain_mention entities want =
      any
        (λ (e : Entity).
          (same e.kind "mention" || same e.kind "text_mention")
          && (same want "*" || lib.equal_fold (trim_prefix e.text b'@') (trim_prefix want b'@')))
        entities

  unfoldable pub mentions_match : List String → List Entity → Bool
  mentions_match entries entities = any (λ entry. entities_contain_mention entities entry) entries

  unfoldable pub no_letters : String → Bool
  no_letters String.[] = true
  no_letters (String.◌∷◌ c rest) =
      let more = no_letters rest in if lib.is_letter c || lib.is_digit c then false else more

  unfoldable pub emoji_only : String → Bool
  emoji_only text = not (is_empty text) && no_letters text
