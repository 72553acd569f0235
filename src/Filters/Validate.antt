-- ===== src/Filters/Validate.antt =====
-- internal/filters/options.go: `Validate`. The checks run in the order of the source; those of the
-- regular expressions, which Go takes from a map in any order, fail with the same sentinel.
use teleparse.Base.{◌&&◌, List, [], ◌∷◌, none, some, ℤ, pos, ltb_ℤ, String, is_empty, if◌then◌else◌}
use teleparse.Base.Results.{Result, ok, err, ◌>>◌}
use teleparse.Filters.Library.{Library}
use teleparse.Filters.Options.{
  FilterError, bad_regex, bad_id_range, bad_parse, Options, media_kinds, chat_types, sticker_kinds,
  album_modes, archived_modes, has_text_modes, service_modes, dedupe_modes, check_vocab,
}
use teleparse.Filters.Parse.{parse_size, parse_duration, parse_time}

pub data Kind : Type 0 where
  size duration time : Kind

abbrev pub as_bad_parse : Result FilterError ℤ → Result FilterError (Unit {0})
as_bad_parse (ok v) = ok tt
as_bad_parse (err e) = err bad_parse

module _ (lib : Library) where
  unfoldable pub parse_by_kind : String → Kind → Result FilterError (Unit {0})
  parse_by_kind raw size = as_bad_parse (parse_size lib raw)
  parse_by_kind raw duration = as_bad_parse (parse_duration lib raw)
  parse_by_kind raw time = as_bad_parse (parse_time lib raw)

  unfoldable pub check_parsed : List (String × Kind) → Result FilterError (Unit {0})
  check_parsed [] = ok tt
  check_parsed ((raw, kind) ∷ rest) =
      (if is_empty raw then ok tt else parse_by_kind raw kind) >> check_parsed rest

  abbrev pub parsed_options : Options → List (String × Kind)
  parsed_options o =
      (o.min_size, size)
      ∷ (o.max_size, size)
      ∷ (o.min_duration, duration)
      ∷ (o.max_duration, duration)
      ∷ (o.after, time)
      ∷ (o.chat_min_age, time)
      ∷ (o.before, time)
      ∷ (o.last, time)
      ∷ (o.older_than, time)
      ∷ []

  unfoldable pub validate_parsed : Options → Result FilterError (Unit {0})
  validate_parsed o =
      check_parsed (parsed_options o)
      >> (if ltb_ℤ (pos 0) o.min_id && ltb_ℤ (pos 0) o.max_id && ltb_ℤ o.max_id o.min_id
          then err bad_id_range
          else ok tt)

  abbrev pub check_regex : String → Result FilterError (Unit {0})
  check_regex pattern =
      if is_empty pattern
      then ok tt
      else elim (lib.regex pattern) [ none ↦ err bad_regex | some m ↦ ok tt ]

  unfoldable pub check_regexes : List String → Result FilterError (Unit {0})
  check_regexes [] = ok tt
  check_regexes (pattern ∷ rest) = check_regex pattern >> check_regexes rest

  abbrev pub regex_options : Options → List String
  regex_options o =
      o.chat_regex ∷ o.name_regex ∷ o.text_regex ∷ o.url_regex ∷ o.sender_name_regex
      ∷ o.sender_username_regex ∷ o.sender_phone_regex ∷ []

  unfoldable pub validate_regexes : Options → Result FilterError (Unit {0})
  validate_regexes o = check_regexes (regex_options o)

  unfoldable pub validate : Options → Result FilterError (Unit {0})
  validate o =
      check_vocab o.media media_kinds
      >> check_vocab o.exclude_media media_kinds
      >> check_vocab o.chat_type chat_types
      >> check_vocab o.exclude_chat_type chat_types
      >> check_vocab o.sticker_kind sticker_kinds
      >> check_vocab (o.recursion.albums ∷ []) album_modes
      >> check_vocab (o.archived ∷ []) archived_modes
      >> check_vocab (o.has_text ∷ []) has_text_modes
      >> check_vocab (o.service ∷ []) service_modes
      >> check_vocab (o.dedupe ∷ []) dedupe_modes
      >> validate_parsed o
      >> validate_regexes o
