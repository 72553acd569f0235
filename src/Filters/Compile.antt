-- ===== src/Filters/Compile.antt =====
-- internal/filters/compile.go: `Compile`, and `matches` of internal/scan/walk.go. Every error of
-- `Compile` is wrapped in `ErrCompile`, which is left out, as are the lines of `--explain`. The
-- clock is read once, where Go reads it at each relative time.
pub mod Plans
pub mod Exclusion
pub mod Served
pub mod Success
use teleparse.Base.{
  ℕ, Bool, true, false, not, ◌&&◌, ◌||◌, List, [], ◌∷◌, ◌++◌, Option, none, some, ◌==◌, length, ℤ,
  pos, leb_ℤ, is_zero_ℤ, ◌/◌, negsuc, ◌+◌, ◌-◌, suc, String, is_empty, is_nil, same, every,
  if◌then◌else◌,
}
use teleparse.Base.Results.{Result, ok, err, ◌>>=◌, ◌>>◌}
use teleparse.Filters.Library.{Library}
use teleparse.Filters.Context.{Context}
use teleparse.Filters.Options.{FilterError, bad_regex, bad_pattern, Options, contains, check_vocab}
use teleparse.Filters.Parse.{second, unix, parse_size, parse_duration, parse_time}
use teleparse.Filters.Validate.{validate}
use teleparse.Filters.Predicates.{NamedPredicate, when, forward_present, fwd_from_matches}
use teleparse.Filters.Families.{
  RegexSet, FileBounds, is_positive, forward_hidden, forward_date, tri, engagement_predicates,
  misc_predicates, media_predicates, chat_predicates, sender_predicates, file_match_predicates,
  file_bound_predicates, text_predicates,
}

pub record Pushdown : Type 0 where
  pub messages_filter : String
  pub min_date : ℤ
  pub max_date : ℤ
  pub from_users : List String

pub record Plan : Type 0 where
  pub pushdown : Pushdown
  pub predicates : List NamedPredicate

abbrev pub in_album_modes : List String
in_album_modes = "" ∷ "any" ∷ "only" ∷ "first" ∷ []

-- The switch of `messagesFilterFor`.
abbrev pub filter_table : List (String × String)
filter_table =
    ("photo", "photo")
    ∷ ("video", "video")
    ∷ ("video-note", "round_video")
    ∷ ("voice", "voice")
    ∷ ("audio", "music")
    ∷ ("document", "document")
    ∷ ("gif", "gif")
    ∷ ("geo", "geo")
    ∷ ("contact", "contact")
    ∷ ("webpage", "url")
    ∷ []

unfoldable pub filter_of : List (String × String) → String → String
filter_of [] kind = ""
filter_of ((k, filter) ∷ table) kind =
    let rest = filter_of table kind in if same k kind then filter else rest

unfoldable pub messages_filter_for : List String → String
messages_filter_for [] = ""
messages_filter_for (kind ∷ []) = filter_of filter_table kind
messages_filter_for (a ∷ b ∷ []) =
    if contains (a ∷ b ∷ []) "photo" && contains (a ∷ b ∷ []) "video" then "photo_video" else ""
messages_filter_for (a ∷ b ∷ c ∷ kinds) = ""

-- `time.Duration.Seconds` and `int`: towards zero.
abbrev pub whole_seconds : ℤ → ℤ
whole_seconds (pos n) = pos (n / second)
whole_seconds (negsuc n) = if suc n / second == 0 then pos 0 else negsuc (suc n / second - 1)

-- The loop of `matches`.
unfoldable pub all_pass : List NamedPredicate → Context → Bool
all_pass predicates ctx = every (λ (p : NamedPredicate). p.fn ctx) predicates

unfoldable pub matches : Plan → Context → Bool
unfolding all_pass
matches plan ctx = all_pass plan.predicates ctx

module _ (lib : Library) where
  unfoldable pub check_globs : List String → Result FilterError (Unit {0})
  check_globs [] = ok tt
  check_globs (pattern ∷ patterns) =
      (if is_empty pattern
        then ok tt
        else elim (lib.glob pattern "") [ none ↦ err bad_pattern | some b ↦ ok tt ])
      >> check_globs patterns

  unfoldable pub validate_compile_extras : Options → Result FilterError (Unit {0})
  validate_compile_extras o =
      check_vocab (o.in_album ∷ []) in_album_modes
      >> check_globs ((o.chat_glob ∷ o.name_glob ∷ []) ++ (o.mime ++ o.exclude_mime))

  unfoldable pub resolve_date : String → String → Result FilterError ℤ
  resolve_date primary fallback =
      let raw = if is_empty primary then fallback else primary in
      if is_empty raw then ok (pos 0) else parse_time lib raw >>= λ t. ok (unix t)

  unfoldable pub derive_pushdown : Options → Result FilterError Pushdown
  derive_pushdown o = resolve_date o.after o.last >>= λ min_date.
      resolve_date o.before o.older_than >>= λ max_date. ok (record {
        messages_filter = messages_filter_for o.media;
        min_date = min_date;
        max_date = max_date;
        from_users = o.from_users;
      })

  unfoldable pub assign_regex : String → Result FilterError (Option (String → Bool))
  assign_regex pattern =
      if is_empty pattern
      then ok none
      else elim (lib.regex pattern) [ none ↦ err bad_regex | some matcher ↦ ok (some matcher) ]

  unfoldable pub compile_regexes : Options → Result FilterError RegexSet
  compile_regexes o = assign_regex o.chat_regex >>= λ chat.
      assign_regex o.sender_name_regex >>= λ sender_name.
      assign_regex o.sender_username_regex >>= λ sender_username.
      assign_regex o.sender_phone_regex >>= λ sender_phone. assign_regex o.name_regex >>= λ name.
      assign_regex o.text_regex >>= λ text. assign_regex o.url_regex >>= λ url. ok (record {
        chat = chat;
        sender_name = sender_name;
        sender_username = sender_username;
        sender_phone = sender_phone;
        name = name;
        text = text;
        url = url;
      })

  unfoldable pub optional_size : String → Result FilterError ℤ
  optional_size raw = if is_empty raw then ok (pos 0) else parse_size lib raw

  unfoldable pub optional_duration : String → Result FilterError ℤ
  optional_duration raw =
      if is_empty raw then ok (pos 0) else parse_duration lib raw >>= λ d. ok (whole_seconds d)

  unfoldable pub parse_file_bounds : Options → Result FilterError FileBounds
  parse_file_bounds o = optional_size o.min_size >>= λ min_size.
      optional_size o.max_size >>= λ max_size. optional_duration o.min_duration >>= λ min_seconds.
      optional_duration o.max_duration >>= λ max_seconds. ok (record {
        min_size = min_size;
        max_size = max_size;
        min_seconds = min_seconds;
        max_seconds = max_seconds;
      })

  unfoldable pub file_predicates : Options → RegexSet → Result FilterError (List NamedPredicate)
  file_predicates o re = parse_file_bounds o >>= λ bounds.
      ok (file_match_predicates lib o re ++ file_bound_predicates lib o bounds)

  unfoldable pub date_predicates : Options → Result FilterError (List NamedPredicate)
  date_predicates o = resolve_date o.after o.last >>= λ min_date.
      resolve_date o.before o.older_than >>= λ max_date. ok (
        when (not (is_zero_ℤ min_date)) "after" (λ ctx. leb_ℤ min_date ctx.message.date)
        ++ (when (not (is_zero_ℤ max_date)) "before" (λ ctx. leb_ℤ ctx.message.date max_date)
            ++ tri o.edited "edited" (λ ctx. ctx.message.has_edit)))

  unfoldable pub forward_predicates : Options → Result FilterError (List NamedPredicate)
  forward_predicates o = resolve_date o.fwd_date_after "" >>= λ min_date.
      resolve_date o.fwd_date_before "" >>= λ max_date. ok (
        tri o.forwarded "forwarded" forward_present
        ++ (when (not (is_nil o.fwd_from)) "fwd_from" (fwd_from_matches lib o.fwd_from)
            ++ (tri o.fwd_hidden "fwd_hidden" forward_hidden
                ++ (when (not (is_zero_ℤ min_date)) "fwd_date_after"
                      (forward_date (λ date. leb_ℤ min_date date))
                    ++ when (not (is_zero_ℤ max_date)) "fwd_date_before"
                        (forward_date (λ date. leb_ℤ date max_date))))))

  unfoldable pub compile : Options → Result FilterError Plan
  compile o =
      validate lib o
      >> (validate_compile_extras o
          >> (derive_pushdown o >>= λ push. compile_regexes o >>= λ re.
              file_predicates o re >>= λ file_preds. date_predicates o >>= λ date_preds.
              forward_predicates o >>= λ fwd_preds. ok (record {
                pushdown = push;
                predicates =
                    chat_predicates lib o re
                    ++ (sender_predicates lib o re
                        ++ (media_predicates o
                            ++ (file_preds
                                ++ (text_predicates lib o re
                                    ++ (date_preds
                                        ++ (fwd_preds
                                            ++ (engagement_predicates o ++ misc_predicates o)))))));
              })))
