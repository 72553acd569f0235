-- ===== src/Filters/Tests.antt =====
-- The filters at concrete options, with a library that knows no regular expression, no case and
-- the glob `*`.
use teleparse.Base.{◌≡◌, ◌≢◌, refl, true, false, ◌||◌, [], ◌∷◌, none, some, pos, String, same}
use teleparse.Base.Results.{Result, ok, err}
use teleparse.Filters.Library.{Library}
use teleparse.Filters.Context.{Context, FileInfo, file_of}
use teleparse.Filters.Options.{FilterError, Options, no_options, contains, check_vocab, out_of_fuel}
use teleparse.Filters.Parse.{
  parse_time, first_layout, parse_relative, parse_relative_compound, compound_loop, scan,
  characters, atoi, digits_value, relative_unit_duration,
}
use teleparse.Filters.Parse.Ends.{parse_relative_ends}
use teleparse.Filters.Validate.{
  validate, validate_parsed, validate_regexes, check_parsed, check_regexes, parse_by_kind,
}
use teleparse.Filters.Predicates.{
  chat_type_matches, sender_matches, any_glob_matches, normalize_ext, trim_prefix,
}
use teleparse.Filters.Families.{
  media_predicates, chat_predicates, sender_predicates, file_match_predicates,
  file_bound_predicates, text_predicates, engagement_predicates, misc_predicates,
}
use teleparse.Filters.Compile.{
  Plan, messages_filter_for, filter_of, matches, validate_compile_extras, check_globs, resolve_date,
  derive_pushdown, assign_regex, compile_regexes, optional_size, optional_duration,
  parse_file_bounds, file_predicates, date_predicates, forward_predicates, compile,
}
use teleparse.Filters.Compile.Exclusion.{is_excluded, matches_excluded}
use teleparse.Filters.Compile.Success.{compile_succeeds}

abbrev plain : Library
plain = record {
  to_lower = λ s. s;
  equal_fold = same;
  trim_space = λ s. s;
  format_int = λ n. "7";
  is_letter = λ c. false;
  is_digit = λ c. false;
  glob = λ p s. some (same p "*" || same p s);
  regex = λ p. none;
  parse_float = λ s. none;
  float_negative = λ f. false;
  float_positive = λ f. false;
  scale = λ f n. pos 0;
  reaches = λ p f. false;
  parse_duration = λ s. none;
  parse_layout = λ l s. none;
  now = pos 1000000000000000000;
}

-- The documents of the last nine days, but no archives.
abbrev some_options : Options
some_options = record no_options { media = "document" ∷ []; exclude_ext = ".zip" ∷ []; last = "9d" }

abbrev file : String → FileInfo
file ext = record {
  present = true;
  kind = "document";
  mime = "application/zip";
  name = "a";
  ext = ext;
  size = pos 5;
  duration = pos 0;
  width = pos 0;
  height = pos 0;
  streamable = false;
  no_sound = false;
  waveform = false;
  sticker_kind = "";
}

abbrev message : String → Context
message ext = record {
  chat = record {
    id = pos 1;
    typ = "group";
    title = "t";
    username = "";
    archived = false;
    protected = false;
    saved = false;
    deleted = false;
  };
  sender = record {
    present = false;
    id = pos 0;
    name = "";
    username = "";
    phone = "";
    is_bot = false;
    is_contact = false;
    is_mutual = false;
    is_premium = false;
    is_verified = false;
    is_scam = false;
    is_deleted = false;
  };
  message = record {
    id = pos 9;
    out = false;
    date = pos 999999999;
    edit_date = pos 0;
    has_edit = false;
    text = "";
    caption = "";
    entities = [];
    pinned = false;
    silent = false;
    service = false;
    views = pos 0;
    forwards = pos 0;
    reactions = [];
    total_reactions = pos 0;
    forward = none;
    reply = none;
    grouped_id = pos 0;
    mentioned = false;
    spoiler = false;
    ttl_seconds = pos 0;
  };
  file = some (file ext);
}

valid : validate plain some_options ≡ ok tt
unfolding validate validate_parsed validate_regexes check_parsed check_regexes check_vocab contains
    parse_by_kind parse_time first_layout parse_relative parse_relative_compound compound_loop scan
    characters atoi digits_value relative_unit_duration
valid = refl

valid_extras : validate_compile_extras plain some_options ≡ ok tt
unfolding validate_compile_extras check_vocab contains check_globs
valid_extras = refl

no_date : resolve_date plain "" "" ≡ ok (pos 0)
unfolding resolve_date
no_date = refl

compile_succeeds_example : (plan : Plan) × (compile plain some_options ≡ ok plan)
compile_succeeds_example =
    compile_succeeds plain some_options (pos 0) (pos 0) valid valid_extras no_date no_date

abbrev plan_of : Result FilterError Plan → Plan
plan_of (ok p) = p
plan_of (err e) = record {
  pushdown = record { messages_filter = ""; min_date = pos 0; max_date = pos 0; from_users = [] };
  predicates = [];
}

abbrev plan : Plan
plan = plan_of (compile plain some_options)

made : compile plain some_options ≡ ok plan
unfolding validate validate_parsed validate_regexes check_parsed check_regexes check_vocab contains
    parse_by_kind parse_time first_layout parse_relative parse_relative_compound compound_loop scan
    characters atoi digits_value relative_unit_duration validate_compile_extras check_globs
    resolve_date derive_pushdown messages_filter_for filter_of assign_regex compile_regexes
    optional_size optional_duration parse_file_bounds file_predicates date_predicates
    forward_predicates compile media_predicates chat_predicates sender_predicates
    file_match_predicates file_bound_predicates text_predicates engagement_predicates
    misc_predicates
made = refl

archive_excluded : is_excluded plain some_options (message "zip") ≡ true
unfolding is_excluded chat_type_matches sender_matches any_glob_matches contains file_of
    normalize_ext trim_prefix
archive_excluded = refl

matches_excluded_example : matches plan (message "zip") ≡ false
matches_excluded_example =
    matches_excluded plain some_options plan (message "zip") made archive_excluded

parse_relative_ends_example : parse_relative plain "3d12w" ≢ err out_of_fuel
parse_relative_ends_example = parse_relative_ends plain "3d12w"
