-- ===== src/Filters/Compile/Success.antt =====
-- `Compile` fails for no reason that `Validate` and the glob checks see, but the forward dates.
use teleparse.Base.{
  ◌≡◌, refl, Bool, List, [], ◌∷◌, Option, none, some, ℤ, pos, String, is_empty, Bool-cases,
  Option-cases, inl, inr, if◌then◌else◌, arith,
}
use teleparse.Base.Results.{Result, ok, err, ◌>>◌, Result-cases}
use teleparse.Filters.Library.{Library}
use teleparse.Filters.Options.{FilterError, Options}
use teleparse.Filters.Parse.{parse_size, parse_duration, parse_time, unix}
use teleparse.Filters.Validate.{
  Kind, size, duration, time, as_bad_parse, parse_by_kind, check_parsed, parsed_options,
  validate_parsed, check_regex, check_regexes, regex_options, validate_regexes, validate,
}
use teleparse.Filters.Families.{RegexSet}
use teleparse.Filters.Compile.{
  Plan, whole_seconds, validate_compile_extras, resolve_date, derive_pushdown, assign_regex,
  compile_regexes, optional_size, optional_duration, parse_file_bounds, file_predicates,
  date_predicates, forward_predicates, compile,
}

both_ok :
    {B : Type 0} (m : Result FilterError (Unit {0})) (k : Result FilterError B) (b : B)
    → (m >> k) ≡ ok b
    → (m ≡ ok tt) × (k ≡ ok b)
both_ok (ok tt) k b e = (refl, e)
both_ok (err x) k b e = cc e

parsed_ok : (r : Result FilterError ℤ) → as_bad_parse r ≡ ok tt → (v : ℤ) × (r ≡ ok v)
parsed_ok (ok v) e = (v, refl)
parsed_ok (err x) e = cc e

module _ (lib : Library) where
  abbrev Checked : String → Kind → Type 0
  Checked raw kind = (if is_empty raw then ok tt else parse_by_kind lib raw kind) ≡ ok tt

  abbrev AllChecked : List (String × Kind) → Type 0
  AllChecked [] = Unit
  AllChecked ((raw, kind) ∷ rest) = Checked raw kind × AllChecked rest

  check_parsed-AllChecked :
      (xs : List (String × Kind)) → check_parsed lib xs ≡ ok tt → AllChecked xs
  unfolding check_parsed
  check_parsed-AllChecked [] e = tt
  check_parsed-AllChecked ((raw, kind) ∷ rest) e =
      let (p, q) = both_ok _ (check_parsed lib rest) tt e in (p, check_parsed-AllChecked rest q)

  abbrev AllRegex : List String → Type 0
  AllRegex [] = Unit
  AllRegex (p ∷ rest) = (check_regex lib p ≡ ok tt) × AllRegex rest

  check_regexes-AllRegex : (ps : List String) → check_regexes lib ps ≡ ok tt → AllRegex ps
  unfolding check_regexes
  check_regexes-AllRegex [] e = tt
  check_regexes-AllRegex (p ∷ rest) e =
      let (a, b) = both_ok (check_regex lib p) (check_regexes lib rest) tt e in
      (a, check_regexes-AllRegex rest b)

  validate_checks :
      (o : Options)
      → validate lib o ≡ ok tt
      → AllChecked (parsed_options lib o) × AllRegex (regex_options lib o)
  unfolding validate validate_parsed validate_regexes
  validate_checks o e =
      let (front, regexes) = both_ok _ (validate_regexes lib o) tt e in
      let (_, parsed) = both_ok _ (validate_parsed lib o) tt front in
      let (values, _) = both_ok (check_parsed lib (parsed_options lib o)) _ tt parsed in
      (check_parsed-AllChecked _ values, check_regexes-AllRegex _ regexes)

  resolves :
      (primary fallback : String)
      → Checked primary time
      → Checked fallback time
      → (d : ℤ) × (resolve_date lib primary fallback ≡ ok d)
  unfolding resolve_date parse_by_kind
  resolves primary fallback p q = elim (Bool-cases (is_empty primary)) [
    | inr h ↦
        let (t, e) = parsed_ok (parse_time lib primary) (simp h at p) in
        (unix t, ground (arith, h, e))
    | inl h ↦ elim (Bool-cases (is_empty fallback)) [
      | inl k ↦ (pos 0, ground (arith, h, k))
      | inr k ↦
          let (t, e) = parsed_ok (parse_time lib fallback) (simp k at q) in
          (unix t, ground (arith, h, k, e))
    ]
  ]

  assigns :
      (pattern : String)
      → check_regex lib pattern ≡ ok tt
      → (m : Option (String → Bool)) × (assign_regex lib pattern ≡ ok m)
  unfolding assign_regex
  assigns pattern e = elim (Bool-cases (is_empty pattern)) [
    | inl h ↦ (none, simp h)
    | inr h ↦ elim (Option-cases (lib.regex pattern)) [
      | inl k ↦ cc (simp (h, k) at e)
      | inr (m, k) ↦ (some m, simp (h, k))
    ]
  ]

  sizes : (raw : String) → Checked raw size → (v : ℤ) × (optional_size lib raw ≡ ok v)
  unfolding optional_size parse_by_kind
  sizes raw e = elim (Bool-cases (is_empty raw)) [
    | inl h ↦ (pos 0, simp h)
    | inr h ↦ let (v, q) = parsed_ok (parse_size lib raw) (simp h at e) in (v, simp (h, q))
  ]

  durations : (raw : String) → Checked raw duration → (v : ℤ) × (optional_duration lib raw ≡ ok v)
  unfolding optional_duration parse_by_kind
  durations raw e = elim (Bool-cases (is_empty raw)) [
    | inl h ↦ (pos 0, simp h)
    | inr h ↦
        let (v, q) = parsed_ok (parse_duration lib raw) (simp h at e) in
        (whole_seconds v, simp (h, q))
  ]

  regexes_compile :
      (o : Options)
      → AllRegex (regex_options lib o)
      → (re : RegexSet) × (compile_regexes lib o ≡ ok re)
  unfolding compile_regexes
  regexes_compile o (chat, (name, (text, (url, (sender, (username, (phone, _))))))) =
      let (a, ea) = assigns o.chat_regex chat in
      let (b, eb) = assigns o.sender_name_regex sender in
      let (c, ec) = assigns o.sender_username_regex username in
      let (d, ed) = assigns o.sender_phone_regex phone in
      let (f, ef) = assigns o.name_regex name in
      let (g, eg) = assigns o.text_regex text in
      let (h, eh) = assigns o.url_regex url in
      (
        record {
          chat = a;
          sender_name = b;
          sender_username = c;
          sender_phone = d;
          name = f;
          text = g;
          url = h;
        },
        simp (ea, eb, ec, ed, ef, eg, eh),
      )

  -- `Compile` succeeds on all options that `Validate` accepts, with well-formed globs, a known album
  -- mode and forward dates that are empty or parse: no other check can fail later.
  pub compile_succeeds :
      (o : Options) (low high : ℤ)
      → validate lib o ≡ ok tt
      → validate_compile_extras lib o ≡ ok tt
      → resolve_date lib o.fwd_date_after "" ≡ ok low
      → resolve_date lib o.fwd_date_before "" ≡ ok high
      → (plan : Plan) × (compile lib o ≡ ok plan)
  unfolding compile derive_pushdown file_predicates parse_file_bounds date_predicates
      forward_predicates
  compile_succeeds o low high v x l h =
      let (
        (min_size, (max_size, (min_len, (max_len, (after, (_, (before, (last, (older, _))))))))),
        regexes,
      ) =
        validate_checks o v in
      let (re, er) = regexes_compile o regexes in
      let (a, ea) = sizes o.min_size min_size in
      let (b, eb) = sizes o.max_size max_size in
      let (c, ec) = durations o.min_duration min_len in
      let (d, ed) = durations o.max_duration max_len in
      let (p, ep) = resolves o.after o.last after last in
      let (q, eq) = resolves o.before o.older_than before older in
      elim (Result-cases (compile lib o)) [
        | inl made ↦ made
        | inr (problem, e) ↦ cc (simp (v, x, l, h, er, ea, eb, ec, ed, ep, eq) at e)
      ]
