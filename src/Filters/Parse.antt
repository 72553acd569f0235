-- ===== src/Filters/Parse.antt =====
-- internal/filters/parse.go: sizes, times and relative times. The loop over the parts of a relative
-- time runs on as much fuel as the text has characters; a text is read by characters, and since
-- digits and the full stop are one byte each, the runs are those of the byte loops.
pub mod Ends
use teleparse.Base.{
  ℕ, zero, suc, ◌+◌, ◌-◌, ◌*◌, ◌^◌, Bool, not, ◌&&◌, ◌||◌, List, [], ◌∷◌, Option, none, some, ltb,
  leb, ◌==◌, ℤ, pos, ◌+ℤ◌, ◌-ℤ◌, ◌*ℤ◌, leb_ℤ, wrap_64, floor_div, Char, code, String, is_empty,
  same, if◌then◌else◌,
}
use teleparse.Base.Results.{Result, ok, err, ◌>>=◌}
use Prim.Native.String.{◌++◌}
use Prim.Native.String
use teleparse.Filters.Library.{Library}
use teleparse.Filters.Options.{
  FilterError, bad_parse, empty_size, bad_size_number, negative_size, empty_time, bad_time_format,
  empty_relative, bad_relative_num, non_positive, out_of_fuel,
}

-- `time.Second` and `time.Hour`, in nanoseconds.
abbrev pub second : ℕ
second = 1000000000

abbrev pub hour : ℕ
hour = 3600 * second

abbrev pub hours_per_day : ℕ
hours_per_day = 24

abbrev pub days_per_week : ℕ
days_per_week = 7

abbrev pub days_per_year : ℕ
days_per_year = 365

abbrev pub unit_table : List (String × ℕ)
unit_table =
    ("kib", 2 ^ 10)
    ∷ ("mib", 2 ^ 20)
    ∷ ("gib", 2 ^ 30)
    ∷ ("tib", 2 ^ 40)
    ∷ ("kb", 1000)
    ∷ ("mb", 1000000)
    ∷ ("gb", 1000000000)
    ∷ ("tb", 1000000000000)
    ∷ ("k", 1000)
    ∷ ("m", 1000000)
    ∷ ("g", 1000000000)
    ∷ ("t", 1000000000000)
    ∷ ("b", 1)
    ∷ []

abbrev pub time_layouts : List String
time_layouts =
    "2006-01-02T15:04:05Z07:00" ∷ "2006-01-02T15:04:05" ∷ "2006-01-02 15:04" ∷ "2006-01-02" ∷ []

abbrev pub cons_to : Char → Option String → Option String
cons_to c none = none
cons_to c (some s) = some (String.◌∷◌ c s)

-- `strings.HasSuffix` and the slice before the suffix: `none` where it is not one.
unfoldable pub before_suffix : String → String → Option String
before_suffix String.[] suffix = if is_empty suffix then some "" else none
before_suffix (String.◌∷◌ c rest) suffix =
    let shorter = before_suffix rest suffix in
    if same (String.◌∷◌ c rest) suffix then some "" else cons_to c shorter

module _ (lib : Library) where
  unfoldable pub parse_size_number : String → ℕ → Result FilterError ℤ
  parse_size_number num_text mul =
      let trimmed = lib.trim_space num_text in
      elim (lib.parse_float (if is_empty trimmed then "1" else trimmed)) [
        | none ↦ err bad_size_number
        | some value ↦
            if lib.float_negative value then err negative_size else ok (lib.scale value mul)
      ]

  -- The loop of `ParseSize` over the unit table.
  unfoldable pub parse_unit : List (String × ℕ) → String → Result FilterError ℤ
  unfolding parse_size_number
  parse_unit [] lower = parse_size_number lower 1
  parse_unit ((suffix, mul) ∷ units) lower =
      let rest = parse_unit units lower in
      elim (before_suffix lower suffix) [
        | none ↦ rest
        | some num_text ↦ parse_size_number num_text mul
      ]

  unfoldable pub parse_size : String → Result FilterError ℤ
  parse_size input =
      let text = lib.trim_space input in
      if is_empty text then err empty_size else parse_unit unit_table (lib.to_lower text)

  -- `ParseDuration` of options.go.
  unfoldable pub parse_duration : String → Result FilterError ℤ
  parse_duration input = elim (lib.parse_duration input) [ none ↦ err bad_parse | some d ↦ ok d ]

  -- `time.Duration(num) * ... * time.Hour`, each product in 64 bits.
  abbrev pub days_of : ℤ → ℕ → ℤ
  days_of num days = wrap_64 (num *ℤ pos (days * hours_per_day * hour))

  unfoldable pub relative_unit_duration : ℤ → String → Result FilterError ℤ
  relative_unit_duration num unit =
      if same unit "d"
      then ok (days_of num 1)
      else if same unit "w"
      then ok (days_of num days_per_week)
      else if same unit "y"
      then ok (days_of num days_per_year)
      else elim (lib.parse_duration (lib.format_int num ++ unit)) [
        | none ↦ err bad_parse
        | some d ↦ ok d
      ]

abbrev pub is_ascii_digit : Char → Bool
is_ascii_digit c = leb b'0' (code c) && leb (code c) b'9'

abbrev pub is_unit_char : Char → Bool
is_unit_char c = not (is_ascii_digit c) && not (code c == b'.')

unfoldable pub characters : String → ℕ
characters String.[] = 0
characters (String.◌∷◌ c rest) = suc (characters rest)

abbrev pub put_front : Char → String × String → String × String
put_front c (run, rest) = (String.◌∷◌ c run, rest)

-- The longest front of characters that pass, and the rest: `scanDigits` and `scanUnit`.
unfoldable pub scan : (Char → Bool) → String → String × String
scan pass String.[] = ("", "")
scan pass (String.◌∷◌ c rest) =
    let more = scan pass rest in if pass c then put_front c more else ("", String.◌∷◌ c rest)

unfoldable pub digits_value : ℕ → String → ℕ
digits_value acc String.[] = acc
digits_value acc (String.◌∷◌ c rest) = digits_value (acc * 10 + (code c - b'0')) rest

-- `strconv.Atoi` on digits: an error where the value is no `int`.
unfoldable pub atoi : String → Result FilterError ℤ
atoi digits = let n = digits_value 0 digits in if ltb n (2 ^ 63) then ok (pos n) else err bad_parse

module _ (lib : Library) where
  unfoldable pub compound_loop : ℕ → ℤ → String → Result FilterError ℤ
  compound_loop fuel total String.[] = ok total
  compound_loop zero total (String.◌∷◌ c rest) = err out_of_fuel
  compound_loop (suc fuel) total (String.◌∷◌ c rest) =
      let (digits, after) = scan is_ascii_digit (String.◌∷◌ c rest) in
      let (unit, later) = scan is_unit_char after in
      let more = atoi digits >>= λ num. relative_unit_duration lib num unit in
      if is_empty digits
      then err bad_relative_num
      else elim more [ err e ↦ err e | ok d ↦ compound_loop fuel (wrap_64 (total +ℤ d)) later ]

  unfoldable pub parse_relative_compound : String → Result FilterError ℤ
  parse_relative_compound text = elim (compound_loop (characters text) (pos 0) text) [
    | err e ↦ err e
    | ok total ↦ if leb_ℤ total (pos 0) then err non_positive else ok total
  ]

  unfoldable pub parse_relative : String → Result FilterError ℤ
  parse_relative input =
      let text = lib.trim_space (lib.to_lower input) in
      if is_empty text
      then err empty_relative
      else elim (lib.parse_duration text) [ some d ↦ ok d | none ↦ parse_relative_compound text ]

  unfoldable pub first_layout : List String → String → Option ℤ
  first_layout [] text = none
  first_layout (layout ∷ layouts) text =
      let rest = first_layout layouts text in
      elim (lib.parse_layout layout text) [ some t ↦ some t | none ↦ rest ]

  -- A time in nanoseconds.
  unfoldable pub parse_time : String → Result FilterError ℤ
  unfolding first_layout
  parse_time input =
      let text = lib.trim_space input in
      if is_empty text then err empty_time else elim (first_layout time_layouts text) [
        | some t ↦ ok t
        | none ↦ elim (parse_relative text) [
          | err e ↦ err bad_time_format
          | ok d ↦ ok (lib.now -ℤ d)
        ]
      ]

-- `stamp.Unix()`
abbrev pub unix : ℤ → ℤ
unix t = floor_div t second
