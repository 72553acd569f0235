-- ===== src/Filters/Library.antt =====
-- What the filters use of Go's standard library: regular expressions, globs, Unicode texts, floats
-- and the clock. A `float64` stands as its 64 bits, a time as its nanoseconds since 1970.
use teleparse.Base.{ℕ, Bool, Option, ℤ, String, Char}

-- `glob` is `path.Match`, with `none` for a bad pattern; `regex` is `regexp.Compile` and then
-- `MatchString`; `parse_layout` is `time.Parse`; `parse_duration` answers in nanoseconds;
-- `float_negative` is `value < 0`, `float_positive` is `value > 0`, `scale` is
-- `int64(value * float64(mul))`, and `reaches pixels mp` is `float64(pixels)/1000000 >= mp`.
pub record Library : Type 0 where
  pub to_lower : String → String
  pub equal_fold : String → String → Bool
  pub trim_space : String → String
  pub format_int : ℤ → String
  pub is_letter : Char → Bool
  pub is_digit : Char → Bool
  pub glob : String → String → Option Bool
  pub regex : String → Option (String → Bool)
  pub parse_float : String → Option ℕ
  pub float_negative : ℕ → Bool
  pub float_positive : ℕ → Bool
  pub scale : ℕ → ℕ → ℤ
  pub reaches : ℤ → ℕ → Bool
  pub parse_duration : String → Option ℤ
  pub parse_layout : String → String → Option ℤ
  pub now : ℤ
