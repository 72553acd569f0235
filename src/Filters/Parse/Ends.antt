-- ===== src/Filters/Parse/Ends.antt =====
-- The loop over the parts of a relative time ends within its fuel.
use teleparse.Base.{
  ℕ, zero, suc, ◌+◌, ◌≤◌, ◌<◌, ◌≡◌, ◌≢◌, ◌⊎◌, refl, sym, ◌∙◌, Bool, false, ℤ, pos, Char, String,
  is_empty, wrap_64, ◌+ℤ◌, Bool-cases, inl, inr, arith,
}
use teleparse.Base.Results.{Result, err, ◌>>=◌, Result-cases}
use teleparse.Filters.Library.{Library}
use teleparse.Filters.Options.{FilterError, out_of_fuel}
use teleparse.Filters.Parse.{
  is_ascii_digit, is_unit_char, characters, scan, atoi, relative_unit_duration, compound_loop,
  parse_relative_compound, parse_relative,
}

scan-characters :
    (pass : Char → Bool) (s : String)
    → characters (scan pass s).0 + characters (scan pass s).1 ≡ characters s
unfolding scan characters
scan-characters pass String.[] = refl
scan-characters pass (String.◌∷◌ c rest) = elim (Bool-cases (pass c)) [
  | inl h ↦ simp (h, scan) (omega (arith, scan-characters pass rest))
  | inr h ↦ simp (h, scan) (omega arith)
]

some_characters : (s : String) → is_empty s ≡ false → 0 < characters s
unfolding characters
some_characters String.[] e = cc e
some_characters (String.◌∷◌ c rest) e = omega arith

atoi_fuel : (digits : String) → atoi digits ≢ err out_of_fuel
unfolding atoi
atoi_fuel digits e = ground (arith, e)

module _ (lib : Library) where
  unit_fuel : (num : ℤ) (unit : String) → relative_unit_duration lib num unit ≢ err out_of_fuel
  unfolding relative_unit_duration
  unit_fuel num unit e = ground (arith, e)

  part_fuel :
      (digits unit : String)
      → (atoi digits >>= λ num. relative_unit_duration lib num unit) ≢ err out_of_fuel
  part_fuel digits unit e = elim (Result-cases (atoi digits)) [
    | inl (num, q) ↦ unit_fuel num unit (simp q at e)
    | inr (x, q) ↦ atoi_fuel digits (q ∙ simp q at e)
  ]

  loop_part :
      (fuel : ℕ) (total : ℤ) (c : Char) (rest : String)
      → let s = String.◌∷◌ c rest in
        (compound_loop lib (suc fuel) total s ≢ err out_of_fuel)
        ⊎ ((d : ℤ) × (is_empty (scan is_ascii_digit s).0 ≡ false)
            × (compound_loop lib (suc fuel) total s
                ≡ compound_loop lib fuel
                    (wrap_64 (total +ℤ d))
                    (scan is_unit_char (scan is_ascii_digit s).1).1))
  unfolding compound_loop
  loop_part fuel total c rest =
      elim (Bool-cases (is_empty (scan is_ascii_digit (String.◌∷◌ c rest)).0)) [
        | inl h ↦ inl (λ e. cc (simp (h, compound_loop) at e))
        | inr h ↦ elim (Result-cases (more (scan is_ascii_digit (String.◌∷◌ c rest)))) [
          | inl (d, q) ↦ inr (d, h, simp (h, q, compound_loop))
          | inr (x, q) ↦ inl (λ e. part_fuel _ _ (q ∙ simp (h, q, compound_loop) at e))
        ]
      ]
    where
      more : String × String → Result FilterError ℤ
      more (digits, after) =
          atoi digits >>= λ num. relative_unit_duration lib num (scan is_unit_char after).0

  compound_loop_fuel :
      (fuel : ℕ) (total : ℤ) (s : String)
      → characters s ≤ fuel
      → compound_loop lib fuel total s ≢ err out_of_fuel
  compound_loop_fuel fuel total String.[] h e = unfold compound_loop in cc e
  compound_loop_fuel zero total (String.◌∷◌ c rest) h e = unfold characters in absurd (omega arith)
  compound_loop_fuel (suc fuel) total (String.◌∷◌ c rest) h e = elim (loop_part fuel total c rest) [
    | inl n ↦ n e
    | inr (d, some_digits, q) ↦
        let s = String.◌∷◌ c rest in
        let digits = scan-characters is_ascii_digit s in
        let units = scan-characters is_unit_char (scan is_ascii_digit s).1 in
        compound_loop_fuel fuel _ _ (omega (arith, h, digits, units, some_characters _ some_digits))
          (sym q ∙ e)
  ]

  -- A relative time is parsed or refused: the loop over its parts never runs out of fuel.
  pub parse_relative_ends : (input : String) → parse_relative lib input ≢ err out_of_fuel
  unfolding parse_relative parse_relative_compound
  parse_relative_ends input e =
      let text = lib.trim_space (lib.to_lower input) in
      elim (Result-cases (compound_loop lib (characters text) (pos 0) text)) [
        | inl (total, q) ↦ ground (arith, e, q)
        | inr (x, q) ↦
            compound_loop_fuel (characters text) (pos 0) text (omega arith) (ground (arith, e, q))
      ]
