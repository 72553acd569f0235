-- ===== src/Download/Ranged/Complete.antt =====
-- A transfer that resumes in the middle of a file ends with the whole file.
use teleparse.Base.{
  ℕ, zero, suc, ◌+◌, ◌-◌, ◌≤◌, ◌<◌, min, true, false, ◌&&◌, none, some, List, [], ◌∷◌, ◌++◌,
  append-nil, ◌≡◌, refl, sym, ◌∙◌, ap, ltb, leb, length, take, drop, length-take, length-drop,
  take-drop, drop-drop, take_all, take-eq_nil, arith, Bool-cases, inl, inr,
}
use teleparse.Base.Results.{ok}
use teleparse.Download.Ranged.{
  ranged_chunk_align, align_down, zeros, overwrite, Source, fresh_part, is_complete, next,
  fetch_loop,
}

take_nil : {A : Type 0} (n : ℕ) → take {A = A} n [] ≡ []
take_nil zero = refl
take_nil (suc n) = refl

drop-take : {A : Type 0} (s n : ℕ) (xs : List A) → drop s (take n xs) ≡ take (n - s) (drop s xs)
drop-take zero n xs = ap (λ (k : ℕ). take k xs) (omega arith)
drop-take (suc s) zero xs = sym (take-eq_nil (0 - suc s) (drop (suc s) xs) (omega arith))
drop-take (suc s) (suc n) [] = sym (take_nil (suc n - suc s))
drop-take (suc s) (suc n) (x ∷ xs) =
    drop-take s n xs ∙ ap (λ (k : ℕ). take k (drop s xs)) (omega arith)

align_down_bounds :
    (offset : ℕ) → (align_down offset 4096 ≤ offset) × (offset - align_down offset 4096 < 4096)
unfolding align_down
align_down_bounds offset = omega arith

drop_all : {A : Type 0} (n : ℕ) (xs : List A) → length xs ≤ n → drop n xs ≡ []
drop_all zero [] h = refl
drop_all zero (x ∷ xs) h = absurd (omega arith)
drop_all (suc n) [] h = refl
drop_all (suc n) (x ∷ xs) h = drop_all n xs (omega arith)

-- Writing at the end of a file appends.
overwrite_end :
    (file bytes : List ℕ) (offset : ℕ)
    → length file ≡ offset
    → overwrite file offset bytes ≡ file ++ bytes
unfolding overwrite zeros
overwrite_end file bytes offset e =
    let whole = take_all offset file (omega (arith, e)) in
    let nothing : offset - length file ≡ 0 = omega (arith, e) in
    let rest = drop_all (offset + length bytes) file (omega (arith, e)) in
    simp (whole, nothing, rest, append-nil)

take_whole : (n m : ℕ) (xs : List ℕ) → length xs ≤ n → length xs ≤ m → take n xs ≡ take m xs
take_whole n m xs h k = take_all n xs h ∙ sym (take_all m xs k)

-- The server answers each request with bytes of the file there, as many as the alignment at least
-- where the file has them; no write fails, and the manifest has the size of the file.
pub record Serves (s : Source) (content : List ℕ) (sizes : ℕ → ℕ) : Type 0 where
  pub answers : (offset : ℕ) → s.ask offset ≡ ok (take (sizes offset) (drop offset content))
  pub large : (offset : ℕ) → ranged_chunk_align ≤ sizes offset
  pub written : (offset : ℕ) → s.write_error offset ≡ none
  pub sized : s.total ≡ length content

module _ (s : Source) (content : List ℕ) (sizes : ℕ → ℕ) (serves : Serves s content sizes) where
  abbrev start_of : ℕ → ℕ
  start_of position = align_down position ranged_chunk_align

  -- How many bytes an answer has past the position, in the file or beyond its end.
  abbrev reach : ℕ → ℕ
  reach position = sizes (start_of position) - (position - start_of position)

  reach_pos : (position : ℕ) → 0 < reach position
  reach_pos position =
      let (low, near) = align_down_bounds position in
      let big = serves.large (start_of position) in omega (arith, near, big)

  left_over :
      (position : ℕ)
      → drop
          (position - start_of position)
          (take (sizes (start_of position)) (drop (start_of position) content))
        ≡ take (reach position) (drop position content)
  left_over position =
      let (low, near) = align_down_bounds position in
      drop-take (position - start_of position) (sizes (start_of position))
        (drop (start_of position) content)
      ∙ ap (take (reach position)) (
          drop-drop (start_of position) (position - start_of position) position content
            (omega (arith, low)))

  part_length :
      (position : ℕ)
      → length (take (reach position) (drop position content))
        ≡ min (reach position) (length content - position)
  part_length position =
      length-take (reach position) (drop position content)
      ∙ ap (min (reach position)) (length-drop position content)

  fresh_part_lem :
      (position : ℕ)
      → position < length content
      → fresh_part s position (take (sizes (start_of position)) (drop (start_of position) content))
        ≡ take (reach position) (drop position content)
  unfolding fresh_part
  fresh_part_lem position inside =
      let fits : ltb s.total (position + length (take (reach position) (drop position content)))
          ≡ false =
        simp (part_length position, serves.sized) (ground (arith, inside)) in
      let known : ltb 0 s.total ≡ true = simp (serves.sized) (ground (arith, inside)) in
      simp (left_over position, known, fits)

  abbrev moved : ℕ → ℕ
  moved position = position + min (reach position) (length content - position)

  grown_file :
      (position : ℕ)
      → position < length content
      → overwrite (take position content) position (take (reach position) (drop position content))
        ≡ take (moved position) content
  grown_file position inside =
      overwrite_end (take position content) (take (reach position) (drop position content)) position
        (length-take position content ∙ omega (arith, inside))
      ∙ take-drop position (reach position) (position + reach position) content refl
      ∙ (elim (Bool-cases (leb (reach position) (length content - position))) [
        | inl short ↦ ap (λ (k : ℕ). take k content) (ground (arith, short))
        | inr long ↦
            take_whole (position + reach position) (moved position) content (ground (arith, long))
              (ground (arith, long))
      ])

  one_round :
      (position : ℕ)
      → position < length content
      → next s position (take position content)
        ≡ ok (moved position, leb (length content) (moved position), take (moved position) content)
  unfolding next is_complete
  one_round position inside =
      let start = start_of position in
      let answer = take (sizes start) (drop start content) in
      let (low, near) = align_down_bounds position in
      let big = serves.large start in
      let size : length answer ≡ min (sizes start) (length content - start) =
        length-take (sizes start) (drop start content)
        ∙ ap (min (sizes start)) (length-drop start content) in
      let more : leb (length answer) (position - start) ≡ false =
        simp (size) (ground (arith, inside, low, near, big)) in
      let known : ltb 0 (length content) ≡ true = ground (arith, inside) in
      simp (
        serves.answers start,
        more,
        serves.written position,
        fresh_part_lem position inside,
        part_length position,
        grown_file position inside,
        known,
        serves.sized,
        next,
        is_complete,
      )

  last_round :
      (position : ℕ)
      → position ≡ length content
      → next s position content ≡ ok (position, true, content)
  unfolding next
  last_round position end =
      let start = start_of position in
      let answer = take (sizes start) (drop start content) in
      let (low, near) = align_down_bounds position in
      let size : length answer ≡ min (sizes start) (length content - start) =
        length-take (sizes start) (drop start content)
        ∙ ap (min (sizes start)) (length-drop start content) in
      let none_left : leb (length answer) (position - start) ≡ true =
        simp (size) (ground (arith, end, low)) in
      let whole : ltb position s.total ≡ false = simp (serves.sized) (ground (arith, end)) in
      let not_short : (ltb 0 s.total && ltb position s.total) ≡ false = ground (arith, whole) in
      simp (serves.answers start, none_left, not_short, next)

  moved_bounds :
      (position : ℕ)
      → position < length content
      → (position < moved position) × (moved position ≤ length content)
  moved_bounds position inside = let far = reach_pos position in omega (arith, far, inside)

  loop_completes :
      (rounds offset position : ℕ)
      → position < length content
      → length content < position + rounds
      → fetch_loop s rounds offset position (take position content)
        ≡ some (ok (length content - offset, content))
  unfolding fetch_loop
  loop_completes zero offset position inside enough = absurd (omega (arith, inside, enough))
  loop_completes (suc rounds) offset position inside enough =
      let (on, within) = moved_bounds position inside in
      elim (Bool-cases (leb (length content) (moved position))) [
        | inl last ↦
            let at_end : moved position ≡ length content = ground (arith, last, within) in
            simp (one_round position inside, last, fetch_loop)
              (ap (λ (k : ℕ). some (ok (k - offset, take k content))) at_end
                ∙ ap (λ (xs : List ℕ). some (ok (length content - offset, xs)))
                    (take_all (length content) content (omega arith)))
        | inr more ↦
            simp (one_round position inside, more, fetch_loop)
              (loop_completes rounds offset (moved position) (ground (arith, more, within))
                (omega (arith, on, enough)))
      ]

-- A part file that holds the first bytes of a file, up to any offset, is completed to exactly that
-- file, against a server that answers each request with at least an aligned block where there is
-- one, and a manifest with the file's size: the transfer ends within one round more than there are
-- missing bytes and reports as many bytes as were missing.
pub fetch_completes :
    (s : Source) (content : List ℕ) (sizes : ℕ → ℕ) (rounds offset : ℕ)
    → Serves s content sizes
    → offset ≤ length content
    → length content < offset + rounds
    → fetch_loop s rounds offset offset (take offset content)
      ≡ some (ok (length content - offset, content))
unfolding fetch_loop
fetch_completes s content sizes zero offset serves inside enough =
    absurd (omega (arith, inside, enough))
fetch_completes s content sizes (suc rounds) offset serves inside enough =
    elim (Bool-cases (ltb offset (length content))) [
      | inl part ↦
          loop_completes s content sizes serves (suc rounds) offset offset (ground (arith, part))
            enough
      | inr full ↦
          let at_end : offset ≡ length content = ground (arith, full, inside) in
          let whole = take_all offset content (omega (arith, at_end)) in
          let ended = last_round s content sizes serves offset at_end in
          simp (whole) (
            simp (ended, fetch_loop)
              (ap (λ (k : ℕ). some (ok (k, content))) (omega (arith, at_end))))
    ]
