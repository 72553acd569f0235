-- ===== src/Webproxy/Frame/Codec.antt =====
-- `Encode` and `Decode` are inverse to one another, and `Decode` refuses all else.
use teleparse.Base.{
  ℕ, ◌+◌, ◌≤◌, ◌<◌, ◌≡◌, ap, List, [], ◌∷◌, ◌++◌, arith, length, get_or, All, length-append,
  length-drop, take-eq_nil, drop, get_or-append, append-nil, ltb, inl, inr, if◌then◌else◌,
}
use teleparse.Base.Results.{Result, ok, err, ◌>>=◌, Result-cases}
use teleparse.Webproxy.Frame.{
  Frame, FrameError, incomplete_frame, trailing_bytes, header_size, length_field, encode, decode,
  decode_next,
}
use teleparse.Webproxy.Frame.Wire.{
  IsByte, IsWire, wire, known_type-lt, length-wire, encode-wire, decode_next-wire,
  decode_next_sound,
}

-- What `Decode` makes of the bytes behind the frame.
abbrev finish : Frame × List ℕ → Result FrameError Frame
finish (f, rest) = if ltb 0 (length rest) then err trailing_bytes else ok f

-- `Decode` is one round of `DecodeAll` that must leave nothing.
pub decode-decode_next : (buf : List ℕ) → decode buf ≡ (decode_next [] buf >>= finish)
unfolding decode decode_next
decode-decode_next buf = ground (
  arith,
  length-drop (header_size + length_field buf) buf,
  take-eq_nil (length_field buf) (drop header_size buf),
)

-- `Encode` does not panic on a frame that the protocol can carry, and `Decode` reads the frame back.
pub decode-encode :
    (f : Frame) → IsWire f → (bytes : List ℕ) × (encode f ≡ ok bytes) × (decode bytes ≡ ok f)
decode-encode f w = (wire f, encode-wire f w, read)
  where
    round : decode_next [] (wire f) ≡ ok (f, [])
    round = rw append-nil at (decode_next-wire [] f [] w (omega arith))

    read : decode (wire f) ≡ ok f
    read = rw (decode-decode_next (wire f), round)

read_back :
    (buf : List ℕ) (f g : Frame) (rest : List ℕ)
    → All IsByte buf
    → decode_next [] buf ≡ ok (g, rest)
    → finish (g, rest) ≡ ok f
    → IsWire f × (encode f ≡ ok buf)
read_back buf f g [] h r e =
    let (w, shape, _) = decode_next_sound [] buf g [] h r in
    ground (arith, w, shape, append-nil (wire g), encode-wire g w)
read_back buf f g (x ∷ rest) h r e = ground arith

-- Where `Decode` accepts a list of bytes, the protocol can carry the frame and `Encode` writes those
-- bytes: no frame has a second encoding.
pub encode-decode :
    (buf : List ℕ) (f : Frame) → All IsByte buf → decode buf ≡ ok f → IsWire f × (encode f ≡ ok buf)
encode-decode buf f h e = elim (Result-cases (decode_next [] buf)) [
  | inl ((g, rest), r) ↦ read_back buf f g rest h r (rw (decode-decode_next, r) at e)
  | inr (x, r) ↦ cc (decode-decode_next buf, r)
]

-- Bytes behind a frame that the protocol can carry are refused.
pub decode_trailing :
    (f : Frame) (x : ℕ) (rest : List ℕ)
    → IsWire f
    → decode (wire f ++ (x ∷ rest)) ≡ err trailing_bytes
decode_trailing f x rest w =
    rw (decode-decode_next, decode_next-wire [] f (x ∷ rest) w (omega arith)) (ground arith)

-- What `Decode` reads of a header that a cut leaves whole.
header-append :
    (f : Frame) (front back : List ℕ)
    → IsWire f
    → wire f ≡ front ++ back
    → header_size ≤ length front
    → (get_or front 0 0 ≡ f.typ) × (length_field front ≡ length f.payload)
header-append f front back w e h =
    unfold wire in
    ground (
      arith,
      w.id_fits,
      w.payload_fits,
      known_type-lt f.typ w.known,
      byte_at 0 (omega arith),
      byte_at 4 (omega arith),
      byte_at 5 (omega arith),
      byte_at 6 (omega arith),
      byte_at 7 (omega arith),
    )
  where
    byte_at : (i : ℕ) → i < header_size → get_or front i 0 ≡ get_or (wire f) i 0
    byte_at i small = rw (e, get_or-append front back i 0 (omega arith))

-- A frame that the protocol can carry and that is cut short anywhere is refused as incomplete.
pub decode_incomplete :
    (f : Frame) (front : List ℕ) (x : ℕ) (back : List ℕ)
    → IsWire f
    → wire f ≡ front ++ (x ∷ back)
    → decode front ≡ err incomplete_frame
unfolding decode
decode_incomplete f front x back w e = ground (
  arith,
  header-append f front (x ∷ back) w e,
  length-wire f,
  ap length e,
  length-append front (x ∷ back),
  w.known,
  w.payload_fits,
)
