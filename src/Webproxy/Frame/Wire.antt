-- ===== src/Webproxy/Frame/Wire.antt =====
-- The wire form of a frame in plain arithmetic, and one round of the decoder on it.
use teleparse.Base.{
  ℕ, ◌+◌, ◌*◌, ◌/◌, ◌%◌, ◌^◌, ◌≤◌, ◌<◌, bit_or, ◌≡◌, ◌≢◌, ap, ◌∙◌, true, List, [], ◌∷◌, ◌++◌, arith,
  length, All, length-append, take-append, drop-append, take-append-drop, length-take, length-drop,
}
use teleparse.Base.Bits.{bit_or-disjoint}
use teleparse.Base.Results.{ok}
use teleparse.Webproxy.Frame.{
  Frame, known_type, max_stream_id, max_payload, max_batch_frames, header_size, put_uint32,
  uint32_of, encode, stream_field, length_field, decode_next,
}

abbrev pub IsByte : ℕ → Type 0
IsByte b = b < 256

-- A frame that the protocol can carry.
pub record IsWire (f : Frame) : Type 0 where
  pub known : known_type f.typ ≡ true
  pub id_fits : f.stream_id ≤ max_stream_id
  pub payload_fits : length f.payload ≤ max_payload

-- Type and stream id in four bytes, the length in four more, then the payload.
unfoldable pub wire : Frame → List ℕ
wire f = put_uint32 (f.typ * 2 ^ 24 + f.stream_id) ++ (put_uint32 (length f.payload) ++ f.payload)

pub known_type-lt : (t : ℕ) → known_type t ≡ true → t < 32
unfolding known_type
known_type-lt t h = ground arith

pub length-wire : (f : Frame) → length (wire f) ≡ header_size + length f.payload
unfolding wire
length-wire f = omega arith

-- `Encode` does not panic on such a frame, and writes its wire form.
pub encode-wire : (f : Frame) → IsWire f → encode f ≡ ok (wire f)
unfolding encode wire
encode-wire f w = ground (
  arith,
  w.known,
  w.id_fits,
  w.payload_fits,
  known_type-lt f.typ w.known,
  bit_or-disjoint 24 f.typ f.stream_id (omega (arith, w.id_fits)),
)

-- The three shifted bytes of the stream id, as a number.
u24 :
    (a b c : ℕ)
    → IsByte a
    → IsByte b
    → IsByte c
    → bit_or (bit_or (a * 2 ^ 16 % 2 ^ 32) (b * 2 ^ 8 % 2 ^ 32)) c ≡ a * 2 ^ 16 + b * 2 ^ 8 + c
u24 a b c ha hb hc =
    ap (λ (t : ℕ). bit_or t c) high
    ∙ bit_or-disjoint 8 (a * 2 ^ 8 + b) c (omega arith)
    ∙ omega arith
  where
    no_wrap : (a * 2 ^ 16 % 2 ^ 32 ≡ a * 2 ^ 16) × (b * 2 ^ 8 % 2 ^ 32 ≡ b * 2 ^ 8)
    no_wrap = omega arith

    high : bit_or (a * 2 ^ 16 % 2 ^ 32) (b * 2 ^ 8 % 2 ^ 32) ≡ (a * 2 ^ 8 + b) * 2 ^ 8
    high = rw (no_wrap.0, no_wrap.1, bit_or-disjoint 16 a (b * 2 ^ 8) (omega arith)) (omega arith)

-- One round on a wire form takes the frame and leaves what follows it.
pub decode_next-wire :
    (frames : List Frame) (f : Frame) (rest : List ℕ)
    → IsWire f
    → length frames ≢ max_batch_frames
    → decode_next frames (wire f ++ rest) ≡ ok (f, rest)
unfolding decode_next wire stream_field
decode_next-wire frames f rest w room = ground (
  arith,
  w.known,
  w.id_fits,
  w.payload_fits,
  known_type-lt f.typ w.known,
  u24 (head / 2 ^ 16 % 256) (head / 2 ^ 8 % 256) (head % 256),
  take-append (length_field (wire f ++ rest)) f.payload rest (omega (arith, w.payload_fits)),
  drop-append (length_field (wire f ++ rest)) f.payload rest (omega (arith, w.payload_fits)),
  length-append f.payload rest,
)
  where
    head : ℕ
    head = f.typ * 2 ^ 24 + f.stream_id

long_enough :
    (frames : List Frame) (buf : List ℕ) {r : Frame × List ℕ}
    → decode_next frames buf ≡ ok r
    → header_size ≤ length buf
unfolding decode_next
long_enough frames buf e = ground arith

-- What one round accepts is the wire form of the frame, and what follows it.
decode_next-long :
    (frames : List Frame) (a b c d i j k l : ℕ) (tail : List ℕ) (f : Frame) (rest : List ℕ)
    → All IsByte (a ∷ b ∷ c ∷ d ∷ i ∷ j ∷ k ∷ l ∷ [])
    → decode_next frames (a ∷ b ∷ c ∷ d ∷ i ∷ j ∷ k ∷ l ∷ tail) ≡ ok (f, rest)
    → IsWire f
      × (a ∷ b ∷ c ∷ d ∷ i ∷ j ∷ k ∷ l ∷ tail ≡ wire f ++ rest)
      × (length frames ≢ max_batch_frames)
unfolding decode_next wire stream_field
decode_next-long frames a b c d i j k l tail f rest h e = ground (
  arith,
  known_type-lt f.typ,
  u24 b c d,
  length-take (uint32_of i j k l) tail,
  length-drop (uint32_of i j k l) tail,
  take-append-drop (uint32_of i j k l) tail,
)

pub decode_next_sound :
    (frames : List Frame) (buf : List ℕ) (f : Frame) (rest : List ℕ)
    → All IsByte buf
    → decode_next frames buf ≡ ok (f, rest)
    → IsWire f × (buf ≡ wire f ++ rest) × (length frames ≢ max_batch_frames)
decode_next_sound frames (a ∷ b ∷ c ∷ d ∷ i ∷ j ∷ k ∷ l ∷ tail) f rest h e =
    decode_next-long frames a b c d i j k l tail f rest (omega arith) e
decode_next_sound frames short f rest h e = absurd (omega (arith, long_enough frames short e))

-- A round that succeeds takes a whole header at least.
pub decode_next-shorter :
    (frames : List Frame) (buf : List ℕ) (f : Frame) (rest : List ℕ)
    → decode_next frames buf ≡ ok (f, rest)
    → length rest + header_size ≤ length buf
unfolding decode_next
decode_next-shorter frames buf f rest e =
    ground (arith, length-drop (header_size + length_field buf) buf)
