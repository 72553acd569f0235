-- ===== src/Webproxy/Frame/Tests.antt =====
-- Frames on the wire at concrete inputs.
use teleparse.Base.{
  ℕ, ◌^◌, ◌≤◌, ◌<◌, ◌≡◌, ◌↔◌, refl, List, [], ◌∷◌, ◌++◌, some, arith, All, ltb, if◌then◌else◌,
}
use teleparse.Base.Results.{ok, err}
use teleparse.Webproxy.Frame.{
  Frame, known_type, type_open, type_data, stream_id_exceeds, trailing_bytes, incomplete_frame,
  empty_batch, window_amount_invalid, max_batch_frames, too_many_frames, known_type, encode,
  stream_field, decode, decode_next, decoded, decode_loop, decode_all, window_amount,
  window_payload, validate_client, validate_server,
}
use teleparse.Webproxy.Frame.Wire.{IsWire, wire}
use teleparse.Webproxy.Frame.Codec.{
  decode-encode, encode-decode, decode_trailing, decode_incomplete,
}
use teleparse.Webproxy.Frame.Batch.{body, decode_all-body, decode_all-total, decode_all_sound}
use teleparse.Webproxy.Frame.Shape.{
  window_amount-window_payload, window_amount_sound, ClientShape, ServerShape,
  validate_client-ClientShape, validate_server-ServerShape,
}

abbrev letter : Frame
letter = record { typ = type_data; stream_id = 258; payload = 7 ∷ 9 ∷ [] }

abbrev opening : Frame
opening = record { typ = type_open; stream_id = 3; payload = [] }

abbrev letter_bytes : List ℕ
letter_bytes = 2 ∷ 0 ∷ 1 ∷ 2 ∷ 0 ∷ 0 ∷ 0 ∷ 2 ∷ 7 ∷ 9 ∷ []

abbrev opening_bytes : List ℕ
opening_bytes = 1 ∷ 0 ∷ 0 ∷ 3 ∷ 0 ∷ 0 ∷ 0 ∷ 0 ∷ []

wire-letter : wire letter ≡ letter_bytes
unfolding wire
wire-letter = refl

letter-IsWire : IsWire letter
letter-IsWire = record {
  known = unfold known_type in refl;
  id_fits = omega arith;
  payload_fits = omega arith;
}

opening-IsWire : IsWire opening
opening-IsWire = record {
  known = unfold known_type in refl;
  id_fits = omega arith;
  payload_fits = omega arith;
}

encode-letter : encode letter ≡ ok letter_bytes
unfolding encode
encode-letter = refl

encode_panics : encode (record letter { stream_id = 2 ^ 24 }) ≡ err stream_id_exceeds
unfolding encode
encode_panics = refl

decode-letter : decode letter_bytes ≡ ok letter
unfolding decode stream_field known_type
decode-letter = refl

decode_all-two : decode_all (letter_bytes ++ opening_bytes) ≡ some (ok (letter ∷ opening ∷ []))
unfolding decode_all decode_loop decode_next decoded stream_field known_type
decode_all-two = refl

decode_all-empty : decode_all [] ≡ some (err empty_batch)
unfolding decode_all decode_loop decoded
decode_all-empty = refl

window_amount-zero : window_amount (window_payload 0) ≡ err window_amount_invalid
unfolding window_amount window_payload
window_amount-zero = refl

decode-encode_example : (bytes : List ℕ) × (encode letter ≡ ok bytes) × (decode bytes ≡ ok letter)
decode-encode_example = decode-encode letter letter-IsWire

encode-decode_example : IsWire letter × (encode letter ≡ ok letter_bytes)
encode-decode_example = encode-decode letter_bytes letter (omega arith) decode-letter

decode_trailing_test : decode (wire letter ++ (5 ∷ [])) ≡ err trailing_bytes
decode_trailing_test = decode_trailing letter 5 [] letter-IsWire

decode_incomplete_test : decode (2 ∷ 0 ∷ 1 ∷ 2 ∷ 0 ∷ 0 ∷ 0 ∷ 2 ∷ 7 ∷ []) ≡ err incomplete_frame
decode_incomplete_test =
    decode_incomplete letter (2 ∷ 0 ∷ 1 ∷ 2 ∷ 0 ∷ 0 ∷ 0 ∷ 2 ∷ 7 ∷ []) 9 [] letter-IsWire wire-letter

decode_all-body_test :
    decode_all (body (letter ∷ opening ∷ []))
    ≡ some (if ltb max_batch_frames 2 then err too_many_frames else decoded (letter ∷ opening ∷ []))
decode_all-body_test = decode_all-body (letter ∷ opening ∷ []) (letter-IsWire, (opening-IsWire, tt))

decode_all-total_test : (r : _) × (decode_all (3 ∷ 1 ∷ []) ≡ some r)
decode_all-total_test = decode_all-total (3 ∷ 1 ∷ [])

decode_all_sound_example :
    (letter_bytes ++ opening_bytes ≡ body (letter ∷ opening ∷ []))
    × All IsWire (letter ∷ opening ∷ [])
    × (1 ≤ 2)
    × (2 ≤ max_batch_frames)
decode_all_sound_example =
    decode_all_sound (letter_bytes ++ opening_bytes) (letter ∷ opening ∷ []) (omega arith)
      decode_all-two

window_amount-window_payload_example : window_amount (window_payload 70000) ≡ ok 70000
window_amount-window_payload_example =
    window_amount-window_payload 70000 (omega arith) (omega arith)

window_amount-read : window_amount (0 ∷ 1 ∷ 0 ∷ 2 ∷ []) ≡ ok 65538
unfolding window_amount
window_amount-read = refl

window_amount_sound_test :
    (0 < 65538) × (65538 < 2 ^ 32) × (window_payload 65538 ≡ 0 ∷ 1 ∷ 0 ∷ 2 ∷ [])
window_amount_sound_test =
    window_amount_sound (0 ∷ 1 ∷ 0 ∷ 2 ∷ []) 65538 (omega arith) window_amount-read

validate_client-ClientShape_test : (validate_client letter ≡ ok tt) ↔ ClientShape letter
validate_client-ClientShape_test = validate_client-ClientShape letter

validate_server-ServerShape_test : (validate_server opening ≡ ok tt) ↔ ServerShape opening
validate_server-ServerShape_test = validate_server-ServerShape opening
