-- ===== src/Webproxy/Frame.antt =====
-- internal/webproxy/frame.go: the shared frame, its wire form and the shapes that each side may
-- send. A byte slice is a list of numbers; `uint32` arithmetic keeps its wrap-around. The texts
-- that the code wraps round its sentinel errors are left out.
pub mod Wire
pub mod Codec
pub mod Batch
pub mod Shape
mod Tests
use teleparse.Base.{
  ℕ, zero, suc, ◌+◌, ◌*◌, ◌/◌, ◌%◌, ◌^◌, bit_or, Bool, not, ◌||◌, List, [], ◌∷◌, ◌++◌, Option, none,
  some, ltb, ◌==◌, if◌then◌else◌, length, get_or, take, drop,
}
use teleparse.Base.Results.{Result, ok, err}

-- `type Type byte`: any byte may stand in a frame, and nine of them are known.
abbrev pub FrameType : Type 0
FrameType = ℕ

abbrev pub type_open : FrameType
type_open = 0x01

abbrev pub type_data : FrameType
type_data = 0x02

abbrev pub type_close : FrameType
type_close = 0x03

abbrev pub type_window : FrameType
type_window = 0x04

abbrev pub type_ping : FrameType
type_ping = 0x05

abbrev pub type_pong : FrameType
type_pong = 0x06

abbrev pub type_hello : FrameType
type_hello = 0x10

abbrev pub type_welcome : FrameType
type_welcome = 0x11

abbrev pub type_bye : FrameType
type_bye = 0x1F

abbrev pub header_size : ℕ
header_size = 8

abbrev pub max_payload : ℕ
max_payload = 1024 * 1024

abbrev pub max_stream_id : ℕ
max_stream_id = 0xFFFFFF

abbrev pub max_batch_frames : ℕ
max_batch_frames = 4096

abbrev pub max_pong_payload : ℕ
max_pong_payload = 64

abbrev pub window_payload_size : ℕ
window_payload_size = 4

pub data FrameError : Type 0 where
  incomplete_frame trailing_bytes payload_too_large empty_batch too_many_frames : FrameError
  unknown_type window_amount_invalid invalid_shape : FrameError

-- The two panics of `Encode`.
pub data EncodePanic : Type 0 where
  stream_id_exceeds payload_exceeds : EncodePanic

pub record Frame : Type 0 where
  pub typ : FrameType
  pub stream_id : ℕ
  pub payload : List ℕ

unfoldable pub known_type : FrameType → Bool
known_type value =
    value == type_open
    || value == type_data
    || value == type_close
    || value == type_window
    || value == type_ping
    || value == type_pong
    || value == type_hello
    || value == type_welcome
    || value == type_bye

-- `binary.BigEndian.PutUint32` and `binary.BigEndian.Uint32`.
abbrev pub put_uint32 : ℕ → List ℕ
put_uint32 v = (v / 2 ^ 24 % 256) ∷ (v / 2 ^ 16 % 256) ∷ (v / 2 ^ 8 % 256) ∷ (v % 256) ∷ []

abbrev pub uint32_of : ℕ → ℕ → ℕ → ℕ → ℕ
uint32_of a b c d = a * 2 ^ 24 + b * 2 ^ 16 + c * 2 ^ 8 + d

unfoldable pub encode : Frame → Result EncodePanic (List ℕ)
encode frame =
    if ltb max_stream_id frame.stream_id
    then err stream_id_exceeds
    else if ltb max_payload (length frame.payload)
    then err payload_exceeds
    else ok (
        put_uint32 (bit_or (frame.typ * 2 ^ 24 % 2 ^ 32) frame.stream_id)
        ++ (put_uint32 (length frame.payload % 2 ^ 32) ++ frame.payload))

-- `uint32(buf[1])<<16 | uint32(buf[2])<<8 | uint32(buf[3])`
unfoldable pub stream_field : List ℕ → ℕ
stream_field buf =
    bit_or (bit_or (get_or buf 1 0 * 2 ^ 16 % 2 ^ 32) (get_or buf 2 0 * 2 ^ 8 % 2 ^ 32))
      (get_or buf 3 0)

-- `uint64(binary.BigEndian.Uint32(buf[4:HeaderSize]))`
abbrev pub length_field : List ℕ → ℕ
length_field buf = uint32_of (get_or buf 4 0) (get_or buf 5 0) (get_or buf 6 0) (get_or buf 7 0)

-- An index is read only where the buffer has a whole header, so the default of `get_or` is unused.
unfoldable pub decode : List ℕ → Result FrameError Frame
unfolding known_type
decode buf =
    let n = length_field buf in
    let full = header_size + n in
    if ltb (length buf) header_size
    then err incomplete_frame
    else if known_type (get_or buf 0 0)
    then (if ltb max_payload n
        then err payload_too_large
        else if ltb (length buf) full
        then err incomplete_frame
        else if ltb full (length buf)
        then err trailing_bytes
        else ok (record {
          typ = get_or buf 0 0;
          stream_id = stream_field buf;
          payload = if ltb 0 n then take n (drop header_size buf) else [];
        }))
    else err unknown_type

-- One round of the loop of `DecodeAll` on a nonempty buffer: the frame at its front and the rest.
unfoldable pub decode_next : List Frame → List ℕ → Result FrameError (Frame × List ℕ)
unfolding known_type
decode_next frames buf =
    let n = length_field buf in
    let full = header_size + n in
    if length frames == max_batch_frames
    then err too_many_frames
    else if ltb (length buf) header_size
    then err incomplete_frame
    else if known_type (get_or buf 0 0)
    then (if ltb max_payload n
        then err payload_too_large
        else if ltb (length buf) full
        then err incomplete_frame
        else ok (
          record {
            typ = get_or buf 0 0;
            stream_id = stream_field buf;
            payload = take n (drop header_size buf);
          },
          drop full buf,
        ))
    else err unknown_type

-- What `DecodeAll` returns when the buffer is used up.
unfoldable pub decoded : List Frame → Result FrameError (List Frame)
decoded [] = err empty_batch
decoded (f ∷ fs) = ok (f ∷ fs)

-- `none`: the fuel ran out.
unfoldable pub decode_loop : ℕ → List Frame → List ℕ → Option (Result FrameError (List Frame))
decode_loop fuel frames [] = some (decoded frames)
decode_loop zero frames (b ∷ bs) = none
decode_loop (suc fuel) frames (b ∷ bs) = elim (decode_next frames (b ∷ bs)) [
  | err e ↦ some (err e)
  | ok (frame, rest) ↦ decode_loop fuel (frames ++ (frame ∷ [])) rest
]

-- A frame takes eight bytes at least, so a round for each byte is enough.
unfoldable pub decode_all : List ℕ → Option (Result FrameError (List Frame))
decode_all buf = decode_loop (length buf) [] buf

unfoldable pub window_amount : List ℕ → Result FrameError ℕ
window_amount payload =
    let value =
      uint32_of (get_or payload 0 0) (get_or payload 1 0) (get_or payload 2 0)
        (get_or payload 3 0) in
    if length payload == window_payload_size
    then (if value == 0 then err window_amount_invalid else ok value)
    else err window_amount_invalid

unfoldable pub window_payload : ℕ → List ℕ
window_payload amount = put_uint32 amount

-- `if _, err := WindowAmount(payload); err != nil { return err }`
unfoldable pub check_window : List ℕ → Result FrameError (Unit {0})
check_window payload = elim (window_amount payload) [ ok v ↦ ok tt | err e ↦ err e ]

unfoldable pub validate_client : Frame → Result FrameError (Unit {0})
validate_client frame =
    if frame.stream_id == 0
    then (if not (frame.typ == type_pong) || ltb max_pong_payload (length frame.payload)
        then err invalid_shape
        else ok tt)
    else if frame.typ == type_open || frame.typ == type_close
    then (if length frame.payload == 0 then ok tt else err invalid_shape)
    else if frame.typ == type_data
    then (if length frame.payload == 0 then err invalid_shape else ok tt)
    else if frame.typ == type_window
    then check_window frame.payload
    else err invalid_shape

unfoldable pub validate_server : Frame → Result FrameError (Unit {0})
validate_server frame =
    if frame.stream_id == 0
    then (if frame.typ == type_ping || frame.typ == type_bye || frame.typ == type_welcome
        then ok tt
        else err invalid_shape)
    else if frame.typ == type_close
    then (if length frame.payload == 0 then ok tt else err invalid_shape)
    else if frame.typ == type_data
    then (if length frame.payload == 0 then err invalid_shape else ok tt)
    else if frame.typ == type_window
    then check_window frame.payload
    else err invalid_shape
