-- ===== src/Webproxy/Stream.antt =====
-- internal/webproxy/session.go, the methods of `Stream`. Each takes the session and the stream's
-- id. `pick` is what Go's `select` takes when a queue has room and the session is over.
pub mod Chunk
mod Tests
pub mod Transfer
pub mod Ends
pub mod Close
pub mod Moves
use teleparse.Base.{
  ℕ, zero, suc, ◌+◌, ◌-◌, min, Bool, true, false, ◌||◌, List, [], ◌∷◌, ◌++◌, Option, none, some,
  ltb, leb, ◌==◌, if◌then◌else◌, length, take, drop,
}
use teleparse.Base.Results.{Result, ok, err}
use teleparse.Webproxy.Frame.{
  Frame, type_data, type_window, type_close, validate_client, window_amount, window_payload,
  window_amount_invalid,
}
use teleparse.Webproxy.Window.{
  Reservation, invalid, failed, got, waits, reserve, grant, consume, data_chunk_size,
}
use teleparse.Webproxy.Window
use teleparse.Webproxy.Session.{
  Session, Stream, Error, stream_closed, protocol_violation, deadline_exceeded, frame_error, eof,
  is_eof, put_stream, first_error, stop_lane, drop_stream, enqueue, enqueue_global,
}

unfoldable pub send : Bool → Session → ℕ → Frame → Result Error Session
send pick s id frame = elim (validate_client frame) [
  | err e ↦ err (frame_error e ∷ [])
  | ok _ ↦ elim (s.objects id).lane [
    | some q ↦ elim (enqueue s.stopped pick q frame) [
      | ok q' ↦ ok (put_stream s id (record (s.objects id) { lane = some q' }))
      | err e ↦ err e
    ]
    | none ↦ enqueue_global pick s frame
  ]
]

pub data Reading : Type 0 where
  received : List ℕ → Reading
  ended : Error → Reading
  blocks : Reading

-- `_ = st.send(...)`
abbrev pub or_same : Session → Result Error Session → Session
or_same s (ok s') = s'
or_same s (err e) = s

-- `!deadline.IsZero() && !time.Now().Before(deadline)`
abbrev pub is_past : Option ℕ → ℕ → Bool
is_past none now = false
is_past (some d) now = leb d now

abbrev pub window_frame : ℕ → ℕ → Frame
window_frame id delta = record { typ = type_window; stream_id = id; payload = window_payload delta }

-- The rest of `Read`, once `size` bytes are copied out.
unfoldable pub credit_back : Bool → Session → ℕ → ℕ → Session
credit_back pick s id size =
    let (delta, account) = consume (s.objects id).recv_win size in
    let s' = put_stream s id (record (s.objects id) { recv_win = account }) in
    if ltb 0 delta then or_same s' (send pick s' id (window_frame id delta)) else s'

-- `Read` at time `now` into a buffer of `room` bytes, up to the next wait.
unfoldable pub read : Bool → ℕ → Session → ℕ → ℕ → Reading × Session
read pick now s id room =
    let st = s.objects id in
    let size = min room (length st.buf) in
    if length st.buf == 0
    then elim st.recv_err [
      | none ↦
          (if is_past st.deadline now then (ended (deadline_exceeded ∷ []), s) else (blocks, s))
      | some e ↦ (ended e, s)
    ]
    else (
      received (take size st.buf),
      credit_back pick (put_stream s id (record st { buf = drop size st.buf })) id size,
    )

abbrev pub closed_by : Option Error → Bool
closed_by none = false
closed_by (some e) = is_eof e

unfoldable pub write_gate : Stream → Option Error
write_gate st =
    if st.closed || closed_by st.recv_err then some (stream_closed ∷ []) else st.recv_err

pub data Round : Type 0 where
  refused : Error → Round
  sent : ℕ → Round
  pauses : Round

abbrev pub data_frame : ℕ → List ℕ → Frame
data_frame id bytes = record { typ = type_data; stream_id = id; payload = bytes }

-- Once `Reserve` has answered: the credit is taken also where the frame is not sent.
unfoldable pub write_reserved : Bool → Session → ℕ → List ℕ → Reservation Error → Round × Session
write_reserved pick s id bytes invalid = (refused (frame_error window_amount_invalid ∷ []), s)
write_reserved pick s id bytes (failed e) = (refused e, s)
write_reserved pick s id bytes waits = (pauses, s)
write_reserved pick s id bytes (got n) = elim (send pick s id (data_frame id (take n bytes))) [
  | ok s' ↦ (sent n, s')
  | err e ↦ (refused e, s)
]

-- One round of the loop of `Write`, on data that is not empty.
unfoldable pub write_round : Bool → Session → ℕ → List ℕ → Round × Session
unfolding write_gate write_reserved
write_round pick s id bytes = elim (write_gate (s.objects id)) [
  | some e ↦ (refused e, s)
  | none ↦
      let (answer, w) = reserve (s.objects id).send_win (data_chunk_size (length bytes)) in
      write_reserved pick (put_stream s id (record (s.objects id) { send_win = w })) id bytes answer
]

pub data Writing : Type 0 where
  wrote : ℕ → Writing
  cut : ℕ → Error → Writing
  stalls : ℕ → List ℕ → Writing
  out_of_fuel : Writing

-- `Write`, with `total` bytes sent so far; `stalls` is a wait for credit. `pick` is asked by `total`.
unfoldable pub write_loop : ℕ → (ℕ → Bool) → Session → ℕ → List ℕ → ℕ → Writing × Session
write_loop fuel pick s id [] total = (wrote total, s)
write_loop zero pick s id (b ∷ bs) total = (out_of_fuel, s)
write_loop (suc fuel) pick s id (b ∷ bs) total =
    let (outcome, s') = write_round (pick total) s id (b ∷ bs) in
    elim outcome [
      | refused e ↦ (cut total e, s')
      | pauses ↦ (stalls total (b ∷ bs), s')
      | sent n ↦ write_loop fuel pick s' id (drop n (b ∷ bs)) (total + n)
    ]

-- A round sends a byte at least, so a round for each byte is enough.
unfoldable pub write : (ℕ → Bool) → Session → ℕ → List ℕ → Writing × Session
unfolding write_loop
write pick s id bytes = write_loop (length bytes) pick s id bytes 0

abbrev pub error_of : Result Error Session → Option Error
error_of (ok s) = none
error_of (err e) = some e

abbrev pub close_frame : ℕ → Frame
close_frame id = record { typ = type_close; stream_id = id; payload = [] }

-- `Close`: the error is that of sending CLOSE.
unfoldable pub close_stream : Bool → Session → ℕ → Option Error × Session
close_stream pick s id =
    let st = s.objects id in
    let shut = put_stream s id (record st {
      closed = true;
      recv_err = first_error st.recv_err (stream_closed ∷ []);
      send_win = Window.abort st.send_win (stream_closed ∷ []);
    }) in
    let answer = send pick shut id (close_frame id) in
    let dropped = drop_stream (or_same shut answer) id in
    if st.closed
    then (none, s)
    else (error_of answer, put_stream dropped id (stop_lane (dropped.objects id)))

unfoldable pub set_read_deadline : Session → ℕ → Option ℕ → Session
set_read_deadline s id time = put_stream s id (record (s.objects id) { deadline = time })

-- The three cases of `handleRelay`.
unfoldable pub relay_data : Session → ℕ → List ℕ → Session
relay_data s id bytes =
    put_stream s id (record (s.objects id) { buf = (s.objects id).buf ++ bytes })

unfoldable pub relay_window : Session → ℕ → List ℕ → Option Error × Session
relay_window s id payload = elim (window_amount payload) [
  | err e ↦ (some (frame_error e ∷ protocol_violation ∷ []), s)
  | ok amount ↦ (
    none,
    put_stream s id (record (s.objects id) { send_win = grant (s.objects id).send_win amount }),
  )
]

unfoldable pub relay_close : Session → ℕ → Session
relay_close s id =
    let st = s.objects id in
    let shut = put_stream s id (record st {
      recv_err = first_error st.recv_err (eof ∷ []);
      send_win = Window.abort st.send_win (stream_closed ∷ []);
    }) in
    let dropped = drop_stream shut id in put_stream dropped id (stop_lane (dropped.objects id))

unfoldable pub handle_relay : Session → ℕ → Frame → Option Error × Session
unfolding relay_data relay_window relay_close
handle_relay s id frame =
    if frame.typ == type_data
    then (none, relay_data s id frame.payload)
    else if frame.typ == type_window
    then relay_window s id frame.payload
    else if frame.typ == type_close
    then (none, relay_close s id)
    else (none, s)

unfoldable pub handle_lane_frame : Session → ℕ → Frame → Option Error × Session
unfolding handle_relay
handle_lane_frame s id frame =
    if frame.stream_id == id then handle_relay s id frame else (some (protocol_violation ∷ []), s)
