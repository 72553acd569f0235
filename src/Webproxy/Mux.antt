-- ===== src/Webproxy/Mux.antt =====
-- internal/webproxy/session.go, the session's own operations: opening a stream, handling a frame
-- of the relay, the pump that feeds it and the close; and internal/webproxy/resolver.go, which
-- makes a session and a stream for each dial. What the network answers is an argument.
pub mod Opening
mod Tests
pub mod Calls
pub mod Reach
pub mod Relay
pub mod Modes
use teleparse.Base.{
  ℕ, ◌+◌, ◌%◌, ◌^◌, Bool, true, false, not, ◌&&◌, ◌||◌, List, [], ◌∷◌, ◌++◌, Option, none, some,
  ltb, ◌==◌, if◌then◌else◌,
}
use teleparse.Base.Results.{Result, ok, err}
use teleparse.Webproxy.Frame.{
  Frame, FrameError, type_open, type_data, type_close, type_window, type_ping, type_pong,
  type_hello, type_welcome, type_bye, max_stream_id, validate_server, decode_all,
}
use teleparse.Webproxy.Session.{
  Session, Stream, Error, Sentinel, session_lost, session_closed, streams_exhausted,
  protocol_violation, carrier_closed, frame_error, CarrierMode, websocket, websocket_lanes, https,
  https_lanes, has_lanes, new_stream, new_session, put_stream, mem, drop_stream, fail,
  enqueue_global,
}
use teleparse.Webproxy.Stream.{send, handle_relay, or_same}

-- `dial` is what `laneDial` answers: `none` is a carrier.
unfoldable pub start : Session → ℕ → Option Error → Option Error × Session
start s id dial =
    if not (has_lanes s.mode)
    then (none, s)
    else if not s.lane_dial
    then (some (carrier_closed ∷ []), s)
    else elim dial [
      | some e ↦ (some (e ++ (session_lost ∷ [])), fail s (e ++ (session_lost ∷ [])))
      | none ↦ (none, put_stream s id (record (s.objects id) { lane = some [] }))
    ]

abbrev pub open_frame : ℕ → Frame
open_frame id = record { typ = type_open; stream_id = id; payload = [] }

-- `Open` once the id is allocated.
unfoldable pub open_allocated : Bool → Session → ℕ → Option Error → Result Error ℕ × Session
unfolding start
open_allocated pick s id dial =
    let (problem, s') = start s id dial in
    elim problem [
      | some e ↦ (err e, drop_stream s' id)
      | none ↦ elim (send pick s' id (open_frame id)) [
        | err e ↦ (err e, drop_stream s' id)
        | ok s'' ↦ (ok id, s'')
      ]
    ]

unfoldable pub allocate : Session → Session
allocate s = record s {
  next_id = (s.next_id + 1) % 2 ^ 32;
  objects = λ j. if j == s.next_id then new_stream s.next_id else s.objects j;
  streams = s.next_id ∷ s.streams;
}

-- `Open`, where nothing comes between its parts: the id of the new stream.
unfoldable pub open_stream : Bool → Session → Option Error → Result Error ℕ × Session
open_stream pick s dial = elim s.lost [
  | some e ↦ (err e, s)
  | none ↦
      if ltb max_stream_id s.next_id
      then (err (streams_exhausted ∷ []), s)
      else open_allocated pick (allocate s) s.next_id dial
]

-- `Close`, without the request that deletes the relay's session.
unfoldable pub close_session : Session → Session
close_session s = fail s (session_closed ∷ [])

abbrev pub pong_frame : List ℕ → Frame
pong_frame payload = record { typ = type_pong; stream_id = 0; payload = payload }

abbrev pub sent_pong : Session → Result Error Session → Option Error × Session
sent_pong s (ok s') = (none, s')
sent_pong s (err e) = (some e, s)

-- `handleFrame` on a frame that `ValidateServer` accepts.
unfoldable pub dispatch : Bool → Session → Frame → Option Error × Session
dispatch pick s frame =
    if frame.typ == type_bye
    then (some (session_lost ∷ []), s)
    else if frame.typ == type_ping
    then sent_pong s (enqueue_global pick s (pong_frame frame.payload))
    else if frame.typ == type_welcome
        || frame.typ == type_pong
        || frame.typ == type_hello
        || frame.typ == type_open
    then (some (protocol_violation ∷ []), s)
    else if mem frame.stream_id s.tombstones || not (mem frame.stream_id s.streams)
    then (none, s)
    else handle_relay s frame.stream_id frame

unfoldable pub handle_frame : Bool → Session → Frame → Option Error × Session
handle_frame pick s frame = elim (validate_server frame) [
  | err e ↦ (some (frame_error e ∷ protocol_violation ∷ []), s)
  | ok _ ↦ dispatch pick s frame
]

-- `runCarrierPump` with the handler that it is given. First its inner loop; the result says whether
-- the pump goes on.
module _ (handle : Session → Frame → Option Error × Session) where
  unfoldable pub pump_frames : Session → List Frame → Bool × Session
  pump_frames s [] = (true, s)
  pump_frames s (frame ∷ frames) =
      let (problem, s') = handle s frame in
      elim problem [ some e ↦ (false, fail s' (session_lost ∷ e)) | none ↦ pump_frames s' frames ]

  -- One round of the outer loop: `batch` is what the carrier's `Recv` answers. (The case `none`
  -- does not arise: `DecodeAll` ends.)
  unfoldable pub pump_round : Session → Result Error (List ℕ) → Bool × Session
  unfolding pump_frames
  pump_round s (err e) = (false, fail s (e ++ (session_lost ∷ [])))
  pump_round s (ok bytes) = elim (decode_all bytes) [
    | none ↦ (false, s)
    | some answer ↦ elim answer [
      | err e ↦ (false, fail s (frame_error e ∷ protocol_violation ∷ []))
      | ok frames ↦ pump_frames s frames
    ]
  ]

-- `NewCarrier` in internal/webproxy/carrier.go: whether it returns a carrier. `dial` is what the
-- WebSocket dial answers.
unfoldable pub new_carrier : CarrierMode → Option Error → Result Error (Unit {0})
new_carrier websocket none = ok tt
new_carrier websocket (some e) = err (e ++ (carrier_closed ∷ []))
new_carrier https dial = ok tt
new_carrier https_lanes dial = ok tt
new_carrier mode dial = err (carrier_closed ∷ [])

-- `establish`, after a bootstrap that agreed on `mode`.
unfoldable pub establish : CarrierMode → Option Error → Result Error Session
unfolding new_carrier
establish websocket_lanes dial = ok (new_session websocket_lanes false)
establish mode dial = elim (new_carrier mode dial) [
  | err e ↦ err e
  | ok _ ↦ ok (new_session mode true)
]
