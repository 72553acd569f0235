-- ===== src/Webproxy/Mux/Relay.antt =====
-- What `handleFrame` does with a frame of the relay.
use teleparse.Base.{
  ℕ, ◌<◌, ◌≢◌, ◌++◌, List, length, ◌≡◌, ◌==◌, ◌||◌, Bool, true, false, [], ◌∷◌, Option, none, some,
  arith, Bool-cases, inl, inr,
}
use teleparse.Base.Results.{ok, err, Result-cases}
use teleparse.Webproxy.Frame.{
  Frame, type_bye, type_ping, type_welcome, type_pong, type_hello, type_open, validate_server,
  validate_client, invalid_shape, max_pong_payload,
}
use teleparse.Webproxy.Session.{
  Session, Error, mem, enqueue_global, session_lost, protocol_violation, frame_error,
}
use teleparse.Webproxy.Session.Inv.{IsSession}
use teleparse.Webproxy.Stream.{handle_relay}
use teleparse.Webproxy.Mux.{pong_frame, sent_pong, dispatch, handle_frame}

-- The ways that `handleFrame` goes: it answers and leaves the session alone, it queues a PONG, or it
-- hands the frame to a live stream.
pub data Handled (pick : Bool) (s : Session) (f : Frame) (r : Option Error × Session) : Type 0 where
  answers : (o : Option Error) → r ≡ (o, s) → Handled pick s f r
  pongs : r ≡ sent_pong s (enqueue_global pick s (pong_frame f.payload)) → Handled pick s f r
  relays : mem f.stream_id s.streams ≡ true → r ≡ handle_relay s f.stream_id f → Handled pick s f r

dispatch-Handled : (pick : Bool) (s : Session) (f : Frame) → Handled pick s f (dispatch pick s f)
unfolding dispatch
dispatch-Handled pick s f = elim (Bool-cases (f.typ == type_bye)) [
  | inl h ↦ answers (some (session_lost ∷ [])) (ground (arith, h))
  | inr h ↦ elim (Bool-cases (f.typ == type_ping)) [
    | inl k ↦ pongs (ground (arith, h, k))
    | inr k ↦ elim (Bool-cases (is_client_only f.typ)) [
      | inl l ↦ answers (some (protocol_violation ∷ [])) (ground (arith, h, k, l))
      | inr l ↦ known f h k l
    ]
  ]
]
  where
    is_client_only : ℕ → Bool
    is_client_only t = t == type_welcome || t == type_pong || t == type_hello || t == type_open

    known :
        (f : Frame)
        → (f.typ == type_bye) ≡ false
        → (f.typ == type_ping) ≡ false
        → is_client_only f.typ ≡ false
        → Handled pick s f (dispatch pick s f)
    known f h k l = elim (Bool-cases (mem f.stream_id s.streams)) [
      | inl m ↦ elim (Bool-cases (mem f.stream_id s.tombstones)) [
        | inl t ↦ answers none (ground (arith, h, k, l, t))
        | inr t ↦ relays m (ground (arith, h, k, l, m, t))
      ]
      | inr m ↦ answers none (ground (arith, h, k, l, m))
    ]

pub handle_frame-Handled :
    (pick : Bool) (s : Session) (f : Frame) → Handled pick s f (handle_frame pick s f)
unfolding handle_frame
handle_frame-Handled pick s f = elim (Result-cases (validate_server f)) [
  | inl (_, e) ↦ simp (e, handle_frame) (dispatch-Handled pick s f)
  | inr (x, e) ↦ answers (some (frame_error x ∷ protocol_violation ∷ [])) (ground (arith, e))
]

-- A frame that the relay may send, for a stream that is not live, is ignored: late frames of a
-- closed stream do no harm. (Whether the id is still among the tombstones makes no difference.)
pub handle_frame-ignored :
    (pick : Bool) (s : Session) (f : Frame)
    → validate_server f ≡ ok tt
    → f.stream_id ≢ 0
    → mem f.stream_id s.streams ≡ false
    → handle_frame pick s f ≡ (none, s)
unfolding handle_frame dispatch validate_server
handle_frame-ignored pick s f v nz gone = ground (arith, gone)

-- A frame that the relay may send, for a live stream of a well-formed session, is handed to it.
pub handle_frame-delivered :
    (pick : Bool) (s : Session) (f : Frame)
    → IsSession s
    → validate_server f ≡ ok tt
    → f.stream_id ≢ 0
    → mem f.stream_id s.streams ≡ true
    → handle_frame pick s f ≡ handle_relay s f.stream_id f
unfolding handle_frame dispatch validate_server
handle_frame-delivered pick s f w v nz live = ground (arith, live, w.apart f.stream_id live)

abbrev pub ping_frame : List ℕ → Frame
ping_frame payload = record { typ = type_ping; stream_id = 0; payload = payload }

-- In a running session whose frames go through one writer, a PING of the relay is answered by a PONG
-- with the same payload, behind what is already queued, and nothing else changes.
pub handle_frame-ping :
    (pick : Bool) (s : Session) (payload : List ℕ)
    → s.writer ≡ true
    → s.stopped ≡ false
    → handle_frame pick s (ping_frame payload)
      ≡ (none, record s { queue = s.queue ++ (pong_frame payload ∷ []) })
unfolding handle_frame dispatch validate_server enqueue_global
handle_frame-ping pick s payload w run = ground (arith, w, run)

-- Nothing bounds the payload of a PING: where it is longer than 64 bytes, the frame that a running
-- session queues for it is one that `ValidateClient` refuses.
pub handle_frame-ping_oversized :
    (pick : Bool) (s : Session) (payload : List ℕ)
    → s.writer ≡ true
    → s.stopped ≡ false
    → max_pong_payload < length payload
    → (f : Frame) × (handle_frame pick s (ping_frame payload)
        ≡ (none, record s { queue = s.queue ++ (f ∷ []) }))
      × (validate_client f ≡ err invalid_shape)
unfolding validate_client
handle_frame-ping_oversized pick s payload w run long =
    (pong_frame payload, handle_frame-ping pick s payload w run, ground arith)
