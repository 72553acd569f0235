-- ===== src/Webproxy/Stream/Chunk.antt =====
-- One round of `Write` on an open stream, which has a lane of its own or shares the session's writer.
use teleparse.Base.{
  ℕ, ◌-◌, ◌<◌, ◌≡◌, ◌≢◌, refl, ap, ◌∙◌, ◌⊎◌, inl, inr, Bool, true, false, List, [], ◌∷◌, ◌++◌,
  Option, none, some, arith, length, take, min, ltb, if◌then◌else◌, length-take,
}
use teleparse.Base.Results.{ok}
use teleparse.Webproxy.Frame.{Frame, validate_client}
use teleparse.Webproxy.Window.{got, waits, reserve, data_chunk, data_chunk_size}
use teleparse.Webproxy.Session.{Session, Stream, put_stream, enqueue, enqueue_global}
use teleparse.Webproxy.Stream.{
  send, write_gate, sent, pauses, data_frame, write_reserved, write_round,
}

-- A stream of a session that runs, with no end in sight, and with a queue for its frames: that of its
-- lane, or else that of the session's writer.
pub record IsOpen (s : Session) (id : ℕ) : Type 0 where
  pub nonzero : id ≢ 0
  pub runs : s.stopped ≡ false
  pub carried :
      (((s.objects id).lane ≡ none) × (s.writer ≡ true))
      ⊎ ((q : List Frame) × ((s.objects id).lane ≡ some q))
  pub not_closed : (s.objects id).closed ≡ false
  pub no_error : (s.objects id).recv_err ≡ none
  pub not_aborted : (s.objects id).send_win.aborted ≡ none

-- The queue of a stream's frames, and the session with one more frame in it.
abbrev pub carrying : Option (List Frame) → List Frame → List Frame
carrying none queue = queue
carrying (some q) queue = q

abbrev pub outbox : Session → ℕ → List Frame
outbox s id = carrying (s.objects id).lane s.queue

abbrev pub posted : Option (List Frame) → Session → ℕ → Frame → Session
posted none s id f = record s { queue = s.queue ++ (f ∷ []) }
posted (some q) s id f = put_stream s id (record (s.objects id) { lane = some (q ++ (f ∷ [])) })

same_at : (s : Session) (id : ℕ) (st : Stream) → (put_stream s id st).objects id ≡ st
same_at s id st = ground arith

abbrev pub credit : Session → ℕ → ℕ
credit s id = (s.objects id).send_win.available

-- The session once `n` bytes of credit are taken, and once they went into a frame.
abbrev pub reserved : Session → ℕ → ℕ → Session
reserved s id n = put_stream s id (record (s.objects id) {
  send_win = record (s.objects id).send_win { available = credit s id - n };
})

abbrev pub after_round : Session → ℕ → List ℕ → ℕ → Session
after_round s id bytes n =
    posted ((reserved s id n).objects id).lane (reserved s id n) id (data_frame id (take n bytes))

abbrev pub round_size : Session → ℕ → List ℕ → ℕ
round_size s id bytes = min (min (length bytes) data_chunk) (credit s id)

reserved-IsOpen : (s : Session) (id n : ℕ) → IsOpen s id → IsOpen (reserved s id n) id
reserved-IsOpen s id n o = record {
  nonzero = o.nonzero;
  runs = o.runs;
  carried = elim o.carried [
    | inl (lane, w) ↦ inl (ground (arith, lane), w)
    | inr (q, lane) ↦ inr (q, ground (arith, lane))
  ];
  not_closed = ground (arith, o.not_closed);
  no_error = ground (arith, o.no_error);
  not_aborted = ground (arith, o.not_aborted);
}

posted-IsOpen :
    (lane : Option (List Frame)) (s : Session) (id : ℕ) (f : Frame)
    → IsOpen s id
    → IsOpen (posted lane s id f) id
posted-IsOpen none s id f o = record {
  nonzero = o.nonzero;
  runs = o.runs;
  carried = o.carried;
  not_closed = o.not_closed;
  no_error = o.no_error;
  not_aborted = o.not_aborted;
}
posted-IsOpen (some q) s id f o = record {
  nonzero = o.nonzero;
  runs = o.runs;
  carried = inr (q ++ (f ∷ []), ground arith);
  not_closed = ground (arith, o.not_closed);
  no_error = ground (arith, o.no_error);
  not_aborted = ground (arith, o.not_aborted);
}

outbox-posted :
    (lane : Option (List Frame)) (s : Session) (id : ℕ) (f : Frame)
    → (s.objects id).lane ≡ lane
    → outbox (posted lane s id f) id ≡ carrying lane s.queue ++ (f ∷ [])
outbox-posted none s id f e = ap (λ (l : Option (List Frame)). carrying l (s.queue ++ (f ∷ []))) e
outbox-posted (some q) s id f e =
    ap (λ (st : Stream). carrying st.lane s.queue)
      (same_at s id (record (s.objects id) { lane = some (q ++ (f ∷ [])) }))

credit-posted :
    (lane : Option (List Frame)) (s : Session) (id : ℕ) (f : Frame)
    → credit (posted lane s id f) id ≡ credit s id
credit-posted none s id f = refl
credit-posted (some q) s id f =
    ap (λ (st : Stream). st.send_win.available)
      (same_at s id (record (s.objects id) { lane = some (q ++ (f ∷ [])) }))

-- DATA frames of a stream may be queued.
send_data :
    (pick : Bool) (s : Session) (id : ℕ) (bytes : List ℕ)
    → IsOpen s id
    → 0 < length bytes
    → send pick s id (data_frame id bytes)
      ≡ ok (posted (s.objects id).lane s id (data_frame id bytes))
unfolding send enqueue_global enqueue validate_client
send_data pick s id bytes o some_bytes = elim o.carried [
  | inl (lane, w) ↦ simp (lane) (ground (arith, w, o.nonzero, o.runs))
  | inr (q, lane) ↦ simp (lane) (ground (arith, o.nonzero, o.runs))
]

gate_open : (s : Session) (id : ℕ) → IsOpen s id → write_gate (s.objects id) ≡ none
unfolding write_gate
gate_open s id o = ground (arith, o.not_closed, o.no_error)

reserve_open :
    (s : Session) (id want : ℕ)
    → IsOpen s id
    → 0 < want
    → reserve (s.objects id).send_win want ≡ (
        if ltb 0 (credit s id)
        then (
          got (min want (credit s id)),
          record (s.objects id).send_win { available = credit s id - min want (credit s id) },
        )
        else (waits, (s.objects id).send_win))
unfolding reserve
reserve_open s id want o h = ground (arith, o.not_aborted)

write_reserved_sends :
    (pick : Bool) (s : Session) (id n : ℕ) (bytes : List ℕ)
    → IsOpen s id
    → 0 < n
    → 0 < length bytes
    → write_reserved pick (reserved s id n) id bytes (got n) ≡ (sent n, after_round s id bytes n)
unfolding write_reserved
write_reserved_sends pick s id n bytes o h k = simp (
  send_data pick (reserved s id n) id (take n bytes) (reserved-IsOpen s id n o)
      (omega (arith, length-take n bytes)),
  write_reserved,
)

pub write_round_sends :
    (pick : Bool) (s : Session) (id : ℕ) (bytes : List ℕ)
    → IsOpen s id
    → 0 < length bytes
    → 0 < credit s id
    → write_round pick s id bytes
      ≡ (sent (round_size s id bytes), after_round s id bytes (round_size s id bytes))
unfolding write_round data_chunk_size
write_round_sends pick s id bytes o h k = ground (
  arith,
  gate_open s id o,
  reserve_open s id (data_chunk_size (length bytes)) o,
  write_reserved_sends pick s id (round_size s id bytes) bytes o,
)

pub write_round_waits :
    (pick : Bool) (s : Session) (id : ℕ) (bytes : List ℕ)
    → IsOpen s id
    → 0 < length bytes
    → credit s id ≡ 0
    → write_round pick s id bytes ≡ (pauses, reserved s id 0)
unfolding write_round write_reserved data_chunk_size
write_round_waits pick s id bytes o h k =
    ground (arith, gate_open s id o, reserve_open s id (data_chunk_size (length bytes)) o)

pub after_round-IsOpen :
    (s : Session) (id n : ℕ) (bytes : List ℕ) → IsOpen s id → IsOpen (after_round s id bytes n) id
after_round-IsOpen s id n bytes o =
    posted-IsOpen ((reserved s id n).objects id).lane (reserved s id n) id
      (data_frame id (take n bytes)) (reserved-IsOpen s id n o)

pub credit-reserved : (s : Session) (id n : ℕ) → credit (reserved s id n) id ≡ credit s id - n
credit-reserved s id n = ground arith

pub outbox-reserved : (s : Session) (id n : ℕ) → outbox (reserved s id n) id ≡ outbox s id
outbox-reserved s id n =
    ap (λ (st : Stream). carrying st.lane s.queue)
      (same_at s id (record (s.objects id) {
        send_win = record (s.objects id).send_win { available = credit s id - n };
      }))

pub credit-after_round :
    (s : Session) (id n : ℕ) (bytes : List ℕ)
    → credit (after_round s id bytes n) id ≡ credit s id - n
credit-after_round s id n bytes =
    credit-posted ((reserved s id n).objects id).lane (reserved s id n) id
      (data_frame id (take n bytes))
    ∙ credit-reserved s id n

pub outbox-after_round :
    (s : Session) (id n : ℕ) (bytes : List ℕ)
    → outbox (after_round s id bytes n) id ≡ outbox s id ++ (data_frame id (take n bytes) ∷ [])
outbox-after_round s id n bytes =
    outbox-posted ((reserved s id n).objects id).lane (reserved s id n) id
      (data_frame id (take n bytes)) refl
    ∙ ap (λ (q : List Frame). q ++ (data_frame id (take n bytes) ∷ [])) (outbox-reserved s id n)
