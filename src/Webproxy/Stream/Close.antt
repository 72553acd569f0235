-- ===== src/Webproxy/Stream/Close.antt =====
-- How a stream ends: by its own `Close`, by the relay's CLOSE, or with its session.
use teleparse.Base.{
  ℕ, ◌≡◌, refl, ap, ◌∙◌, Bool, true, false, List, [], ◌∷◌, Option, none, some, arith, Bool-cases,
  inl, inr, if◌then◌else◌,
}
use teleparse.Base.Results.{ok, Result-cases}
use teleparse.Webproxy.Frame.{Frame}
use teleparse.Webproxy.Window
use teleparse.Webproxy.Session.{
  Session, Stream, Error, stream_closed, eof, is_eof, put_stream, enqueue_global, evict, tombstone,
  drop_stream, stop_lane, abort, abort_all, update, fail, mem, first_error, delete,
}
use teleparse.Webproxy.Session.Inv.{IsSession, Distinct}
use teleparse.Webproxy.Stream.{
  send, or_same, ended, read, write_gate, refused, write_round, close_stream, close_frame,
  relay_close,
}

objects-evict : (s : Session) (order : List ℕ) → (evict s order).objects ≡ s.objects
unfolding evict
objects-evict s [] = refl
objects-evict s (x ∷ xs) = ground arith

objects-tombstone : (s : Session) (id : ℕ) → (tombstone s id).objects ≡ s.objects
unfolding tombstone
objects-tombstone s id = elim (Bool-cases (mem id s.tombstones)) [
  | inl h ↦ simp (h, tombstone)
  | inr h ↦ simp (h, tombstone) (objects-evict s s.tomb_order)
]

objects-drop_stream : (s : Session) (id : ℕ) → (drop_stream s id).objects ≡ s.objects
unfolding drop_stream
objects-drop_stream s id = objects-tombstone (record s { streams = delete id s.streams }) id

-- All live streams are aborted, and no other.
abort_all-each :
    (ids : List ℕ) (objects : ℕ → Stream) (cause : Error) (i : ℕ)
    → Distinct ids
    → abort_all objects ids cause i ≡ (if mem i ids then abort (objects i) cause else objects i)
unfolding abort_all
abort_all-each [] objects cause i d = refl
abort_all-each (id ∷ ids) objects cause i d =
    ground (arith, d, abort_all-each ids (update objects id (abort (objects id) cause)) cause i)

-- The session once all bytes that a stream holds are read.
abbrev emptied : Session → ℕ → Session
emptied s id = put_stream s id (record (s.objects id) { buf = [] })

-- A stream whose writes are refused with `gate`, and whose reads, once the buffer is empty, end
-- with `last`.
pub record IsShut (s : Session) (id : ℕ) (gate last : Error) : Type 0 where
  pub no_write : (pick : Bool) (bytes : List ℕ) → write_round pick s id bytes ≡ (refused gate, s)
  pub no_read :
      (pick : Bool) (now room : ℕ)
      → read pick now (emptied s id) id room ≡ (ended last, emptied s id)

IsShut-of :
    (s : Session) (id : ℕ) (gate last : Error)
    → write_gate (s.objects id) ≡ some gate
    → (s.objects id).recv_err ≡ some last
    → IsShut s id gate last
IsShut-of s id gate last g l = record {
  no_write = λ pick bytes. unfold write_round in ground (arith, g);
  no_read = λ pick now room. unfold read in ground (arith, l);
}

-- What a stream's end is read from.
abbrev state_of : Stream → Bool × Option Error × List ℕ
state_of st = (st.closed, st.recv_err, st.buf)

state-stop_lane : (st : Stream) → state_of (stop_lane st) ≡ state_of st
unfolding stop_lane
state-stop_lane st = ground arith

state-send :
    (pick : Bool) (s s' : Session) (id : ℕ) (f : Frame)
    → send pick s id f ≡ ok s'
    → state_of (s'.objects id) ≡ state_of (s.objects id)
unfolding send enqueue_global
state-send pick s s' id f e = ground arith

state-or_same-send :
    (pick : Bool) (s : Session) (id : ℕ) (f : Frame)
    → state_of ((or_same s (send pick s id f)).objects id) ≡ state_of (s.objects id)
state-or_same-send pick s id f = elim (Result-cases (send pick s id f)) [
  | inl (s', e) ↦ rw e (state-send pick s s' id f e)
  | inr (x, e) ↦ rw e
]

-- The last steps of both closes.
state_dropped :
    (t : Session) (id : ℕ)
    → let u = drop_stream t id in
      state_of ((put_stream u id (stop_lane (u.objects id))).objects id) ≡ state_of (t.objects id)
state_dropped t id = ground (
  arith,
  state-stop_lane ((drop_stream t id).objects id),
  ap (λ (o : ℕ → Stream). state_of (o id)) (objects-drop_stream t id),
)

state-close_stream :
    (pick : Bool) (s : Session) (id : ℕ)
    → (s.objects id).closed ≡ false
    → state_of ((close_stream pick s id).1.objects id)
      ≡ (true, first_error (s.objects id).recv_err (stream_closed ∷ []), (s.objects id).buf)
unfolding close_stream
state-close_stream pick s id h =
    simp (h, close_stream)
      (state_dropped (or_same shut (send pick shut id (close_frame id))) id
        ∙ state-or_same-send pick shut id (close_frame id)
        ∙ ground arith)
  where
    shut : Session
    shut = put_stream s id (record (s.objects id) {
      closed = true;
      recv_err = first_error (s.objects id).recv_err (stream_closed ∷ []);
      send_win = Window.abort (s.objects id).send_win (stream_closed ∷ []);
    })

state-relay_close :
    (s : Session) (id : ℕ)
    → state_of ((relay_close s id).objects id)
      ≡ ((s.objects id).closed, first_error (s.objects id).recv_err (eof ∷ []), (s.objects id).buf)
unfolding relay_close
state-relay_close s id = state_dropped shut id ∙ ground arith
  where
    shut : Session
    shut = put_stream s id (record (s.objects id) {
      recv_err = first_error (s.objects id).recv_err (eof ∷ []);
      send_win = Window.abort (s.objects id).send_win (stream_closed ∷ []);
    })

abbrev pub first_of : Option Error → Error → Error
first_of none e = e
first_of (some first) e = first

-- The gate, from the stream's state.
gate_closed :
    (st : Stream) (o : Option Error) (buf : List ℕ)
    → state_of st ≡ (true, o, buf)
    → write_gate st ≡ some (stream_closed ∷ [])
unfolding write_gate
gate_closed st o buf e = ground arith

gate_error :
    (st : Stream) (cause : Error) (buf : List ℕ)
    → state_of st ≡ (false, some cause, buf)
    → write_gate st ≡ some (if is_eof cause then stream_closed ∷ [] else cause)
unfolding write_gate
gate_error st cause buf e = ground arith

close_again :
    (pick : Bool) (s : Session) (id : ℕ)
    → (s.objects id).closed ≡ true
    → close_stream pick s id ≡ (none, s)
unfolding close_stream
close_again pick s id h = ground (arith, h)

-- After the first `Close` of a stream its writes are refused as closed, its reads end with the first
-- error of its life once the buffer is empty, the buffer is kept, and a further `Close` does nothing.
pub close_stream-IsShut :
    (pick again : Bool) (s : Session) (id : ℕ)
    → (s.objects id).closed ≡ false
    → let t = (close_stream pick s id).1 in
      IsShut t id (stream_closed ∷ []) (first_of (s.objects id).recv_err (stream_closed ∷ []))
      × ((t.objects id).buf ≡ (s.objects id).buf)
      × (close_stream again t id ≡ (none, t))
close_stream-IsShut pick again s id h =
    let e = state-close_stream pick s id h in
    let t = (close_stream pick s id).1 in
    (
      IsShut-of t id _ _ (gate_closed _ _ _ e) (ground (arith, e)),
      ground (arith, e),
      close_again again t id (ground (arith, e)),
    )

-- After the relay's CLOSE of a stream that has not ended, the bytes that it sent before are still read; then reads end with EOF, and
-- writes are refused as closed at once.
pub relay_close-IsShut :
    (s : Session) (id : ℕ)
    → (s.objects id).closed ≡ false
    → (s.objects id).recv_err ≡ none
    → let t = relay_close s id in
      IsShut t id (stream_closed ∷ []) (eof ∷ []) × ((t.objects id).buf ≡ (s.objects id).buf)
relay_close-IsShut s id h k =
    let e : state_of ((relay_close s id).objects id)
        ≡ (false, some (eof ∷ []), (s.objects id).buf) =
      ground (arith, state-relay_close s id) in
    (IsShut-of _ id _ _ (gate_error _ _ _ e) (ground (arith, e)), ground (arith, e))

state-fail :
    (s : Session) (cause : Error) (id : ℕ)
    → s.failed ≡ false
    → Distinct s.streams
    → state_of ((fail s cause).objects id) ≡ (
      (s.objects id).closed,
      (if mem id s.streams
          then first_error (s.objects id).recv_err cause
          else (s.objects id).recv_err),
      (s.objects id).buf,
    )
unfolding fail abort stop_lane
state-fail s cause id h d = ground (arith, h, abort_all-each s.streams s.objects cause id d)

-- When a running, well-formed session fails with a cause that is no EOF, each live stream that has
-- not ended is shut with that cause, and keeps the bytes that it has.
pub fail-IsShut :
    (s : Session) (cause : Error) (id : ℕ)
    → IsSession s
    → s.failed ≡ false
    → mem id s.streams ≡ true
    → (s.objects id).closed ≡ false
    → (s.objects id).recv_err ≡ none
    → is_eof cause ≡ false
    → let t = fail s cause in IsShut t id cause cause × ((t.objects id).buf ≡ (s.objects id).buf)
fail-IsShut s cause id v h live c r n =
    let e : state_of ((fail s cause).objects id) ≡ (false, some cause, (s.objects id).buf) =
      ground (arith, state-fail s cause id h v.live_distinct) in
    (IsShut-of _ id _ _ (gate_error _ _ _ e ∙ ground arith) (ground (arith, e)), ground (arith, e))
