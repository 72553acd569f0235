-- ===== src/Webproxy/Session.antt =====
-- internal/webproxy/session.go, the state: a session, the streams that it multiplexes, and the
-- operations on both that everything else is made of. A Go error is the list of the sentinels
-- that `errors.Is` finds in it, outermost first. A stream outlives its entry in the session's map,
-- so the streams are objects of their own, named by their ids, and the map is a list of ids.
pub mod Inv
pub mod Moves
use teleparse.Base.{
  ℕ, ◌+◌, ◌%◌, ◌^◌, Bool, true, false, not, ◌&&◌, ◌||◌, List, [], ◌∷◌, ◌++◌, Option, none, some,
  ltb, ◌==◌, if◌then◌else◌, length,
}
use teleparse.Base.Results.{Result, ok, err}
use teleparse.Webproxy.Frame.{Frame, FrameError, max_stream_id, validate_client}
use teleparse.Webproxy.Window.{SendWindow, RecvWindow, new_send_window, new_recv_window}
use teleparse.Webproxy.Window

abbrev pub tombstone_limit : ℕ
tombstone_limit = 4096

-- `external n`: an error of the network, the relay's HTTP side or the operating system.
pub data Sentinel : Type 0 where
  session_lost stream_closed streams_exhausted protocol_violation session_closed : Sentinel
  carrier_closed eof deadline_exceeded : Sentinel
  frame_error : FrameError → Sentinel
  external : ℕ → Sentinel

abbrev pub Error : Type 0
Error = List Sentinel

-- `errors.Is(e, io.EOF)`
abbrev pub is_eof : Error → Bool
is_eof [] = false
is_eof (eof ∷ e) = true
is_eof (s ∷ e) = is_eof e

-- `type CarrierMode string`; `other` stands for any further text.
pub data CarrierMode : Type 0 where
  auto websocket websocket_lanes https https_lanes other : CarrierMode

abbrev pub has_lanes : CarrierMode → Bool
has_lanes websocket_lanes = true
has_lanes https_lanes = true
has_lanes m = false

-- `lane` is the queue of the stream's own carrier writer, where it has one; `deadline` is `none`
-- for the zero time.
pub record Stream : Type 0 where
  pub id : ℕ
  pub send_win : SendWindow Error
  pub recv_win : RecvWindow
  pub buf : List ℕ
  pub recv_err : Option Error
  pub closed : Bool
  pub deadline : Option ℕ
  pub lane : Option (List Frame)
  pub lane_stopped : Bool

unfoldable pub new_stream : ℕ → Stream
new_stream id = record {
  id = id;
  send_win = new_send_window;
  recv_win = new_recv_window;
  buf = [];
  recv_err = none;
  closed = false;
  deadline = none;
  lane = none;
  lane_stopped = false;
}

-- `lane_dial` and `writer` say whether the pointers of these names are set; `queue` is the queue of
-- `writer`, `stopped` says that the context behind `done` is cancelled, and `failed` that `onceFail`
-- has run. `streams` holds the keys of the map of that name, and `objects` every stream ever made.
pub record Session : Type 0 where
  pub mode : CarrierMode
  pub lane_dial : Bool
  pub writer : Bool
  pub queue : List Frame
  pub streams : List ℕ
  pub objects : ℕ → Stream
  pub next_id : ℕ
  pub tombstones : List ℕ
  pub tomb_order : List ℕ
  pub lost : Option Error
  pub stopped : Bool
  pub failed : Bool

-- `carrier` says whether the carrier that is passed is not nil.
unfoldable pub new_session : CarrierMode → Bool → Session
new_session mode carrier = record {
  mode = mode;
  lane_dial = not carrier && has_lanes mode;
  writer = carrier;
  queue = [];
  streams = [];
  objects = new_stream;
  next_id = 1;
  tombstones = [];
  tomb_order = [];
  lost = none;
  stopped = false;
  failed = false;
}

abbrev pub update : (ℕ → Stream) → ℕ → Stream → ℕ → Stream
update objects id st j = if j == id then st else objects j

abbrev pub put_stream : Session → ℕ → Stream → Session
put_stream s id st = record s { objects = update s.objects id st }

abbrev pub mem : ℕ → List ℕ → Bool
mem i [] = false
mem i (j ∷ js) = if i == j then true else mem i js

-- `delete(m, id)`
abbrev pub delete : ℕ → List ℕ → List ℕ
delete i [] = []
delete i (j ∷ js) = if i == j then delete i js else j ∷ delete i js

-- The two halves of `tombstone`: the oldest entry goes where the order is full.
unfoldable pub evict : Session → List ℕ → Session
evict s [] = s
evict s (oldest ∷ rest) =
    if length (oldest ∷ rest) == tombstone_limit
    then record s { tomb_order = rest; tombstones = delete oldest s.tombstones }
    else s

unfoldable pub tombstone : Session → ℕ → Session
unfolding evict
tombstone s id =
    let s' = evict s s.tomb_order in
    if mem id s.tombstones
    then s
    else record s' { tombstones = id ∷ s'.tombstones; tomb_order = s'.tomb_order ++ (id ∷ []) }

unfoldable pub drop_stream : Session → ℕ → Session
unfolding tombstone
drop_stream s id = tombstone (record s { streams = delete id s.streams }) id

-- `if recvErr == nil { recvErr = e }`
abbrev pub first_error : Option Error → Error → Option Error
first_error none e = some e
first_error (some first) e = some first

unfoldable pub stop_lane : Stream → Stream
stop_lane st = elim st.lane [ none ↦ st | some q ↦ record st { lane_stopped = true } ]

-- `Stream.abort`
unfoldable pub abort : Stream → Error → Stream
unfolding stop_lane
abort st cause = stop_lane (record st {
  recv_err = first_error st.recv_err cause;
  send_win = Window.abort st.send_win cause;
})

unfoldable pub abort_all : (ℕ → Stream) → List ℕ → Error → ℕ → Stream
unfolding abort
abort_all objects [] cause = objects
abort_all objects (id ∷ ids) cause =
    abort_all (update objects id (abort (objects id) cause)) ids cause

-- The first two parts of `fail`: the context is cancelled, and then, under the mutex, the cause is
-- set. The streams are aborted after that.
abbrev pub stop : Session → Session
stop s = record s { failed = true; stopped = true }

abbrev pub lose : Session → Error → Session
lose s cause = record s { lost = some cause }

-- `fail`, where nothing comes between its parts.
unfoldable pub fail : Session → Error → Session
unfolding abort_all
fail s cause =
    let t = lose (stop s) cause in
    if s.failed then s else record t { objects = abort_all t.objects t.streams cause }

-- `carrierWriter.enqueue`, at the moment when the queue has room or the session is over. Once it
-- is over, Go's `select` may take either case: `pick` says that it takes the queue.
unfoldable pub enqueue : Bool → Bool → List Frame → Frame → Result Error (List Frame)
enqueue stopped pick q frame =
    if not stopped || pick then ok (q ++ (frame ∷ [])) else err (session_lost ∷ [])

unfoldable pub enqueue_global : Bool → Session → Frame → Result Error Session
unfolding enqueue
enqueue_global pick s frame =
    if s.writer
    then elim (enqueue s.stopped pick s.queue frame) [
      | ok q ↦ ok (record s { queue = q })
      | err e ↦ err e
    ]
    else ok s
