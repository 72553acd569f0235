-- ===== src/Webproxy/Stream/Tests.antt =====
-- The methods of a stream at a concrete session.
use teleparse.Base.{ℕ, ◌≡◌, ◌++◌, refl, true, false, List, [], ◌∷◌, none, arith, min, length, inl}
use teleparse.Webproxy.Session.{
  Session, Stream, Error, websocket, stream_closed, session_lost, external, eof, new_stream,
  new_session, fail,
}
use teleparse.Webproxy.Session.Inv.{IsSession}
use teleparse.Webproxy.Stream.{read, write, close_stream, relay_close}
use teleparse.Webproxy.Stream.Chunk.{IsOpen}
use teleparse.Webproxy.Stream.Transfer.{Sends, write-Sends}
use teleparse.Webproxy.Stream.Ends.{
  arrives, takes, Traffic, play, read_front, bytes_of, play_fifo, buffer,
}
use teleparse.Webproxy.Stream.Close.{
  IsShut, first_of, close_stream-IsShut, relay_close-IsShut, fail-IsShut,
}
use teleparse.Webproxy.Mux.{allocate}
use teleparse.Webproxy.Mux.Reach.{new_session-IsSession}
use teleparse.Webproxy.Mux.Opening.{allocate-Moves}

abbrev pub mux : Session
mux = record {
  mode = websocket;
  lane_dial = false;
  writer = true;
  queue = [];
  streams = 1 ∷ [];
  objects = λ i. stream_of i;
  next_id = 2;
  tombstones = [];
  tomb_order = [];
  lost = none;
  stopped = false;
  failed = false;
}
  where
    stream_of : ℕ → Stream
    stream_of i = record {
      id = i;
      send_win = record { available = 3; aborted = none };
      recv_win = record { ungranted = 0 };
      buf = 5 ∷ 6 ∷ [];
      recv_err = none;
      closed = false;
      deadline = none;
      lane = none;
      lane_stopped = false;
    }

mux-IsOpen : IsOpen mux 1
mux-IsOpen = record {
  nonzero = omega arith;
  runs = refl;
  carried = inl (refl, refl);
  not_closed = refl;
  no_error = refl;
  not_aborted = refl;
}

write-Sends_example :
    Sends mux 1 (1 ∷ 2 ∷ 3 ∷ 4 ∷ []) 0 (write (λ i. true) mux 1 (1 ∷ 2 ∷ 3 ∷ 4 ∷ []))
write-Sends_example = write-Sends (λ i. true) mux 1 (1 ∷ 2 ∷ 3 ∷ 4 ∷ []) mux-IsOpen

read_front_test :
    let (r, t) = read true 0 mux 1 1 in
    (bytes_of r ++ buffer t 1 ≡ 5 ∷ 6 ∷ []) × (length (bytes_of r) ≡ min 1 2)
read_front_test = read_front true 0 mux 1 1

abbrev traffic : List Traffic
traffic = takes true 0 1 ∷ arrives (7 ∷ 8 ∷ []) ∷ takes true 0 2 ∷ []

play_fifo_example : let (out, t) = play mux 1 traffic in out ++ buffer t 1 ≡ 5 ∷ 6 ∷ 7 ∷ 8 ∷ []
play_fifo_example = play_fifo traffic mux 1

close_stream-IsShut_test :
    let t = (close_stream true mux 1).1 in
    IsShut t 1 (stream_closed ∷ []) (first_of none (stream_closed ∷ []))
    × ((t.objects 1).buf ≡ 5 ∷ 6 ∷ [])
    × (close_stream false t 1 ≡ (none, t))
close_stream-IsShut_test = close_stream-IsShut true false mux 1 refl

relay_close-IsShut_test :
    let t = relay_close mux 1 in
    IsShut t 1 (stream_closed ∷ []) (eof ∷ []) × ((t.objects 1).buf ≡ 5 ∷ 6 ∷ [])
relay_close-IsShut_test = relay_close-IsShut mux 1 refl refl

abbrev fresh : Session
fresh = new_session websocket true

fresh-IsSession : IsSession fresh
fresh-IsSession = new_session-IsSession websocket true

abbrev opened : Session
opened = allocate fresh

opened-IsSession : IsSession opened
opened-IsSession = (allocate-Moves fresh fresh-IsSession (unfold new_session in omega arith)).valid

abbrev cut_off : Error
cut_off = session_lost ∷ external 1 ∷ []

fail-IsShut_test :
    let t = fail opened cut_off in IsShut t 1 cut_off cut_off × ((t.objects 1).buf ≡ [])
unfolding allocate new_session new_stream
fail-IsShut_test = fail-IsShut opened cut_off 1 opened-IsSession refl refl refl refl refl
