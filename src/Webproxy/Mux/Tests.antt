-- ===== src/Webproxy/Mux/Tests.antt =====
-- Sessions at concrete calls.
use teleparse.Base.{ℕ, ◌<◌, ◌≤◌, ◌≡◌, ◌++◌, refl, true, false, List, [], ◌∷◌, none, arith}
use teleparse.Base.Results.{ok, err}
use teleparse.Webproxy.Frame.{
  Frame, type_data, max_stream_id, invalid_shape, validate_server, validate_client,
}
use teleparse.Webproxy.Session.{
  Session, Error, websocket, https_lanes, session_lost, external, new_session, new_stream, mem,
  fail, stop, lose, enqueue_global, enqueue, drop_stream, tombstone, evict, stop_lane,
}
use teleparse.Webproxy.Session.Inv.{IsSession}
use teleparse.Webproxy.Stream.{send, handle_relay, close_stream}
use teleparse.Webproxy.Stream.Moves.{close_stream-Moves}
use teleparse.Webproxy.Mux.{
  start, open_allocated, allocate, open_stream, close_session, handle_frame, pong_frame, establish,
  new_carrier,
}
use teleparse.Webproxy.Mux.Opening.{open_stream-Moves}
use teleparse.Webproxy.Mux.Reach.{
  closes, ends, allocates, stops, loses, Reach, here, next, new_session-IsSession, Reach-IsSession,
  open_stream-fresh, retired_stays, open_stream-fail,
}
use teleparse.Webproxy.Mux.Relay.{
  handle_frame-ignored, handle_frame-delivered, handle_frame-ping, handle_frame-ping_oversized,
  ping_frame,
}
use teleparse.Webproxy.Mux.Modes.{open_stream-https_lanes}

abbrev fresh : Session
fresh = new_session websocket true

fresh-IsSession : IsSession fresh
fresh-IsSession = new_session-IsSession websocket true

abbrev opened : Session
opened = (open_stream true fresh none).1

open_stream-first : open_stream true fresh none ≡ (ok 1, opened)
unfolding open_stream open_allocated start send allocate enqueue_global enqueue new_session
    new_stream validate_client
open_stream-first = refl

opened-IsSession : IsSession opened
opened-IsSession = (open_stream-Moves true fresh none fresh-IsSession).valid

opened_next : opened.next_id ≡ 2
unfolding open_stream open_allocated start send allocate enqueue_global enqueue new_session
    new_stream validate_client
opened_next = refl

abbrev closed : Session
closed = (close_stream true opened 1).1

-- Open, then close by the application.
abbrev life : Reach opened closed
life = next here (closes true 1 (omega (arith, opened_next)))

-- A stream is allocated, and the session ends before its OPEN frame is sent.
Reach-IsSession_example : IsSession (lose (stop (allocate fresh)) (session_lost ∷ []))
unfolding allocate new_session
Reach-IsSession_example = Reach-IsSession websocket true (
    next (next (next here (allocates refl (omega arith))) (stops refl))
      (loses (session_lost ∷ []) refl refl))

closed_reopens : open_stream true closed none ≡ (ok 2, (open_stream true closed none).1)
unfolding open_stream open_allocated start send allocate enqueue_global enqueue new_session
    new_stream validate_client close_stream drop_stream tombstone evict stop_lane
closed_reopens = refl

open_stream-fresh_example : (0 < 1) × (1 < 2) × (2 ≤ max_stream_id)
open_stream-fresh_example =
    open_stream-fresh true none 1 fresh opened true none 2 closed (open_stream true closed none).1
      fresh-IsSession open_stream-first life closed_reopens

closed-IsSession : IsSession closed
closed-IsSession =
    (close_stream-Moves true opened 1 opened-IsSession (omega (arith, opened_next))).valid

closed_table : (closed.next_id ≡ 2) × (mem 1 closed.streams ≡ false)
unfolding open_stream open_allocated start send allocate enqueue_global enqueue new_session
    new_stream validate_client close_stream drop_stream tombstone evict stop_lane
closed_table = (refl, refl)

opened_table : (opened.failed ≡ false) × (mem 1 opened.streams ≡ true)
unfolding open_stream open_allocated start send allocate enqueue_global enqueue new_session
    new_stream validate_client
opened_table = (refl, refl)

abbrev ended : Session
ended = close_session closed

retired_stays_example : mem 1 ended.streams ≡ false
retired_stays_example =
    retired_stays closed ended 1 closed-IsSession (next here ends) (omega (arith, closed_table.0))
      closed_table.1

abbrev cause : Error
cause = session_lost ∷ external 1 ∷ []

open_stream-fail_example :
    let t = close_session (fail opened cause) in open_stream true t none ≡ (err cause, t)
open_stream-fail_example =
    open_stream-fail opened (close_session (fail opened cause)) cause true none opened-IsSession
      opened_table.0 (next here ends)

abbrev late : Frame
late = record { typ = type_data; stream_id = 1; payload = 4 ∷ [] }

late_valid : validate_server late ≡ ok tt
unfolding validate_server
late_valid = refl

handle_frame-ignored_test : handle_frame true closed late ≡ (none, closed)
handle_frame-ignored_test =
    handle_frame-ignored true closed late late_valid (omega arith) closed_table.1

handle_frame-delivered_test : handle_frame true opened late ≡ handle_relay opened 1 late
handle_frame-delivered_test =
    handle_frame-delivered true opened late opened-IsSession late_valid (omega arith) opened_table.1

handle_frame-ping_test :
    handle_frame true fresh (ping_frame (1 ∷ 2 ∷ []))
    ≡ (none, record fresh { queue = [] ++ (pong_frame (1 ∷ 2 ∷ []) ∷ []) })
unfolding new_session
handle_frame-ping_test = handle_frame-ping true fresh (1 ∷ 2 ∷ []) refl refl

abbrev sixteen : List ℕ
sixteen = 0 ∷ 0 ∷ 0 ∷ 0 ∷ 0 ∷ 0 ∷ 0 ∷ 0 ∷ 0 ∷ 0 ∷ 0 ∷ 0 ∷ 0 ∷ 0 ∷ 0 ∷ 0 ∷ []

abbrev long_payload : List ℕ
long_payload = 1 ∷ (sixteen ++ (sixteen ++ (sixteen ++ sixteen)))

handle_frame-ping_oversized_example :
    (f : Frame) × (handle_frame true fresh (ping_frame long_payload)
      ≡ (none, record fresh { queue = [] ++ (f ∷ []) }))
    × (validate_client f ≡ err invalid_shape)
unfolding new_session
handle_frame-ping_oversized_example =
    handle_frame-ping_oversized true fresh long_payload refl refl (omega arith)

abbrev https_session : Session
https_session = new_session https_lanes true

established : establish https_lanes none ≡ ok https_session
unfolding establish new_carrier
established = refl

open_stream-https_lanes_example : (e : Error) × ((open_stream true https_session none).0 ≡ err e)
open_stream-https_lanes_example =
    open_stream-https_lanes none https_session https_session true none established here
