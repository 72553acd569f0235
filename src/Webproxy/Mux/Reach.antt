-- ===== src/Webproxy/Mux/Reach.antt =====
-- A session under any sequence of calls by goroutines and of answers by the network.
use teleparse.Base.{
  ℕ, suc, ◌≤◌, ◌<◌, ◌≡◌, refl, ap, sym, subst, ◌∙◌, Bool, true, false, List, Option, none, some,
  arith, Option-cases, inl, inr, drop, ◌==◌, Bool-cases,
}
use teleparse.Base.Results.{Result, ok, err, Result-cases}
use teleparse.Webproxy.Frame.{Frame, max_stream_id}
use teleparse.Webproxy.Session.{
  Session, Stream, Error, CarrierMode, mem, put_stream, drop_stream, abort, stop, lose, fail,
  new_session,
}
use teleparse.Webproxy.Session.Inv.{IsSession}
use teleparse.Webproxy.Session.Moves.{
  Moves, Moves-refl, Moves-trans, Moves-of_table, fail-Moves, stop-Moves, lose-Moves,
  drop_stream-Moves,
}
use teleparse.Webproxy.Stream.{
  send, or_same, read, write_round, close_stream, set_read_deadline, handle_lane_frame,
}
use teleparse.Webproxy.Stream.Moves.{
  table-read, table-write_round, table-or_same-send, close_stream-Moves, handle_relay-Moves,
}
use teleparse.Webproxy.Mux.{
  start, open_frame, open_allocated, allocate, open_stream, close_session, handle_frame, pump_round,
}
use teleparse.Webproxy.Mux.Opening.{
  open_stream_cases, open_stream-Moves, open_allocated-Moves, allocate-Moves,
}
use teleparse.Webproxy.Mux.Calls.{handle_frame-Moves, pump_round-Moves}

-- What a goroutine or the network does next. Calls happen as a whole, or part by part with anything in
-- between: a section of the session's mutex that allocates a stream, drops one or sets the cause, the
-- stop in front of that, a send, or a section of a stream's own mutexes, which may change that stream
-- in any way. A call on a stream names one that was allocated.
pub data Step (s : Session) : Session → Type 0 where
  allocates : s.lost ≡ none → s.next_id ≤ max_stream_id → Step s (allocate s)
  touches : (id : ℕ) (st : Stream) → Step s (put_stream s id st)
  sends : (pick : Bool) (id : ℕ) (frame : Frame) → Step s (or_same s (send pick s id frame))
  drops : (id : ℕ) → id < s.next_id → Step s (drop_stream s id)
  stops : s.failed ≡ false → Step s (stop s)
  loses : (cause : Error) → s.failed ≡ true → s.lost ≡ none → Step s (lose s cause)
  handles : (pick : Bool) (frame : Frame) → Step s (handle_frame pick s frame).1
  opens : (pick : Bool) (dial : Option Error) → Step s (open_stream pick s dial).1
  pumps :
      (pick : Bool) (batch : Result Error (List ℕ))
      → Step s (pump_round (handle_frame pick) s batch).1
  lane_pumps :
      (id : ℕ) (batch : Result Error (List ℕ))
      → id < s.next_id
      → Step s (pump_round (λ t f. handle_lane_frame t id f) s batch).1
  lane_fails : (id : ℕ) (e : Error) → Step s (put_stream s id (abort (s.objects id) e))
  reads : (pick : Bool) (now id room : ℕ) → id < s.next_id → Step s (read pick now s id room).1
  writes :
      (pick : Bool) (id : ℕ) (bytes : List ℕ)
      → id < s.next_id
      → Step s (write_round pick s id bytes).1
  closes : (pick : Bool) (id : ℕ) → id < s.next_id → Step s (close_stream pick s id).1
  deadlines : (id : ℕ) (time : Option ℕ) → Step s (set_read_deadline s id time)
  drains : (n : ℕ) → Step s (record s { queue = drop n s.queue })
  ends : Step s (close_session s)

pub data Reach (s : Session) : Session → Type 0 where
  here : Reach s s
  next : {t u : Session} → Reach s t → Step t u → Reach s u

handle_lane_frame-Moves :
    (s : Session) (id : ℕ) (f : Frame)
    → IsSession s
    → id < s.next_id
    → Moves s (handle_lane_frame s id f).1
unfolding handle_lane_frame
handle_lane_frame-Moves s id f v old = elim (Bool-cases (f.stream_id == id)) [
  | inl h ↦ simp (h, handle_lane_frame) (handle_relay-Moves s id f v old)
  | inr h ↦ simp (h, handle_lane_frame) (Moves-refl s v)
]

Step-Moves : {s t : Session} → Step s t → IsSession s → Moves s t
Step-Moves {s} (allocates no_cause room) v = allocate-Moves s v room
Step-Moves {s} (touches id st) v = Moves-of_table s _ v refl
Step-Moves {s} (sends pick id frame) v = Moves-of_table s _ v (table-or_same-send pick s id frame)
Step-Moves {s} (drops id old) v = drop_stream-Moves s id v old
Step-Moves {s} (stops running) v = stop-Moves s v running
Step-Moves {s} (loses cause over no_cause) v = lose-Moves s cause v over no_cause
Step-Moves {s} (handles pick frame) v = handle_frame-Moves pick s frame v
Step-Moves {s} (opens pick dial) v = open_stream-Moves pick s dial v
Step-Moves {s} (pumps pick batch) v =
    pump_round-Moves (handle_frame pick) 0 (λ t f w _. handle_frame-Moves pick t f w) s batch v
      (omega arith)
Step-Moves {s} (lane_pumps id batch old) v =
    pump_round-Moves (λ t f. handle_lane_frame t id f) (suc id)
      (λ t f w h. handle_lane_frame-Moves t id f w h) s batch v old
Step-Moves {s} (lane_fails id e) v = Moves-of_table s _ v refl
Step-Moves {s} (reads pick now id room old) v = Moves-of_table s _ v (table-read pick now s id room)
Step-Moves {s} (writes pick id bytes old) v =
    Moves-of_table s _ v (table-write_round pick s id bytes)
Step-Moves {s} (closes pick id old) v = close_stream-Moves pick s id v old
Step-Moves {s} (deadlines id time) v = Moves-of_table s _ v (unfold set_read_deadline in refl)
Step-Moves {s} (drains n) v = Moves-of_table s _ v refl
Step-Moves {s} ends v = unfold close_session in fail-Moves s _ v

pub Reach-Moves : {s t : Session} → Reach s t → IsSession s → Moves s t
Reach-Moves {s} here v = Moves-refl s v
Reach-Moves {s} (next {t} {u} r st) v =
    let m = Reach-Moves r v in Moves-trans s t u m (Step-Moves st m.valid)

pub new_session-IsSession :
    (mode : CarrierMode) (carrier : Bool) → IsSession (new_session mode carrier)
unfolding new_session
new_session-IsSession mode carrier = record {
  next_pos = omega arith;
  next_fits = omega arith;
  live_old = λ i h. cc;
  live_distinct = tt;
  retired_old = λ i h. cc;
  retired_order = λ i. refl;
  retired_distinct = tt;
  retired_few = omega arith;
  apart = λ i h. refl;
  ended = inl (refl, refl, refl);
}

-- Whatever calls, parts of calls and answers of the network come to a new session, in any order, its
-- stream table stays well formed: live ids are allocated and distinct, retired ids are allocated,
-- recorded once, at most 4096 and never live, and the session either runs, or is over with a cause, or
-- is stopped and waits for the cause to be set.
pub Reach-IsSession :
    (mode : CarrierMode) (carrier : Bool) {t : Session}
    → Reach (new_session mode carrier) t
    → IsSession t
Reach-IsSession mode carrier r = (Reach-Moves r (new_session-IsSession mode carrier)).valid

open_allocated-ok :
    (pick : Bool) (s : Session) (id : ℕ) (dial : Option Error) (i : ℕ) (t : Session)
    → open_allocated pick s id dial ≡ (ok i, t)
    → i ≡ id
unfolding open_allocated
open_allocated-ok pick s id dial i t e = elim (Option-cases (start s id dial).0) [
  | inr (x, q) ↦ ground (arith, e, q)
  | inl q ↦ elim (Result-cases (send pick (start s id dial).1 id (open_frame id))) [
    | inl (u, r) ↦ ground (arith, e, q, r)
    | inr (x, r) ↦ ground (arith, e, q, r)
  ]
]

-- The id of an opened stream is the next one, and is then used up.
pub open_stream-ok :
    (pick : Bool) (s : Session) (dial : Option Error) (i : ℕ) (t : Session)
    → IsSession s
    → open_stream pick s dial ≡ (ok i, t)
    → (i ≡ s.next_id) × (i ≤ max_stream_id) × (i < t.next_id)
open_stream-ok pick s dial i t v e = elim (open_stream_cases pick s dial) [
  | inl (x, _, q) ↦ cc
  | inr (inl (_, _, q)) ↦ cc
  | inr (inr (_, room, q)) ↦
      let m = allocate-Moves s v room in
      let grown : s.next_id < (allocate s).next_id =
        unfold allocate in omega (arith, v.next_fits) in
      let after = open_allocated-Moves pick (allocate s) s.next_id dial m.valid grown in
      let same = open_allocated-ok pick (allocate s) s.next_id dial i t (sym q ∙ e) in
      let end : (open_allocated pick (allocate s) s.next_id dial).1 ≡ t =
        ap (λ (p : Result Error ℕ × Session). p.1) (sym q ∙ e) in
      (
        same,
        omega (arith, same),
        omega (arith, same, after.grows, ap (λ (u : Session). u.next_id) end),
      )
]

-- No id of a well-formed session is given out twice: whatever happens between two successful calls
-- of `Open`, the second stream's id is greater than the first's, and both lie from 1 to 0xFFFFFF.
pub open_stream-fresh :
    (pick : Bool) (dial : Option Error) (i : ℕ) (s t : Session) (pick' : Bool)
    (dial' : Option Error) (j : ℕ) (u w : Session)
    → IsSession s
    → open_stream pick s dial ≡ (ok i, t)
    → Reach t u
    → open_stream pick' u dial' ≡ (ok j, w)
    → (0 < i) × (i < j) × (j ≤ max_stream_id)
open_stream-fresh pick dial i s t pick' dial' j u w v e r e' =
    let opened : Moves s t =
      subst (λ (p : Result Error ℕ × Session). Moves s p.1) e (open_stream-Moves pick s dial v) in
    let m = Reach-Moves r opened.valid in
    let first = open_stream-ok pick s dial i t v e in
    let second = open_stream-ok pick' u dial' j w m.valid e' in
    (omega (arith, first, v.next_pos), omega (arith, first, second, m.grows), second.1)

-- A stream that is closed stays closed: in a well-formed session, once an allocated id is not live,
-- no sequence of calls and answers makes it live again.
pub retired_stays :
    (s t : Session) (i : ℕ)
    → IsSession s
    → Reach s t
    → i < s.next_id
    → mem i s.streams ≡ false
    → mem i t.streams ≡ false
retired_stays s t i v r h g = (Reach-Moves r v).dead i h g

open_stream-lost :
    (pick : Bool) (s : Session) (dial : Option Error) (e : Error)
    → s.lost ≡ some e
    → open_stream pick s dial ≡ (err e, s)
unfolding open_stream
open_stream-lost pick s dial e h = ground (arith, h)

-- The end of a session is final: after `fail` on a running, well-formed session, whatever comes later, other
-- failures and `Close` included, `Open` answers with the first cause and changes nothing.
pub open_stream-fail :
    (s t : Session) (cause : Error) (pick : Bool) (dial : Option Error)
    → IsSession s
    → s.failed ≡ false
    → Reach (fail s cause) t
    → open_stream pick t dial ≡ (err cause, t)
open_stream-fail s t cause pick dial v running r =
    let f = fail-Moves s cause v in
    let lost : (fail s cause).lost ≡ some cause = unfold fail in ground (arith, running) in
    open_stream-lost pick t dial cause ((Reach-Moves r f.valid).kept cause lost)
