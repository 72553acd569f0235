-- ===== src/Webproxy/Mux/Calls.antt =====
-- The relay's frames and the pump: what they change of the session's table.
use teleparse.Base.{ℕ, ◌≤◌, Bool, List, [], ◌∷◌, Option, arith, Option-cases, inl, inr}
use teleparse.Base.Results.{Result, ok, err, Result-cases}
use teleparse.Webproxy.Frame.{Frame}
use teleparse.Webproxy.Frame.Batch.{decode_all-total}
use teleparse.Webproxy.Session.{Session, Error, enqueue_global}
use teleparse.Webproxy.Session.Inv.{IsSession}
use teleparse.Webproxy.Session.Moves.{Moves, Moves-refl, Moves-trans, Moves-of_table, fail-Moves}
use teleparse.Webproxy.Stream.Moves.{table-enqueue_global, handle_relay-Moves}
use teleparse.Webproxy.Mux.Relay.{Handled, answers, pongs, relays, handle_frame-Handled}
use teleparse.Webproxy.Mux.{sent_pong, handle_frame, pump_frames, pump_round}

sent_pong-Moves :
    (s : Session) (pick : Bool) (f : Frame)
    → IsSession s
    → Moves s (sent_pong s (enqueue_global pick s f)).1
sent_pong-Moves s pick f v = elim (Result-cases (enqueue_global pick s f)) [
  | inl (t, e) ↦ rw e (Moves-of_table s t v (table-enqueue_global pick s t f e))
  | inr (x, e) ↦ rw e (Moves-refl s v)
]

Handled-Moves :
    (pick : Bool) (s : Session) (f : Frame) (r : Option Error × Session)
    → IsSession s
    → Handled pick s f r
    → Moves s r.1
Handled-Moves pick s f r v (answers o e) = rw e (Moves-refl s v)
Handled-Moves pick s f r v (pongs e) = rw e (sent_pong-Moves s pick _ v)
Handled-Moves pick s f r v (relays m e) =
    rw e (handle_relay-Moves s f.stream_id f v (v.live_old f.stream_id m).1)

pub handle_frame-Moves :
    (pick : Bool) (s : Session) (f : Frame) → IsSession s → Moves s (handle_frame pick s f).1
handle_frame-Moves pick s f v = Handled-Moves pick s f _ v (handle_frame-Handled pick s f)

-- The pump moves the session as its handler does. `first` is the least next id that the handler wants.
module _ (handle : Session → Frame → Option Error × Session) (first : ℕ)
    (moves : (s : Session) (f : Frame)
      → IsSession s
      → first ≤ s.next_id
      → Moves s (handle s f).1) where
  pump_frames-Moves :
      (frames : List Frame) (s : Session)
      → IsSession s
      → first ≤ s.next_id
      → Moves s (pump_frames handle s frames).1
  unfolding pump_frames
  pump_frames-Moves [] s v h = Moves-refl s v
  pump_frames-Moves (f ∷ frames) s v h =
      let m = moves s f v h in
      let t = (handle s f).1 in
      elim (Option-cases (handle s f).0) [
        | inl e ↦
            simp (e, pump_frames)
              (Moves-trans s t _ m (pump_frames-Moves frames t m.valid (omega (arith, m.grows))))
        | inr (x, e) ↦ simp (e, pump_frames) (Moves-trans s t _ m (fail-Moves t _ m.valid))
      ]

  pub pump_round-Moves :
      (s : Session) (batch : Result Error (List ℕ))
      → IsSession s
      → first ≤ s.next_id
      → Moves s (pump_round handle s batch).1
  unfolding pump_round
  pump_round-Moves s (err e) v h = fail-Moves s _ v
  pump_round-Moves s (ok bytes) v h =
      let (answer, e) = decode_all-total bytes in
      elim (Result-cases answer) [
        | inl (frames, q) ↦ simp (e, q, pump_round) (pump_frames-Moves frames s v h)
        | inr (x, q) ↦ simp (e, q, pump_round) (fail-Moves s _ v)
      ]
