-- ===== src/Webproxy/Mux/Opening.antt =====
-- `Open` and `start`: the ways they go, and what they change of the session's table.
use teleparse.Base.{
  ◌++◌, true, false, ℕ, ◌≤◌, ◌<◌, ◌≡◌, refl, ◌⊎◌, Bool, [], ◌∷◌, Option, none, some, arith,
  Bool-cases, Option-cases, inl, inr, ltb,
}
use teleparse.Base.Results.{err, Result-cases}
use teleparse.Webproxy.Frame.{max_stream_id}
use teleparse.Webproxy.Session.{
  put_stream, fail, carrier_closed, session_lost, Session, Error, drop_stream, streams_exhausted,
  has_lanes,
}
use teleparse.Webproxy.Session.Inv.{IsSession}
use teleparse.Webproxy.Session.Moves.{
  Moves, Moves-refl, Moves-trans, Moves-of_table, drop_stream-Moves, fail-Moves,
}
use teleparse.Webproxy.Stream.{send}
use teleparse.Webproxy.Stream.Moves.{table-send}
use teleparse.Webproxy.Mux.{start, open_frame, open_allocated, allocate, open_stream}

pub allocate-Moves : (s : Session) → IsSession s → s.next_id ≤ max_stream_id → Moves s (allocate s)
unfolding allocate
allocate-Moves s v room = record {
  valid = record {
    next_pos = omega arith;
    next_fits = omega arith;
    live_old = λ i h. ground (arith, v.live_old i, v.next_pos);
    live_distinct = (ground (arith, v.live_old s.next_id), v.live_distinct);
    retired_old = λ i h. ground (arith, v.retired_old i);
    retired_order = v.retired_order;
    retired_distinct = v.retired_distinct;
    retired_few = v.retired_few;
    apart = λ i h. ground (arith, v.apart i, v.retired_old i);
    ended = v.ended;
  };
  grows = omega arith;
  dead = λ i h g. ground (arith, g);
  kept = λ e h. h;
  same_kind = (refl, refl);
}

abbrev pub with_lane : Session → ℕ → Session
with_lane s id = put_stream s id (record (s.objects id) { lane = some [] })

-- The four ways that `start` goes.
pub start_cases :
    (s : Session) (id : ℕ) (dial : Option Error)
    → ((has_lanes s.mode ≡ false) × (start s id dial ≡ (none, s)))
      ⊎ (((has_lanes s.mode ≡ true)
            × (s.lane_dial ≡ false)
            × (start s id dial ≡ (some (carrier_closed ∷ []), s)))
          ⊎ (((has_lanes s.mode ≡ true)
                × (s.lane_dial ≡ true)
                × ((e : Error) × (start s id dial ≡ (some e, fail s e))))
              ⊎ ((has_lanes s.mode ≡ true)
                  × (s.lane_dial ≡ true)
                  × (start s id dial ≡ (none, with_lane s id)))))
unfolding start
start_cases s id dial = elim (Bool-cases (has_lanes s.mode)) [
  | inr h ↦ inl (h, ground (arith, h))
  | inl h ↦ elim (Bool-cases s.lane_dial) [
    | inr k ↦ inr (inl (h, k, ground (arith, h, k)))
    | inl k ↦ elim (Option-cases dial) [
      | inl e ↦ inr (inr (inr (h, k, ground (arith, h, k, e))))
      | inr (x, e) ↦ inr (inr (inl (h, k, (x ++ (session_lost ∷ []), ground (arith, h, k, e)))))
    ]
  ]
]

start-Moves :
    (s : Session) (id : ℕ) (dial : Option Error) → IsSession s → Moves s (start s id dial).1
start-Moves s id dial v = elim (start_cases s id dial) [
  | inl (_, q) ↦ rw q (Moves-refl s v)
  | inr (inl (_, _, q)) ↦ rw q (Moves-refl s v)
  | inr (inr (inl (_, _, (e, q)))) ↦ rw q (fail-Moves s e v)
  | inr (inr (inr (_, _, q))) ↦ rw q (Moves-of_table s _ v refl)
]

drop_then : (s t : Session) (id : ℕ) → Moves s t → id < s.next_id → Moves s (drop_stream t id)
drop_then s t id m old =
    Moves-trans s t _ m (drop_stream-Moves t id m.valid (omega (arith, m.grows)))

pub open_allocated-Moves :
    (pick : Bool) (s : Session) (id : ℕ) (dial : Option Error)
    → IsSession s
    → id < s.next_id
    → Moves s (open_allocated pick s id dial).1
unfolding open_allocated
open_allocated-Moves pick s id dial v old =
    let t = (start s id dial).1 in
    let m = start-Moves s id dial v in
    elim (Option-cases (start s id dial).0) [
      | inl e ↦ elim (Result-cases (send pick t id (open_frame id))) [
        | inl (u, q) ↦
            rw (e, q, open_allocated)
              (Moves-trans s t u m (Moves-of_table t u m.valid (table-send pick t u id _ q)))
        | inr (x, q) ↦ rw (e, q, open_allocated) (drop_then s t id m old)
      ]
      | inr (x, e) ↦ rw (e, open_allocated) (drop_then s t id m old)
    ]

-- The three ways that `Open` goes.
pub open_stream_cases :
    (pick : Bool) (s : Session) (dial : Option Error)
    → ((e : Error) × (s.lost ≡ some e) × (open_stream pick s dial ≡ (err e, s)))
      ⊎ (((s.lost ≡ none)
            × (max_stream_id < s.next_id)
            × (open_stream pick s dial ≡ (err (streams_exhausted ∷ []), s)))
          ⊎ ((s.lost ≡ none)
              × (s.next_id ≤ max_stream_id)
              × (open_stream pick s dial ≡ open_allocated pick (allocate s) s.next_id dial)))
unfolding open_stream
open_stream_cases pick s dial = elim (Option-cases s.lost) [
  | inr (x, e) ↦ inl (x, e, ground (arith, e))
  | inl e ↦ elim (Bool-cases (ltb max_stream_id s.next_id)) [
    | inl h ↦ inr (inl (e, ground arith, ground (arith, e, h)))
    | inr h ↦ inr (inr (e, ground arith, ground (arith, e, h)))
  ]
]

pub open_stream-Moves :
    (pick : Bool) (s : Session) (dial : Option Error)
    → IsSession s
    → Moves s (open_stream pick s dial).1
open_stream-Moves pick s dial v = elim (open_stream_cases pick s dial) [
  | inl (x, _, q) ↦ rw q (Moves-refl s v)
  | inr (inl (_, _, q)) ↦ rw q (Moves-refl s v)
  | inr (inr (_, room, q)) ↦
      let m = allocate-Moves s v room in
      rw q (
        Moves-trans s (allocate s) _ m (
          open_allocated-Moves pick (allocate s) s.next_id dial m.valid
            (unfold allocate in omega (arith, v.next_fits))))
]
