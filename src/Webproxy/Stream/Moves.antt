-- ===== src/Webproxy/Stream/Moves.antt =====
-- What the methods of a stream change of its session's table.
use teleparse.Base.{
  ℕ, ◌<◌, ◌≡◌, refl, ap, ◌⊎◌, ◌==◌, Bool, List, none, arith, Bool-cases, inl, inr, length, drop,
  take, min, true, false, if◌then◌else◌, Option-cases,
}
use teleparse.Base.Results.{ok, Result-cases}
use teleparse.Webproxy.Frame.{Frame, type_data, type_window, type_close, window_amount}
use teleparse.Webproxy.Window.{Reservation, invalid, failed, got, waits}
use teleparse.Webproxy.Session.{Session, Stream, Error, drop_stream, put_stream, enqueue_global}
use teleparse.Webproxy.Session.Inv.{IsSession, Table, table}
use teleparse.Webproxy.Session.Moves.{
  Moves, Moves-refl, Moves-trans, Moves-of_table, after_table, drop_stream-Moves,
}
use teleparse.Webproxy.Stream.{
  send, or_same, write_gate, data_frame, credit_back, read, write_reserved, write_round,
  close_stream, relay_data, relay_window, relay_close, handle_relay,
}

handle_relay_cases :
    (s : Session) (id : ℕ) (f : Frame)
    → (handle_relay s id f ≡ (none, relay_data s id f.payload))
      ⊎ ((handle_relay s id f ≡ relay_window s id f.payload)
          ⊎ ((handle_relay s id f ≡ (none, relay_close s id)) ⊎ (handle_relay s id f ≡ (none, s))))
unfolding handle_relay
handle_relay_cases s id f = elim (Bool-cases (f.typ == type_data)) [
  | inl h ↦ inl (rw (h, handle_relay))
  | inr h ↦ elim (Bool-cases (f.typ == type_window)) [
    | inl k ↦ inr (inl (rw (h, k, handle_relay)))
    | inr k ↦ elim (Bool-cases (f.typ == type_close)) [
      | inl l ↦ inr (inr (inl (rw (h, k, l, handle_relay))))
      | inr l ↦ inr (inr (inr (rw (h, k, l, handle_relay))))
    ]
  ]
]

pub table-enqueue_global :
    (pick : Bool) (s s' : Session) (f : Frame)
    → enqueue_global pick s f ≡ ok s'
    → table s' ≡ table s
unfolding enqueue_global
table-enqueue_global pick s s' f e = ground arith

pub table-send :
    (pick : Bool) (s s' : Session) (id : ℕ) (f : Frame)
    → send pick s id f ≡ ok s'
    → table s' ≡ table s
unfolding send enqueue_global
table-send pick s s' id f e = ground arith

pub table-or_same-send :
    (pick : Bool) (s : Session) (id : ℕ) (f : Frame)
    → table (or_same s (send pick s id f)) ≡ table s
table-or_same-send pick s id f = elim (Result-cases (send pick s id f)) [
  | inl (s', e) ↦ rw e (table-send pick s s' id f e)
  | inr (x, e) ↦ rw e
]

table-if :
    (b : Bool) (s t u : Session)
    → table t ≡ table s
    → table u ≡ table s
    → table (if b then t else u) ≡ table s
table-if true s t u e f = e
table-if false s t u e f = f

table-credit_back :
    (pick : Bool) (s : Session) (id size : ℕ) → table (credit_back pick s id size) ≡ table s
unfolding credit_back
table-credit_back pick s id size = table-if _ s _ _ (table-or_same-send pick _ id _) refl

pub table-read :
    (pick : Bool) (now : ℕ) (s : Session) (id room : ℕ)
    → table (read pick now s id room).1 ≡ table s
unfolding read
table-read pick now s id room = ground (arith, table-credit_back pick after id size)
  where
    size : ℕ
    size = min room (length (s.objects id).buf)

    after : Session
    after = put_stream s id (record (s.objects id) { buf = drop size (s.objects id).buf })

table-write_reserved :
    (pick : Bool) (s : Session) (id : ℕ) (bytes : List ℕ) (r : Reservation Error)
    → table (write_reserved pick s id bytes r).1 ≡ table s
unfolding write_reserved
table-write_reserved pick s id bytes invalid = refl
table-write_reserved pick s id bytes (failed e) = refl
table-write_reserved pick s id bytes waits = refl
table-write_reserved pick s id bytes (got n) =
    elim (Result-cases (send pick s id (data_frame id (take n bytes)))) [
      | inl (s', e) ↦ rw (e, write_reserved) (table-send pick s s' id _ e)
      | inr (x, e) ↦ rw (e, write_reserved)
    ]

pub table-write_round :
    (pick : Bool) (s : Session) (id : ℕ) (bytes : List ℕ)
    → table (write_round pick s id bytes).1 ≡ table s
unfolding write_round
table-write_round pick s id bytes = elim (Option-cases (write_gate (s.objects id))) [
  | inl e ↦ rw (e, write_round) (table-write_reserved pick _ id bytes _)
  | inr (x, e) ↦ rw (e, write_round)
]

drop_after :
    (s t : Session) (id : ℕ) (st : Stream)
    → IsSession s
    → id < s.next_id
    → table t ≡ table s
    → Moves s (put_stream (drop_stream t id) id st)
drop_after s t id st v old e = after_table s t _ v e λ w.
    let m = drop_stream-Moves t id w (omega (arith, ap (λ (x : Table). x.next_id) e)) in
    Moves-trans t (drop_stream t id) _ m (Moves-of_table _ _ m.valid refl)

pub close_stream-Moves :
    (pick : Bool) (s : Session) (id : ℕ)
    → IsSession s
    → id < s.next_id
    → Moves s (close_stream pick s id).1
unfolding close_stream
close_stream-Moves pick s id v old = elim (Bool-cases (s.objects id).closed) [
  | inl h ↦ rw (h, close_stream) (Moves-refl s v)
  | inr h ↦ rw (h, close_stream) (drop_after s _ id _ v old (table-or_same-send pick _ id _))
]

pub relay_close-Moves :
    (s : Session) (id : ℕ) → IsSession s → id < s.next_id → Moves s (relay_close s id)
unfolding relay_close
relay_close-Moves s id v old = drop_after s _ id _ v old refl

table-relay_window :
    (s : Session) (id : ℕ) (payload : List ℕ) → table (relay_window s id payload).1 ≡ table s
unfolding relay_window
table-relay_window s id payload = elim (Result-cases (window_amount payload)) [
  | inl (n, e) ↦ rw (e, relay_window)
  | inr (x, e) ↦ rw (e, relay_window)
]

pub handle_relay-Moves :
    (s : Session) (id : ℕ) (f : Frame)
    → IsSession s
    → id < s.next_id
    → Moves s (handle_relay s id f).1
handle_relay-Moves s id f v old = elim (handle_relay_cases s id f) [
  | inl e ↦ rw e (Moves-of_table s _ v (unfold relay_data in refl))
  | inr (inl e) ↦ rw e (Moves-of_table s _ v (table-relay_window s id f.payload))
  | inr (inr (inl e)) ↦ rw e (relay_close-Moves s id v old)
  | inr (inr (inr e)) ↦ rw e (Moves-refl s v)
]
