-- ===== src/Webproxy/Session/Moves.antt =====
-- How a session's table changes over its life: by streams that open and retire, and by its end.
use teleparse.Base.{
  ℕ, ◌≤◌, ◌<◌, ◌≡◌, refl, ap, sym, subst, ◌∙◌, true, false, none, some, arith, Bool-cases, inl, inr,
  ◌⊎◌,
}
use teleparse.Webproxy.Session.{Session, Error, mem, drop_stream, stop, lose, fail, abort_all}
use teleparse.Webproxy.Session.Inv.{
  Table, IsTable, IsSession, IsEnded, table, mem-delete, drop_stream-IsSession, drop_stream_keeps,
}

abbrev over : Session → Error → Session
over s cause = record s {
  failed = true;
  stopped = true;
  lost = some cause;
  objects = abort_all s.objects s.streams cause;
}

pub fail_cases :
    (s : Session) (e : Error)
    → ((s.failed ≡ true) × (fail s e ≡ s)) ⊎ ((s.failed ≡ false) × (fail s e ≡ over s e))
unfolding fail
fail_cases s e = elim (Bool-cases s.failed) [
  | inl h ↦ inl (h, ground (arith, h))
  | inr h ↦ inr (h, ground (arith, h))
]

over-IsSession : (s : Session) (e : Error) → IsSession s → IsSession (over s e)
over-IsSession s e v = record {
  next_pos = v.next_pos;
  next_fits = v.next_fits;
  live_old = v.live_old;
  live_distinct = v.live_distinct;
  retired_old = v.retired_old;
  retired_order = v.retired_order;
  retired_distinct = v.retired_distinct;
  retired_few = v.retired_few;
  apart = v.apart;
  ended = inr (inl (refl, refl, (e, refl)));
}

-- What a change of the session may do to it, besides keeping its table well formed: ids are not
-- given back, an id that is allocated and not live stays so, the first cause of an end stays, and so
-- does the kind of the session.
pub record Moves (s t : Session) : Type 0 where
  pub valid : IsSession t
  pub grows : s.next_id ≤ t.next_id
  pub dead : (i : ℕ) → i < s.next_id → mem i s.streams ≡ false → mem i t.streams ≡ false
  pub kept : (e : Error) → s.lost ≡ some e → t.lost ≡ some e
  pub same_kind : (t.mode ≡ s.mode) × (t.lane_dial ≡ s.lane_dial)

pub Moves-refl : (s : Session) → IsSession s → Moves s s
Moves-refl s v = record {
  valid = v;
  grows = omega arith;
  dead = λ i h g. g;
  kept = λ e h. h;
  same_kind = (refl, refl);
}

pub Moves-trans : (s t u : Session) → Moves s t → Moves t u → Moves s u
Moves-trans s t u a b = record {
  valid = b.valid;
  grows = omega (arith, a.grows, b.grows);
  dead = λ i h g. b.dead i (omega (arith, a.grows)) (a.dead i h g);
  kept = λ e h. b.kept e (a.kept e h);
  same_kind = (b.same_kind.0 ∙ a.same_kind.0, b.same_kind.1 ∙ a.same_kind.1);
}

-- A change of streams and queues alone.
pub Moves-of_table : (s t : Session) → IsSession s → table t ≡ table s → Moves s t
Moves-of_table s t v e = record {
  valid = subst IsTable (sym e) v;
  grows = omega (arith, ap (λ (x : Table). x.next_id) e);
  dead = λ i h g. ap (λ (x : Table). mem i x.streams) e ∙ g;
  kept = λ c h. ap (λ (x : Table). x.lost) e ∙ h;
  same_kind = (ap (λ (x : Table). x.mode) e, ap (λ (x : Table). x.lane_dial) e);
}

absurd_end :
    (s : Session) (e c : Error)
    → s.failed ≡ false
    → IsEnded (table s)
    → s.lost ≡ some c
    → some e ≡ some c
absurd_end s e c h v l = ground arith

pub fail-Moves : (s : Session) (e : Error) → IsSession s → Moves s (fail s e)
fail-Moves s e v = elim (fail_cases s e) [
  | inl (h, q) ↦ rw q (Moves-refl s v)
  | inr (h, q) ↦ rw q (record {
    valid = over-IsSession s e v;
    grows = omega arith;
    dead = λ i _ g. g;
    kept = λ c l. absurd_end s e c h v.ended l;
    same_kind = (refl, refl);
  })
]

-- The two parts of an end that change the table.
pub stop-Moves : (s : Session) → IsSession s → s.failed ≡ false → Moves s (stop s)
stop-Moves s v running = record {
  valid = record {
    next_pos = v.next_pos;
    next_fits = v.next_fits;
    live_old = v.live_old;
    live_distinct = v.live_distinct;
    retired_old = v.retired_old;
    retired_order = v.retired_order;
    retired_distinct = v.retired_distinct;
    retired_few = v.retired_few;
    apart = v.apart;
    ended = inr (inr (refl, refl, ground (arith, v.ended, running)));
  };
  grows = omega arith;
  dead = λ i _ g. g;
  kept = λ e h. h;
  same_kind = (refl, refl);
}

pub lose-Moves :
    (s : Session) (cause : Error)
    → IsSession s
    → s.failed ≡ true
    → s.lost ≡ none
    → Moves s (lose s cause)
lose-Moves s cause v over no_cause = record {
  valid = record {
    next_pos = v.next_pos;
    next_fits = v.next_fits;
    live_old = v.live_old;
    live_distinct = v.live_distinct;
    retired_old = v.retired_old;
    retired_order = v.retired_order;
    retired_distinct = v.retired_distinct;
    retired_few = v.retired_few;
    apart = v.apart;
    ended = inr (inl (over, ground (arith, v.ended, over), (cause, refl)));
  };
  grows = omega arith;
  dead = λ i _ g. g;
  kept = λ e h. (let clash = h in cc);
  same_kind = (refl, refl);
}

pub drop_stream-Moves :
    (s : Session) (id : ℕ) → IsSession s → id < s.next_id → Moves s (drop_stream s id)
drop_stream-Moves s id v old =
    let (streams, next, end, kind, dials) = drop_stream_keeps s id v in
    record {
      valid = drop_stream-IsSession s id v old;
      grows = omega (arith, next);
      dead = λ i _ g. rw streams (ground (arith, mem-delete i id s.streams));
      kept = λ e h. end ∙ h;
      same_kind = (kind, dials);
    }

-- A change of streams and queues, and then another.
pub after_table :
    (s t u : Session) → IsSession s → table t ≡ table s → (IsSession t → Moves t u) → Moves s u
after_table s t u v e next =
    let first = Moves-of_table s t v e in Moves-trans s t u first (next first.valid)
