-- ===== src/Webproxy/Session/Inv.antt =====
-- The table of a session: which stream ids are live, which are retired, and how the session ended.
use teleparse.Base.{
  ℕ, ◌+◌, ◌≤◌, ◌<◌, ◌≡◌, refl, ap, ◌∙◌, Bool, true, false, List, [], ◌∷◌, ◌++◌, Option, none, some,
  arith, length, length-append, ◌==◌, if◌then◌else◌, Bool-cases, inl, inr, ◌⊎◌,
}
use teleparse.Webproxy.Frame.{max_stream_id}
use teleparse.Webproxy.Session.{
  Session, Error, CarrierMode, tombstone_limit, mem, delete, evict, tombstone, drop_stream,
}

-- Laws of the map's keys.
pub mem-delete :
    (i j : ℕ) (xs : List ℕ) → mem i (delete j xs) ≡ (if i == j then false else mem i xs)
mem-delete i j [] = ground arith
mem-delete i j (x ∷ xs) = ground (arith, mem-delete i j xs)

pub mem-snoc :
    (i j : ℕ) (xs : List ℕ) → mem i (xs ++ (j ∷ [])) ≡ (if i == j then true else mem i xs)
mem-snoc i j [] = ground arith
mem-snoc i j (x ∷ xs) = ground (arith, mem-snoc i j xs)

abbrev pub Distinct : List ℕ → Type 0
Distinct [] = Unit
Distinct (x ∷ xs) = (mem x xs ≡ false) × Distinct xs

pub Distinct-snoc :
    (xs : List ℕ) (j : ℕ) → Distinct xs → mem j xs ≡ false → Distinct (xs ++ (j ∷ []))
Distinct-snoc [] j d h = (refl, tt)
Distinct-snoc (x ∷ xs) j d h =
    (ground (arith, mem-snoc x j xs), Distinct-snoc xs j d.1 (ground arith))

pub Distinct-delete : (xs : List ℕ) (j : ℕ) → Distinct xs → Distinct (delete j xs)
Distinct-delete [] j d = tt
Distinct-delete (x ∷ xs) j d = ground (arith, mem-delete x j xs, Distinct-delete xs j d.1)

-- The part of a session that says which ids are used, and whether it is over.
pub record Table : Type 0 where
  pub streams : List ℕ
  pub next_id : ℕ
  pub tombstones : List ℕ
  pub tomb_order : List ℕ
  pub lost : Option Error
  pub stopped : Bool
  pub failed : Bool
  pub mode : CarrierMode
  pub lane_dial : Bool

abbrev pub table : Session → Table
table s = record {
  streams = s.streams;
  next_id = s.next_id;
  tombstones = s.tombstones;
  tomb_order = s.tomb_order;
  lost = s.lost;
  stopped = s.stopped;
  failed = s.failed;
  mode = s.mode;
  lane_dial = s.lane_dial;
}

-- A session runs, or it is over with a cause, or it is stopped and its cause is about to be set.
abbrev pub IsEnded : Table → Type 0
IsEnded t =
    ((t.failed ≡ false) × (t.stopped ≡ false) × (t.lost ≡ none))
    ⊎ (((t.failed ≡ true) × (t.stopped ≡ true) × ((e : Error) × (t.lost ≡ some e)))
        ⊎ ((t.failed ≡ true) × (t.stopped ≡ true) × (t.lost ≡ none)))

-- Live ids are allocated and distinct; retired ids are allocated, distinct, recorded once in the
-- order of their retirement, at most `tombstone_limit` of them, and not live.
pub record IsTable (t : Table) : Type 0 where
  pub next_pos : 0 < t.next_id
  pub next_fits : t.next_id ≤ max_stream_id + 1
  pub live_old : (i : ℕ) → mem i t.streams ≡ true → (0 < i) × (i < t.next_id)
  pub live_distinct : Distinct t.streams
  pub retired_old : (i : ℕ) → mem i t.tombstones ≡ true → i < t.next_id
  pub retired_order : (i : ℕ) → mem i t.tombstones ≡ mem i t.tomb_order
  pub retired_distinct : Distinct t.tomb_order
  pub retired_few : length t.tomb_order ≤ tombstone_limit
  pub apart : (i : ℕ) → mem i t.streams ≡ true → mem i t.tombstones ≡ false
  pub ended : IsEnded t

abbrev pub IsSession : Session → Type 0
IsSession s = IsTable (table s)

-- What the first half of `tombstone` leaves.
record IsRoomy (s t : Session) : Type 0 where
  same_streams : t.streams ≡ s.streams
  same_next : t.next_id ≡ s.next_id
  same_kind : (t.mode ≡ s.mode) × (t.lane_dial ≡ s.lane_dial)
  same_end : (t.failed ≡ s.failed) × (t.stopped ≡ s.stopped) × (t.lost ≡ s.lost)
  order : (i : ℕ) → mem i t.tombstones ≡ mem i t.tomb_order
  older : (i : ℕ) → mem i t.tombstones ≡ true → mem i s.tombstones ≡ true
  distinct : Distinct t.tomb_order
  room : length t.tomb_order < tombstone_limit

evict-IsRoomy :
    (s : Session) (order : List ℕ) → s.tomb_order ≡ order → IsSession s → IsRoomy s (evict s order)
unfolding evict
evict-IsRoomy s [] e v = record {
  same_streams = refl;
  same_next = refl;
  same_kind = (refl, refl);
  same_end = (refl, refl, refl);
  order = v.retired_order;
  older = λ i h. h;
  distinct = v.retired_distinct;
  room = rw e (omega arith);
}
evict-IsRoomy s (x ∷ xs) e v = record {
  same_streams = ground arith;
  same_next = ground arith;
  same_kind = (ground arith, ground arith);
  same_end = (ground arith, ground arith, ground arith);
  order = λ i. ground (arith, here i, mem-delete i x s.tombstones);
  older = λ i. ground (arith, here i, mem-delete i x s.tombstones);
  distinct = ground (arith, whole);
  room = ground (arith, few, ap length e);
}
  where
    here : (i : ℕ) → mem i s.tombstones ≡ (if i == x then true else mem i xs)
    here i = v.retired_order i ∙ rw e

    whole : Distinct (x ∷ xs)
    whole = rw e at v.retired_distinct

    few : length (x ∷ xs) ≤ tombstone_limit
    few = rw e at v.retired_few

abbrev retire : Session → ℕ → Session
retire t id = record t { tombstones = id ∷ t.tombstones; tomb_order = t.tomb_order ++ (id ∷ []) }

tombstone_cases :
    (s : Session) (id : ℕ)
    → ((mem id s.tombstones ≡ true) × (tombstone s id ≡ s))
      ⊎ ((mem id s.tombstones ≡ false) × (tombstone s id ≡ retire (evict s s.tomb_order) id))
unfolding tombstone
tombstone_cases s id = elim (Bool-cases (mem id s.tombstones)) [
  | inl h ↦ inl (h, rw (h, tombstone))
  | inr h ↦ inr (h, rw (h, tombstone))
]

retire-IsSession :
    (s t : Session) (id : ℕ)
    → IsSession s
    → IsRoomy s t
    → id < s.next_id
    → mem id s.streams ≡ false
    → mem id s.tombstones ≡ false
    → IsSession (retire t id)
retire-IsSession s t id v r old gone fresh = record {
  next_pos = rw r.same_next v.next_pos;
  next_fits = rw r.same_next v.next_fits;
  live_old = rw (r.same_streams, r.same_next) v.live_old;
  live_distinct = rw r.same_streams v.live_distinct;
  retired_old = λ i h. rw r.same_next (ground (arith, v.retired_old i, r.older i));
  retired_order = λ i. ground (arith, r.order i, mem-snoc i id t.tomb_order);
  retired_distinct =
      Distinct-snoc t.tomb_order id r.distinct (ground (arith, r.order id, r.older id));
  retired_few = omega (arith, r.room, length-append t.tomb_order (id ∷ []));
  apart = rw r.same_streams (λ i h. ground (arith, v.apart i, r.older i));
  ended = ground (arith, v.ended, r.same_end);
}

tombstone-IsSession :
    (s : Session) (id : ℕ)
    → IsSession s
    → id < s.next_id
    → mem id s.streams ≡ false
    → IsSession (tombstone s id)
tombstone-IsSession s id v old gone = elim (tombstone_cases s id) [
  | inl (h, e) ↦ rw e v
  | inr (h, e) ↦ rw e (retire-IsSession s _ id v (evict-IsRoomy s s.tomb_order refl v) old gone h)
]

forget-IsSession :
    (s : Session) (id : ℕ) → IsSession s → IsSession (record s { streams = delete id s.streams })
forget-IsSession s id v = record {
  next_pos = v.next_pos;
  next_fits = v.next_fits;
  live_old = λ i h. v.live_old i (ground (arith, mem-delete i id s.streams));
  live_distinct = Distinct-delete s.streams id v.live_distinct;
  retired_old = v.retired_old;
  retired_order = v.retired_order;
  retired_distinct = v.retired_distinct;
  retired_few = v.retired_few;
  apart = λ i h. v.apart i (ground (arith, mem-delete i id s.streams));
  ended = v.ended;
}

-- Retiring an allocated id keeps the table well formed.
pub drop_stream-IsSession :
    (s : Session) (id : ℕ) → IsSession s → id < s.next_id → IsSession (drop_stream s id)
unfolding drop_stream
drop_stream-IsSession s id v old =
    tombstone-IsSession _ id (forget-IsSession s id v) old
      (ground (arith, mem-delete id id s.streams))

tombstone_keeps :
    (s : Session) (id : ℕ)
    → IsSession s
    → ((tombstone s id).streams ≡ s.streams)
      × ((tombstone s id).next_id ≡ s.next_id)
      × ((tombstone s id).lost ≡ s.lost)
      × ((tombstone s id).mode ≡ s.mode)
      × ((tombstone s id).lane_dial ≡ s.lane_dial)
tombstone_keeps s id v = elim (tombstone_cases s id) [
  | inl (h, e) ↦ rw e (refl, refl, refl, refl, refl)
  | inr (h, e) ↦
      let r = evict-IsRoomy s s.tomb_order refl v in
      rw e (r.same_streams, r.same_next, r.same_end.2, r.same_kind.0, r.same_kind.1)
]

-- What `dropStream` changes of the rest.
pub drop_stream_keeps :
    (s : Session) (id : ℕ)
    → IsSession s
    → ((drop_stream s id).streams ≡ delete id s.streams)
      × ((drop_stream s id).next_id ≡ s.next_id)
      × ((drop_stream s id).lost ≡ s.lost)
      × ((drop_stream s id).mode ≡ s.mode)
      × ((drop_stream s id).lane_dial ≡ s.lane_dial)
unfolding drop_stream
drop_stream_keeps s id v = tombstone_keeps _ id (forget-IsSession s id v)
