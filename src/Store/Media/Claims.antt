-- ===== src/Store/Media/Claims.antt =====
-- Who owns a row: a claimed row is out of reach of every other claim until it is given back.
use mathlib.Core.List.{Memᴰ}
use mathlib.Core.List.Memᴰ.{head, tail}
use teleparse.Base.{
  Bool, true, false, ◌||◌, Option, none, some, List, [], ◌∷◌, map, ◌≡◌, refl, sym, ap, subst, ℕ, ℤ,
  String, same, same_iff, All-imp, arith, inl, inr, Bool-cases, Option-cases, All, All-take,
}
use teleparse.Base.Results.{Result, ok, err, Result-cases}
use teleparse.Store.Table.{update_where, select_where, order_by, All-select_where, All-order_by}
use teleparse.Store.Media.{
  MediaItem, at_key, keyed_as, has_status, status_downloading, status_done, claimable, pending_rows,
  claim_rows, claim_body, with_tx, claim_pending, Faults, status_queued, status_failed, by_message,
  set_claimed,
}
use teleparse.Store.Media.Steps.{Op, run, claim_rows_keeps}
use teleparse.Store.Media.Ownership.{busy, Owned, Spares, Owned-claim, run-Owned}

-- The item as `ClaimPending` returns it.
abbrev as_claimed : MediaItem → MediaItem
as_claimed r = record r { status = status_downloading }

-- What a successful loop of claims returns: its items, now downloading.
claim_rows_items :
    {E : Type 0} (fails : MediaItem → Option E) (now : String) (rows items : List MediaItem)
    (out : List MediaItem × List MediaItem)
    → claim_rows fails now rows items ≡ ok out
    → out.1 ≡ map as_claimed items
unfolding claim_rows
claim_rows_items fails now rows [] out e = cc
claim_rows_items fails now rows (item ∷ items) out e =
    let next = update_where (keyed_as item) (set_claimed now) rows in
    elim (Option-cases (fails item)) [
      | inr (x, f) ↦ let shown = simp (f, claim_rows) at e in cc
      | inl f ↦ elim (Result-cases (claim_rows fails now next items)) [
        | inr (x, g) ↦ let shown = simp (f, g, claim_rows) at e in cc
        | inl (deeper, g) ↦
            let shown = simp (f, g, claim_rows) at e in
            let ih = claim_rows_items fails now next items deeper g in cc
      ]
    ]

first_claim-Owned :
    (now : String) (item : MediaItem) (rows : List MediaItem)
    → Owned item (update_where (keyed_as item) (set_claimed now) rows)
unfolding update_where set_claimed has_status keyed_as at_key
first_claim-Owned now item [] = tt
first_claim-Owned now item (r ∷ rows) = elim (Bool-cases (keyed_as item r)) [
  | inl e ↦ simp (e) ((λ h. refl), first_claim-Owned now item rows)
  | inr e ↦ simp (e) ((λ h. cc), first_claim-Owned now item rows)
]

claimed-Owned :
    {E : Type 0} (fails : MediaItem → Option E) (now : String) (rows items : List MediaItem)
    (out : List MediaItem × List MediaItem) (a : MediaItem)
    → claim_rows fails now rows items ≡ ok out
    → Memᴰ a out.1
    → Owned a out.0
unfolding claim_rows keyed_as
claimed-Owned fails now rows [] out a e m =
    let none_left : out.1 ≡ [] = cc in elim (subst (Memᴰ a) none_left m) [ ]
claimed-Owned fails now rows (item ∷ items) out a e m =
    let next = update_where (keyed_as item) (set_claimed now) rows in
    elim (Option-cases (fails item)) [
      | inr (x, f) ↦ let shown = simp (f, claim_rows) at e in cc
      | inl f ↦ elim (Result-cases (claim_rows fails now next items)) [
        | inr (x, g) ↦ let shown = simp (f, g, claim_rows) at e in cc
        | inl (deeper, g) ↦
            let shown = simp (f, g, claim_rows) at e in
            let table : deeper.0 ≡ out.0 = cc in
            let rest : out.1 ≡ as_claimed item ∷ deeper.1 = cc in
            subst (Owned a) table (elim (subst (Memᴰ a) rest m) [
              | head here ↦
                  claim_rows_keeps (Owned a) (Owned-claim a) fails now next items deeper g
                    (subst (λ b. Owned b next) (sym here) (first_claim-Owned now item rows))
              | tail later ↦ claimed-Owned fails now next items deeper a g later
            ])
      ]
    ]

abbrev idle : String → Bool
idle s = same s status_downloading || same s status_done

idle_of : (s t : String) → same s t ≡ true → idle t ≡ false → idle s ≡ false
idle_of s t same_as off = subst (λ x. idle x ≡ false) (sym ((same_iff s t).0 same_as)) off

-- Nothing that is claimable is being downloaded or done.
claimable-busy : (chat : ℤ) (n : ℕ) (r : MediaItem) → claimable chat n r ≡ true → busy r ≡ false
unfolding claimable has_status
claimable-busy chat n r e = elim (Bool-cases (same r.status status_queued)) [
  | inl q ↦ idle_of r.status status_queued q refl
  | inr q ↦ idle_of r.status status_failed (ground arith) refl
]

All-map_claimed :
    (c m i : ℤ) (items : List MediaItem)
    → All (λ b. at_key c m i b ≡ false) items
    → All (λ b. at_key c m i b ≡ false) (map as_claimed items)
unfolding at_key
All-map_claimed c m i [] h = tt
All-map_claimed c m i (b ∷ items) h = (h.0, All-map_claimed c m i items h.1)

others_only :
    (c m i : ℤ) (rows : List MediaItem) (chat : ℤ) (limit n : ℕ)
    → All (λ r. at_key c m i r ≡ true → claimable chat n r ≡ false) rows
    → All (λ b. at_key c m i b ≡ false) (pending_rows rows chat limit n)
unfolding pending_rows
others_only c m i rows chat limit n h =
    let found = select_where (claimable chat n) rows in
    let P = λ (b : MediaItem). at_key c m i b ≡ false in
    let Q = λ (r : MediaItem). at_key c m i r ≡ true → claimable chat n r ≡ false in
    All-take P limit (order_by by_message found) (
      All-order_by P by_message found (
        All-imp (λ r. (claimable chat n r ≡ true) × Q r) P found
          (λ r (c', b). elim (Bool-cases (at_key c m i r)) [
            | inl e ↦ let wrong = b e in cc
            | inr e ↦ e
          ])
          (All-select_where Q (claimable chat n) rows h)))

-- The parts of a transaction that succeeded.
with_tx_ok :
    {E A : Type 0} (begin commit : Option E) (body : List MediaItem → Result E (List MediaItem × A))
    (rows : List MediaItem) (a : A)
    → (with_tx begin commit body rows).1 ≡ ok a
    → body rows ≡ ok ((with_tx begin commit body rows).0, a)
unfolding with_tx
with_tx_ok (some e) commit body rows a h = cc
with_tx_ok none commit body rows a h = elim (Result-cases (body rows)) [
  | inr (x, f) ↦ let shown = simp (f, with_tx) at h in cc
  | inl (out, f) ↦ elim (Option-cases commit) [
    | inr (x, g) ↦ let shown = simp (f, g, with_tx) at h in cc
    | inl g ↦
        let shown = simp (f, g, with_tx) at h in
        let same_items : out.1 ≡ a = cc in simp (f, g, with_tx) (ap (λ t. ok (out.0, t)) same_items)
  ]
]

claim_body_rows :
    {E : Type 0} (faults : Faults E) (now : String) (chat : ℤ) (limit n : ℕ) (rows : List MediaItem)
    (out : List MediaItem × List MediaItem)
    → claim_body faults now chat limit n rows ≡ ok out
    → claim_rows faults.claim now rows (pending_rows rows chat limit n) ≡ ok out
unfolding claim_body
claim_body_rows faults now chat limit n rows out e = elim (Option-cases faults.select) [
  | inr (x, f) ↦ let shown = simp (f, claim_body) at e in cc
  | inl f ↦ simp (f, claim_body) at e
]

-- A row that is not claimable is not returned.
pub claim_pending_skips :
    {E : Type 0} (faults : Faults E) (rows : List MediaItem) (now : String) (chat : ℤ) (limit n : ℕ)
    (claimed : List MediaItem) (c m i : ℤ)
    → (claim_pending faults rows now chat limit n).1 ≡ ok claimed
    → All (λ r. at_key c m i r ≡ true → claimable chat n r ≡ false) rows
    → All (λ b. at_key c m i b ≡ false) claimed
unfolding claim_pending
claim_pending_skips faults rows now chat limit n claimed c m i e h =
    let after = (claim_pending faults rows now chat limit n).0 in
    let ran =
      claim_body_rows faults now chat limit n rows (after, claimed)
        (with_tx_ok faults.begin faults.commit (claim_body faults now chat limit n) rows claimed
          e) in
    subst (All (λ b. at_key c m i b ≡ false))
      (sym (
        claim_rows_items faults.claim now rows (pending_rows rows chat limit n) (after, claimed)
          ran))
      (All-map_claimed c m i (pending_rows rows chat limit n)
        (others_only c m i rows chat limit n h))

-- A row that one claim returned is returned by no later claim, of any chat, while the operations
-- in between neither reset the whole table nor queue or fail that row.
pub claim_pending_exclusive :
    {E F : Type 0} (first : Faults E) (second : Faults F) (rows : List MediaItem)
    (now now' : String) (chat chat' : ℤ) (limit limit' n n' : ℕ) (claimed again : List MediaItem)
    (a : MediaItem) (ops : List Op)
    → (claim_pending first rows now chat limit n).1 ≡ ok claimed
    → Memᴰ a claimed
    → All (Spares a) ops
    → (claim_pending second
        (run ops (claim_pending first rows now chat limit n).0)
        now'
        chat'
        limit'
        n').1
      ≡ ok again
    → All (λ b. keyed_as a b ≡ false) again
unfolding claim_pending keyed_as
claim_pending_exclusive first second rows now now' chat chat' limit limit' n n' claimed again a ops
      e m spared e' =
    let after = (claim_pending first rows now chat limit n).0 in
    let later = run ops after in
    let ran =
      claim_body_rows first now chat limit n rows (after, claimed)
        (with_tx_ok first.begin first.commit (claim_body first now chat limit n) rows claimed e) in
    let owned = run-Owned a ops after spared (
      claimed-Owned first.claim now rows (pending_rows rows chat limit n) (after, claimed) a ran
        m) in
    claim_pending_skips second later now' chat' limit' n' again a.chat_id a.message_id a.media_index
      e'
      (All-imp (λ r. keyed_as a r ≡ true → busy r ≡ true)
        (λ r. keyed_as a r ≡ true → claimable chat' n' r ≡ false) later
        (λ r b here. elim (Bool-cases (claimable chat' n' r)) [
          | inl f ↦ let idle_row = claimable-busy chat' n' r f in let held = b here in cc
          | inr f ↦ f
        ])
        owned)

with_tx_err :
    {E A : Type 0} (begin commit : Option E) (body : List MediaItem → Result E (List MediaItem × A))
    (rows : List MediaItem) (e : E)
    → (with_tx begin commit body rows).1 ≡ err e
    → (with_tx begin commit body rows).0 ≡ rows
unfolding with_tx
with_tx_err (some x) commit body rows e h = refl
with_tx_err none commit body rows e h = elim (Result-cases (body rows)) [
  | inr (x, f) ↦ simp (f, with_tx)
  | inl (out, f) ↦ elim (Option-cases commit) [
    | inr (x, g) ↦ simp (f, g, with_tx)
    | inl g ↦ let shown = simp (f, g, with_tx) at h in cc
  ]
]

-- A claiming transaction that fails, at whichever of its steps, changes no row.
pub claim_pending_rolls_back :
    {E : Type 0} (faults : Faults E) (rows : List MediaItem) (now : String) (chat : ℤ) (limit n : ℕ)
    (e : E)
    → (claim_pending faults rows now chat limit n).1 ≡ err e
    → (claim_pending faults rows now chat limit n).0 ≡ rows
unfolding claim_pending
claim_pending_rolls_back faults rows now chat limit n e h =
    with_tx_err faults.begin faults.commit (claim_body faults now chat limit n) rows e h
