-- ===== src/Store/Reports/Totals.antt =====
-- The reports count every row once.
use teleparse.Base.{
  ℕ, suc, ◌+◌, ◌==◌, ◌||◌, not, any, Bool, true, false, some, none, List, [], ◌∷◌, map, ◌≡◌, refl,
  sym, ◌∙◌, ap, subst, length, All, All-imp, ℤ, same_ℤ, same_ℤ_iff, ltb_ℤ, String, same, same_iff,
  same_sym, if◌then◌else◌, arith, Bool-cases, inl, inr,
}
use teleparse.Store.Table.{select_where, count_where}
use teleparse.Store.Media.{
  MediaItem, of_chat, has_status, status_discovered, status_queued, status_downloading, status_done,
  status_failed, status_skipped,
}
use teleparse.Store.Chats.{ChatRow}
use teleparse.Store.Reports.{
  count_at, entry_of, assign, add_status, group_statuses, zeroed, assign_all, counts, add_id,
  distinct_chat_ids, ChatStats, chat_stats, stats_per_chat,
}

same_flip : (s t u : String) → same t u ≡ true → same s t ≡ same s u
same_flip s t u e = ap (same s) ((same_iff t u).0 e)

count_at-add_status :
    (s t : String) (groups : List (String × ℕ))
    → count_at s (add_status t groups) ≡ (if same s t then 1 else 0) + count_at s groups
unfolding add_status
count_at-add_status s t [] = ground arith
count_at-add_status s t ((u, n) ∷ groups) = elim (Bool-cases (same t u)) [
  | inl e ↦ simp (e, same_flip s t u e) (ground arith)
  | inr e ↦ elim (Bool-cases (same s u)) [
    | inl f ↦
        let off : same s t ≡ false = same_sym s t ∙ same_flip t s u f ∙ e in
        simp (e, f, off) (ground arith)
    | inr f ↦ simp (e, f) (count_at-add_status s t groups)
  ]
]

entry_of-assign :
    (s t : String) (n : ℕ) (m : List (String × ℕ))
    → entry_of s (assign t n m) ≡ (if same s t then some n else entry_of s m)
unfolding assign
entry_of-assign s t n [] = refl
entry_of-assign s t n ((u, k) ∷ m) = elim (Bool-cases (same t u)) [
  | inl e ↦ simp (e, same_flip s t u e) (ground arith)
  | inr e ↦ elim (Bool-cases (same s u)) [
    | inl f ↦ let off : same s t ≡ false = same_sym s t ∙ same_flip t s u f ∙ e in simp (e, f, off)
    | inr f ↦ simp (e, f) (entry_of-assign s t n m)
  ]
]

-- What the map answers after the loop: the groups go before the entries that were there.
entry_of-assign_all :
    (s : String) (groups m : List (String × ℕ))
    → entry_of s (assign_all groups m)
      ≡ (elim (entry_of s groups) [ some n ↦ some n | none ↦ entry_of s m ])
unfolding assign_all
entry_of-assign_all s [] m = refl
entry_of-assign_all s ((t, n) ∷ groups) m =
    entry_of-assign s t n (assign_all groups m) ∙ (elim (Bool-cases (same s t)) [
      | inl e ↦ simp (e)
      | inr e ↦ simp (e) (entry_of-assign_all s groups m)
    ])

count_at-group_statuses :
    (s : String) (rows : List MediaItem)
    → count_at s (group_statuses rows) ≡ count_where (has_status s) rows
unfolding group_statuses count_where has_status
count_at-group_statuses s [] = refl
count_at-group_statuses s (r ∷ rows) =
    count_at-add_status s r.status (group_statuses rows)
    ∙ ground (arith, count_at-group_statuses s rows, same_sym s r.status)

entry_of-add_status :
    (s t : String) (groups : List (String × ℕ))
    → entry_of s (add_status t groups)
      ≡ (if same s t then some (suc (count_at s groups)) else entry_of s groups)
unfolding add_status
entry_of-add_status s t [] = ground arith
entry_of-add_status s t ((u, n) ∷ groups) = elim (Bool-cases (same t u)) [
  | inl e ↦ simp (e, same_flip s t u e) (ground arith)
  | inr e ↦ elim (Bool-cases (same s u)) [
    | inl f ↦ let off : same s t ≡ false = same_sym s t ∙ same_flip t s u f ∙ e in simp (e, f, off)
    | inr f ↦ simp (e, f) (entry_of-add_status s t groups)
  ]
]

-- A status has a group where it has a row.
entry_of-group_statuses :
    (s : String) (rows : List MediaItem)
    → entry_of s (group_statuses rows) ≡ (
        if count_where (has_status s) rows == 0
        then none
        else some (count_where (has_status s) rows))
unfolding group_statuses count_where has_status
entry_of-group_statuses s [] = refl
entry_of-group_statuses s (r ∷ rows) =
    entry_of-add_status s r.status (group_statuses rows) ∙ (elim (Bool-cases (same s r.status)) [
      | inl e ↦
          let turned : same r.status s ≡ true = same_sym r.status s ∙ e in
          simp (e, turned, count_at-group_statuses s rows) (ground arith)
      | inr e ↦
          let turned : same r.status s ≡ false = same_sym r.status s ∙ e in
          simp (e, turned)
            (entry_of-group_statuses s rows
              ∙ ap (λ (k : ℕ). if k == 0 then none else some k) (omega arith))
    ])

-- The six statuses of media rows.
abbrev pub media_statuses : List String
media_statuses =
    status_discovered ∷ status_queued ∷ status_downloading ∷ status_done ∷ status_failed
    ∷ status_skipped ∷ []

entry_of-zeroed :
    (s : String) → entry_of s zeroed ≡ (if any (same s) media_statuses then some 0 else none)
entry_of-zeroed s = ground arith

-- `Counts` has an entry for each of the six statuses of media rows, 0 included, and for each other
-- status that a row has, and no further entry; every entry is the number of rows with that status.
pub counts_exact :
    (s : String) (rows : List MediaItem)
    → entry_of s (counts rows) ≡ (
        if any (same s) media_statuses || not (count_where (has_status s) rows == 0)
        then some (count_where (has_status s) rows)
        else none)
unfolding counts
counts_exact s rows =
    entry_of-assign_all s (group_statuses rows) zeroed
    ∙ simp (entry_of-group_statuses s rows, entry_of-zeroed s) (ground arith)

-- The chats of a list are each before the later ones.
abbrev pub Ascending : List ℤ → Type 0
Ascending [] = Unit
Ascending (x ∷ xs) = All (λ y. ltb_ℤ x y ≡ true) xs × Ascending xs

abbrev pub listed : ℤ → List ℤ → Bool
listed x [] = false
listed x (y ∷ ys) = if same_ℤ x y then true else listed x ys

All-add_id :
    (x y : ℤ) (ys : List ℤ)
    → ltb_ℤ x y ≡ true
    → All (λ z. ltb_ℤ x z ≡ true) ys
    → All (λ z. ltb_ℤ x z ≡ true) (add_id y ys)
unfolding add_id
All-add_id x y [] here h = (here, tt)
All-add_id x y (z ∷ ys) here h = elim (Bool-cases (same_ℤ y z)) [
  | inl e ↦ simp (e) h
  | inr e ↦ elim (Bool-cases (ltb_ℤ y z)) [
    | inl f ↦ simp (e, f) (here, h)
    | inr f ↦ simp (e, f) (h.0, All-add_id x y ys here h.1)
  ]
]

later :
    (x y : ℤ) (ys : List ℤ)
    → ltb_ℤ x y ≡ true
    → All (λ z. ltb_ℤ y z ≡ true) ys
    → All (λ z. ltb_ℤ x z ≡ true) ys
later x y [] here h = tt
later x y (z ∷ ys) here h = (ground (arith, h.0), later x y ys here h.1)

add_id-Ascending : (x : ℤ) (ys : List ℤ) → Ascending ys → Ascending (add_id x ys)
unfolding add_id
add_id-Ascending x [] h = (tt, tt)
add_id-Ascending x (y ∷ ys) h = elim (Bool-cases (same_ℤ x y)) [
  | inl e ↦ simp (e) h
  | inr e ↦ elim (Bool-cases (ltb_ℤ x y)) [
    | inl f ↦ simp (e, f) ((refl, later x y ys f h.0), h)
    | inr f ↦ simp (e, f) (All-add_id y x ys (ground arith) h.0, add_id-Ascending x ys h.1)
  ]
]

listed-add_id :
    (x y : ℤ) (ys : List ℤ) → listed x (add_id y ys) ≡ (if same_ℤ x y then true else listed x ys)
unfolding add_id
listed-add_id x y [] = refl
listed-add_id x y (z ∷ ys) = elim (Bool-cases (same_ℤ y z)) [
  | inl e ↦ let eq = (same_ℤ_iff y z).0 e in simp (e, eq) (ground arith)
  | inr e ↦ elim (Bool-cases (ltb_ℤ y z)) [
    | inl f ↦ simp (e, f)
    | inr f ↦ simp (e, f) (ground (arith, listed-add_id x y ys))
  ]
]

abbrev total : (ℤ → ℕ) → List ℤ → ℕ
total f [] = 0
total f (x ∷ xs) = f x + total f xs

hit : ℤ → ℤ → ℕ
hit c x = if same_ℤ c x then 1 else 0

no_hit : (c : ℤ) (xs : List ℤ) → All (λ z. ltb_ℤ c z ≡ true) xs → total (hit c) xs ≡ 0
unfolding hit
no_hit c [] h = refl
no_hit c (x ∷ xs) h = ground (arith, no_hit c xs h.1)

one_hit : (c : ℤ) (xs : List ℤ) → Ascending xs → listed c xs ≡ true → total (hit c) xs ≡ 1
unfolding hit
one_hit c [] h e = cc
one_hit c (x ∷ xs) h e = elim (Bool-cases (same_ℤ c x)) [
  | inl f ↦
      let eq = (same_ℤ_iff c x).0 f in
      let none_later = subst (λ t. total (hit t) xs ≡ 0) (sym eq) (no_hit x xs h.0) in
      simp (f) (ground (arith, none_later))
  | inr f ↦ let rest = one_hit c xs h.1 (simp (f) at e) in simp (f) (omega (arith, rest))
]

total-add : (f g : ℤ → ℕ) (xs : List ℤ) → total (λ x. f x + g x) xs ≡ total f xs + total g xs
total-add f g [] = refl
total-add f g (x ∷ xs) = omega (arith, total-add f g xs)

total-zero : (xs : List ℤ) → total (λ x. 0) xs ≡ 0
total-zero [] = refl
total-zero (x ∷ xs) = omega (arith, total-zero xs)

total-count_where :
    (ids : List ℤ) (rows : List MediaItem)
    → Ascending ids
    → All (λ r. listed r.chat_id ids ≡ true) rows
    → total (λ x. count_where (of_chat x) rows) ids ≡ length rows
unfolding count_where of_chat hit
total-count_where ids [] h covered = total-zero ids
total-count_where ids (r ∷ rows) h covered =
    total-add (hit r.chat_id) (λ x. count_where (of_chat x) rows) ids
    ∙ omega (arith, one_hit r.chat_id ids h covered.0, total-count_where ids rows h covered.1)

distinct_chat_ids-Ascending : (rows : List MediaItem) → Ascending (distinct_chat_ids rows)
unfolding distinct_chat_ids
distinct_chat_ids-Ascending [] = tt
distinct_chat_ids-Ascending (r ∷ rows) =
    add_id-Ascending r.chat_id (distinct_chat_ids rows) (distinct_chat_ids-Ascending rows)

distinct_chat_ids-covers :
    (rows : List MediaItem) → All (λ r. listed r.chat_id (distinct_chat_ids rows) ≡ true) rows
unfolding distinct_chat_ids
distinct_chat_ids-covers [] = tt
distinct_chat_ids-covers (r ∷ rows) = (
  listed-add_id r.chat_id r.chat_id (distinct_chat_ids rows) ∙ ground arith,
  All-imp (λ x. listed x.chat_id (distinct_chat_ids rows) ≡ true)
      (λ x. listed x.chat_id (add_id r.chat_id (distinct_chat_ids rows)) ≡ true) rows
      (λ x e. listed-add_id x.chat_id r.chat_id (distinct_chat_ids rows) ∙ ground (arith, e))
      (distinct_chat_ids-covers rows),
)

length-select_where :
    (p : MediaItem → Bool) (rows : List MediaItem)
    → length (select_where p rows) ≡ count_where p rows
unfolding select_where count_where
length-select_where p [] = refl
length-select_where p (r ∷ rows) = ground (arith, length-select_where p rows)

abbrev pub done_total : List ChatStats → ℕ
done_total [] = 0
done_total (s ∷ stats) = s.done_count + done_total stats

abbrev pub chats_of : List ChatStats → List ℤ
chats_of [] = []
chats_of (s ∷ stats) = s.chat_id ∷ chats_of stats

done_total-map :
    (chats : List ChatRow) (done : List MediaItem) (ids : List ℤ)
    → (done_total (map (chat_stats chats done) ids) ≡ total (λ x. count_where (of_chat x) done) ids)
      × (chats_of (map (chat_stats chats done) ids) ≡ ids)
unfolding chat_stats
done_total-map chats done [] = (refl, refl)
done_total-map chats done (x ∷ ids) =
    let (sums, chats_same) = done_total-map chats done ids in
    (ap (λ t. count_where (of_chat x) done + t) sums, ap (λ t. x ∷ t) chats_same)

-- The statistics list each chat at most once, in ascending order of the id, and their done counts
-- add up to the number of done rows: no done row is missed, none is counted twice.
pub stats_per_chat_complete :
    (chats : List ChatRow) (rows : List MediaItem)
    → Ascending (chats_of (stats_per_chat chats rows))
      × (done_total (stats_per_chat chats rows) ≡ count_where (has_status status_done) rows)
unfolding stats_per_chat
stats_per_chat_complete chats rows =
    let done = select_where (has_status status_done) rows in
    let ids = distinct_chat_ids done in
    let (sums, chats_same) = done_total-map chats done ids in
    (
      subst Ascending (sym chats_same) (distinct_chat_ids-Ascending done),
      sums
          ∙ total-count_where ids done (distinct_chat_ids-Ascending done)
              (distinct_chat_ids-covers done)
          ∙ length-select_where (has_status status_done) rows,
    )
