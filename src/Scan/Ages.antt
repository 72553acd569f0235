-- ===== src/Scan/Ages.antt =====
-- internal/scan/minage.go: the chats with a message that is old enough. Workers probe the chats in
-- any order; the reply to each request is an argument, by the index of the chat.
mod Tests
use teleparse.Base.{
  ℕ, suc, ◌+◌, ◌<◌, ◌≤◌, Bool, true, false, not, ◌||◌, inl, inr, Option, none, some, List, [], ◌∷◌,
  ◌≡◌, refl, ap, ◌∙◌, ℤ, pos, leb_ℤ, ◌==◌, any, is_nil, ◌⊎◌, sym, Option-cases, length,
  if◌then◌else◌, arith, Bool-cases,
}
use teleparse.Base.Results.{Result, ok, err, ◌>>=◌, Result-cases}

-- The classes of a page of the history.
pub data Page (M : Type 0) : Type 0 where
  messages : List M → Page M
  messages_slice : List M → Page M
  channel_messages : List M → Page M
  not_modified : Page M
  other : Page M

-- An entry of `results` and one of `errs`.
unfoldable pub entry : {E : Type 0} → Result E Bool → Bool × Option E
entry (ok old) = (old, none)
entry (err e) = (false, some e)

module _ {E M : Type 0} (unexpected_history_class : E) where
  unfoldable pub page_messages : Page M → Result E (List M)
  page_messages (messages ms) = ok ms
  page_messages (messages_slice ms) = ok ms
  page_messages (channel_messages ms) = ok ms
  page_messages not_modified = ok []
  page_messages other = err unexpected_history_class

  unfoldable pub chat_has_older_message : Result E (Page M) → Result E Bool
  chat_has_older_message reply = reply >>= λ page. page_messages page >>= λ ms. ok (not (is_nil ms))

  module _ (reply : ℕ → Result E (Page M)) where
    -- The workers, in the order in which the probes finish.
    unfoldable pub probe_all : List ℕ → (ℕ → Bool × Option E) → ℕ → Bool × Option E
    probe_all [] slots = slots
    probe_all (i ∷ order) slots =
        probe_all order λ j. if j == i then entry (chat_has_older_message (reply i)) else slots j

    unfoldable pub first_problem : {T : Type 0} → (ℕ → Bool × Option E) → ℕ → List T → Option E
    first_problem slots i [] = none
    first_problem slots i (t ∷ ts) = elim (slots i).1 [
      | some e ↦ some e
      | none ↦ first_problem slots (suc i) ts
    ]

    unfoldable pub kept : {T : Type 0} → (ℕ → Bool × Option E) → ℕ → List T → List T
    kept slots i [] = []
    kept slots i (t ∷ ts) =
        let rest = kept slots (suc i) ts in if (slots i).0 then t ∷ rest else rest

    unfoldable pub collect : {T : Type 0} → (ℕ → Bool × Option E) → ℕ → List T → Result E (List T)
    collect slots i targets = elim (first_problem slots i targets) [
      | some e ↦ err e
      | none ↦ ok (kept slots i targets)
    ]

    unfoldable pub filter_by_min_age : {T : Type 0} → List ℕ → List T → ℤ → Result E (List T)
    filter_by_min_age order targets age =
        if leb_ℤ age (pos 0)
        then ok targets
        else collect (probe_all order λ j. (false, none)) 0 targets

    -- One probe after the other, ended by the first problem.
    abbrev pub followed : {T : Type 0} → T → Result E Bool → Result E (List T) → Result E (List T)
    followed t (err e) rest = err e
    followed t (ok old) (err e) = err e
    followed t (ok old) (ok rest) = ok (if old then t ∷ rest else rest)

    abbrev pub in_turn : {T : Type 0} → ℕ → List T → Result E (List T)
    in_turn i [] = ok []
    in_turn i (t ∷ ts) = followed t (chat_has_older_message (reply i)) (in_turn (suc i) ts)

    abbrev probed : ℕ → Bool × Option E
    probed i = entry (chat_has_older_message (reply i))

    abbrev with_probe : ℕ → (ℕ → Bool × Option E) → ℕ → Bool × Option E
    with_probe i slots j = if j == i then probed i else slots j

    -- A slot is probed whenever its turn comes.
    probe_all_lem :
        (order : List ℕ) (slots : ℕ → Bool × Option E) (i : ℕ)
        → (any (λ j. i == j) order ≡ true) ⊎ (slots i ≡ probed i)
        → probe_all order slots i ≡ probed i
    unfolding probe_all
    probe_all_lem [] slots i (inl h) = cc
    probe_all_lem [] slots i (inr e) = e
    probe_all_lem (j ∷ order) slots i h =
        probe_all_lem order (with_probe j slots) i (elim (Bool-cases (i == j)) [
          | inl f ↦
              let same_index : i ≡ j = ground (arith, f) in
              inr (simp (f) (ap probed (sym same_index)))
          | inr f ↦ elim h [ inl a ↦ inl (simp (f) at a) | inr e ↦ inr (simp (f) e) ]
        ])

    collect_lem :
        {T : Type 0} (targets : List T) (slots : ℕ → Bool × Option E) (i : ℕ)
        → ((j : ℕ) → i ≤ j → j < i + length targets → slots j ≡ probed j)
        → collect slots i targets ≡ in_turn i targets
    unfolding collect first_problem kept entry
    collect_lem [] slots i h = refl
    collect_lem (t ∷ ts) slots i h =
        let here : slots i ≡ probed i = h i (omega arith) (omega arith) in
        let later : collect slots (suc i) ts ≡ in_turn (suc i) ts =
          collect_lem ts slots (suc i)
            (λ j above below. h j (omega (arith, above)) (omega (arith, below))) in
        elim (Result-cases (chat_has_older_message (reply i))) [
          | inr (e, f) ↦ simp (here, f, entry, collect, first_problem)
          | inl (old, f) ↦ elim (Option-cases (first_problem slots (suc i) ts)) [
            | inr (e, g) ↦
                let problem : err e ≡ in_turn (suc i) ts = simp (g, collect) at later in
                simp (here, f, g, entry, collect, first_problem)
                  (ap (λ (p : Result E (List _)). followed t (ok old) p) problem)
            | inl g ↦
                let success : ok (kept slots (suc i) ts) ≡ in_turn (suc i) ts =
                  simp (g, collect) at later in
                simp (here, f, g, entry, collect, first_problem)
                  (ap (λ (p : Result E (List _)). followed t (ok old) p) success)
          ]
        ]

    -- In whatever order the workers finish the probes, as long as each chat gets one, the outcome is
    -- that of one probe after the other: the chats with an older message in their order, or the first
    -- chat's problem; without a positive age all chats stay.
    pub filter_by_min_age_ordered :
        {T : Type 0} (order : List ℕ) (targets : List T) (age : ℤ)
        → ((i : ℕ) → i < length targets → any (λ j. i == j) order ≡ true)
        → filter_by_min_age order targets age
          ≡ (if leb_ℤ age (pos 0) then ok targets else in_turn 0 targets)
    unfolding filter_by_min_age
    filter_by_min_age_ordered order targets age covers = elim (Bool-cases (leb_ℤ age (pos 0))) [
      | inl f ↦ simp (f)
      | inr f ↦ simp (f) (
          collect_lem targets (probe_all order λ j. (false, none)) 0 λ j above below.
            probe_all_lem order (λ k. (false, none)) j (inl (covers j (omega (arith, below)))))
    ]
