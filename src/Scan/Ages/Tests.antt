-- ===== src/Scan/Ages/Tests.antt =====
-- Three chats probed out of order.
use teleparse.Base.{
  ℕ, zero, suc, ◌<◌, true, List, [], ◌∷◌, ◌≡◌, refl, pos, any, ◌==◌, length, arith, if◌then◌else◌,
  String,
}
use teleparse.Base.Results.{Result, ok}
use teleparse.Scan.Ages.{
  Page, messages, not_modified, filter_by_min_age, filter_by_min_age_ordered,
  chat_has_older_message, page_messages,
}

abbrev replies : ℕ → Result String (Page ℕ)
replies i = if i == 1 then ok not_modified else ok (messages (7 ∷ []))

abbrev order : List ℕ
order = 2 ∷ 0 ∷ 1 ∷ []

abbrev chats : List ℕ
chats = 10 ∷ 20 ∷ 30 ∷ []

covers : (i : ℕ) → i < length chats → any (λ j. i == j) order ≡ true
covers zero h = refl
covers (suc zero) h = refl
covers (suc (suc zero)) h = refl
covers (suc (suc (suc n))) h = absurd (omega arith)

filter_by_min_age_ordered_example :
    filter_by_min_age "unexpected" replies order chats (pos 60) ≡ ok (10 ∷ 30 ∷ [])
unfolding chat_has_older_message page_messages
filter_by_min_age_ordered_example =
    filter_by_min_age_ordered "unexpected" replies order chats (pos 60) covers
