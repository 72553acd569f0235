-- ===== src/Download/Ranged/Budget.antt =====
-- How often a chunk is asked for.
use teleparse.Base.{
  ap, ℕ, suc, ◌+◌, ◌≤◌, Bool, true, false, Option, none, some, List, [], ◌∷◌, ◌++◌, ◌≡◌, refl, leb,
  ltb_ℤ, All, arith, ◌∙◌, Bool-cases, inl, inr,
}
use teleparse.Base.Results.{ok, err}
use teleparse.Download.{Fault}
use teleparse.Download.Ranged.{
  Turn, dead, chunk, flood, refetched, migrated, failure, request, ranged_flood_sleep_max,
}

-- A turn after which the chunk is asked for again: a short flood wait, a fresh reference, another
-- data center, or a transient failure, each with its pause ended.
abbrev pub Again : Turn → Type 0
Again (dead e) = ⊥
Again (chunk bytes) = ⊥
Again (flood seconds e pause) = (ltb_ℤ ranged_flood_sleep_max seconds ≡ false) × (pause ≡ none)
Again (refetched problem) = problem ≡ none
Again migrated = Unit
Again (failure transient e pause) = (transient ≡ true) × (pause ≡ none)

-- The turns that cost a retry.
abbrev pub cost : List Turn → ℕ
cost [] = 0
cost (failure transient e pause ∷ turns) = suc (cost turns)
cost (_ ∷ turns) = cost turns

request_after :
    (limit retries : ℕ) (turns rest : List Turn)
    → All Again turns
    → retries + cost turns ≤ limit
    → request limit retries (turns ++ rest) ≡ request limit (retries + cost turns) rest
unfolding request
request_after limit retries [] rest a few = ap (λ k. request limit k rest) (omega arith)
request_after limit retries (dead e ∷ turns) rest a few = absurd a.0
request_after limit retries (chunk bytes ∷ turns) rest a few = absurd a.0
request_after limit retries (flood seconds e pause ∷ turns) rest ((short, ended), more) few =
    simp (short, ended, request) (request_after limit retries turns rest more few)
request_after limit retries (refetched problem ∷ turns) rest (fine, more) few =
    simp (fine, request) (request_after limit retries turns rest more few)
request_after limit retries (migrated ∷ turns) rest a few =
    request_after limit retries turns rest a.1 few
request_after limit retries (failure transient e pause ∷ turns) rest ((worth, ended), more) few =
    let within : leb limit retries ≡ false = ground (arith, few) in
    simp (worth, within, ended, request)
      (request_after limit (suc retries) turns rest more (omega (arith, few))
        ∙ ap (λ k. request limit k rest) (omega arith))

-- The chunk that arrives after short flood waits, fresh references, moves to another data center and
-- transient failures, of which only the failures are counted and are at most the budget, is returned.
pub request_survives :
    (limit : ℕ) (turns rest : List Turn) (bytes : List ℕ)
    → All Again turns
    → cost turns ≤ limit
    → request limit 0 (turns ++ (chunk bytes ∷ rest)) ≡ some (ok bytes)
request_survives limit turns rest bytes a few =
    request_after limit 0 turns (chunk bytes ∷ rest) a (omega (arith, few)) ∙ answered
  where
    answered : request limit (0 + cost turns) (chunk bytes ∷ rest) ≡ some (ok bytes)
    answered = unfold request in refl

-- Once the failures have used up the budget, the next one, transient or not, ends the request with
-- its error.
pub request_gives_up :
    (limit : ℕ) (turns rest : List Turn) (transient : Bool) (e : Fault) (pause : Option Fault)
    → All Again turns
    → cost turns ≡ limit
    → request limit 0 (turns ++ (failure transient e pause ∷ rest)) ≡ some (err e)
request_gives_up limit turns rest transient e pause a used =
    request_after limit 0 turns (failure transient e pause ∷ rest) a (omega (arith, used))
    ∙ refused transient (0 + cost turns) (omega (arith, used))
  where
    refused :
        (b : Bool) (k : ℕ) → limit ≤ k → request limit k (failure b e pause ∷ rest) ≡ some (err e)
    refused b k late =
        let over : leb limit k ≡ true = ground (arith, late) in
        elim (Bool-cases b) [
          | inl f ↦ unfold request in simp (f, over)
          | inr f ↦ unfold request in simp (f)
        ]
