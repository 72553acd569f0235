-- ===== src/Store/Runs/Cleanup.antt =====
-- Which runs the cleanup removes.
use teleparse.Base.{
  ◌+◌, Bool, true, false, not, ◌⊎◌, inl, inr, Option, some, List, [], ◌∷◌, ◌≡◌, refl, length,
  String, arith, Bool-cases, subst, sym,
}
use teleparse.Store.Table.{select_where, query_row, count_where}
use teleparse.Store.Media.{status_running, status_parked, status_done}
use teleparse.Store.Runs.{
  Run, is_run, text_lt, get_run, finished_before, expired, cleanup_finished_runs,
}

kept_row :
    {R : Type 0} (q p : R → Bool) (rows : List R) (r : R)
    → query_row q rows ≡ some r
    → p r ≡ false
    → query_row q (select_where (λ x. not (p x)) rows) ≡ some r
unfolding query_row select_where
kept_row q p [] r e off = cc
kept_row q p (x ∷ rows) r e off = elim (Bool-cases (q x)) [
  | inl f ↦
      let here : x ≡ r = (let shown = simp (f, query_row) at e in cc) in
      let off_x = subst (λ t. p t ≡ false) (sym here) off in
      simp (off_x, f, query_row) (simp (f, query_row) at e)
  | inr f ↦
      let ih = kept_row q p rows r (simp (f, query_row) at e) off in
      elim (Bool-cases (p x)) [ inl g ↦ simp (g) ih | inr g ↦ simp (g, f, query_row) ih ]
]

active :
    (cutoff : Option String) (r : Run)
    → (r.status ≡ status_running) ⊎ (r.status ≡ status_parked)
    → expired cutoff r ≡ false
unfolding expired
active cutoff r (inl e) = simp (e)
active cutoff r (inr e) = simp (e)

removed :
    {R : Type 0} (p : R → Bool) (rows : List R)
    → length (select_where (λ x. not (p x)) rows) + count_where p rows ≡ length rows
unfolding select_where count_where
removed p [] = refl
removed p (x ∷ rows) = ground (arith, removed p rows)

-- The cleanup never removes a run that is running or parked: a lookup by its id finds it as before.
-- The number that it answers is the number of rows that are gone.
pub cleanup_keeps_active :
    (rows : List Run) (cutoff : Option String) (id : String) (r : Run)
    → get_run rows id ≡ some r
    → (r.status ≡ status_running) ⊎ (r.status ≡ status_parked)
    → (get_run (cleanup_finished_runs rows cutoff).0 id ≡ some r)
      × (length (cleanup_finished_runs rows cutoff).0 + (cleanup_finished_runs rows cutoff).1
          ≡ length rows)
unfolding get_run cleanup_finished_runs
cleanup_keeps_active rows cutoff id r e a = (
  kept_row (is_run id) (expired cutoff) rows r e (active cutoff r a),
  removed (expired cutoff) rows,
)

-- A text behind another.
abbrev pub join : String → String → String
join String.[] t = t
join (String.◌∷◌ c s) t = String.◌∷◌ c (join s t)

fraction_first : (p d : String) → text_lt (join p (String.◌∷◌ "." d)) (join p "Z") ≡ true
unfolding text_lt
fraction_first String.[] d = refl
fraction_first (String.◌∷◌ c p) d = ground (arith, fraction_first p d)

-- A done run whose finish time has a fraction of a second is removed by a cutoff at the start of
-- that very second, although it finished after the cutoff.
pub cleanup_removes_later :
    (r : Run) (second fraction : String)
    → r.status ≡ status_done
    → r.finished_at ≡ some (join second (String.◌∷◌ "." fraction))
    → cleanup_finished_runs (r ∷ []) (some (join second "Z")) ≡ ([], 1)
unfolding cleanup_finished_runs expired finished_before select_where count_where
cleanup_removes_later r second fraction done finished =
    simp (done, finished, fraction_first second fraction, finished_before)
