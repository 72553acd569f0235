-- ===== src/Verify/Balanced.antt =====
-- A class and a repair are counted with the finding that goes with them.
use teleparse.Base.{
  ℕ, suc, ◌+◌, true, false, ◌||◌, ◌⊎◌, inl, inr, Option, none, some, List, [], ◌∷◌, ◌++◌, ◌≡◌, refl,
  ◌∙◌, String, same, is_empty, any, if◌then◌else◌, arith, Bool-cases, Option-cases,
}
use teleparse.Store.Media.{MediaItem}
use teleparse.Store.Reports.{MediaRow, add_status}
use teleparse.Verify.{
  class_ok, class_missing, class_final_missing_blob_alive, class_size_mismatch, class_hash_mismatch,
  class_unchecked_format, Finding, Options, Report, Disk, is_problem, text_or_empty, row_finding,
  repair_row,
}
use teleparse.Verify.Sweep.{count_repair, settle_row, sweep_class}

-- The findings with a repair.
abbrev pub fixed_count : List Finding → ℕ
fixed_count [] = 0
fixed_count (f ∷ fs) = (if is_empty f.fixed then 0 else 1) + fixed_count fs

abbrev pub class_total : List (String × ℕ) → ℕ
class_total [] = 0
class_total ((kind, n) ∷ rest) = n + class_total rest

pub record Balanced (r : Report) : Type 0 where
  pub classified : r.rows ≡ r.skipped_no_path + class_total r.classes
  pub repaired : fixed_count r.findings ≡ r.relinked + r.requeued

class_total-add_status :
    (s : String) (cs : List (String × ℕ)) → class_total (add_status s cs) ≡ suc (class_total cs)
unfolding add_status
class_total-add_status s [] = refl
class_total-add_status s ((t, n) ∷ cs) = ground (arith, class_total-add_status s cs)

pub fixed_count-append :
    (fs : List Finding) (f : Finding)
    → fixed_count (fs ++ (f ∷ [])) ≡ fixed_count fs + (if is_empty f.fixed then 0 else 1)
fixed_count-append [] f = omega arith
fixed_count-append (x ∷ fs) f = omega (arith, fixed_count-append fs f)

-- The row is counted before its class is.
pub record Counted (r : Report) : Type 0 where
  pub classified : r.rows ≡ suc (r.skipped_no_path + class_total r.classes)
  pub repaired : fixed_count r.findings ≡ r.relinked + r.requeued

module _ {E : Type 0} (disk : Disk E) (opts : Options) where
  -- A repair acts on a problem only, and says what it did.
  repair_row-acts :
      (now : String) (table : List MediaItem) (kind : String) (row : MediaRow) (path : String)
      → ((repair_row disk opts now table kind row path).1 ≡ none)
        ⊎ ((action : String) × ((repair_row disk opts now table kind row path).1 ≡ some action)
            × (is_empty action ≡ false)
            × (is_problem kind ≡ true))
  unfolding repair_row is_problem
  repair_row-acts now table kind row path =
      elim (Bool-cases (same kind class_final_missing_blob_alive)) [
        | inl f ↦ elim (Option-cases (disk.link (disk.blob_of row) path)) [
          | inr (e, g) ↦ inl (simp (f, g, repair_row))
          | inl g ↦ inr ("relinked from blob", simp (f, g, repair_row), refl, ground (arith, f))
        ]
        | inr f ↦
            elim (Bool-cases
              (any (same kind) (class_missing ∷ class_size_mismatch ∷ class_hash_mismatch ∷ []))) [
                | inl g ↦ elim (Option-cases (disk.requeue_error row)) [
                  | inr (e, k) ↦ inl (simp (f, g, k, repair_row))
                  | inl k ↦ inr (
                    "requeued for re-download",
                    simp (f, g, k, repair_row),
                    refl,
                    ground (arith, f, g),
                  )
                ]
                | inr g ↦ inl (simp (f, g, repair_row))
              ]
      ]

  -- The report with a finding and its repair.
  add_finding :
      (kind : String) (action : Option String) (row : MediaRow) (path : String) (r : Report)
      → (action ≡ none)
        ⊎ ((a : String) × (action ≡ some a) × (is_empty a ≡ false) × (is_problem kind ≡ true))
      → Balanced r
      → Balanced (
          if is_problem kind
          then record (count_repair disk opts kind action r) {
            findings =
                (count_repair disk opts kind action r).findings
                ++ (row_finding row path kind (text_or_empty action) ∷ []);
          }
          else count_repair disk opts kind action r)
  unfolding count_repair row_finding text_or_empty
  add_finding kind none row path r done b = elim (Bool-cases (is_problem kind)) [
    | inl p ↦ simp (p) (record {
      classified = b.classified;
      repaired =
          fixed_count-append r.findings (row_finding row path kind "") ∙ omega (arith, b.repaired);
    })
    | inr p ↦ simp (p) b
  ]
  add_finding kind (some a) row path r (inl e) b = cc
  add_finding kind (some a) row path r (inr (a', e, said, p)) b =
      let said_a : is_empty a ≡ false = cc in
      let more : fixed_count (r.findings ++ (row_finding row path kind a ∷ []))
          ≡ fixed_count r.findings + 1 =
        fixed_count-append r.findings (row_finding row path kind a) ∙ simp (said_a) in
      elim (Bool-cases (same kind class_final_missing_blob_alive)) [
        | inl f ↦
            simp (p, f)
              (record { classified = b.classified; repaired = more ∙ omega (arith, b.repaired) })
        | inr f ↦
            simp (p, f)
              (record { classified = b.classified; repaired = more ∙ omega (arith, b.repaired) })
      ]

  settle_row-Balanced :
      (now : String) (table : List MediaItem) (kind : String) (row : MediaRow) (path : String)
      (r : Report)
      → Balanced r
      → Balanced (settle_row disk opts now table kind row path r).1
  unfolding settle_row
  settle_row-Balanced now table kind row path r b = elim (Bool-cases opts.fix) [
    | inl f ↦
        simp (f, settle_row)
          (add_finding kind (repair_row disk opts now table kind row path).1 row path r
            (repair_row-acts now table kind row path) b)
    | inr f ↦ simp (f, settle_row) (add_finding kind none row path r (inl refl) b)
  ]

  pub sweep_class-Balanced :
      (now : String) (table : List MediaItem) (kind : String) (row : MediaRow) (path : String)
      (r : Report)
      → Counted r
      → Balanced (sweep_class disk opts now table kind row path r).1
  unfolding sweep_class
  sweep_class-Balanced now table kind row path r c =
      let r' = record r { classes = add_status kind r.classes } in
      let b : Balanced r' = record {
        classified = c.classified ∙ omega (arith, class_total-add_status kind r.classes);
        repaired = c.repaired;
      } in
      elim (Bool-cases (same kind class_ok || same kind class_unchecked_format)) [
        | inl f ↦ simp (f, sweep_class) b
        | inr f ↦ simp (f, sweep_class) (settle_row-Balanced now table kind row path r' b)
      ]
