-- ===== src/Verify/ReadOnly.antt =====
-- A sweep without `--fix` only reads.
use teleparse.Base.{
  ℕ, ◌+◌, min, false, ◌||◌, inl, inr, List, ◌≡◌, refl, ◌∙◌, ap, subst, ℤ, pos, ◌-ℤ◌, String, same,
  arith, Bool-cases,
}
use teleparse.Base.Results.{ok}
use teleparse.Store.Media.{MediaItem}
use teleparse.Store.Reports.{MediaRow, add_status, list_media_rows}
use teleparse.Verify.{class_ok, class_unchecked_format, Options, Report, Blob, Disk, is_problem}
use teleparse.Verify.Sweep.{
  count_repair, settle_row, sweep_class, is_tracked, visit_blob, collect_garbage, conclude,
  empty_report, sweep,
}
use teleparse.Verify.Walks.{sweep_rows_keeps, sweep_blobs_keeps, numbered, sweep-Parts}

record Unrepaired (r : Report) : Type 0 where
  no_relinked : r.relinked ≡ 0
  no_requeued : r.requeued ≡ 0
  no_removed : r.gc_removed ≡ 0

same_repairs :
    {r r' : Report}
    → Unrepaired r
    → r'.relinked ≡ r.relinked
    → r'.requeued ≡ r.requeued
    → r'.gc_removed ≡ r.gc_removed
    → Unrepaired r'
same_repairs u e f g = record {
  no_relinked = e ∙ u.no_relinked;
  no_requeued = f ∙ u.no_requeued;
  no_removed = g ∙ u.no_removed;
}

minus_zero : (p : ℕ) → pos p -ℤ pos 0 ≡ pos p
minus_zero p = ground arith

least_nothing : (c o : ℕ) → c ≡ 0 → min c o ≡ 0
least_nothing c o e = ground (arith, e)

less_nothing : {z : ℤ} {p a : ℕ} → a ≡ 0 → z ≡ pos p → z -ℤ pos a ≡ pos p
less_nothing {z} {p} {a} e f =
    ap (λ (w : ℤ). w -ℤ pos a) f ∙ ap (λ (k : ℕ). pos p -ℤ pos k) e ∙ minus_zero p

module _ {E : Type 0} (disk : Disk E) (opts : Options) (no_fix : opts.fix ≡ false) where
  abbrev Kept : List MediaItem → List MediaItem × Report → Type 0
  Kept table out = (out.0 ≡ table) × Unrepaired out.1

  settle_row-Kept :
      (now : String) (table : List MediaItem) (kind : String) (row : MediaRow) (path : String)
      (r : Report)
      → Unrepaired r
      → Kept table (settle_row disk opts now table kind row path r)
  unfolding settle_row count_repair
  settle_row-Kept now table kind row path r u = elim (Bool-cases (is_problem kind)) [
    | inl f ↦ simp (no_fix, f, settle_row, count_repair) (refl, same_repairs u refl refl refl)
    | inr f ↦ simp (no_fix, f, settle_row, count_repair) (refl, u)
  ]

  sweep_class-Kept :
      (now : String) (table : List MediaItem) (kind : String) (row : MediaRow) (path : String)
      (r : Report)
      → Unrepaired r
      → Kept table (sweep_class disk opts now table kind row path r)
  unfolding sweep_class
  sweep_class-Kept now table kind row path r u =
      let r' = record r { classes = add_status kind r.classes } in
      let u' : Unrepaired r' = same_repairs u refl refl refl in
      elim (Bool-cases (same kind class_ok || same kind class_unchecked_format)) [
        | inl f ↦ simp (f, sweep_class) (refl, u')
        | inr f ↦ simp (f, sweep_class) (settle_row-Kept now table kind row path r' u')
      ]

  visit_blob-Unrepaired :
      (table : List MediaItem) (blob : Blob) (r : Report)
      → Unrepaired r
      → Unrepaired (visit_blob disk opts table blob r)
  unfolding visit_blob
  visit_blob-Unrepaired table blob r u = elim (Bool-cases (is_tracked disk opts table blob)) [
    | inl f ↦ simp (f, visit_blob) (same_repairs u refl refl refl)
    | inr f ↦ simp (f, visit_blob) (same_repairs u refl refl refl)
  ]

  nothing_collected : (r out : Report) → collect_garbage disk opts r ≡ ok out → r ≡ out
  unfolding collect_garbage
  nothing_collected r out e = let shown = simp (no_fix, collect_garbage) at e in cc

  all_remain :
      (r : Report)
      → Unrepaired r
      → (conclude disk opts r).remaining ≡ pos (conclude disk opts r).problems
  unfolding conclude
  all_remain r u =
      less_nothing (least_nothing r.gc_removed r.orphaned u.no_removed)
        (less_nothing u.no_requeued (less_nothing u.no_relinked refl))

  -- Without `--fix` a sweep that ends leaves the manifest as it is, and counts every problem that it
  -- reports as remaining.
  pub sweep_reads_only :
      (now : String) (table : List MediaItem) (out : List MediaItem × Report)
      → sweep disk opts now table ≡ ok out
      → (out.0 ≡ table) × (out.1.remaining ≡ pos out.1.problems)
  sweep_reads_only now table out e =
      let parts = sweep-Parts disk opts now table out e in
      let kept =
        sweep_rows_keeps disk opts (Kept table) now
          (λ t r k. (k.0, same_repairs k.1 refl refl refl))
          (λ t kind row path r k.
            let swept =
              sweep_class-Kept now t kind row path (record r { rows = r.rows + 1 })
                (same_repairs k.1 refl refl refl) in
            (swept.0 ∙ k.0, swept.1))
          (list_media_rows table (pos 0)) table (empty_report disk opts)
          (parts.table', parts.walked) (refl, empty-Unrepaired) parts.rows_swept in
      let listed =
        sweep_blobs_keeps disk opts Unrepaired parts.table' (visit_blob-Unrepaired parts.table')
          parts.walked parts.listed kept.1 parts.blobs_swept in
      let same_report =
        nothing_collected (numbered disk opts parts.listed) parts.collected
          parts.garbage_collected in
      let all_open : (conclude disk opts parts.collected).remaining
          ≡ pos (conclude disk opts parts.collected).problems =
        subst
          (λ (t : Report). (conclude disk opts t).remaining ≡ pos (conclude disk opts t).problems)
          same_report
          (all_remain (numbered disk opts parts.listed) (same_repairs listed refl refl refl)) in
      subst (λ (t : List MediaItem × Report). (t.0 ≡ table) × (t.1.remaining ≡ pos t.1.problems))
        parts.ended (kept.0, all_open)
    where
      empty-Unrepaired : Unrepaired (empty_report disk opts)
      empty-Unrepaired =
          unfold empty_report in
          record { no_relinked = refl; no_requeued = refl; no_removed = refl }
