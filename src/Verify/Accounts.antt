-- ===== src/Verify/Accounts.antt =====
-- The numbers of a sweep's report add up.
use teleparse.Base.{ℕ, ◌+◌, min, List, [], ◌∷◌, ◌≡◌, length, pos, ◌-ℤ◌, is_empty, if◌then◌else◌}
use teleparse.Verify.{Finding, Options, Report, Disk}
use teleparse.Verify.Sweep.{conclude}
use teleparse.Verify.Balanced.{fixed_count, class_total, Balanced}

-- The findings without a repair.
abbrev pub open_count : List Finding → ℕ
open_count [] = 0
open_count (f ∷ fs) = (if is_empty f.fixed then 1 else 0) + open_count fs

pub record AddsUp (r : Report) : Type 0 where
  pub classified : r.rows ≡ r.skipped_no_path + class_total r.classes
  pub listed : r.problems ≡ length r.findings
  pub repaired : fixed_count r.findings ≡ r.relinked + r.requeued
  pub remains : r.remaining ≡ pos (open_count r.findings) -ℤ pos (min r.gc_removed r.orphaned)

module _ {E : Type 0} (disk : Disk E) (opts : Options) where
  abbrev concluded : Report → ℕ → Report
  concluded r n = conclude disk opts (record r { problems = length r.findings; gc_removed = n })
