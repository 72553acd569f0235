-- ===== src/Verify/Walks.antt =====
-- What every step of a sweep keeps, the sweep keeps.
use teleparse.Base.{
  ◌+◌, true, false, not, ◌||◌, ◌⊎◌, inl, inr, some, none, List, [], ◌∷◌, ◌≡◌, refl, subst, length,
  ℤ, pos, String, same, is_empty, Bool-cases, Option-cases,
}
use teleparse.Base.Results.{Result, ok, Result-cases, bind_ok}
use teleparse.Store.Media.{MediaItem, status_done}
use teleparse.Store.Reports.{MediaRow, list_media_rows}
use teleparse.Verify.{
  Options, Report, Stat, present, absent, failed, Blob, Disk, chat_scope, text_or_empty,
  classify_row,
}
use teleparse.Verify.Sweep.{
  sweep_class, sweep_file, sweep_row, sweep_rows, visit_blob, visit_blobs, sweep_blobs,
  collect_garbage, conclude, empty_report, sweep,
}

Stat-cases :
    {E : Type 0} (s : Stat E)
    → ((n : ℤ) × (s ≡ present n)) ⊎ ((s ≡ absent) ⊎ ((e : E) × (s ≡ failed e)))
Stat-cases (present n) = inl (n, refl)
Stat-cases absent = inr (inl refl)
Stat-cases (failed e) = inr (inr (e, refl))

module _ {E : Type 0} (disk : Disk E) (opts : Options) where
  abbrev swept_ok : List MediaItem × Report → Result E (List MediaItem × Report)
  swept_ok out = ok out

  -- A file that is swept is swept as one class.
  sweep_file_class :
      (now : String) (table : List MediaItem) (row : MediaRow) (path : String) (r : Report)
      (out : List MediaItem × Report)
      → sweep_file disk opts now table row path r ≡ ok out
      → (kind : String) × (sweep_class disk opts now table kind row path r ≡ out)
  unfolding sweep_file
  sweep_file_class now table row path r out e = elim (Stat-cases (disk.stat path)) [
    | inr (inr (x, f)) ↦ let shown = simp (f, sweep_file) at e in cc
    | inr (inl f) ↦ elim (Stat-cases (disk.stat (disk.blob_of row))) [
      | inr (inr (x, g)) ↦ let shown = simp (f, g, sweep_file) at e in cc
      | inr (inl g) ↦
          of_class (classify_row disk opts row path none false) (simp (f, g, sweep_file) at e)
      | inl (n, g) ↦
          of_class (classify_row disk opts row path none true) (simp (f, g, sweep_file) at e)
    ]
    | inl (size, f) ↦ elim (Stat-cases (disk.stat (disk.blob_of row))) [
      | inr (inr (x, g)) ↦ let shown = simp (f, g, sweep_file) at e in cc
      | inr (inl g) ↦
          of_class (classify_row disk opts row path (some size) false)
            (simp (f, g, sweep_file) at e)
      | inl (n, g) ↦
          of_class (classify_row disk opts row path (some size) true) (simp (f, g, sweep_file) at e)
    ]
  ]
    where
      of_class :
          (kind : String)
          → swept_ok (sweep_class disk opts now table kind row path r) ≡ ok out
          → (kind : String) × (sweep_class disk opts now table kind row path r ≡ out)
      of_class kind shown = (kind, cc)

  abbrev counted : Report → Report
  counted r = record r { rows = r.rows + 1 }

  abbrev passed_over : Report → Report
  passed_over r = record r { rows = r.rows + 1; skipped_no_path = r.skipped_no_path + 1 }

  module _ (P : List MediaItem × Report → Type 0) (now : String)
      (skipped : (table : List MediaItem) (r : Report) → P (table, r) → P (table, passed_over r))
      (classed : (table : List MediaItem) (kind : String) (row : MediaRow) (path : String)
          (r : Report)
        → P (table, r)
        → P (sweep_class disk opts now table kind row path (counted r))) where
    sweep_row_keeps :
        (row : MediaRow) (table : List MediaItem) (r : Report) (out : List MediaItem × Report)
        → P (table, r)
        → sweep_row disk opts now table row (counted r) ≡ ok out
        → P out
    unfolding sweep_row
    sweep_row_keeps row table r out p e =
        elim (Bool-cases (is_empty (text_or_empty row.path) || not (same row.status status_done))) [
          | inl f ↦
              let shown : swept_ok (table, passed_over r) ≡ ok out = simp (f, sweep_row) at e in
              let same_pair : (table, passed_over r) ≡ out = cc in
              subst P same_pair (skipped table r p)
          | inr f ↦
              let (kind, same_pair) =
                sweep_file_class now table row (text_or_empty row.path) (counted r) out
                  (simp (f, sweep_row) at e) in
              subst P same_pair (classed table kind row (text_or_empty row.path) r p)
        ]

    pub sweep_rows_keeps :
        (rows : List MediaRow) (table : List MediaItem) (r : Report) (out : List MediaItem × Report)
        → P (table, r)
        → sweep_rows disk opts now rows table r ≡ ok out
        → P out
    unfolding sweep_rows
    sweep_rows_keeps [] table r out p e =
        let same_pair : (table, r) ≡ out = cc in subst P same_pair p
    sweep_rows_keeps (row ∷ rows) table r out p e =
        elim (Bool-cases (chat_scope opts.chats row.chat_id)) [
          | inr f ↦ sweep_rows_keeps rows table r out p (simp (f, sweep_rows) at e)
          | inl f ↦ elim (Result-cases (sweep_row disk opts now table row (counted r))) [
            | inr (x, g) ↦ let shown = simp (f, g, sweep_rows) at e in cc
            | inl (mid, g) ↦ elim (Option-cases (disk.canceled row)) [
              | inr (x, k) ↦ let shown = simp (f, g, k, sweep_rows) at e in cc
              | inl k ↦
                  sweep_rows_keeps rows mid.0 mid.1 out (sweep_row_keeps row table r mid p g)
                    (simp (f, g, k, sweep_rows) at e)
            ]
          ]
        ]

  module _ (P : Report → Type 0) (table : List MediaItem)
      (visited : (blob : Blob) (r : Report) → P r → P (visit_blob disk opts table blob r)) where
    visit_blobs_keeps :
        (blobs : List Blob) (r : Report) → P r → P (visit_blobs disk opts table blobs r)
    unfolding visit_blobs
    visit_blobs_keeps [] r p = p
    visit_blobs_keeps (blob ∷ blobs) r p =
        visit_blobs_keeps blobs (visit_blob disk opts table blob r) (visited blob r p)

    pub sweep_blobs_keeps : (r out : Report) → P r → sweep_blobs disk opts table r ≡ ok out → P out
    unfolding sweep_blobs
    sweep_blobs_keeps r out p e = elim (Stat-cases disk.blob_root) [
      | inl (n, f) ↦
          let shown = simp (f, sweep_blobs) at e in
          let same_report : visit_blobs disk opts table disk.blobs r ≡ out = cc in
          subst P same_report (visit_blobs_keeps disk.blobs r p)
      | inr (inl f) ↦
          let shown = simp (f, sweep_blobs) at e in
          let same_report : r ≡ out = cc in subst P same_report p
      | inr (inr (x, f)) ↦ let shown = simp (f, sweep_blobs) at e in cc
    ]

  abbrev pub numbered : Report → Report
  numbered r = record r { problems = length r.findings }

  -- The four parts of a sweep that ends.
  pub record Parts (now : String) (table : List MediaItem) (out : List MediaItem × Report)
      : Type 0 where
    pub table' : List MediaItem
    pub walked : Report
    pub listed : Report
    pub collected : Report
    pub rows_swept :
        sweep_rows disk opts now (list_media_rows table (pos 0)) table (empty_report disk opts)
        ≡ ok (table', walked)
    pub blobs_swept : sweep_blobs disk opts table' walked ≡ ok listed
    pub garbage_collected : collect_garbage disk opts (numbered listed) ≡ ok collected
    pub ended : (table', conclude disk opts collected) ≡ out

  pub sweep-Parts :
      (now : String) (table : List MediaItem) (out : List MediaItem × Report)
      → sweep disk opts now table ≡ ok out
      → Parts now table out
  unfolding sweep
  sweep-Parts now table out e =
      let (swept, e1, r1) =
        bind_ok
          (sweep_rows disk opts now (list_media_rows table (pos 0)) table (empty_report disk opts))
          _ out e in
      let (report, e2, r2) = bind_ok (sweep_blobs disk opts swept.0 swept.1) _ out r1 in
      let (report', e3, r3) = bind_ok (collect_garbage disk opts (numbered report)) _ out r2 in
      record {
        table' = swept.0;
        walked = swept.1;
        listed = report;
        collected = report';
        rows_swept = e1;
        blobs_swept = e2;
        garbage_collected = e3;
        ended = inner r3;
      }
    where
      inner : {p : List MediaItem × Report} → swept_ok p ≡ ok out → p ≡ out
      inner e = cc
