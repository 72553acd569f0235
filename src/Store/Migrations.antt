-- ===== src/Store/Migrations.antt =====
-- internal/store/migrations.go: the schema version. The one batch of DDL creates the tables where
-- they are missing.
use teleparse.Base.{
  ℕ, zero, suc, ◌+◌, ◌-◌, Bool, true, Option, none, some, List, [], ◌∷◌, ◌≡◌, refl, ◌∙◌, subst, max,
  ltb, ◌==◌, if◌then◌else◌, arith, Bool-cases, Option-cases, inl, inr,
}
use teleparse.Base.Results.{Result, ok, err, Result-cases}

abbrev pub schema_version : ℕ
schema_version = 1

-- `versions` is the column of the table `migrations`; `created` says that the batch of version 1
-- has run.
pub record Db : Type 0 where
  pub versions : List ℕ
  pub created : Bool

-- What the driver reports for the statements of `migrate`: the table of versions, the transaction's
-- begin and commit, reading the version, and the batch and the record of each version.
pub record MigrateFaults (E : Type 0) : Type 0 where
  pub create_table : Option E
  pub begin : Option E
  pub read_version : Option E
  pub batch : ℕ → Option E
  pub insert_version : ℕ → Option E
  pub commit : Option E

pub data MigrateError (E : Type 0) : Type 0 where
  schema_ahead : ℕ → MigrateError E
  no_migration : ℕ → MigrateError E
  failed : E → MigrateError E

-- COALESCE(MAX(version), 0)
unfoldable pub applied : List ℕ → ℕ
applied [] = 0
applied (v ∷ vs) = max v (applied vs)

-- Whether there is a batch from this version on.
unfoldable pub migration_for : ℕ → Bool
migration_for version = version == 0

-- Go on where the driver reports no error.
abbrev pub checked :
    {E A : Type 0} → Option E → Result (MigrateError E) A → Result (MigrateError E) A
checked none result = result
checked (some e) result = err (failed e)

module _ {E : Type 0} (faults : MigrateFaults E) where
  unfoldable pub apply_migration : Db → ℕ → Result (MigrateError E) Db
  unfolding migration_for
  apply_migration db version =
      if migration_for version
      then checked (faults.batch version) (
          checked (faults.insert_version version)
            (ok (record { versions = suc version ∷ db.versions; created = true })))
      else err (no_migration version)

  -- The loop, with so many versions to go.
  unfoldable pub migrate_from : ℕ → Db → ℕ → Result (MigrateError E) Db
  migrate_from zero db version = ok db
  migrate_from (suc left) db version = elim (apply_migration db version) [
    | err e ↦ err e
    | ok db' ↦ migrate_from left db' (version + 1)
  ]

  unfoldable pub apply_migrations : Db → Result (MigrateError E) Db
  apply_migrations db =
      let version = applied db.versions in
      checked faults.read_version (
        if ltb schema_version version
        then err (schema_ahead version)
        else migrate_from (schema_version - version) db version)

  -- `migrate`: a transaction that fails is rolled back. (That the table of versions was created
  -- before does not show: a missing table counts as an empty one.)
  unfoldable pub migrate : Db → Db × Result (MigrateError E) (Unit {0})
  migrate db = elim (checked faults.create_table (checked faults.begin (apply_migrations db))) [
    | err e ↦ (db, err e)
    | ok db' ↦ elim faults.commit [ some e ↦ (db, err (failed e)) | none ↦ (db', ok tt) ]
  ]

  -- What opening a database at this build's version answers.
  abbrev pub opened : Result (MigrateError E) (Unit {0})
  opened =
      checked faults.create_table
        (checked faults.begin (checked faults.read_version (checked faults.commit (ok tt))))

  checked_ok :
      {A : Type 0} (o : Option E) (r : Result (MigrateError E) A) (a : A)
      → checked o r ≡ ok a
      → (o ≡ none) × (r ≡ ok a)
  checked_ok none r a e = (refl, e)
  checked_ok (some x) r a e = cc

  current : (db : Db) → applied db.versions ≡ schema_version → migrate db ≡ (db, opened)
  unfolding migrate apply_migrations migrate_from
  current db e = elim (Option-cases faults.create_table) [
    | inr (x, f) ↦ simp (f, migrate)
    | inl f ↦ elim (Option-cases faults.begin) [
      | inr (x, g) ↦ simp (f, g, migrate)
      | inl g ↦ elim (Option-cases faults.read_version) [
        | inr (x, h) ↦ simp (f, g, h, e, apply_migrations, migrate)
        | inl h ↦ elim (Option-cases faults.commit) [
          | inr (x, k) ↦ simp (f, g, h, k, e, apply_migrations, migrate_from, migrate)
          | inl k ↦ simp (f, g, h, k, e, apply_migrations, migrate_from, migrate)
        ]
      ]
    ]
  ]

  first_batch :
      (db db' : Db)
      → applied db.versions ≡ 0
      → apply_migration db 0 ≡ ok db'
      → applied db'.versions ≡ schema_version
  unfolding apply_migration migration_for applied
  first_batch db db' z e =
      let (_, recorded) = checked_ok (faults.batch 0) _ db' e in
      let (_, stored) = checked_ok (faults.insert_version 0) _ db' recorded in
      let same_db : record { versions = 1 ∷ db.versions; created = true } ≡ db' = cc in
      subst (λ (d : Db). applied d.versions ≡ schema_version) same_db (ground (arith, z))

  apply_migrations-current :
      (db db' : Db) → apply_migrations db ≡ ok db' → applied db'.versions ≡ schema_version
  unfolding apply_migrations migrate_from
  apply_migrations-current db db' e =
      let (_, e1) = checked_ok faults.read_version _ db' e in
      elim (Bool-cases (ltb schema_version (applied db.versions))) [
        | inl newer ↦ let shown = simp (newer) at e1 in cc
        | inr f ↦ elim (Bool-cases (applied db.versions == 0)) [
          | inl g ↦
              let z : applied db.versions ≡ 0 = ground (arith, g) in
              let e2 = simp (z) at e1 in
              elim (Result-cases (apply_migration db 0)) [
                | inr (x, k) ↦ let shown = simp (k, migrate_from) at e2 in cc
                | inl (d, k) ↦
                    let shown : ok d ≡ ok db' = simp (k, migrate_from) at e2 in
                    let same_db : d ≡ db' = cc in first_batch db db' z (k ∙ shown)
              ]
          | inr g ↦
              let one : applied db.versions ≡ schema_version = ground (arith, f, g) in
              let shown : ok db ≡ ok db' = simp (one) at e1 in
              let same_db : db ≡ db' = cc in
              subst (λ (d : Db). applied d.versions ≡ schema_version) same_db one
        ]
      ]

  migrate_ok : (db : Db) → (migrate db).1 ≡ ok tt → apply_migrations db ≡ ok (migrate db).0
  unfolding migrate
  migrate_ok db e =
      elim (Result-cases
        (checked faults.create_table (checked faults.begin (apply_migrations db)))) [
          | inr (x, f) ↦ let shown = simp (f, migrate) at e in cc
          | inl (d, f) ↦ elim (Option-cases faults.commit) [
            | inr (x, g) ↦ let shown = simp (f, g, migrate) at e in cc
            | inl g ↦
                let (_, f1) = checked_ok faults.create_table _ d f in
                let (_, f2) = checked_ok faults.begin _ d f1 in simp (f, g, migrate) f2
          ]
        ]

  -- A migration that fails, because the database is newer than this build or because a statement
  -- fails, leaves the database as it was.
  pub migrate_rolls_back :
      (db : Db) (e : MigrateError E) → (migrate db).1 ≡ err e → (migrate db).0 ≡ db
  unfolding migrate
  migrate_rolls_back db e h =
      elim (Result-cases
        (checked faults.create_table (checked faults.begin (apply_migrations db)))) [
          | inr (x, f) ↦ simp (f, migrate)
          | inl (d, f) ↦ elim (Option-cases faults.commit) [
            | inr (x, g) ↦ simp (f, g, migrate)
            | inl g ↦ let shown = simp (f, g, migrate) at h in cc
          ]
        ]

-- Opening the database, where it succeeds, ends at the version of this build with nothing more to
-- do: opening it again, whatever fails then, changes nothing, and it succeeds unless the driver
-- fails to create the table of versions, to begin, to read the version or to commit.
pub migrate_settles :
    {E : Type 0} (faults later : MigrateFaults E) (db : Db)
    → (migrate faults db).1 ≡ ok tt
    → (applied (migrate faults db).0.versions ≡ schema_version)
      × (migrate later (migrate faults db).0 ≡ ((migrate faults db).0, opened later))
migrate_settles faults later db e =
    let settled =
      apply_migrations-current faults db (migrate faults db).0 (migrate_ok faults db e) in
    (settled, current later (migrate faults db).0 settled)
