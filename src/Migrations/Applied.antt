-- ===== src/Migrations/Applied.antt =====
-- A migration is applied once, and in order.
use mathlib.Core.Path.{subst}
use paycore.Base.{
  ◌≡◌, ◌⊎◌, sym, ap, ◌∙◌, refl, Bool, true, false, Option, none, some, List, [], ◌∷◌, Result, ok,
  err, inl, inr, arith, Bool-cases, Option-cases, Result-cases,
}
use paycore.Base.Every.{Every}
use paycore.Base.Text.{Text, text_eq_refl}
use paycore.Base.Stateful.{next}
use paycore.Database.{is_listed}
use paycore.Errors.{Error}
use paycore.Migrations.{
  MigrationFile, Migrated, migration_applied, apply_statements, apply_migration, migrate,
}

module _ {S : Type 0} (exec : Text → S → Result S) where
  -- What a run means to do: it executes the files whose version is not yet recorded, in order, and
  -- records them.
  abbrev pub upgrade : List MigrationFile → List Text → S → Option (List Text × S)
  upgrade [] versions schema = some (versions, schema)
  upgrade (m ∷ ms) versions schema = elim (is_listed m.version versions) [
    | true ↦ upgrade ms versions schema
    | false ↦ elim (exec m.sql schema) [
      | err _ ↦ none
      | ok schema' ↦ upgrade ms (m.version ∷ versions) schema'
    ]
  ]

  apply_statements-ok :
      (m : MigrationFile) (db : Migrated S)
      → (apply_statements exec m db).0 ≡ ok tt
      → (exec m.sql db.schema ≡ ok (apply_statements exec m db).1.schema)
        × ((apply_statements exec m db).1.versions ≡ m.version ∷ db.versions)
  unfolding apply_statements
  apply_statements-ok m db h = ground arith

  apply_migration-ok :
      (m : MigrationFile) (db : Migrated S)
      → (apply_migration exec m db).0 ≡ ok tt
      → (exec m.sql db.schema ≡ ok (apply_migration exec m db).1.schema)
        × ((apply_migration exec m db).1.versions ≡ m.version ∷ db.versions)
  unfolding apply_migration
  apply_migration-ok m db h = elim (Result-cases (apply_statements exec m db).0) [
    | inl (x, e) ↦ ground (arith, apply_statements-ok m db)
    | inr (x, e) ↦ absurd (ground arith)
  ]

  migration_applied-keeps :
      (v : Text) (db : Migrated S)
      → ((migration_applied exec v db).1.versions ≡ db.versions)
        × ((migration_applied exec v db).1.schema ≡ db.schema)
        × ((b : Bool) → (migration_applied exec v db).0 ≡ ok b → is_listed v db.versions ≡ b)
  unfolding migration_applied
  migration_applied-keeps v db = elim (Option-cases (next db.answers).0) [
    | inl calm ↦ (ground arith, ground arith, λ b h. ground arith)
    | inr (x, e) ↦ (ground arith, ground arith, λ b h. absurd (ground arith))
  ]

  -- How a round of the loop goes on.
  round-cases :
      (m : MigrationFile) (ms : List MigrationFile) (db : Migrated S)
      → ((e : Error) × (db' : Migrated S) × (migrate exec (m ∷ ms) db ≡ (err e, db')))
        ⊎ ((db' : Migrated S) × (migrate exec (m ∷ ms) db ≡ migrate exec ms db')
            × (is_listed m.version db.versions ≡ true)
            × (db'.versions ≡ db.versions)
            × (db'.schema ≡ db.schema))
        ⊎ ((db' : Migrated S) × (migrate exec (m ∷ ms) db ≡ migrate exec ms db')
            × (is_listed m.version db.versions ≡ false)
            × (exec m.sql db.schema ≡ ok db'.schema)
            × (db'.versions ≡ m.version ∷ db.versions))
  unfolding migrate
  round-cases m ms db =
      let (versions, schema, answer) = migration_applied-keeps m.version db in
      let db1 = (migration_applied exec m.version db).1 in
      elim (Result-cases (migration_applied exec m.version db).0) [
        | inr (e, h) ↦ inl (e, db1, ground arith)
        | inl (b, h) ↦ elim (Bool-cases b) [
          | inl old ↦ inr (inl (db1, ground arith, answer b h ∙ old, versions, schema))
          | inr new ↦ elim (Result-cases (apply_migration exec m db1).0) [
            | inr (e, k) ↦ inl (e, (apply_migration exec m db1).1, ground arith)
            | inl (x, k) ↦
                let (ran, listed) = apply_migration-ok m db1 (ground arith) in
                inr (
                  inr (
                    (apply_migration exec m db1).1,
                    ground arith,
                    answer b h ∙ new,
                    ground arith,
                    ground arith,
                  ))
          ]
        ]
      ]

  abbrev pub AllListed : List MigrationFile → List Text → Type 0
  AllListed ms versions = Every (λ m. is_listed m.version versions ≡ true) ms

  head_listed : (v : Text) (vs : List Text) → is_listed v (v ∷ vs) ≡ true
  head_listed v vs = ground (arith, text_eq_refl v)

  kept_listed : (v w : Text) (vs : List Text) → is_listed v vs ≡ true → is_listed v (w ∷ vs) ≡ true
  kept_listed v w vs h = ground arith

  -- What is recorded stays so.
  migrate-keeps :
      (v : Text) (ms : List MigrationFile) (db : Migrated S)
      → is_listed v db.versions ≡ true
      → (migrate exec ms db).0 ≡ ok tt
      → is_listed v (migrate exec ms db).1.versions ≡ true
  unfolding migrate
  migrate-keeps v [] db had h = had
  migrate-keeps v (m ∷ ms) db had h = elim (round-cases m ms db) [
    | inl (e, db1, stopped) ↦ absurd (ground arith)
    | inr (inl (db1, on, old, versions, schema)) ↦ ground (
      arith,
      migrate-keeps v ms db1 (ap (is_listed v) versions ∙ had) (ap (λ w. w.0) (sym on) ∙ h),
    )
    | inr (inr (db1, on, new, ran, versions)) ↦ ground (
      arith,
      migrate-keeps v ms db1 (ap (is_listed v) versions ∙ kept_listed v m.version db.versions had)
          (ap (λ w. w.0) (sym on) ∙ h),
    )
  ]

  migrate-upgrade :
      (ms : List MigrationFile) (db : Migrated S)
      → (migrate exec ms db).0 ≡ ok tt
      → (upgrade ms db.versions db.schema
          ≡ some ((migrate exec ms db).1.versions, (migrate exec ms db).1.schema))
        × AllListed ms (migrate exec ms db).1.versions
  unfolding migrate
  migrate-upgrade [] db h = (refl, tt)
  migrate-upgrade (m ∷ ms) db h = elim (round-cases m ms db) [
    | inl (e, db1, stopped) ↦ absurd (ground arith)
    | inr (inl (db1, on, old, versions, schema)) ↦
        let (same, listed) = migrate-upgrade ms db1 (ap (λ w. w.0) (sym on) ∙ h) in
        let kept =
          migrate-keeps m.version ms db1 (ap (is_listed m.version) versions ∙ old)
            (ap (λ w. w.0) (sym on) ∙ h) in
        (ground (arith, same), subst (λ w. AllListed (m ∷ ms) w.1.versions) (sym on) (kept, listed))
    | inr (inr (db1, on, new, ran, versions)) ↦
        let (same, listed) = migrate-upgrade ms db1 (ap (λ w. w.0) (sym on) ∙ h) in
        let kept =
          migrate-keeps m.version ms db1
            (ap (is_listed m.version) versions ∙ head_listed m.version db.versions)
            (ap (λ w. w.0) (sym on) ∙ h) in
        (ground (arith, same), subst (λ w. AllListed (m ∷ ms) w.1.versions) (sym on) (kept, listed))
  ]

  -- Files that are all recorded change nothing.
  migrate-again :
      (ms : List MigrationFile) (db : Migrated S)
      → AllListed ms db.versions
      → ((migrate exec ms db).1.schema ≡ db.schema)
        × ((migrate exec ms db).1.versions ≡ db.versions)
  unfolding migrate
  migrate-again [] db listed = (refl, refl)
  migrate-again (m ∷ ms) db listed =
      let (versions, schema, answer) = migration_applied-keeps m.version db in
      let db1 = (migration_applied exec m.version db).1 in
      let (schema', versions') =
        migrate-again ms db1 (subst (AllListed ms) (sym versions) listed.1) in
      elim (Result-cases (migration_applied exec m.version db).0) [
        | inr (e, h) ↦ (ground arith, ground arith)
        | inl (b, h) ↦ elim (Bool-cases b) [
          | inl old ↦ (ground arith, ground arith)
          | inr new ↦ absurd (ground (arith, answer b h))
        ]
      ]

  -- Files that are all recorded are not executed: what they would do has no part in the run.
  migrate-ignores :
      (other : Text → S → Result S) (ms : List MigrationFile) (db : Migrated S)
      → AllListed ms db.versions
      → migrate other ms db ≡ migrate exec ms db
  unfolding migrate migration_applied
  migrate-ignores other [] db listed = refl
  migrate-ignores other (m ∷ ms) db listed =
      let (versions, schema, answer) = migration_applied-keeps m.version db in
      let db1 = (migration_applied exec m.version db).1 in
      let rest = migrate-ignores other ms db1 (subst (AllListed ms) (sym versions) listed.1) in
      elim (Option-cases (next db.answers).0) [
        | inl calm ↦ ground (arith, rest, listed.0)
        | inr (e, h) ↦ ground arith
      ]

  -- A run that ends without an error has executed the files whose version was not recorded, each
  -- once and in order, and all are recorded. A later run of the same files leaves the schema and the
  -- versions, with any errors of the database, and has the same result whatever the files would do:
  -- it executes none.
  pub migrate-once :
      (other : Text → S → Result S) (ms : List MigrationFile) (db : Migrated S)
      (later : List (Option Error)) {db' : Migrated S}
      → migrate exec ms db ≡ (ok tt, db')
      → (upgrade ms db.versions db.schema ≡ some (db'.versions, db'.schema))
        × AllListed ms db'.versions
        × ((migrate exec ms (record db' { answers = later })).1.schema ≡ db'.schema)
        × ((migrate exec ms (record db' { answers = later })).1.versions ≡ db'.versions)
        × (migrate other ms (record db' { answers = later })
            ≡ migrate exec ms (record db' { answers = later }))
  migrate-once other ms db later {db'} h =
      let (same, listed) = migrate-upgrade ms db (ap (λ w. w.0) h) in
      let recorded = subst (λ w. AllListed ms w.1.versions) h listed in
      let (schema, versions) = migrate-again ms (record db' { answers = later }) recorded in
      (
        ground (arith, same),
        recorded,
        schema,
        versions,
        migrate-ignores other ms (record db' { answers = later }) recorded,
      )
