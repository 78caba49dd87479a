-- ===== src/Migrations.antt =====
-- The migrations of the database (cmd/paycore-migrate/main.go). What a file's SQL does to the schema
-- is a parameter.
pub mod Applied
use paycore.Base.{
  ℕ, ◌==◌, Bool, true, false, Option, none, some, List, [], ◌∷◌, Result, ok, err, ltb,
  if◌then◌else◌,
}
use paycore.Base.Sort.{sort}
use paycore.Base.Stateful.{Stateful, pure, ◌>>=◌, ◌>>◌, next}
use paycore.Base.Text.{Text, text_lt}
use paycore.Database.{is_listed}
use paycore.Errors.{Error, unique_violation}

pub record MigrationFile : Type 0 where
  pub version : Text
  pub sql : Text

-- A file that the pattern finds: its path, the last element of it, and its content, none where
-- reading it fails.
pub record FoundFile : Type 0 where
  pub path : Text
  pub base : Text
  pub body : Option Text

-- The order of `sort.Strings`.
path_before : FoundFile → FoundFile → Bool
path_before a b = text_lt a.path b.path

read_all : Error → List FoundFile → Result (List MigrationFile)
read_all e [] = ok []
read_all e (x ∷ xs) = elim x.body [
  | none ↦ err e
  | some sql ↦ elim (read_all e xs) [
    | err e' ↦ err e'
    | ok files ↦ ok (record { version = x.base; sql = sql } ∷ files)
  ]
]

-- `e` is the error of a file that cannot be read.
unfoldable pub list_migrations : Error → List FoundFile → Result (List MigrationFile)
unfolding sort path_before text_lt read_all
list_migrations e found = read_all e (sort path_before found)

-- The database: its schema, the table schema_migrations, and what it answers to the next statements
-- of the program, no error past the end.
pub record Migrated (S : Type 0) : Type 0 where
  pub schema : S
  pub versions : List Text
  pub answers : List (Option Error)

-- `exec` runs the statements of a file, which change the schema or fail.
module _ {S : Type 0} (exec : Text → S → Result S) where
  abbrev answered : Stateful (Migrated S) (Unit {0})
  answered db =
      let (e, rest) = next db.answers in
      let db' = record db { answers = rest } in
      elim e [ none ↦ (ok tt, db') | some e ↦ (err e, db') ]

  abbrev executed : Text → Stateful (Migrated S) (Unit {0})
  executed sql db = elim (exec sql db.schema) [
    | err e ↦ (err e, db)
    | ok schema ↦ (ok tt, record db { schema = schema })
  ]

  abbrev record_version : Text → Stateful (Migrated S) (Unit {0})
  record_version version db =
      if is_listed version db.versions
      then (err unique_violation, db)
      else (ok tt, record db { versions = version ∷ db.versions })

  unfoldable pub migration_applied : Text → Stateful (Migrated S) Bool
  migration_applied version = do answered; λ db. (ok (is_listed version db.versions), db)

  -- The statements of the transaction, from BEGIN to COMMIT.
  unfoldable pub apply_statements : MigrationFile → Stateful (Migrated S) (Unit {0})
  apply_statements m = do
    answered
    answered
    executed m.sql
    answered
    record_version m.version
    answered

  -- A transaction that does not commit is rolled back.
  unfoldable pub apply_migration : MigrationFile → Stateful (Migrated S) (Unit {0})
  apply_migration m db =
      let (r, db') = apply_statements m db in
      elim r [
        | ok _ ↦ (ok tt, db')
        | err e ↦
            (err e, record { schema = db.schema; versions = db.versions; answers = db'.answers })
      ]

  -- The loop of `main`; an error ends the program.
  unfoldable pub migrate : List MigrationFile → Stateful (Migrated S) (Unit {0})
  migrate [] db = (ok tt, db)
  migrate (m ∷ ms) db =
      let (applied, db1) = migration_applied m.version db in
      elim applied [
        | err e ↦ (err e, db1)
        | ok true ↦ migrate ms db1
        | ok false ↦
            let (r, db2) = apply_migration m db1 in
            elim r [ err e ↦ (err e, db2) | ok _ ↦ migrate ms db2 ]
      ]
