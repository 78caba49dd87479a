-- ===== src/Idempotency/Store.antt =====
-- The in-memory repository of idempotency records
-- (internal/idempotency/adapters/memory/repository.go). The first argument of an operation is what
-- `ctx.Err()` returns. `cloneRecord` copies a body that has no other alias here.
use paycore.Base.{Option, none, some, Result, ok, err}
use paycore.Base.Dict.{Dict, lookup, insert}
use paycore.Base.Text.{Text}
use paycore.Errors.{Error, duplicate_key, record_not_found}
use paycore.Idempotency.{Record}

abbrev pub Store : Type 0
Store = Dict Record

unfoldable pub create_record : Option Error → Record → Store → Result Record × Store
create_record (some e) r s = (err e, s)
create_record none r s = elim (lookup r.key s) [
  | some _ ↦ (err duplicate_key, s)
  | none ↦ (ok r, insert r.key r s)
]

unfoldable pub get_record : Option Error → Text → Store → Result Record × Store
get_record (some e) key s = (err e, s)
get_record none key s = elim (lookup key s) [
  | none ↦ (err record_not_found, s)
  | some r ↦ (ok r, s)
]

unfoldable pub update_record : Option Error → Record → Store → Result Record × Store
update_record (some e) r s = (err e, s)
update_record none r s = elim (lookup r.key s) [
  | none ↦ (err record_not_found, s)
  | some _ ↦ (ok r, insert r.key r s)
]
