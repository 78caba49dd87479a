-- ===== src/Idempotency/Postgres.antt =====
-- The PostgreSQL repository of idempotency records
-- (internal/idempotency/adapters/postgres/repository.go) on the table idempotency_records.
use mathlib.Core.Path.{subst₂}
use paycore.Base.{◌≡◌, Option, none, some, Result, ok, err, inl, inr, arith, Option-cases}
use paycore.Base.Dict.{Dict, lookup, insert, lookup-insert}
use paycore.Base.Text.{Text}
use paycore.Database.{Columns}
use paycore.Errors.{Error, duplicate_key, record_not_found}
use paycore.Idempotency.{Record}
use paycore.Idempotency.Store.{create_record, get_record, update_record}

module _ ⦃c : Columns⦄ where
  abbrev pub kept_record : Record → Record
  kept_record r = record r {
    created_at = c.timestamptz r.created_at;
    updated_at = c.timestamptz r.updated_at;
    expires_at = c.timestamptz r.expires_at;
  }

  unfoldable pub create_record_row :
      Option Error → Record → Dict Record → Result Record × Dict Record
  create_record_row (some e) r t = (err e, t)
  create_record_row none r t = elim (lookup r.key t) [
    | some _ ↦ (err duplicate_key, t)
    | none ↦ (ok (kept_record r), insert r.key (kept_record r) t)
  ]

  unfoldable pub get_record_row : Option Error → Text → Dict Record → Result Record × Dict Record
  get_record_row (some e) key t = (err e, t)
  get_record_row none key t = elim (lookup key t) [
    | some r ↦ (ok r, t)
    | none ↦ (err record_not_found, t)
  ]

  -- created_at is not among the columns that are set.
  unfoldable pub update_record_row :
      Option Error → Record → Dict Record → Result Record × Dict Record
  update_record_row (some e) r t = (err e, t)
  update_record_row none r t = elim (lookup r.key t) [
    | none ↦ (err record_not_found, t)
    | some row ↦
        let r' : Record = record (kept_record r) { created_at = row.created_at } in
        (ok r', insert r.key r' t)
  ]

  abbrev pub kept_record_option : Option Record → Option Record
  kept_record_option none = none
  kept_record_option (some r) = some (kept_record r)

  abbrev pub kept_record_result : Result Record → Result Record
  kept_record_result (ok r) = ok (kept_record r)
  kept_record_result (err e) = err e

  -- The table holds what the columns keep of the repository.
  pub record AgreesWith (s t : Dict Record) : Type 0 where
    pub at : (k : Text) → lookup k t ≡ kept_record_option (lookup k s)

  written-AgreesWith :
      (r : Record) (s t : Dict Record)
      → AgreesWith s t
      → AgreesWith (insert r.key r s) (insert r.key (kept_record r) t)
  written-AgreesWith r s t a = record {
    at = λ k.
        ground (arith, lookup-insert k r.key r s, lookup-insert k r.key (kept_record r) t, a.at k);
  }

  pub create_record_row-refines :
      (e : Option Error) (r : Record) (s t : Dict Record)
      → AgreesWith s t
      → ((create_record_row e r t).0 ≡ kept_record_result (create_record e r s).0)
        × AgreesWith (create_record e r s).1 (create_record_row e r t).1
  unfolding create_record_row create_record
  create_record_row-refines (some x) r s t a = (ground arith, a)
  create_record_row-refines none r s t a = elim (Option-cases (lookup r.key s)) [
    | inl n ↦
        let at : lookup r.key t ≡ none = ground (arith, a.at r.key) in
        (ground arith, subst₂ AgreesWith (ground arith) (ground arith) (written-AgreesWith r s t a))
    | inr (q, found) ↦
        let at : lookup r.key t ≡ some (kept_record q) = ground (arith, a.at r.key) in
        (ground arith, subst₂ AgreesWith (ground arith) (ground arith) a)
  ]

  update_record_row-refines :
      (e : Option Error) (r : Record) (s t : Dict Record)
      → AgreesWith s t
      → ((q : Record) → lookup r.key s ≡ some q → r.created_at ≡ q.created_at)
      → ((update_record_row e r t).0 ≡ kept_record_result (update_record e r s).0)
        × AgreesWith (update_record e r s).1 (update_record_row e r t).1
  unfolding update_record_row update_record
  update_record_row-refines (some x) r s t a kept = (ground arith, a)
  update_record_row-refines none r s t a kept = elim (Option-cases (lookup r.key s)) [
    | inl n ↦
        let at : lookup r.key t ≡ none = ground (arith, a.at r.key) in
        (ground arith, subst₂ AgreesWith (ground arith) (ground arith) a)
    | inr (q, found) ↦
        let at : lookup r.key t ≡ some (kept_record q) = ground (arith, a.at r.key) in
        let made = kept q found in
        (ground arith, subst₂ AgreesWith (ground arith) (ground arith) (written-AgreesWith r s t a))
  ]

  get_record_row-refines :
      (e : Option Error) (key : Text) (s t : Dict Record)
      → AgreesWith s t
      → (get_record_row e key t).0 ≡ kept_record_result (get_record e key s).0
  unfolding get_record_row get_record
  get_record_row-refines (some x) key s t a = ground arith
  get_record_row-refines none key s t a = ground (arith, a.at key)

  -- With the same error of the environment or none, insertions of any record, queries of any key and
  -- updates that leave the time of creation of the stored record answer what the columns keep of the
  -- answers of the in-memory repository, and the table and the repository go on agreeing.
  pub record_rows-refine :
      (e : Option Error) (new r : Record) (key : Text) (s t : Dict Record)
      → AgreesWith s t
      → ((q : Record) → lookup r.key s ≡ some q → r.created_at ≡ q.created_at)
      → (((create_record_row e new t).0 ≡ kept_record_result (create_record e new s).0)
          × AgreesWith (create_record e new s).1 (create_record_row e new t).1)
        × (((update_record_row e r t).0 ≡ kept_record_result (update_record e r s).0)
            × AgreesWith (update_record e r s).1 (update_record_row e r t).1)
        × ((get_record_row e key t).0 ≡ kept_record_result (get_record e key s).0)
  record_rows-refine e new r key s t a kept = (
    create_record_row-refines e new s t a,
    update_record_row-refines e r s t a kept,
    get_record_row-refines e key s t a,
  )
