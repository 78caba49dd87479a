-- ===== src/Settlement/Books/Calls.antt =====
-- The calls of the settlement service keep the books.
use mathlib.Core.Path.{subst}
use paycore.Base.{
  ℕ, ◌≡◌, sym, Option, List, [], ◌∷◌, ◌++◌, ok, inl, inr, arith, Option-cases, Bool-cases,
  if◌then◌else◌, length,
}
use paycore.Base.Dict.{
  filter_values, Dict, insert, insert-IsMap, lookup-insert, IsMap-listed, All-map,
}
use paycore.Base.Every.{Every, take-Every, sort-Every, filter_values-Every}
use paycore.Base.Int.{ℤ, pos, pos_part, leb_ℤ}
use paycore.Base.Text.{Text, trim_space, trim_space_idem}
use paycore.Base.Sort.{sort, take}
use paycore.Errors.{Error}
use paycore.Currency.{Unicode}
use paycore.Database.{Columns}
use paycore.Payment.{Payment}
use paycore.Settlement.{Batch, LineItem, new_batch, start_processing, complete_batch}
use paycore.Settlement.Postgres.{
  ClaimedPayment, create_batch_row, update_batch_row, list_claimed_payments,
  list_stale_processing_batches, is_stale_row, lock_before,
}
use paycore.Settlement.Service.{
  Tables, SettlementService, CreateBatchInput, CreateBatchResult, RecoverStaleBatchesResult, Call,
  insert_batch, lock_batch, claim_for, settle_batch, settle_claimed_payments, create_batch_tx,
  recover_one, recover_all, recover_tx, on_batches, on_payment_rows,
}
use paycore.Settlement.Books.{IsBalanced, IsBatches, Claimed}
use paycore.Settlement.Books.Claim.{
  claim_captured_payments-IsBalanced, list_claimed_payments-Claimed,
}
use paycore.Settlement.Books.Settle.{settle_claimed_payments-IsBalanced}
use paycore.World.{Env, next, listed, pure, lift, ◌>>=◌}
use paycore.World.Run.{>>=-eq-ok}

insert-IsBatches :
    (b : Batch) (d : Dict Batch)
    → trim_space b.id ≡ b.id
    → IsBatches d
    → IsBatches (insert b.id b d)
insert-IsBatches b d trimmed i = record {
  is_map = insert-IsMap b.id b d i.is_map;
  keyed = λ k x e. ground (arith, lookup-insert k b.id b d, i.keyed k x);
}

with_batches-IsBalanced :
    (t : Tables) (d : Dict Batch)
    → IsBalanced t
    → IsBatches d
    → IsBalanced (record t { batches = d })
with_batches-IsBalanced t d b i = record {
  batches = i;
  rows_map = b.rows_map;
  rows = b.rows;
  items = b.items;
  billed = b.billed;
  once = b.once;
  settled = b.settled;
}

-- The tables after one batch is written.
abbrev pub with_batch : Tables → Batch → Tables
with_batch t b = record t { batches = insert b.id b t.batches }

pub with_batch-IsBalanced :
    (t t' : Tables) (b : Batch)
    → t' ≡ with_batch t b
    → trim_space b.id ≡ b.id
    → IsBalanced t
    → IsBalanced t'
with_batch-IsBalanced t t' b written trimmed i = subst IsBalanced (sym written) (
    with_batches-IsBalanced t (insert b.id b t.batches) i
      (insert-IsBatches b t.batches trimmed i.batches))

module _ ⦃u : Unicode⦄ ⦃c : Columns⦄ (v : SettlementService) (now : ℕ) where
  pub insert_batch-writes :
      (input : CreateBatchInput) (w : Env Tables) {b : Batch} {w' : Env Tables}
      → insert_batch now input w ≡ (ok b, w')
      → (w'.stores ≡ with_batch w.stores b) × (trim_space b.id ≡ b.id)
  unfolding insert_batch new_batch create_batch_row
  insert_batch-writes input w {b} {w'} h = grind (arith, trim_space_idem)

  pub lock_batch-writes :
      (b : Batch) (w : Env Tables) {b' : Batch} {w' : Env Tables}
      → lock_batch v now b w ≡ (ok b', w')
      → (w'.stores ≡ with_batch w.stores b') × (b'.id ≡ b.id)
  unfolding lock_batch start_processing update_batch_row
  lock_batch-writes b w {b'} {w'} h = ground arith

  pub claim_for-claims :
      (b : Batch) (w : Env Tables) {cs : List ClaimedPayment} {w' : Env Tables}
      → claim_for v now b w ≡ (ok cs, w')
      → IsBalanced w.stores
      → IsBalanced w'.stores × Every (Claimed b.id w'.stores.payments) cs
  unfolding claim_for
  claim_for-claims b w {cs} {w'} h i =
      let (balanced, claims) =
        claim_captured_payments-IsBalanced (listed (next w.locked).0)
          (record {
            batch_id = b.id;
            window_start = b.window_start;
            window_end = b.window_end;
            limit = v.claim_limit;
            now = now;
          })
          w.in_tx (next w.ctx).0 w.stores {cs = cs} {payments = w'.stores.payments} i
          (ground arith) in
      let same : record (w.stores) { payments = w'.stores.payments } ≡ w'.stores = ground arith in
      (subst IsBalanced same balanced, claims)

  -- What is left once the claims are settled.
  abbrev pub close_batch : Batch → List LineItem × List Payment → Call CreateBatchResult
  close_batch b settled = lift (complete_batch b now) >>= λ completed.
      on_batches (λ e. update_batch_row e completed) >>= λ b'.
      pure (record { batch = b'; line_items = settled.0; payments = settled.1 })

  pub close_batch-writes :
      (b : Batch) (settled : List LineItem × List Payment) (w : Env Tables) {r : CreateBatchResult}
      {w' : Env Tables}
      → close_batch b settled w ≡ (ok r, w')
      → (w'.stores ≡ with_batch w.stores r.batch) × (r.batch.id ≡ b.id)
  unfolding complete_batch update_batch_row
  close_batch-writes b settled w {r} {w'} h = ground arith

  settle_batch-IsBalanced :
      (b : Batch) (cs : List ClaimedPayment) (w : Env Tables) {r : CreateBatchResult}
      {w' : Env Tables}
      → settle_batch now b cs w ≡ (ok r, w')
      → trim_space b.id ≡ b.id
      → IsBalanced w.stores
      → Every (Claimed b.id w.stores.payments) cs
      → IsBalanced w'.stores
  unfolding settle_batch
  settle_batch-IsBalanced b cs w {r} {w'} h trimmed i claims =
      let (settled, z, e, close) =
        >>=-eq-ok (settle_claimed_payments b.id now cs) (close_batch b) w h in
      let (written, same) = close_batch-writes b settled z close in
      with_batch-IsBalanced z.stores w'.stores r.batch written (ground arith)
        (settle_claimed_payments-IsBalanced b.id trimmed now cs w e i claims)

  pub create_batch_tx-IsBalanced :
      (input : CreateBatchInput) (w : Env Tables) {r : CreateBatchResult} {w' : Env Tables}
      → create_batch_tx v now input w ≡ (ok r, w')
      → IsBalanced w.stores
      → IsBalanced w'.stores
  unfolding create_batch_tx
  create_batch_tx-IsBalanced input w {r} {w'} h i =
      let (x, w1, e1, h1) =
        >>=-eq-ok (insert_batch now input)
          (λ x. lock_batch v now x >>= λ b. claim_for v now b >>= settle_batch now b) w h in
      let (b, w2, e2, h2) =
        >>=-eq-ok (lock_batch v now x) (λ b. claim_for v now b >>= settle_batch now b) w1 h1 in
      let (cs, w3, e3, h3) = >>=-eq-ok (claim_for v now b) (settle_batch now b) w2 h2 in
      let (written, trimmed) = insert_batch-writes input w e1 in
      let (written', same) = lock_batch-writes x w1 e2 in
      let kept : trim_space b.id ≡ b.id = ground arith in
      let opened = with_batch-IsBalanced w.stores w1.stores x written trimmed i in
      let locked = with_batch-IsBalanced w1.stores w2.stores b written' kept opened in
      let (balanced, claims) = claim_for-claims b w2 e3 locked in
      settle_batch-IsBalanced b cs w3 h3 kept balanced claims

  -- The query of the claims writes nothing.
  abbrev claims_of : Batch → Call (List ClaimedPayment)
  claims_of b = on_payment_rows λ e. list_claimed_payments e b.id

  claims_of-claims :
      (b : Batch) (w : Env Tables) {cs : List ClaimedPayment} {w' : Env Tables}
      → claims_of b w ≡ (ok cs, w')
      → IsBalanced w.stores
      → IsBalanced w'.stores × Every (Claimed b.id w'.stores.payments) cs
  unfolding list_claimed_payments
  claims_of-claims b w {cs} {w'} h i =
      let same : w.stores ≡ w'.stores = ground arith in
      let read : (list_claimed_payments (next w.ctx).0 b.id w.stores.payments).0 ≡ ok cs =
        ground arith in
      (
        subst IsBalanced same i,
        subst (λ (t : Tables). Every (Claimed b.id t.payments) cs) same
            (list_claimed_payments-Claimed b.id (next w.ctx).0 w.stores i read),
      )

  recover_one-IsBalanced :
      (stale : Batch) (w : Env Tables) {r : CreateBatchResult} {w' : Env Tables}
      → recover_one v now stale w ≡ (ok r, w')
      → trim_space stale.id ≡ stale.id
      → IsBalanced w.stores
      → IsBalanced w'.stores
  unfolding recover_one
  recover_one-IsBalanced stale w {r} {w'} h trimmed i =
      let (b, w1, e1, h1) =
        >>=-eq-ok (lock_batch v now stale) (λ b. claims_of b >>= settle_batch now b) w h in
      let (cs, w2, e2, h2) = >>=-eq-ok (claims_of b) (settle_batch now b) w1 h1 in
      let (written, same) = lock_batch-writes stale w e1 in
      let kept : trim_space b.id ≡ b.id = ground arith in
      let locked = with_batch-IsBalanced w.stores w1.stores b written kept i in
      let (balanced, claims) = claims_of-claims b w1 e2 locked in
      settle_batch-IsBalanced b cs w2 h2 kept balanced claims

  abbrev append_result : CreateBatchResult → RecoverStaleBatchesResult → RecoverStaleBatchesResult
  append_result one others = record {
    batches = one.batch ∷ others.batches;
    line_items = one.line_items ++ others.line_items;
    payments = one.payments ++ others.payments;
    payment_counts = length one.payments ∷ others.payment_counts;
  }

  abbrev IsTrimmed : Batch → Type 0
  IsTrimmed b = trim_space b.id ≡ b.id

  recover_all-IsBalanced :
      (bs : List Batch) (w : Env Tables) {r : RecoverStaleBatchesResult} {w' : Env Tables}
      → recover_all v now bs w ≡ (ok r, w')
      → Every IsTrimmed bs
      → IsBalanced w.stores
      → IsBalanced w'.stores
  unfolding recover_all
  recover_all-IsBalanced [] w {r} {w'} h trimmed i =
      let same : w ≡ w' = cc in subst (λ (z : Env Tables). IsBalanced z.stores) same i
  recover_all-IsBalanced (b ∷ bs) w {r} {w'} h trimmed i =
      let (one, w1, e1, h1) =
        >>=-eq-ok (recover_one v now b)
          (λ one. recover_all v now bs >>= λ os. pure (append_result one os)) w h in
      let (others, w2, e2, h2) =
        >>=-eq-ok (recover_all v now bs) (λ os. pure (append_result one os)) w1 h1 in
      let i' =
        recover_all-IsBalanced bs w1 e2 trimmed.1 (recover_one-IsBalanced b w e1 trimmed.0 i) in
      let same : w2 ≡ w' = cc in subst (λ (z : Env Tables). IsBalanced z.stores) same i'

  stale-IsTrimmed :
      (e : Option Error) (locked : List Text) (limit : ℤ) (t : Dict Batch) {bs : List Batch}
      → IsBatches t
      → (list_stale_processing_batches e locked now limit t).0 ≡ ok bs
      → Every IsTrimmed bs
  unfolding list_stale_processing_batches
  stale-IsTrimmed e locked limit t {bs} i h =
      let every : Every IsTrimmed
          (take (pos_part limit) (sort lock_before (filter_values (is_stale_row now locked) t))) =
        take-Every IsTrimmed (pos_part limit) _ (
          sort-Every IsTrimmed lock_before _ (
            filter_values-Every IsTrimmed (is_stale_row now locked) t (
              All-map t (λ k b found. λ passes. ground (arith, i.keyed k b))
                (IsMap-listed t i.is_map)))) in
      elim (Bool-cases (leb_ℤ limit (pos 0))) [
        | inl none_asked ↦ let same : [] ≡ bs = ground arith in subst (Every IsTrimmed) same tt
        | inr asked ↦ elim (Option-cases e) [
          | inr (x, fault) ↦ absurd (ground arith)
          | inl calm ↦
              let same : take (pos_part limit)
                    (sort lock_before (filter_values (is_stale_row now locked) t))
                  ≡ bs =
                ground arith in
              subst (Every IsTrimmed) same every
        ]
      ]

  abbrev asked_limit : ℤ → ℤ
  asked_limit limit = if leb_ℤ limit (pos 0) then v.claim_limit else limit

  abbrev stale_of : List Text → ℤ → Call (List Batch)
  stale_of locked limit =
      on_batches λ e. list_stale_processing_batches e locked now (asked_limit limit)

  stale_of-stores :
      (locked : List Text) (limit : ℤ) (w : Env Tables) {bs : List Batch} {w' : Env Tables}
      → stale_of locked limit w ≡ (ok bs, w')
      → w.stores ≡ w'.stores
  unfolding list_stale_processing_batches
  stale_of-stores locked limit w h = ground arith

  pub recover_tx-IsBalanced :
      (limit : ℤ) (w : Env Tables) {r : RecoverStaleBatchesResult} {w' : Env Tables}
      → recover_tx v now limit w ≡ (ok r, w')
      → IsBalanced w.stores
      → IsBalanced w'.stores
  unfolding recover_tx
  recover_tx-IsBalanced limit w {r} {w'} h i =
      let locked = listed (next w.locked).0 in
      let w0 : Env Tables = record w { locked = (next w.locked).1 } in
      let (bs, w1, e1, h1) = >>=-eq-ok (stale_of locked limit) (recover_all v now) w0 h in
      let same : w0.stores ≡ w1.stores = stale_of-stores locked limit w0 e1 in
      let read : (list_stale_processing_batches (next w.ctx).0 locked now (asked_limit limit)
            w.stores.batches).0
          ≡ ok bs =
        ground arith in
      recover_all-IsBalanced bs w1 h1
        (stale-IsTrimmed (next w.ctx).0 locked (asked_limit limit) w.stores.batches i.batches read)
        (subst IsBalanced same i)
