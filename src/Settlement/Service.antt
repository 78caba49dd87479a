-- ===== src/Settlement/Service.antt =====
-- The settlement service (internal/settlement/service.go) over the PostgreSQL repositories. The
-- argument `now` is what `s.now()` returns.
pub mod Writes
pub mod Metrics
use paycore.Base.{
  ℕ, ◌+◌, ◌*◌, ◌≡◌, Bool, Option, none, some, List, [], ◌∷◌, ◌++◌, length, Result, ok, err, length,
  if◌then◌else◌,
}
use paycore.Base.Dict.{Dict, lookup, insert}
use paycore.Base.Int.{ℤ, pos, pos_part, leb_ℤ}
use paycore.Base.Text.{Text, codes, is_empty}
use paycore.Currency.{Unicode}
use paycore.Database.{Columns}
use paycore.Errors.{Error}
use paycore.Id.{new_id, setbat, setitem}
use paycore.Outbox.{Event, Payload, payment_settled, new_event}
use paycore.Outbox.Postgres.{create_event_row}
use paycore.Payment.{Payment, Hold, settle}
use paycore.Payment.Postgres.{PaymentRow, get_payment_row, update_payment_row}
use paycore.Settlement.{
  Batch, BatchStatus, LineItem, new_batch, start_processing, complete_batch, new_line_item,
}
use paycore.Settlement.Postgres.{
  ClaimedPayment, ClaimCapturedPaymentsInput, create_batch_row, update_batch_row,
  list_stale_processing_batches, claim_captured_payments, list_claimed_payments, create_line_item,
}
use paycore.World.{
  Env, Stateful, Transactor, within_tx, ◌>>=◌, ◌>>◌, pure, lift, draw, next, locked_rows,
}

-- The tables that the service reads and writes.
pub record Tables : Type 0 where
  pub payments : Dict PaymentRow
  pub batches : Dict Batch
  pub items : Dict LineItem
  pub events : Dict Event

abbrev pub Call : Type 0 → Type 0
Call = Stateful (Env Tables)

-- One statement on one table.
abbrev pub on_payment_rows :
    {A : Type 0} → (Option Error → Dict PaymentRow → Result A × Dict PaymentRow) → Call A
on_payment_rows op w =
    let (e, rest) = next w.ctx in
    let (r, t) = op e w.stores.payments in
    (r, record w { stores = record (w.stores) { payments = t }; ctx = rest })

abbrev pub on_batches : {A : Type 0} → (Option Error → Dict Batch → Result A × Dict Batch) → Call A
on_batches op w =
    let (e, rest) = next w.ctx in
    let (r, t) = op e w.stores.batches in
    (r, record w { stores = record (w.stores) { batches = t }; ctx = rest })

abbrev pub on_items :
    {A : Type 0} → (Option Error → Dict LineItem → Result A × Dict LineItem) → Call A
on_items op w =
    let (e, rest) = next w.ctx in
    let (r, t) = op e w.stores.items in
    (r, record w { stores = record (w.stores) { items = t }; ctx = rest })

abbrev pub on_event_rows :
    {A : Type 0} → (Option Error → Dict Event → Result A × Dict Event) → Call A
on_event_rows op w =
    let (e, rest) = next w.ctx in
    let (r, t) = op e w.stores.events in
    (r, record w { stores = record (w.stores) { events = t }; ctx = rest })

abbrev pub in_tx : Call Bool
in_tx w = (ok w.in_tx, w)

pub record SettlementService : Type 0 where
  pub worker_id : Text
  pub claim_limit : ℤ
  pub lock_ttl : ℤ

abbrev pub five_minutes : ℤ
five_minutes = pos (5 * 60 * 1000000000)

-- The defaults of `NewService`.
unfoldable pub new_settlement_service : Text → ℤ → ℤ → SettlementService
new_settlement_service worker_id claim_limit lock_ttl = record {
  worker_id = if is_empty worker_id then codes "settlement-worker" else worker_id;
  claim_limit = if leb_ℤ claim_limit (pos 0) then pos 100 else claim_limit;
  lock_ttl = if leb_ℤ lock_ttl (pos 0) then five_minutes else lock_ttl;
}

pub record CreateBatchInput : Type 0 where
  pub window_start : ℕ
  pub window_end : ℕ

pub record CreateBatchResult : Type 0 where
  pub batch : Batch
  pub line_items : List LineItem
  pub payments : List Payment

-- `payment_counts` is `batchPaymentCounts`, which stands beside the result.
pub record RecoverStaleBatchesResult : Type 0 where
  pub batches : List Batch
  pub line_items : List LineItem
  pub payments : List Payment
  pub payment_counts : List ℕ

module _ ⦃u : Unicode⦄ ⦃c : Columns⦄ where
  -- The body of the loop in `settleClaimedPayments`.
  unfoldable pub settle_one : Text → ℕ → ClaimedPayment → Call (LineItem × Payment)
  settle_one batch_id now claimed = do
    payment ← on_payment_rows λ e. get_payment_row e claimed.payment_id
    settled ← lift (settle payment now)
    settled' ← on_payment_rows λ e. update_payment_row e settled
    bytes ← draw
    item_id ← lift (new_id setitem bytes)
    item ← lift (
        new_line_item now (record {
          id = item_id;
          batch_id = batch_id;
          merchant_id = claimed.merchant_id;
          payment_id = claimed.payment_id;
          amount = claimed.amount;
          fee_amount = pos 0;
          currency = claimed.currency;
          payment_captured = claimed.captured_at;
          now = now;
        }))
    item' ← on_items λ e. create_line_item e item
    more ← draw
    event ← lift (
        new_event
          (record {
            aggregate_type = codes "payment";
            aggregate_id = settled'.id;
            event_type = codes "payment.settled";
            payload =
                payment_settled settled'.id settled'.merchant_id settled'.payer_id batch_id
                  settled'.amount settled'.currency now;
            now = now;
          })
          more)
    on_event_rows λ e. create_event_row e event
    pure (item', settled')

  -- The loop; it stops at the first error.
  unfoldable pub settle_claimed_payments :
      Text → ℕ → List ClaimedPayment → Call (List LineItem × List Payment)
  settle_claimed_payments batch_id now [] = pure ([], [])
  settle_claimed_payments batch_id now (claimed ∷ rest) = do
    one ← settle_one batch_id now claimed
    others ← settle_claimed_payments batch_id now rest
    pure (one.0 ∷ others.0, one.1 ∷ others.1)

  -- The part of `CreateBatch` that stores the batch.
  unfoldable pub insert_batch : ℕ → CreateBatchInput → Call Batch
  insert_batch now input = do
    bytes ← draw
    batch_id ← lift (new_id setbat bytes)
    batch ← lift (
        new_batch now (record {
          id = batch_id;
          window_start = input.window_start;
          window_end = input.window_end;
          now = now;
        }))
    on_batches λ e. create_batch_row e batch

  -- The part of both calls that locks a batch for this worker.
  unfoldable pub lock_batch : SettlementService → ℕ → Batch → Call Batch
  lock_batch v now batch = do
    started ← lift (start_processing batch v.worker_id (now + pos_part v.lock_ttl) now)
    on_batches λ e. update_batch_row e started

  -- The part after the claim, which is the same in both calls.
  unfoldable pub settle_batch : ℕ → Batch → List ClaimedPayment → Call CreateBatchResult
  settle_batch now batch claimed = do
    settled ← settle_claimed_payments batch.id now claimed
    completed ← lift (complete_batch batch now)
    batch' ← on_batches λ e. update_batch_row e completed
    pure (record { batch = batch'; line_items = settled.0; payments = settled.1 })

  unfoldable pub claim_for : SettlementService → ℕ → Batch → Call (List ClaimedPayment)
  claim_for v now batch = do
    tx ← in_tx
    locked ← locked_rows
    on_payment_rows λ e. claim_captured_payments tx e locked (record {
      batch_id = batch.id;
      window_start = batch.window_start;
      window_end = batch.window_end;
      limit = v.claim_limit;
      now = now;
    })

  unfoldable pub create_batch_tx : SettlementService → ℕ → CreateBatchInput → Call CreateBatchResult
  create_batch_tx v now input = do
    inserted ← insert_batch now input
    batch ← lock_batch v now inserted
    claimed ← claim_for v now batch
    settle_batch now batch claimed

  unfoldable pub create_batch :
      Transactor → SettlementService → ℕ → CreateBatchInput → Call CreateBatchResult
  create_batch tx v now input = within_tx tx (create_batch_tx v now input)

  -- The body of the loop in `RecoverStaleBatches`.
  unfoldable pub recover_one : SettlementService → ℕ → Batch → Call CreateBatchResult
  recover_one v now stale = do
    batch ← lock_batch v now stale
    claimed ← on_payment_rows λ e. list_claimed_payments e batch.id
    settle_batch now batch claimed

  unfoldable pub recover_all : SettlementService → ℕ → List Batch → Call RecoverStaleBatchesResult
  recover_all v now [] =
      pure (record { batches = []; line_items = []; payments = []; payment_counts = [] })
  recover_all v now (stale ∷ rest) = do
    one ← recover_one v now stale
    others ← recover_all v now rest
    pure (record {
      batches = one.batch ∷ others.batches;
      line_items = one.line_items ++ others.line_items;
      payments = one.payments ++ others.payments;
      payment_counts = length one.payments ∷ others.payment_counts;
    })

  unfoldable pub recover_tx : SettlementService → ℕ → ℤ → Call RecoverStaleBatchesResult
  recover_tx v now limit = do
    locked ← locked_rows
    let limit' = if leb_ℤ limit (pos 0) then v.claim_limit else limit
    stale ← on_batches λ e. list_stale_processing_batches e locked now limit'
    recover_all v now stale

  unfoldable pub recover_stale_batches :
      Transactor → SettlementService → ℕ → ℤ → Call RecoverStaleBatchesResult
  recover_stale_batches tx v now limit = within_tx tx (recover_tx v now limit)
