-- ===== src/Settlement.antt =====
-- Settlement batches and their line items (internal/settlement/entity.go).
pub mod Postgres
pub mod Window
pub mod Run
pub mod Service
pub mod Books
pub mod Lifecycle
use paycore.Base.{
  ℕ, Bool, true, false, not, ◌&&◌, Option, none, some, ltb, ◌==◌, Result, ok, ◌>>=◌, ◌>>◌, fail_if,
  if◌then◌else◌,
}
use paycore.Base.Int.{ℤ, pos, leb_ℤ, ltb_ℤ, sub_int64}
use paycore.Base.Text.{Text, is_empty, trim_space}
use paycore.Currency.{Unicode, normalize_currency, is_valid_currency}
use paycore.Errors.{
  batch_id_required, invalid_settlement_window, worker_id_required, invalid_batch_status,
  lock_not_after_now, error_message_required, line_item_id_required, merchant_id_required,
  payment_id_required, invalid_line_item_amount, fee_negative, fee_exceeds_amount,
  invalid_settlement_currency,
}

pub data BatchStatus : Type 0 where
  created processing completed failed : BatchStatus

pub record Batch : Type 0 where
  pub id : Text
  pub status : BatchStatus
  pub window_start : ℕ
  pub window_end : ℕ
  pub claimed_by : Option Text
  pub locked_until : Option ℕ
  pub completed_at : Option ℕ
  pub last_error : Option Text
  pub created_at : ℕ
  pub updated_at : ℕ

pub record NewBatchInput : Type 0 where
  pub id : Text
  pub window_start : ℕ
  pub window_end : ℕ
  pub now : ℕ

-- The first argument is the clock that is read where the input's time is the zero time.
unfoldable pub new_batch : ℕ → NewBatchInput → Result Batch
new_batch clock input = do
  let id = trim_space input.id
  fail_if (is_empty id) batch_id_required
  fail_if (not (ltb input.window_start input.window_end)) invalid_settlement_window
  let now = if input.now == 0 then clock else input.now
  ok (record {
    id = id;
    status = created;
    window_start = input.window_start;
    window_end = input.window_end;
    claimed_by = none;
    locked_until = none;
    completed_at = none;
    last_error = none;
    created_at = now;
    updated_at = now;
  })

-- `Status == BatchStatusCreated || Status == BatchStatusFailed`
abbrev pub is_startable : BatchStatus → Bool
is_startable created = true
is_startable failed = true
is_startable _ = false

abbrev pub is_processing : BatchStatus → Bool
is_processing processing = true
is_processing _ = false

abbrev pub is_due_lock : Option ℕ → ℕ → Bool
is_due_lock none now = false
is_due_lock (some until) now = not (ltb now until)

unfoldable pub is_stale : Batch → ℕ → Bool
is_stale b now = is_processing b.status && is_due_lock b.locked_until now

unfoldable pub start_processing : Batch → Text → ℕ → ℕ → Result Batch
unfolding is_stale
start_processing b worker_id locked_until now = do
  let worker = trim_space worker_id
  fail_if (is_empty worker) worker_id_required
  fail_if (not (is_startable b.status) && not (is_stale b now)) invalid_batch_status
  fail_if (not (ltb now locked_until)) lock_not_after_now
  ok (record b {
    status = processing;
    claimed_by = some worker;
    locked_until = some locked_until;
    last_error = none;
    updated_at = now;
  })

unfoldable pub complete_batch : Batch → ℕ → Result Batch
complete_batch b now = do
  fail_if (not (is_processing b.status)) invalid_batch_status
  ok (record b {
    status = completed;
    completed_at = some now;
    locked_until = none;
    last_error = none;
    updated_at = now;
  })

unfoldable pub fail_batch : Batch → Text → ℕ → Result Batch
fail_batch b error_message now = do
  fail_if (not (is_processing b.status)) invalid_batch_status
  let message = trim_space error_message
  fail_if (is_empty message) error_message_required
  ok (record b {
    status = failed;
    locked_until = none;
    last_error = some message;
    updated_at = now;
  })

pub record LineItem : Type 0 where
  pub id : Text
  pub batch_id : Text
  pub merchant_id : Text
  pub payment_id : Text
  pub amount : ℤ
  pub fee_amount : ℤ
  pub net_amount : ℤ
  pub currency : Text
  pub payment_captured : ℕ
  pub created_at : ℕ

pub record NewLineItemInput : Type 0 where
  pub id : Text
  pub batch_id : Text
  pub merchant_id : Text
  pub payment_id : Text
  pub amount : ℤ
  pub fee_amount : ℤ
  pub currency : Text
  pub payment_captured : ℕ
  pub now : ℕ

unfoldable pub new_line_item : ⦃u : Unicode⦄ → ℕ → NewLineItemInput → Result LineItem
new_line_item clock input = do
  let id = trim_space input.id
  let batch_id = trim_space input.batch_id
  let merchant_id = trim_space input.merchant_id
  let payment_id = trim_space input.payment_id
  let currency = normalize_currency input.currency
  fail_if (is_empty id) line_item_id_required
  fail_if (is_empty batch_id) batch_id_required
  fail_if (is_empty merchant_id) merchant_id_required
  fail_if (is_empty payment_id) payment_id_required
  fail_if (leb_ℤ input.amount (pos 0)) invalid_line_item_amount
  fail_if (ltb_ℤ input.fee_amount (pos 0)) fee_negative
  fail_if (ltb_ℤ input.amount input.fee_amount) fee_exceeds_amount
  fail_if (not (is_valid_currency currency)) invalid_settlement_currency
  let now = if input.now == 0 then clock else input.now
  ok (record {
    id = id;
    batch_id = batch_id;
    merchant_id = merchant_id;
    payment_id = payment_id;
    amount = input.amount;
    fee_amount = input.fee_amount;
    net_amount = sub_int64 input.amount input.fee_amount;
    currency = currency;
    payment_captured = input.payment_captured;
    created_at = now;
  })
