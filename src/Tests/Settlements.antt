-- ===== src/Tests/Settlements.antt =====
-- Runs of the settlement on the database, and its theorems at them.
use paycore.Base.{
  ℕ, ◌<◌, ◌≤◌, ◌⊎◌, ◌≡◌, ◌↔◌, refl, true, false, none, some, List, [], ◌∷◌, ok, arith,
}
use paycore.Base.Dict.{lookup, insert, find_value, filter_values}
use paycore.Base.Int.{pos, ◌-ℤ◌, int64, sub_int64}
use paycore.Base.Sort.{sort, insert_sorted}
use paycore.Base.Text.{Text, codes, is_space, trim_space, Text_discrete}
use paycore.Currency.{normalize_currency, is_valid_currency}
use paycore.Id.{new_id}
use paycore.Outbox.{new_event}
use paycore.Outbox.Postgres.{create_event_row}
use paycore.Payment as P
use paycore.Payment.{Payment, capture, settle}
use paycore.Payment.Postgres.{PaymentRow, create_payment_row, get_payment_row, update_payment_row}
use paycore.Settlement.{
  LineItem, new_batch, start_processing, complete_batch, is_stale, new_line_item,
}
use paycore.Settlement.Postgres.{
  create_batch_row, update_batch_row, claim_captured_payments, scan_all, claim_rows,
  create_line_item,
}
use paycore.Settlement.Service.{
  Tables, SettlementService, CreateBatchInput, create_batch, create_batch_tx, insert_batch,
  lock_batch, claim_for, settle_batch, settle_claimed_payments, settle_one, on_payment_rows,
}
use paycore.Settlement.Books.{is_settled}
use paycore.Settlement.Books.Outside.Batch.{create_batch-keeps_outside}
use paycore.Settlement.Books.History.{
  Reach, here, after, authorized, captured, create, no_rows, Reach-settled_once,
}
use paycore.Tests.{ascii, pool}
use paycore.Tests.{micros}
use paycore.World.{Env, postgres, within_tx}

abbrev bytes : List ℕ
bytes = 1 ∷ 2 ∷ []

abbrev empty : Env Tables
empty = record {
  stores = no_rows;
  ctx = [];
  random = some bytes ∷ some bytes ∷ some bytes ∷ [];
  locked = [];
  in_tx = false;
}

abbrev open_payment : Payment
open_payment = record {
  id = codes "pay_1";
  merchant_id = codes "m1";
  payer_id = codes "p1";
  amount = pos 120;
  currency = codes "EUR";
  status = P.authorized;
  hold_id = codes "hold_1";
  authorized_at = 3000;
  expires_at = 9000000;
  captured_at = none;
  settled_at = none;
  created_at = 3000;
  updated_at = 3000;
}

abbrev captured_payment : Payment
captured_payment = record open_payment {
  status = P.captured;
  captured_at = some 5000;
  updated_at = 5000;
}

abbrev settled_payment : Payment
settled_payment = record captured_payment {
  status = P.settled;
  settled_at = some 8000;
  updated_at = 8000;
}

abbrev open_row : PaymentRow
open_row = record { payment = open_payment; settlement_batch_id = none }

abbrev settled_row : PaymentRow
settled_row = record { payment = settled_payment; settlement_batch_id = some (codes "setbat_0102") }

abbrev service : SettlementService
service = record { worker_id = codes "w1"; claim_limit = pos 100; lock_ttl = pos 1000000 }

abbrev window : CreateBatchInput
window = record { window_start = 4000; window_end = 6000 }

abbrev with_open : Env Tables
with_open = (on_payment_rows (λ e. create_payment_row e open_payment) empty).1

abbrev with_captured : Env Tables
with_captured = (on_payment_rows (λ e. update_payment_row e captured_payment) with_open).1

abbrev with_batch : Env Tables
with_batch = (create_batch (postgres pool) service 8000 window with_captured).1

open_found : lookup open_row.payment.id with_open.stores.payments ≡ some open_row
unfolding create_payment_row lookup insert Text_discrete
open_found = refl

captured_ok : capture open_row.payment 5000 ≡ ok captured_payment
unfolding capture
captured_ok = refl

id_trimmed : trim_space open_payment.id ≡ open_payment.id
unfolding trim_space is_space
id_trimmed = refl

settled_found : lookup (codes "pay_1") with_batch.stores.payments ≡ some settled_row
unfolding create_payment_row update_payment_row get_payment_row lookup insert find_value
    filter_values Text_discrete create_batch create_batch_tx insert_batch lock_batch claim_for
    settle_batch settle_claimed_payments settle_one within_tx new_id trim_space is_space new_batch
    start_processing is_stale complete_batch create_batch_row update_batch_row
    claim_captured_payments scan_all claim_rows sort insert_sorted settle new_line_item
    normalize_currency is_valid_currency create_line_item new_event create_event_row int64 sub_int64
    ◌-ℤ◌
settled_found = refl

with_captured-Reach : Reach empty with_captured
with_captured-Reach =
    after (after here (authorized open_payment refl id_trimmed))
      (captured open_row captured_payment 5000 open_found captured_ok)

with_batch-Reach : Reach empty with_batch
with_batch-Reach = after with_captured-Reach (create pool service 8000 window)

Reach-settled_once_example :
    ((is_settled settled_row.payment.status ≡ true) ↔ (
      (j : Text) × (i : LineItem) × (lookup j with_batch.stores.items ≡ some i)
      × (i.payment_id ≡ codes "pay_1")))
    × ((j j' : Text) (i i' : LineItem)
        → lookup j with_batch.stores.items ≡ some i
        → lookup j' with_batch.stores.items ≡ some i'
        → i.payment_id ≡ codes "pay_1"
        → i'.payment_id ≡ codes "pay_1"
        → (j ≡ j')
          × (i.amount ≡ settled_row.payment.amount)
          × (i.fee_amount ≡ pos 0)
          × (settled_row.settlement_batch_id ≡ some i.batch_id))
Reach-settled_once_example =
    Reach-settled_once empty with_batch (codes "pay_1") settled_row refl refl with_batch-Reach
      settled_found

-- The window of a later batch.
abbrev later_window : CreateBatchInput
later_window = record { window_start = 6000; window_end = 7000 }

abbrev captured_row : PaymentRow
captured_row = record { payment = captured_payment; settlement_batch_id = none }

captured_found : lookup (codes "pay_1") with_captured.stores.payments ≡ some captured_row
unfolding create_payment_row update_payment_row lookup insert Text_discrete trim_space is_space
captured_found = refl

captured_early : (t : ℕ) → captured_row.payment.captured_at ≡ some t → (t < 6000) ⊎ (7000 ≤ t)
captured_early t h = ground arith

create_batch-keeps_outside_example :
    lookup
      (codes "pay_1")
      (create_batch (postgres pool) service 8000 later_window with_captured).1.stores.payments
    ≡ some captured_row
create_batch-keeps_outside_example =
    create_batch-keeps_outside (codes "pay_1") captured_row pool service 8000 later_window empty
      with_captured refl refl with_captured-Reach captured_found captured_early
