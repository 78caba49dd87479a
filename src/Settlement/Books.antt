-- ===== src/Settlement/Books.antt =====
-- The books of the settlement: every settled payment has one line item, and every line item bills a
-- settled payment in the batch that claimed it.
pub mod Outside
pub mod Settle
pub mod Claim
pub mod Calls
pub mod History
use paycore.Base.{◌≡◌, true, Bool, some, List, false}
use paycore.Base.Dict.{Dict, lookup, Entries, IsMap}
use paycore.Base.Int.{pos, sub_int64}
use paycore.Base.Text.{Text, trim_space}
use paycore.Payment as P
use paycore.Payment.{Status}
use paycore.Payment.Postgres.{PaymentRow}
use paycore.Settlement.{Batch, LineItem}
use paycore.Settlement.Postgres.{ClaimedPayment}
use paycore.Settlement.Service.{Tables}

abbrev pub is_settled : Status → Bool
is_settled P.settled = true
is_settled _ = false

-- The item bills its payment, which is settled, in full and in the batch that claimed it.
pub record Bills (payments : Dict PaymentRow) (i : LineItem) : Type 0 where
  pub row : PaymentRow
  pub found : lookup i.payment_id payments ≡ some row
  pub settled : is_settled row.payment.status ≡ true
  pub batch : row.settlement_batch_id ≡ some i.batch_id
  pub amount : i.amount ≡ row.payment.amount
  pub fee : i.fee_amount ≡ pos 0
  pub net : i.net_amount ≡ sub_int64 i.amount (pos 0)

-- Each batch stands under its id, which is trimmed.
pub record IsBatches (d : Dict Batch) : Type 0 where
  pub is_map : IsMap d
  pub keyed : Entries (λ k b. (b.id ≡ k) × (trim_space k ≡ k)) d

pub record IsBalanced (t : Tables) : Type 0 where
  pub batches : IsBatches t.batches
  pub rows_map : IsMap t.payments
  pub rows : Entries (λ k row. (row.payment.id ≡ k) × (trim_space k ≡ k)) t.payments
  pub items : Entries (λ k i. i.id ≡ k) t.items
  pub billed : Entries (λ k i. Bills t.payments i) t.items
  pub once :
      (k k' : Text) (i i' : LineItem)
      → lookup k t.items ≡ some i
      → lookup k' t.items ≡ some i'
      → i.payment_id ≡ i'.payment_id
      → k ≡ k'
  pub settled :
      (k : Text) (row : PaymentRow)
      → lookup k t.payments ≡ some row
      → is_settled row.payment.status ≡ true
      → (j : Text) × (i : LineItem) × (lookup j t.items ≡ some i) × (i.payment_id ≡ k)

-- The payment of a claim stands in the table, under the batch and with the amount of the claim.
pub record Claimed (batch_id : Text) (payments : Dict PaymentRow) (c : ClaimedPayment)
    : Type 0 where
  pub row : PaymentRow
  pub found : lookup c.payment_id payments ≡ some row
  pub batch : row.settlement_batch_id ≡ some batch_id
  pub amount : c.amount ≡ row.payment.amount
