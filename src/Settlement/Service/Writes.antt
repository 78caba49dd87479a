-- ===== src/Settlement/Service/Writes.antt =====
-- What a successful call of the settlement service has read and written.
use paycore.Base.{ℕ, ◌≡◌, true, none, some, ok, inl, inr, arith, Option-cases}
use paycore.Base.Dict.{lookup, insert, find_value}
use paycore.Base.Int.{pos, sub_int64}
use paycore.Base.Text.{Text, trim_space}
use paycore.Currency.{Unicode}
use paycore.Database.{Columns}
use paycore.Outbox.Postgres.{create_event_row}
use paycore.Payment as P
use paycore.Payment.{Payment, is_captured, settle}
use paycore.Payment.Postgres.{PaymentRow, get_payment_row, update_payment_row}
use paycore.Settlement.{LineItem, new_line_item}
use paycore.Settlement.Postgres.{ClaimedPayment, create_line_item, is_of_payment}
use paycore.Settlement.Service.{Tables, settle_one}
use paycore.World.{Env}

-- The settlement of one claimed payment, whose row is `row`.
pub record Settles (batch_id : Text) (claimed : ClaimedPayment) (row : PaymentRow) (item : LineItem)
    (payment : Payment) (t t' : Tables) : Type 0 where
  pub was_captured : is_captured row.payment.status ≡ true
  pub payment_id : payment.id ≡ row.payment.id
  pub payment_amount : payment.amount ≡ row.payment.amount
  pub payment_status : payment.status ≡ P.settled
  pub item_payment : item.payment_id ≡ trim_space claimed.payment_id
  pub item_batch : item.batch_id ≡ trim_space batch_id
  pub item_amount : item.amount ≡ claimed.amount
  pub item_fee : item.fee_amount ≡ pos 0
  pub item_net : item.net_amount ≡ sub_int64 claimed.amount (pos 0)
  pub fresh_item : lookup item.id t.items ≡ none
  pub fresh_payment : find_value (is_of_payment item.payment_id) t.items ≡ none
  pub batches : t'.batches ≡ t.batches
  pub payments : t'.payments ≡ insert row.payment.id (record row { payment = payment }) t.payments
  pub items : t'.items ≡ insert item.id item t.items

module _ ⦃u : Unicode⦄ ⦃c : Columns⦄ where
  pub settle_one-Reads :
      (batch_id : Text) (now : ℕ) (claimed : ClaimedPayment) (w : Env Tables)
      {r : LineItem × Payment} {w' : Env Tables}
      → settle_one batch_id now claimed w ≡ (ok r, w')
      → (row : PaymentRow) × (lookup claimed.payment_id w.stores.payments ≡ some row)
  unfolding settle_one get_payment_row
  settle_one-Reads batch_id now claimed w h =
      elim (Option-cases (lookup claimed.payment_id w.stores.payments)) [
        | inl e ↦ absurd (ground arith)
        | inr (row, e) ↦ (row, e)
      ]

  pub settle_one-Settles :
      (batch_id : Text) (now : ℕ) (claimed : ClaimedPayment) (row : PaymentRow) (w : Env Tables)
      {r : LineItem × Payment} {w' : Env Tables}
      → settle_one batch_id now claimed w ≡ (ok r, w')
      → lookup claimed.payment_id w.stores.payments ≡ some row
      → row.payment.id ≡ claimed.payment_id
      → Settles batch_id claimed row r.0 r.1 w.stores w'.stores
  unfolding settle_one get_payment_row update_payment_row settle create_line_item new_line_item
      create_event_row
  settle_one-Settles batch_id now claimed row w h found keyed = ground arith
