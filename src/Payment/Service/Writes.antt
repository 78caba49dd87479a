-- ===== src/Payment/Service/Writes.antt =====
-- What a successful call of the payment service has read and written.
pub mod Capture
pub mod Expiry
pub mod Authorization
use mathlib.Core.Path.{subst, subst₂}
use paycore.Base.{
  sym, ℕ, ◌+◌, ◌≡◌, refl, true, none, some, Result, ok, inl, inr, arith, Option-cases, Result-cases,
}
use paycore.Base.Text.{Text, trim_space}
use paycore.Base.Dict.{lookup, insert, find_value}
use paycore.Currency.{Unicode}
use paycore.Database.{Columns}
use paycore.Merchant.{Merchant, can_create_payments}
use paycore.Merchant.Postgres.{get_merchant_row}
use paycore.Payer.{Payer, reserve, release, capture_held}
use paycore.Payer.Postgres.{kept_payer, get_payer_row, update_payer_row}
use paycore.Payment.{
  Payment, Hold, authorized, held, new_hold, new_authorized_payment, capture, expire, capture_hold,
  release_hold,
}
use paycore.Payment as P
use paycore.Payment.Postgres.{
  PaymentRow, kept_payment, kept_hold, holds_payment, create_payment_row, get_payment_row,
  update_payment_row, create_hold_row, get_hold_row_by_payment_id, update_hold_row,
}
use paycore.Payment.Service.{
  AuthorizePaymentInput, PaymentResult, authorize_tx, capture_tx, expire_one, authorization_ttl,
}
use paycore.Payment.Service.{
  emit, captured_event, expired_event, authorized_event, write_capture, write_authorization,
  make_authorization, release_payer, release_held, expire_payment,
}
use paycore.Payment.Service.Rows.{
  UpdatesPayer, UpdatesHold, UpdatesPayment, update_payer_row-Updates, update_hold_row-Updates,
  update_payment_row-Updates, create_payment_row-creates, create_hold_row-creates, emit-leaves,
}
use paycore.Outbox.{NewEventInput}
use paycore.World.{
  World, Action, Stores, next, lift, pure, ◌>>=◌, ◌>>◌, on_payers, on_payers_twice, on_holds,
  on_payments,
}
use paycore.World.Run.{>>=-eq-ok}

-- What a capture or an expiry reads of the payment `p`: its hold and its payer.
pub record Reads (p : Payment) (s : Stores) : Type 0 where
  pub hold : Hold
  pub payer : Payer
  pub found_hold : find_value (holds_payment p.id) s.payments.holds ≡ some hold
  pub found_payer : lookup p.payer_id s.payers ≡ some payer

-- The rows of a payment, a hold and a payer are written over those that they have.
pub record Closed ⦃c : Columns⦄ (p : Payment) (k : Hold) (y : Payer) (r : PaymentResult)
    (s s' : Stores) : Type 0 where
  pub row : PaymentRow
  pub found_row : lookup p.id s.payments.payments ≡ some row
  pub kept_payment : r.payment ≡ record (kept_payment p) { created_at = row.payment.created_at }
  pub old_hold : Hold
  pub found_hold : lookup k.id s.payments.holds ≡ some old_hold
  pub kept_hold : r.hold ≡ record (kept_hold k) { created_at = old_hold.created_at }
  pub old_payer : Payer
  pub found_payer : lookup y.id s.payers ≡ some old_payer
  pub kept_payer : r.payer ≡ record (kept_payer y) { created_at = old_payer.created_at }
  pub payers : s'.payers ≡ insert y.id r.payer s.payers
  pub payments :
      s'.payments.payments ≡ insert p.id (record row { payment = r.payment }) s.payments.payments
  pub holds : s'.payments.holds ≡ insert k.id r.hold s.payments.holds

-- A capture or an expiry makes a payment, a hold and a payer, and writes them.
pub record Closes ⦃c : Columns⦄ (payment : Result Payment) (hold : Result Hold)
    (payer : Result Payer) (r : PaymentResult) (s s' : Stores) : Type 0 where
  pub new_payment : Payment
  pub made_payment : payment ≡ ok new_payment
  pub new_hold : Hold
  pub made_hold : hold ≡ ok new_hold
  pub new_payer : Payer
  pub made_payer : payer ≡ ok new_payer
  pub closed : Closed new_payment new_hold new_payer r s s'

-- What a call leaves: the payment, the hold and the payer of its result.
pub record Writes (r : PaymentResult) (s s' : Stores) : Type 0 where
  pub payers : s'.payers ≡ insert r.payer.id r.payer s.payers
  pub row : PaymentRow
  pub row_payment : row.payment ≡ r.payment
  pub payments : s'.payments.payments ≡ insert r.payment.id row s.payments.payments
  pub holds : s'.payments.holds ≡ insert r.hold.id r.hold s.payments.holds

pub Closed-Writes :
    ⦃c : Columns⦄ (p : Payment) (k : Hold) (y : Payer) (r : PaymentResult) (s s' : Stores)
    → Closed p k y r s s'
    → Writes r s s'
Closed-Writes p k y r s s' w = record {
  payers = ground (arith, w.kept_payer, w.payers);
  row = record w.row { payment = r.payment };
  row_payment = refl;
  payments = ground (arith, w.kept_payment, w.payments);
  holds = ground (arith, w.kept_hold, w.holds);
}

module _ ⦃c : Columns⦄ where
  pub Closed-made :
      (p : Payment) (k : Hold) (y : Payer) (r : PaymentResult) (s s1 s2 s3 s' : Stores)
      → UpdatesPayer y r.payer s s1
      → UpdatesHold k r.hold s1 s2
      → UpdatesPayment p r.payment s2 s3
      → (s'.payers ≡ s3.payers) × (s'.payments ≡ s3.payments)
      → Closed p k y r s s'
  Closed-made p k y r s s1 s2 s3 s' a b d e = record {
    row = d.old;
    found_row = ground (arith, a.written, b.written, d.found);
    kept_payment = d.kept;
    old_hold = b.old;
    found_hold = ground (arith, a.written, b.found);
    kept_hold = b.kept;
    old_payer = a.old;
    found_payer = a.found;
    kept_payer = a.kept;
    payers = ground (arith, a.written, b.written, d.written, e);
    payments = ground (arith, a.written, b.written, d.written, e);
    holds = ground (arith, a.written, b.written, d.written, e);
  }

module _ ⦃u : Unicode⦄ ⦃c : Columns⦄ where
  -- What follows the updates of the payer, the hold and the payment, with the event of `input`.
  abbrev pub emitted :
      (Payment → Hold → NewEventInput) → Payer → Hold → Payment → Action PaymentResult
  emitted input y' k' p' =
      emit (input p' k') >> pure (record { payment = p'; hold = k'; payer = y' })
