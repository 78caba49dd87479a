-- ===== src/Ledger/Outcome.antt =====
-- What the calls of the payment service do where they succeed.
use mathlib.Core.Path.{subst, sym}
use paycore.Base.{ℕ, ◌+◌, ◌≡◌, true, false, none, some, ok, arith}
use paycore.Base.Dict.{lookup, lookup-insert}
use paycore.Base.Int.{◌+ℤ◌, ◌-ℤ◌, int_laws}
use paycore.Database.{Columns}
use paycore.Currency.{Unicode}
use paycore.Ledger.{IsConsistent}
use paycore.Merchant.{Merchant, can_create_payments}
use paycore.Payer.{Payer, reserve}
use paycore.Payer.Balance.{reserve-Moves}
use paycore.Payment as P
use paycore.Payment.{Payment, Hold}
use paycore.Payment.Service.{
  AuthorizePaymentInput, PaymentResult, authorization_ttl, authorize_tx, authorize_payment,
}
use paycore.Payment.Postgres.Holds.{hold_id_of, hold_id_of-none, hold_id_of-insert_new}
use paycore.Payment.Service.Writes.Authorization.{
  authorize_tx-reads, authorize_tx-Authorizes, Opened-Writes,
}
use paycore.World.{World, Stores, Pool, postgres}
use paycore.World.Run.{within_tx-eq-ok}

-- The payer `y` before and `z` after an authorization of `amount`, and the payment and the hold
-- that the tables have after it.
pub record Authorized ⦃columns : Columns⦄ (now : ℕ) (input : AuthorizePaymentInput)
    (r : PaymentResult) (s s' : Stores) : Type 0 where
  pub merchant : Merchant
  pub found_merchant : lookup input.merchant_id s.merchants ≡ some merchant
  pub active : can_create_payments merchant ≡ true
  pub payer : Payer
  pub found_payer : lookup input.payer_id s.payers ≡ some payer
  pub payer_after : lookup input.payer_id s'.payers ≡ some r.payer
  pub available : r.payer.available ≡ payer.available -ℤ input.amount
  pub held : r.payer.held ≡ payer.held +ℤ input.amount
  pub payment_after :
      lookup r.payment.id s'.payments.payments
      ≡ some (record { payment = r.payment; settlement_batch_id = none })
  pub status : r.payment.status ≡ P.authorized
  pub amount : r.payment.amount ≡ input.amount
  pub payer_id : r.payment.payer_id ≡ input.payer_id
  pub expires_at : r.payment.expires_at ≡ columns.timestamptz (now + authorization_ttl)
  pub index_after : hold_id_of r.payment.id s'.payments.holds ≡ some r.hold.id
  pub hold_after : lookup r.hold.id s'.payments.holds ≡ some r.hold
  pub hold_status : r.hold.status ≡ P.held
  pub hold_amount : r.hold.amount ≡ input.amount

module _ ⦃u : Unicode⦄ ⦃columns : Columns⦄ where
  authorize_tx-Authorized :
      (now : ℕ) (input : AuthorizePaymentInput) (w : World) {r : PaymentResult} {w' : World}
      → IsConsistent w.stores
      → authorize_tx now input w ≡ (ok r, w')
      → Authorized now input r w.stores w'.stores
  unfolding reserve
  authorize_tx-Authorized now input w {r} {w'} c e =
      let x = authorize_tx-reads now input w e in
      let a =
        authorize_tx-Authorizes now input w e x.merchant x.payer x.found_merchant x.found_payer in
      let o = a.opened in
      let y = Opened-Writes a.new_payment a.new_hold a.new_payer r w.stores w'.stores o in
      let k = c.payers input.payer_id x.payer x.found_payer in
      let moves =
        reserve-Moves x.payer input.amount input.currency now {q = a.new_payer} k.solvent
          a.makes.reserved in
      let same : r.payer.id ≡ x.payer.id = ground (arith, o.opened_payer, a.makes.reserved) in
      let owner : r.hold.payment_id ≡ r.payment.id =
        ground (arith, o.opened_hold, o.opened_payment, a.makes) in
      let free = hold_id_of-none a.new_hold.payment_id w.stores.payments.holds o.free_index in
      let index =
        hold_id_of-insert_new r.payment.id r.hold.id r.hold w.stores.payments.holds
          (ground (arith, o.opened_hold, o.free_hold)) (ground (arith, o.opened_hold, free)) in
      record {
        merchant = x.merchant;
        found_merchant = x.found_merchant;
        active = a.makes.may;
        payer = x.payer;
        found_payer = x.found_payer;
        payer_after = grind (arith, lookup-insert, y.payers, same, k);
        available = grind (int_laws, moves, o.opened_payer);
        held = ground (arith, o.opened_payer, moves.2);
        payment_after = grind (arith, lookup-insert, o.payments, o.opened_payment);
        status = ground (arith, o.opened_payment, a.makes);
        amount = ground (arith, o.opened_payment, a.makes);
        payer_id = ground (arith, o.opened_payment, a.makes, k);
        expires_at = ground (arith, o.opened_payment, a.makes);
        index_after = ground (arith, index, y.holds, owner);
        hold_after = grind (arith, lookup-insert, y.holds);
        hold_status = ground (arith, o.opened_hold, a.makes);
        hold_amount = ground (arith, o.opened_hold, a.makes);
      }

  -- A successful authorization on consistent tables: it moves the amount from the available
  -- to the held balance of the payer, and stores an authorized payment with an open hold of that
  -- amount, which its id leads to, to expire fifteen minutes later at the precision of the column.
  pub authorize_payment-Authorized :
      (pool : Pool) (now : ℕ) (input : AuthorizePaymentInput) (w : World) {r : PaymentResult}
      {w' : World}
      → w.in_tx ≡ false
      → IsConsistent w.stores
      → authorize_payment (postgres pool) now input w ≡ (ok r, w')
      → Authorized now input r w.stores w'.stores
  unfolding authorize_payment
  authorize_payment-Authorized pool now input w {r} {w'} out c e =
      let (v, ran, kept) =
        within_tx-eq-ok pool (authorize_tx now input) w {a = r} {w' = w'} out e in
      subst (Authorized now input r w.stores) (sym kept)
        (authorize_tx-Authorized now input (record w { in_tx = true }) c ran)
