-- ===== src/Ledger/Services.antt =====
-- The calls of the payment service keep the tables consistent.
use paycore.Base.{ℕ, ◌≡◌, refl, ok, arith}
use paycore.Base.Text.{Text}
use paycore.Database.{Columns}
use paycore.Currency.{Unicode}
use paycore.Ledger.{IsConsistent}
use paycore.Ledger.Close.{Closing, closing-IsConsistent}
use paycore.Ledger.Open.{Opening, opening-IsConsistent}
use paycore.Merchant.{Merchant}
use paycore.Payer.{Payer, reserve, release, capture_held}
use paycore.Payer.Balance.{IsSolvent, reserve-Moves, release-Moves, capture_held-Moves}
use paycore.Payment.{Payment, Hold, capture, expire, capture_hold, release_hold}
use paycore.Payment.Service.{AuthorizePaymentInput, PaymentResult, authorize_tx, capture_tx}
use paycore.Payment.Postgres.Holds.{hold_id_of-none}
use paycore.Payment.Service.Writes.Authorization.{
  Authorizes, authorize_tx-reads, authorize_tx-Authorizes, Opened-Writes,
}
use paycore.Payment.Service.Writes.{Closes, Closed-Writes}
use paycore.Payment.Service.Writes.Capture.{capture_tx-Reads, capture_tx-Closes}
use paycore.World.{World, Stores}

module _ ⦃u : Unicode⦄ ⦃columns : Columns⦄ where
  Authorizes-Opening :
      (now : ℕ) (input : AuthorizePaymentInput) (m : Merchant) (y : Payer) (r : PaymentResult)
      (s s' : Stores)
      → IsSolvent y
      → Authorizes now input m y r s s'
      → Opening y r s
  unfolding reserve
  Authorizes-Opening now input m y r s s' v a =
      let moves =
        reserve-Moves y input.amount input.currency now {q = a.new_payer} v a.makes.reserved in
      let free = hold_id_of-none a.new_hold.payment_id s.payments.holds a.opened.free_index in
      record {
        amount = input.amount;
        is_held = ground (arith, a.opened.opened_hold, a.makes);
        hold_payment = ground (arith, a.opened.opened_hold, a.opened.opened_payment, a.makes);
        hold_payer = ground (arith, a.opened.opened_hold, a.makes);
        hold_amount = ground (arith, a.opened.opened_hold, a.makes);
        payment_amount = ground (arith, a.opened.opened_payment, a.makes);
        payment_payer = ground (arith, a.opened.opened_payment, a.makes);
        agreed = ground (arith, a.opened.opened_hold, a.opened.opened_payment, a.makes);
        payer_id = ground (arith, a.opened.opened_payer, a.makes.reserved);
        solvent = ground (arith, a.opened.opened_payer, moves.0);
        moved = ground (arith, a.opened.opened_payer, moves.2);
        fresh_payment = ground (arith, a.opened.opened_payment, a.opened.free_payment);
        fresh_hold = ground (arith, a.opened.opened_hold, a.opened.free_hold);
        fresh_index = ground (arith, a.opened.opened_hold, free);
      }

  pub authorize_tx-IsConsistent :
      (now : ℕ) (input : AuthorizePaymentInput) (w : World) {r : PaymentResult} {w' : World}
      → IsConsistent w.stores
      → authorize_tx now input w ≡ (ok r, w')
      → IsConsistent w'.stores
  authorize_tx-IsConsistent now input w {r} {w'} c e =
      let x = authorize_tx-reads now input w e in
      let a =
        authorize_tx-Authorizes now input w e x.merchant x.payer x.found_merchant x.found_payer in
      let v = (c.payers input.payer_id x.payer x.found_payer).solvent in
      opening-IsConsistent input.payer_id c x.found_payer
        (Authorizes-Opening now input x.merchant x.payer r w.stores w'.stores v a)
        (Opened-Writes a.new_payment a.new_hold a.new_payer r w.stores w'.stores a.opened)

  captured-Closing :
      (now : ℕ) (p : Payment) (h : Hold) (y : Payer) (r : PaymentResult) (s s' : Stores)
      → IsSolvent y
      → Closes (capture p now) (capture_hold h now) (capture_held y p.amount p.currency now) r s s'
      → Closing p h y r
  unfolding capture capture_hold capture_held
  captured-Closing now p h y r s s' v x =
      let moves = capture_held-Moves y p.amount p.currency now {q = x.new_payer} v x.made_payer in
      ground (arith, moves, x)

  pub capture_tx-IsConsistent :
      (now : ℕ) (id : Text) (w : World) {r : PaymentResult} {w' : World}
      → IsConsistent w.stores
      → capture_tx now id w ≡ (ok r, w')
      → IsConsistent w'.stores
  capture_tx-IsConsistent now id w {r} {w'} c e =
      let (row, found, x) = capture_tx-Reads now id w e in
      let p = row.payment in
      let y = capture_tx-Closes now id w e row x found in
      let v = (c.payers p.payer_id x.payer x.found_payer).solvent in
      closing-IsConsistent {p = p} {q = row} c (ground (arith, found, c.payments id row found)) refl
        refl x (captured-Closing now p x.hold x.payer r w.stores w'.stores v y)
        (Closed-Writes y.new_payment y.new_hold y.new_payer r w.stores w'.stores y.closed)

  pub expired-Closing :
      (now : ℕ) (p : Payment) (h : Hold) (y : Payer) (r : PaymentResult) (s s' : Stores)
      → IsSolvent y
      → Closes (expire p now) (release_hold h now) (release y p.amount p.currency now) r s s'
      → Closing p h y r
  unfolding expire release_hold release
  expired-Closing now p h y r s s' v x =
      let moves = release-Moves y p.amount p.currency now {q = x.new_payer} v x.made_payer in
      ground (arith, moves, x)
