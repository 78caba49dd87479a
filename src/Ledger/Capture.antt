-- ===== src/Ledger/Capture.antt =====
-- What a capture does where it succeeds, and that it succeeds once.
use mathlib.Core.Path.{subst, sym}
use paycore.Base.{ℕ, ◌≤◌, ◌≡◌, true, false, some, [], ok, err, arith}
use paycore.Base.Dict.{lookup, lookup-insert}
use paycore.Base.Int.{◌-ℤ◌}
use paycore.Base.Text.{Text}
use paycore.Database.{Columns}
use paycore.Currency.{Unicode}
use paycore.Errors.{payment_not_capturable}
use paycore.Ledger.{IsConsistent}
use paycore.Ledger.Calls.{capture_payment-IsConsistent}
use paycore.Payer.{Payer, capture_held}
use paycore.Payer.Balance.{capture_held-Moves}
use paycore.Ledger.Close.{Reads-hold}
use paycore.Payer.Postgres.{get_payer_row}
use paycore.Payment as P
use paycore.Payment.{Payment, Hold, capture, capture_hold, is_authorized}
use paycore.Payment.Postgres.{PaymentRow, get_payment_row, get_hold_row_by_payment_id}
use paycore.Payment.Postgres.Holds.{
  hold_id_of, hold_id_of-found, hold_id_of-insert, hold_id_of-exists,
}
use paycore.Payment.Service.{PaymentResult, capture_tx, capture_payment}
use paycore.Payment.Service.Writes.Capture.{capture_tx-Reads, capture_tx-Closes}
use paycore.Payment.Service.Writes.{Closed-Writes}
use paycore.World.{World, Stores, Pool, postgres}
use paycore.World.Run.{within_tx-eq-ok, within_tx-refuses}

-- The payment `id` before and after its capture, with its hold and its payer.
pub record Captured ⦃columns : Columns⦄ (now : ℕ) (id : Text) (r : PaymentResult) (s s' : Stores)
    : Type 0 where
  pub row : PaymentRow
  pub found_payment : lookup id s.payments.payments ≡ some row
  pub was_authorized : row.payment.status ≡ P.authorized
  pub in_time : now ≤ row.payment.expires_at
  pub payer : Payer
  pub found_payer : lookup row.payment.payer_id s.payers ≡ some payer
  pub payment_after : lookup id s'.payments.payments ≡ some (record row { payment = r.payment })
  pub payer_id : r.payment.payer_id ≡ row.payment.payer_id
  pub status : r.payment.status ≡ P.captured
  pub captured_at : r.payment.captured_at ≡ some (columns.timestamptz now)
  pub index_after : hold_id_of id s'.payments.holds ≡ some r.hold.id
  pub hold_after : lookup r.hold.id s'.payments.holds ≡ some r.hold
  pub hold_status : r.hold.status ≡ P.HoldStatus.captured
  pub payer_after : lookup row.payment.payer_id s'.payers ≡ some r.payer
  pub available : r.payer.available ≡ payer.available
  pub held : r.payer.held ≡ payer.held -ℤ row.payment.amount

module _ ⦃u : Unicode⦄ ⦃columns : Columns⦄ where
  capture_tx-Captured :
      (now : ℕ) (id : Text) (w : World) {r : PaymentResult} {w' : World}
      → IsConsistent w.stores
      → capture_tx now id w ≡ (ok r, w')
      → Captured now id r w.stores w'.stores
  unfolding capture capture_hold capture_held
  capture_tx-Captured now id w {r} {w'} c e =
      let (row, found, x) = capture_tx-Reads now id w e in
      let p = row.payment in
      let z = capture_tx-Closes now id w e row x found in
      let o = z.closed in
      let y = Closed-Writes z.new_payment z.new_hold z.new_payer r w.stores w'.stores o in
      let k = c.payers p.payer_id x.payer x.found_payer in
      let moves =
        capture_held-Moves x.payer p.amount p.currency now {q = z.new_payer} k.solvent
          z.made_payer in
      let pk = c.payments id row found in
      let (hk, owner) = Reads-hold c x in
      let same : r.payer.id ≡ p.payer_id = ground (arith, o.kept_payer, z.made_payer, k) in
      let same_payment : r.payment.id ≡ id = ground (arith, o.kept_payment, z.made_payment, pk) in
      let same_hold : r.hold.id ≡ x.hold.id = ground (arith, o.kept_hold, z.made_hold) in
      let same_owner : r.hold.payment_id ≡ x.hold.payment_id =
        ground (arith, o.kept_hold, z.made_hold) in
      let index =
        hold_id_of-insert id r.hold.id r.hold x.hold w.stores.payments.holds
          (ground (arith, same_hold, hk)) same_hold same_owner in
      let old = hold_id_of-found p.id x.hold w.stores.payments.holds x.found_hold in
      let same_new : z.new_payment.id ≡ id = ground (arith, z.made_payment, pk) in
      record {
        row = row;
        found_payment = found;
        was_authorized = ground (arith, z.made_payment);
        in_time = ground (arith, z.made_payment);
        payer = x.payer;
        found_payer = x.found_payer;
        payment_after = ground (
          arith,
          o.payments,
          o.found_row,
          found,
          same_new,
          lookup-insert id z.new_payment.id (record o.row { payment = r.payment })
              w.stores.payments.payments,
        );
        payer_id = ground (arith, o.kept_payment, z.made_payment);
        status = ground (arith, o.kept_payment, z.made_payment);
        captured_at = ground (arith, o.kept_payment, z.made_payment);
        index_after = ground (arith, index, old, y.holds, pk, same_hold);
        hold_after = grind (arith, lookup-insert, y.holds);
        hold_status = ground (arith, o.kept_hold, z.made_hold);
        payer_after = grind (arith, lookup-insert, y.payers, same);
        available = ground (arith, o.kept_payer, moves.1);
        held = ground (arith, o.kept_payer, moves.2);
      }

  -- A successful capture on consistent tables: the payment was authorized and not past its
  -- expiry, it is now captured and so is its hold, and its amount is gone from the payer's held
  -- balance while the available one is as it was.
  pub capture_payment-Captured :
      (pool : Pool) (now : ℕ) (id : Text) (w : World) {r : PaymentResult} {w' : World}
      → w.in_tx ≡ false
      → IsConsistent w.stores
      → capture_payment (postgres pool) now id w ≡ (ok r, w')
      → Captured now id r w.stores w'.stores
  unfolding capture_payment
  capture_payment-Captured pool now id w {r} {w'} out c e =
      let (v, ran, kept) = within_tx-eq-ok pool (capture_tx now id) w {a = r} {w' = w'} out e in
      subst (Captured now id r w.stores) (sym kept)
        (capture_tx-Captured now id (record w { in_tx = true }) c ran)

  Captured-again :
      (now later : ℕ) (id : Text) (r : PaymentResult) (s : Stores) (v : World)
      → IsConsistent v.stores
      → Captured now id r s v.stores
      → v.ctx ≡ []
      → (capture_tx later id v).0 ≡ err payment_not_capturable
  unfolding capture_tx get_payment_row get_hold_row_by_payment_id get_payer_row
  Captured-again now later id r s v c x calm =
      let (h, found, _) = hold_id_of-exists id v.stores.payments.holds x.index_after in
      ground (
        arith,
        x,
        found,
        calm,
        c.payments id (record (x.row) { payment = r.payment }) x.payment_after,
      )

  -- After a successful capture on consistent tables, a later capture of the payment on the tables that
  -- it left, while the database answers without an error and begins and rolls back transactions, ends
  -- in `ErrPaymentNotCapturable` and leaves the tables as they are.
  pub capture_payment-twice :
      (pool pool' : Pool) (now later : ℕ) (id : Text) (w v : World) {r : PaymentResult} {w' : World}
      → w.in_tx ≡ false
      → IsConsistent w.stores
      → capture_payment (postgres pool) now id w ≡ (ok r, w')
      → v.stores ≡ w'.stores
      → v.ctx ≡ []
      → v.in_tx ≡ false
      → pool'.begins ≡ true
      → pool'.rolls_back ≡ true
      → let (result, v') = capture_payment (postgres pool') later id v in
        (result ≡ err payment_not_capturable) × (v'.stores ≡ v.stores)
  unfolding capture_payment
  capture_payment-twice pool pool' now later id w v {r} {w'} out c e same calm out' begins rolls =
      let x = capture_payment-Captured pool now id w {r = r} {w' = w'} out c e in
      let k = capture_payment-IsConsistent pool now id w out c in
      let k' : IsConsistent v.stores = subst IsConsistent (ground arith) k in
      let refused =
        Captured-again now later id r w.stores (record v { in_tx = true }) k'
          (subst (Captured now id r w.stores) (sym same) x) calm in
      within_tx-refuses pool' (capture_tx later id) v out' begins rolls refused
