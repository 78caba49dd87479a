-- ===== src/Ledger/Open.antt =====
-- Opening a hold, as an authorization does, keeps the tables consistent.
use paycore.Base.{◌≡◌, ◌≢◌, true, none, some, refl, ap, arith, if◌then◌else◌}
use paycore.Base.Int.{ℤ, ◌+ℤ◌, int_laws}
use paycore.Base.Text.{Text, text_eq, trim_space}
use paycore.Base.Dict.{lookup, insert-Entries, insert-IsMap, lookup-insert}
use paycore.Payment.Postgres.{PaymentRow}
use paycore.Payment.Postgres.Holds.{hold_id_of, hold_id_of-insert_new}
use paycore.Ledger.{PayerOk, PaymentOk, HoldOk, IsConsistent, agree, weight, held_total}
use paycore.Ledger.Total.{held_total-insert_new}
use paycore.Payer.{Payer}
use paycore.Payer.Balance.{IsSolvent}
use paycore.Payment.{Payment, Hold, is_held}
use paycore.Payment.Service.{PaymentResult}
use paycore.Payment.Service.Writes.{Writes}
use paycore.World.{Stores}

-- How an authorization gets from the payer that it read to its result: the payment and the hold are
-- new, and for the amount that the payer's held balance grew by.
pub record Opening (payer : Payer) (r : PaymentResult) (s : Stores) : Type 0 where
  pub amount : ℤ
  pub is_held : is_held r.hold.status ≡ true
  pub hold_payment : r.hold.payment_id ≡ r.payment.id
  pub hold_payer : r.hold.payer_id ≡ trim_space payer.id
  pub hold_amount : r.hold.amount ≡ amount
  pub payment_amount : r.payment.amount ≡ amount
  pub payment_payer : r.payment.payer_id ≡ trim_space payer.id
  pub agreed : agree r.payment.status r.hold.status ≡ true
  pub payer_id : r.payer.id ≡ payer.id
  pub solvent : IsSolvent r.payer
  pub moved : r.payer.held ≡ payer.held +ℤ amount
  pub fresh_payment : lookup r.payment.id s.payments.payments ≡ none
  pub fresh_hold : lookup r.hold.id s.payments.holds ≡ none
  pub fresh_index : hold_id_of r.hold.payment_id s.payments.holds ≡ none

module _ {s s' : Stores} {r : PaymentResult} (y : Text) {payer : Payer} (c : IsConsistent s)
    (found : lookup y s.payers ≡ some payer) (o : Opening payer r s) (w : Writes r s s') where
  payer_ok : PayerOk s y payer
  payer_ok = c.payers y payer found

  index :
      (k : Text)
      → hold_id_of k s'.payments.holds
        ≡ (if text_eq k r.hold.payment_id then some r.hold.id else hold_id_of k s.payments.holds)
  index k = ground (
    arith,
    w.holds,
    hold_id_of-insert_new k r.hold.id r.hold s.payments.holds o.fresh_hold o.fresh_index,
  )

  ids : (r.payer.id ≡ y) × (r.hold.payer_id ≡ y) × (r.payment.payer_id ≡ y)
  ids = ground (arith, payer_ok, o)

  totals :
      (k : Text) → held_total k s'.payments.holds ≡ held_total k s.payments.holds +ℤ weight k r.hold
  totals k = grind (int_laws, held_total-insert_new k r.hold.id r.hold s.payments.holds, o, w)

  payer_new : PayerOk s' r.payer.id r.payer
  payer_new = record {
    keyed = refl;
    trimmed = ground (arith, payer_ok, ids);
    solvent = o.solvent;
    backed = grind (int_laws, totals r.payer.id, payer_ok, ids, o);
  }

  payer_old : (k : Text) (z : Payer) → k ≢ r.payer.id → lookup k s.payers ≡ some z → PayerOk s' k z
  payer_old k z ne e =
      let old = c.payers k z e in
      record {
        keyed = old.keyed;
        trimmed = old.trimmed;
        solvent = old.solvent;
        backed = grind (int_laws, totals k, old, ids);
      }

  payment_new : PaymentOk s' r.payment.id w.row
  payment_new = record {
    keyed = ap (λ (z : Payment). z.id) w.row_payment;
    hold_key = r.hold.id;
    indexed = ground (arith, index r.payment.id, o);
  }

  payment_old :
      (k : Text) (z : PaymentRow)
      → k ≢ r.payment.id
      → lookup k s.payments.payments ≡ some z
      → PaymentOk s' k z
  payment_old k z ne e =
      let old = c.payments k z e in
      record {
        keyed = old.keyed;
        hold_key = old.hold_key;
        indexed = ground (arith, index k, o, ne, old);
      }

  hold_new : HoldOk s' r.hold.id r.hold
  hold_new = record {
    keyed = refl;
    indexed = ground (arith, index r.hold.payment_id);
    payer = r.payer;
    found_payer = grind (arith, lookup-insert, w.payers, ids);
    row = w.row;
    found_payment = grind (arith, lookup-insert, w.payments, o);
    same_amount = ground (arith, w.row_payment, o);
    same_payer = ground (arith, w.row_payment, o);
    agreed = ground (arith, w.row_payment, o.agreed);
  }

  -- A hold that was there is one of a payment that was there.
  other_payment :
      (k : Text) (z : Hold) → lookup k s.payments.holds ≡ some z → z.payment_id ≢ r.payment.id
  other_payment k z e = ground (arith, c.holds k z e, o)

  hold_old :
      (k : Text) (z : Hold) → k ≢ r.hold.id → lookup k s.payments.holds ≡ some z → HoldOk s' k z
  hold_old k z ne e =
      let old = c.holds k z e in
      record {
        keyed = old.keyed;
        indexed = ground (arith, index z.payment_id, old, other_payment k z e, o);
        payer = if text_eq z.payer_id r.payer.id then r.payer else old.payer;
        found_payer =
            grind (arith, lookup-insert z.payer_id r.payer.id r.payer s.payers, w.payers, old);
        row = old.row;
        found_payment = grind (arith, lookup-insert, w.payments, old, other_payment k z e);
        same_amount = old.same_amount;
        same_payer = old.same_payer;
        agreed = old.agreed;
      }

  pub opening-IsConsistent : IsConsistent s'
  opening-IsConsistent = record {
    payments_map = rw w.payments (insert-IsMap r.payment.id w.row _ c.payments_map);
    holds_map = rw w.holds (insert-IsMap r.hold.id r.hold _ c.holds_map);
    payers = insert-Entries (PayerOk s') r.payer.id r.payer _ w.payers payer_new payer_old;
    payments =
        insert-Entries (PaymentOk s') r.payment.id w.row _ w.payments payment_new payment_old;
    holds = insert-Entries (HoldOk s') r.hold.id r.hold _ w.holds hold_new hold_old;
  }
