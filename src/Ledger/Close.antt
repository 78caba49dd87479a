-- ===== src/Ledger/Close.antt =====
-- Closing a hold, as a capture or an expiry does, keeps the tables consistent.
use paycore.Base.{◌≡◌, ◌≢◌, true, false, some, refl, ap, ◌∙◌, arith, if◌then◌else◌}
use paycore.Base.Int.{◌-ℤ◌, int_laws}
use paycore.Base.Text.{Text, text_eq}
use paycore.Base.Dict.{lookup, IsMap-listed, insert-Entries, insert-IsMap, lookup-insert}
use paycore.Payment.Postgres.{PaymentRow}
use paycore.Payment.Postgres.Holds.{hold_id_of, hold_id_of-insert, find_value-listed}
use paycore.Ledger.{PayerOk, PaymentOk, HoldOk, IsConsistent, agree, weight, held_total}
use paycore.Ledger.Total.{held_total-insert}
use paycore.Payer.{Payer}
use paycore.Payer.Balance.{IsSolvent}
use paycore.Payment.{Payment, Hold, is_held}
use paycore.Payment.Service.{PaymentResult}
use paycore.Payment.Service.Writes.{Reads, Writes}
use paycore.World.{Stores}

-- How a closing call got from what it read to its result.
pub record Closing (p : Payment) (hold : Hold) (payer : Payer) (r : PaymentResult) : Type 0 where
  pub was_held : is_held hold.status ≡ true
  pub not_held : is_held r.hold.status ≡ false
  pub hold_id : r.hold.id ≡ hold.id
  pub hold_payment : r.hold.payment_id ≡ hold.payment_id
  pub hold_payer : r.hold.payer_id ≡ hold.payer_id
  pub hold_amount : r.hold.amount ≡ hold.amount
  pub payment_id : r.payment.id ≡ p.id
  pub payment_amount : r.payment.amount ≡ p.amount
  pub payment_payer : r.payment.payer_id ≡ p.payer_id
  pub agreed : agree r.payment.status r.hold.status ≡ true
  pub payer_id : r.payer.id ≡ payer.id
  pub solvent : IsSolvent r.payer
  pub moved : r.payer.held ≡ payer.held -ℤ p.amount

-- The hold that a call reads stands under its own id, and is that of the payment.
pub Reads-hold :
    {s : Stores} {p : Payment}
    → IsConsistent s
    → (x : Reads p s)
    → (lookup x.hold.id s.payments.holds ≡ some x.hold) × (x.hold.payment_id ≡ p.id)
Reads-hold {s} {p} c x =
    let (k, found, hit) =
      find_value-listed (λ k h. lookup k s.payments.holds ≡ some h) _ x.hold s.payments.holds
        (IsMap-listed s.payments.holds c.holds_map) x.found_hold in
    (ground (arith, found, c.holds k x.hold found), ground (arith, hit))

module _ {s s' : Stores} {p : Payment} {q : PaymentRow} {r : PaymentResult} (c : IsConsistent s)
    (found : lookup p.id s.payments.payments ≡ some q) (amount : q.payment.amount ≡ p.amount)
    (owner : q.payment.payer_id ≡ p.payer_id) (x : Reads p s) (y : Closing p x.hold x.payer r)
    (w : Writes r s s') where
  found_hold : lookup x.hold.id s.payments.holds ≡ some x.hold
  found_hold = (Reads-hold c x).0

  hold_ok : HoldOk s x.hold.id x.hold
  hold_ok = c.holds x.hold.id x.hold found_hold

  index : (k : Text) → hold_id_of k s'.payments.holds ≡ hold_id_of k s.payments.holds
  index k = ground (
    arith,
    w.holds,
    hold_id_of-insert k r.hold.id r.hold x.hold s.payments.holds
        (ground (arith, y.hold_id, found_hold)) y.hold_id y.hold_payment,
  )

  payer_ok : PayerOk s p.payer_id x.payer
  payer_ok = c.payers p.payer_id x.payer x.found_payer

  hold_payment : x.hold.payment_id ≡ p.id
  hold_payment = (Reads-hold c x).1

  hold_facts : (x.hold.amount ≡ p.amount) × (x.hold.payer_id ≡ p.payer_id)
  hold_facts = ground (arith, hold_ok, hold_payment)

  ids : (r.hold.id ≡ x.hold.id) × (r.payer.id ≡ p.payer_id)
  ids = ground (arith, hold_ok, payer_ok)

  totals :
      (k : Text)
      → held_total k s'.payments.holds ≡ (held_total k s.payments.holds -ℤ weight k x.hold)
  totals k = grind (
    int_laws,
    held_total-insert k r.hold.id r.hold x.hold s.payments.holds,
    found_hold,
    w.holds,
    hold_facts,
    ids,
  )

  payer_new : PayerOk s' r.payer.id r.payer
  payer_new = record {
    keyed = refl;
    trimmed = ground (arith, payer_ok, ids);
    solvent = y.solvent;
    backed = grind (int_laws, totals r.payer.id, payer_ok, ids, hold_facts, y);
  }

  payer_old : (k : Text) (z : Payer) → k ≢ r.payer.id → lookup k s.payers ≡ some z → PayerOk s' k z
  payer_old k z ne e =
      let old = c.payers k z e in
      record {
        keyed = old.keyed;
        trimmed = old.trimmed;
        solvent = old.solvent;
        backed = grind (int_laws, totals k, old, ids, hold_facts);
      }

  payment_new : PaymentOk s' r.payment.id w.row
  payment_new = record {
    keyed = ap (λ (z : Payment). z.id) w.row_payment;
    hold_key = x.hold.id;
    indexed = ground (arith, index r.payment.id, hold_ok, hold_payment, y);
  }

  payment_old :
      (k : Text) (z : PaymentRow)
      → k ≢ r.payment.id
      → lookup k s.payments.payments ≡ some z
      → PaymentOk s' k z
  payment_old k z ne e =
      let old = c.payments k z e in
      record { keyed = old.keyed; hold_key = old.hold_key; indexed = index k ∙ old.indexed }

  hold_new : HoldOk s' r.hold.id r.hold
  hold_new = record {
    keyed = refl;
    indexed = ground (arith, index r.hold.payment_id, hold_ok, y);
    payer = r.payer;
    found_payer = grind (arith, lookup-insert, w.payers, ids, hold_facts, y);
    row = w.row;
    found_payment = grind (arith, lookup-insert, w.payments, hold_payment, y);
    same_amount = ground (arith, w.row_payment, hold_facts, y);
    same_payer = ground (arith, w.row_payment, hold_facts, y);
    agreed = ground (arith, w.row_payment, y.agreed);
  }

  -- Another hold is one of another payment.
  other_payment :
      (k : Text) (z : Hold)
      → k ≢ r.hold.id
      → lookup k s.payments.holds ≡ some z
      → z.payment_id ≢ p.id
  other_payment k z ne e = ground (arith, c.holds k z e, hold_ok, hold_payment, ids)

  hold_old :
      (k : Text) (z : Hold) → k ≢ r.hold.id → lookup k s.payments.holds ≡ some z → HoldOk s' k z
  hold_old k z ne e =
      let old = c.holds k z e in
      record {
        keyed = old.keyed;
        indexed = index z.payment_id ∙ old.indexed;
        payer = if text_eq z.payer_id r.payer.id then r.payer else old.payer;
        found_payer =
            grind (arith, lookup-insert z.payer_id r.payer.id r.payer s.payers, w.payers, old);
        row = old.row;
        found_payment = grind (arith, lookup-insert, w.payments, old, other_payment k z ne e, y);
        same_amount = old.same_amount;
        same_payer = old.same_payer;
        agreed = old.agreed;
      }

  pub closing-IsConsistent : IsConsistent s'
  closing-IsConsistent = record {
    payments_map = rw w.payments (insert-IsMap r.payment.id w.row _ c.payments_map);
    holds_map = rw w.holds (insert-IsMap r.hold.id r.hold _ c.holds_map);
    payers = insert-Entries (PayerOk s') r.payer.id r.payer _ w.payers payer_new payer_old;
    payments =
        insert-Entries (PaymentOk s') r.payment.id w.row _ w.payments payment_new payment_old;
    holds = insert-Entries (HoldOk s') r.hold.id r.hold _ w.holds hold_new hold_old;
  }
