-- ===== src/Payment/Service/Rows.antt =====
-- What one successful write of the payment service does to the tables.
use paycore.Base.{◌≡◌, ok, none, some, inl, inr, arith, Option-cases}
use paycore.Base.Dict.{lookup, insert, find_value, lookup-insert_self}
use paycore.Database.{Columns}
use paycore.Outbox.{Event, NewEventInput}
use paycore.Outbox.Postgres.{create_event_row}
use paycore.Payer.{Payer}
use paycore.Payer.Postgres.{kept_payer, get_payer_row, update_payer_row, missed_payer_row}
use paycore.Payment.{Payment, Hold}
use paycore.Payment.Postgres.{
  PaymentRow, kept_payment, kept_hold, holds_payment, create_payment_row, update_payment_row,
  create_hold_row, update_hold_row,
}
use paycore.Payment.Service.{emit}
use paycore.World.{World, Stores, on_payers_twice, on_holds, on_payments}

abbrev pub with_payers : Stores → Payer → Payer → Stores
with_payers s q r = record s { payers = insert q.id r s.payers }

abbrev pub with_hold : Stores → Hold → Hold → Stores
with_hold s q r = record s {
  payments = record (s.payments) { holds = insert q.id r s.payments.holds };
}

abbrev pub with_row : Stores → Payment → PaymentRow → Stores
with_row s q row = record s {
  payments = record (s.payments) { payments = insert q.id row s.payments.payments };
}

module _ ⦃c : Columns⦄ where
  pub record UpdatesPayer (q r : Payer) (s s' : Stores) : Type 0 where
    pub old : Payer
    pub found : lookup q.id s.payers ≡ some old
    pub kept : r ≡ record (kept_payer q) { created_at = old.created_at }
    pub written : s' ≡ with_payers s q r

  pub record UpdatesHold (q r : Hold) (s s' : Stores) : Type 0 where
    pub old : Hold
    pub found : lookup q.id s.payments.holds ≡ some old
    pub kept : r ≡ record (kept_hold q) { created_at = old.created_at }
    pub written : s' ≡ with_hold s q r

  pub record UpdatesPayment (q r : Payment) (s s' : Stores) : Type 0 where
    pub old : PaymentRow
    pub found : lookup q.id s.payments.payments ≡ some old
    pub kept : r ≡ record (kept_payment q) { created_at = old.payment.created_at }
    pub written : s' ≡ with_row s q (record old { payment = r })

  pub update_payer_row-Updates :
      (q : Payer) (w : World) {r : Payer} {w' : World}
      → on_payers_twice (λ e later. update_payer_row e later q) w ≡ (ok r, w')
      → UpdatesPayer q r w.stores w'.stores
  unfolding update_payer_row get_payer_row missed_payer_row
  update_payer_row-Updates q w {r} {w'} h = elim (Option-cases (lookup q.id w.stores.payers)) [
    | inl e ↦ absurd (ground arith)
    | inr (old, e) ↦
        let q' : Payer = record (kept_payer q) { created_at = old.created_at } in
        let stored = lookup-insert_self q.id q' w.stores.payers in
        record {
          old = old;
          found = e;
          kept = ground (arith, stored);
          written = ground (arith, stored);
        }
  ]

  pub update_hold_row-Updates :
      (q : Hold) (w : World) {r : Hold} {w' : World}
      → on_holds (λ e. update_hold_row e q) w ≡ (ok r, w')
      → UpdatesHold q r w.stores w'.stores
  unfolding update_hold_row
  update_hold_row-Updates q w h = elim (Option-cases (lookup q.id w.stores.payments.holds)) [
    | inl e ↦ absurd (ground arith)
    | inr (old, e) ↦ record { old = old; found = e; kept = ground arith; written = ground arith }
  ]

  pub update_payment_row-Updates :
      (q : Payment) (w : World) {r : Payment} {w' : World}
      → on_payments (λ e. update_payment_row e q) w ≡ (ok r, w')
      → UpdatesPayment q r w.stores w'.stores
  unfolding update_payment_row
  update_payment_row-Updates q w h = elim (Option-cases (lookup q.id w.stores.payments.payments)) [
    | inl e ↦ absurd (ground arith)
    | inr (old, e) ↦ record { old = old; found = e; kept = ground arith; written = ground arith }
  ]

  pub create_payment_row-creates :
      (q : Payment) (w : World) {r : Payment} {w' : World}
      → on_payments (λ e. create_payment_row e q) w ≡ (ok r, w')
      → (r ≡ kept_payment q)
        × (lookup q.id w.stores.payments.payments ≡ none)
        × (w'.stores ≡ with_row w.stores q (record { payment = r; settlement_batch_id = none }))
  unfolding create_payment_row
  create_payment_row-creates q w h = ground arith

  pub create_hold_row-creates :
      (q : Hold) (w : World) {r : Hold} {w' : World}
      → on_holds (λ e. create_hold_row e q) w ≡ (ok r, w')
      → (r ≡ kept_hold q)
        × (lookup q.id w.stores.payments.holds ≡ none)
        × (find_value (holds_payment q.payment_id) w.stores.payments.holds ≡ none)
        × (w'.stores ≡ with_hold w.stores q r)
  unfolding create_hold_row
  create_hold_row-creates q w h = ground arith

  -- An event leaves the other tables.
  pub emit-leaves :
      (input : NewEventInput) (w : World) {event : Event} {w' : World}
      → emit input w ≡ (ok event, w')
      → (w'.stores.merchants ≡ w.stores.merchants)
        × (w'.stores.payers ≡ w.stores.payers)
        × (w'.stores.payments ≡ w.stores.payments)
  unfolding create_event_row
  emit-leaves input w h = ground arith
