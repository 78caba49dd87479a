-- ===== src/Payment/Service/Writes/Capture.antt =====
-- What a successful capture reads and writes.
use mathlib.Core.Path.{subst₂}
use paycore.Base.{ℕ, ◌≡◌, some, ok, inl, inr, arith, Option-cases, Result-cases}
use paycore.Base.Text.{Text}
use paycore.Base.Dict.{lookup, find_value}
use paycore.Currency.{Unicode}
use paycore.Database.{Columns}
use paycore.Payer.{Payer, capture_held}
use paycore.Payer.Postgres.{get_payer_row, update_payer_row}
use paycore.Payment.{Payment, Hold, capture, capture_hold}
use paycore.Payment.Postgres.{
  PaymentRow, holds_payment, get_payment_row, update_payment_row, get_hold_row_by_payment_id,
  update_hold_row,
}
use paycore.Payment.Service.{PaymentResult, capture_tx}
use paycore.Payment.Service.{emit, captured_event, write_capture}
use paycore.Payment.Service.Rows.{
  update_payer_row-Updates, update_hold_row-Updates, update_payment_row-Updates, emit-leaves,
}
use paycore.World.{World, Action, next, pure, ◌>>=◌, on_payers_twice, on_holds, on_payments}
use paycore.World.Run.{>>=-eq-ok}
use paycore.Payment.Service.Writes.{Reads, Closed, Closes, Closed-made, emitted}

module _ ⦃u : Unicode⦄ ⦃c : Columns⦄ where
  abbrev payment_captured : ℕ → Payment → Payer → Hold → Action PaymentResult
  payment_captured now p y' k' =
      on_payments (λ e. update_payment_row e p)
      >>= emitted (λ p' k'. captured_event p' k' now) y' k'

  abbrev hold_captured : ℕ → Payment → Hold → Payer → Action PaymentResult
  hold_captured now p k y' = on_holds (λ e. update_hold_row e k) >>= payment_captured now p y'

  write_capture-Closed :
      (now : ℕ) (p : Payment) (k : Hold) (y : Payer) (w : World) {r : PaymentResult} {w' : World}
      → write_capture now p k y w ≡ (ok r, w')
      → Closed p k y r w.stores w'.stores
  unfolding write_capture
  write_capture-Closed now p k y w {r} {w'} h =
      let (y', w1, e1, h1) =
        >>=-eq-ok (on_payers_twice λ e later. update_payer_row e later y) (hold_captured now p k) w
          h in
      let (k', w2, e2, h2) =
        >>=-eq-ok (on_holds λ e. update_hold_row e k) (payment_captured now p y') w1 h1 in
      let (p', w3, e3, h3) =
        >>=-eq-ok (on_payments λ e. update_payment_row e p)
          (emitted (λ p' k'. captured_event p' k' now) y' k') w2 h2 in
      let (event, w4, e4, h4) =
        >>=-eq-ok (emit (captured_event p' k' now))
          (λ _. pure (record { payment = p'; hold = k'; payer = y' })) w3 h3 in
      let (_, same_payers, same) = emit-leaves (captured_event p' k' now) w3 e4 in
      let made : record { payment = p'; hold = k'; payer = y' } ≡ r = ground arith in
      let last : w4 ≡ w' = cc in
      subst₂ (λ z v. Closed p k y z w.stores v.stores) made last
        (Closed-made p k y (record { payment = p'; hold = k'; payer = y' }) w.stores w1.stores
          w2.stores w3.stores w4.stores (update_payer_row-Updates y w e1)
          (update_hold_row-Updates k w1 e2) (update_payment_row-Updates p w2 e3)
          (same_payers, same))

  pub capture_tx-Reads :
      (now : ℕ) (id : Text) (w : World) {r : PaymentResult} {w' : World}
      → capture_tx now id w ≡ (ok r, w')
      → (row : PaymentRow) × (lookup id w.stores.payments.payments ≡ some row)
        × Reads row.payment w.stores
  unfolding capture_tx get_payment_row get_hold_row_by_payment_id get_payer_row
  capture_tx-Reads now id w h = elim (Option-cases (lookup id w.stores.payments.payments)) [
    | inl e ↦ absurd (ground arith)
    | inr (row, e) ↦
        elim (Option-cases (find_value (holds_payment row.payment.id) w.stores.payments.holds)) [
          | inl e2 ↦ absurd (ground arith)
          | inr (x, e2) ↦ elim (Option-cases (lookup row.payment.payer_id w.stores.payers)) [
            | inl e3 ↦ absurd (ground arith)
            | inr (y, e3) ↦
                (row, e, record { hold = x; payer = y; found_hold = e2; found_payer = e3 })
          ]
        ]
  ]

  pub capture_tx-Closes :
      (now : ℕ) (id : Text) (w : World) {r : PaymentResult} {w' : World}
      → capture_tx now id w ≡ (ok r, w')
      → (row : PaymentRow) (x : Reads row.payment w.stores)
      → lookup id w.stores.payments.payments ≡ some row
      → Closes
          (capture row.payment now)
          (capture_hold x.hold now)
          (capture_held x.payer row.payment.amount row.payment.currency now)
          r
          w.stores
          w'.stores
  unfolding capture_tx get_payment_row get_hold_row_by_payment_id get_payer_row
  capture_tx-Closes now id w {r} {w'} h row x e = elim (Result-cases (capture row.payment now)) [
    | inr (_, e1) ↦ absurd (ground (arith, x))
    | inl (p, e1) ↦ elim (Result-cases (capture_hold x.hold now)) [
      | inr (_, e2) ↦ absurd (ground (arith, x))
      | inl (k, e2) ↦
          elim (Result-cases (capture_held x.payer row.payment.amount row.payment.currency now)) [
            | inr (_, e3) ↦ absurd (ground (arith, x))
            | inl (y, e3) ↦
                let (_, c1) = next w.ctx in
                let (_, c2) = next c1 in
                let v : World = record w { ctx = (next c2).1 } in
                let ran : write_capture now p k y v ≡ (ok r, w') = ground (arith, x) in
                record {
                  new_payment = p;
                  made_payment = e1;
                  new_hold = k;
                  made_hold = e2;
                  new_payer = y;
                  made_payer = e3;
                  closed = write_capture-Closed now p k y v ran;
                }
          ]
    ]
  ]
