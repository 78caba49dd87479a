-- ===== src/Payment/Service/Writes/Authorization.antt =====
-- What a successful authorization reads and writes.
use mathlib.Core.Path.{subst, subst₂}
use paycore.Base.{
  ℕ, ◌+◌, ◌≡◌, refl, true, none, some, ok, inl, inr, arith, Option-cases, Result-cases,
}
use paycore.Base.Text.{trim_space}
use paycore.Base.Dict.{lookup, insert, find_value}
use paycore.Currency.{Unicode}
use paycore.Database.{Columns}
use paycore.Merchant.{Merchant, can_create_payments}
use paycore.Merchant.Postgres.{get_merchant_row}
use paycore.Payer.{Payer, reserve}
use paycore.Payer.Postgres.{kept_payer, get_payer_row, update_payer_row}
use paycore.Payment.{
  Payment, Hold, authorized, held, new_hold, new_authorized_payment, capture, expire, capture_hold,
  release_hold,
}
use paycore.Payment as P
use paycore.Payment.Postgres.{
  kept_payment, kept_hold, holds_payment, create_payment_row, create_hold_row,
}
use paycore.Payment.Service.{AuthorizePaymentInput, PaymentResult, authorize_tx, authorization_ttl}
use paycore.Payment.Service.{emit, authorized_event, write_authorization, make_authorization}
use paycore.Payment.Service.Rows.{
  update_payer_row-Updates, create_payment_row-creates, create_hold_row-creates, emit-leaves,
}
use paycore.World.{World, Action, Stores, next, pure, ◌>>=◌, on_payers_twice, on_holds, on_payments}
use paycore.World.Run.{>>=-eq-ok}
use paycore.Payment.Service.Writes.{Writes, emitted}

-- What an authorization reads.
pub record AuthorizeReads (input : AuthorizePaymentInput) (s : Stores) : Type 0 where
  pub merchant : Merchant
  pub payer : Payer
  pub found_merchant : lookup input.merchant_id s.merchants ≡ some merchant
  pub found_payer : lookup input.payer_id s.payers ≡ some payer

-- The records that it makes, from the merchant and the payer that it has read.
pub record Makes ⦃u : Unicode⦄ (now : ℕ) (input : AuthorizePaymentInput) (merchant : Merchant)
    (payer : Payer) (p : Payment) (k : Hold) (q : Payer) : Type 0 where
  pub may : can_create_payments merchant ≡ true
  pub reserved : reserve payer input.amount input.currency now ≡ ok q
  pub status : p.status ≡ P.authorized
  pub merchant_id : p.merchant_id ≡ trim_space merchant.id
  pub payer_id : p.payer_id ≡ trim_space payer.id
  pub amount : p.amount ≡ input.amount
  pub expires_at : p.expires_at ≡ now + authorization_ttl
  pub hold_status : k.status ≡ P.held
  pub hold_payment : k.payment_id ≡ p.id
  pub hold_payer : k.payer_id ≡ trim_space payer.id
  pub hold_amount : k.amount ≡ input.amount

module _ ⦃u : Unicode⦄ ⦃c : Columns⦄ where
  pub authorize_tx-reads :
      (now : ℕ) (input : AuthorizePaymentInput) (w : World) {r : PaymentResult} {w' : World}
      → authorize_tx now input w ≡ (ok r, w')
      → AuthorizeReads input w.stores
  unfolding authorize_tx get_merchant_row get_payer_row
  authorize_tx-reads now input w h =
      elim (Option-cases (lookup input.merchant_id w.stores.merchants)) [
        | inl e ↦ absurd (ground arith)
        | inr (m, e) ↦ elim (Option-cases (lookup input.payer_id w.stores.payers)) [
          | inl e2 ↦ absurd (ground arith)
          | inr (y, e2) ↦ record { merchant = m; payer = y; found_merchant = e; found_payer = e2 }
        ]
      ]

  abbrev hold_stored : ℕ → Hold → Payer → Payment → Action PaymentResult
  hold_stored now k y' p' = on_holds (λ e. create_hold_row e k) >>= λ k'.
      emitted (λ p' k'. authorized_event p' k' now) y' k' p'

  abbrev payment_stored : ℕ → Payment → Hold → Payer → Action PaymentResult
  payment_stored now p k y' = on_payments (λ e. create_payment_row e p) >>= hold_stored now k y'

  -- What the writes of an authorization find and leave.
  pub record Opened (p : Payment) (k : Hold) (y : Payer) (r : PaymentResult) (s s' : Stores)
      : Type 0 where
    pub old_payer : Payer
    pub opened_payer : r.payer ≡ record (kept_payer y) { created_at = old_payer.created_at }
    pub opened_payment : r.payment ≡ kept_payment p
    pub opened_hold : r.hold ≡ kept_hold k
    pub free_payment : lookup p.id s.payments.payments ≡ none
    pub free_hold : lookup k.id s.payments.holds ≡ none
    pub free_index : find_value (holds_payment k.payment_id) s.payments.holds ≡ none
    pub payers : s'.payers ≡ insert y.id r.payer s.payers
    pub payments :
        s'.payments.payments
        ≡ insert p.id
            (record { payment = r.payment; settlement_batch_id = none })
            s.payments.payments
    pub holds : s'.payments.holds ≡ insert k.id r.hold s.payments.holds

  write_authorization-Opened :
      (now : ℕ) (p : Payment) (k : Hold) (y : Payer) (w : World) {r : PaymentResult} {w' : World}
      → write_authorization now p k y w ≡ (ok r, w')
      → Opened p k y r w.stores w'.stores
  unfolding write_authorization
  write_authorization-Opened now p k y w {r} {w'} h =
      let (y', w1, e1, h1) =
        >>=-eq-ok (on_payers_twice λ e later. update_payer_row e later y) (payment_stored now p k) w
          h in
      let (p', w2, e2, h2) =
        >>=-eq-ok (on_payments λ e. create_payment_row e p) (hold_stored now k y') w1 h1 in
      let (k', w3, e3, h3) =
        >>=-eq-ok (on_holds λ e. create_hold_row e k)
          (λ k'. emitted (λ p' k'. authorized_event p' k' now) y' k' p') w2 h2 in
      let (event, w4, e4, h4) =
        >>=-eq-ok (emit (authorized_event p' k' now))
          (λ _. pure (record { payment = p'; hold = k'; payer = y' })) w3 h3 in
      let (_, same_payers, same) = emit-leaves (authorized_event p' k' now) w3 e4 in
      let made : record { payment = p'; hold = k'; payer = y' } ≡ r = ground arith in
      let last : w4 ≡ w' = cc in
      let a = update_payer_row-Updates y w e1 in
      let (kept_p, free_p, put_p) = create_payment_row-creates p w1 e2 in
      let (kept_k, free_k, free_i, put_k) = create_hold_row-creates k w2 e3 in
      subst₂ (λ z v. Opened p k y z w.stores v.stores) made last
        (record {
          old_payer = a.old;
          opened_payer = a.kept;
          opened_payment = kept_p;
          opened_hold = kept_k;
          free_payment = ground (arith, a.written, free_p);
          free_hold = ground (arith, a.written, put_p, free_k);
          free_index = ground (arith, a.written, put_p, free_i);
          payers = ground (arith, a.written, put_p, put_k, same_payers);
          payments = ground (arith, a.written, put_p, put_k, same);
          holds = ground (arith, a.written, put_p, put_k, same);
        })

  make_authorization-Makes :
      (now : ℕ) (input : AuthorizePaymentInput) (m : Merchant) (y : Payer) (w : World) {p : Payment}
      {k : Hold} {q : Payer} {w' : World}
      → can_create_payments m ≡ true
      → make_authorization now input m y w ≡ (ok (p, k, q), w')
      → Makes now input m y p k q × (w'.stores ≡ w.stores)
  unfolding make_authorization new_hold new_authorized_payment
  make_authorization-Makes now input m y w may h = ground arith

  -- What an authorization makes, and what it writes of it.
  pub record Authorizes (now : ℕ) (input : AuthorizePaymentInput) (m : Merchant) (y : Payer)
      (r : PaymentResult) (s s' : Stores) : Type 0 where
    pub new_payment : Payment
    pub new_hold : Hold
    pub new_payer : Payer
    pub makes : Makes now input m y new_payment new_hold new_payer
    pub opened : Opened new_payment new_hold new_payer r s s'

  pub authorize_tx-Authorizes :
      (now : ℕ) (input : AuthorizePaymentInput) (w : World) {r : PaymentResult} {w' : World}
      → authorize_tx now input w ≡ (ok r, w')
      → (m : Merchant) (y : Payer) → lookup input.merchant_id w.stores.merchants ≡ some m
      → lookup input.payer_id w.stores.payers ≡ some y
      → Authorizes now input m y r w.stores w'.stores
  unfolding authorize_tx get_merchant_row get_payer_row
  authorize_tx-Authorizes now input w {r} {w'} h m y e1 e2 =
      let v : World = record w { ctx = (next (next w.ctx).1).1 } in
      elim (Result-cases (make_authorization now input m y v).0) [
        | inr (e, f) ↦ absurd (ground arith)
        | inl (made, f) ↦
            let v' = (make_authorization now input m y v).1 in
            let ran : write_authorization now made.0 made.1 made.2 v' ≡ (ok r, w') = ground arith in
            let (makes, same) =
              make_authorization-Makes now input m y v {p = made.0} {k = made.1} {q = made.2}
                {w' = v'} (ground arith) (ground arith) in
            record {
              new_payment = made.0;
              new_hold = made.1;
              new_payer = made.2;
              makes = makes;
              opened =
                  subst (λ (z : Stores). Opened made.0 made.1 made.2 r z w'.stores) same
                    (write_authorization-Opened now made.0 made.1 made.2 v' ran);
            }
      ]

pub Opened-Writes :
    ⦃u : Unicode⦄ ⦃c : Columns⦄ (p : Payment) (k : Hold) (y : Payer) (r : PaymentResult)
    (s s' : Stores)
    → Opened p k y r s s'
    → Writes r s s'
Opened-Writes p k y r s s' w = record {
  payers = ground (arith, w.opened_payer, w.payers);
  row = record { payment = r.payment; settlement_batch_id = none };
  row_payment = refl;
  payments = ground (arith, w.opened_payment, w.payments);
  holds = ground (arith, w.opened_hold, w.holds);
}
