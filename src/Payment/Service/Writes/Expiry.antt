-- ===== src/Payment/Service/Writes/Expiry.antt =====
-- What a successful round of the expiry reads and writes.
use mathlib.Core.Path.{subst, subst₂}
use paycore.Base.{sym, ℕ, ◌≡◌, ok, inl, inr, arith, Option-cases}
use paycore.Base.Dict.{lookup, find_value}
use paycore.Currency.{Unicode}
use paycore.Database.{Columns}
use paycore.Payer.{Payer, release}
use paycore.Payer.Postgres.{get_payer_row, update_payer_row}
use paycore.Payment.{Payment, Hold, expire, release_hold}
use paycore.Payment.Postgres.{
  holds_payment, update_payment_row, get_hold_row_by_payment_id, update_hold_row,
}
use paycore.Payment.Service.{PaymentResult, expire_one}
use paycore.Payment.Service.{emit, expired_event, release_payer, release_held, expire_payment}
use paycore.Payment.Service.Rows.{
  UpdatesPayer, UpdatesHold, UpdatesPayment, update_payer_row-Updates, update_hold_row-Updates,
  update_payment_row-Updates, emit-leaves,
}
use paycore.World.{World, Action, next, lift, pure, ◌>>=◌, on_payers_twice, on_holds, on_payments}
use paycore.World.Run.{>>=-eq-ok}
use paycore.Payment.Service.Writes.{Reads, Closed, Closes, Closed-made, emitted}

module _ ⦃u : Unicode⦄ ⦃c : Columns⦄ where
  abbrev payment_expired : ℕ → Payment → Payer → Hold → Action PaymentResult
  payment_expired now p y' k' =
      expire_payment now p >>= emitted (λ p' k'. expired_event p' k' now) y' k'

  abbrev hold_released : ℕ → Payment → Hold → Payer → Action PaymentResult
  hold_released now p k y' = release_held now k >>= payment_expired now p y'

  abbrev payer_released : ℕ → Payment → Hold → Payer → Action PaymentResult
  payer_released now p k y = release_payer now p y >>= hold_released now p k

  release_payer-Updates :
      (now : ℕ) (p : Payment) (y : Payer) (w : World) {y' : Payer} {w' : World}
      → release_payer now p y w ≡ (ok y', w')
      → (q : Payer) × (release y p.amount p.currency now ≡ ok q)
        × UpdatesPayer q y' w.stores w'.stores
  unfolding release_payer
  release_payer-Updates now p y w {y'} {w'} h =
      let (q, w1, e1, h1) =
        >>=-eq-ok (lift (release y p.amount p.currency now))
          (λ q. on_payers_twice λ e later. update_payer_row e later q) w h in
      let same : w ≡ w1 = cc in
      (
        q,
        cc,
        subst (λ (v : World). UpdatesPayer q y' v.stores w'.stores) (sym same)
            (update_payer_row-Updates q w1 h1),
      )

  release_held-Updates :
      (now : ℕ) (k : Hold) (w : World) {k' : Hold} {w' : World}
      → release_held now k w ≡ (ok k', w')
      → (q : Hold) × (release_hold k now ≡ ok q) × UpdatesHold q k' w.stores w'.stores
  unfolding release_held
  release_held-Updates now k w {k'} {w'} h =
      let (q, w1, e1, h1) =
        >>=-eq-ok (lift (release_hold k now)) (λ q. on_holds λ e. update_hold_row e q) w h in
      let same : w ≡ w1 = cc in
      (
        q,
        cc,
        subst (λ (v : World). UpdatesHold q k' v.stores w'.stores) (sym same)
            (update_hold_row-Updates q w1 h1),
      )

  expire_payment-Updates :
      (now : ℕ) (p : Payment) (w : World) {p' : Payment} {w' : World}
      → expire_payment now p w ≡ (ok p', w')
      → (q : Payment) × (expire p now ≡ ok q) × UpdatesPayment q p' w.stores w'.stores
  unfolding expire_payment
  expire_payment-Updates now p w {p'} {w'} h =
      let (q, w1, e1, h1) =
        >>=-eq-ok (lift (expire p now)) (λ q. on_payments λ e. update_payment_row e q) w h in
      let same : w ≡ w1 = cc in
      (
        q,
        cc,
        subst (λ (v : World). UpdatesPayment q p' v.stores w'.stores) (sym same)
            (update_payment_row-Updates q w1 h1),
      )

  pub expire_one-Reads :
      (now : ℕ) (p : Payment) (w : World) {r : PaymentResult} {w' : World}
      → expire_one now p w ≡ (ok r, w')
      → Reads p w.stores
  unfolding expire_one get_hold_row_by_payment_id get_payer_row
  expire_one-Reads now p w h =
      elim (Option-cases (find_value (holds_payment p.id) w.stores.payments.holds)) [
        | inl e2 ↦ absurd (ground arith)
        | inr (x, e2) ↦ elim (Option-cases (lookup p.payer_id w.stores.payers)) [
          | inl e3 ↦ absurd (ground arith)
          | inr (y, e3) ↦ record { hold = x; payer = y; found_hold = e2; found_payer = e3 }
        ]
      ]

  payer_released-Closes :
      (now : ℕ) (p : Payment) (k : Hold) (y : Payer) (w : World) {r : PaymentResult} {w' : World}
      → payer_released now p k y w ≡ (ok r, w')
      → Closes
          (expire p now)
          (release_hold k now)
          (release y p.amount p.currency now)
          r
          w.stores
          w'.stores
  payer_released-Closes now p k y w {r} {w'} h =
      let (y', w1, e1, h1) = >>=-eq-ok (release_payer now p y) (hold_released now p k) w h in
      let (k', w2, e2, h2) = >>=-eq-ok (release_held now k) (payment_expired now p y') w1 h1 in
      let (p', w3, e3, h3) =
        >>=-eq-ok (expire_payment now p) (emitted (λ p' k'. expired_event p' k' now) y' k') w2 h2 in
      let (event, w4, e4, h4) =
        >>=-eq-ok (emit (expired_event p' k' now))
          (λ _. pure (record { payment = p'; hold = k'; payer = y' })) w3 h3 in
      let (_, same_payers, same) = emit-leaves (expired_event p' k' now) w3 e4 in
      let made : record { payment = p'; hold = k'; payer = y' } ≡ r = ground arith in
      let last : w4 ≡ w' = cc in
      let (qy, my, ay) = release_payer-Updates now p y w e1 in
      let (qk, mk, ak) = release_held-Updates now k w1 e2 in
      let (qp, mp, ap) = expire_payment-Updates now p w2 e3 in
      record {
        new_payment = qp;
        made_payment = mp;
        new_hold = qk;
        made_hold = mk;
        new_payer = qy;
        made_payer = my;
        closed =
            subst₂ (λ z v. Closed qp qk qy z w.stores v.stores) made last
              (Closed-made qp qk qy (record { payment = p'; hold = k'; payer = y' }) w.stores
                w1.stores w2.stores w3.stores w4.stores ay ak ap (same_payers, same));
      }

  pub expire_one-Closes :
      (now : ℕ) (p : Payment) (w : World) {r : PaymentResult} {w' : World}
      → expire_one now p w ≡ (ok r, w')
      → (x : Reads p w.stores)
      → Closes
          (expire p now)
          (release_hold x.hold now)
          (release x.payer p.amount p.currency now)
          r
          w.stores
          w'.stores
  unfolding expire_one get_hold_row_by_payment_id get_payer_row
  expire_one-Closes now p w {r} {w'} h x =
      let v : World = record w { ctx = (next (next w.ctx).1).1 } in
      let ran : payer_released now p x.hold x.payer v ≡ (ok r, w') = ground (arith, x) in
      payer_released-Closes now p x.hold x.payer v ran
