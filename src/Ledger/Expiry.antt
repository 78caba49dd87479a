-- ===== src/Ledger/Expiry.antt =====
-- The expiry loop keeps the tables consistent, though it works on payments that it read
-- before its first round.
use paycore.Base.{ℕ, ◌≡◌, List, [], ◌∷◌, Result, ok, arith, if◌then◌else◌}
use paycore.Base.Int.{ℤ}
use paycore.Payment.Postgres.{list_expired_payment_rows}
use paycore.Base.Text.{text_eq}
use paycore.Base.Dict.{lookup-insert}
use paycore.Database.{Columns}
use paycore.Currency.{Unicode}
use paycore.Ledger.{IsConsistent}
use paycore.Ledger.Snapshots.{IsSnapshot, AreSnapshots, list-AreSnapshots}
use paycore.Ledger.Close.{closing-IsConsistent}
use paycore.Ledger.Services.{expired-Closing}
use mathlib.Core.Path.{subst}
use paycore.Payer.{Payer}
use paycore.Payment.{Payment, Hold, expire}
use paycore.Payment.Service.{PaymentResult, expire_one, expire_all, expire_tx}
use paycore.Payment.Service.Writes.{Writes, Closes, Closed-Writes}
use paycore.Payment.Service.Writes.Expiry.{expire_one-Reads, expire_one-Closes}
use paycore.World.{World, Action, Stores, ◌>>=◌, pure, on_payments, locked_rows}
use paycore.World.Run.{>>=-eq-ok}

module _ ⦃u : Unicode⦄ ⦃columns : Columns⦄ where
  expire_one-IsConsistent :
      (now : ℕ) (p : Payment) (w : World) {r : PaymentResult} {w' : World}
      → IsConsistent w.stores
      → IsSnapshot w.stores p
      → expire_one now p w ≡ (ok r, w')
      → IsConsistent w'.stores
  expire_one-IsConsistent now p w {r} {w'} c snap e =
      let x = expire_one-Reads now p w e in
      let y = expire_one-Closes now p w e x in
      let v = (c.payers p.payer_id x.payer x.found_payer).solvent in
      closing-IsConsistent c snap.found snap.same_amount snap.same_payer x
        (expired-Closing now p x.hold x.payer r w.stores w'.stores v y)
        (Closed-Writes y.new_payment y.new_hold y.new_payer r w.stores w'.stores y.closed)

  -- A round changes neither the amount nor the payer of any payment.
  round-IsSnapshot :
      (p q : Payment) (r : PaymentResult) (s s' : Stores)
      → Writes r s s'
      → r.payment.id ≡ p.id
      → r.payment.amount ≡ p.amount
      → r.payment.payer_id ≡ p.payer_id
      → IsSnapshot s p
      → IsSnapshot s q
      → IsSnapshot s' q
  round-IsSnapshot p q r s s' w e1 e2 e3 a b = record {
    current = if text_eq q.id r.payment.id then w.row else b.current;
    found = grind (arith, lookup-insert q.id r.payment.id w.row s.payments.payments, w.payments, b);
    same_amount = ground (arith, w.row_payment, a, b);
    same_payer = ground (arith, w.row_payment, a, b);
  }

  round-AreSnapshots :
      (p : Payment) (ps : List Payment) (r : PaymentResult) (s s' : Stores)
      → Writes r s s'
      → r.payment.id ≡ p.id
      → r.payment.amount ≡ p.amount
      → r.payment.payer_id ≡ p.payer_id
      → IsSnapshot s p
      → AreSnapshots s ps
      → AreSnapshots s' ps
  round-AreSnapshots p [] r s s' w e1 e2 e3 a b = tt
  round-AreSnapshots p (q ∷ ps) r s s' w e1 e2 e3 a b = (
    round-IsSnapshot p q r s s' w e1 e2 e3 a b.0,
    round-AreSnapshots p ps r s s' w e1 e2 e3 a b.1,
  )

  expire_same :
      (p : Payment) (now : ℕ) (k : Result Hold) (y : Result Payer) (r : PaymentResult)
      (s s' : Stores)
      → Closes (expire p now) k y r s s'
      → (r.payment.id ≡ p.id) × (r.payment.amount ≡ p.amount) × (r.payment.payer_id ≡ p.payer_id)
  unfolding expire
  expire_same p now k y r s s' x = ground (arith, x)

  -- What the loop does after a round.
  abbrev after_round : ℕ → List Payment → PaymentResult → Action (List PaymentResult)
  after_round now ps r = expire_all now ps >>= λ rs. pure (r ∷ rs)

  pub expire_all-IsConsistent :
      (now : ℕ) (ps : List Payment) (w : World) {rs : List PaymentResult} {w' : World}
      → IsConsistent w.stores
      → AreSnapshots w.stores ps
      → expire_all now ps w ≡ (ok rs, w')
      → IsConsistent w'.stores
  unfolding expire_all
  expire_all-IsConsistent now [] w c snaps e = ground (arith, c)
  expire_all-IsConsistent now (p ∷ ps) w {rs} {w'} c snaps e =
      let (r, v, e1, e2) = >>=-eq-ok (expire_one now p) (after_round now ps) w e in
      let (rs', v', e3, e4) =
        >>=-eq-ok (expire_all now ps) (λ (z : List PaymentResult). pure (r ∷ z)) v e2 in
      let x = expire_one-Reads now p w e1 in
      let z = expire_one-Closes now p w e1 x in
      let (i, a, y) = expire_same p now _ _ r w.stores v.stores z in
      let writes =
        Closed-Writes z.new_payment z.new_hold z.new_payer r w.stores v.stores z.closed in
      let c' = expire_one-IsConsistent now p w c snaps.0 e1 in
      let snaps' = round-AreSnapshots p ps r w.stores v.stores writes i a y snaps.0 snaps.1 in
      let c'' = expire_all-IsConsistent now ps v {rs = rs'} {w' = v'} c' snaps' e3 in
      let last : v' ≡ w' = cc in subst (λ (z : World). IsConsistent z.stores) last c''

module _ ⦃u : Unicode⦄ ⦃columns : Columns⦄ where
  pub expire_tx-IsConsistent :
      (now : ℕ) (limit : ℤ) (w : World) {rs : List PaymentResult} {w' : World}
      → IsConsistent w.stores
      → expire_tx now limit w ≡ (ok rs, w')
      → IsConsistent w'.stores
  unfolding expire_tx
  expire_tx-IsConsistent now limit w {rs} {w'} c e =
      let (locked, z, e1, e2) =
        >>=-eq-ok locked_rows
          (λ locked.
            (on_payments λ x. list_expired_payment_rows x locked now limit) >>= expire_all now)
          w e in
      let (ps, v, e3, e4) =
        >>=-eq-ok (on_payments λ x. list_expired_payment_rows x locked now limit) (expire_all now) z
          e2 in
      let c' = subst IsConsistent (ground arith) c in
      let (same, snaps) = list-AreSnapshots locked now limit z c' e3 in
      expire_all-IsConsistent now ps v {rs = rs} {w' = w'} (rw same c') (rw same snaps) e4
