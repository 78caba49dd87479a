-- ===== src/Settlement/Books/Outside.antt =====
-- What a settlement batch does to the payments outside its window.
pub mod Batch
use mathlib.Core.Path.{subst}
use paycore.Base.{
  ℕ, ◌≡◌, ◌≢◌, sym, refl, ap, ◌∙◌, true, false, Bool, Option, none, some, List, [], ◌∷◌, ok, err,
  inl, inr, arith, Option-cases, Bool-cases, Result-cases,
}
use paycore.Base.Dict.{Dict, lookup, insert, lookup-insert, IsMap-listed, All-map, filter_values}
use paycore.Base.Every.{Every, Every-map, take-Every, sort-Every, filter_values-Every}
use paycore.Base.Int.{pos, leb_ℤ}
use paycore.Base.Text.{Text, trim_space}
use paycore.Currency.{Unicode}
use paycore.Database.{Columns}
use paycore.Errors.{Error}
use paycore.Payment.{Payment}
use paycore.Payment.Postgres.{PaymentRow}
use paycore.Settlement.{LineItem}
use paycore.Settlement.Postgres.{
  ClaimedPayment, ClaimCapturedPaymentsInput, scan_all, claimed_row, claim_rows, is_within,
  claim_captured_payments, is_claimable_row, captured_before, create_batch_row, update_batch_row,
}
use paycore.Settlement.Service.{
  Tables, SettlementService, CreateBatchInput, CreateBatchResult, Call, insert_batch, lock_batch,
  claim_for, settle_batch, settle_one, settle_claimed_payments, create_batch_tx, create_batch,
}
use paycore.Settlement.Service.Writes.{settle_one-Reads, settle_one-Settles}
use paycore.Settlement.Books.{IsBalanced, Claimed}
use paycore.Settlement.Books.Settle.{settle_one-IsBalanced}
use paycore.Settlement.Books.Calls.{
  insert_batch-writes, lock_batch-writes, claim_for-claims, close_batch, close_batch-writes,
  with_batch-IsBalanced,
}
use paycore.World.{Env, Pool, postgres, next, listed, pure, ◌>>=◌}
use paycore.World.Run.{>>=-eq-ok}

module _ ⦃u : Unicode⦄ ⦃c : Columns⦄ (k : Text) where
  abbrev pub IsOther : PaymentRow → Type 0
  IsOther row = row.payment.id ≢ k

  abbrev pub IsOtherClaim : ClaimedPayment → Type 0
  IsOtherClaim x = x.payment_id ≢ k

  pub scan_all-IsOtherClaim :
      (batch_id : Text) (rows : List PaymentRow) {cs : List ClaimedPayment}
      → scan_all batch_id rows ≡ ok cs
      → Every IsOther rows
      → Every IsOtherClaim cs
  unfolding scan_all
  scan_all-IsOtherClaim batch_id [] {cs} h o =
      let e : [] ≡ cs = cc in subst (Every IsOtherClaim) e tt
  scan_all-IsOtherClaim batch_id (row ∷ rows) {cs} h o =
      elim (Option-cases (row.payment.captured_at)) [
        | inl n ↦ absurd (ground arith)
        | inr (at, n) ↦ elim (Result-cases (scan_all batch_id rows)) [
          | inr (e, f) ↦ absurd (ground arith)
          | inl (ds, f) ↦
              let first : ClaimedPayment = record {
                payment_id = row.payment.id;
                merchant_id = row.payment.merchant_id;
                amount = row.payment.amount;
                currency = row.payment.currency;
                captured_at = at;
                settlement_batch = batch_id;
              } in
              let e : first ∷ ds ≡ cs = ground arith in
              subst (Every IsOtherClaim) e (o.0, scan_all-IsOtherClaim batch_id rows f o.1)
        ]
      ]

  pub lookup-claim_rows :
      (batch_id : Text) (now : ℕ) (rows : List PaymentRow) (t : Dict PaymentRow)
      → Every IsOther rows
      → lookup k (claim_rows batch_id now rows t) ≡ lookup k t
  unfolding claim_rows
  lookup-claim_rows batch_id now [] t o = refl
  lookup-claim_rows batch_id now (row ∷ rows) t o =
      let written = claimed_row batch_id now row in
      let same : lookup k (insert row.payment.id written t) ≡ lookup k t =
        ground (arith, lookup-insert k row.payment.id written t, o.0) in
      lookup-claim_rows batch_id now rows (insert row.payment.id written t) o.1 ∙ same

  settle_one-keeps :
      (batch_id : Text) (now : ℕ) (x : ClaimedPayment) (w : Env Tables) {r : LineItem × Payment}
      {w' : Env Tables}
      → settle_one batch_id now x w ≡ (ok r, w')
      → IsBalanced w.stores
      → IsOtherClaim x
      → lookup k w'.stores.payments ≡ lookup k w.stores.payments
  settle_one-keeps batch_id now x w {r} {w'} h b other =
      let (row, found) = settle_one-Reads batch_id now x w h in
      let keyed = (b.rows x.payment_id row found).0 in
      let s = settle_one-Settles batch_id now x row w h found keyed in
      ground (
        arith,
        s.payments,
        keyed,
        lookup-insert k row.payment.id (record row { payment = r.1 }) w.stores.payments,
      )

  pub settle_claimed_payments-keeps :
      (batch_id : Text) (now : ℕ) (cs : List ClaimedPayment) (w : Env Tables)
      {r : List LineItem × List Payment} {w' : Env Tables}
      → settle_claimed_payments batch_id now cs w ≡ (ok r, w')
      → trim_space batch_id ≡ batch_id
      → IsBalanced w.stores
      → Every (Claimed batch_id w.stores.payments) cs
      → Every IsOtherClaim cs
      → lookup k w'.stores.payments ≡ lookup k w.stores.payments
  unfolding settle_claimed_payments
  settle_claimed_payments-keeps batch_id now [] w {r} {w'} h trimmed b d o =
      let same : w' ≡ w = cc in ap (λ (z : Env Tables). lookup k z.stores.payments) same
  settle_claimed_payments-keeps batch_id now (x ∷ xs) w {r} {w'} h trimmed b d o =
      let (one, v, first, more) =
        >>=-eq-ok (settle_one batch_id now x)
          (λ a. settle_claimed_payments batch_id now xs >>= λ os. pure (a.0 ∷ os.0, a.1 ∷ os.1)) w
          h in
      let (others, v', rest, end) =
        >>=-eq-ok (settle_claimed_payments batch_id now xs)
          (λ os. pure (one.0 ∷ os.0, one.1 ∷ os.1)) v more in
      let (b', keeps) = settle_one-IsBalanced batch_id trimmed now x w first b d.0 in
      let kept =
        settle_claimed_payments-keeps batch_id now xs v rest trimmed b' (Every-map xs keeps d.1)
          o.1 in
      let same : w' ≡ v' = cc in
      ap (λ (z : Env Tables). lookup k z.stores.payments) same
      ∙ (kept ∙ settle_one-keeps batch_id now x w first b o.0)
