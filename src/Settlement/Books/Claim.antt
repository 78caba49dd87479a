-- ===== src/Settlement/Books/Claim.antt =====
-- A claim keeps the books, and what it and the later query of the claims return stands in the table.
use mathlib.Core.Path.{subst}
use paycore.Base.{
  ℕ, ◌≡◌, sym, refl, true, Bool, Option, none, some, List, [], ◌∷◌, ok, inl, inr, arith,
  Option-cases, Bool-cases, Result-cases,
}
use paycore.Base.Dict.{
  Dict, lookup, insert, insert-IsMap, lookup-insert, lookup-insert_self, IsMap-listed, All-map,
  filter_values,
}
use paycore.Base.Every.{Every, Every-map, take-Every, sort-Every, filter_values-Every}
use paycore.Base.Int.{pos, pos_part, leb_ℤ}
use paycore.Base.Sort.{sort, take}
use paycore.Base.Text.{Text, Text_discrete}
use paycore.Database.{Columns}
use paycore.Errors.{Error}
use paycore.Payment.{is_captured}
use paycore.Payment.Postgres.{PaymentRow}
use paycore.Settlement.{LineItem}
use paycore.Settlement.Postgres.{
  ClaimedPayment, ClaimCapturedPaymentsInput, scan_all, claimed_row, claim_rows,
  claim_captured_payments, is_claimable_row, captured_before, list_claimed_payments, is_claimed_by,
}
use paycore.Settlement.Service.{Tables}
use paycore.Settlement.Books.{IsBalanced, Bills, Claimed}

-- A row that a query has returned: the table still has a captured payment of its amount there.
record Seen (payments : Dict PaymentRow) (row : PaymentRow) : Type 0 where
  pub current : PaymentRow
  pub found : lookup row.payment.id payments ≡ some current
  pub is_current : is_captured current.payment.status ≡ true
  pub captured : is_captured row.payment.status ≡ true
  pub amount : current.payment.amount ≡ row.payment.amount

-- The payment of the row stands in the table under the batch.
record Marked (batch_id : Text) (payments : Dict PaymentRow) (row : PaymentRow) : Type 0 where
  pub current : PaymentRow
  pub found : lookup row.payment.id payments ≡ some current
  pub batch : current.settlement_batch_id ≡ some batch_id
  pub amount : current.payment.amount ≡ row.payment.amount

-- Scanning keeps the id and the amount.
scan_all-Claimed :
    (batch_id : Text) (payments : Dict PaymentRow) (rows : List PaymentRow)
    {cs : List ClaimedPayment}
    → scan_all batch_id rows ≡ ok cs
    → Every (Marked batch_id payments) rows
    → Every (Claimed batch_id payments) cs
unfolding scan_all
scan_all-Claimed batch_id payments [] {cs} h m =
    let e : [] ≡ cs = cc in subst (Every (Claimed batch_id payments)) e tt
scan_all-Claimed batch_id payments (row ∷ rows) {cs} h m =
    elim (Option-cases (row.payment.captured_at)) [
      | inl n ↦ absurd (ground arith)
      | inr (at, n) ↦ elim (Result-cases (scan_all batch_id rows)) [
        | inr (e, f) ↦ absurd (ground arith)
        | inl (ds, f) ↦
            let first : ClaimedPayment = record {
              payment_id = row.payment.id;
              merchant_id = row.payment.merchant_id;
              amount = row.payment.amount;
              currency = row.payment.currency;
              captured_at = at;
              settlement_batch = batch_id;
            } in
            let e : first ∷ ds ≡ cs = ground arith in
            subst (Every (Claimed batch_id payments)) e (
              record {
                row = m.0.current;
                found = m.0.found;
                batch = m.0.batch;
                amount = sym m.0.amount;
              },
              scan_all-Claimed batch_id payments rows f m.1,
            )
      ]
    ]

abbrev with_payments : Tables → Dict PaymentRow → Tables
with_payments t payments = record t { payments = payments }

module _ ⦃c : Columns⦄ (batch_id : Text) (now : ℕ) where
  abbrev marked : PaymentRow → Dict PaymentRow → Dict PaymentRow
  marked row payments = insert row.payment.id (claimed_row batch_id now row) payments

  mark-Seen :
      (row x : PaymentRow) (payments : Dict PaymentRow)
      → Seen payments row
      → Seen payments x
      → Seen (marked row payments) x
  mark-Seen row x payments s sx = elim (Text_discrete x.payment.id row.payment.id) [
    | yes same ↦ record {
      current = claimed_row batch_id now row;
      found = ground (
        arith,
        lookup-insert x.payment.id row.payment.id (claimed_row batch_id now row) payments,
      );
      is_current = s.captured;
      captured = sx.captured;
      amount = ground (arith, s.found, s.amount, sx.found, sx.amount);
    }
    | no other ↦ record {
      current = sx.current;
      found = ground (
        arith,
        sx.found,
        lookup-insert x.payment.id row.payment.id (claimed_row batch_id now row) payments,
      );
      is_current = sx.is_current;
      captured = sx.captured;
      amount = sx.amount;
    }
  ]

  mark-Marked :
      (row x : PaymentRow) (payments : Dict PaymentRow)
      → Seen payments row
      → Marked batch_id payments x
      → Marked batch_id (marked row payments) x
  mark-Marked row x payments s sx = elim (Text_discrete x.payment.id row.payment.id) [
    | yes same ↦ record {
      current = claimed_row batch_id now row;
      found = ground (
        arith,
        lookup-insert x.payment.id row.payment.id (claimed_row batch_id now row) payments,
      );
      batch = refl;
      amount = ground (arith, s.found, s.amount, sx.found, sx.amount);
    }
    | no other ↦ record {
      current = sx.current;
      found = ground (
        arith,
        sx.found,
        lookup-insert x.payment.id row.payment.id (claimed_row batch_id now row) payments,
      );
      batch = sx.batch;
      amount = sx.amount;
    }
  ]

  -- Every item bills another payment than one that is captured.
  mark-Bills :
      (row : PaymentRow) (payments : Dict PaymentRow) (i : LineItem)
      → Seen payments row
      → Bills payments i
      → Bills (marked row payments) i
  mark-Bills row payments i s old = record {
    row = old.row;
    found = ground (
      arith,
      old.found,
      old.settled,
      s.found,
      s.is_current,
      lookup-insert i.payment_id row.payment.id (claimed_row batch_id now row) payments,
    );
    settled = old.settled;
    batch = old.batch;
    amount = old.amount;
    fee = old.fee;
    net = old.net;
  }

  mark-IsBalanced :
      (row : PaymentRow) (t : Tables)
      → IsBalanced t
      → Seen t.payments row
      → IsBalanced (with_payments t (marked row t.payments))
  mark-IsBalanced row t b s = record {
    batches = b.batches;
    rows_map = insert-IsMap _ _ t.payments b.rows_map;
    rows = λ k r e. ground (
      arith,
      s.found,
      lookup-insert k row.payment.id (claimed_row batch_id now row) t.payments,
      b.rows k r,
      b.rows row.payment.id s.current,
    );
    items = b.items;
    billed = λ k i e. mark-Bills row t.payments i s (b.billed k i e);
    once = b.once;
    settled = λ k r e done.
        b.settled k r
          (ground (
            arith,
            s.captured,
            lookup-insert k row.payment.id (claimed_row batch_id now row) t.payments,
          ))
          done;
  }

  claim_rows-Marked_one :
      (rows : List PaymentRow) (x : PaymentRow) (payments : Dict PaymentRow)
      → Every (Seen payments) rows
      → Marked batch_id payments x
      → Marked batch_id (claim_rows batch_id now rows payments) x
  unfolding claim_rows
  claim_rows-Marked_one [] x payments s m = m
  claim_rows-Marked_one (row ∷ rows) x payments s m =
      claim_rows-Marked_one rows x (marked row payments)
        (Every-map rows (λ y. mark-Seen row y payments s.0) s.1) (mark-Marked row x payments s.0 m)

  claim_rows-Marked :
      (rows : List PaymentRow) (payments : Dict PaymentRow)
      → Every (Seen payments) rows
      → Every (Marked batch_id (claim_rows batch_id now rows payments)) rows
  unfolding claim_rows
  claim_rows-Marked [] payments s = tt
  claim_rows-Marked (row ∷ rows) payments s =
      let seen = Every-map rows (λ y. mark-Seen row y payments s.0) s.1 in
      (
        claim_rows-Marked_one rows row (marked row payments) seen (record {
          current = claimed_row batch_id now row;
          found = lookup-insert_self row.payment.id (claimed_row batch_id now row) payments;
          batch = refl;
          amount = refl;
        }),
        claim_rows-Marked rows (marked row payments) seen,
      )

  claim_rows-IsBalanced :
      (rows : List PaymentRow) (t : Tables)
      → IsBalanced t
      → Every (Seen t.payments) rows
      → IsBalanced (with_payments t (claim_rows batch_id now rows t.payments))
  unfolding claim_rows
  claim_rows-IsBalanced [] t b s = b
  claim_rows-IsBalanced (row ∷ rows) t b s =
      claim_rows-IsBalanced rows (with_payments t (marked row t.payments))
        (mark-IsBalanced row t b s.0) (Every-map rows (λ y. mark-Seen row y t.payments s.0) s.1)

-- The rows that the query finds, in its order and up to its limit.
module _ ⦃c : Columns⦄ (locked : List Text) (input : ClaimCapturedPaymentsInput) where
  abbrev claimable : Dict PaymentRow → List PaymentRow
  claimable t =
      take (pos_part input.limit)
        (sort captured_before (filter_values (is_claimable_row input locked) t))

  claimable-Seen : (t : Tables) → IsBalanced t → Every (Seen t.payments) (claimable t.payments)
  claimable-Seen t b = take-Every (Seen t.payments) _ _ (
      sort-Every (Seen t.payments) captured_before _ (
        filter_values-Every (Seen t.payments) (is_claimable_row input locked) t.payments (
          All-map t.payments
            (λ k row e. λ passes. record {
              current = row;
              found = ground (arith, e, b.rows k row e);
              is_current = ground (arith, passes);
              captured = ground (arith, passes);
              amount = refl;
            })
            (IsMap-listed t.payments b.rows_map))))

  -- A claim that succeeds keeps the books, and every payment that it returns stands claimed.
  pub claim_captured_payments-IsBalanced :
      (in_tx : Bool) (e : Option Error) (t : Tables) {cs : List ClaimedPayment}
      {payments : Dict PaymentRow}
      → IsBalanced t
      → claim_captured_payments in_tx e locked input t.payments ≡ (ok cs, payments)
      → IsBalanced (with_payments t payments) × Every (Claimed input.batch_id payments) cs
  unfolding claim_captured_payments
  claim_captured_payments-IsBalanced in_tx e t {cs} {payments} b h =
      elim (Bool-cases (leb_ℤ input.limit (pos 0))) [
        | inl none_asked ↦
            let no_claim : [] ≡ cs = ground arith in
            let same : t.payments ≡ payments = ground arith in
            (
              subst (λ p. IsBalanced (with_payments t p)) same b,
              subst (Every (Claimed input.batch_id payments)) no_claim tt,
            )
        | inr asked ↦
            let rows = claimable t.payments in
            let seen = claimable-Seen t b in
            let written : claim_rows input.batch_id input.now rows t.payments ≡ payments =
              ground arith in
            let read : scan_all input.batch_id rows ≡ ok cs = ground arith in
            (
              subst (λ p. IsBalanced (with_payments t p)) written
                  (claim_rows-IsBalanced input.batch_id input.now rows t b seen),
              scan_all-Claimed input.batch_id payments rows read (
                  subst (λ p. Every (Marked input.batch_id p) rows) written
                    (claim_rows-Marked input.batch_id input.now rows t.payments seen)),
            )
      ]

-- What the query of the claims returns stands claimed.
pub list_claimed_payments-Claimed :
    ⦃c : Columns⦄ (batch_id : Text) (e : Option Error) (t : Tables) {cs : List ClaimedPayment}
    → IsBalanced t
    → (list_claimed_payments e batch_id t.payments).0 ≡ ok cs
    → Every (Claimed batch_id t.payments) cs
unfolding list_claimed_payments
list_claimed_payments-Claimed batch_id (some x) t b h = absurd (ground arith)
list_claimed_payments-Claimed batch_id none t b h = scan_all-Claimed batch_id t.payments _ h (
    sort-Every (Marked batch_id t.payments) captured_before _ (
      filter_values-Every (Marked batch_id t.payments) (is_claimed_by batch_id) t.payments (
        All-map t.payments
          (λ k row e. λ passes. record {
            current = row;
            found = ground (arith, e, b.rows k row e);
            batch = ground (arith, passes);
            amount = refl;
          })
          (IsMap-listed t.payments b.rows_map))))
