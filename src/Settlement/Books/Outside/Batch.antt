-- ===== src/Settlement/Books/Outside/Batch.antt =====
-- A settlement batch leaves the payments outside its window.
use mathlib.Core.Path.{subst}
use paycore.Base.{
  ℕ, ◌<◌, ◌≤◌, ◌⊎◌, ◌≡◌, sym, true, false, Bool, Option, some, List, [], ok, inl, inr, arith,
  Bool-cases, Option-cases,
}
use paycore.Base.Dict.{Dict, lookup, IsMap-listed, All-map, filter_values}
use paycore.Base.Every.{Every, take-Every, sort-Every, filter_values-Every}
use paycore.Base.Int.{pos, pos_part, leb_ℤ}
use paycore.Base.Sort.{sort, take}
use paycore.Base.Text.{Text, trim_space}
use paycore.Currency.{Unicode}
use paycore.Database.{Columns}
use paycore.Errors.{Error}
use paycore.Payment.Postgres.{PaymentRow}
use paycore.Settlement.{Batch, new_batch, start_processing}
use paycore.Settlement.Postgres.{
  ClaimedPayment, ClaimCapturedPaymentsInput, claim_captured_payments, is_claimable_row, is_within,
  captured_before, create_batch_row, update_batch_row,
}
use paycore.Settlement.Service.{
  Tables, SettlementService, CreateBatchInput, CreateBatchResult, insert_batch, lock_batch,
  claim_for, settle_batch, settle_claimed_payments, create_batch_tx, create_batch,
}
use paycore.Settlement.Books.{IsBalanced}
use paycore.Settlement.Books.Calls.{
  insert_batch-writes, lock_batch-writes, claim_for-claims, close_batch, close_batch-writes,
  with_batch-IsBalanced,
}
use paycore.Settlement.Books.History.{
  Reach, IsSettling, Reach-IsSettling, no_rows, no_rows-IsBalanced,
}
use paycore.Settlement.Books.Outside.{
  IsOther, IsOtherClaim, scan_all-IsOtherClaim, lookup-claim_rows, settle_claimed_payments-keeps,
}
use paycore.World.{Env, Pool, postgres, next, listed, ◌>>=◌}
use paycore.World.Run.{>>=-eq-ok, within_tx-keeps}

module _ ⦃u : Unicode⦄ ⦃c : Columns⦄ (k : Text) (row : PaymentRow) where
  abbrev IsOutside : ℕ → ℕ → Type 0
  IsOutside start end = is_within start end row.payment.captured_at ≡ false

  module _ (locked : List Text) (input : ClaimCapturedPaymentsInput)
      (outside : IsOutside input.window_start input.window_end) where
    abbrev claimable : Dict PaymentRow → List PaymentRow
    claimable t =
        take (pos_part input.limit)
          (sort captured_before (filter_values (is_claimable_row input locked) t))

    claimable-IsOther :
        (t : Tables)
        → IsBalanced t
        → lookup k t.payments ≡ some row
        → Every (IsOther k) (claimable t.payments)
    claimable-IsOther t b found = take-Every (IsOther k) _ _ (
        sort-Every (IsOther k) captured_before _ (
          filter_values-Every (IsOther k) (is_claimable_row input locked) t.payments (
            All-map t.payments
              (λ k' r e.
                λ passes same. ground (arith, e, b.rows k' r e, found, same, passes, outside))
              (IsMap-listed t.payments b.rows_map))))

    claim_captured_payments-keeps :
        (in_tx : Bool) (e : Option Error) (t : Tables) {cs : List ClaimedPayment}
        {payments : Dict PaymentRow}
        → IsBalanced t
        → lookup k t.payments ≡ some row
        → claim_captured_payments in_tx e locked input t.payments ≡ (ok cs, payments)
        → (lookup k payments ≡ some row) × Every (IsOtherClaim k) cs
    unfolding claim_captured_payments
    claim_captured_payments-keeps in_tx e t {cs} {payments} b found h =
        elim (Bool-cases (leb_ℤ input.limit (pos 0))) [
          | inl none_asked ↦
              let no_claim : [] ≡ cs = ground arith in
              (ground arith, subst (Every (IsOtherClaim k)) no_claim tt)
          | inr asked ↦
              let others = claimable-IsOther t b found in
              let kept =
                lookup-claim_rows k input.batch_id input.now (claimable t.payments) t.payments
                  others in
              (
                ground (arith, kept),
                scan_all-IsOtherClaim k input.batch_id (claimable t.payments) (ground arith) others,
              )
        ]

  module _ (v : SettlementService) (now : ℕ) where
    insert_batch-window :
        (input : CreateBatchInput) (w : Env Tables) {b : Batch} {w' : Env Tables}
        → insert_batch now input w ≡ (ok b, w')
        → IsOutside input.window_start input.window_end
        → IsOutside b.window_start b.window_end
    unfolding insert_batch new_batch create_batch_row
    insert_batch-window input w {b} {w'} h outside =
        ground (arith, c.timestamptz_idem input.window_start, c.timestamptz_idem input.window_end)

    lock_batch-window :
        (b : Batch) (w : Env Tables) {b' : Batch} {w' : Env Tables}
        → lock_batch v now b w ≡ (ok b', w')
        → IsOutside b.window_start b.window_end
        → IsOutside b'.window_start b'.window_end
    unfolding lock_batch start_processing update_batch_row
    lock_batch-window b w {b'} {w'} h outside =
        ground (arith, c.timestamptz_idem b.window_start, c.timestamptz_idem b.window_end)

    claim_for-keeps :
        (b : Batch) (w : Env Tables) {cs : List ClaimedPayment} {w' : Env Tables}
        → claim_for v now b w ≡ (ok cs, w')
        → IsOutside b.window_start b.window_end
        → IsBalanced w.stores
        → lookup k w.stores.payments ≡ some row
        → (lookup k w'.stores.payments ≡ some row) × Every (IsOtherClaim k) cs
    unfolding claim_for
    claim_for-keeps b w {cs} {w'} h outside i found =
        claim_captured_payments-keeps (listed (next w.locked).0)
          (record {
            batch_id = b.id;
            window_start = b.window_start;
            window_end = b.window_end;
            limit = v.claim_limit;
            now = now;
          })
          outside w.in_tx (next w.ctx).0 w.stores i found (ground arith)

    create_batch_tx-keeps :
        (input : CreateBatchInput) (w : Env Tables) {r : CreateBatchResult} {w' : Env Tables}
        → create_batch_tx v now input w ≡ (ok r, w')
        → IsOutside input.window_start input.window_end
        → IsBalanced w.stores
        → lookup k w.stores.payments ≡ some row
        → lookup k w'.stores.payments ≡ some row
    unfolding create_batch_tx settle_batch
    create_batch_tx-keeps input w {r} {w'} h outside i found =
        let (x, w1, e1, h1) =
          >>=-eq-ok (insert_batch now input)
            (λ x. lock_batch v now x >>= λ b. claim_for v now b >>= settle_batch now b) w h in
        let (b, w2, e2, h2) =
          >>=-eq-ok (lock_batch v now x) (λ b. claim_for v now b >>= settle_batch now b) w1 h1 in
        let (cs, w3, e3, h3) = >>=-eq-ok (claim_for v now b) (settle_batch now b) w2 h2 in
        let (settled, w4, e4, close) =
          >>=-eq-ok (settle_claimed_payments b.id now cs) (close_batch v now b) w3 h3 in
        let (written, trimmed) = insert_batch-writes v now input w e1 in
        let (written', same) = lock_batch-writes v now x w1 e2 in
        let trimmed' : trim_space b.id ≡ b.id = ground arith in
        let opened = with_batch-IsBalanced w.stores w1.stores x written trimmed i in
        let locked = with_batch-IsBalanced w1.stores w2.stores b written' trimmed' opened in
        let (balanced, claims) = claim_for-claims v now b w2 e3 locked in
        let outside' = lock_batch-window x w1 e2 (insert_batch-window input w e1 outside) in
        let (kept, others) = claim_for-keeps b w2 e3 outside' locked (ground arith) in
        let settled' =
          settle_claimed_payments-keeps k b.id now cs w3 e4 trimmed' balanced claims others in
        let (closed, _) = close_batch-writes v now b settled w4 close in ground arith

  -- No time of the window is that of the capture.
  abbrev IsCapturedOutside : CreateBatchInput → Type 0
  IsCapturedOutside input =
      (t : ℕ)
      → row.payment.captured_at ≡ some t
      → (t < c.timestamptz input.window_start) ⊎ (c.timestamptz input.window_end ≤ t)

  IsCapturedOutside-IsOutside :
      (input : CreateBatchInput)
      → IsCapturedOutside input
      → IsOutside input.window_start input.window_end
  IsCapturedOutside-IsOutside input outside = elim (Option-cases (row.payment.captured_at)) [
    | inl n ↦ ground arith
    | inr (t, n) ↦ ground (arith, outside t n)
  ]

  -- After any history from empty tables, with any errors and faults, a batch leaves every stored
  -- payment that was not captured within its window, at the precision of the columns, as it is.
  pub create_batch-keeps_outside :
      (pool : Pool) (v : SettlementService) (now : ℕ) (input : CreateBatchInput) (w0 w : Env Tables)
      → w0.stores ≡ no_rows
      → w0.in_tx ≡ false
      → Reach w0 w
      → lookup k w.stores.payments ≡ some row
      → ((t : ℕ)
          → row.payment.captured_at ≡ some t
          → (t < c.timestamptz input.window_start) ⊎ (c.timestamptz input.window_end ≤ t))
      → lookup k (create_batch (postgres pool) v now input w).1.stores.payments ≡ some row
  unfolding create_batch
  create_batch-keeps_outside pool v now input w0 w fresh out reach found outside =
      let start : IsSettling w0 = record {
        outside = out;
        balanced = subst IsBalanced (sym fresh) no_rows-IsBalanced;
      } in
      let s = Reach-IsSettling start reach in
      within_tx-keeps (λ (t : Tables). lookup k t.payments ≡ some row) pool
        (create_batch_tx v now input) w s.outside found
        (λ r z ran.
          create_batch_tx-keeps v now input (record w { in_tx = true }) {r = r} {w' = z} ran
            (IsCapturedOutside-IsOutside input outside) s.balanced found)
