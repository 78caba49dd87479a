-- ===== src/Settlement/Lifecycle.antt =====
-- The lock of a batch, its states, and the amounts of a line item.
use mathlib.Core.Path.{subst, subst₂}
use paycore.Base.{sym, ◌∙◌, ℕ, ◌<◌, ◌≤◌, ◌≡◌, ◌↔◌, false, some, ok, err, arith}
use paycore.Base.Int.{ℤ, pos, ◌≤ℤ◌, ◌<ℤ◌, ◌-ℤ◌, IsInt64, sub_int64, sub_int64_exact}
use paycore.Base.Text.{Text, trim_space, is_empty}
use paycore.Currency.{Unicode}
use paycore.Errors.{invalid_batch_status}
use paycore.Settlement.{
  Batch, LineItem, NewLineItemInput, new_line_item, start_processing, complete_batch, fail_batch,
  is_stale,
}

-- A batch that a worker has started can be started again, by any worker that has an id and asks for
-- a lock in the future, exactly when the first lock has run out.
pub start_processing-locked :
    (b b' : Batch) (worker other : Text) (until until' now later : ℕ)
    → start_processing b worker until now ≡ ok b'
    → is_empty (trim_space other) ≡ false
    → later < until'
    → ((x : Batch) × (start_processing b' other until' later ≡ ok x)) ↔ (until ≤ later)
unfolding start_processing is_stale
start_processing-locked b b' worker other until until' now later h id ahead = (
  λ (x, e). ground arith,
  λ passed. (
    record b' {
      claimed_by = some (trim_space other);
      locked_until = some until';
      updated_at = later;
    },
    ground arith,
  ),
)

-- A completed batch can be neither started by a worker with an id, nor completed, nor failed.
complete_batch-final :
    (b b' : Batch) (worker message : Text) (until now later : ℕ)
    → complete_batch b now ≡ ok b'
    → is_empty (trim_space worker) ≡ false
    → (start_processing b' worker until later ≡ err invalid_batch_status)
      × (complete_batch b' later ≡ err invalid_batch_status)
      × (fail_batch b' message later ≡ err invalid_batch_status)
unfolding complete_batch start_processing fail_batch is_stale
complete_batch-final b b' worker message until now later h id =
    (ground arith, ground arith, ground arith)

-- The difference of an amount and a fee between 0 and it.
fee_bounds :
    (a f : ℤ)
    → IsInt64 a
    → pos 0 <ℤ a
    → pos 0 ≤ℤ f
    → f ≤ℤ a
    → IsInt64 (a -ℤ f) × (pos 0 ≤ℤ (a -ℤ f)) × ((a -ℤ f) ≤ℤ a)
unfolding ◌-ℤ◌
fee_bounds a f h ha hf hfa = ground arith

-- Of an amount that is an int64, a line item has the exact difference as its net amount,
-- between 0 and the amount, and the amount is positive.
pub new_line_item-net :
    ⦃u : Unicode⦄ (clock : ℕ) (input : NewLineItemInput) {i : LineItem}
    → IsInt64 input.amount
    → new_line_item clock input ≡ ok i
    → (i.net_amount ≡ i.amount -ℤ i.fee_amount)
      × (pos 0 ≤ℤ i.net_amount)
      × (i.net_amount ≤ℤ i.amount)
      × (pos 0 <ℤ i.amount)
unfolding new_line_item
new_line_item-net clock input {i} ha h =
    let ranges : (pos 0 <ℤ input.amount)
        × (pos 0 ≤ℤ input.fee_amount)
        × (input.fee_amount ≤ℤ input.amount) =
      ground arith in
    let (range, least, most) =
      fee_bounds input.amount input.fee_amount ha ranges.0 ranges.1 ranges.2 in
    let exact = sub_int64_exact input.amount input.fee_amount range in
    let net : i.net_amount ≡ sub_int64 input.amount input.fee_amount = ground arith in
    let amounts : (i.amount ≡ input.amount) × (i.fee_amount ≡ input.fee_amount) = ground arith in
    let same : input.amount -ℤ input.fee_amount ≡ i.net_amount = sym (net ∙ exact) in
    (
      net ∙ exact ∙ rw (amounts.0, amounts.1),
      subst (λ z. pos 0 ≤ℤ z) same least,
      subst₂ (λ x y. x ≤ℤ y) same (sym amounts.0) most,
      subst (λ z. pos 0 <ℤ z) (sym amounts.0) ranges.0,
    )
