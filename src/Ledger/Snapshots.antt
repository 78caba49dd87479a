-- ===== src/Ledger/Snapshots.antt =====
-- The payments that `ListExpiredAuthorizedPayments` returns are those of the table.
use mathlib.Core.Path.{subst}
use paycore.Base.{ℕ, ◌≡◌, refl, some, List, [], ◌∷◌, map, ok, arith}
use paycore.Base.Dict.{lookup, All-map, IsMap-listed, filter_values}
use paycore.Base.Every.{Every, take-Every, sort-Every, filter_values-Every}
use paycore.Base.Int.{ℤ}
use paycore.Base.Sort.{sort, take}
use paycore.Base.Text.{Text}
use paycore.Database.{Columns}
use paycore.Ledger.{IsConsistent}
use paycore.Payment.{Payment}
use paycore.Payment.Postgres.{
  PaymentRow, is_expired_row, limit_or_hundred, row_expires_before, list_expired_payment_rows,
}
use paycore.World.{World, Stores, on_payments}

-- What the loop knows of a payment that it still has to expire: the table has it unchanged, or has
-- it no longer authorized; its amount and its payer are the same.
pub record IsSnapshot (s : Stores) (p : Payment) : Type 0 where
  pub current : PaymentRow
  pub found : lookup p.id s.payments.payments ≡ some current
  pub same_amount : current.payment.amount ≡ p.amount
  pub same_payer : current.payment.payer_id ≡ p.payer_id

abbrev pub AreSnapshots : Stores → List Payment → Type 0
AreSnapshots s = Every (IsSnapshot s)

abbrev IsRow : Stores → PaymentRow → Type 0
IsRow s row = IsSnapshot s row.payment

map-AreSnapshots :
    (s : Stores) (rows : List PaymentRow)
    → Every (IsRow s) rows
    → AreSnapshots s (map (λ row. row.payment) rows)
map-AreSnapshots s [] h = tt
map-AreSnapshots s (row ∷ rows) h = (h.0, map-AreSnapshots s rows h.1)

pub list-AreSnapshots :
    ⦃columns : Columns⦄ (locked : List Text) (now : ℕ) (limit : ℤ) (w : World) {ps : List Payment}
    {v : World}
    → IsConsistent w.stores
    → on_payments (λ e. list_expired_payment_rows e locked now limit) w ≡ (ok ps, v)
    → (v.stores ≡ w.stores) × AreSnapshots w.stores ps
unfolding list_expired_payment_rows
list-AreSnapshots locked now limit w {ps} {v} c h =
    let s = w.stores in
    let due = filter_values (is_expired_row now locked) s.payments.payments in
    let rows = take (limit_or_hundred limit) (sort row_expires_before due) in
    let all : Every (IsRow s) rows = take-Every (IsRow s) _ _ (
      sort-Every (IsRow s) row_expires_before _ (
        filter_values-Every (IsRow s) (is_expired_row now locked) s.payments.payments (
          All-map s.payments.payments
            (λ k row e. λ passes. record {
              current = row;
              found = ground (arith, e, c.payments k row e);
              same_amount = refl;
              same_payer = refl;
            })
            (IsMap-listed s.payments.payments c.payments_map)))) in
    let eq : map (λ row. row.payment) rows ≡ ps = ground arith in
    (ground arith, subst (AreSnapshots s) eq (map-AreSnapshots s rows all))
