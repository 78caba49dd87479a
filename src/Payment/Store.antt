-- ===== src/Payment/Store.antt =====
-- The in-memory payment repository (internal/payment/adapters/memory/repository.go). The first
-- argument of an operation is what `ctx.Err()` returns.
use paycore.Base.{
  ℕ, Bool, true, false, not, ◌&&◌, Option, none, some, List, ltb, ◌==◌, length, Result, ok, err,
  if◌then◌else◌,
}
use paycore.Base.Int.{ℤ, pos, negsuc}
use paycore.Base.Text.{Text, text_lt}
use paycore.Base.Sort.{sort, take}
use paycore.Base.Dict.{Dict, lookup, insert, filter_values}
use paycore.Errors.{Error, payment_not_found, duplicate_payment, hold_not_found, duplicate_hold}
use paycore.Payment.{Payment, Hold, is_authorized}

pub record Store : Type 0 where
  pub payments : Dict Payment
  pub holds : Dict Hold
  pub hold_id_by_payment_id : Dict Text

unfoldable pub create_payment : Option Error → Payment → Store → Result Payment × Store
create_payment (some e) p s = (err e, s)
create_payment none p s = elim (lookup p.id s.payments) [
  | some _ ↦ (err duplicate_payment, s)
  | none ↦ (ok p, record s { payments = insert p.id p s.payments })
]

unfoldable pub get_payment : Option Error → Text → Store → Result Payment × Store
get_payment (some e) id s = (err e, s)
get_payment none id s = elim (lookup id s.payments) [
  | some p ↦ (ok p, s)
  | none ↦ (err payment_not_found, s)
]

-- The two tests of the loop in `ListExpiredAuthorizedPayments`.
abbrev pub is_due : ℕ → Payment → Bool
is_due now p =
    if not (is_authorized p.status) then false else if ltb now p.expires_at then false else true

-- The order that it sorts by: the expiry, then the id.
abbrev pub expires_before : Payment → Payment → Bool
expires_before p q =
    if p.expires_at == q.expires_at then text_lt p.id q.id else ltb p.expires_at q.expires_at

-- `if limit > 0 && len(results) > limit { results = results[:limit] }`
abbrev pub cut {ℓ} : {A : Type ℓ} → ℤ → List A → List A
cut (negsuc _) xs = xs
cut (pos n) xs = if ltb 0 n && ltb n (length xs) then take n xs else xs

unfoldable pub list_expired_authorized_payments :
    Option Error → ℕ → ℤ → Store → Result (List Payment) × Store
list_expired_authorized_payments (some e) now limit s = (err e, s)
list_expired_authorized_payments none now limit s =
    (ok (cut limit (sort expires_before (filter_values (is_due now) s.payments))), s)

unfoldable pub update_payment : Option Error → Payment → Store → Result Payment × Store
update_payment (some e) p s = (err e, s)
update_payment none p s = elim (lookup p.id s.payments) [
  | some _ ↦ (ok p, record s { payments = insert p.id p s.payments })
  | none ↦ (err payment_not_found, s)
]

-- The writes of `CreateHold` and `UpdateHold`: the hold, and its index by payment.
abbrev pub put_hold : Hold → Store → Store
put_hold h s = record s {
  holds = insert h.id h s.holds;
  hold_id_by_payment_id = insert h.payment_id h.id s.hold_id_by_payment_id;
}

unfoldable pub create_hold : Option Error → Hold → Store → Result Hold × Store
create_hold (some e) h s = (err e, s)
create_hold none h s = elim (lookup h.id s.holds) [
  | some _ ↦ (err duplicate_hold, s)
  | none ↦ elim (lookup h.payment_id s.hold_id_by_payment_id) [
    | some _ ↦ (err duplicate_hold, s)
    | none ↦ (ok h, put_hold h s)
  ]
]

unfoldable pub get_hold : Option Error → Text → Store → Result Hold × Store
get_hold (some e) id s = (err e, s)
get_hold none id s = elim (lookup id s.holds) [
  | some h ↦ (ok h, s)
  | none ↦ (err hold_not_found, s)
]

unfoldable pub get_hold_by_payment_id : Option Error → Text → Store → Result Hold × Store
get_hold_by_payment_id (some e) payment_id s = (err e, s)
get_hold_by_payment_id none payment_id s = elim (lookup payment_id s.hold_id_by_payment_id) [
  | none ↦ (err hold_not_found, s)
  | some id ↦ elim (lookup id s.holds) [ some h ↦ (ok h, s) | none ↦ (err hold_not_found, s) ]
]

unfoldable pub update_hold : Option Error → Hold → Store → Result Hold × Store
update_hold (some e) h s = (err e, s)
update_hold none h s = elim (lookup h.id s.holds) [
  | some _ ↦ (ok h, put_hold h s)
  | none ↦ (err hold_not_found, s)
]
