-- ===== src/Merchant/Store.antt =====
-- The in-memory merchant repository (internal/merchant/adapters/memory/repository.go). The first
-- argument of an operation is what `ctx.Err()` returns.
use paycore.Base.{Option, none, some, List, Result, ok, err}
use paycore.Base.Text.{Text}
use paycore.Base.Dict.{Dict, lookup, insert, values}
use paycore.Errors.{Error, merchant_not_found, duplicate_merchant}
use paycore.Merchant.{Merchant}

abbrev pub Store : Type 0
Store = Dict Merchant

unfoldable pub create_merchant : Option Error → Merchant → Store → Result Merchant × Store
create_merchant (some e) m s = (err e, s)
create_merchant none m s = elim (lookup m.id s) [
  | some _ ↦ (err duplicate_merchant, s)
  | none ↦ (ok m, insert m.id m s)
]

unfoldable pub get_merchant : Option Error → Text → Store → Result Merchant × Store
get_merchant (some e) id s = (err e, s)
get_merchant none id s = elim (lookup id s) [
  | some m ↦ (ok m, s)
  | none ↦ (err merchant_not_found, s)
]

-- The order of the result is that of the association list; Go's is unspecified.
unfoldable pub list_merchants : Option Error → Store → Result (List Merchant) × Store
list_merchants (some e) s = (err e, s)
list_merchants none s = (ok (values s), s)
