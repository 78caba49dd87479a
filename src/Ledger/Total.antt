-- ===== src/Ledger/Total.antt =====
-- The sum of the open holds of a payer under the writes of the services.
use paycore.Base.{◌≡◌, none, some, [], ◌∷◌}
use paycore.Base.Int.{◌+ℤ◌, int_laws}
use paycore.Base.Text.{Text}
use paycore.Base.Dict.{Dict, lookup, insert}
use paycore.Payment.{Hold}
use paycore.Ledger.{weight, held_total}

pub held_total-insert :
    (y k : Text) (h old : Hold) (d : Dict Hold)
    → lookup k d ≡ some old
    → held_total y (insert k h d) +ℤ weight y old ≡ held_total y d +ℤ weight y h
unfolding held_total lookup insert
held_total-insert y k h old [] e = cc
held_total-insert y k h old (x ∷ d) e = grind (int_laws, held_total-insert y k h old d)

pub held_total-insert_new :
    (y k : Text) (h : Hold) (d : Dict Hold)
    → lookup k d ≡ none
    → held_total y (insert k h d) ≡ held_total y d +ℤ weight y h
unfolding held_total lookup insert
held_total-insert_new y k h [] e = omega int_laws
held_total-insert_new y k h (x ∷ d) e = grind (int_laws, held_total-insert_new y k h d)
