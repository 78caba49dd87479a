-- ===== src/Payment/Postgres/Holds.antt =====
-- The hold of a payment in the table payment_holds, as its unique payment_id leads to it.
use mathlib.Core.Path.{subst}
use paycore.Base.{
  ◌≡◌, Bool, true, Option, none, some, [], ◌∷◌, arith, Bool-cases, inl, inr, if◌then◌else◌, refl,
}
use paycore.Base.Dict.{Dict, lookup, insert, find_value, All}
use paycore.Base.Text.{Text, text_eq}
use paycore.Payment.{Hold}
use paycore.Payment.Postgres.{holds_payment}

unfoldable pub hold_id_of : Text → Dict Hold → Option Text
hold_id_of payment_id [] = none
hold_id_of payment_id ((_, h) ∷ d) =
    let rest = hold_id_of payment_id d in if holds_payment payment_id h then some h.id else rest

pub hold_id_of-found :
    (payment_id : Text) (h : Hold) (d : Dict Hold)
    → find_value (holds_payment payment_id) d ≡ some h
    → hold_id_of payment_id d ≡ some h.id
unfolding hold_id_of find_value
hold_id_of-found payment_id h [] e = absurd cc
hold_id_of-found payment_id h (x ∷ d) e = ground (arith, hold_id_of-found payment_id h d)

pub hold_id_of-none :
    (payment_id : Text) (d : Dict Hold)
    → find_value (holds_payment payment_id) d ≡ none
    → hold_id_of payment_id d ≡ none
unfolding hold_id_of find_value
hold_id_of-none payment_id [] e = refl
hold_id_of-none payment_id (x ∷ d) e = ground (arith, hold_id_of-none payment_id d)

-- A row that is found is listed.
pub find_value-listed :
    (P : Text → Hold → Type 0) (test : Hold → Bool) (h : Hold) (d : Dict Hold)
    → All P d
    → find_value test d ≡ some h
    → (k : Text) × P k h × (test h ≡ true)
unfolding find_value
find_value-listed P test h [] a e = absurd cc
find_value-listed P test h ((k, x) ∷ d) a e = elim (Bool-cases (test x)) [
  | inl hit ↦
      let same : x ≡ h = ground arith in
      (k, subst (P k) same a.0, subst (λ z. test z ≡ true) same hit)
  | inr miss ↦ find_value-listed P test h d a.1 (ground arith)
]

-- A row that is found by its id is found under its payment.
pub hold_id_of-exists :
    (payment_id : Text) (d : Dict Hold) {id : Text}
    → hold_id_of payment_id d ≡ some id
    → (h : Hold) × (find_value (holds_payment payment_id) d ≡ some h) × (h.id ≡ id)
unfolding hold_id_of find_value
hold_id_of-exists payment_id [] e = absurd cc
hold_id_of-exists payment_id ((k, x) ∷ d) e = elim (Bool-cases (holds_payment payment_id x)) [
  | inl hit ↦ (x, ground arith, ground arith)
  | inr miss ↦
      let (h, found, same) = hold_id_of-exists payment_id d (ground arith) in
      (h, ground arith, same)
]

-- A row that is written in place, with its ids as they were, leaves the index.
pub hold_id_of-insert :
    (q k : Text) (h old : Hold) (d : Dict Hold)
    → lookup k d ≡ some old
    → h.id ≡ old.id
    → h.payment_id ≡ old.payment_id
    → hold_id_of q (insert k h d) ≡ hold_id_of q d
unfolding hold_id_of lookup insert
hold_id_of-insert q k h old [] e same owner = absurd cc
hold_id_of-insert q k h old (x ∷ d) e same owner = ground (arith, hold_id_of-insert q k h old d)

pub hold_id_of-insert_new :
    (q k : Text) (h : Hold) (d : Dict Hold)
    → lookup k d ≡ none
    → hold_id_of h.payment_id d ≡ none
    → hold_id_of q (insert k h d) ≡ (if text_eq q h.payment_id then some h.id else hold_id_of q d)
unfolding hold_id_of lookup insert
hold_id_of-insert_new q k h [] e fresh = ground arith
hold_id_of-insert_new q k h (x ∷ d) e fresh = ground (arith, hold_id_of-insert_new q k h d)
