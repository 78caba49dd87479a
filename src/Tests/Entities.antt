-- ===== src/Tests/Entities.antt =====
-- The theorems about single records, at concrete ones.
use paycore.Base.{map, ℕ, ◌≤◌, ◌≡◌, ◌↔◌, refl, true, none, some, inr, [], ◌∷◌, ok, err, arith}
use paycore.Base.Dict.{lookup, insert}
use paycore.Base.Int.{pos, ◌+ℤ◌, ◌-ℤ◌, ◌<ℤ◌, int64, add_int64, sub_int64}
use paycore.Base.Text.{codes, is_space, trim_space, Text_discrete}
use paycore.Currency.{Unicode, to_upper, upper_rune, normalize_currency, is_valid_currency}
use paycore.Currency.Codes.{
  normalize_currency_idem, is_valid_currency-letters, is_valid_currency-one_letter,
}
use paycore.Errors.{
  payer_version_conflict, payment_not_authorized, payment_not_expirable, payment_not_captured,
}
use paycore.Payer.{Payer, can_authorize, reserve, release, capture_held}
use paycore.Payer.Balance.{
  IsSolvent, total, reserve-Moves, capture_held-Moves, can_authorize-reserve, release-reserve,
}
use paycore.Payer.Store.{Store, update_payer}
use paycore.Payer.Store.Versions.{update_payer-conflict}
use paycore.Payment as P
use paycore.Payment.{Payment, can_capture, capture, expire, settle}
use paycore.Payment.Lifecycle.{
  can_capture-capture, capture-next, expire-settle_final, expiry_boundary,
}
use paycore.Tests.{ascii, charged_payer}

all_case : (c : ℕ) → 128 ≤ c → upper_rune (λ d. d) c ≡ c
all_case c h = ground arith

-- Case tables with the Georgian capital letter U+10A0.
abbrev georgian : Unicode
georgian = record {
  upper = λ c. c;
  letter = λ _. true;
  upper_case = λ _. true;
  upper_upper = all_case;
  upper_space = λ c h. refl;
}

normalize_currency_idem_example :
    let s = codes " eur " in
    ((normalize_currency (normalize_currency s) ≡ normalize_currency s)
      × (is_valid_currency (normalize_currency s) ≡ is_valid_currency s))
    × ((normalize_currency (map to_upper s) ≡ normalize_currency s)
        × (is_valid_currency (map to_upper s) ≡ is_valid_currency s))
    × ((normalize_currency (trim_space s) ≡ normalize_currency s)
        × (is_valid_currency (trim_space s) ≡ is_valid_currency s))
normalize_currency_idem_example = normalize_currency_idem ⦃u = ascii⦄ (codes " eur ")

is_valid_currency-letters_example : is_valid_currency ⦃u = ascii⦄ (codes "eUr") ≡ true
is_valid_currency-letters_example =
    is_valid_currency-letters ⦃u = ascii⦄ b'e' b'U' b'r' refl refl refl

is_valid_currency-one_letter_example : is_valid_currency ⦃u = georgian⦄ (0x10a0 ∷ []) ≡ true
unfolding is_space
is_valid_currency-one_letter_example =
    is_valid_currency-one_letter ⦃u = georgian⦄ 0x10a0 (omega arith) (omega arith) refl refl refl
      refl

charged_payer-IsSolvent : IsSolvent charged_payer
charged_payer-IsSolvent = omega arith

abbrev reserved_more : Payer
reserved_more = record charged_payer {
  available = pos 280;
  held = pos 220;
  version = pos 2;
  updated_at = 40;
}

reserve-more : reserve ⦃u = ascii⦄ charged_payer (pos 100) (codes "eur") 40 ≡ ok reserved_more
unfolding reserve normalize_currency trim_space is_space Text_discrete add_int64 sub_int64 int64
    ◌+ℤ◌ ◌-ℤ◌
reserve-more = refl

reserve-Moves_example :
    IsSolvent reserved_more
    × (total reserved_more ≡ total charged_payer)
    × (reserved_more.held ≡ charged_payer.held +ℤ pos 100)
    × (pos 0 <ℤ pos 100)
reserve-Moves_example =
    reserve-Moves ⦃u = ascii⦄ charged_payer (pos 100) (codes "eur") 40 charged_payer-IsSolvent
      reserve-more

abbrev captured_payer : Payer
captured_payer = record charged_payer { held = pos 20; version = pos 2; updated_at = 40 }

capture_held-some :
    capture_held ⦃u = ascii⦄ charged_payer (pos 100) (codes "eur") 40 ≡ ok captured_payer
unfolding capture_held normalize_currency trim_space is_space Text_discrete add_int64 sub_int64
    int64 ◌+ℤ◌ ◌-ℤ◌
capture_held-some = refl

capture_held-Moves_example :
    IsSolvent captured_payer
    × (captured_payer.available ≡ charged_payer.available)
    × (captured_payer.held ≡ charged_payer.held -ℤ pos 100)
    × (pos 0 <ℤ pos 100)
capture_held-Moves_example =
    capture_held-Moves ⦃u = ascii⦄ charged_payer (pos 100) (codes "eur") 40 charged_payer-IsSolvent
      capture_held-some

can_authorize-reserve_example :
    (can_authorize ⦃u = ascii⦄ charged_payer (pos 100) (codes "eur") ≡ true)
    ↔ ((q : Payer) × (reserve ⦃u = ascii⦄ charged_payer (pos 100) (codes "eur") 40 ≡ ok q))
can_authorize-reserve_example =
    can_authorize-reserve ⦃u = ascii⦄ charged_payer (pos 100) (codes "eur") 40

release-reserve_example :
    (r : Payer) × (release ⦃u = ascii⦄ reserved_more (pos 100) (codes "eur") 50 ≡ ok r)
    × (r.available ≡ charged_payer.available)
    × (r.held ≡ charged_payer.held)
release-reserve_example =
    release-reserve ⦃u = ascii⦄ charged_payer (pos 100) (codes "eur") 40 50 charged_payer-IsSolvent
      reserve-more

abbrev payers : Store
payers = (codes "p1", charged_payer) ∷ []

update_payer-conflict_example :
    (update_payer none captured_payer ((codes "p1", reserved_more) ∷ [])
      ≡ (err payer_version_conflict, (codes "p1", reserved_more) ∷ []))
    × (lookup charged_payer.id ((codes "p1", reserved_more) ∷ []) ≡ some reserved_more)
unfolding update_payer lookup insert Text_discrete add_int64 int64 ◌+ℤ◌
update_payer-conflict_example =
    update_payer-conflict charged_payer reserved_more captured_payer payers refl refl refl refl refl
      refl

abbrev payment : Payment
payment = record {
  id = codes "pay_1";
  merchant_id = codes "m1";
  payer_id = codes "p1";
  amount = pos 120;
  currency = codes "EUR";
  status = P.authorized;
  hold_id = codes "hold_1";
  authorized_at = 30;
  expires_at = 90;
  captured_at = none;
  settled_at = none;
  created_at = 30;
  updated_at = 30;
}

can_capture-capture_example :
    (can_capture payment 90 ≡ true) ↔ ((q : Payment) × (capture payment 90 ≡ ok q))
can_capture-capture_example = can_capture-capture payment 90

abbrev captured_payment : Payment
captured_payment = record payment { status = P.captured; captured_at = some 60; updated_at = 60 }

capture-next_example :
    ((r : Payment) × (settle captured_payment 80 ≡ ok r))
    × (capture captured_payment 80 ≡ err payment_not_authorized)
    × (expire captured_payment 80 ≡ err payment_not_expirable)
unfolding capture
capture-next_example = capture-next payment captured_payment 60 80 refl

abbrev settled_payment : Payment
settled_payment = record captured_payment {
  status = P.settled;
  settled_at = some 80;
  updated_at = 80;
}

expire-settle_final_example :
    (capture settled_payment 95 ≡ err payment_not_authorized)
    × (expire settled_payment 95 ≡ err payment_not_expirable)
    × (settle settled_payment 95 ≡ err payment_not_captured)
unfolding settle
expire-settle_final_example = expire-settle_final captured_payment settled_payment 80 95 (inr refl)

expiry_boundary_example :
    ((q : Payment) × (expire payment 90 ≡ ok q))
    × (((q : Payment) × (capture payment 90 ≡ ok q)) ↔ (◌≡◌ {A = ℕ} 90 payment.expires_at))
expiry_boundary_example = expiry_boundary payment 90 refl (omega arith)
