-- ===== src/Tests.antt =====
-- Runs on concrete inputs, and the theorems at inputs that meet their hypotheses.
mod Entities
mod Payments
mod Limits
mod Endpoints
mod Setup
mod Events
mod Requests
mod Settlements
mod Databases
use paycore.Base.{
  ℕ, ◌*◌, ◌/◌, ◌≤◌, ◌≡◌, refl, true, false, none, some, Option, [], ◌∷◌, List, ok, err, arith,
}
use paycore.Base.Int.{ℤ, pos, negsuc}
use paycore.Base.Text.{Text, codes, text_lt}
use paycore.Currency.{Unicode, upper_rune}
use paycore.Database.{Columns}
use paycore.Ledger.{IsConsistent}
use paycore.Ledger.History.{Step, Reach, empty_stores}
use paycore.Merchant.Service.{serve_create_merchant}
use paycore.Payer.{Payer, release, capture_held}
use paycore.Payer.Service.{CreatePayerInput, serve_create_payer}
use paycore.Payment.Service.{AuthorizePaymentInput, authorize_payment}
use paycore.World.{World, Pool, committed, postgres}

no_case : (c : ℕ) → 128 ≤ c → upper_rune (λ d. d) c ≡ c
no_case c h = ground arith

-- Case tables that know no letter beyond ASCII.
instance abbrev ascii : Unicode
ascii = record {
  upper = λ c. c;
  letter = λ _. false;
  upper_case = λ _. false;
  upper_upper = no_case;
  upper_space = λ c h. refl;
}

-- TIMESTAMPTZ keeps microseconds.
micros_idem : (t : ℕ) → t / 1000 * 1000 / 1000 * 1000 ≡ t / 1000 * 1000
micros_idem t = omega arith

micros_mono : (t u : ℕ) → t ≤ u → t / 1000 * 1000 ≤ u / 1000 * 1000
micros_mono t u h = omega arith

instance abbrev micros : Columns
micros = record {
  timestamptz = λ t. t / 1000 * 1000;
  char3 = λ s. s;
  collates = text_lt;
  timestamptz_idem = micros_idem;
  timestamptz_mono = micros_mono;
  char3_keep = λ s h. refl;
}

abbrev bytes : ℕ → Option (List ℕ)
bytes b = some (b ∷ 0 ∷ 0 ∷ 0 ∷ 0 ∷ 0 ∷ 0 ∷ 0 ∷ 0 ∷ 0 ∷ 0 ∷ 0 ∷ 0 ∷ 0 ∷ 0 ∷ b ∷ [])

abbrev start : World
start = record {
  stores = empty_stores;
  ctx = [];
  random = bytes 1 ∷ bytes 2 ∷ bytes 3 ∷ bytes 4 ∷ [];
  locked = [];
  in_tx = false;
}

abbrev pool : Pool
pool = record { begins = true; commits = committed; rolls_back = true }

with_merchant : World
unfolding serve_create_merchant
with_merchant =
    (serve_create_merchant 10000
      (record { id = codes " m1 "; name = codes "Shop"; settlement_currency = codes "eur" })
      start).1

abbrev payer_input : CreatePayerInput
payer_input = record { id = codes "p1"; available = pos 500; currency = codes "eur" }

with_payer : World
unfolding with_merchant serve_create_payer
with_payer = (serve_create_payer 20000 payer_input with_merchant).1

abbrev authorize_input : AuthorizePaymentInput
authorize_input = record {
  merchant_id = codes "m1";
  payer_id = codes "p1";
  amount = pos 120;
  currency = codes "EUR";
}

with_payment : World
unfolding with_payer authorize_payment
with_payment = (authorize_payment (postgres pool) 30000 authorize_input with_payer).1

abbrev charged_payer : Payer
charged_payer = record {
  id = codes "p1";
  available = pos 380;
  held = pos 120;
  currency = codes "EUR";
  version = pos 1;
  created_at = 20000;
  updated_at = 30000;
}

Reach-with_payer : Reach start with_payer
unfolding with_payer
Reach-with_payer =
    Reach.next (Reach.next Reach.here (Step.create_merchant 10000 _))
      (Step.create_payer 20000 payer_input (omega arith))

Reach-with_payment : Reach start with_payment
unfolding with_payment
Reach-with_payment = Reach.next Reach-with_payer (Step.authorize pool 30000 authorize_input)
