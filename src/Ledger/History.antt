-- ===== src/Ledger/History.antt =====
-- Histories of calls on the database, from empty tables: whatever the calls, their errors and
-- the faults of the database, the books stay balanced.
use paycore.Base.{ℕ, ◌<◌, ◌^◌, ◌≡◌, false, Option, [], List, arith}
use paycore.Base.Dict.{lookup}
use paycore.Base.Int.{ℤ, pos_part}
use paycore.Base.Text.{Text}
use paycore.Database.{Columns}
use paycore.Currency.{Unicode}
use paycore.Errors.{Error}
use paycore.Ledger.{IsConsistent}
use paycore.Ledger.Calls.{
  authorize_payment-IsConsistent, capture_payment-IsConsistent,
  expire_authorized_payments-IsConsistent,
}
use paycore.Ledger.Create.{serve_create_merchant-IsConsistent, serve_create_payer-IsConsistent}
use paycore.Merchant.Service.{CreateMerchantInput, serve_create_merchant}
use paycore.Payer.{Payer}
use paycore.Payer.Service.{CreatePayerInput, serve_create_payer}
use paycore.Payment.Service.{
  AuthorizePaymentInput, authorize_payment, capture_payment, expire_authorized_payments,
}
use paycore.World.Run.{within_tx-in_tx}
use paycore.World.{World, Stores, Pool, postgres}

abbrev pub empty_stores : Stores
empty_stores = record {
  merchants = [];
  payers = [];
  payments = record { payments = []; holds = [] };
  events = [];
}

pub empty_stores-IsConsistent : IsConsistent empty_stores
unfolding lookup
empty_stores-IsConsistent = record {
  payments_map = tt;
  holds_map = tt;
  payers = λ k v e. cc;
  payments = λ k v e. cc;
  holds = λ k v e. cc;
}

-- One call, begun outside any transaction, or a change of what the environment will answer.
pub data Step ⦃u : Unicode⦄ ⦃columns : Columns⦄ (w : World) : World → Type 0 where
  environment :
      (ctx : List (Option Error)) (random : List (Option (List ℕ)))
      (locked : List (Option (List Text)))
      → Step w (record w { ctx = ctx; random = random; locked = locked })
  create_merchant :
      (now : ℕ) (input : CreateMerchantInput) → Step w (serve_create_merchant now input w).1
  create_payer :
      (now : ℕ) (input : CreatePayerInput)
      → pos_part input.available < 2 ^ 63
      → Step w (serve_create_payer now input w).1
  authorize :
      (pool : Pool) (now : ℕ) (input : AuthorizePaymentInput)
      → Step w (authorize_payment (postgres pool) now input w).1
  capture :
      (pool : Pool) (now : ℕ) (id : Text) → Step w (capture_payment (postgres pool) now id w).1
  expire :
      (pool : Pool) (now : ℕ) (limit : ℤ)
      → Step w (expire_authorized_payments (postgres pool) now limit w).1

pub data Reach ⦃u : Unicode⦄ ⦃columns : Columns⦄ (w : World) : World → Type 0 where
  here : Reach w w
  next : {v v' : World} → Reach w v → Step v v' → Reach w v'

pub record IsServing (w : World) : Type 0 where
  pub outside : w.in_tx ≡ false
  pub consistent : IsConsistent w.stores

module _ ⦃u : Unicode⦄ ⦃columns : Columns⦄ where
  Step-IsServing : {w w' : World} → Step w w' → IsServing w → IsServing w'
  unfolding serve_create_merchant serve_create_payer authorize_payment capture_payment
      expire_authorized_payments
  Step-IsServing (environment ctx random locked) s = record {
    outside = s.outside;
    consistent = s.consistent;
  }
  Step-IsServing {w} (create_merchant now input) s = record {
    outside = ground (arith, s);
    consistent = serve_create_merchant-IsConsistent now input w s.consistent;
  }
  Step-IsServing {w} (create_payer now input small) s = record {
    outside = ground (arith, s);
    consistent = serve_create_payer-IsConsistent now input w small s.consistent;
  }
  Step-IsServing {w} (authorize pool now input) s = record {
    outside = within_tx-in_tx pool _ w s.outside;
    consistent = authorize_payment-IsConsistent pool now input w s.outside s.consistent;
  }
  Step-IsServing {w} (capture pool now id) s = record {
    outside = within_tx-in_tx pool _ w s.outside;
    consistent = capture_payment-IsConsistent pool now id w s.outside s.consistent;
  }
  Step-IsServing {w} (expire pool now limit) s = record {
    outside = within_tx-in_tx pool _ w s.outside;
    consistent = expire_authorized_payments-IsConsistent pool now limit w s.outside s.consistent;
  }

  pub Reach-IsServing : {w w' : World} → IsServing w → Reach w w' → IsServing w'
  Reach-IsServing s here = s
  Reach-IsServing s (next r st) = Step-IsServing st (Reach-IsServing s r)
