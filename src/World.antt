-- ===== src/World.antt =====
-- The state that the services share: the tables, and what the environment answers. A service
-- call is a step on that state which returns a value or an error and keeps what it wrote before an
-- error; a transaction (internal/shared/db) gives the tables back as they were.
pub mod Run
use paycore.Base.{
  ℕ, Bool, true, false, not, Option, none, some, List, [], ◌∷◌, Result, ok, err, if◌then◌else◌,
}
pub use paycore.Base.Stateful.{Stateful, pure, fail, lift, ◌>>=◌, ◌>>◌, fail_if, next}
use paycore.Errors.{Error, begin_transaction, commit_transaction, rollback_failed}
use paycore.Base.Text.{Text}
use paycore.Base.Dict.{Dict}
use paycore.Merchant.{Merchant}
use paycore.Outbox.{Event}
use paycore.Payer.{Payer}
use paycore.Payment.{Hold}
use paycore.Payment.Postgres.{PaymentRow, PaymentTables}

-- The tables of the payment database that its services use.
pub record Stores : Type 0 where
  pub merchants : Dict Merchant
  pub payers : Dict Payer
  pub payments : PaymentTables
  pub events : Dict Event

-- `ctx` holds what the next calls of `ctx.Err()` or the next statements on the database return (no
-- error past its end), `random` what the next calls of `rand.Read` give (a failure past its end), and
-- `locked` the ids of the rows that other transactions hold when the next queries that skip such
-- rows run (none past its end); `in_tx` says whether the context carries a transaction.
pub record Env (S : Type 0) : Type 0 where
  pub stores : S
  pub ctx : List (Option Error)
  pub random : List (Option (List ℕ))
  pub locked : List (Option (List Text))
  pub in_tx : Bool

abbrev pub World : Type 0
World = Env Stores

abbrev pub Action : Type 0 → Type 0
Action = Stateful World

abbrev pub draw : {S : Type 0} → Stateful (Env S) (Option (List ℕ))
draw w = let (bytes, rest) = next w.random in (ok bytes, record w { random = rest })

-- What the next query that skips locked rows finds locked.
abbrev pub listed : Option (List Text) → List Text
listed none = []
listed (some ids) = ids

-- What the next query that skips locked rows finds locked.
abbrev pub locked_rows : {S : Type 0} → Stateful (Env S) (List Text)
locked_rows w = let (ids, rest) = next w.locked in (ok (listed ids), record w { locked = rest })

-- A statement, or the calls of a repository on its own table: it asks first what the database
-- answers.
abbrev pub on_merchants :
    {A : Type 0} → (Option Error → Dict Merchant → Result A × Dict Merchant) → Action A
on_merchants op w =
    let (e, rest) = next w.ctx in
    let (r, t) = op e w.stores.merchants in
    (r, record w { stores = record (w.stores) { merchants = t }; ctx = rest })

abbrev pub on_payers : {A : Type 0} → (Option Error → Dict Payer → Result A × Dict Payer) → Action A
on_payers op w =
    let (e, rest) = next w.ctx in
    let (r, t) = op e w.stores.payers in
    (r, record w { stores = record (w.stores) { payers = t }; ctx = rest })

-- A call of two statements, of which the second runs where the first has not failed.
abbrev pub on_payers_twice :
    {A : Type 0} → (Option Error → Option Error → Dict Payer → Result A × Dict Payer) → Action A
on_payers_twice op w =
    let (e, rest) = next w.ctx in
    let (later, rest') = next rest in
    let (r, t) = op e later w.stores.payers in
    (
      r,
      record w {
        stores = record (w.stores) { payers = t };
        ctx = elim e [ none ↦ rest' | some _ ↦ rest ];
      },
    )

abbrev pub on_payments :
    {A : Type 0} → (Option Error → Dict PaymentRow → Result A × Dict PaymentRow) → Action A
on_payments op w =
    let (e, rest) = next w.ctx in
    let (r, t) = op e w.stores.payments.payments in
    (
      r,
      record w {
        stores = record (w.stores) { payments = record (w.stores.payments) { payments = t } };
        ctx = rest;
      },
    )

abbrev pub on_holds : {A : Type 0} → (Option Error → Dict Hold → Result A × Dict Hold) → Action A
on_holds op w =
    let (e, rest) = next w.ctx in
    let (r, t) = op e w.stores.payments.holds in
    (
      r,
      record w {
        stores = record (w.stores) { payments = record (w.stores.payments) { holds = t } };
        ctx = rest;
      },
    )

abbrev pub on_events : {A : Type 0} → (Option Error → Dict Event → Result A × Dict Event) → Action A
on_events op w =
    let (e, rest) = next w.ctx in
    let (r, t) = op e w.stores.events in
    (r, record w { stores = record (w.stores) { events = t }; ctx = rest })

-- How COMMIT ends: `refused` where nothing is kept, and `unanswered` where all is kept but the reply
-- is lost, so that `tx.Commit` returns an error too.
pub data Commit : Type 0 where
  committed refused unanswered : Commit

-- `pool.Begin`, `tx.Commit` and `tx.Rollback`, and whether each succeeds in this call.
pub record Pool : Type 0 where
  pub begins : Bool
  pub commits : Commit
  pub rolls_back : Bool

-- The two implementations of `Transactor`.
pub data Transactor : Type 0 where
  noop : Transactor
  postgres : Pool → Transactor

-- The database forgets what the transaction wrote, also where its connection is lost.
abbrev pub restore : {S : Type 0} → Env S → Env S → Env S
restore before after = record after { stores = before.stores; in_tx = before.in_tx }

abbrev pub finish : {S A : Type 0} → Pool → Env S → Result A × Env S → Result A × Env S
finish pool w (err e, w') =
    (err (if not pool.rolls_back then rollback_failed e else e), restore w w')
finish pool w (ok a, w') = elim (pool.commits) [
  | committed ↦ (ok a, record w' { in_tx = w.in_tx })
  | refused ↦ (err commit_transaction, restore w w')
  | unanswered ↦ (err commit_transaction, record w' { in_tx = w.in_tx })
]

unfoldable pub within_tx : {S A : Type 0} → Transactor → Stateful (Env S) A → Stateful (Env S) A
within_tx noop m w = m w
within_tx (postgres pool) m w =
    if w.in_tx
    then m w
    else if not pool.begins
    then (err begin_transaction, w)
    else finish pool w (m (record w { in_tx = true }))
