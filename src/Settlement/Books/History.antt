-- ===== src/Settlement/Books/History.antt =====
-- Histories of the settlement service beside the payment service, on one database.
use mathlib.Core.Path.{subst}
use paycore.Base.{
  ℕ, ◌↔◌, ◌≡◌, sym, refl, true, false, Option, none, some, List, [], ok, inl, inr, arith,
  Option-cases,
}
use paycore.Base.Dict.{lookup, insert, insert-IsMap, lookup-insert}
use paycore.Base.Int.{ℤ, pos}
use paycore.Base.Text.{Text, trim_space}
use paycore.Currency.{Unicode}
use paycore.Database.{Columns}
use paycore.Errors.{Error}
use paycore.Payment as P
use paycore.Payment.{Payment, capture, expire}
use paycore.Payment.Postgres.{PaymentRow, kept_payment, create_payment_row, update_payment_row}
use paycore.Settlement.{LineItem}
use paycore.Settlement.Service.{
  Tables, SettlementService, CreateBatchInput, create_batch, create_batch_tx, recover_stale_batches,
  recover_tx, on_payment_rows,
}
use paycore.Settlement.Books.{IsBalanced, is_settled}
use paycore.Settlement.Books.Calls.{create_batch_tx-IsBalanced, recover_tx-IsBalanced}
use paycore.World.{next, Env, Pool, postgres}
use paycore.World.Run.{within_tx-keeps, within_tx-in_tx}

abbrev pub no_rows : Tables
no_rows = record { payments = []; batches = []; items = []; events = [] }

pub no_rows-IsBalanced : IsBalanced no_rows
unfolding lookup
no_rows-IsBalanced = record {
  batches = record { is_map = tt; keyed = λ k b e. cc };
  rows_map = tt;
  rows = λ k r e. cc;
  items = λ k i e. cc;
  billed = λ k i e. cc;
  once = λ k k' i i' e. cc;
  settled = λ k r e. cc;
}

-- What the payment service does to the payments: it stores authorized ones, and captures or expires
-- the stored ones. `environment` changes what the environment will answer.
pub data Step ⦃u : Unicode⦄ ⦃c : Columns⦄ (w : Env Tables) : Env Tables → Type 0 where
  environment :
      (ctx : List (Option Error)) (random : List (Option (List ℕ)))
      (locked : List (Option (List Text)))
      → Step w (record w { ctx = ctx; random = random; locked = locked })
  authorized :
      (p : Payment)
      → p.status ≡ P.authorized
      → trim_space p.id ≡ p.id
      → Step w (on_payment_rows (λ e. create_payment_row e p) w).1
  captured :
      (row : PaymentRow) (q : Payment) (now : ℕ)
      → lookup row.payment.id w.stores.payments ≡ some row
      → capture row.payment now ≡ ok q
      → Step w (on_payment_rows (λ e. update_payment_row e q) w).1
  expired :
      (row : PaymentRow) (q : Payment) (now : ℕ)
      → lookup row.payment.id w.stores.payments ≡ some row
      → expire row.payment now ≡ ok q
      → Step w (on_payment_rows (λ e. update_payment_row e q) w).1
  create :
      (pool : Pool) (v : SettlementService) (now : ℕ) (input : CreateBatchInput)
      → Step w (create_batch (postgres pool) v now input w).1
  recover :
      (pool : Pool) (v : SettlementService) (now : ℕ) (limit : ℤ)
      → Step w (recover_stale_batches (postgres pool) v now limit w).1

pub data Reach ⦃u : Unicode⦄ ⦃c : Columns⦄ (w : Env Tables) : Env Tables → Type 0 where
  here : Reach w w
  after : {w' w'' : Env Tables} → Reach w w' → Step w' w'' → Reach w w''

pub record IsSettling (w : Env Tables) : Type 0 where
  pub outside : w.in_tx ≡ false
  pub balanced : IsBalanced w.stores

abbrev with_payment : Tables → Text → PaymentRow → Tables
with_payment t k row = record t { payments = insert k row t.payments }

-- A payment that was not settled and is not is written.
write-IsBalanced :
    (k : Text) (row : PaymentRow) (t : Tables)
    → IsBalanced t
    → row.payment.id ≡ k
    → trim_space k ≡ k
    → is_settled row.payment.status ≡ false
    → ((old : PaymentRow) → lookup k t.payments ≡ some old → is_settled old.payment.status ≡ false)
    → IsBalanced (with_payment t k row)
write-IsBalanced k row t b same trimmed unsettled was_open = record {
  batches = b.batches;
  rows_map = insert-IsMap k row t.payments b.rows_map;
  rows = λ j r e. ground (arith, lookup-insert j k row t.payments, b.rows j r);
  items = b.items;
  billed = λ j i e.
      let x = b.billed j i e in
      record {
        row = x.row;
        found = ground (
          arith,
          lookup-insert i.payment_id k row t.payments,
          x.found,
          x.settled,
          was_open x.row,
        );
        settled = x.settled;
        batch = x.batch;
        amount = x.amount;
        fee = x.fee;
        net = x.net;
      };
  once = b.once;
  settled = λ j r e done. b.settled j r (ground (arith, lookup-insert j k row t.payments)) done;
}

module _ ⦃u : Unicode⦄ ⦃c : Columns⦄ where
  create_payment_row-IsBalanced :
      (e : Option Error) (p : Payment) (t : Tables)
      → IsBalanced t
      → p.status ≡ P.authorized
      → trim_space p.id ≡ p.id
      → IsBalanced (record t { payments = (create_payment_row e p t.payments).1 })
  unfolding create_payment_row
  create_payment_row-IsBalanced (some x) p t b status trimmed = b
  create_payment_row-IsBalanced none p t b status trimmed =
      elim (Option-cases (lookup p.id t.payments)) [
        | inr (row, found) ↦
            let same : t.payments ≡ (create_payment_row none p t.payments).1 = ground arith in
            subst (λ d. IsBalanced (record t { payments = d })) same b
        | inl free ↦
            let row : PaymentRow = record {
              payment = kept_payment p;
              settlement_batch_id = none;
            } in
            let same : insert p.id row t.payments ≡ (create_payment_row none p t.payments).1 =
              ground arith in
            subst (λ d. IsBalanced (record t { payments = d })) same
              (write-IsBalanced p.id row t b refl trimmed (ground arith) (λ old e. ground arith))
      ]

  update_payment_row-IsBalanced :
      (e : Option Error) (row : PaymentRow) (q : Payment) (t : Tables)
      → IsBalanced t
      → lookup row.payment.id t.payments ≡ some row
      → q.id ≡ row.payment.id
      → is_settled row.payment.status ≡ false
      → is_settled q.status ≡ false
      → IsBalanced (record t { payments = (update_payment_row e q t.payments).1 })
  unfolding update_payment_row
  update_payment_row-IsBalanced (some x) row q t b found same was unsettled = b
  update_payment_row-IsBalanced none row q t b found same was unsettled =
      let at : lookup q.id t.payments ≡ some row = ground arith in
      let q' : Payment = record (kept_payment q) { created_at = row.payment.created_at } in
      let same : insert q.id (record row { payment = q' }) t.payments
          ≡ (update_payment_row none q t.payments).1 =
        ground arith in
      subst (λ d. IsBalanced (record t { payments = d })) same
        (write-IsBalanced q.id (record row { payment = q' }) t b refl
          (ground (arith, b.rows q.id row at)) unsettled (λ old e. ground arith))

  capture-unsettled :
      (p q : Payment) (now : ℕ)
      → capture p now ≡ ok q
      → (q.id ≡ p.id) × (is_settled p.status ≡ false) × (is_settled q.status ≡ false)
  unfolding capture
  capture-unsettled p q now h = ground arith

  expire-unsettled :
      (p q : Payment) (now : ℕ)
      → expire p now ≡ ok q
      → (q.id ≡ p.id) × (is_settled p.status ≡ false) × (is_settled q.status ≡ false)
  unfolding expire
  expire-unsettled p q now h = ground arith

  Step-IsSettling : {w w' : Env Tables} → Step w w' → IsSettling w → IsSettling w'
  unfolding create_batch recover_stale_batches
  Step-IsSettling (environment ctx random locked) i = record {
    outside = i.outside;
    balanced = i.balanced;
  }
  Step-IsSettling {w} (authorized p status trimmed) i = record {
    outside = i.outside;
    balanced = create_payment_row-IsBalanced (next w.ctx).0 p w.stores i.balanced status trimmed;
  }
  Step-IsSettling {w} (captured row q now found h) i =
      let (same, was, unsettled) = capture-unsettled row.payment q now h in
      record {
        outside = i.outside;
        balanced =
            update_payment_row-IsBalanced (next w.ctx).0 row q w.stores i.balanced found same was
              unsettled;
      }
  Step-IsSettling {w} (expired row q now found h) i =
      let (same, was, unsettled) = expire-unsettled row.payment q now h in
      record {
        outside = i.outside;
        balanced =
            update_payment_row-IsBalanced (next w.ctx).0 row q w.stores i.balanced found same was
              unsettled;
      }
  Step-IsSettling {w} (create pool v now input) i = record {
    outside = within_tx-in_tx pool (create_batch_tx v now input) w i.outside;
    balanced =
        within_tx-keeps IsBalanced pool (create_batch_tx v now input) w i.outside i.balanced
          (λ r z ran.
            create_batch_tx-IsBalanced v now input (record w { in_tx = true }) {r = r} {w' = z} ran
              i.balanced);
  }
  Step-IsSettling {w} (recover pool v now limit) i = record {
    outside = within_tx-in_tx pool (recover_tx v now limit) w i.outside;
    balanced =
        within_tx-keeps IsBalanced pool (recover_tx v now limit) w i.outside i.balanced (λ r z ran.
          recover_tx-IsBalanced v now limit (record w { in_tx = true }) {r = r} {w' = z} ran
            i.balanced);
  }

  pub Reach-IsSettling : {w w' : Env Tables} → IsSettling w → Reach w w' → IsSettling w'
  Reach-IsSettling i here = i
  Reach-IsSettling i (after a b) = Step-IsSettling b (Reach-IsSettling i a)

  -- After any history of calls on the database from empty tables, with any errors and faults, a
  -- payment is settled exactly where a line item bills it; then the item has the amount of the
  -- payment, no fee, and the batch that claimed the payment, and no other item bills it.
  pub Reach-settled_once :
      (w w' : Env Tables) (k : Text) (row : PaymentRow)
      → w.stores ≡ no_rows
      → w.in_tx ≡ false
      → Reach w w'
      → lookup k w'.stores.payments ≡ some row
      → ((is_settled row.payment.status ≡ true) ↔ (
          (j : Text) × (i : LineItem) × (lookup j w'.stores.items ≡ some i) × (i.payment_id ≡ k)))
        × ((j j' : Text) (i i' : LineItem)
            → lookup j w'.stores.items ≡ some i
            → lookup j' w'.stores.items ≡ some i'
            → i.payment_id ≡ k
            → i'.payment_id ≡ k
            → (j ≡ j')
              × (i.amount ≡ row.payment.amount)
              × (i.fee_amount ≡ pos 0)
              × (row.settlement_batch_id ≡ some i.batch_id))
  Reach-settled_once w w' k row empty out reach found =
      let b =
        (Reach-IsSettling
          (record { outside = out; balanced = subst IsBalanced (sym empty) no_rows-IsBalanced })
          reach).balanced in
      (
        (
          b.settled k row found,
          λ (j, i, listed, at).
              ground (arith, (b.billed j i listed).found, (b.billed j i listed).settled),
        ),
        λ j j' i i' e e' at at'. (
          b.once j j' i i' e e' (ground arith),
          ground (arith, (b.billed j i e).found, (b.billed j i e).amount),
          (b.billed j i e).fee,
          ground (arith, (b.billed j i e).found, (b.billed j i e).batch),
        ),
      )
