-- ===== src/Settlement/Books/Settle.antt =====
-- The settlement of claimed payments keeps the books.
use mathlib.Core.Path.{subst}
use paycore.Base.{ℕ, ◌≡◌, ◌≢◌, sym, true, none, some, List, [], ◌∷◌, ok, arith}
use paycore.Base.Dict.{
  Dict, lookup, find_value, Entries, IsMap, insert-IsMap, lookup-insert, lookup-insert_self,
}
use paycore.Base.Every.{Every, Every-map}
use paycore.Base.Text.{Text, Text_discrete, trim_space}
use paycore.Currency.{Unicode}
use paycore.Database.{Columns}
use paycore.Payment.{Payment}
use paycore.Payment.Postgres.{PaymentRow}
use paycore.Settlement.{LineItem}
use paycore.Settlement.Postgres.{ClaimedPayment, is_of_payment}
use paycore.Settlement.Service.{Tables, settle_one, settle_claimed_payments}
use paycore.Settlement.Service.Writes.{Settles, settle_one-Settles}
use paycore.Settlement.Books.{IsBalanced, IsBatches, Bills, Claimed, is_settled}
use paycore.World.{Env, pure, ◌>>=◌}
use paycore.World.Run.{>>=-eq-ok}

-- A query that finds no row: no row passes the test.
find_value-none :
    (payment_id k : Text) (i : LineItem) (d : Dict LineItem)
    → find_value (is_of_payment payment_id) d ≡ none
    → lookup k d ≡ some i
    → i.payment_id ≢ payment_id
unfolding find_value lookup
find_value-none payment_id k i [] h e = cc
find_value-none payment_id k i (x ∷ d) h e = ground (arith, find_value-none payment_id k i d)

module _ (batch_id : Text) (trimmed : trim_space batch_id ≡ batch_id) (claimed : ClaimedPayment)
    (row : PaymentRow) (item : LineItem) (payment : Payment) (t t' : Tables) where
  Settles-Bills :
      Settles batch_id claimed row item payment t t'
      → lookup claimed.payment_id t.payments ≡ some row
      → (row.payment.id ≡ claimed.payment_id) × (trim_space claimed.payment_id ≡ claimed.payment_id)
      → row.settlement_batch_id ≡ some batch_id
      → claimed.amount ≡ row.payment.amount
      → Bills t'.payments item
  Settles-Bills s found keyed batch amount = record {
    row = record row { payment = payment };
    found =
        ground
          (arith, lookup-insert_self row.payment.id (record row { payment = payment }) t.payments);
    settled = ground arith;
    batch = ground arith;
    amount = ground arith;
    fee = s.item_fee;
    net = ground arith;
  }

  module _ (b : IsBalanced t) (s : Settles batch_id claimed row item payment t t')
      (found : lookup claimed.payment_id t.payments ≡ some row)
      (batch : row.settlement_batch_id ≡ some batch_id)
      (amount : claimed.amount ≡ row.payment.amount) where
    -- An item that was there bills another payment, whose row stays.
    old-Bills : (k : Text) (i : LineItem) → lookup k t.items ≡ some i → Bills t'.payments i
    old-Bills k i e =
        let old = b.billed k i e in
        record {
          row = old.row;
          found = ground (
            arith,
            old.found,
            old.settled,
            b.rows claimed.payment_id row found,
            lookup-insert i.payment_id row.payment.id (record row { payment = payment }) t.payments,
          );
          settled = old.settled;
          batch = old.batch;
          amount = old.amount;
          fee = old.fee;
          net = old.net;
        }

    -- Every other item bills another payment.
    old-ne : (k : Text) (i : LineItem) → lookup k t.items ≡ some i → i.payment_id ≢ item.payment_id
    old-ne k i e = find_value-none item.payment_id k i t.items s.fresh_payment e

    settles-billed : Entries (λ k i. Bills t'.payments i) t'.items
    settles-billed k i e = elim (Text_discrete k item.id) [
      | yes same ↦
          let it : i ≡ item = ground (arith, lookup-insert k item.id item t.items) in
          subst (Bills t'.payments) (sym it)
            (Settles-Bills s found (b.rows claimed.payment_id row found) batch amount)
      | no other ↦ old-Bills k i (ground (arith, lookup-insert k item.id item t.items))
    ]

    settles-once :
        (k k' : Text) (i i' : LineItem)
        → lookup k t'.items ≡ some i
        → lookup k' t'.items ≡ some i'
        → i.payment_id ≡ i'.payment_id
        → k ≡ k'
    settles-once k k' i i' e e' same = ground (
      arith,
      lookup-insert k item.id item t.items,
      lookup-insert k' item.id item t.items,
      old-ne k i,
      old-ne k' i',
      b.once k k' i i',
    )

    settles-settled :
        (k : Text) (row' : PaymentRow)
        → lookup k t'.payments ≡ some row'
        → is_settled row'.payment.status ≡ true
        → (j : Text) × (i : LineItem) × (lookup j t'.items ≡ some i) × (i.payment_id ≡ k)
    settles-settled k row' e done = elim (Text_discrete k row.payment.id) [
      | yes same ↦ (
        item.id,
        item,
        ground (arith, lookup-insert_self item.id item t.items),
        ground (arith, b.rows claimed.payment_id row found),
      )
      | no other ↦
          let (j, i, listed, at) =
            b.settled k row'
              (ground (
                arith,
                lookup-insert k row.payment.id (record row { payment = payment }) t.payments,
              ))
              done in
          (j, i, ground (arith, lookup-insert j item.id item t.items), at)
    ]

    Settles-IsBalanced : IsBalanced t'
    Settles-IsBalanced = record {
      batches = subst IsBatches (sym s.batches) b.batches;
      rows_map = subst IsMap (sym s.payments) (insert-IsMap _ _ t.payments b.rows_map);
      rows = λ k r e. ground (
        arith,
        lookup-insert k row.payment.id (record row { payment = payment }) t.payments,
        b.rows k r,
        b.rows claimed.payment_id row found,
      );
      items = λ k i e. ground (arith, lookup-insert k item.id item t.items, b.items k i);
      billed = settles-billed;
      once = settles-once;
      settled = settles-settled;
    }

    -- The other claims stand as they did.
    Settles-Claimed :
        (x : ClaimedPayment) → Claimed batch_id t.payments x → Claimed batch_id t'.payments x
    Settles-Claimed x d = elim (Text_discrete x.payment_id row.payment.id) [
      | yes same ↦ record {
        row = record row { payment = payment };
        found = ground (
          arith,
          lookup-insert x.payment_id row.payment.id (record row { payment = payment }) t.payments,
        );
        batch = batch;
        amount = ground (arith, d.found, d.amount, b.rows claimed.payment_id row found);
      }
      | no other ↦ record {
        row = d.row;
        found = ground (
          arith,
          d.found,
          lookup-insert x.payment_id row.payment.id (record row { payment = payment }) t.payments,
        );
        batch = d.batch;
        amount = d.amount;
      }
    ]

module _ ⦃u : Unicode⦄ ⦃c : Columns⦄ (batch_id : Text) (trimmed : trim_space batch_id ≡ batch_id)
    (now : ℕ) where
  pub settle_one-IsBalanced :
      (claimed : ClaimedPayment) (w : Env Tables) {r : LineItem × Payment} {w' : Env Tables}
      → settle_one batch_id now claimed w ≡ (ok r, w')
      → IsBalanced w.stores
      → Claimed batch_id w.stores.payments claimed
      → IsBalanced w'.stores
        × ((x : ClaimedPayment)
            → Claimed batch_id w.stores.payments x
            → Claimed batch_id w'.stores.payments x)
  settle_one-IsBalanced claimed w {r} {w'} h b d =
      let s =
        settle_one-Settles batch_id now claimed d.row w h d.found
          (b.rows claimed.payment_id d.row d.found).0 in
      (
        Settles-IsBalanced batch_id trimmed claimed d.row r.0 r.1 w.stores w'.stores b s d.found
            d.batch d.amount,
        Settles-Claimed batch_id trimmed claimed d.row r.0 r.1 w.stores w'.stores b s d.found
            d.batch d.amount,
      )

  pub settle_claimed_payments-IsBalanced :
      (cs : List ClaimedPayment) (w : Env Tables) {r : List LineItem × List Payment}
      {w' : Env Tables}
      → settle_claimed_payments batch_id now cs w ≡ (ok r, w')
      → IsBalanced w.stores
      → Every (Claimed batch_id w.stores.payments) cs
      → IsBalanced w'.stores
  unfolding settle_claimed_payments
  settle_claimed_payments-IsBalanced [] w {r} {w'} h b d =
      let same : w ≡ w' = cc in subst (λ (v : Env Tables). IsBalanced v.stores) same b
  settle_claimed_payments-IsBalanced (x ∷ xs) w {r} {w'} h b d =
      let (one, v, first, more) =
        >>=-eq-ok (settle_one batch_id now x)
          (λ a. settle_claimed_payments batch_id now xs >>= λ os. pure (a.0 ∷ os.0, a.1 ∷ os.1)) w
          h in
      let (others, v', rest, end) =
        >>=-eq-ok (settle_claimed_payments batch_id now xs)
          (λ os. pure (one.0 ∷ os.0, one.1 ∷ os.1)) v more in
      let (b', keeps) = settle_one-IsBalanced x w first b d.0 in
      let b'' = settle_claimed_payments-IsBalanced xs v rest b' (Every-map xs keeps d.1) in
      let same : v' ≡ w' = cc in subst (λ (z : Env Tables). IsBalanced z.stores) same b''
