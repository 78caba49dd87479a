-- ===== src/World/Run.antt =====
-- How a run of a chain of calls succeeds, and what a transaction keeps.
use mathlib.Core.Path.{subst}
use paycore.Base.{
  sym, ap, ◌∙◌, ◌≡◌, ◌≢◌, refl, true, false, Result, ok, err, inl, inr, ◌⊎◌, Bool-cases,
  Result-cases, arith, not, if◌then◌else◌,
}
use paycore.Errors.{Error, begin_transaction, commit_transaction, rollback_failed}
use paycore.World.{
  Env, Stateful, ◌>>=◌, within_tx, postgres, Pool, Commit, committed, refused, unanswered, finish,
}

-- Inversion of a chain that succeeds: its first part does, and so does what follows.
pub >>=-eq-ok :
    {S A B : Type 0} (m : Stateful (Env S) A) (f : A → Stateful (Env S) B) (w : Env S) {b : B}
    {w' : Env S}
    → (m >>= f) w ≡ (ok b, w')
    → (a : A) × (v : Env S) × (m w ≡ (ok a, v)) × (f a v ≡ (ok b, w'))
>>=-eq-ok m f w e = elim (Result-cases (m w).0) [
  | inl (a, h) ↦ (a, (m w).1, ground arith, ground arith)
  | inr (x, h) ↦ absurd (ground arith)
]

-- What a transaction leaves: all as it was, or all that its body wrote.
pub record IsWhole {S A : Type 0} (pool : Pool) (m : Stateful (Env S) A) (w : Env S)
    (r : Result A × Env S) : Type 0 where
  pub value : A
  pub body : Env S
  pub ran : m (record w { in_tx = true }) ≡ (ok value, body)
  pub kept : r.1.stores ≡ body.stores
  pub answer : (r.0 ≡ ok value) ⊎ ((r.0 ≡ err commit_transaction) × (pool.commits ≡ unanswered))

-- A transaction does not begin, or ends as its body does.
pub within_tx-cases :
    {S A : Type 0} (pool : Pool) (m : Stateful (Env S) A) (w : Env S)
    → w.in_tx ≡ false
    → (within_tx (postgres pool) m w ≡ (err begin_transaction, w))
      ⊎ (within_tx (postgres pool) m w ≡ finish pool w (m (record w { in_tx = true })))
unfolding within_tx
within_tx-cases pool m w out = elim (Bool-cases pool.begins) [
  | inl e ↦ inr (simp (out, e))
  | inr e ↦ inl (simp (out, e))
]

Commit-cases : (c : Commit) → (c ≡ committed) ⊎ (c ≡ refused) ⊎ (c ≡ unanswered)
Commit-cases committed = inl refl
Commit-cases refused = inr (inl refl)
Commit-cases unanswered = inr (inr refl)

finish-in_tx :
    {S A : Type 0} (pool : Pool) (w : Env S) (r : Result A × Env S)
    → (finish pool w r).1.in_tx ≡ w.in_tx
finish-in_tx pool w (err x, v) = refl
finish-in_tx pool w (ok a, v) = ground arith

-- A transaction leaves the context as it found it.
pub within_tx-in_tx :
    {S A : Type 0} (pool : Pool) (m : Stateful (Env S) A) (w : Env S)
    → w.in_tx ≡ false
    → (within_tx (postgres pool) m w).1.in_tx ≡ false
unfolding within_tx
within_tx-in_tx pool m w out =
    ground (arith, finish-in_tx pool w (m (record w { in_tx = true })), out)

finish-eq-ok :
    {S A : Type 0} (pool : Pool) (w : Env S) (r : Result A × Env S) {a : A} {w' : Env S}
    → finish pool w r ≡ (ok a, w')
    → (r.0 ≡ ok a) × (w'.stores ≡ r.1.stores)
finish-eq-ok pool w (err x, v) h = cc
finish-eq-ok pool w (ok a, v) h = ground arith

-- A transaction that succeeds has run its body, which succeeded, and kept what it wrote.
pub within_tx-eq-ok :
    {S A : Type 0} (pool : Pool) (m : Stateful (Env S) A) (w : Env S) {a : A} {w' : Env S}
    → w.in_tx ≡ false
    → within_tx (postgres pool) m w ≡ (ok a, w')
    → (v : Env S) × (m (record w { in_tx = true }) ≡ (ok a, v)) × (w'.stores ≡ v.stores)
within_tx-eq-ok pool m w out h = elim (within_tx-cases pool m w out) [
  | inl e ↦ absurd (ground arith)
  | inr e ↦
      let v = m (record w { in_tx = true }) in
      let (ran, kept) = finish-eq-ok pool w v (sym e ∙ h) in (v.1, ground arith, kept)
]

finish-refuses :
    {S A : Type 0} (pool : Pool) (w : Env S) (r : Result A × Env S) {e : Error}
    → pool.rolls_back ≡ true
    → r.0 ≡ err e
    → ((finish pool w r).0 ≡ err e) × ((finish pool w r).1.stores ≡ w.stores)
finish-refuses pool w (err x, v) rolls h = ground arith
finish-refuses pool w (ok a, v) rolls h = absurd (ground arith)

-- A transaction whose body fails ends in that error, and changes no table.
pub within_tx-refuses :
    {S A : Type 0} (pool : Pool) (m : Stateful (Env S) A) (w : Env S) {e : Error}
    → w.in_tx ≡ false
    → pool.begins ≡ true
    → pool.rolls_back ≡ true
    → (m (record w { in_tx = true })).0 ≡ err e
    → let (r, w') = within_tx (postgres pool) m w in (r ≡ err e) × (w'.stores ≡ w.stores)
unfolding within_tx
within_tx-refuses pool m w out begins rolls h =
    ground (arith, finish-refuses pool w (m (record w { in_tx = true })) rolls h)

-- The error of a call that kept its writes is that of a COMMIT whose reply was lost.
pub finish-cases :
    {S A : Type 0} (pool : Pool) (m : Stateful (Env S) A) (w : Env S)
    → let r = finish pool w (m (record w { in_tx = true })) in
      (((e : Error) × (r.0 ≡ err e)) × (r.1.stores ≡ w.stores)) ⊎ IsWhole pool m w r
finish-cases pool m w =
    let v = m (record w { in_tx = true }) in
    elim (Result-cases v.0) [
      | inr (e, h) ↦
          inl ((if not pool.rolls_back then rollback_failed e else e, ground arith), ground arith)
      | inl (a, h) ↦ elim (Commit-cases pool.commits) [
        | inl c ↦ inr (record {
          value = a;
          body = v.1;
          ran = ground arith;
          kept = ground arith;
          answer = inl (ground arith);
        })
        | inr (inl c) ↦ inl ((commit_transaction, ground arith), ground arith)
        | inr (inr c) ↦ inr (record {
          value = a;
          body = v.1;
          ran = ground arith;
          kept = ground arith;
          answer = inr (ground arith, c);
        })
      ]
    ]

-- A call in a database transaction leaves every table as it was, and returns an error, or its body
-- succeeded and all is as the body left it; then the call returns the value of the body, or the
-- error of its COMMIT.
pub within_tx-IsWhole :
    {S A : Type 0} (pool : Pool) (m : Stateful (Env S) A) (w : Env S)
    → w.in_tx ≡ false
    → let r = within_tx (postgres pool) m w in
      (((e : Error) × (r.0 ≡ err e)) × (r.1.stores ≡ w.stores)) ⊎ IsWhole pool m w r
within_tx-IsWhole pool m w out = elim (within_tx-cases pool m w out) [
  | inl e ↦ inl ((begin_transaction, ap (λ r. r.0) e), ap (λ r. r.1.stores) e)
  | inr e ↦
      subst (λ r. (((x : Error) × (r.0 ≡ err x)) × (r.1.stores ≡ w.stores)) ⊎ IsWhole pool m w r)
        (sym e) (finish-cases pool m w)
]

-- A call that ends in an error leaves every table as it was, unless its COMMIT has no reply.
pub within_tx-atomic :
    {S A : Type 0} (pool : Pool) (m : Stateful (Env S) A) (w : Env S) {e : Error} {w' : Env S}
    → pool.commits ≢ unanswered
    → w.in_tx ≡ false
    → within_tx (postgres pool) m w ≡ (err e, w')
    → w'.stores ≡ w.stores
within_tx-atomic pool m w answered out h = elim (within_tx-IsWhole pool m w out) [
  | inl (_, same) ↦ ap (λ r. r.1.stores) (sym h) ∙ same
  | inr x ↦ elim (x.answer) [
    | inl good ↦ absurd (ground arith)
    | inr (_, lost) ↦ absurd (answered lost)
  ]
]

-- A transaction keeps what its body keeps where that succeeds.
pub within_tx-keeps :
    {S A : Type 0} (P : S → Type 0) (pool : Pool) (m : Stateful (Env S) A) (w : Env S)
    → w.in_tx ≡ false
    → P w.stores
    → ((a : A) (v : Env S) → m (record w { in_tx = true }) ≡ (ok a, v) → P v.stores)
    → P (within_tx (postgres pool) m w).1.stores
within_tx-keeps P pool m w out p keeps = elim (within_tx-IsWhole pool m w out) [
  | inl (_, same) ↦ subst P (sym same) p
  | inr x ↦ subst P (sym x.kept) (keeps x.value x.body x.ran)
]
