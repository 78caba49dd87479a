-- ===== src/Payer/Postgres/Refines.antt =====
-- The PostgreSQL payer repository answers as the in-memory one does.
use mathlib.Core.Path.{subst₂}
use paycore.Base.{
  ◌≡◌, refl, Option, none, some, Result, ok, err, inl, inr, arith, Option-cases, Bool-cases,
}
use paycore.Base.Dict.{Dict, lookup, insert, lookup-insert, lookup-insert_self}
use paycore.Base.Int.{ℤ, pos, negsuc, IsInt64, add_int64, sub_int64, eqb_ℤ, int64, ◌+ℤ◌, ◌-ℤ◌}
use paycore.Base.Text.{Text}
use paycore.Database.{Columns}
use paycore.Payer.{Payer}
use paycore.Payer.Store.{Store, create_payer, get_payer, update_payer}
use paycore.Payer.Postgres.{kept_payer, create_payer_row, get_payer_row, update_payer_row}

-- The calls of the interface that read and write one payer.
pub data Call : Type 0 where
  create : Payer → Call
  get : Text → Call
  update : Payer → Call

unfoldable pub call_memory : Call → Store → Result Payer × Store
call_memory (create p) s = create_payer none p s
call_memory (get id) s = get_payer none id s
call_memory (update p) s = update_payer none p s

-- What a caller keeps to: an update leaves the time of creation, and versions are int64.
pub record Fits (call : Call) (s : Store) : Type 0 where
  pub fits :
      (p q : Payer)
      → call ≡ update p
      → lookup p.id s ≡ some q
      → (p.created_at ≡ q.created_at) × IsInt64 p.version × IsInt64 q.version

version_step :
    (v w : ℤ)
    → IsInt64 v
    → IsInt64 w
    → eqb_ℤ v (add_int64 w (pos 1)) ≡ eqb_ℤ w (sub_int64 v (pos 1))
unfolding add_int64 sub_int64 int64 ◌+ℤ◌ ◌-ℤ◌
version_step (pos a) (pos b) hv hw = ground arith
version_step (pos a) (negsuc b) hv hw = ground arith
version_step (negsuc a) (pos b) hv hw = ground arith
version_step (negsuc a) (negsuc b) hv hw = ground arith

module _ ⦃c : Columns⦄ where
  unfoldable pub call_postgres : Call → Dict Payer → Result Payer × Dict Payer
  call_postgres (create p) t = create_payer_row none p t
  call_postgres (get id) t = get_payer_row none id t
  call_postgres (update p) t = update_payer_row none none p t

  abbrev pub kept_option : Option Payer → Option Payer
  kept_option none = none
  kept_option (some p) = some (kept_payer p)

  abbrev pub kept_result : Result Payer → Result Payer
  kept_result (ok p) = ok (kept_payer p)
  kept_result (err e) = err e

  -- The table holds what the columns keep of the repository.
  pub record Agrees (s : Store) (t : Dict Payer) : Type 0 where
    pub at : (k : Text) → lookup k t ≡ kept_option (lookup k s)

  written-Agrees :
      (p : Payer) (s : Store) (t : Dict Payer)
      → Agrees s t
      → Agrees (insert p.id p s) (insert p.id (kept_payer p) t)
  written-Agrees p s t a = record {
    at = λ k.
        ground (arith, lookup-insert k p.id p s, lookup-insert k p.id (kept_payer p) t, a.at k);
  }

  create-refines :
      (p : Payer) (s : Store) (t : Dict Payer)
      → Agrees s t
      → ((create_payer_row none p t).0 ≡ kept_result (create_payer none p s).0)
        × Agrees (create_payer none p s).1 (create_payer_row none p t).1
  unfolding create_payer create_payer_row
  create-refines p s t a = elim (Option-cases (lookup p.id s)) [
    | inl n ↦
        let at : lookup p.id t ≡ none = ground (arith, a.at p.id) in
        (ground arith, subst₂ Agrees (ground arith) (ground arith) (written-Agrees p s t a))
    | inr (q, e) ↦
        let at : lookup p.id t ≡ some (kept_payer q) = ground (arith, a.at p.id) in
        (ground arith, subst₂ Agrees (ground arith) (ground arith) a)
  ]

  get-refines :
      (id : Text) (s : Store) (t : Dict Payer)
      → Agrees s t
      → ((get_payer_row none id t).0 ≡ kept_result (get_payer none id s).0)
        × Agrees (get_payer none id s).1 (get_payer_row none id t).1
  unfolding get_payer get_payer_row
  get-refines id s t a = (ground (arith, a.at id), subst₂ Agrees (ground arith) (ground arith) a)

  update-refines :
      (p : Payer) (s : Store) (t : Dict Payer)
      → Agrees s t
      → Fits (update p) s
      → ((update_payer_row none none p t).0 ≡ kept_result (update_payer none p s).0)
        × Agrees (update_payer none p s).1 (update_payer_row none none p t).1
  unfolding update_payer update_payer_row
  update-refines p s t a f = elim (Option-cases (lookup p.id s)) [
    | inl n ↦
        let at : lookup p.id t ≡ none = ground (arith, a.at p.id) in
        (ground arith, subst₂ Agrees (ground arith) (ground arith) a)
    | inr (q, e) ↦
        let at : lookup p.id t ≡ some (kept_payer q) = ground (arith, a.at p.id) in
        let (made, fits_p, fits_q) = f.fits p q refl e in
        let step = version_step p.version q.version fits_p fits_q in
        let kept : record (kept_payer p) { created_at = c.timestamptz q.created_at }
            ≡ kept_payer p =
          ground arith in
        elim (Bool-cases (eqb_ℤ q.version (sub_int64 p.version (pos 1)))) [
          | inl b ↦ (
            ground (arith, lookup-insert_self p.id (kept_payer p) t),
            subst₂ Agrees (ground arith) (ground (arith, lookup-insert_self p.id (kept_payer p) t))
                (written-Agrees p s t a),
          )
          | inr b ↦ (ground arith, subst₂ Agrees (ground arith) (ground arith) a)
        ]
  ]

  -- Without an error of the database, a call that fits answers what the columns keep of the answer of
  -- the in-memory repository, with the same errors, and the table and the repository go on agreeing.
  pub call_postgres-refines :
      (call : Call) (s : Store) (t : Dict Payer)
      → Agrees s t
      → Fits call s
      → ((call_postgres call t).0 ≡ kept_result (call_memory call s).0)
        × Agrees (call_memory call s).1 (call_postgres call t).1
  unfolding call_postgres call_memory
  call_postgres-refines (create p) s t a f = create-refines p s t a
  call_postgres-refines (get id) s t a f = get-refines id s t a
  call_postgres-refines (update p) s t a f = update-refines p s t a f
