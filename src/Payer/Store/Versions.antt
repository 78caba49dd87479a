-- ===== src/Payer/Store/Versions.antt =====
-- Optimistic concurrency: of two updates made from one reading of a payer, only the first is kept.
use mathlib.Core.Path.{subst, sym}
use paycore.Base.{◌≡◌, false, none, some, ok, err, arith}
use paycore.Base.Dict.{lookup, lookup-insert}
use paycore.Base.Int.{ℤ, pos, eqb_ℤ, ◌+ℤ◌, add_int64, int64, int64_range, IsInt64}
use paycore.Errors.{payer_version_conflict}
use paycore.Payer.{Payer}
use paycore.Payer.Store.{Store, update_payer}

-- The next version is another one, also where it wraps around.
next_version_differs : (v : ℤ) → IsInt64 v → eqb_ℤ v (add_int64 v (pos 1)) ≡ false
unfolding add_int64 int64 ◌+ℤ◌
next_version_differs v h = ground arith

next_version_range : (v w : ℤ) → w ≡ add_int64 v (pos 1) → IsInt64 w
next_version_range v w e = subst IsInt64 (sym e) (unfold add_int64 in int64_range (v +ℤ pos 1))

-- Two calls have read the payer `base`, and each made the next version from it. When the first has
-- been stored, the second is refused with a version conflict, and what the first stored stays.
pub update_payer-conflict :
    (base p q : Payer) (s : Store) {s' : Store}
    → lookup base.id s ≡ some base
    → p.id ≡ base.id
    → q.id ≡ base.id
    → p.version ≡ add_int64 base.version (pos 1)
    → q.version ≡ add_int64 base.version (pos 1)
    → update_payer none p s ≡ (ok p, s')
    → (update_payer none q s' ≡ (err payer_version_conflict, s')) × (lookup base.id s' ≡ some p)
unfolding update_payer
update_payer-conflict base p q s {s'} found pi qi pv qv e = ground (
  arith,
  next_version_differs q.version (next_version_range base.version q.version qv),
  lookup-insert q.id p.id p s,
  lookup-insert base.id p.id p s,
)
