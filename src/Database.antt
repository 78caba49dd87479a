-- ===== src/Database.antt =====
-- What the PostgreSQL adapters take from the database (internal/*/adapters/postgres/repository.go
-- and migrations/): a table is the map of its rows by primary key, and a statement is one step. Its
-- first argument is an error of the database that is no unique violation: of the connection, the
-- context, or a CHECK or FOREIGN KEY constraint. A unique violation is computed from the table. The
-- statements of one transaction run with no statement of another between them; the rows that others
-- have locked are an argument of the queries that skip them.
use paycore.Base.{ℕ, ◌≤◌, ◌≡◌, Bool, false, Option, none, some, List, [], ◌∷◌, ◌||◌, length}
use paycore.Base.Text.{Text, text_eq}

-- What a column keeps of a value: the precision of TIMESTAMPTZ, the width of CHAR(3), and the
-- collation by which it sorts TEXT.
pub record Columns : Type 0 where
  pub timestamptz : ℕ → ℕ
  pub char3 : Text → Text
  pub collates : Text → Text → Bool
  pub timestamptz_idem : (t : ℕ) → timestamptz (timestamptz t) ≡ timestamptz t
  pub timestamptz_mono : (t u : ℕ) → t ≤ u → timestamptz t ≤ timestamptz u
  pub char3_keep : (s : Text) → length s ≡ 3 → char3 s ≡ s

-- A column that may be NULL.
abbrev pub nullable {ℓ} : {A : Type ℓ} → (A → A) → Option A → Option A
nullable keep none = none
nullable keep (some a) = some (keep a)

-- `FOR UPDATE SKIP LOCKED`: the ids that other transactions have locked.
abbrev pub is_listed : Text → List Text → Bool
is_listed id [] = false
is_listed id (x ∷ xs) = text_eq id x || is_listed id xs
