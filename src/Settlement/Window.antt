-- ===== src/Settlement/Window.antt =====
-- The settlement worker's configuration and window (cmd/paycore-settlement-worker/main.go).
use native.Mathlib.Nat.{div-add-mod, mod-lt, mul-add}
use paycore.Base.{
  ℕ, ◌+◌, ◌-◌, ◌*◌, ◌/◌, ◌%◌, ◌^◌, ◌≤◌, ◌<◌, ◌≡◌, ap, none, some, Result, ok, err, arith,
  if◌then◌else◌,
}
use paycore.Base.Int.{ℤ, pos, negsuc, pos_part, neg_part, leb_ℤ, int64, int64_exact}
use paycore.Base.Text.{Text, codes, is_empty}
use paycore.Config.{Config, getenv, parse_int}
use paycore.Errors.{window_minutes_required}

pub record WorkerConfig : Type 0 where
  pub database_url : Text
  pub worker_id : Text
  pub window_minutes : ℤ
  pub claim_limit : ℤ
  pub lock_ttl : ℤ
  pub metrics_addr : Text

abbrev pub minute : ℕ
minute = 60 * 1000000000

-- `time.Duration(n) * time.Minute` wraps.
abbrev pub minutes : ℤ → ℤ
minutes n = elim n [
  | pos k ↦ int64 (pos (k * minute))
  | negsuc k ↦ int64 (negsuc (k * minute + minute - 1))
]

unfoldable pub intenv : (Text → Text) → Text → ℤ → ℤ
intenv environment key fallback =
    let value = environment key in
    if is_empty value then fallback else elim (parse_int value) [
      | none ↦ fallback
      | some n ↦ if leb_ℤ n (pos 0) then fallback else n
    ]

unfoldable pub load_worker_config : (Text → Text) → Config → WorkerConfig
load_worker_config environment base = record {
  database_url = base.database_url;
  worker_id =
      getenv environment (codes "PAYCORE_SETTLEMENT_WORKER_ID") (codes "paycore-settlement-worker");
  window_minutes = intenv environment (codes "PAYCORE_SETTLEMENT_WINDOW_MINUTES") (pos 60);
  claim_limit = intenv environment (codes "PAYCORE_SETTLEMENT_CLAIM_LIMIT") (pos 100);
  lock_ttl = minutes (intenv environment (codes "PAYCORE_SETTLEMENT_LOCK_MINUTES") (pos 5));
  metrics_addr = base.metrics_addr;
}

pub record SettlementWindow : Type 0 where
  pub start : ℕ
  pub end : ℕ

-- `now.Truncate(d)`: a duration that is not positive leaves the time.
abbrev pub truncated : ℕ → ℤ → ℕ
truncated now d = if leb_ℤ d (pos 0) then now else now - now % pos_part d

-- A start before the year 1 has no model, and is its first instant here.
unfoldable pub previous_full_window : ℕ → ℤ → Result SettlementWindow
unfolding int64
previous_full_window now window_minutes =
    let window = minutes window_minutes in
    let end = truncated now window in
    if leb_ℤ window_minutes (pos 0)
    then err window_minutes_required
    else ok (record { start = end + neg_part window - pos_part window; end = end })

module _ (m : ℕ) (positive : 0 < m) (fits : m * minute < 2 ^ 63) where
  -- The window of a run: it ends at the last multiple of its length.
  previous_full_window-ends :
      (now : ℕ) {w : SettlementWindow}
      → previous_full_window now (pos m) ≡ ok w
      → (w.end ≡ now - now % (m * minute)) × (w.start ≡ w.end - m * minute)
  unfolding previous_full_window int64
  previous_full_window-ends now h =
      ground (arith, int64_exact (pos (m * minute)) (fits, omega arith))

  multiple :
      (now d : ℕ)
      → 0 < d
      → d ≤ now
      → (d ≤ now - now % d) × (now - now % d ≤ now) × (now < now - now % d + d)
  multiple now d long old = grind (arith, div-add-mod now d, mod-lt now long)

  next_multiple :
      (now later d : ℕ) → 0 < d → later / d ≡ now / d + 1 → later - later % d - d ≡ now - now % d
  next_multiple now later d long next = omega (
    arith,
    div-add-mod now d,
    div-add-mod later d,
    ap (λ (q : ℕ). d * q) next,
    mul-add d (now / d) 1,
  )

  -- While its minutes fit an int64 as nanoseconds, the window of a run has its full length, and ends at the run or less than its length before. The
  -- window of a later run, which falls in the next window, starts where it ends.
  pub previous_full_window-tiles :
      (now later : ℕ) {w w' : SettlementWindow}
      → m * minute ≤ now
      → previous_full_window now (pos m) ≡ ok w
      → previous_full_window later (pos m) ≡ ok w'
      → later / (m * minute) ≡ now / (m * minute) + 1
      → (w.start + m * minute ≡ w.end)
        × (w.end ≤ now)
        × (now < w.end + m * minute)
        × (w'.start ≡ w.end)
  previous_full_window-tiles now later {w} {w'} old h h' next =
      let d = m * minute in
      let long : 0 < d = omega (arith, positive) in
      let (end, start) = previous_full_window-ends now h in
      let (end', start') = previous_full_window-ends later h' in
      let (full, past, near) = multiple now d long old in
      let tile = next_multiple now later d long next in
      (
        omega (arith, end, start, full),
        omega (arith, end, past),
        omega (arith, end, near),
        omega (arith, end, end', start', tile),
      )
