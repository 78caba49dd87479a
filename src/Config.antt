-- ===== src/Config.antt =====
-- The configuration (internal/shared/config/config.go), as a function of the environment: what
-- `os.Getenv` gives for a name, empty where there is none.
pub mod Limiter
pub mod Parts
use paycore.Base.{
  ℕ, ◌+◌, ◌*◌, ◌-◌, ◌^◌, Bool, true, false, not, ◌&&◌, ◌||◌, Option, none, some, [], ◌∷◌, leb, ltb,
  ◌==◌, if◌then◌else◌,
}
use paycore.Base.Int.{ℤ, pos, negsuc, pos_part, leb_ℤ, int64}
use paycore.Base.Text.{Text, codes, text_eq, is_empty}

abbrev is_digit : ℕ → Bool
is_digit c = leb b'0' c && leb c b'9'

-- The value of a text of decimal digits, after the value of those before it.
digits : ℕ → Text → Option ℕ
digits acc [] = some acc
digits acc (c ∷ s) =
    let rest = digits (acc * 10 + (c - b'0')) s in if is_digit c then rest else none

abbrev natural : Text → Option ℕ
natural [] = none
natural (c ∷ s) = digits 0 (c ∷ s)

abbrev positive : Option ℕ → Option ℤ
positive none = none
positive (some n) = if ltb n (2 ^ 63) then some (pos n) else none

abbrev negative : Option ℕ → Option ℤ
negative none = none
negative (some n) =
    if n == 0 then some (pos 0) else if leb n (2 ^ 63) then some (negsuc (n - 1)) else none

-- `strconv.Atoi` and `strconv.ParseInt` with base 10 and 64 bits; an error is none.
unfoldable pub parse_int : Text → Option ℤ
unfolding digits
parse_int [] = none
parse_int (c ∷ s) =
    if c == b'+'
    then positive (natural s)
    else if c == b'-'
    then negative (natural s)
    else positive (natural (c ∷ s))

-- `strconv.ParseBool`
unfoldable pub parse_bool : Text → Option Bool
parse_bool s =
    if text_eq s (codes "1")
      || text_eq s (codes "t")
      || text_eq s (codes "T")
      || text_eq s (codes "true")
      || text_eq s (codes "TRUE")
      || text_eq s (codes "True")
    then some true
    else if text_eq s (codes "0")
        || text_eq s (codes "f")
        || text_eq s (codes "F")
        || text_eq s (codes "false")
        || text_eq s (codes "FALSE")
        || text_eq s (codes "False")
    then some false
    else none

pub record Config : Type 0 where
  pub env : Text
  pub http_addr : Text
  pub metrics_addr : Text
  pub http_read_header_timeout : ℤ
  pub http_shutdown_timeout : ℤ
  pub database_url : Text
  pub redis_addr : Text
  pub kafka_brokers : Text
  pub kafka_outbox_topic : Text
  pub outbox_publisher : Text
  pub rate_limit_enabled : Bool
  pub rate_limit_requests : ℤ
  pub rate_limit_window : ℤ
  pub idempotency_cache_enabled : Bool
  pub idempotency_cache_ttl : ℤ
  pub repository_backend : Text

-- `time.Second`, in nanoseconds.
abbrev pub second : ℕ
second = 1000000000

abbrev pub seconds : ℕ → ℤ
seconds n = pos (n * second)

module _ (environment : Text → Text) where
  unfoldable pub getenv : Text → Text → Text
  getenv key fallback = let value = environment key in if is_empty value then fallback else value

  -- `time.Duration(seconds) * time.Second` wraps.
  unfoldable pub duration_seconds : Text → ℤ → ℤ
  duration_seconds key fallback =
      let value = environment key in
      if is_empty value then fallback else elim (parse_int value) [
        | none ↦ fallback
        | some n ↦ if leb_ℤ n (pos 0) then fallback else int64 (pos (pos_part n * second))
      ]

  unfoldable pub boolenv : Text → Bool → Bool
  boolenv key fallback =
      let value = environment key in
      if is_empty value
      then fallback
      else elim (parse_bool value) [ none ↦ fallback | some parsed ↦ parsed ]

  unfoldable pub int64env : Text → ℤ → ℤ
  int64env key fallback =
      let value = environment key in
      if is_empty value then fallback else elim (parse_int value) [
        | none ↦ fallback
        | some n ↦ if leb_ℤ n (pos 0) then fallback else n
      ]

  unfoldable pub load : Config
  load = record {
    env = getenv (codes "PAYCORE_ENV") (codes "local");
    http_addr = getenv (codes "PAYCORE_HTTP_ADDR") (codes ":8080");
    metrics_addr = getenv (codes "PAYCORE_METRICS_ADDR") (codes ":9091");
    http_read_header_timeout =
        duration_seconds (codes "PAYCORE_HTTP_READ_HEADER_TIMEOUT_SECONDS") (seconds 5);
    http_shutdown_timeout =
        duration_seconds (codes "PAYCORE_HTTP_SHUTDOWN_TIMEOUT_SECONDS") (seconds 10);
    database_url = getenv (codes "PAYCORE_DATABASE_URL") [];
    redis_addr = getenv (codes "PAYCORE_REDIS_ADDR") (codes "localhost:6379");
    kafka_brokers = getenv (codes "PAYCORE_KAFKA_BROKERS") (codes "localhost:9092");
    kafka_outbox_topic =
        getenv (codes "PAYCORE_KAFKA_OUTBOX_TOPIC") (codes "paycore.outbox.events");
    outbox_publisher = getenv (codes "PAYCORE_OUTBOX_PUBLISHER") (codes "logging");
    rate_limit_enabled = boolenv (codes "PAYCORE_RATE_LIMIT_ENABLED") false;
    rate_limit_requests = int64env (codes "PAYCORE_RATE_LIMIT_REQUESTS") (pos 60);
    rate_limit_window = duration_seconds (codes "PAYCORE_RATE_LIMIT_WINDOW_SECONDS") (seconds 60);
    idempotency_cache_enabled = boolenv (codes "PAYCORE_IDEMPOTENCY_CACHE_ENABLED") false;
    idempotency_cache_ttl =
        duration_seconds (codes "PAYCORE_IDEMPOTENCY_CACHE_TTL_SECONDS") (seconds (24 * 3600));
    repository_backend = getenv (codes "PAYCORE_REPOSITORY_BACKEND") (codes "memory");
  }
