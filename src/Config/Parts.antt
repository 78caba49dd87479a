-- ===== src/Config/Parts.antt =====
-- The parts that the commands choose by their configuration: `newRepositories` and
-- `newIdempotencyCache` of cmd/paycore-api/main.go, `newPublisher` of
-- cmd/paycore-outbox-worker/main.go.
use paycore.Base.{ℕ, ◌+◌, ◌&&◌, Option, none, some, map, ltb, leb, Result, ok, err, if◌then◌else◌}
use paycore.Base.Text.{Text, codes, is_empty, text_eq, trim_space}
use paycore.Config.{Config}
use paycore.Errors.{
  Error, unsupported_repository_backend, database_url_required, unsupported_outbox_publisher,
}
use paycore.Idempotency.Redis.{RedisCache, new_cache}
use paycore.Outbox.Kafka.{KafkaPublisher, brokers_from_string, new_publisher}

-- The repositories in memory, with `NoopTransactor`, or those of PostgreSQL, with its transactor.
pub data Backend : Type 0 where
  memory postgres : Backend

-- `connect` is the error of `pgxpool.New`, and `ping` that of the first contact.
unfoldable pub new_postgres_repositories : Text → Option Error → Option Error → Result Backend
new_postgres_repositories database_url connect ping =
    if is_empty database_url
    then err database_url_required
    else elim connect [ some e ↦ err e | none ↦ elim ping [ some e ↦ err e | none ↦ ok postgres ] ]

unfoldable pub new_repositories : Config → Option Error → Option Error → Result Backend
unfolding new_postgres_repositories
new_repositories cfg connect ping =
    if text_eq cfg.repository_backend (codes "memory")
    then ok memory
    else if text_eq cfg.repository_backend (codes "postgres")
    then new_postgres_repositories cfg.database_url connect ping
    else err unsupported_repository_backend

-- The cache over Redis, or none where `NoopCache` is used. `ping` is what Redis answers.
unfoldable pub new_idempotency_cache : Config → Option Error → Result (Option RedisCache)
new_idempotency_cache cfg ping =
    if cfg.idempotency_cache_enabled
    then elim ping [
      | some e ↦ err e
      | none ↦ elim (new_cache (codes "") cfg.idempotency_cache_ttl) [
        | ok c ↦ ok (some c)
        | err e ↦ err e
      ]
    ]
    else ok none

pub data Publisher : Type 0 where
  logging : Publisher
  kafka : KafkaPublisher → Publisher

-- unicode.ToLower, given its part beyond ASCII.
abbrev pub lower_rune : (ℕ → ℕ) → ℕ → ℕ
lower_rune lower c = if ltb c 128 then (if leb b'A' c && leb c b'Z' then c + 32 else c) else lower c

unfoldable pub choose_publisher : (ℕ → ℕ) → Config → Result Publisher
unfolding brokers_from_string new_publisher
choose_publisher lower cfg =
    let name = map (lower_rune lower) (trim_space cfg.outbox_publisher) in
    if is_empty name
    then ok logging
    else if text_eq name (codes "logging")
    then ok logging
    else if text_eq name (codes "kafka")
    then elim (new_publisher (brokers_from_string cfg.kafka_brokers) cfg.kafka_outbox_topic) [
      | ok p ↦ ok (kafka p)
      | err e ↦ err e
    ]
    else err unsupported_outbox_publisher
