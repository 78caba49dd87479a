-- ===== src/Tests/Setup.antt =====
-- The start of the program: configurations and migrations.
use paycore.Base.{
  ℕ, ◌==◌, ◌≡◌, ◌⊎◌, ◌+◌, ◌*◌, ◌<◌, ◌≤◌, refl, true, none, some, List, [], ◌∷◌, Result, ok, err,
  arith, if◌then◌else◌,
}
use paycore.Config.Parts.{choose_publisher, kafka, new_repositories, new_postgres_repositories}
use paycore.Currency.{Unicode}
use paycore.Database.{Columns}
use paycore.Outbox.Kafka.{brokers_from_string, split_commas, clean_brokers, new_publisher}
use paycore.Settlement.Run.{run_worker}
use paycore.Settlement.Service.{Tables}
use paycore.World.{Env, Transactor}
use paycore.Base.Int.{pos, ◌<ℤ◌}
use paycore.Base.Text.{Text, codes, is_space, trim_space, text_eq, Text_discrete}
use paycore.Config.{parse_int, load, boolenv, parse_bool, getenv}
use paycore.Config.Limiter.{
  new_rate_limiter, window_key, new_rate_limiter_starts, new_rate_limiter_overflow,
}
use paycore.Errors.{context_done, window_required, window_minutes_required, database_url_required}
use paycore.Migrations.{
  MigrationFile, FoundFile, Migrated, list_migrations, migrate, migration_applied, apply_migration,
  apply_statements,
}
use paycore.Migrations.Applied.{upgrade, AllListed, migrate-once}
use paycore.RateLimit.{RedisLimiter}
use paycore.Settlement.Window.{
  SettlementWindow, WorkerConfig, minute, previous_full_window, previous_full_window-tiles,
}

-- A window of 30 seconds, and one of 9223372037.
abbrev half_minute : Text → Text
half_minute name = if text_eq name window_key then codes "30" else []

abbrev three_centuries : Text → Text
three_centuries name =
    if text_eq name window_key
    then codes "9223372037"
    else if text_eq name (codes "PAYCORE_RATE_LIMIT_ENABLED")
    then codes "true"
    else []

half_minute_parsed : parse_int (half_minute window_key) ≡ some (pos 30)
unfolding parse_int Text_discrete
half_minute_parsed = refl

new_rate_limiter_starts_example :
    (new_rate_limiter (load half_minute) none ≡ ok none)
    ⊎ ((l : RedisLimiter) × (new_rate_limiter (load half_minute) none ≡ ok (some l))
        × (pos 0 <ℤ l.limit)
        × (pos 0 <ℤ l.window))
new_rate_limiter_starts_example =
    new_rate_limiter_starts half_minute (λ n parsed. ground (arith, half_minute_parsed))

three_centuries_parsed : parse_int (three_centuries window_key) ≡ some (pos 9223372037)
unfolding parse_int Text_discrete
three_centuries_parsed = refl

three_centuries_limits : (load three_centuries).rate_limit_enabled ≡ true
unfolding load boolenv parse_bool Text_discrete
three_centuries_limits = refl

new_rate_limiter_overflow_example :
    new_rate_limiter (load three_centuries) none ≡ err window_required
new_rate_limiter_overflow_example =
    new_rate_limiter_overflow three_centuries 9223372037 three_centuries_parsed (omega arith)
      (omega arith) three_centuries_limits

abbrev found : List FoundFile
found =
    (record { path = codes "m/2.sql"; base = codes "2.sql"; body = some (codes "b") })
    ∷ (record { path = codes "m/1.sql"; base = codes "1.sql"; body = some (codes "a") })
    ∷ []

abbrev files : List MigrationFile
files =
    (record { version = codes "1.sql"; sql = codes "a" })
    ∷ (record { version = codes "2.sql"; sql = codes "b" })
    ∷ []

files_sorted : list_migrations context_done found ≡ ok files
unfolding list_migrations
files_sorted = refl

-- The schema is the list of what ran, the last first.
abbrev run_sql : Text → List Text → Result (List Text)
run_sql sql schema = ok (sql ∷ schema)

abbrev no_sql : Text → List Text → Result (List Text)
no_sql sql schema = err context_done

abbrev first_done : Migrated (List Text)
first_done = record { schema = codes "a" ∷ []; versions = codes "1.sql" ∷ []; answers = [] }

abbrev both_done : Migrated (List Text)
both_done = record {
  schema = codes "b" ∷ codes "a" ∷ [];
  versions = codes "2.sql" ∷ codes "1.sql" ∷ [];
  answers = [];
}

second_runs : migrate run_sql files first_done ≡ (ok tt, both_done)
unfolding migrate migration_applied apply_migration apply_statements Text_discrete
second_runs = refl

migrate-once_example :
    (upgrade run_sql files first_done.versions first_done.schema
      ≡ some (both_done.versions, both_done.schema))
    × AllListed run_sql files both_done.versions
    × ((migrate run_sql files (record both_done { answers = some context_done ∷ [] })).1.schema
        ≡ both_done.schema)
    × ((migrate run_sql files (record both_done { answers = some context_done ∷ [] })).1.versions
        ≡ both_done.versions)
    × (migrate no_sql files (record both_done { answers = some context_done ∷ [] })
        ≡ migrate run_sql files (record both_done { answers = some context_done ∷ [] }))
migrate-once_example =
    migrate-once run_sql no_sql files first_done (some context_done ∷ []) second_runs

-- Windows of an hour, of a run and of one in the next hour.
abbrev second_hour : SettlementWindow
second_hour = record { start = 3600000000000; end = 7200000000000 }

abbrev third_hour : SettlementWindow
third_hour = record { start = 7200000000000; end = 10800000000000 }

second_runs_in_third : previous_full_window 10000000000000 (pos 60) ≡ ok second_hour
unfolding previous_full_window
second_runs_in_third = refl

third_runs_in_fourth : previous_full_window 11000000000000 (pos 60) ≡ ok third_hour
unfolding previous_full_window
third_runs_in_fourth = refl

previous_full_window-tiles_example :
    (second_hour.start + 60 * minute ≡ second_hour.end)
    × (second_hour.end ≤ 10000000000000)
    × (10000000000000 < second_hour.end + 60 * minute)
    × (third_hour.start ≡ second_hour.end)
previous_full_window-tiles_example =
    previous_full_window-tiles 60 (omega arith) (omega arith) 10000000000000 11000000000000
      (omega arith) second_runs_in_third third_runs_in_fourth refl

-- Kelvin's sign is a K whose lower case is the letter.
abbrev kelvin : ℕ → ℕ
kelvin c = if c == 0x212A then b'k' else c

abbrev kafka_environment : Text → Text
kafka_environment name =
    if text_eq name (codes "PAYCORE_OUTBOX_PUBLISHER")
    then codes " KAFKA"
    else if text_eq name (codes "PAYCORE_KAFKA_BROKERS")
    then codes "a:1, ,b:2"
    else if text_eq name (codes "PAYCORE_REPOSITORY_BACKEND")
    then codes "postgres"
    else []

kafka_chosen :
    choose_publisher kelvin (load kafka_environment)
    ≡ ok (
        kafka (record {
          brokers = codes "a:1" ∷ codes "b:2" ∷ [];
          topic = codes "paycore.outbox.events";
        }))
unfolding choose_publisher brokers_from_string split_commas clean_brokers new_publisher load
    trim_space is_space Text_discrete getenv
kafka_chosen = refl

no_database : new_repositories (load kafka_environment) none none ≡ err database_url_required
unfolding new_repositories new_postgres_repositories load Text_discrete getenv
no_database = refl

-- A window of no minutes ends the run before it reads.
no_window :
    ⦃u : Unicode⦄ ⦃c : Columns⦄ (tx : Transactor) (cfg : WorkerConfig) (w : Env Tables)
    → cfg.window_minutes ≡ pos 0
    → run_worker tx cfg 1 2 3 w ≡ (err window_minutes_required, w)
unfolding run_worker previous_full_window
no_window tx cfg w h = ground arith
