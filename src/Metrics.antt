-- ===== src/Metrics.antt =====
-- The metrics (internal/shared/metrics/metrics.go): what the calls of the recorders make of the
-- counters, the gauges and the histograms, which keep what they observed, in nanoseconds, the last
-- first. The count of HTTP requests is left out.
use paycore.Base.{ℕ, ◌+◌, List, [], ◌∷◌, none, some, ltb, if◌then◌else◌}
use paycore.Base.Dict.{Dict, lookup, insert}
use paycore.Base.Text.{Text, codes, text_eq}

pub record Metrics : Type 0 where
  pub settlement_batch_total : Dict ℕ
  pub settlement_batch_duration : Dict (List ℕ)
  pub settlement_payments_total : ℕ
  pub settlement_recovered_batches_total : ℕ
  pub outbox_claimed_events_total : Dict ℕ
  pub outbox_publish_attempts_total : Dict ℕ
  pub outbox_publish_failures_total : Dict ℕ
  pub outbox_events_published_total : Dict ℕ
  pub outbox_pending_events : ℕ
  pub outbox_publish_lag : ℕ
  pub rate_limit_allowed_total : ℕ
  pub rate_limit_rejected_total : ℕ
  pub rate_limit_redis_errors_total : ℕ
  pub rate_limit_check_duration : Dict (List ℕ)
  pub idempotency_cache_hits_total : ℕ
  pub idempotency_cache_misses_total : ℕ
  pub idempotency_cache_errors_total : ℕ
  pub idempotency_postgres_fallback_total : ℕ
  pub authorization_total : Dict ℕ
  pub authorization_latency : Dict (List ℕ)
  pub capture_total : Dict ℕ
  pub capture_latency : Dict (List ℕ)
  pub payer_version_conflicts_total : ℕ

-- `WithLabelValues(label).Add(n)`; a label that was not there counts from 0.
add_to : Text → ℕ → Dict ℕ → Dict ℕ
add_to label n d = elim (lookup label d) [
  | none ↦ insert label n d
  | some old ↦ insert label (old + n) d
]

-- `WithLabelValues(label).Observe(x)`
observe_in : Text → ℕ → Dict (List ℕ) → Dict (List ℕ)
observe_in label x d = elim (lookup label d) [
  | none ↦ insert label (x ∷ []) d
  | some xs ↦ insert label (x ∷ xs) d
]

abbrev add_if_any : Text → ℕ → Dict ℕ → Dict ℕ
add_if_any label n d = if ltb 0 n then add_to label n d else d

unfoldable pub observe_settlement_batch_metric : Text → ℕ → ℕ → Metrics → Metrics
unfolding add_to observe_in
observe_settlement_batch_metric status payments duration m = record m {
  settlement_batch_total = add_to status 1 m.settlement_batch_total;
  settlement_batch_duration = observe_in status duration m.settlement_batch_duration;
  settlement_payments_total =
      if ltb 0 payments
      then m.settlement_payments_total + payments
      else m.settlement_payments_total;
}

unfoldable pub observe_recovered_batches_metric : ℕ → Metrics → Metrics
observe_recovered_batches_metric count m = record m {
  settlement_recovered_batches_total =
      if ltb 0 count
      then m.settlement_recovered_batches_total + count
      else m.settlement_recovered_batches_total;
}

unfoldable pub observe_outbox_batch_metric : Text → ℕ → ℕ → ℕ → Metrics → Metrics
unfolding add_to
observe_outbox_batch_metric publisher claimed published failed m = record m {
  outbox_claimed_events_total = add_if_any publisher claimed m.outbox_claimed_events_total;
  outbox_publish_attempts_total =
      add_if_any publisher (published + failed) m.outbox_publish_attempts_total;
  outbox_events_published_total = add_if_any publisher published m.outbox_events_published_total;
  outbox_publish_failures_total = add_if_any publisher failed m.outbox_publish_failures_total;
}

unfoldable pub observe_outbox_stats_metric : ℕ → ℕ → Metrics → Metrics
observe_outbox_stats_metric pending_events publish_lag m = record m {
  outbox_pending_events = pending_events;
  outbox_publish_lag = publish_lag;
}

unfoldable pub observe_rate_limit_metric : Text → ℕ → Metrics → Metrics
unfolding observe_in
observe_rate_limit_metric result duration m =
    let timed = record m {
      rate_limit_check_duration = observe_in result duration m.rate_limit_check_duration;
    } in
    if text_eq result (codes "allowed")
    then record timed { rate_limit_allowed_total = m.rate_limit_allowed_total + 1 }
    else if text_eq result (codes "rejected")
    then record timed { rate_limit_rejected_total = m.rate_limit_rejected_total + 1 }
    else if text_eq result (codes "redis_error")
    then record timed { rate_limit_redis_errors_total = m.rate_limit_redis_errors_total + 1 }
    else timed

unfoldable pub observe_cache_hit_metric : Metrics → Metrics
observe_cache_hit_metric m = record m {
  idempotency_cache_hits_total = m.idempotency_cache_hits_total + 1;
}

unfoldable pub observe_cache_miss_metric : Metrics → Metrics
observe_cache_miss_metric m = record m {
  idempotency_cache_misses_total = m.idempotency_cache_misses_total + 1;
}

unfoldable pub observe_cache_error_metric : Metrics → Metrics
observe_cache_error_metric m = record m {
  idempotency_cache_errors_total = m.idempotency_cache_errors_total + 1;
}

unfoldable pub observe_postgres_fallback_metric : Metrics → Metrics
observe_postgres_fallback_metric m = record m {
  idempotency_postgres_fallback_total = m.idempotency_postgres_fallback_total + 1;
}

unfoldable pub observe_authorization_metric : Text → ℕ → Metrics → Metrics
unfolding add_to observe_in
observe_authorization_metric result duration m = record m {
  authorization_total = add_to result 1 m.authorization_total;
  authorization_latency = observe_in result duration m.authorization_latency;
}

unfoldable pub observe_capture_metric : Text → ℕ → Metrics → Metrics
unfolding add_to observe_in
observe_capture_metric result duration m = record m {
  capture_total = add_to result 1 m.capture_total;
  capture_latency = observe_in result duration m.capture_latency;
}

unfoldable pub observe_payer_version_conflict_metric : Metrics → Metrics
observe_payer_version_conflict_metric m = record m {
  payer_version_conflicts_total = m.payer_version_conflicts_total + 1;
}
