-- ===== src/Ingestion/Queue.antt =====
-- The queue in Redis and its configuration, of apps/server/internal/knowledge/data/queue.go. The
-- lists are kept from left to right. JSON and the handler of jobs are parameters.
use rago_desk.Base.{
  ℕ, zero, suc, ◌+◌, ◌-◌, ◌*◌, ◌^◌, ◌&&◌, Option, none, some, List, [], ◌∷◌, ◌++◌, ltb, nat_eq,
  if◌then◌else◌, null, Text, ok, err, Exec, ℤ, pos, pos_part, neg_part, ltℤ, leℤ,
}
use rago_desk.Conversation.Retention.{wrap_int64}

pub record IngestionJob : Type 0 where
  pub tenant_id : Text
  pub kb_id : Text
  pub document_id : Text
  pub document_version_id : Text
  pub fallback_version : ℤ

pub record Payload : Type 0 where
  pub job : IngestionJob
  pub retry : ℕ

-- encoding/json of the two shapes of a message.
pub record Codec : Type 0 where
  pub marshal : Payload → Option Text
  pub unmarshal_payload : Text → Option Payload
  pub unmarshal_job : Text → Option IngestionJob

pub record RedisQueue (W : Type 0) : Type 0 where
  pub codec : Codec
  pub handler : IngestionJob → Exec W (Unit {0})
  pub max_retries : ℕ
  pub backoff_base : ℕ

-- The two lists in Redis, the messages that wait for a timer with their delay, and the world of the
-- handler.
pub record Broker (W : Type 0) : Type 0 where
  pub queue : List Text
  pub dlq : List Text
  pub timers : List (Text × ℤ)
  pub world : W

-- What BRPOP takes: the rightmost element; and what it leaves.
unfoldable pub pop_right : {A : Type 0} → List A → Option (List A × A)
pop_right [] = none
pop_right (x ∷ xs) = elim (pop_right xs) [
  | none ↦ some ([], x)
  | some (rest, last) ↦ some (x ∷ rest, last)
]

-- Go multiplies durations modulo 2^64.
unfoldable pub times : ℤ → ℕ → ℤ
times v n = wrap_int64 (pos_part v * n + neg_part v * n * (2 ^ 64 - 1))

module _ (codec : Codec) where
  unfoldable pub decode_redis_payload : Text → Option (IngestionJob × ℕ)
  decode_redis_payload raw =
      let bare : Option (IngestionJob × ℕ) = elim (codec.unmarshal_job raw) [
        | none ↦ none
        | some job ↦ some (job, 0)
      ] in
      elim (codec.unmarshal_payload raw) [
        | none ↦ bare
        | some p ↦
            if null p.job.document_id && null p.job.document_version_id
            then bare
            else some (p.job, p.retry)
      ]

module _ {W : Type 0} (q : RedisQueue W) where
  -- RPUSH
  unfoldable pub enqueue : IngestionJob → Broker W → Broker W
  enqueue job b = elim (q.codec.marshal (record { job = job; retry = 0 })) [
    | none ↦ b
    | some raw ↦ record b { queue = b.queue ++ raw ∷ [] }
  ]

  unfoldable pub requeue_with_delay : IngestionJob → ℕ → ℤ → Broker W → Broker W
  requeue_with_delay job retry delay b =
      elim (q.codec.marshal (record { job = job; retry = retry })) [
        | none ↦ b
        | some raw ↦
            if leℤ delay (pos 0)
            then record b { queue = b.queue ++ raw ∷ [] }
            else record b { timers = b.timers ++ (raw, delay) ∷ [] }
      ]

  unfoldable pub push_dlq : IngestionJob → ℕ → Broker W → Broker W
  push_dlq job retry b = elim (q.codec.marshal (record { job = job; retry = retry })) [
    | none ↦ b
    | some raw ↦ record b { dlq = b.dlq ++ raw ∷ [] }
  ]

  unfoldable pub retry_delay : ℕ → ℤ
  retry_delay retry =
      if ltb 0 retry then times (pos q.backoff_base) (2 ^ retry) else pos q.backoff_base

  -- After a handler that failed.
  unfoldable pub on_failure : IngestionJob → ℕ → Broker W → Broker W
  on_failure job retry b =
      if ltb retry q.max_retries
      then requeue_with_delay job (retry + 1) (retry_delay retry) b
      else push_dlq job retry b

  unfoldable pub handle : IngestionJob → ℕ → Broker W → Broker W
  handle job retry b =
      let (answer, w) = q.handler job b.world in
      let after = record b { world = w } in
      elim answer [ ok _ ↦ after | err e ↦ on_failure job retry after ]

  -- One round of the loop of `consume`; with nothing in the queue it waits.
  unfoldable pub consume_round : Broker W → Broker W
  consume_round b = elim (pop_right b.queue) [
    | none ↦ b
    | some (rest, raw) ↦ elim (decode_redis_payload q.codec raw) [
      | none ↦ record b { queue = rest }
      | some (job, retry) ↦ handle job retry (record b { queue = rest })
    ]
  ]

  -- The timers that run out push their messages.
  unfoldable pub fire_all : List (Text × ℤ) → List Text → List Text
  fire_all [] waiting = waiting
  fire_all ((raw, delay) ∷ timers) waiting = fire_all timers (waiting ++ raw ∷ [])

  unfoldable pub fire : Broker W → Broker W
  fire b = record b { queue = fire_all b.timers b.queue; timers = [] }

  unfoldable pub serve : ℕ → Broker W → Broker W
  serve zero b = b
  serve (suc n) b = serve n (fire (consume_round b))

abbrev pub or_unset : Option (ℤ × ℤ × ℤ) → ℤ × ℤ × ℤ
or_unset none = (pos 0, pos 0, pos 0)
or_unset (some c) = c

abbrev pub or_value : ℤ → Option ℤ → ℤ
or_value d none = d
or_value d (some n) = n

-- The configuration in force: the configured values (`none` where the section is missing), then the
-- variables of the environment (`none` where one is unset or no number).
unfoldable pub resolve_ingestion_runtime_config :
    Option (ℤ × ℤ × ℤ) → Option ℤ → Option ℤ → Option ℤ → ℕ × ℤ × ℕ
resolve_ingestion_runtime_config config env_retries env_backoff env_workers =
    let (r, b, w) = or_unset config in
    let retries = or_value (if ltℤ (pos 0) r then r else pos 3) env_retries in
    let backoff = times (or_value (if ltℤ (pos 0) b then b else pos 500) env_backoff) 1000000 in
    let workers = or_value (if ltℤ (pos 0) w then w else pos 1) env_workers in
    (
      if ltℤ retries (pos 0) then 3 else if ltℤ (pos 10) retries then 10 else pos_part retries,
      if ltℤ backoff (pos 0) then pos 500000000 else backoff,
      if leℤ workers (pos 0) then 1 else if ltℤ (pos 32) workers then 32 else pos_part workers,
    )
