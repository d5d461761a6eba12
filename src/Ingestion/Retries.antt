-- ===== src/Ingestion/Retries.antt =====
-- How often a job is tried, and in which order jobs are taken.
use rago_desk.Base.{
  ℕ, zero, suc, ◌+◌, ◌≤◌, ◌≡◌, refl, ap, ◌∙◌, inl, inr, true, false, ◌&&◌, Option, some, List, [],
  ◌∷◌, ◌++◌, ltb, null, Text, err, Error, ℤ, pos, ltℤ, leℤ, arith, Bool-cases,
}
use rago_desk.Ingestion.Queue.{
  IngestionJob, Codec, RedisQueue, Broker, pop_right, decode_redis_payload, enqueue,
  requeue_with_delay, push_dlq, retry_delay, on_failure, handle, consume_round, fire_all, fire,
  serve, resolve_ingestion_runtime_config,
}

pop_right-snoc : {A : Type 0} (xs : List A) (x : A) → pop_right (xs ++ x ∷ []) ≡ some (xs, x)
unfolding pop_right
pop_right-snoc [] x = refl
pop_right-snoc (y ∷ xs) x = rw (pop_right, pop_right-snoc xs x) refl

-- What JSON promises for a job: its messages are written, and read back.
pub record RoundTrips (codec : Codec) (job : IngestionJob) : Type 0 where
  pub text : ℕ → Text
  pub written :
      (retry : ℕ) → codec.marshal (record { job = job; retry = retry }) ≡ some (text retry)
  pub read :
      (retry : ℕ)
      → codec.unmarshal_payload (text retry) ≡ some (record { job = job; retry = retry })

module _ {W : Type 0} (q : RedisQueue W) (job : IngestionJob) (json : RoundTrips q.codec job)
    (named : (null job.document_id && null job.document_version_id) ≡ false) where
  abbrev pub message : ℕ → Text
  message retry = json.text retry

  decode_message : (retry : ℕ) → decode_redis_payload q.codec (message retry) ≡ some (job, retry)
  unfolding decode_redis_payload
  decode_message retry = rw (decode_redis_payload, json.read retry, named) refl

  consume-last :
      (waiting dlq : List Text) (timers : List (Text × ℤ)) (w : W) (retry : ℕ)
      → consume_round q
          (record { queue = waiting ++ message retry ∷ []; dlq = dlq; timers = timers; world = w })
        ≡ handle q job retry (record { queue = waiting; dlq = dlq; timers = timers; world = w })
  unfolding consume_round
  consume-last waiting dlq timers w retry =
      rw (consume_round, pop_right-snoc waiting (message retry), decode_message retry) refl

  enqueue-last : (b : Broker W) → enqueue q job b ≡ record b { queue = b.queue ++ message 0 ∷ [] }
  unfolding enqueue
  enqueue-last b = rw (enqueue, json.written 0) refl

  -- A job whose messages are written and read back and which names a document or a version is, once
  -- enqueued, the next one that is handled, before all that wait already.
  pub enqueue-next : (b : Broker W) → consume_round q (enqueue q job b) ≡ handle q job 0 b
  enqueue-next b =
      ap (consume_round q) (enqueue-last b) ∙ consume-last b.queue b.dlq b.timers b.world 0

  -- The world after a number of attempts.
  unfoldable pub attempts : ℕ → W → W
  attempts zero w = w
  attempts (suc n) w = attempts n (q.handler job w).1

  module _ (fails : (w : W) → (e : Error) × ((q.handler job w).0 ≡ err e)) where
    abbrev idle : List Text → List Text → W → Broker W
    idle waiting dlq w = record { queue = waiting; dlq = dlq; timers = []; world = w }

    handle-failed :
        (retry : ℕ) (waiting dlq : List Text) (w : W)
        → handle q job retry (idle waiting dlq w)
          ≡ on_failure q job retry (idle waiting dlq (q.handler job w).1)
    unfolding handle
    handle-failed retry waiting dlq w = let (e, f) = fails w in rw (handle, f) refl

    fire-requeued :
        (retry : ℕ) (delay : ℤ) (waiting dlq : List Text) (w : W)
        → fire q (requeue_with_delay q job retry delay (idle waiting dlq w))
          ≡ idle (waiting ++ message retry ∷ []) dlq w
    unfolding requeue_with_delay fire fire_all
    fire-requeued retry delay waiting dlq w = elim (Bool-cases (leℤ delay (pos 0))) [
      | inl e ↦ rw (requeue_with_delay, json.written retry, e) refl
      | inr e ↦ rw (requeue_with_delay, json.written retry, e) refl
    ]

    fire-dead :
        (retry : ℕ) (waiting dlq : List Text) (w : W)
        → fire q (push_dlq q job retry (idle waiting dlq w))
          ≡ idle waiting (dlq ++ message retry ∷ []) w
    unfolding push_dlq fire fire_all
    fire-dead retry waiting dlq w = rw (push_dlq, json.written retry) refl

    round-failed :
        (retry : ℕ) (waiting dlq : List Text) (w : W)
        → fire q (consume_round q (idle (waiting ++ message retry ∷ []) dlq w))
          ≡ fire q (on_failure q job retry (idle waiting dlq (q.handler job w).1))
    round-failed retry waiting dlq w =
        ap (fire q) (consume-last waiting dlq [] w retry ∙ handle-failed retry waiting dlq w)

    -- A job has messages that are written and read back, names a document or a version and always
    -- fails; its message stands at the end of the queue, behind any that wait, and no timer runs. With
    -- one worker, where every timer runs out before the next round, the next rounds try this job and
    -- no other, once and once more for each retry that is left. Behind them the queue holds what
    -- waited, no timer runs, and one message of the job, with all its retries, was added to the dead
    -- letters.
    pub serve-failing :
        (left retry : ℕ) (waiting dlq : List Text) (w : W)
        → retry + left ≡ q.max_retries
        → serve q
            (suc left)
            (record { queue = waiting ++ message retry ∷ []; dlq = dlq; timers = []; world = w })
          ≡ record {
            queue = waiting;
            dlq = dlq ++ message q.max_retries ∷ [];
            timers = [];
            world = attempts (suc left) w;
          }
    unfolding serve attempts on_failure
    serve-failing zero retry waiting dlq w h =
        let last : ltb retry q.max_retries ≡ false = ground (arith, h) in
        let same : retry ≡ q.max_retries = omega (arith, h) in
        round-failed retry waiting dlq w
        ∙ rw (on_failure, last) (fire-dead retry waiting dlq (q.handler job w).1)
        ∙ ap (λ n. idle waiting (dlq ++ message n ∷ []) (q.handler job w).1) same
    serve-failing (suc left) retry waiting dlq w h =
        let more : ltb retry q.max_retries ≡ true = ground (arith, h) in
        ap (serve q (suc left)) (
          round-failed retry waiting dlq w
          ∙ rw (on_failure, more)
              (fire-requeued (retry + 1) (retry_delay q retry) waiting dlq (q.handler job w).1))
        ∙ serve-failing left (retry + 1) waiting dlq (q.handler job w).1 (omega (arith, h))

-- Whatever is configured and set, at most 10 retries and between 1 and 32 workers are in force, and
-- the backoff is not negative.
pub resolve_ingestion_runtime_config-bounds :
    (config : Option (ℤ × ℤ × ℤ)) (retries backoff workers : Option ℤ)
    → (n : ℕ) (delay : ℤ) (m : ℕ)
    → resolve_ingestion_runtime_config config retries backoff workers ≡ (n, delay, m)
    → (n ≤ 10) × (ltℤ delay (pos 0) ≡ false) × (1 ≤ m) × (m ≤ 32)
unfolding resolve_ingestion_runtime_config
resolve_ingestion_runtime_config-bounds config retries backoff workers n delay m h =
    (ground arith, ground arith, ground arith, ground arith)
