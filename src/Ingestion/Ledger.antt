-- ===== src/Ingestion/Ledger.antt =====
-- What the queue in RabbitMQ of apps/server/internal/knowledge/data/queue.go promises of jobs and their
-- retries, and that it keeps to it.
use rago_desk.Base.{
  ◌≡◌, ◌∙◌, refl, ap, inl, inr, true, false, none, some, List, [], ◌∷◌, ◌++◌, ◌==◌, text_eq,
  eq_refl, Text, ℤ, pos, ltℤ, Bool-cases, Option-cases, Result-cases, Option, Result, Error, ok,
  err, Bool,
}
use rago_desk.Ingestion.Queue.{IngestionJob}
use rago_desk.Ingestion.Rabbit.{
  HeaderValue, int, Table, Message, RabbitQueue, RabbitBroker, ingestion_retry_header, header_value,
  set_header, next_retry, get_retry_count, retry_after, with_retry, republish, handle_rabbit,
  consume_rabbit,
}

-- A job and how often it was retried.
abbrev pub Attempt : Type 0
Attempt = IngestionJob × ℤ

pub record Ledger : Type 0 where
  pub waiting : List Attempt
  pub delayed : List Attempt
  pub dead : List Attempt

-- What a round meets: no job, one whose handler succeeds, one whose handler fails, and one whose handler
-- fails where the broker refuses the message of its next attempt.
pub data Outcome : Type 0 where
  no_job : Outcome
  succeeded : Outcome
  failed : Outcome
  refused : Outcome

-- The contract of one step: the first attempt that waits is over if and only if its handler succeeds;
-- where it fails, it is delayed with one more retry while retries are left, and dead when none are, or it
-- stays where it is if the broker refuses it; with no job nothing changes.
pub data LedgerStep (max : ℤ) : Outcome → Ledger → Ledger → Type 0 where
  nothing : (s : Ledger) → LedgerStep max no_job s s
  finish :
      (a : Attempt) (rest delayed dead : List Attempt)
      → LedgerStep max succeeded
          (record { waiting = a ∷ rest; delayed = delayed; dead = dead })
          (record { waiting = rest; delayed = delayed; dead = dead })
  stay :
      (a : Attempt) (rest delayed dead : List Attempt)
      → LedgerStep max refused
          (record { waiting = a ∷ rest; delayed = delayed; dead = dead })
          (record { waiting = a ∷ rest; delayed = delayed; dead = dead })
  again :
      (job : IngestionJob) (retry : ℤ) (rest delayed dead : List Attempt)
      → ltℤ retry max ≡ true
      → LedgerStep max failed
          (record { waiting = (job, retry) ∷ rest; delayed = delayed; dead = dead })
          (record {
            waiting = rest;
            delayed = delayed ++ (job, next_retry retry) ∷ [];
            dead = dead;
          })
  bury :
      (job : IngestionJob) (retry : ℤ) (rest delayed dead : List Attempt)
      → ltℤ retry max ≡ false
      → LedgerStep max failed
          (record { waiting = (job, retry) ∷ rest; delayed = delayed; dead = dead })
          (record { waiting = rest; delayed = delayed; dead = dead ++ (job, retry) ∷ [] })

module _ {W : Type 0} (q : RabbitQueue W) where
  -- What the handler answers to a job, and the broker to what is published behind it.
  abbrev pub answer_of : Result (Unit {0}) → Bool → Outcome
  answer_of (ok done) taken = succeeded
  answer_of (err e) true = failed
  answer_of (err e) false = refused

  abbrev pub try_job : IngestionJob → W → Outcome
  try_job job w = answer_of (q.handler job w).0 (q.publishes (q.handler job w).1).0

  abbrev pub outcome_of : Option IngestionJob → W → Outcome
  outcome_of none w = no_job
  outcome_of (some job) w = try_job job w

  abbrev pub first_outcome : List Message → W → Outcome
  first_outcome [] w = no_job
  first_outcome (m ∷ rest) w = outcome_of (q.unmarshal_job m.body) w

  abbrev pub outcome : RabbitBroker W → Outcome
  outcome b = first_outcome b.queue b.world

  -- Messages that are no job stand for nothing.
  abbrev pub attempts_of : List Message → List Attempt
  attempts_of [] = []
  attempts_of (m ∷ ms) =
      let rest = attempts_of ms in
      elim (q.unmarshal_job m.body) [
        | none ↦ rest
        | some job ↦ (job, get_retry_count q m.headers) ∷ rest
      ]

  abbrev pub ledger : RabbitBroker W → Ledger
  ledger b = record {
    waiting = attempts_of b.queue;
    delayed = attempts_of b.retry;
    dead = attempts_of b.dlq;
  }

  set_header-value :
      (key : Text) (v : HeaderValue) (table : Table)
      → header_value key (set_header key v table) ≡ some v
  unfolding header_value set_header
  set_header-value key v [] = rw (eq_refl key) refl
  set_header-value key v ((k, x) ∷ table) = elim (Bool-cases (k == key)) [
    | inl e ↦ rw (e, eq_refl key) refl
    | inr e ↦ rw (e, e) (set_header-value key v table)
  ]

  set_header-count :
      (n : ℤ) (table : Table)
      → get_retry_count q (set_header ingestion_retry_header (int n) table) ≡ n
  unfolding get_retry_count
  set_header-count n table =
      rw (get_retry_count, set_header-value ingestion_retry_header (int n) table) refl

  attempts_of-snoc :
      (ms : List Message) (m : Message) (job : IngestionJob)
      → q.unmarshal_job m.body ≡ some job
      → attempts_of (ms ++ m ∷ []) ≡ attempts_of ms ++ (job, get_retry_count q m.headers) ∷ []
  attempts_of-snoc [] m job h = rw h refl
  attempts_of-snoc (x ∷ ms) m job h = elim (Option-cases (q.unmarshal_job x.body)) [
    | inl e ↦ rw (attempts_of, e) (attempts_of-snoc ms m job h)
    | inr (j, e) ↦
        rw (attempts_of, e)
          (ap (λ ys. (j, get_retry_count q x.headers) ∷ ys) (attempts_of-snoc ms m job h))
  ]

  with_retry-attempt :
      (ms : List Message) (m : Message) (job : IngestionJob) (n delay : ℤ)
      → q.unmarshal_job m.body ≡ some job
      → attempts_of (ms ++ with_retry q m n delay ∷ []) ≡ attempts_of ms ++ (job, n) ∷ []
  unfolding with_retry
  with_retry-attempt ms m job n delay h =
      attempts_of-snoc ms (with_retry q m n delay) job h
      ∙ ap (λ k. attempts_of ms ++ (job, k) ∷ []) (set_header-count n m.headers)

  -- A message of the job before the others.
  abbrev headed : Message → IngestionJob → RabbitBroker W → Ledger
  headed m job b = record {
    waiting = (job, get_retry_count q m.headers) ∷ attempts_of b.queue;
    delayed = attempts_of b.retry;
    dead = attempts_of b.dlq;
  }

  republish-LedgerStep :
      (m : Message) (job : IngestionJob) (b : RabbitBroker W) (e : Error)
      → q.unmarshal_job m.body ≡ some job
      → LedgerStep q.max_retries
          (answer_of (err e) (q.publishes b.world).0)
          (headed m job b)
          (ledger (republish q m b))
  unfolding republish
  republish-LedgerStep m job b x h = elim (Bool-cases (q.publishes b.world).0) [
    | inl e ↦ elim (Bool-cases (ltℤ (get_retry_count q m.headers) q.max_retries)) [
      | inl l ↦
          rw
            (
              republish,
              e,
              l,
              with_retry-attempt b.retry m job (next_retry (get_retry_count q m.headers))
                  (retry_after q (get_retry_count q m.headers)) h,
            )
            (again job (get_retry_count q m.headers) _ _ _ l)
      | inr l ↦
          rw
            (
              republish,
              e,
              l,
              with_retry-attempt b.dlq m job (get_retry_count q m.headers) (pos 0) h,
            )
            (bury job (get_retry_count q m.headers) _ _ _ l)
    ]
    | inr e ↦ rw (republish, e, h) (stay _ _ _ _)
  ]

  handle-LedgerStep :
      (m : Message) (job : IngestionJob) (b : RabbitBroker W)
      → q.unmarshal_job m.body ≡ some job
      → LedgerStep q.max_retries
          (try_job job b.world)
          (headed m job b)
          (ledger (handle_rabbit q m job b))
  unfolding handle_rabbit
  handle-LedgerStep m job b h = elim (Result-cases (q.handler job b.world).0) [
    | inl (_, e) ↦ rw (handle_rabbit, e) (finish (job, get_retry_count q m.headers) _ _ _)
    | inr (x, e) ↦
        rw (handle_rabbit, e)
          (republish-LedgerStep m job (record b { world = (q.handler job b.world).1 }) x h)
  ]

  consume-at :
      (b : RabbitBroker W) (queue : List Message)
      → b.queue ≡ queue
      → LedgerStep q.max_retries
          (first_outcome queue b.world)
          (record {
            waiting = attempts_of queue;
            delayed = attempts_of b.retry;
            dead = attempts_of b.dlq;
          })
          (ledger (consume_rabbit q b))
  unfolding consume_rabbit
  consume-at b [] p = rw (consume_rabbit, p) (rw p (nothing _))
  consume-at b (m ∷ rest) p = elim (Option-cases (q.unmarshal_job m.body)) [
    | inl e ↦ rw (consume_rabbit, p, e) (rw (attempts_of, e) (nothing _))
    | inr (job, e) ↦
        rw (consume_rabbit, p, e)
          (rw (attempts_of, e) (handle-LedgerStep m job (record b { queue = rest }) e))
  ]

-- Whatever the messages, the handler and the broker do, a round of a worker is the step of the contract
-- for what the round meets, on the attempts that the queues hold: only an attempt whose handler succeeds
-- is over, and one whose handler fails is kept.
pub consume_rabbit-LedgerStep :
    {W : Type 0} (q : RabbitQueue W) (b : RabbitBroker W)
    → LedgerStep q.max_retries (outcome q b) (ledger q b) (ledger q (consume_rabbit q b))
consume_rabbit-LedgerStep q b = consume-at q b b.queue refl
