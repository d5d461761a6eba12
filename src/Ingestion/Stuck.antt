-- ===== src/Ingestion/Stuck.antt =====
-- Retries without a delay in RabbitMQ: apps/server/internal/knowledge/data/queue.go.
use rago_desk.Base.{
  ℕ, zero, suc, ◌≡◌, ◌∙◌, refl, sym, ap, true, none, some, Option, List, [], ◌∷◌, ◌++◌, append-nil,
  append_assoc, Text, err, pos, ltℤ, Error, inl, inr, Bool-cases, Result-cases,
}
use rago_desk.Ingestion.Queue.{IngestionJob}
use rago_desk.Ingestion.Rabbit.{
  Table, Message, RabbitQueue, RabbitBroker, next_retry, expiration_of, get_retry_count,
  retry_after, with_retry, republish, handle_rabbit, take_message, consume_rabbit, expire_all,
  expire, serve_rabbit,
}

-- The messages of the second list are those of the first and others behind them.
abbrev pub Grows : List Message → List Message → Type 0
Grows xs ys = (more : List Message) × (ys ≡ xs ++ more)

module _ {W : Type 0} (q : RabbitQueue W) where
  -- A round takes nothing from the messages that wait to be retried.
  republish-Grows : (m : Message) (b : RabbitBroker W) → Grows b.retry (republish q m b).retry
  unfolding republish
  republish-Grows m b = elim (Bool-cases (q.publishes b.world).0) [
    | inl e ↦ elim (Bool-cases (ltℤ (get_retry_count q m.headers) q.max_retries)) [
      | inl l ↦ (
        with_retry q m (next_retry (get_retry_count q m.headers))
              (retry_after q (get_retry_count q m.headers))
            ∷ [],
        rw (republish, e, l) refl,
      )
      | inr l ↦ ([], rw (republish, e, l) (sym (append-nil b.retry)))
    ]
    | inr e ↦ ([], rw (republish, e) (sym (append-nil b.retry)))
  ]

  handle-Grows :
      (m : Message) (job : IngestionJob) (b : RabbitBroker W)
      → Grows b.retry (handle_rabbit q m job b).retry
  unfolding handle_rabbit
  handle-Grows m job b = elim (Result-cases (q.handler job b.world).0) [
    | inl (_, e) ↦ ([], rw (handle_rabbit, e) (sym (append-nil b.retry)))
    | inr (x, e) ↦
        rw (handle_rabbit, e) (republish-Grows m (record b { world = (q.handler job b.world).1 }))
  ]

  take-Grows :
      (m : Message) (found : Option IngestionJob) (b : RabbitBroker W)
      → Grows b.retry (take_message q m found b).retry
  take-Grows m none b = ([], sym (append-nil b.retry))
  take-Grows m (some job) b = handle-Grows m job b

  consume-Grows :
      (queue retry dlq : List Message) (w : W)
      → Grows retry
          (consume_rabbit q (record { queue = queue; retry = retry; dlq = dlq; world = w })).retry
  unfolding consume_rabbit
  consume-Grows [] retry dlq w = ([], sym (append-nil retry))
  consume-Grows (m ∷ rest) retry dlq w =
      take-Grows m (q.unmarshal_job m.body)
        (record { queue = rest; retry = retry; dlq = dlq; world = w })

  -- A message without an expiration.
  abbrev pub lasting : Text → Table → Message
  lasting body headers = record { body = body; headers = headers; expiration = none }

  expire-head :
      (body : Text) (headers : Table) (rest : List Message) (b : RabbitBroker W)
      → b.retry ≡ lasting body headers ∷ rest
      → (expire b).retry ≡ lasting body headers ∷ rest
  unfolding expire expire_all
  expire-head body headers rest b p = ap (λ r. (expire_all r b.queue).0) p

  -- At the head of the queue of retries it holds up all that come behind it.
  serve-head :
      (n : ℕ) (body : Text) (headers : Table) (rest : List Message) (b : RabbitBroker W)
      → b.retry ≡ lasting body headers ∷ rest
      → Grows (lasting body headers ∷ rest) (serve_rabbit q n b).retry
  unfolding serve_rabbit
  serve-head zero body headers rest b p = ([], p ∙ sym (append-nil (lasting body headers ∷ rest)))
  serve-head (suc n) body headers rest b p =
      let (extra, grown) = consume-Grows b.queue b.retry b.dlq b.world in
      let head =
        expire-head body headers (rest ++ extra) (consume_rabbit q b)
          (grown ∙ ap (λ r. r ++ extra) p) in
      let (later, done) = serve-head n body headers (rest ++ extra) _ head in
      (extra ++ later, done ∙ ap (λ r. lasting body headers ∷ r) (append_assoc rest extra later))

  republished :
      (m : Message) (rest dlq : List Message) (w : W)
      → q.backoff_base ≡ pos 0
      → get_retry_count q m.headers ≡ pos 0
      → ltℤ (pos 0) q.max_retries ≡ true
      → (q.publishes w).0 ≡ true
      → (republish q m (record { queue = rest; retry = []; dlq = dlq; world = w })).retry
        ≡ with_retry q m (pos 1) (pos 0) ∷ []
  unfolding republish retry_after next_retry with_retry
  republished m rest dlq w base first left taken = rw (republish, first, left, taken, base) refl

  handled :
      (m : Message) (job : IngestionJob) (b : RabbitBroker W) (e : Error)
      → (q.handler job b.world).0 ≡ err e
      → handle_rabbit q m job b ≡ republish q m (record b { world = (q.handler job b.world).1 })
  unfolding handle_rabbit
  handled m job b e fails = rw (handle_rabbit, fails) refl

  consumed :
      (m : Message) (job : IngestionJob) (rest dlq : List Message) (w : W)
      → q.unmarshal_job m.body ≡ some job
      → consume_rabbit q (record { queue = m ∷ rest; retry = []; dlq = dlq; world = w })
        ≡ handle_rabbit q m job (record { queue = rest; retry = []; dlq = dlq; world = w })
  unfolding consume_rabbit
  consumed m job rest dlq w h = rw (consume_rabbit, h) refl

-- The backoff is zero and nothing waits to be retried. The first message of the queue, whatever stands
-- behind it, is a job that was not retried yet, where retries are allowed; its handler fails, and the
-- broker takes the message of its first retry. Then behind that round, and any number of further
-- rounds, this message still waits to be retried, before all others that do.
pub serve_rabbit-stuck :
    {W : Type 0} (q : RabbitQueue W) (m : Message) (job : IngestionJob) (rest dlq : List Message)
    (w : W) (e : Error) (n : ℕ)
    → q.backoff_base ≡ pos 0
    → q.unmarshal_job m.body ≡ some job
    → get_retry_count q m.headers ≡ pos 0
    → ltℤ (pos 0) q.max_retries ≡ true
    → (q.handler job w).0 ≡ err e
    → (q.publishes (q.handler job w).1).0 ≡ true
    → Grows
        (with_retry q m (pos 1) (pos 0) ∷ [])
        (serve_rabbit q
          (suc n)
          (record { queue = m ∷ rest; retry = []; dlq = dlq; world = w })).retry
unfolding serve_rabbit with_retry expiration_of
serve_rabbit-stuck q m job rest dlq w e n base read first left fails taken =
    let start : RabbitBroker _ = record { queue = m ∷ rest; retry = []; dlq = dlq; world = w } in
    let kept = with_retry q m (pos 1) (pos 0) in
    let one =
      ap (λ b. b.retry)
        (consumed q m job rest dlq w read
          ∙ handled q m job (record { queue = rest; retry = []; dlq = dlq; world = w }) e fails)
      ∙ republished q m rest dlq (q.handler job w).1 base first left taken in
    serve-head q n kept.body kept.headers [] (expire (consume_rabbit q start))
      (expire-head q kept.body kept.headers [] (consume_rabbit q start) one)
