-- ===== src/Ingestion/Examples.antt =====
-- The theorems on the queue at a concrete job.
use rago_desk.Base.{
  ℕ, suc, ◌≡◌, refl, true, none, some, Option, [], ◌∷◌, ◌++◌, Text, codes, err, internal_server,
  pos, arith,
}
use rago_desk.Ingestion.Queue.{
  IngestionJob, Payload, RedisQueue, Broker, consume_round, enqueue, handle, serve,
}
use rago_desk.Ingestion.Rabbit.{
  RabbitQueue, Message, consume_rabbit, serve_rabbit, with_retry, get_retry_count, header_value,
}
use rago_desk.Ingestion.Ledger.{LedgerStep, outcome, ledger, consume_rabbit-LedgerStep}
use rago_desk.Ingestion.Stuck.{Grows, serve_rabbit-stuck}
use rago_desk.Ingestion.Retries.{RoundTrips, attempts, enqueue-next, serve-failing}

abbrev manual : IngestionJob
manual = record {
  tenant_id = codes "t1";
  kb_id = codes "kb";
  document_id = codes "d1";
  document_version_id = codes "v1";
  fallback_version = pos 1;
}

-- A handler that counts its calls and fails, and messages that hold the number of retries.
abbrev reader : Text → Option Payload
reader [] = none
reader (n ∷ s) = some (record { job = manual; retry = n })

abbrev queue : RedisQueue ℕ
queue = record {
  codec = record {
    marshal = λ p. some (p.retry ∷ []);
    unmarshal_payload = reader;
    unmarshal_job = λ s. none;
  };
  handler = λ job w. (err (internal_server []), suc w);
  max_retries = 3;
  backoff_base = 500000000;
}

abbrev json : RoundTrips queue.codec manual
json = record { text = λ n. n ∷ []; written = λ n. refl; read = λ n. refl }

abbrev waiting : Broker ℕ
waiting = record { queue = (7 ∷ []) ∷ []; dlq = []; timers = []; world = 0 }

enqueue-next_example :
    consume_round queue (enqueue queue manual waiting) ≡ handle queue manual 0 waiting
enqueue-next_example = enqueue-next queue manual json refl waiting

serve-failing_example :
    serve queue 4
      (record { queue = ((7 ∷ []) ∷ []) ++ (0 ∷ []) ∷ []; dlq = []; timers = []; world = 0 })
    ≡ record {
      queue = (7 ∷ []) ∷ [];
      dlq = [] ++ (3 ∷ []) ∷ [];
      timers = [];
      world = attempts queue manual json refl 4 0;
    }
serve-failing_example =
    serve-failing queue manual json refl (λ w. (internal_server [], refl)) 3 0 ((7 ∷ []) ∷ []) [] 0
      (omega arith)

-- The same queue in RabbitMQ, whose messages hold a document's ID, with no delay of retries.
abbrev rabbit : RabbitQueue ℕ
rabbit = record {
  marshal_job = λ job. some job.document_id;
  unmarshal_job = λ body. some manual;
  atoi = λ s. none;
  handler = λ job w. (err (internal_server []), suc w);
  publishes = λ w. (true, w);
  max_retries = pos 3;
  backoff_base = pos 0;
}

abbrev first : Message
first = record { body = codes "d1"; headers = []; expiration = none }

consume_rabbit-LedgerStep_example :
    LedgerStep
      (pos 3)
      (outcome rabbit (record { queue = first ∷ []; retry = []; dlq = []; world = 0 }))
      (ledger rabbit (record { queue = first ∷ []; retry = []; dlq = []; world = 0 }))
      (ledger rabbit
        (consume_rabbit rabbit (record { queue = first ∷ []; retry = []; dlq = []; world = 0 })))
consume_rabbit-LedgerStep_example =
    consume_rabbit-LedgerStep rabbit
      (record { queue = first ∷ []; retry = []; dlq = []; world = 0 })

serve_rabbit-stuck_example :
    Grows
      (with_retry rabbit first (pos 1) (pos 0) ∷ [])
      (serve_rabbit rabbit 100
        (record { queue = first ∷ first ∷ []; retry = []; dlq = []; world = 0 })).retry
unfolding get_retry_count header_value
serve_rabbit-stuck_example =
    serve_rabbit-stuck rabbit first manual (first ∷ []) [] 0 (internal_server []) 99 refl refl refl
      refl refl refl
