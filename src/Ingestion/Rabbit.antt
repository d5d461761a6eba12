-- ===== src/Ingestion/Rabbit.antt =====
-- The queue in RabbitMQ of apps/server/internal/knowledge/data/queue.go. The lists are kept from the oldest
-- message to the newest. JSON, strconv.Atoi and the handler of jobs are parameters.
use rago_desk.Base.{
  ℕ, zero, suc, ◌^◌, ◌/◌, Bool, Option, none, some, List, [], ◌∷◌, ◌++◌, ◌==◌, text_eq,
  if◌then◌else◌, Text, codes, ok, err, Exec, ℤ, pos, negsuc, pos_part, ltℤ, is_pos,
}
use rago_desk.Ingestion.Queue.{IngestionJob, times}

-- A value of an `amqp.Table`: an integer of some width, a string, or anything else.
pub data HeaderValue : Type 0 where
  int : ℤ → HeaderValue
  string : Text → HeaderValue
  other : HeaderValue

abbrev pub Table : Type 0
Table = List (Text × HeaderValue)

-- The expiration is in milliseconds; without one a message does not expire.
pub record Message : Type 0 where
  pub body : Text
  pub headers : Table
  pub expiration : Option ℤ

-- `publishes` tells whether the broker takes a message.
pub record RabbitQueue (W : Type 0) : Type 0 where
  pub marshal_job : IngestionJob → Option Text
  pub unmarshal_job : Text → Option IngestionJob
  pub atoi : Text → Option ℤ
  pub handler : IngestionJob → Exec W (Unit {0})
  pub publishes : W → Bool × W
  pub max_retries : ℤ
  pub backoff_base : ℤ

-- The three queues that are declared, and the world of the handler.
pub record RabbitBroker (W : Type 0) : Type 0 where
  pub queue : List Message
  pub retry : List Message
  pub dlq : List Message
  pub world : W

abbrev pub ingestion_retry_header : Text
ingestion_retry_header = codes "x-retry"

unfoldable pub header_value : Text → Table → Option HeaderValue
header_value key [] = none
header_value key ((k, v) ∷ table) =
    let later = header_value key table in if k == key then some v else later

-- `headers[key] = v` of a clone.
unfoldable pub set_header : Text → HeaderValue → Table → Table
set_header key v [] = (key, v) ∷ []
set_header key v ((k, x) ∷ table) =
    let later = (k, x) ∷ set_header key v table in if k == key then (key, v) ∷ table else later

unfoldable pub next_retry : ℤ → ℤ
next_retry (pos n) = pos (suc n)
next_retry (negsuc zero) = pos 0
next_retry (negsuc (suc n)) = negsuc n

-- `delay.Milliseconds()` of a positive delay.
unfoldable pub expiration_of : ℤ → Option ℤ
expiration_of delay = if is_pos delay then some (pos (pos_part delay / 1000000)) else none

module _ {W : Type 0} (q : RabbitQueue W) where
  abbrev pub or_zero : Option ℤ → ℤ
  or_zero none = pos 0
  or_zero (some n) = n

  unfoldable pub get_retry_count : Table → ℤ
  get_retry_count headers = elim (header_value ingestion_retry_header headers) [
    | none ↦ pos 0
    | some v ↦ elim v [ int n ↦ n | string s ↦ or_zero (q.atoi s) | other ↦ pos 0 ]
  ]

  -- A negative count cannot be shifted by, and is not.
  unfoldable pub retry_after : ℤ → ℤ
  retry_after retry =
      if is_pos retry then times q.backoff_base (2 ^ pos_part retry) else q.backoff_base

  unfoldable pub with_retry : Message → ℤ → ℤ → Message
  with_retry msg retry delay = record {
    body = msg.body;
    headers = set_header ingestion_retry_header (int retry) msg.headers;
    expiration = expiration_of delay;
  }

  -- `Enqueue`, where the broker takes the message.
  unfoldable pub enqueue_rabbit : IngestionJob → RabbitBroker W → RabbitBroker W
  enqueue_rabbit job b =
      let (taken, w) = q.publishes b.world in
      elim (q.marshal_job job) [
        | none ↦ b
        | some raw ↦
            let msg : Message = record { body = raw; headers = []; expiration = none } in
            if taken
            then record b { queue = b.queue ++ msg ∷ []; world = w }
            else record b { world = w }
      ]

  -- After a handler that failed; `b` is the broker without the message. One that cannot be published goes
  -- back to its place.
  unfoldable pub republish : Message → RabbitBroker W → RabbitBroker W
  republish msg b =
      let retry = get_retry_count msg.headers in
      let (taken, w) = q.publishes b.world in
      let later = with_retry msg (next_retry retry) (retry_after retry) in
      let last = with_retry msg retry (pos 0) in
      if taken
      then (if ltℤ retry q.max_retries
          then record b { retry = b.retry ++ later ∷ []; world = w }
          else record b { dlq = b.dlq ++ last ∷ []; world = w })
      else record b { queue = msg ∷ b.queue; world = w }

  unfoldable pub handle_rabbit : Message → IngestionJob → RabbitBroker W → RabbitBroker W
  handle_rabbit msg job b =
      let (answer, w) = q.handler job b.world in
      let after = record b { world = w } in
      elim answer [ ok _ ↦ after | err e ↦ republish msg after ]

  abbrev pub take_message : Message → Option IngestionJob → RabbitBroker W → RabbitBroker W
  take_message msg none b = b
  take_message msg (some job) b = handle_rabbit msg job b

  -- One message of the loop of `consume`; one that is no job is dropped.
  unfoldable pub consume_rabbit : RabbitBroker W → RabbitBroker W
  consume_rabbit b = elim b.queue [
    | [] ↦ b
    | msg ∷ rest ↦ take_message msg (q.unmarshal_job msg.body) (record b { queue = rest })
  ]

-- Messages leave the retry queue at its head, when they expire, for the queue of jobs.
unfoldable pub expire_all : List Message → List Message → List Message × List Message
expire_all [] queue = ([], queue)
expire_all (m ∷ retry) queue =
    let rest = expire_all retry (queue ++ record m { expiration = none } ∷ []) in
    elim m.expiration [ none ↦ (m ∷ retry, queue) | some ms ↦ rest ]

unfoldable pub expire : {W : Type 0} → RabbitBroker W → RabbitBroker W
expire b =
    let (retry, queue) = expire_all b.retry b.queue in record b { queue = queue; retry = retry }

unfoldable pub serve_rabbit : {W : Type 0} → RabbitQueue W → ℕ → RabbitBroker W → RabbitBroker W
serve_rabbit q zero b = b
serve_rabbit q (suc n) b = serve_rabbit q n (expire (consume_rabbit q b))
