-- ===== src/Lib.antt =====
-- RagoDesk's server, apps/server: a desk where tenants keep documents and bots, whose chat answers
-- are retrieved from the documents. The parts that are modelled, all in apps/server/internal:
--
-- Chunking: knowledge/biz/chunking.go. A document's blocks are cut into sentences, segments and
--   chunks. Tokens has tokenizeSpans, splitByTokens, tailByTokens and detectLanguage; Sentences has
--   splitBySentences and splitBlockSegments; Build has buildChunksFromBlocks, whose slice, open
--   chunk and index are a Builder that the rounds pass on. The other modules prove what Promises
--   puts together. The loops run on the lists they read, or on the number of tokens as fuel, since
--   every round goes on by one token at least.
-- ApiMgmt: apimgmt/biz/apimgmt.go over apimgmt/data/apimgmt.go and kit/paging/paging.go. Normalize
--   has the helpers, Keys the console's operations, Access the authorisation of requests; they take
--   the repository as a record of operations (Types), which Table fills with the statements on the
--   table api_key. Retry loops run on the attempts left. Limits has the rate limiter.
-- Iam: RequirePermission of iam/biz/iam.go.
-- Auth: auth/biz/auth.go, the logins and the registration.
-- Conversation: conversation/biz/conversation.go. Retention has the policy and maybePurge, whose
--   state (Host) stands beside the repository's world; Sessions has the operations.
-- Ingestion: knowledge/data/queue.go. Queue has the queue in Redis: lists, timers and dead letters.
--   Rabbit has the one in RabbitMQ: three queues, whose messages carry their retries in a header;
--   Ledger states its contract as steps on attempts.
-- Bot: bot/biz/bot.go. Analytics: the filters of analytics/biz/analytics.go.
-- Rag: rag/biz. Retrieval has the steps of steps_retrieve.go, Answers those of steps_rerank.go and
--   steps_generate.go and, as send_message, the graph of pipeline.go; Scoring has scoring.go, Context
--   prompt.go. The steps pass a RagContext on and call an Engine: repositories, providers, the order
--   in which concurrent searches end and the order of maps. Floats gives the operations on floats.
-- Rerank: applyRerankOrder of rag/biz/steps_rerank.go and dedupeQueries of rag/biz/helpers.go.
--
-- Parsing: knowledge/biz/parsing.go. Clean has the cleaning of texts, Headings the headings and titles,
--   Blocks the loops of parseMarkdownBlocks and splitTextBlocks, whose variables are a BlockState,
--   Formats the texts of Word and PDF files, Sources parseDocument and fetchURLText.
-- Documents: knowledge/biz/knowledge.go and embedding.go over knowledge/data/knowledge.go. Types has the
--   data and the repository as a record; Operations, Uploads and Ingestion have the use cases, with the
--   context of a request as its tenant; Embedding the batches. Tables, Bases, Statements and Index have
--   the statements, and Repo fills the repository with them. A job's ingestion uses Parsing,
--   Chunking and Embedding in turn.
-- Jwt: kit/jwt/jwt.go (Tokens) and the check of tokens of middleware/middleware.go (Middleware).
--
-- Base holds what they share: tests and equality, lists, texts, integers, and results. An operation
-- is a function from the world to a result and a world (Base/Monad), so that what was written before
-- an error stays written. A Go string is the list of its runes, valid UTF-8; a Go function's name in
-- snake case is the name of its model, and an early return is a branch in the same order.
--
-- Parameters: the tables of Unicode (with what the standard says of letters, digits and spaces), the
-- clock, random bytes, UUIDs, SHA-256, bcrypt, the signer of tokens, HMAC, base64, JSON, Redis, the
-- readers of zip, XML and PDF, HTTP, the provider of embeddings, the vector store, the storage of
-- objects, the models that answer, the operations on floats, and the repositories of Iam, Auth, Bot,
-- Conversation and Rag.
--
-- Bounds: the index and the token count of a chunk are taken modulo 2^32, durations modulo 2^64; int
-- is taken not to overflow. Connections of the database work, and MySQL compares texts exactly. What
-- its columns DATETIME, which have no fraction of a second, keep of a time is a parameter for API keys;
-- those of documents are taken to keep a time as it is.
--
-- The batches of embeddings and the groups of a numbered heading run on the length of their list as
-- fuel, since every round takes an element at least.
--
-- Not modelled: generated code, transport, wiring, the console, SQL but for API keys and documents,
-- providers of models and the arithmetic of floats (a weight of Documents is a bit pattern).
pub mod Base
pub mod Chunking
pub mod ApiMgmt
pub mod Iam
pub mod Auth
pub mod Conversation
pub mod Ingestion
pub mod Rerank
pub mod Bot
pub mod Analytics
pub mod Parsing
pub mod Documents
pub mod Jwt
pub mod Rag
