-- ===== src/Lib.antt =====
-- A verification library for glacis, the webhook ingestion service.
--
-- A vendor posts a payload to the API, which stores it in `raw_events` and detects repetitions
-- (app/services/ingestion.py, app/utils/hashing.py). A worker claims pending rows, has a language
-- model classify them, and persists the typed event in the tables of its shipment or invoice
-- (app/workers/ingest_worker.py, app/services/normalization.py). A failure is counted on the row, a
-- reaper releases rows of crashed workers, and an operator may retry one row
-- (app/services/retry.py). All of them communicate through the database only
-- (app/core/models.py, app/core/db.py).
--
-- Which file models what:
--   Base           the shared helpers: texts, lists, tables as lists of rows
--   Core           Json, Events (app/core/events.py), Models (app/core/models.py), Session and
--                  Engine (app/core/db.py, and the `lifespan` of app/api/__init__.py), Config
--                  (app/core/config.py, with the cache of the settings), Errors; OrderBy is
--                  ORDER BY; Nul is about texts without U+0000; Inbox and Lookup hold the invariant
--                  of `raw_events`
--   Core.Validation  the validation and the dump of the models of app/core/events.py: Fields has the
--                  annotations, States the discriminator, Read `model_validate`, Dump `model_dump`,
--                  and Valid the constraints as predicates; Validated, RoundTrip, Tags and Ignored
--                  relate them
--   Llm            Classifier models app/llm/classifier.py, Client the client that
--                  app/llm/__init__.py makes, Prompts the fields that app/llm/prompts.py requires;
--                  Attributes is about what the tables keep of a classification
--   Utils.Hashing  app/utils/hashing.py
--   Services       Ingestion, Normalization and Retry model the modules of app/services with these
--                  names; a function has the name that it has there. Normalization.Ledger and
--                  .Steps hold the invariant of the entity tables, .Latest and .Order the abstract
--                  view of an entity, .History and .Backed its events, .Outcome what a
--                  run commits and .Total when, .Limits what never does
--   Workers        IngestWorker and Loop model app/workers/ingest_worker.py: the claims, failures and
--                  rounds, and `run`; IngestWorker.Unlocked is `mark_failed` with its read and its
--                  write apart, .InFlight is about the time of a classification, .Unstorable
--                  about the events that no column holds; Loop.Budget measures the work that is left
--   Api            Webhooks, RawEvents, Entities and Health model the handlers of app/api, with the
--                  read side of app/services/shipments.py and app/services/invoices.py; App is
--                  the application of app/api/__init__.py, with App.Routes and App.Served about it
--   System         the step relation of all committed transactions, and its invariant; Runs relates
--                  the loop and the retry to it; Attempts counts the attempts of a row, Interleaved
--                  lets other transactions come between the two parts of `mark_failed`; EndToEnd,
--                  Queue and Delivered follow one payload from the webhook to the read side
--   Alembic        alembic/env.py (Env, and Config for the URL in its configuration) and
--                  alembic/versions: Schema is the catalog that a migration changes, Op the
--                  operations, Versions the revisions, Metadata the tables of app/core/models.py,
--                  Stages the catalog after each revision; Upgrades, Downgrades, Head and
--                  Primaries are about them
--   Tests          concrete runs
--
-- Conventions. A text is the list of its code points. A timestamp counts microseconds from the year
-- 1, an id is the number of its UUID. A `Tx` is the body of a transaction: it takes the database and
-- returns a value with the new database, or raises, and then `session_scope` keeps the old one. A
-- `Proc` runs transactions and may raise after some of them have committed. A table is the list of
-- its rows, the newest first. What a statement does on a conflict, on a text that is too long for
-- its column or has U+0000, and on an integer above 2147483647 is written out, also for the text of an
-- error: `repr` may be any text. A text that is too long by spaces at its end only, which PostgreSQL
-- cuts, is outside the model. What a JSONB column gives back of a payload may differ from it.
--
-- From outside come, as parameters: the clocks, the new ids (whose clash is an integrity error),
-- the rows that SKIP LOCKED passes over, the serializer, which refuses some values, the digest of the
-- hash, what a JSONB column gives back of a payload, `model_dump` where only its result is stored,
-- the database that a URL names, what alembic writes to its own table alembic_version (with the law
-- that it writes no other), `repr`, the settings, the answer of the language model, what
-- pydantic makes of a JSON value as a datetime, a Decimal or a float (with the law that it reads
-- back what it writes of these) and of a path parameter as an id, the route of a table that FastAPI
-- chooses for a request (with the laws that it fits the request, and that one is chosen where one
-- fits), the database's equality of documents, and the order of ORDER BY, of which only the
-- documented behaviour is assumed: it permutes the rows and sorts the key. The constraints of a
-- pydantic field, the statements of SQL and DDL that the code writes, the UPDATE that SQLAlchemy
-- makes of assigned attributes, `lru_cache` and the interpolation of a ConfigParser have their
-- documented meaning, which is written out: a missing or bad field refuses the whole model, a
-- refused statement ends its transaction, and a column whose value was not changed is not written.
--
-- No definition uses fuel: the loop of the worker recurses on the list of its ticks, the readings of
-- the clocks and the answers of the classifier, and ends where the list does, at the shutdown.
--
-- Not modelled: what a pool of SQLAlchemy does; isolation anomalies below the granularity of a
-- transaction, except those of `mark_failed`, the one transaction that writes back what it has read
-- without a lock; the language model, the calls of its client and the cache of the classifier; the
-- selection of the migrations by alembic and the SQL of its offline mode; logging; and of FastAPI
-- the pages that it generates, its redirects, and that it commits the session of a webhook after
-- the answer.
pub mod Base
pub mod Core
pub mod Utils
pub mod Llm
pub mod Services
pub mod Workers
pub mod Api
pub mod System
pub mod Alembic
mod Tests
