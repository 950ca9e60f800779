-- ===== src/Lib.antt =====
-- A verification library for qualitative-feedback-analysis: the services, adapters and error responses under
-- src/qfa/ that anonymise, cluster, analyse and code feedback records with a language model.
--
-- Parts and files
--   Prelude.*      shared names and helpers: Boolean tests, lists measured by native numbers,
--                  integers, texts as lists of code points, a stable sort, decimal numbers.
--   Domain.*       src/qfa/domain: the two record types behind `AnalysisRecord` (models.py), chunks
--                  (chunk_models.py), the exceptions (errors.py), `Result`, what a call that may
--                  raise comes back with, and calls that run side by side (Gather).
--   Prompts.*      src/qfa/services/prompts.py: the escape of untrusted text and the envelopes of the
--                  analyze message (Envelope); Envelope.Markup counts their tags.
--                  src/qfa/adapters/prompts.py: the mirroring of the system prompts to Langfuse (Syncing).
--   Clustering.*   src/qfa/services/clustering.py: balanced contiguous cuts (Split), ordering by date
--                  (Dates, Dates.Chronology), splitting to a token budget (Budget), grouping by label (Labels) and
--                  cluster_records with its coverage check (Records).
--   Executor.*     src/qfa/services/llm_call_executor.py: deadline, timeout, token limit and the call; the
--                  redaction of records and prompt (Redaction); deanonymize_json (Restoring), how JSON
--                  strings are read (Restoring.Strings, Restoring.Digits) and what is read of one that it
--                  writes (Restoring.Reading).
--   LlmClient.*    src/qfa/adapters/llm_client.py: what LiteLLM answers or raises and how it is translated
--                  (Provider), the checks of a message (Injection), the retry loop and what blocked answers
--                  cost (Retry, Retry.Accounting), the whole call (Complete), its usage (Complete.Laws) and its
--                  errors (Complete.Failing), the stripping of schema keywords (Schema).
--   Tracking.*     src/qfa/adapters/tracking_llm.py: one record for each call (Tracking), how it is written
--                  (Recording), and the client inside the tracking (Billing); the blocks of
--                  src/qfa/adapters/usage_repository.py (Usage) and what they list (Usage.Blocks).
--   Trends.*       src/qfa/services/coding_trends.py: periods and labels (Buckets), the table and its
--                  rendering (Table), its counter (Table.Counter) and what it counts (Table.Counting).
--   Coding.*       src/qfa/services/coding.py and coding_classifier.py: the framework as a tree and its
--                  options (Framework), the floats and the least of them (Scores), the judge's reply of
--                  src/qfa/services/judge_scoring.py (Reply), judging a path level by level (Judging), the
--                  pick message and the indices that count (Picking), ranking and explanations
--                  (Ranking), assign_codes (Assign), what it reports (Assign.Laws) and that
--                  it returns (Assign.Returns).
--   Analyze.*      src/qfa/services/analyze.py and hierarchical_prompts.py: the reduce phase (Reduce), its
--                  groups (Reduce.Groups), its end (Reduce.Calls) and its trend table
--                  (Reduce.Trends); the judge's reply (Judge), the map phase, the judges and the
--                  confidence (Phases, Confidence); the hierarchical analysis as a whole
--                  (Hierarchical), its end (Hierarchical.Laws), what its judges decide
--                  (Hierarchical.Judges) and which placeholders it gives back (Hierarchical.Retained);
--                  the single pass (SinglePass) and what it returns (SinglePass.Laws); the components of
--                  a judge (Judge.Components).
--   Citations.*    src/qfa/services/record_links.py: the links of record ids (Links), the keys of
--                  their dictionary (Links.Keys), the pieces of a linked text (Links.Pieces), the patterns
--                  of a heading and of a citation line (Lines) and
--                  format_record_citations (Format), with what a citation line has (Format.Cited).
--   Sensitivity.*  src/qfa/services/sensitivity.py: the classification of a record and its judge; Laws is about
--                  the two together.
--   Summaries.*    src/qfa/services/summarize.py and language.py: the language of a text (Language),
--                  the parameters and the judge (Service), one record (Single), many records (Bulk) and
--                  the score of a summary (Scored).
--   Anonymizer.*   src/qfa/adapters/presidio_anonymizer.py: the placeholder space (Placeholders), what its
--                  placeholders stand for (Placeholders.Restoring) and look like (Placeholders.Numbering), the
--                  merge of the spans of two passes (Spans) and what it keeps (Spans.Merging), the plan of chunks (Chunking), what the plan
--                  covers (Chunking.Coverage, Chunking.Places), the passes over a batch (Passes), and these
--                  against one text at a time (Passes.Pointwise, Passes.Batch); deanonymize and the texts with
--                  placeholders that it restores (Deanonymize, Deanonymize.Parts).
--   Auth.*         keys and tenants: TenantApiKey and the scan of all keys (Keys; models.py, env_auth.py),
--                  the tables of src/qfa/adapters/db.py (Database), their invariant (Database.Invariant),
--                  histories of requests (Database.History) and
--                  src/qfa/services/auth_orchestrator.py (Orchestrator).
--   Embedding.*    src/qfa/adapters/embedding.py: the embedder and its batches, and what these have to do with
--                  the vectors (Batching).
--   Api.*          src/qfa/api/app.py: the responses to exceptions (Responses), to invalid requests and to
--                  HTTPException (Validation), and which handler an exception meets (Handlers).
--   Tests.*        sample data, runs on small inputs and instances of the theorems.
--
-- How state and effects are modelled
--   A raised exception is `err` with a constructor of `Error`; messages of exceptions are left out.
--   What a service meets outside the repository is an argument: HDBSCAN, scrypt, floats and their formats,
--   Presidio, LiteLLM, Langfuse, numpy, the ONNX session, tenacity's clock, the tables of Unicode, the ISO calendar, the rows of SQL queries, the
--   replies of a language model and the moments at which a clock is read. Replies may depend on the messages and,
--   where several calls follow one another, on which level, option, chunk or attempt they are for or on
--   all earlier calls (Analyze). Concurrent calls are a list of results; which of several failures is
--   raised is left open by an argument. Database operations take the tables and give them back, and a
--   rollback gives them back as they were. The parts meet where the source composes them: the tracking records what
--   the client returns, and the analysis redacts, clusters, tabulates, reduces and judges with the definitions of those parts.
--
-- Bounds and fuel
--   Clocks are microseconds and timeouts thirds of a microsecond, since the remaining time is divided by
--   three. Token estimates use the division of natural numbers, as `//` does. The loop of _split_to_budget
--   recurses on the number of parts that it may still try, which is at most the number of records.
--   The loop of embed over its batches recurses on the number of texts, since a batch has one at least.
--   _reduce_partials recurses on fuel; the number of partials is enough. The retry loop of the client recurses on
--   fuel; if each attempt takes time, three timeouts and one are enough. `decimal` has fuel for each digit,
--   since a number has no more digits than one more than its value. Costs are numbers of some smallest
--   unit, the rounded quotient of _plan_chunks is that of fractions, and
--   quality scores and confidences are floats, whose arithmetic is an argument.
--
-- Not modelled
--   Log lines, timings, telemetry and the scores sent to the evaluator; the wording of system prompts, which
--   is an argument where its length matters; the routes, schemas and middleware of the HTTP layer, and
--   the HTTPException of Starlette itself, which FastAPI answers; the
--   runtime of the embedding model; the detection and replacing of spans, which belong to Presidio; the SQL of the
--   usage repository; the settings, the composition of the services and the scripts.
pub mod Prelude
pub mod Domain
pub mod LlmClient
pub mod Tracking
pub mod Trends
pub mod Api
pub mod Prompts
pub mod Clustering
pub mod Executor
pub mod Analyze
pub mod Citations
pub mod Sensitivity
pub mod Summaries
pub mod Embedding
pub mod Anonymizer
pub mod Auth
pub mod Coding
pub mod Tests
