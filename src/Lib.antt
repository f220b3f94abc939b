-- ===== src/Lib.antt =====
-- Verification of koharu-suite: the parts of the server and of the archive format that decide what is
-- accepted, kept, delivered and reported, translated from the TypeScript sources.
--
-- The program takes posts of Telegram channels into a PostgreSQL database, caches their media, imports
-- exports of Telegram Desktop, and writes portable archives. The modelled parts and their files:
--
-- Telegram: apps/server/src/telegram and apps/server/src/admin/operations.ts.
--   Tables holds the rows of apps/server/src/db/schema.ts that the parts share; a database is a record
--   of lists of rows. Inbox is TelegramInboxRepository (`bindBot`, `checkpointBatch`), which stores a
--   batch of updates and moves the cursor. Worker is `TelegramWorkerPool.processOne`, which claims one
--   task, and `retryDelayMilliseconds` and `safeErrorMessage`; what the savepoint does with an update
--   is the argument `deliver`. Operations holds `retryTask`, `skipTask` and `setChannelEnabled`. Each
--   operation is one transaction and so one function from a database to a database or an error.
--   Delivery puts them together: `Step` is one transaction of any of them, `Reach` any sequence of
--   steps. Rows that another worker has locked are the argument `locked` of a step, so that the steps
--   stand for workers that run at the same time.
--
-- Archive: packages/archive-format/src/entry-policy.ts. Limits resolves the limits, Paths is
--   `canonicalizeArchiveEntryPath` over UTF-16 code units, EntryPolicy is the class of that name with
--   its set of path keys and its sum of bytes. The authorizer of paths is an argument. Versions is
--   `parseSupportedArchiveManifest` of packages/archive-format/src/format-migrations.ts; the two
--   schemas that zod checks are arguments. Json is canonical-json.ts and the bounds on JSON values of
--   schemas.ts, over trees; Jsonl is jsonl.ts: a generator is the list of what it yields and how it
--   ends. TextEncoder, TextDecoder, JSON.parse and how JSON.stringify writes texts and numbers are
--   arguments; that the decoder is strict is a hypothesis of the round trip. Checksums is checksums.ts
--   over the same paths.
--
-- Media: apps/server/src/media-cache. HttpRange is http-range.ts, Policy is policy.ts; the collation
--   behind `localeCompare` is an argument, with the laws of an order as a hypothesis where needed.
--   ContentType is content-type.ts; the detector of magic numbers is an argument.
--   Commands is command-queue.ts: Queue holds the operations of `PostgresMediaCacheCommandQueue` on the
--   rows of `media_cache_commands`, Payload the normalising and reading back of a payload, Checks the
--   constraints of the table, with its `btrim` and `length`; History is any sequence of the operations
--   that succeed, and Phases the life of a command, the abstract specification. Shapes holds the
--   tables of what may be recorded of a storage operation. Processor and Dispatch are
--   `MediaCacheCommandProcessor`, a client of the record Services of what it calls, and Settling puts
--   it over the queue. Clocks, new ids and tokens and rows that others have locked are arguments, and
--   so is what `enqueueRecacheOnAccess` asks of other tables. The renewals that a timer makes beside a
--   command are taken after it.
--
-- Imports: apps/server/src/imports/coverage.ts, the declared ranges of messages.
--
-- Ops: apps/server/src/ops/doctor.ts. The answers of the database and of the Bot API, and what they
--   throw, are the record DoctorDependencies. `sanitizeDiagnosticText` and the test of the index
--   definition, which are regular expressions, are fields of it.
--
-- Prelude holds the shared helpers: Boolean tests on numbers, lists, results with inversion lemmas,
-- texts, integers and the sort.
--
-- Numbers that the sources keep as `bigint` are natural numbers, or integers where they may be
-- negative; JavaScript numbers from outside are the type JsNumber, which tells safe integers from the
-- rest. Loops are structural recursion, but for three on fuel: the writing of decimals, with the number
-- and one more, which is at least the count of its digits; the pages of a reconciliation, for which any
-- fuel above the limit of 10,000 pages is enough; and the loop over a JSON value, with two more than the
-- limit on nodes, since each turn counts a node and ends where they exceed it.
--
-- Not modelled: error messages, advisory locks, timers and pools, abort signals of the archive's
-- streams and the cleaning up of their iterators, the SQL of other repositories, the file and object
-- stores, the user interface, authentication and the command line.
mod Prelude
pub mod Archive
pub mod Media
pub mod Telegram
pub mod Ops
pub mod Imports
