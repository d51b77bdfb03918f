-- ===== src/Lib.antt =====
-- The sliding context window: the session core, the framing of the daemon's protocol, the
-- retention of documents, and the codecs, windows and chains of the store, with their correctness.
--
-- The program keeps a coding session's model context small. Per request the session (src/session)
-- takes the history, plans whether the epoch rotates to a suffix of complete turns, and moves
-- large tool results to an archive, which leaves a preview inline. The daemon (src/daemon) speaks
-- a newline-delimited protocol; its store (src/rocksdb) cuts documents into content-addressed
-- chunks and indexes them by posting keys. The keys are binary tuples, whose order lets a scan
-- find all that begin with a prefix; a document is searched by overlapping windows, each of which
-- names its chunks; and a new version of an artifact supersedes an older one, which makes a chain.
-- What is to be indexed stands in an outbox: workers claim its entries in order, each for a lease,
-- stage the mutations of the indexes under a generation, and publish this in one transaction that
-- moves the cursor of the outbox.
--
-- Files:
-- Session/Message is src/session/window.js from `contentToText` to `serializeMessages`, with the
--   token estimates; Session/Estimate compares the two.
-- Session/Turns is `groupCompleteTurns`, `findRetainedStart` and `removeEmptyAssistantErrors`,
--   with Turns/Layout and Turns/Retained on what they return.
-- Session/Rotation is `rotationTrigger`, `planEpochRotation` and `shouldRotateWindow`, with
--   Rotation/Choice on the chosen suffix, Rotation/Fallback on native compaction and
--   Rotation/Threshold on the trigger.
-- Session/Externalize is `externalizeLargeToolResults`, and `measureToolResultTokens` of
--   src/session/epoch-budget.js, with one file below it for each aspect.
-- Session/Deduplicate is `deduplicateToolResults` with `messageKey` and `toolCallArgumentsIndex`
--   of src/session/window.js; Deduplicate/Earlier is the twin of a replaced result,
--   Deduplicate/Append a history that grows.
-- Session/Contents is `buildTocMarkerText`, with Contents/Newest on the entries that it keeps.
-- Session/Epoch is the state of the class `EpochWindowSession` of src/session/epoch-window.js that
--   survives a restart: Epoch/Fields is its lists and sets, Epoch/Restored what `restore` makes of
--   a log, Epoch/Saved a state that is read back, Epoch/Steps the session as steps on its state
--   and the log.
-- Retrieval/Leases is src/retrieval/leases.js without the cleanup: Leases/Validity is the life of
--   a lease, Leases/Indexes the secondary keys, Leases/Release what a release leaves.
-- Daemon/Watchdog is src/daemon/watchdog-state.js, with Watchdog/Stalls on its reports.
-- Daemon/Retention is src/daemon/retention-policy.js: Retention/Merge is a policy that is
--   normalized, Retention/Admission the expiry of a document, Retention/Days the policy from day
--   counts.
-- Daemon/Framing is the class `LineFramer` of src/daemon/framing.js: Framing/Buffer is its slabs,
--   Framing/Lines the lines of a stream, Framing/Push a push, Framing/Chunks pushes in a row.
-- Rocksdb/PostingLocator is src/rocksdb/index/posting-locator.js.
-- Rocksdb/Utf8 is the conversions between strings and bytes that chunks.js takes from Node.
-- Rocksdb/Chunks is src/rocksdb/chunks.js: Chunks/Boundary is the end of a chunk,
--   Chunks/Characters the bytes of a character, Chunks/Cuts where the bytes of a string can be
--   cut, Chunks/Split the loop, Chunks/RoundTrip the split as a whole and the reconstruction,
--   Chunks/Unique the payloads and references that are stored.
-- Rocksdb/Keys is src/rocksdb/keys.js: Keys/RoundTrip reads a key back, Keys/Order is the order of
--   keys and the successor of a prefix, Keys/Scan the keys between the bounds of a prefix.
-- Rocksdb/PostingBlock is src/rocksdb/index/posting-block.js: PostingBlock/Wire is the values that
--   are serialized, PostingBlock/Layout the arrays of the two kinds of posting,
--   PostingBlock/RoundTrip the codecs, PostingBlock/Foreign blocks that are refused.
-- Rocksdb/Windows is src/rocksdb/windows.js: Windows/Ranges is the byte ranges of chunks and
--   tokens, Windows/Cover the windows of a document, Windows/Lookup the window of a match.
-- Rocksdb/Supersession is src/rocksdb/supersession-chain.js: Supersession/Bounds holds for any
--   store, Supersession/Exact for one that holds a whole chain.
-- Rocksdb/Outbox is src/rocksdb/outbox.js, its records in Outbox itself. Outbox/Claims is the
--   claims of workers, Outbox/Plans and Outbox/Packing the plan of a generation and its tablets,
--   Outbox/Stages the staging, Outbox/Apply the tablets that are applied, Outbox/Publish the
--   publication, Outbox/Cleanup the cleanup and the recovery, Outbox/Metrics the metrics;
--   Outbox/Worker is `processNext` and `drain` of src/rocksdb/indexer.js. Outbox/Order is the
--   invariant; Outbox/Effects, Outbox/Claiming, Outbox/Changes, Outbox/Publishing and
--   Outbox/Staging are what a transaction does to it. Outbox/Steps is the transactions of all
--   workers as steps, Outbox/History and Outbox/Stale hold for every run of them, and
--   Outbox/Outcomes for every claim. Outbox/Rounds, Outbox/Chain, Outbox/Progress and
--   Outbox/Prepared are a round of one worker, Outbox/Drain its rounds to the end, and
--   Packing/Packed and Plans/Staged the tablets and plans that are made.
-- Common holds the tests into Bool, lists over the native numbers and strings.
-- Tests holds concrete runs.
--
-- Representation: a string is the list of its UTF-16 code units and a buffer the list of its
-- bytes; in Rocksdb/Chunks a string is the list of its code points, which Rocksdb/Utf8 encodes and
-- decodes as Node does, with U+FFFD for what is malformed, and a chunk's hash and its id, which
-- differ in a fixed prefix, are one digest. Numbers
-- of tokens, turns and characters are natural numbers. A value that the code only prints through
-- JSON.stringify or String enters as its text. An error is a value of a result type, without its
-- message. In the outbox a keyspace is a function from its keys, a transaction a function of the
-- store that throws or commits as a whole, and a call of several transactions keeps what those
-- before a throw have committed.
--
-- Parameters: `sha256` is the digest of node:crypto, which the chunks use under the hypothesis
-- that no two byte sequences share one. `store` is the archive of externalization: from its state
-- it gives the next state and an id, or none. `restored_toc_entry` is the check of a saved entry
-- against the archive. `Shares` is the two products by 0.7 and 0.3, rounded down, of which only
-- that they do not exceed the whole together is used. `accepts` is the schema check of a stored
-- lease. `serialize` and `deserialize` are those of node:v8, of which only that they read back
-- what was written and write something is used. `tokenize` is the tokenizer of the search windows,
-- `in_unit` and `floor_share` are what they compute from a ratio, and `View` is the store that the
-- chain is read from. `Host` has the digests and encodings of the records of the outbox, the bytes
-- of a mutation and the protected keyspaces; `prepare` is what the handlers of a worker make of a
-- claim, and `Holds` what they rely on for an entry; the tokens of claims and the times of the
-- clock are given with each call.
--
-- Loops run by structural recursion or on fuel. A preview loses a character in each round, so one
-- round more than its characters is enough; an append copies a byte in each round, a push consumes
-- a newline, and a split consumes a byte; the decoder of a key consumes a tag, the loop of the
-- windows passes a token, and a walk along a chain has the code's own bound of 4,096 hops. That
-- the fuel is enough is part of the theorems on each of them, which say what is returned.
--
-- A loop over tablets has the plan's count of rounds, and a drain the rounds that its limit
-- leaves.
--
-- Not modelled: the handlers of the index worker and the mutations before they are serialized
-- (src/rocksdb/index), the hooks and retries of the worker, the stages of the first format (each
-- stored stage is of the current one, on which discardLegacyUnpublishedStage changes nothing), the
-- hints, the archiving of turns and the provider messages of an epoch
-- (src/session/epoch-window.js), the default tokenizer of the windows and the weights of recency,
-- ranking and extraction by regular expressions and floating point (src/rocksdb/index,
-- src/retrieval, src/semantic), and the input and output of the daemon, the archive and the
-- migrations.
pub mod Common
pub mod Session
pub mod Daemon
pub mod Rocksdb
pub mod Retrieval
pub mod Tests
