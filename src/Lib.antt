-- ===== src/Lib.antt =====
-- A model of the job scheduler of doublangu, of the credentials of its speech workers and its owner,
-- of the sentences of its articles and the validation of their analyses, and of the identities by
-- which it caches.
--
-- doublangu is a reader of foreign-language articles. Its server keeps articles, analyses and audio
-- in SQLite and cuts the slow work (analysis, dictionary lookups, translation, speech synthesis)
-- into jobs. Server goroutines and enrolled workers on other machines claim jobs, renew their
-- leases, and report completion or failure; several processes share the database, so that each
-- operation is one transaction and the interleavings are sequences of operations.
--
-- Jobs models internal/jobs/jobs.go over the tables `job` and `job_dependency`, whose columns and
-- CHECKs are those of internal/store/migrations/015_sentence_translation.sql:
--   Types         Job, Spec, Lease, the errors, and store.DB.WithTransaction (`commit`)
--   Enqueue       validateSpec, Enqueue, EnqueueTx, Get, GetByIdempotencyKey, GetActiveOwnerJobTx
--   Dependencies  AddDependency with its recursive query
--   Reconcile     reconcileDependencyFailuresTx
--   Claim         Claim, ClaimMatching, ClaimMatchingCapability
--   Lease         VerifyLease, Heartbeat, token comparison, backoff, error codes
--   Finish        Complete, Fail, finishTx
--   Cancel        Cancel, CancelTx, CancelOwnerJobs and its Tx form
--   Recover       RecoverExpired, RecoverExpiredJob
--   Requeue       ensureSpeechJobTx of internal/speech/store.go and the requeue of a reanalysis in
--                 internal/reader/v2_store.go
-- An UPDATE is `update_where` with the condition of its WHERE and the function of its SET list, its
-- count of rows is `count_where`, and a SELECT is `select` or `first`. An operation takes the tables
-- and returns its answer with the new tables; the body of a transaction returns no tables with an
-- error, since the transaction is rolled back. Invariant states what holds of the rows, Scheduler
-- the step relation of the operations of internal/jobs, and Fencing what the holder of a lease can
-- do and what anybody else can not. The steps leave out what other packages write to `job`: Requeue,
-- which starts the attempts of a job anew, Revoke of Workers, and the result digest of
-- internal/workers/ailocals.go.
--
-- Workers models the credentials in internal/workers/service.go: Authenticate, Revoke (which writes
-- the table `job` as well) and DeleteRevoked; Workers.Enrollment has CreateEnrollment and Enroll,
-- Workers.Capabilities the checks on what a worker can render, with ParseBCP47 of
-- internal/library/language.go. Sessions models SessionStore of internal/auth/session.go. Pipeline
-- models internal/pipeline/types.go and the payload of internal/pipeline/jobpayload.go, and Hashing
-- the byte strings that internal/semantics/chunks.go and hashParts of
-- internal/pipeline/types.go hash, over the records of internal/semantics/types.go.
--
-- Reader models internal/reader/sentences.go: Periods says where a sentence ends, Sentences has the
-- loop of SegmentSentences, with SegmentArticleSentences of internal/reader/v2_store.go. Semantics
-- models the validation in internal/semantics/types.go:
--   Texts         NormalizeForm, UTF-16 lengths, and what Go's `strings` has
--   Spans         ResolveSpan, spanOverlap, sliceForUTF16, byteOffsetForUTF16
--   Anchors       validateSourceSentenceAnchors
--   Errors        the errors of the validation, one for each message
--   Senses        safeProviderText, validateSense
--   Results       validateSenseReference, validateTokenResult
--   Members       the loops over the spans and the members of a construction, memberRunCount,
--                 constructionSubtitleForbids, validateConstructionSubtitle
--   Response      validateResponse, with and without prior senses
--   Tokens        tokenize, makeToken
--   Prepare       Prepare, ContentHash
-- and internal/semantics/chunks.go:
--   Encoding      the UTF-8 bytes under which Hashing reads a chunk, and `%d`
--   Chunks        PrepareChunk, PrepareChunks, ValidateChunkResponse
--   Merging       NamespaceChunkResponse, MergeChunks
-- and internal/semantics/stages.go:
--   Linguistic    the checks of senses and token results; Linguistic.Validate has ValidateLinguistic
--   Translation   the checks of a translation; Translation.Merge has ValidateTranslation and
--                 MergeLinguisticTranslation
-- and internal/semantics/dictionary.go, of a document that is decoded:
--   Dictionary    ValidateDictionary, DictionaryInput.Validate; Dictionary.Hints has
--                 SanitizeDictionaryHints
-- The articles that SegmentArticleSentences has cut are the input of that validation. In Reader and
-- Semantics a Go string is the list of its code points, so that it is valid UTF-8 by its type and a
-- byte offset is the number of code points before it; Hashing reads the same records by bytes. A Go
-- map that is filled in the order of a list is that list, with the lookup that the map would do.
-- Response uses the anchors, senses and members; Examples.Responses runs the whole validation.
--
-- The graph search and the reconciliation run on fuel. The search has one round for each edge and
-- one more: every round that is not the last adds a target of some edge. The reconciliation has one
-- round for each row and one more: every round that is not the last fails a queued row. The loop of
-- SegmentSentences has a round for each code point and one more: every round moves on.
--
-- Parameters stand for what the repository does not implement: the Unicode tables, NFC and case
-- folding (`Unicode`), JSON syntax (`json_valid`,
-- `decodes`, `encode`), SHA-256 (`hash_token`, `sum`), language tags (`TagParser`), JSON and
-- digest of a snapshot (`Codec`), the random tokens, the clock (`Times`; an operation
-- that reads it several times takes each reading), and the terminal recovery callback of
-- the store, of which theorems that need it assume that it leaves the two tables alone. Examples
-- instantiates them.
--
-- Not modelled: failures of SQLite other than uniqueness, nil receivers, the texts of errors, and
-- the other packages: the stores of articles and of speech, provider calls, HTTP. The rate limiter of internal/auth
-- computes in floating point and is left out.
pub mod Prelude
pub mod Jobs
pub mod Semantics
pub mod Reader
pub mod Sessions
pub mod Hashing
pub mod Pipeline
pub mod Workers
pub mod Examples
