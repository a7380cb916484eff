-- ===== src/Lib.antt =====
-- A model of corrobo, which runs an operation with an external effect (a refund, an order) by the
-- evidence of what happened rather than by what the call returned, so that lost responses, crashes and
-- races do not repeat the effect.
--
-- `runEffect` makes one pass over an operation: under the operation's lock it reads the record, has a
-- new operation authorized, checks an approval and revalidates, reserves an attempt, executes it,
-- observes and reconciles, and stores the attempt with a disposition. A later pass looks at the
-- attempt again, waits, or makes another one. `reviewEffect` records a reviewer's decision. Both work
-- on a store through its interface; every write names the version that it is based on.
--
-- The files, and the code that they are about:
--   Base            shared names, tests on numbers, helpers for options and lists
--   Text            decimal numbers, times as ISO strings, JSON string literals
--   Value           the values of JavaScript as far as the code tells them apart: reading a property,
--                   what JSON.stringify and JSON.parse make of them
--   Types           src/core/types.ts: the records, the results and the contract
--   Disposition     src/core/disposition.ts: decideDisposition, decideRetry
--   Fault           what the code throws, each error class and message a constructor
--   Store           src/core/store.ts: the interface as a record of operations; Store/Kept, what a store
--                   keeps of the data given to it, and Store/Laws, the promises of the interface
--   Memory          src/stores/memory.ts: InMemoryStore; Clone: cloneRecord
--   Postgres        src/stores/postgres.ts: PostgresStore. Jsonb: sanitizeAttemptForPersistence,
--                   jsonbText; Columns: what a column gives back; Sql: rows, statements, and the database
--                   with its documented behaviour; Operations: the queries of each operation,
--                   versionedWriteResult; Key: advisoryLockKey; Lock: tryAcquireLock and release; Session:
--                   the store as a value of the interface; the other files are proofs
--   Fingerprint     src/core/fingerprint.ts: materializeIntent, sortKeysDeep, canonicalStringify,
--                   fingerprintIntent
--   Runtime         src/core/runtime.ts. Monad: actions on a world; Answers: what is made of a hook's
--                   answer (validAuthorization, storableReason, snapshotObservation); Hooks:
--                   safeExecute, safeObserve, safeReconcile, runRevalidate; Fingerprints: the calls
--                   of fingerprintIntent; Review: openReview,
--                   openReviewEpisode, checkApproval, approvalExpiry; Report: resultFromRecord;
--                   Attempt: resolveAttempt, performAttempt, recoverReservedAttempt, reObserve; Check:
--                   checkThenAttempt; Entry: validateContract, resolveIdentity, prepareIntent;
--                   Continue: continueOpen; Effect: runEffect, runCoordinated; Decision: reviewEffect,
--                   recordReview; Frame: rules of reasoning about actions; Quiet: which parts call
--                   which hooks
--   Protocol        the steps that the record of an operation may take, independently of the code
--                   that takes them, and what follows from the steps alone
--   Refinement      the runtime's actions as such steps, for any store, hooks and other callers; Clock:
--                   the clock that decisions go by
--   Helpers         src/core/helpers.ts: reconciled, observed
--   Conformance     src/testing/conformance.ts: HarnessStore, with its crashes; Verdict: what passes
--   Injection       src/testing/faults.ts: FaultSchedule, withFaultInjection, withObservationFault
--   Ledger          examples/conformance/fake-ledger.ts: fakeLedger, correctContract
--   Stripe          examples/stripe-refund: Client: types.ts; Contract: contract.ts, its hooks; Fake:
--                   fake-stripe-client.ts; Listing, Findings, Paging and Once are proofs
--   Scenarios       runs at concrete inputs: Setup, Passes, Parts, Database, Postgres,
--                   Conformance, Stripe, Faults
--
-- State. An action of the runtime goes from a world to an outcome, a value or what was thrown, and a
-- world: the store's state, the number of readings taken so far, which the clock, the random numbers
-- and the hooks' answers depend on, and the calls of hooks, newest first. A hook is a function of
-- that number and its input to what it returns or throws, so it may answer differently each time. At
-- every await, that is at every call of the store and of a hook that may be asynchronous, the other
-- callers act on the store by the function `others` of the host, which stands for their interleaved
-- steps. SHA-256, random bytes and the conversion of a thrown value to text are functions of the host.
--
-- No loop of the code is unbounded, so nothing runs on fuel: a pass is a fixed sequence of steps, and
-- recursion is on lists and values.
--
-- Simplified. Times are numbers of milliseconds, so the parser of RFC 3339 times in reviewEffect
-- (canonicalTime) is not modelled, and a window or an age is a whole number of milliseconds. Hooks and
-- requests have the types that the interfaces declare, so the checks of shape in validateContract and
-- parseReviewDecision reduce to those that types do not make; what hooks return is any value. The
-- text of an error is left out, except where it is stored. Values of the model cannot be mutated, so a
-- copy that cloneRecord makes is the record itself, or structuredClone(), a parameter, throws. Keys are
-- sorted by the order of the string type. The store of a lock (lock.store) is the store itself.
-- fingerprintIntent() of a contract is deterministic by its documentation: a function of the intent,
-- which may throw. A date beyond the range of Date is a
-- RangeError where the code writes one that it has computed: the expiry of an approval, and the end of
-- a window, for which the check stands where decide is called.
--
-- Stores. A store promises that each write is applied whole and on the version that it names, or not at
-- all; a write that throws may have been applied, since its answer may be lost. A store may keep
-- less than it is given: a jsonb column keeps what JSON does. What the runtime decides by is kept.
-- Postgres and pg are parameters with their documented behaviour as hypotheses: what a SELECT, INSERT and
-- UPDATE do to the table when they are answered and when they fail, how connections are counted, and how
-- often a session holds an advisory lock. A parameter of a statement stands for what jsonb gives back of
-- its text. The client of the refund contract is a function on the state of the remote system, with the
-- documented behaviour of the list endpoint as a hypothesis; the fake client is modelled itself, with a
-- step of its own for the timer by which a refund converges. The loop over pages is recursion on the
-- pages that may still be read, fifty at first, as in the code.
--
-- Not modelled: migrate and the constructor's check of acknowledgePersistence in src/stores/postgres.ts;
-- in src/testing, the scripts of the conformance scenarios, formatConformanceReport; the
-- summaries of the refund contract's reasons, the other examples and the scripts. The
-- first are constants, the others run the code that is modelled.
pub mod Base
pub mod Text
pub mod Value
pub mod Types
pub mod Disposition
pub mod Fault
pub mod Store
pub mod Memory
pub mod Postgres
pub mod Conformance
pub mod Injection
pub mod Ledger
pub mod Stripe
pub mod Fingerprint
pub mod Runtime
pub mod Protocol
pub mod Refinement
pub mod Helpers
mod Scenarios
