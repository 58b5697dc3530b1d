-- ===== src/Lib.antt =====
-- The loyalty interchange protocol's engine: the core of the repository, which keeps members,
-- balances, a ledger, rewards and reservations of a loyalty program in memory and answers the calls
-- of the protocol.
--
-- The program and its model:
--   * packages/protocol/src/{primitives,order,loyalty,member,account}.ts and
--     packages/reference/src/config.ts, the data of the protocol and of a program, are
--     Protocol/Primitives, Order, Loyalty, Messages and Program. Records and enumerations have the
--     source's fields and members; fields that no code of the engine reads are left out.
--   * packages/protocol/src/validation.ts is Protocol/Validation: `validateFoodserviceOrder` and
--     `validateFundingShares`.
--   * packages/reference/src/errors.ts is Exec: a method is a function from the state to an outcome
--     and a state, so what was written before a `throw` stays written. Exec/Follows carries a
--     preorder on states through the methods built from it.
--   * packages/reference/src/engine.ts is Engine. `LoyaltyEngine`'s fields are Engine/State; its
--     private helpers are Engine/Fingerprint (`stableValue`, `fingerprint`), Ledger (`addLedger`,
--     `balanceKey`), Lots (`consumePointLots`, `restorePointLots`, `expirePointLots`), Balances
--     (`balance`), Tiers (`accountMetrics`, `tierProgress`), Earning (`assertOrder`,
--     `accrualAmounts`), Funding (`fundingAllocations`) and Once (`once`); its public methods are
--     Engine/Issued, Redemption, Accrual, Adjustment, Members and Listing, with Snapshot
--     (`exportState`, `replaceState`), Checks (`assertProgram`) and Program (`reconfigureProgram`).
--     Engine/Calls puts nineteen of them together as one type of calls.
--   * Engine/Evolution shows what each method does to well-formed states, and Engine/Calls/History
--     what follows for sequences of calls. Engine/Tests holds the examples.
--   * packages/server/src/webhooks.ts is Webhooks. `WebhookDispatcher`'s fields are Webhooks/State,
--     its private methods Dispatcher, its public ones Methods. `deliver` is cut at its awaits: what
--     it does between two of them is one function, and its local variables are a `Flight`, which
--     stands in `pending`. Webhooks/Trace makes methods, answers, pauses and writes to the stores
--     events of one system, in any order; Kept carries a predicate through all of them, Restart and
--     Bounded draw on it; Cycle, Rounds and Delivered follow one delivery to its end while anything
--     else may happen. Journal is packages/server/src/webhook-outbox.ts, whose saves may
--     fail.
--
-- The methods call each other as in the source: every request of the protocol runs under
-- `once`; after an enrolment every change of a balance goes through `add_ledger`; `capture` and `reverse` draw on lots and give them back.
--
-- Parameters, in `Env`: the clock, the id generator, JavaScript's dates, `localeCompare`,
-- `Intl.DateTimeFormat`, `JSON.stringify`, the SHA-256 digest, the texts of cursors, time zones
-- and the schema checks of the ajv package. One call reads one time. That ids never repeat, and that
-- the digests of two texts differ, are hypotheses where they are used.
--
-- Numbers: amounts are unbounded integers, which agree with JavaScript's numbers up to 2 ^ 53; the
-- source refuses accruals above that. Loops are recursion on the lists they run over; the loop of
-- `issueThresholdRewards` is recursion on the cycles that are left, which it counts before it
-- starts. The pages of a listing are followed with fuel, and one more than the entries is shown to
-- be enough.
--
-- In `Setup`, the dispatcher's options and parameters: digests, lengths of texts and the check of
-- addresses. The numbers of a retry policy are integers; a cycle has as many rounds as its limit.
--
-- Requests are taken to have passed the schema check, so that ids and dates are not empty, and for
-- the engine's methods a program to have passed `assertProgram`, so that rates, thresholds and values are not negative and
-- divisors are not zero. A request carries `raw`, itself as JSON, which is what fingerprints read.
--
-- Not modelled: messages of errors; catalogs, `retargetProgramState` and `inspectAdmin`; the
-- other stores behind the dispatcher, its signatures and its admin views; and the packages and applications
-- around them (the server's routes and features, storage, sdk, identity, adapters, cli, mcp, apps),
-- which are left for later or are I/O.
pub mod Base
pub mod Exec
pub mod Protocol
pub mod Engine
pub mod Webhooks
