-- ===== src/Lib.antt =====
-- loop-proof: the scripts that plan which evidence proves that trading volume was returned to its
-- sender.
--
-- The program's parts. `scripts/return-path-selection.mjs` chooses return paths that pay a required
-- amount back. `scripts/proof-planner.mjs` takes a claim with its authenticated dependencies, finds
-- the returns that close the loop for a funder, chooses the settlements that the funding, the ledger
-- and the returns cover, and attaches Merkle memberships. `scripts/proof-bundle.mjs` builds the
-- bundle and its Merkle roots. `scripts/seller-evidence.mjs` gives each seller one evidence bundle.
-- `scripts/merge-proof-plans.mjs` joins the plans of an approved bundle.
-- `scripts/generate-aggregate-calldata.mjs` encodes the call that stages a proof,
-- `scripts/generate-block-authentication-chunks.mjs` checks the blocks that it refers to, and
-- `scripts/submit-frozen-seller-batch.mjs` submits sellers one after another.
-- `scripts/expanded-return-graph.mjs` searches cached transfers for return paths,
-- `scripts/reconcile-development-proof-results.mjs` marks the candidates that have a verified proof, and
-- `scripts/submit-frozen-seller-canary.mjs` gives the approved quote of a paid proof a new price.
-- `scripts/published-seller-proofs.mjs` checks a package of published proofs against its manifest.
-- `scripts/proving-cost-quote.mjs` quotes the costs of proving. `scripts/predicate-policy.mjs` holds the constants.
--
-- Which file models which part:
--   Common: lists, texts (lists of UTF-16 code units), stable sorting by a comparator, maps and sets
--     as lists in their order of insertion, code that may throw.
--   Policy: scripts/predicate-policy.mjs. The constants are those of predicate/src/lib.rs.
--   Evidence, Claims: the objects that the scripts pass around. A text that is missing or null is
--     `none`, a number that is `none` is null, as `locator` writes it; raw amounts are the unsigned integers that `BigInt` reads from their texts.
--   Returns: scripts/return-path-selection.mjs. The variables of the loop in `selectReturnEvidence`
--     are the record `Selection`, its body is `consider`. Returns/Prefixes and Returns/Discover have
--     `discoverCachedRelayReturns`, whose loop keeps a `Discovery`; `loadTrace` is an argument.
--   Merkle: `merkleRoot` of scripts/proof-bundle.mjs, `merkleMembership` and
--     `legacyMerkleMembership` of scripts/proof-planner.mjs. SHA-256 is an argument.
--   Planner: scripts/proof-planner.mjs. Planner/Capacity has `selectWithinCapacity` and
--     `selectApprovedSettlements`, Planner/Ledger `selectLedgerAwareSettlements`, Planner/Closure
--     `selectClosureForFunder`, `validRelayPath` and the coverage of returns, Planner/Choosing
--     and Planner/Cohort `buildCohortStrategy` in the steps of its body, Planner/Plans `finalizePlanClaim`, `planCohort`,
--     `planReciprocal` and `planClaim`, Planner/Memberships `attachMemberships`.
--   Merging: scripts/merge-proof-plans.mjs. The header that `mergeProofPlans` copies from the bundle is
--     left out; the map by identifier is a list of pairs.
--   Sellers: scripts/seller-evidence.mjs.
--   Money, Quote: the amounts, and `buildCostQuote` with `approveCostQuote`, of
--     scripts/proving-cost-quote.mjs.
--   Published: `unpackArtifact`, `validateArtifact` and `loadPackage` of
--     scripts/published-seller-proofs.mjs. The loop of `loadPackage` keeps a `Loading`; SHA-256, gzip,
--     `JSON.parse` and the file system are arguments.
--   Authentication: `resolveDependency`, `logMatches`, `locateLog` and `authenticateClaim` of
--     scripts/proof-planner.mjs. The node behind the RPC is the record `Node`.
--   FixedVolume: scripts/search-fixed-volume-returns.mjs, and `assessJointCandidate` of
--     scripts/search-joint-wash-volume.mjs.
--   Hex, Calldata, Chunks: `buildSellerCalldataArtifact` of scripts/generate-aggregate-calldata.mjs and
--     `buildBlockAuthenticationChunks` of scripts/generate-block-authentication-chunks.mjs.
--   Queue: `validateBatch` and `runQueue` of scripts/submit-frozen-seller-batch.mjs. A run ends in an
--     `Ending`: the state, what was persisted, and who was submitted; its turns are the relation
--     `Runs`. Submitting and the check of an artifact are arguments.
--   Graph: `discoverExpandedReturnGraph` of scripts/expanded-return-graph.mjs: the network that is read
--     (Graph), the distances to the funder, and the walk with its counters as a `Search`.
--   Reconcile: `reconcileDevelopmentProofResults` and `sellerResult` of
--     scripts/reconcile-development-proof-results.mjs. What becomes of a candidate is the relation
--     `Change`.
--   Json, Bundle: scripts/proof-bundle.mjs but for merkleRoot: canonicalJson on a type of JSON values, the
--     locators and dependencies, finalizeClaim and finalizeBundle.
--   Canary: `validateQuote`, `checkBaseFee` and `repriceQuote` of scripts/submit-frozen-seller-canary.mjs, and
--     `calculateBudget` of scripts/prepare-seller-proving.mjs.
--   Authentication/Matching, Planner/Closure/Hops, FixedVolume/Scoped, Reconcile/Verified: what the tests of
--     `logMatches`, `validRelayPath`, `selectFixedVolumeReturns` and of a proof's own fields ask, field by field.
--   Tests: runs at concrete inputs.
--
-- The platform. `localeCompare` and `JSON.stringify` of a whole object are fields of `Platform`;
-- where a theorem needs the collation to be a consistent order, that is a hypothesis.
--
-- Bounds and fuel. `BigInt` does not overflow, so ℕ is exact; block numbers are tested against
-- 2^53 - 1 where the code calls `Number.isSafeInteger`. The loops over the levels of a Merkle tree
-- have the number of hashes as fuel, since a level is at most half of the one below, rounded up. The
-- loop of `selectLedgerAwareSettlements` has two more rounds than settlements. The walk of the expanded
-- graph has nine turns after the first hop, since it ends at ten hops, and its search for an index has as
-- many turns as there are transfers.
--
-- Left out of the parts that are modelled: objects that lack a timestamp or an index altogether, on which the
-- code computes NaN; dependencies without an amount in `logMatches`.
--
-- Not modelled: reading and writing files, the RPC client with its retries and batches, the
-- command-line entry points, the bundle builders, the proving pipeline and the report scripts; the Rust crates core,
-- predicate, host and program; vendor/ is a copy of another project.
pub mod Common
pub mod Policy
pub mod Evidence
pub mod Claims
pub mod Returns
pub mod Merkle
pub mod Planner
pub mod Sellers
pub mod Money
pub mod Quote
pub mod Authentication
pub mod Graph
pub mod Hex
pub mod Chunks
pub mod Calldata
pub mod FixedVolume
pub mod Queue
pub mod Json
pub mod Bundle
pub mod Canary
pub mod Reconcile
pub mod Merging
pub mod Published
mod Tests
