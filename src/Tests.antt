-- ===== src/Tests.antt =====
-- Runs of the model at concrete inputs, and the theorems at inputs that meet their hypotheses.
mod Samples
mod Amounts
mod Paths
mod Trees
mod Plans
mod Cohorts
mod Proofs
mod Discovery
mod Bundles
mod Costs
mod Quotes
mod Merges
mod Packages
mod Calls
mod Queues
mod Chains
mod Searches
mod Graphs
mod Results
mod Canonical
mod Prices
