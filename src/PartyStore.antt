-- ===== src/PartyStore.antt =====
-- The durable ledger of one authorizer: prototype/locus/party_store.py.
pub mod EpochTables
pub mod Tables
pub mod Ledger
pub mod Slots
pub mod Authorizations
pub mod Phases
pub mod PhaseUpdates
pub mod FreshnessVotes
pub mod Runtime
pub mod Successors
pub mod Preparations
pub mod Activate
pub mod Pinned
pub mod Caught
pub mod EpochSteps
pub mod OnEpochs
pub mod OnPackages
pub mod Activating
pub mod Succession
pub mod EpochChange
pub mod EpochLaws
pub mod EpochChain
pub mod Reinstall
pub mod HashChain
pub mod Rows
pub mod PhaseChange
pub mod OnPhases
pub mod OnFreshness
pub mod Losing
pub mod PhaseSteps
pub mod Steps
pub mod Methods
pub mod Locks
pub mod Prepared
pub mod Install
pub mod Agreement
pub mod PhaseTable
pub mod PhaseLaws
pub mod Accounts
pub mod Budget
pub mod Matching
pub mod PhaseBudget
mod Samples
mod EpochSamples
mod Tests
mod PhaseTests
mod EpochTests
