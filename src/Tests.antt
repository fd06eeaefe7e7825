-- ===== src/Tests.antt =====
-- The scenarios of tests/, as runs of the model, and the theorems at concrete inputs.
mod Consensus
mod Votes
mod Stop
mod Peers
mod Round
mod Swarm
mod Generation
mod Membership
mod Selection
mod LocalStep
mod Loop
mod Wire
mod Agreed
mod Everyone
mod Report
mod Returns
mod Debug
mod Together
