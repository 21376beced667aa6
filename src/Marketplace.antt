-- ===== src/Marketplace.antt =====
-- The freelance marketplace of the API: gigs, bids, contracts, escrow and the two kinds of wallet
-- (src/modules/escrow, freelance, wallet, dispute-manager), over one model of their tables.
pub mod Tables
pub mod Wallet
pub mod Escrow
pub mod Processor
pub mod Settlement
pub mod Initiate
pub mod Freelance
pub mod Disputes
pub mod Stale
pub mod Payouts
pub mod HoldRelease
mod Tests
