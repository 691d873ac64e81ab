-- ===== src/Registry.antt =====
-- The on-chain registry program (contracts/programs/supaba-registry).
pub mod Types
pub mod Ledger
pub mod Config
pub mod Nodes
pub mod Instances
pub mod Moves
pub mod Payments
pub mod Program
pub mod Ensures
pub mod Life
pub mod Identity
pub mod Validity
pub mod History
pub mod Authority
pub mod Transfers
pub mod Shares
pub mod Balances
pub mod Counters
pub mod Destroys
pub mod Claims
pub mod Tests
