-- ===== src/Registry/History.antt =====
-- What any sequence of transactions does to the accounts of contracts/programs/supaba-registry, by
-- induction along the lives of the accounts.
pub mod Configs
pub mod Nodes
pub mod Instances
pub mod Escrows
