-- ===== src/Lib.antt =====
-- A verification library for kraph-core: the on-chain programs, and the parts of the node agent that
-- decide what is let through.
--
-- The parts and their files:
-- * Registry is contracts/programs/supaba-registry/src/lib.rs, the Anchor program that keeps the
--   network's configuration, its nodes and their stake, the instances of agents and the escrows that
--   pay for them. Registry/Types has the records, enums, errors and events. Registry/Ledger has the
--   chain as the program sees it: a ledger of accounts, lamports and token accounts, Anchor's checks
--   of accounts, and the record Platform of what the runtime and the called programs do. The
--   instructions stand in Registry/Config, Nodes, Instances, Moves and Payments, one function per
--   handler with the constraints of its accounts in Anchor's order, and Registry/Program runs them.
--   Registry/Life is an independent description of what an instruction may make of an account, and
--   its children compare the handlers with it; Registry/Identity, Validity, History, Authority,
--   Transfers, Shares, Balances, Claims, Counters and Destroys draw the consequences.
-- * Hook is contracts/programs/kraph-credits-hook/src/lib.rs, the transfer hook with its allowlist.
-- * Node/Admission is node-rs/src/job_admission.rs, Node/Paths is node-rs/src/path_safety.rs,
--   Node/Auth is node-rs/src/sigauth.rs, and Node/Integrity the hash chain and the Merkle proofs of
--   node-rs/src/integrity.rs.
-- * Node/Replication is node-rs/src/replication.rs with its tables in node-rs/src/db/mod.rs and the
--   handler of node-rs/src/main.rs: Primary archives the WAL files of an instance as a chain of
--   encrypted segments and enqueues shipments, Queue is the table of shipments, Shipping posts them,
--   Replica is what a node does with a posted segment, and Signing the signature on it. Chain says
--   what a chain is on either side, and Shipping/Pass composes the sides.
-- * Node/Ports is the table of port blocks and Node/Env the encrypted environment variables, both of
--   node-rs/src/db/mod.rs, and Node/Warm the pool of node-rs/src/warm_pool.rs over the port blocks.
-- * Node/Studio is the gate before the dashboards: the tokens of node-rs/src/studio_proxy.rs and the two
--   handlers of node-rs/src/main.rs.
-- * Prelude has what they share, with signed integers, lists and byte strings over native numbers.
--
-- How state is modelled: a handler takes the state and returns the new one or an error, and a failed
-- transaction changes nothing. A transaction is one instruction, and a run is a list of them with
-- the clock's time of each, in any order of times. Anchor writes accounts back when a handler ends:
-- each account is read once and stored once, in the order in which the accounts are declared, which
-- decides where one account is passed twice. The sets behind the node's mutexes are passed along;
-- each call holds the mutex throughout, so calls happen one after another. The handler of a posted
-- segment holds none while it awaits the file system: Replica/Calls has its calls as two steps, the
-- checks and the storing, which other calls may come between, and `receive_segment` alone is a call
-- that none comes between. The primary of Shipping posts one segment after the other, and its
-- `World` keeps account of the requests it has sent.
--
-- Bounds: unsigned integers are numbers with the checked operations of the source at the bound of
-- their type, and signed ones are integers with the saturating, checked or wrapping operation that
-- the source calls; the indexes of segments are compared as the source does, and a count of rows
-- that an `i64` cannot hold is left out by a hypothesis. Every loop is over a list or a number but
-- the one over the levels of a Merkle tree, whose fuel is the number of leaves, which is enough.
--
-- Not modelled: the list of extra accounts of the hook
-- and its dispatch, which only call libraries; the canonicalisation of paths in safe_join_under, which
-- asks the file system; logging; rent, beyond what creating an account takes from its payer; and the
-- rest of node-rs, which drives Docker, databases and HTTP. What Docker, the file system, the network
-- and the random generator do at a call is an argument of the model, and the statements on SQLite are
-- taken not to fail but for their constraints. Addresses, ids and hashes on the chain are numbers that
-- are only compared.
pub mod Prelude
pub mod Registry
pub mod Hook
pub mod Node
