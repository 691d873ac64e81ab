-- ===== src/Registry/Program.antt =====
-- The program of contracts/programs/supaba-registry/src/lib.rs as a whole: its fifteen instructions,
-- and transactions, each of which takes effect as a whole or not at all.
use kraph_core.Prelude.{ℕ, Option, List, [], ◌∷◌}
use kraph_core.Prelude.Int.{ℤ}
use kraph_core.Registry.Types.{Pubkey, Bytes, InstanceStatus, SlashProofType}
use kraph_core.Registry.Ledger.{Result, ok, err, Ledger, Platform, Outcome}
use kraph_core.Registry.Config
use kraph_core.Registry.Config.{InitializeConfig}
use kraph_core.Registry.Nodes
use kraph_core.Registry.Nodes.{RegisterNode, OperatorNode, ClaimStake, SlashNode}
use kraph_core.Registry.Instances
use kraph_core.Registry.Instances.{AllocateInstance, OperatorInstance, UpdateInstanceStatus}
use kraph_core.Registry.Moves
use kraph_core.Registry.Moves.{DestroyInstance, MigrateInstance}
use kraph_core.Registry.Payments
use kraph_core.Registry.Payments.{DepositPayment, DistributePayment}

pub data Instruction : Type 0 where
  initialize_config :
      InitializeConfig
      → (min_stake default_rate : ℕ) (usdc_mint : Pubkey) (cooldown : ℤ) (slash_pct : ℕ)
      → Instruction
  register_node : RegisterNode → (endpoint : Bytes) (capacity : ℕ) (region : Bytes) → Instruction
  update_node :
      OperatorNode
      → (endpoint : Option Bytes) (capacity : Option ℕ) (region : Option Bytes) → Instruction
  heartbeat deregister_node : OperatorNode → Instruction
  claim_stake : ClaimStake → Instruction
  allocate_instance :
      AllocateInstance
      → (instance_id : ℕ) (replica_nodes : List Pubkey) (encrypted_dek : Bytes) → Instruction
  activate_instance : OperatorInstance → (instance_id : ℕ) → Instruction
  update_instance_status : UpdateInstanceStatus → (instance_id : ℕ) → InstanceStatus → Instruction
  destroy_instance : DestroyInstance → (instance_id : ℕ) → Instruction
  deposit_payment : DepositPayment → (instance_id amount : ℕ) → Instruction
  distribute_payment : DistributePayment → (instance_id : ℕ) → Instruction
  commit_merkle_root : OperatorInstance → (instance_id root : ℕ) → Instruction
  slash_node : SlashNode → SlashProofType → Instruction
  migrate_instance : MigrateInstance → (instance_id : ℕ) → Instruction

-- The account that signs, beside those that only pay.
unfoldable pub signer : Instruction → Pubkey
signer (initialize_config ctx stake rate mint cooldown slash) = ctx.authority
signer (register_node ctx endpoint capacity region) = ctx.operator
signer (update_node ctx endpoint capacity region) = ctx.operator
signer (heartbeat ctx) = ctx.operator
signer (deregister_node ctx) = ctx.operator
signer (claim_stake ctx) = ctx.operator
signer (allocate_instance ctx id replicas dek) = ctx.agent
signer (activate_instance ctx id) = ctx.operator
signer (update_instance_status ctx id status) = ctx.signer
signer (destroy_instance ctx id) = ctx.agent
signer (deposit_payment ctx id amount) = ctx.agent
signer (distribute_payment ctx id) = ctx.cranker
signer (commit_merkle_root ctx id root) = ctx.operator
signer (slash_node ctx proof) = ctx.authority
signer (migrate_instance ctx id) = ctx.agent

-- The runtime discards what a failed transaction has written.
abbrev pub settle : Ledger → Result Outcome → Ledger
settle l (ok (l', events)) = l'
settle l (err e) = l

module _ (p : Platform) where
  -- One instruction at a clock's `unix_timestamp`.
  unfoldable pub execute : (now : ℤ) → Instruction → Ledger → Result Outcome
  execute now (initialize_config ctx stake rate mint cooldown slash) =
      Config.initialize_config p ctx stake rate mint cooldown slash
  execute now (register_node ctx endpoint capacity region) =
      Nodes.register_node p now ctx endpoint capacity region
  execute now (update_node ctx endpoint capacity region) =
      Nodes.update_node p ctx endpoint capacity region
  execute now (heartbeat ctx) = Nodes.heartbeat p now ctx
  execute now (deregister_node ctx) = Nodes.deregister_node p now ctx
  execute now (claim_stake ctx) = Nodes.claim_stake p now ctx
  execute now (allocate_instance ctx id replicas dek) =
      Instances.allocate_instance p now ctx id replicas dek
  execute now (activate_instance ctx id) = Instances.activate_instance p now ctx id
  execute now (update_instance_status ctx id status) =
      Instances.update_instance_status p now ctx id status
  execute now (destroy_instance ctx id) = Moves.destroy_instance p now ctx id
  execute now (deposit_payment ctx id amount) = Payments.deposit_payment p now ctx id amount
  execute now (distribute_payment ctx id) = Payments.distribute_payment p now ctx id
  execute now (commit_merkle_root ctx id root) = Instances.commit_merkle_root p now ctx id root
  execute now (slash_node ctx proof) = Nodes.slash_node p ctx proof
  execute now (migrate_instance ctx id) = Moves.migrate_instance p now ctx id

  -- Transactions in turn.
  unfoldable pub run : List (ℤ × Instruction) → Ledger → Ledger
  run [] l = l
  run ((now, i) ∷ rest) l = run rest (settle l (execute now i l))
