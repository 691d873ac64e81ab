-- ===== src/Registry/Life.antt =====
-- The life of an account: what one instruction of the registry may make of what an address holds.
-- This is a specification of contracts/programs/supaba-registry/src/lib.rs account by account, with
-- no reference to the instructions' code; the modules below prove that every instruction keeps to it.
pub mod Store
pub mod Nodes
pub mod Instances
pub mod Moves
pub mod Payments
pub mod Program
use kraph_core.Prelude.{ℕ, ◌+◌, ◌-◌, ◌*◌, ◌/◌, ◌≤◌, ◌<◌, ◌≡◌, ◌⊎◌, length}
use kraph_core.Prelude.Int.{ℤ, pos, ◌≤ℤ◌, saturating_sub_i64}
use kraph_core.Registry.Types.{
  Pubkey, Bytes, NodeStatus, InstanceStatus, NetworkConfig, NodeRecord, InstanceRecord,
  PaymentEscrow, zero_escrow,
}
use kraph_core.Registry.Ledger.{
  u8_max, u64_max, AccountData, empty, foreign, config_account, node_account, instance_account,
  escrow_account, Ledger, Platform, node_seeds, config_seeds, instance_seeds, escrow_seeds,
}
use kraph_core.Registry.Nodes.{max_endpoint_len, max_region_len}
use kraph_core.Registry.Instances.{max_replica_nodes, max_encrypted_dek_len}

-- One instruction, signed by `who` at the time `now` on the ledger `l`, and a node record.
pub data NodeStep (now : ℤ) (who : Pubkey) (l : Ledger) (n n' : NodeRecord) : Type 0 where
  updated :
      (endpoint : Bytes) (capacity : ℕ) (region : Bytes)
      → n.operator ≡ who
      → n.status ≡ NodeStatus.active
      → (endpoint ≡ n.endpoint) ⊎ (length endpoint ≤ max_endpoint_len)
      → (capacity ≡ n.capacity) ⊎ ((0 < capacity) × (n.active_instances ≤ capacity))
      → (region ≡ n.region) ⊎ (length region ≤ max_region_len)
      → n' ≡ record n { endpoint = endpoint; capacity = capacity; region = region }
      → NodeStep now who l n n'
  beat :
      n.operator ≡ who
      → n.status ≡ NodeStatus.active
      → n' ≡ record n { last_heartbeat = now }
      → NodeStep now who l n n'
  deregistered :
      n.operator ≡ who
      → n.status ≡ NodeStatus.active
      → n' ≡ record n { status = NodeStatus.deregistering; last_heartbeat = now }
      → NodeStep now who l n n'
  claimed :
      (key : Pubkey) (config : NetworkConfig)
      → l.accounts key ≡ config_account config
      → n.operator ≡ who
      → n.status ≡ NodeStatus.deregistering
      → n.active_instances ≡ 0
      → config.deregistration_cooldown ≤ℤ saturating_sub_i64 now n.last_heartbeat
      → n' ≡ record n { stake = 0; status = NodeStatus.deregistered }
      → NodeStep now who l n n'
  slashed :
      (key : Pubkey) (config : NetworkConfig) (amount : ℕ)
      → l.accounts key ≡ config_account config
      → config.authority ≡ who
      → amount ≡ n.stake * config.slash_percentage / 100
      → amount ≤ n.stake
      → n' ≡ record n { stake = n.stake - amount; status = NodeStatus.suspended }
      → NodeStep now who l n n'
  gained :
      n.status ≡ NodeStatus.active
      → n.active_instances < n.capacity
      → n.active_instances < u8_max
      → n' ≡ record n { active_instances = n.active_instances + 1 }
      → NodeStep now who l n n'
  lost :
      0 < n.active_instances
      → n' ≡ record n { active_instances = n.active_instances - 1 }
      → NodeStep now who l n n'

-- The statuses that an instance cannot leave for `active`.
abbrev pub IsImposed : InstanceStatus → Type 0
IsImposed InstanceStatus.provisioning = ⊥
IsImposed InstanceStatus.active = ⊥
IsImposed InstanceStatus.migrating = Unit
IsImposed InstanceStatus.suspended = Unit
IsImposed InstanceStatus.destroyed = Unit

-- Who may ask for a status by `update_instance_status`.
abbrev pub IsEntitled : (who agent operator : Pubkey) → InstanceStatus → Type 0
IsEntitled who agent operator InstanceStatus.provisioning = ⊥
IsEntitled who agent operator InstanceStatus.active = ⊥
IsEntitled who agent operator InstanceStatus.migrating = who ≡ operator
IsEntitled who agent operator InstanceStatus.suspended = (who ≡ agent) ⊎ (who ≡ operator)
IsEntitled who agent operator InstanceStatus.destroyed = who ≡ agent

pub data InstanceStep (now : ℤ) (who : Pubkey) (l : Ledger) (i i' : InstanceRecord) : Type 0 where
  activated :
      (n : NodeRecord)
      → l.accounts i.primary_node ≡ node_account n
      → n.operator ≡ who
      → i.status ≡ InstanceStatus.provisioning
      → i' ≡ record i { status = InstanceStatus.active; updated_at = now }
      → InstanceStep now who l i i'
  committed :
      (n : NodeRecord) (root : ℕ)
      → l.accounts i.primary_node ≡ node_account n
      → n.operator ≡ who
      → i.status ≡ InstanceStatus.active
      → i' ≡ record i { merkle_root = root; updated_at = now }
      → InstanceStep now who l i i'
  requested :
      (n : NodeRecord) (status : InstanceStatus)
      → l.accounts i.primary_node ≡ node_account n
      → IsEntitled who i.agent n.operator status
      → i' ≡ record i { status = status; updated_at = now }
      → InstanceStep now who l i i'
  destroyed :
      i.agent ≡ who
      → i' ≡ record i { status = InstanceStatus.destroyed; updated_at = now }
      → InstanceStep now who l i i'
  -- a distribution leaves nothing in some escrow
  exhausted :
      (key : Pubkey) (e : PaymentEscrow) (total : ℕ)
      → l.accounts key ≡ escrow_account e
      → e.distributed + total ≡ e.deposited
      → i' ≡ record i { status = InstanceStatus.suspended; updated_at = now }
      → InstanceStep now who l i i'
  migrated :
      (key : Pubkey) (n : NodeRecord)
      → i.agent ≡ who
      → l.accounts key ≡ node_account n
      → n.status ≡ NodeStatus.active
      → i' ≡ record i { primary_node = key; status = InstanceStatus.migrating; updated_at = now }
      → InstanceStep now who l i i'

-- What a deposit of `amount` by `who` makes of an escrow: the first one into an escrow that holds
-- nothing and has no rate sets its fields, and each adds the amount, if the sum fits 64 bits.
abbrev pub IsDeposit :
    (now : ℤ) (who : Pubkey) (instance_id rate bump amount : ℕ) (e e' : PaymentEscrow) → Type 0
IsDeposit now who instance_id rate bump amount e e' =
    (e.deposited + amount ≤ u64_max)
    × (((e.deposited + e.distributed + e.rate_per_hour ≡ 0)
          × (e' ≡ record e {
            agent = who;
            instance_id = instance_id;
            deposited = e.deposited + amount;
            rate_per_hour = rate;
            last_distribution_at = now;
            bump = bump;
          }))
        ⊎ ((0 < e.deposited + e.distributed + e.rate_per_hour)
            × (e' ≡ record e { deposited = e.deposited + amount })))

pub data EscrowStep (p : Platform) (now : ℤ) (who k : Pubkey) (e e' : PaymentEscrow) : Type 0 where
  deposited :
      (instance_id rate bump amount : ℕ)
      → p.find_program_address (escrow_seeds who instance_id) ≡ (k, bump)
      → 0 < amount
      → IsDeposit now who instance_id rate bump amount e e'
      → EscrowStep p now who k e e'
  paid :
      (total : ℕ)
      → e.distributed + total ≤ e.deposited
      → e' ≡ record e { distributed = e.distributed + total; last_distribution_at = now }
      → EscrowStep p now who k e e'

-- How records come into being.
pub record IsNewConfig (who : Pubkey) (c : NetworkConfig) : Type 0 where
  pub signed : c.authority ≡ who
  pub slash : c.slash_percentage ≤ 100
  pub cooldown : pos 0 ≤ℤ c.deregistration_cooldown

pub record IsNewNode (now : ℤ) (who : Pubkey) (l : Ledger) (n : NodeRecord) : Type 0 where
  pub signed : n.operator ≡ who
  pub endpoint : length n.endpoint ≤ max_endpoint_len
  pub region : length n.region ≤ max_region_len
  pub capacity : 0 < n.capacity
  pub idle : n.active_instances ≡ 0
  pub status : n.status ≡ NodeStatus.active
  pub registered : n.registered_at ≡ now
  pub seen : n.last_heartbeat ≡ now
  pub config_key : Pubkey
  pub config : NetworkConfig
  pub has_config : l.accounts config_key ≡ config_account config
  pub staked : n.stake ≡ config.min_stake

pub record IsNewInstance (now : ℤ) (who : Pubkey) (i : InstanceRecord) : Type 0 where
  pub signed : i.agent ≡ who
  pub replicas : length i.replica_nodes ≤ max_replica_nodes
  pub dek : length i.encrypted_dek ≤ max_encrypted_dek_len
  pub status : i.status ≡ InstanceStatus.provisioning
  pub root : i.merkle_root ≡ 0
  pub created : i.created_at ≡ now

-- A record stands at the address that the program derives for it, with that address's bump.
abbrev pub IsAddressed : Platform → Pubkey → AccountData → Type 0
IsAddressed p k empty = Unit
IsAddressed p k foreign = Unit
IsAddressed p k (config_account c) = p.find_program_address config_seeds ≡ (k, c.bump)
IsAddressed p k (node_account n) = p.find_program_address (node_seeds n.operator) ≡ (k, n.bump)
IsAddressed p k (instance_account i) =
    p.find_program_address (instance_seeds i.agent i.instance_id) ≡ (k, i.bump)
IsAddressed p k (escrow_account e) =
    p.find_program_address (escrow_seeds e.agent e.instance_id) ≡ (k, e.bump)

-- What one instruction may make of the account `a` at the address `k`.
pub data Evolve (p : Platform) (now : ℤ) (who : Pubkey) (l : Ledger) (k : Pubkey)
    (a b : AccountData) : Type 0 where
  same : b ≡ a → Evolve p now who l k a b
  new_config :
      (c : NetworkConfig)
      → a ≡ empty
      → IsNewConfig who c
      → IsAddressed p k (config_account c)
      → b ≡ config_account c
      → Evolve p now who l k a b
  new_node :
      (n : NodeRecord)
      → a ≡ empty
      → IsNewNode now who l n
      → IsAddressed p k (node_account n)
      → b ≡ node_account n
      → Evolve p now who l k a b
  new_instance :
      (i : InstanceRecord)
      → a ≡ empty
      → IsNewInstance now who i
      → IsAddressed p k (instance_account i)
      → b ≡ instance_account i
      → Evolve p now who l k a b
  new_escrow :
      (e : PaymentEscrow) (instance_id rate bump amount : ℕ)
      → a ≡ empty
      → p.find_program_address (escrow_seeds who instance_id) ≡ (k, bump)
      → 0 < amount
      → IsDeposit now who instance_id rate bump amount zero_escrow e
      → b ≡ escrow_account e
      → Evolve p now who l k a b
  node :
      (n n' : NodeRecord)
      → a ≡ node_account n
      → NodeStep now who l n n'
      → b ≡ node_account n'
      → Evolve p now who l k a b
  held :
      (i i' : InstanceRecord)
      → a ≡ instance_account i
      → InstanceStep now who l i i'
      → b ≡ instance_account i'
      → Evolve p now who l k a b
  escrow :
      (e e' : PaymentEscrow)
      → a ≡ escrow_account e
      → EscrowStep p now who k e e'
      → b ≡ escrow_account e'
      → Evolve p now who l k a b

-- Every account of the ledger evolves.
abbrev pub Evolves : Platform → ℤ → Pubkey → Ledger → Ledger → Type 0
Evolves p now who l l' = (k : Pubkey) → Evolve p now who l k (l.accounts k) (l'.accounts k)
