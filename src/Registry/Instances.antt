-- ===== src/Registry/Instances.antt =====
-- The instructions on instance records of contracts/programs/supaba-registry/src/lib.rs:
-- `allocate_instance`, `activate_instance`, `update_instance_status` and
-- `commit_merkle_root`.
use kraph_core.Prelude.{ℕ, ◌+◌, ◌*◌, List, [], ◌∷◌, Bool, ◌||◌, ◌==◌, leb, ltb, length}
use kraph_core.Prelude.Int.{ℤ}
use kraph_core.Registry.Types.{
  Pubkey, Bytes, NodeStatus, has_status, InstanceStatus, has_instance_status, InstanceRecord,
  NodeRecord, zero_instance, supaba, too_many_replicas, dek_too_long, node_not_active,
  node_at_capacity, replica_account_mismatch, invalid_replica_node, replica_node_not_active,
  unauthorized, invalid_status_transition, instance_not_active, instance_allocated,
  instance_activated, instance_status_updated, merkle_root_committed,
}
use kraph_core.Registry.Ledger.{
  Result, ok, err, ◌>>=◌, ◌>>◌, require, u8_max, checked_add, AccountData, empty, foreign,
  config_account, node_account, instance_account, escrow_account, as_node, as_instance, Ledger,
  store, Platform, Outcome, instance_seeds, check_seeds, init_account,
}

abbrev pub max_replica_nodes : ℕ
max_replica_nodes = 3

abbrev pub max_encrypted_dek_len : ℕ
max_encrypted_dek_len = 128

abbrev pub instance_record_size : ℕ
instance_record_size =
    8
    + 32
    + 16
    + 32
    + (4 + 32 * max_replica_nodes)
    + (4 + max_encrypted_dek_len)
    + 32
    + 1
    + 8
    + 8
    + 1

pub record AllocateInstance : Type 0 where
  pub instance_key : Pubkey
  pub primary_node : Pubkey
  pub agent : Pubkey
  pub remaining_accounts : List Pubkey

-- The accounts of `ActivateInstance` and `CommitMerkleRoot`, which are declared alike.
pub record OperatorInstance : Type 0 where
  pub instance_key : Pubkey
  pub primary_node : Pubkey
  pub operator : Pubkey

pub record UpdateInstanceStatus : Type 0 where
  pub instance_key : Pubkey
  pub primary_node : Pubkey
  pub signer : Pubkey

-- The fields that `allocate_instance` sets.
abbrev pub initial_instance :
    (now : ℤ) (agent : Pubkey) (instance_id : ℕ) (primary_node : Pubkey)
    (replica_nodes : List Pubkey) (encrypted_dek : Bytes) (bump : ℕ)
    → InstanceRecord
initial_instance now agent instance_id primary_node replica_nodes encrypted_dek bump = record {
  agent = agent;
  instance_id = instance_id;
  primary_node = primary_node;
  replica_nodes = replica_nodes;
  encrypted_dek = encrypted_dek;
  merkle_root = 0;
  status = InstanceStatus.provisioning;
  created_at = now;
  updated_at = now;
  bump = bump;
}

-- A remaining account read as a node record: every way in which that fails is one error.
unfoldable pub replica_record : AccountData → Result NodeRecord
replica_record empty = err (supaba invalid_replica_node)
replica_record foreign = err (supaba invalid_replica_node)
replica_record (config_account c) = err (supaba invalid_replica_node)
replica_record (node_account n) = ok n
replica_record (instance_account i) = err (supaba invalid_replica_node)
replica_record (escrow_account e) = err (supaba invalid_replica_node)

-- The loop over `replica_nodes` and the remaining accounts, which are as many.
unfoldable pub check_replicas : Ledger → (replica_nodes remaining : List Pubkey) → Result (Unit {0})
check_replicas l [] remaining = ok tt
check_replicas l (replica ∷ replicas) [] = err (supaba replica_account_mismatch)
check_replicas l (replica ∷ replicas) (key ∷ keys) = do
  require (key == replica) replica_account_mismatch
  node ← replica_record (l.accounts key)
  require (has_status node.status NodeStatus.active) replica_node_not_active
  check_replicas l replicas keys

-- Who may ask for which status.
unfoldable pub check_transition :
    (is_agent is_node_operator : Bool) → InstanceStatus → Result (Unit {0})
check_transition is_agent is_node_operator InstanceStatus.suspended =
    require (is_agent || is_node_operator) unauthorized
check_transition is_agent is_node_operator InstanceStatus.destroyed = require is_agent unauthorized
check_transition is_agent is_node_operator InstanceStatus.migrating =
    require is_node_operator unauthorized
check_transition is_agent is_node_operator InstanceStatus.provisioning =
    err (supaba invalid_status_transition)
check_transition is_agent is_node_operator InstanceStatus.active =
    err (supaba invalid_status_transition)

module _ (p : Platform) where
  -- `seeds = [b"instance", agent, instance_id], bump = instance.bump`
  unfoldable pub load_instance :
      Ledger
      → (key : Pubkey) → (InstanceRecord → Pubkey)
      → (instance_id : ℕ) → Result InstanceRecord
  load_instance l key agent instance_id = do
    instance_record ← as_instance (l.accounts key)
    check_seeds p (instance_seeds (agent instance_record) instance_id) instance_record.bump key
    ok instance_record

  unfoldable pub allocate_instance :
      (now : ℤ)
      → AllocateInstance
      → (instance_id : ℕ) (replica_nodes : List Pubkey) (encrypted_dek : Bytes) → Ledger
      → Result Outcome
  allocate_instance now ctx instance_id replica_nodes encrypted_dek l = do
    l₁ ←
        init_account p ctx.agent ctx.instance_key instance_record_size
          (instance_seeds ctx.agent instance_id) (instance_account zero_instance) l
    primary ← as_node (l₁.accounts ctx.primary_node)
    require (has_status primary.status NodeStatus.active) node_not_active
    require (leb (length replica_nodes) max_replica_nodes) too_many_replicas
    require (leb (length encrypted_dek) max_encrypted_dek_len) dek_too_long
    require (has_status primary.status NodeStatus.active) node_not_active
    require (ltb primary.active_instances primary.capacity) node_at_capacity
    require (length ctx.remaining_accounts == length replica_nodes) replica_account_mismatch
    check_replicas l₁ replica_nodes ctx.remaining_accounts
    active ← checked_add u8_max primary.active_instances 1
    let allocated =
        initial_instance now ctx.agent instance_id ctx.primary_node replica_nodes encrypted_dek
          (p.find_program_address (instance_seeds ctx.agent instance_id)).1
    ok (
      store (store l₁ ctx.instance_key (instance_account allocated)) ctx.primary_node
          (node_account (record primary { active_instances = active })),
      instance_allocated ctx.agent instance_id ctx.primary_node ∷ [],
    )

  -- The constraints of `OperatorInstance`.
  unfoldable pub load_operated :
      Ledger → OperatorInstance → (instance_id : ℕ) → Result InstanceRecord
  load_operated l ctx instance_id = do
    held ← load_instance l ctx.instance_key (λ i. i.agent) instance_id
    primary ← as_node (l.accounts ctx.primary_node)
    require (ctx.primary_node == held.primary_node) unauthorized
    require (primary.operator == ctx.operator) unauthorized
    ok held

  unfoldable pub activate_instance :
      (now : ℤ) → OperatorInstance → (instance_id : ℕ) → Ledger → Result Outcome
  activate_instance now ctx instance_id l = do
    held ← load_operated l ctx instance_id
    require (has_instance_status held.status InstanceStatus.provisioning) invalid_status_transition
    ok (
      store l ctx.instance_key
          (instance_account (record held { status = InstanceStatus.active; updated_at = now })),
      instance_activated held.instance_id ∷ [],
    )

  unfoldable pub update_instance_status :
      (now : ℤ)
      → UpdateInstanceStatus
      → (instance_id : ℕ) → InstanceStatus
      → Ledger
      → Result Outcome
  update_instance_status now ctx instance_id new_status l = do
    held ← load_instance l ctx.instance_key (λ i. i.agent) instance_id
    primary ← as_node (l.accounts ctx.primary_node)
    require (ctx.primary_node == held.primary_node) unauthorized
    check_transition (ctx.signer == held.agent) (ctx.signer == primary.operator) new_status
    ok (
      store l ctx.instance_key
          (instance_account (record held { status = new_status; updated_at = now })),
      instance_status_updated held.instance_id ∷ [],
    )

  unfoldable pub commit_merkle_root :
      (now : ℤ) → OperatorInstance → (instance_id root : ℕ) → Ledger → Result Outcome
  commit_merkle_root now ctx instance_id root l = do
    held ← load_operated l ctx instance_id
    require (has_instance_status held.status InstanceStatus.active) instance_not_active
    ok (
      store l ctx.instance_key
          (instance_account (record held { merkle_root = root; updated_at = now })),
      merkle_root_committed held.instance_id root ∷ [],
    )
