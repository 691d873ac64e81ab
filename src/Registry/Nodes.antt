-- ===== src/Registry/Nodes.antt =====
-- The instructions on node records of contracts/programs/supaba-registry/src/lib.rs:
-- `register_node`, `update_node`, `heartbeat`, `deregister_node`, `claim_stake` and `slash_node`.
use kraph_core.Prelude.{ℕ, ◌+◌, Option, none, some, [], ◌∷◌, ◌==◌, leb, ltb, length}
use kraph_core.Prelude.Int.{ℤ, leb_ℤ, saturating_sub_i64}
use kraph_core.Registry.Types.{
  Pubkey, Bytes, NodeStatus, has_status, SlashProofType, NodeRecord, NetworkConfig, zero_node,
  endpoint_too_long, region_too_long, invalid_capacity, capacity_below_active, node_not_active,
  node_not_deregistering, active_instances_remaining, cooldown_not_elapsed, insufficient_funds,
  overflow, unauthorized, node_registered, node_updated, heartbeat_recorded, node_deregistering,
  stake_claimed, node_slashed,
}
use kraph_core.Registry.Ledger.{
  Result, ok, ◌>>=◌, ◌>>◌, require, u64_max, checked_add, checked_sub, checked_mul, checked_div,
  node_account, as_node, Ledger, store, set_lamports, Platform, Outcome, node_seeds, check_seeds,
  init_account,
}
use kraph_core.Registry.Config.{load_config}

abbrev pub max_endpoint_len : ℕ
max_endpoint_len = 256

abbrev pub max_region_len : ℕ
max_region_len = 32

abbrev pub node_record_size : ℕ
node_record_size =
    8 + 32 + (4 + max_endpoint_len) + 1 + 1 + 8 + 8 + 8 + 1 + (4 + max_region_len) + 1

pub record RegisterNode : Type 0 where
  pub node : Pubkey
  pub operator : Pubkey
  pub config : Pubkey

-- The accounts of `UpdateNode`, `Heartbeat` and `DeregisterNode`, which are declared alike.
pub record OperatorNode : Type 0 where
  pub node : Pubkey
  pub operator : Pubkey

pub record ClaimStake : Type 0 where
  pub node : Pubkey
  pub operator : Pubkey
  pub config : Pubkey

pub record SlashNode : Type 0 where
  pub node : Pubkey
  pub config : Pubkey
  pub authority : Pubkey

-- The fields that `register_node` sets.
abbrev pub initial_node :
    (now : ℤ) (operator : Pubkey) (endpoint : Bytes) (capacity stake : ℕ) (region : Bytes)
    (bump : ℕ)
    → NodeRecord
initial_node now operator endpoint capacity stake region bump = record {
  operator = operator;
  endpoint = endpoint;
  capacity = capacity;
  active_instances = 0;
  stake = stake;
  registered_at = now;
  last_heartbeat = now;
  status = NodeStatus.active;
  region = region;
  bump = bump;
}

-- The three optional parts of `update_node`.
unfoldable pub set_endpoint : Option Bytes → NodeRecord → Result NodeRecord
set_endpoint none n = ok n
set_endpoint (some ep) n = do
  require (leb (length ep) max_endpoint_len) endpoint_too_long
  ok (record n { endpoint = ep })

unfoldable pub set_capacity : Option ℕ → NodeRecord → Result NodeRecord
set_capacity none n = ok n
set_capacity (some capacity) n = do
  require (ltb 0 capacity) invalid_capacity
  require (leb n.active_instances capacity) capacity_below_active
  ok (record n { capacity = capacity })

unfoldable pub set_region : Option Bytes → NodeRecord → Result NodeRecord
set_region none n = ok n
set_region (some reg) n = do
  require (leb (length reg) max_region_len) region_too_long
  ok (record n { region = reg })

-- What `slash_node` takes, before anything moves.
unfoldable pub slash_amount : NetworkConfig → NodeRecord → Result ℕ
slash_amount config node = do
  scaled ← checked_mul u64_max node.stake config.slash_percentage
  checked_div scaled 100

-- The lamports that `claim_stake` and `slash_node` move out of the node's account by hand.
unfoldable pub move_lamports : (source target : Pubkey) (amount : ℕ) → Ledger → Result Ledger
move_lamports source target amount l = do
  left ← checked_sub (l.lamports source) amount insufficient_funds
  let l₁ = set_lamports l source left
  raised ← checked_add u64_max (l₁.lamports target) amount
  ok (set_lamports l₁ target raised)

module _ (p : Platform) where
  -- `seeds = [b"node", operator], bump = node.bump, constraint = node.operator == operator`
  unfoldable pub load_own_node : Ledger → (node operator : Pubkey) → Result NodeRecord
  load_own_node l key operator = do
    node ← as_node (l.accounts key)
    check_seeds p (node_seeds operator) node.bump key
    require (node.operator == operator) unauthorized
    ok node

  unfoldable pub register_node :
      (now : ℤ)
      → RegisterNode
      → (endpoint : Bytes) (capacity : ℕ) (region : Bytes) → Ledger
      → Result Outcome
  register_node now ctx endpoint capacity region l = do
    l₁ ←
        init_account p ctx.operator ctx.node node_record_size (node_seeds ctx.operator)
          (node_account zero_node) l
    config ← load_config p l₁ ctx.config
    require (leb (length endpoint) max_endpoint_len) endpoint_too_long
    require (leb (length region) max_region_len) region_too_long
    require (ltb 0 capacity) invalid_capacity
    lamports ← p.system_transfer ctx.operator ctx.node config.min_stake l₁
    let node =
        initial_node now ctx.operator endpoint capacity config.min_stake region
          (p.find_program_address (node_seeds ctx.operator)).1
    ok (
      store (record l₁ { lamports = lamports }) ctx.node (node_account node),
      node_registered ctx.operator endpoint capacity config.min_stake ∷ [],
    )

  unfoldable pub update_node :
      OperatorNode
      → (endpoint : Option Bytes) (capacity : Option ℕ) (region : Option Bytes) → Ledger
      → Result Outcome
  update_node ctx endpoint capacity region l = do
    node ← load_own_node l ctx.node ctx.operator
    require (has_status node.status NodeStatus.active) node_not_active
    n₁ ← set_endpoint endpoint node
    n₂ ← set_capacity capacity n₁
    n₃ ← set_region region n₂
    ok (store l ctx.node (node_account n₃), node_updated n₃.operator ∷ [])

  unfoldable pub heartbeat : (now : ℤ) → OperatorNode → Ledger → Result Outcome
  heartbeat now ctx l = do
    node ← load_own_node l ctx.node ctx.operator
    require (has_status node.status NodeStatus.active) node_not_active
    ok (
      store l ctx.node (node_account (record node { last_heartbeat = now })),
      heartbeat_recorded node.operator now ∷ [],
    )

  -- `last_heartbeat` records when the node began to deregister.
  unfoldable pub deregister_node : (now : ℤ) → OperatorNode → Ledger → Result Outcome
  deregister_node now ctx l = do
    node ← load_own_node l ctx.node ctx.operator
    require (has_status node.status NodeStatus.active) node_not_active
    ok (
      store l ctx.node
          (node_account (record node { status = NodeStatus.deregistering; last_heartbeat = now })),
      node_deregistering node.operator now ∷ [],
    )

  unfoldable pub claim_stake : (now : ℤ) → ClaimStake → Ledger → Result Outcome
  claim_stake now ctx l = do
    node ← load_own_node l ctx.node ctx.operator
    config ← load_config p l ctx.config
    require (has_status node.status NodeStatus.deregistering) node_not_deregistering
    require (node.active_instances == 0) active_instances_remaining
    let elapsed = saturating_sub_i64 now node.last_heartbeat
    require (leb_ℤ config.deregistration_cooldown elapsed) cooldown_not_elapsed
    l₁ ← move_lamports ctx.node ctx.operator node.stake l
    ok (
      store l₁ ctx.node
          (node_account (record node { stake = 0; status = NodeStatus.deregistered })),
      stake_claimed node.operator node.stake ∷ [],
    )

  unfoldable pub slash_node : SlashNode → SlashProofType → Ledger → Result Outcome
  slash_node ctx proof_type l = do
    node ← as_node (l.accounts ctx.node)
    config ← load_config p l ctx.config
    require (config.authority == ctx.authority) unauthorized
    amount ← slash_amount config node
    stake ← checked_sub node.stake amount overflow
    l₁ ← move_lamports ctx.node ctx.authority amount l
    ok (
      store l₁ ctx.node
          (node_account (record node { stake = stake; status = NodeStatus.suspended })),
      node_slashed node.operator amount proof_type ∷ [],
    )
