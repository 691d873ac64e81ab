-- ===== src/Registry/Moves.antt =====
-- The instructions of contracts/programs/supaba-registry/src/lib.rs that take an instance off its
-- primary node: `destroy_instance` and `migrate_instance`.
use kraph_core.Prelude.{ℕ, none, some, [], ◌∷◌, ◌==◌, ltb, if◌then◌else◌}
use kraph_core.Prelude.Int.{ℤ}
use kraph_core.Registry.Types.{
  Pubkey, NodeStatus, has_status, InstanceStatus, InstanceRecord, PaymentEscrow, constraint_raw,
  external, node_not_active, node_at_capacity, overflow, unauthorized, invalid_primary_node,
  instance_destroyed, instance_migrated,
}
use kraph_core.Registry.Ledger.{
  Result, ok, err, ◌>>=◌, ◌>>◌, require, constrain, u8_max, checked_add, checked_sub, node_account,
  instance_account, as_node, as_escrow, Ledger, store, Platform, Outcome, Seeds, escrow_seeds,
  check_seeds, load_token,
}
use kraph_core.Registry.Instances.{load_instance}

pub record DestroyInstance : Type 0 where
  pub instance_key : Pubkey
  pub primary_node : Pubkey
  pub escrow : Pubkey
  pub escrow_token_account : Pubkey
  pub agent_token_account : Pubkey
  pub agent : Pubkey

pub record MigrateInstance : Type 0 where
  pub instance_key : Pubkey
  pub old_primary : Pubkey
  pub new_primary : Pubkey
  pub agent : Pubkey

module _ (p : Platform) where
  -- A program signs for the address that it derives from the seeds of a call.
  unfoldable pub check_signer : Seeds → ℕ → Pubkey → Result (Unit {0})
  check_signer seeds b key = elim (p.create_program_address seeds b) [
    | some address ↦ if address == key then ok tt else err (external 8)
    | none ↦ err (external 8)
  ]

  -- What `destroy_instance` returns to the agent out of the escrow.
  unfoldable pub refund : DestroyInstance → InstanceRecord → PaymentEscrow → Ledger → Result Ledger
  refund ctx held escrow l = do
    remaining ← checked_sub escrow.deposited escrow.distributed overflow
    let moved : Result Ledger = do
      check_signer (escrow_seeds held.agent held.instance_id) escrow.bump ctx.escrow
      tokens ←
          p.token_transfer ctx.escrow_token_account ctx.agent_token_account ctx.escrow remaining l
      ok (record l { tokens = tokens })
    if ltb 0 remaining then moved else ok l

  unfoldable pub destroy_instance :
      (now : ℤ) → DestroyInstance → (instance_id : ℕ) → Ledger → Result Outcome
  destroy_instance now ctx instance_id l = do
    held ← load_instance p l ctx.instance_key (λ _. ctx.agent) instance_id
    require (held.agent == ctx.agent) unauthorized
    primary ← as_node (l.accounts ctx.primary_node)
    require (ctx.primary_node == held.primary_node) unauthorized
    escrow ← as_escrow (l.accounts ctx.escrow)
    check_seeds p (escrow_seeds ctx.agent instance_id) escrow.bump ctx.escrow
    escrow_token ← load_token l ctx.escrow_token_account
    constrain (escrow_token.owner == ctx.escrow) constraint_raw
    agent_token ← load_token l ctx.agent_token_account
    constrain (agent_token.owner == ctx.agent) constraint_raw
    active ← checked_sub primary.active_instances 1 overflow
    l₁ ← refund ctx held escrow l
    ok (
      store
          (store l₁ ctx.instance_key (
            instance_account (record held { status = InstanceStatus.destroyed; updated_at = now })))
          ctx.primary_node (node_account (record primary { active_instances = active })),
      instance_destroyed held.instance_id held.agent ∷ [],
    )

  -- Both node records are read before either is written, and the new one is written last.
  unfoldable pub migrate_instance :
      (now : ℤ) → MigrateInstance → (instance_id : ℕ) → Ledger → Result Outcome
  migrate_instance now ctx instance_id l = do
    held ← load_instance p l ctx.instance_key (λ _. ctx.agent) instance_id
    require (held.agent == ctx.agent) unauthorized
    old_primary ← as_node (l.accounts ctx.old_primary)
    require (ctx.old_primary == held.primary_node) invalid_primary_node
    new_primary ← as_node (l.accounts ctx.new_primary)
    require (has_status new_primary.status NodeStatus.active) node_not_active
    require (has_status new_primary.status NodeStatus.active) node_not_active
    require (ltb new_primary.active_instances new_primary.capacity) node_at_capacity
    old_active ← checked_sub old_primary.active_instances 1 overflow
    new_active ← checked_add u8_max new_primary.active_instances 1
    let moved : InstanceRecord = record held {
      primary_node = ctx.new_primary;
      status = InstanceStatus.migrating;
      updated_at = now;
    }
    let l₁ = store l ctx.instance_key (instance_account moved)
    let l₂ =
        store l₁ ctx.old_primary
          (node_account (record old_primary { active_instances = old_active }))
    ok (
      store l₂ ctx.new_primary
          (node_account (record new_primary { active_instances = new_active })),
      instance_migrated held.instance_id ctx.old_primary ctx.new_primary ∷ [],
    )
