-- ===== src/Registry/Authority.antt =====
-- Whose signature an instruction of contracts/programs/supaba-registry needs to change a record.
use kraph_core.Prelude.{◌≡◌, ◌≢◌, arith, ◌⊎◌, inl, inr, sym}
use kraph_core.Prelude.Int.{ℤ}
use kraph_core.Registry.Types.{Pubkey, NetworkConfig, NodeRecord, InstanceRecord, InstanceStatus}
use kraph_core.Registry.Ledger.{
  ok, Outcome, AccountData, config_account, node_account, instance_account, Ledger, Platform,
}
use kraph_core.Registry.Program.{Instruction, signer, execute}
use kraph_core.Registry.Life.{NodeStep, InstanceStep, Evolve}
use kraph_core.Registry.Life.Program.{execute-Evolves}

module _ (p : Platform) (now : ℤ) (who k : Pubkey) (l : Ledger) where
  Evolve-node :
      (n n' : NodeRecord) (a b : AccountData)
      → Evolve p now who l k a b
      → a ≡ node_account n
      → b ≡ node_account n'
      → (n' ≡ n) ⊎ NodeStep now who l n n'
  Evolve-node n n' a b (Evolve.same e) f g = inl (cc)
  Evolve-node n n' a b (Evolve.new_config x v m at e) f g = absurd (cc)
  Evolve-node n n' a b (Evolve.new_node x v m at e) f g = absurd (cc)
  Evolve-node n n' a b (Evolve.new_instance x v m at e) f g = absurd (cc)
  Evolve-node n n' a b (Evolve.new_escrow x i r u m v at w t e) f g = absurd (cc)
  Evolve-node n n' a b (Evolve.node m m' q s e) f g =
      let before : m ≡ n = cc in let after : m' ≡ n' = cc in inr (rw (before, after) at s)
  Evolve-node n n' a b (Evolve.held i i' q s e) f g = absurd (cc)
  Evolve-node n n' a b (Evolve.escrow x x' q s e) f g = absurd (cc)

  Evolve-instance :
      (n n' : InstanceRecord) (a b : AccountData)
      → Evolve p now who l k a b
      → a ≡ instance_account n
      → b ≡ instance_account n'
      → (n' ≡ n) ⊎ InstanceStep now who l n n'
  Evolve-instance n n' a b (Evolve.same e) f g = inl (cc)
  Evolve-instance n n' a b (Evolve.new_config x v m at e) f g = absurd (cc)
  Evolve-instance n n' a b (Evolve.new_node x v m at e) f g = absurd (cc)
  Evolve-instance n n' a b (Evolve.new_instance x v m at e) f g = absurd (cc)
  Evolve-instance n n' a b (Evolve.new_escrow x i r u m v at w t e) f g = absurd (cc)
  Evolve-instance n n' a b (Evolve.node m m' q s e) f g = absurd (cc)
  Evolve-instance n n' a b (Evolve.held i i' q s e) f g =
      let before : i ≡ n = cc in let after : i' ≡ n' = cc in inr (rw (before, after) at s)
  Evolve-instance n n' a b (Evolve.escrow x x' q s e) f g = absurd (cc)

-- Some configuration of the ledger names `who` as its authority.
abbrev pub IsAuthority : Ledger → Pubkey → Type 0
IsAuthority l who =
    (key : Pubkey) × (c : NetworkConfig) × (l.accounts key ≡ config_account c) × (c.authority ≡ who)

stake_step :
    {now : ℤ} {who : Pubkey} {l : Ledger} {n n' : NodeRecord}
    → NodeStep now who l n n'
    → (n'.stake ≢ n.stake) ⊎ (n'.status ≢ n.status)
    → (n.operator ≡ who) ⊎ IsAuthority l who
stake_step (NodeStep.updated ep c r own up b₁ b₂ b₃ e) h = inl own
stake_step (NodeStep.beat own up e) h = inl own
stake_step (NodeStep.deregistered own up e) h = inl own
stake_step (NodeStep.claimed key c at own s z w e) h = inl own
stake_step (NodeStep.slashed key c amount at own b w e) h = inr (key, c, at, own)
stake_step (NodeStep.gained up a b e) h = absurd (ground arith)
stake_step (NodeStep.lost a e) h = absurd (ground arith)

-- The stake and the status of a node record change only in an instruction that its operator signs,
-- or the authority of a configuration.
pub stake-IsAuthority :
    (p : Platform) (now : ℤ) (i : Instruction) (l : Ledger) (r : Outcome) (k : Pubkey)
    (n n' : NodeRecord)
    → execute p now i l ≡ ok r
    → l.accounts k ≡ node_account n
    → r.0.accounts k ≡ node_account n'
    → (n'.stake ≢ n.stake) ⊎ (n'.status ≢ n.status)
    → (n.operator ≡ signer i) ⊎ IsAuthority l (signer i)
stake-IsAuthority p now i l r k n n' e at at' h =
    elim (Evolve-node p now (signer i) k l n n' (l.accounts k) (r.0.accounts k)
      (execute-Evolves p now i l r e k) at at') [
        | inl same ↦ absurd (ground arith)
        | inr step ↦ stake_step step h
      ]

-- The signer operates the node that the instance names as its primary.
abbrev pub IsOperator : Ledger → InstanceRecord → Pubkey → Type 0
IsOperator l i who =
    (n : NodeRecord) × (l.accounts i.primary_node ≡ node_account n) × (n.operator ≡ who)

root_step :
    {now : ℤ} {who : Pubkey} {l : Ledger} {i i' : InstanceRecord}
    → InstanceStep now who l i i'
    → i'.merkle_root ≢ i.merkle_root
    → (i.status ≡ InstanceStatus.active) × IsOperator l i who
root_step (InstanceStep.activated n at own s e) h = absurd (ground arith)
root_step (InstanceStep.committed n root at own s e) h = (s, (n, at, own))
root_step (InstanceStep.requested n s at w e) h = absurd (ground arith)
root_step (InstanceStep.destroyed own e) h = absurd (ground arith)
root_step (InstanceStep.exhausted key x t at b e) h = absurd (ground arith)
root_step (InstanceStep.migrated key n own at s e) h = absurd (ground arith)

-- The Merkle root of an instance changes only while it is active, in an instruction signed by the
-- operator of its primary node.
pub root_authority :
    (p : Platform) (now : ℤ) (i : Instruction) (l : Ledger) (r : Outcome) (k : Pubkey)
    (x x' : InstanceRecord)
    → execute p now i l ≡ ok r
    → l.accounts k ≡ instance_account x
    → r.0.accounts k ≡ instance_account x'
    → x'.merkle_root ≢ x.merkle_root
    → (x.status ≡ InstanceStatus.active) × IsOperator l x (signer i)
root_authority p now i l r k x x' e at at' h =
    elim (Evolve-instance p now (signer i) k l x x' (l.accounts k) (r.0.accounts k)
      (execute-Evolves p now i l r e k) at at') [
        | inl same ↦ absurd (ground arith)
        | inr step ↦ root_step step h
      ]

destroy_step :
    {now : ℤ} {who : Pubkey} {l : Ledger} {i i' : InstanceRecord}
    → InstanceStep now who l i i'
    → i'.status ≡ InstanceStatus.destroyed
    → (i'.status ≡ i.status) ⊎ (i.agent ≡ who)
destroy_step (InstanceStep.activated n at own s e) h = absurd (ground arith)
destroy_step (InstanceStep.committed n root at own s e) h = inl (ground arith)
destroy_step (InstanceStep.requested n InstanceStatus.destroyed at w e) h = inr (sym w)
destroy_step (InstanceStep.requested n InstanceStatus.suspended at w e) h = absurd (ground arith)
destroy_step (InstanceStep.requested n InstanceStatus.migrating at w e) h = absurd (ground arith)
destroy_step (InstanceStep.requested n InstanceStatus.provisioning at w e) h = absurd w
destroy_step (InstanceStep.requested n InstanceStatus.active at w e) h = absurd w
destroy_step (InstanceStep.destroyed own e) h = inr own
destroy_step (InstanceStep.exhausted key x t at b e) h = absurd (ground arith)
destroy_step (InstanceStep.migrated key n own at s e) h = absurd (ground arith)

-- An instance that was not destroyed becomes so only in an instruction that its agent signs.
pub destroy_authority :
    (p : Platform) (now : ℤ) (i : Instruction) (l : Ledger) (r : Outcome) (k : Pubkey)
    (x x' : InstanceRecord)
    → execute p now i l ≡ ok r
    → l.accounts k ≡ instance_account x
    → r.0.accounts k ≡ instance_account x'
    → x.status ≢ InstanceStatus.destroyed
    → x'.status ≡ InstanceStatus.destroyed
    → x.agent ≡ signer i
destroy_authority p now i l r k x x' e at at' h h' =
    elim (Evolve-instance p now (signer i) k l x x' (l.accounts k) (r.0.accounts k)
      (execute-Evolves p now i l r e k) at at') [
        | inl same ↦ absurd (ground arith)
        | inr step ↦ elim (destroy_step step h') [
          | inl stayed ↦ absurd (ground arith)
          | inr own ↦ own
        ]
      ]
