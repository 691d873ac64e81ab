-- ===== src/Registry/Identity.antt =====
-- What an instruction of contracts/programs/supaba-registry never changes in a record: whose it is,
-- its address, and what was fixed when it came into being.
use kraph_core.Prelude.{ℕ, ◌≤◌, ◌≡◌, ◌⊎◌, refl, inl, inr, arith}
use kraph_core.Prelude.Int.{ℤ}
use kraph_core.Registry.Types.{Pubkey, NodeRecord, InstanceRecord, PaymentEscrow}
use kraph_core.Registry.Ledger.{Ledger, Platform, escrow_account}
use kraph_core.Registry.Life.{NodeStep, InstanceStep, EscrowStep, IsAddressed, IsDeposit}

pub record IsSameNode (n n' : NodeRecord) : Type 0 where
  pub operator : n'.operator ≡ n.operator
  pub registered_at : n'.registered_at ≡ n.registered_at
  pub bump : n'.bump ≡ n.bump
  pub stake : n'.stake ≤ n.stake

pub record IsSameInstance (i i' : InstanceRecord) : Type 0 where
  pub agent : i'.agent ≡ i.agent
  pub instance_id : i'.instance_id ≡ i.instance_id
  pub bump : i'.bump ≡ i.bump
  pub created_at : i'.created_at ≡ i.created_at
  pub replica_nodes : i'.replica_nodes ≡ i.replica_nodes
  pub encrypted_dek : i'.encrypted_dek ≡ i.encrypted_dek

pub NodeStep-IsSameNode :
    {now : ℤ} {who : Pubkey} {l : Ledger} {n n' : NodeRecord}
    → NodeStep now who l n n'
    → IsSameNode n n'
NodeStep-IsSameNode (NodeStep.updated ep c r own up b₁ b₂ b₃ e) = ground arith
NodeStep-IsSameNode (NodeStep.beat own up e) = ground arith
NodeStep-IsSameNode (NodeStep.deregistered own up e) = ground arith
NodeStep-IsSameNode (NodeStep.claimed key c at own s z w e) = ground arith
NodeStep-IsSameNode (NodeStep.slashed key c amount at own b w e) = ground arith
NodeStep-IsSameNode (NodeStep.gained up a b e) = ground arith
NodeStep-IsSameNode (NodeStep.lost a e) = ground arith

pub InstanceStep-IsSameInstance :
    {now : ℤ} {who : Pubkey} {l : Ledger} {i i' : InstanceRecord}
    → InstanceStep now who l i i'
    → IsSameInstance i i'
InstanceStep-IsSameInstance (InstanceStep.activated n at own s e) = ground arith
InstanceStep-IsSameInstance (InstanceStep.committed n root at own s e) = ground arith
InstanceStep-IsSameInstance (InstanceStep.requested n s at w e) = ground arith
InstanceStep-IsSameInstance (InstanceStep.destroyed own e) = ground arith
InstanceStep-IsSameInstance (InstanceStep.exhausted key x t at b e) = ground arith
InstanceStep-IsSameInstance (InstanceStep.migrated key n own at s e) = ground arith

-- A deposit sets the agent, the instance id and the bump if it is the first, and else keeps them.
deposit_identity :
    (now : ℤ) (who : Pubkey) (id rate bump amount : ℕ) (e e' : PaymentEscrow)
    → IsDeposit now who id rate bump amount e e'
    → ((e'.agent ≡ who) × (e'.instance_id ≡ id) × (e'.bump ≡ bump))
      ⊎ ((e'.agent ≡ e.agent) × (e'.instance_id ≡ e.instance_id) × (e'.bump ≡ e.bump))
deposit_identity now who id rate bump amount e e' (fits, inl (first, q)) =
    inl (rw q refl, rw q refl, rw q refl)
deposit_identity now who id rate bump amount e e' (fits, inr (later, q)) =
    inr (rw q refl, rw q refl, rw q refl)

pub EscrowStep-IsAddressed :
    {p : Platform} {now : ℤ} {who k : Pubkey} {e e' : PaymentEscrow}
    → EscrowStep p now who k e e'
    → IsAddressed p k (escrow_account e)
    → IsAddressed p k (escrow_account e')
EscrowStep-IsAddressed {e = e} {e' = e'} (EscrowStep.deposited id rate bump amount at b q) h =
    elim (deposit_identity _ _ id rate bump amount e e' q) [
      | inl (a, i, b) ↦ rw (a, i, b) at
      | inr (a, i, b) ↦ rw (a, i, b) h
    ]
EscrowStep-IsAddressed (EscrowStep.paid total b e) h = rw e h
