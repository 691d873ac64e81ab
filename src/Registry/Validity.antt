-- ===== src/Registry/Validity.antt =====
-- What always holds of the accounts of contracts/programs/supaba-registry.
use kraph_core.Prelude.{ℕ, ◌≤◌, ◌<◌, ◌≡◌, List, arith, length}
use kraph_core.Prelude.Int.{ℤ, pos, ◌≤ℤ◌}
use kraph_core.Registry.Types.{
  Pubkey, NodeStatus, InstanceStatus, NetworkConfig, NodeRecord, InstanceRecord, PaymentEscrow,
  zero_escrow,
}
use kraph_core.Registry.Ledger.{
  u8_max, u64_max, AccountData, empty, foreign, config_account, node_account, instance_account,
  escrow_account, escrow_seeds, Ledger, Platform,
}
use kraph_core.Registry.Nodes.{max_endpoint_len, max_region_len}
use kraph_core.Registry.Instances.{max_replica_nodes, max_encrypted_dek_len}
use kraph_core.Registry.Program.{Instruction, run}
use kraph_core.Registry.Life.{IsDeposit, NodeStep, InstanceStep, EscrowStep, Evolve, IsAddressed}
use kraph_core.Registry.Life.Program.{run_keeps}
use kraph_core.Registry.Identity.{
  NodeStep-IsSameNode, InstanceStep-IsSameInstance, EscrowStep-IsAddressed,
}

pub record IsValidNode (n : NodeRecord) : Type 0 where
  pub fits : n.active_instances ≤ n.capacity
  pub byte : n.active_instances ≤ u8_max
  pub room : 0 < n.capacity
  pub endpoint : length n.endpoint ≤ max_endpoint_len
  pub region : length n.region ≤ max_region_len
  pub paid_out : n.status ≡ NodeStatus.deregistered → n.stake ≡ 0

pub record IsValidInstance (i : InstanceRecord) : Type 0 where
  pub replicas : length i.replica_nodes ≤ max_replica_nodes
  pub dek : length i.encrypted_dek ≤ max_encrypted_dek_len
  pub blank : i.status ≡ InstanceStatus.provisioning → i.merkle_root ≡ 0

pub record IsValidEscrow (e : PaymentEscrow) : Type 0 where
  pub solvent : e.distributed ≤ e.deposited
  pub word : e.deposited ≤ u64_max

pub record IsValidConfig (c : NetworkConfig) : Type 0 where
  pub slash : c.slash_percentage ≤ 100
  pub cooldown : pos 0 ≤ℤ c.deregistration_cooldown

abbrev pub IsValidData : AccountData → Type 0
IsValidData empty = Unit
IsValidData foreign = Unit
IsValidData (config_account c) = IsValidConfig c
IsValidData (node_account n) = IsValidNode n
IsValidData (instance_account i) = IsValidInstance i
IsValidData (escrow_account e) = IsValidEscrow e

abbrev pub IsValidAt : Platform → Pubkey → AccountData → Type 0
IsValidAt p k a = IsValidData a × IsAddressed p k a

-- Every record of the ledger is valid, and stands at the address derived for it.
abbrev pub IsValid : Platform → Ledger → Type 0
IsValid p l = (k : Pubkey) → IsValidAt p k (l.accounts k)

NodeStep-IsValid :
    {now : ℤ} {who : Pubkey} {l : Ledger} {n n' : NodeRecord}
    → NodeStep now who l n n'
    → IsValidNode n
    → IsValidNode n'
NodeStep-IsValid (NodeStep.updated ep c r own up b₁ b₂ b₃ e) h = ground arith
NodeStep-IsValid (NodeStep.beat own up e) h = ground arith
NodeStep-IsValid (NodeStep.deregistered own up e) h = ground arith
NodeStep-IsValid (NodeStep.claimed key c at own s z w e) h = ground arith
NodeStep-IsValid (NodeStep.slashed key c amount at own b w e) h = ground arith
NodeStep-IsValid (NodeStep.gained up a b e) h = ground arith
NodeStep-IsValid (NodeStep.lost a e) h = ground arith

InstanceStep-IsValid :
    {now : ℤ} {who : Pubkey} {l : Ledger} {i i' : InstanceRecord}
    → InstanceStep now who l i i'
    → IsValidInstance i
    → IsValidInstance i'
InstanceStep-IsValid (InstanceStep.activated n at own s e) h = ground arith
InstanceStep-IsValid (InstanceStep.committed n root at own s e) h = ground arith
InstanceStep-IsValid (InstanceStep.requested n InstanceStatus.suspended at w e) h = ground arith
InstanceStep-IsValid (InstanceStep.requested n InstanceStatus.migrating at w e) h = ground arith
InstanceStep-IsValid (InstanceStep.requested n InstanceStatus.destroyed at w e) h = ground arith
InstanceStep-IsValid (InstanceStep.requested n InstanceStatus.provisioning at w e) h = absurd w
InstanceStep-IsValid (InstanceStep.requested n InstanceStatus.active at w e) h = absurd w
InstanceStep-IsValid (InstanceStep.destroyed own e) h = ground arith
InstanceStep-IsValid (InstanceStep.exhausted key e t at b q) h = ground arith
InstanceStep-IsValid (InstanceStep.migrated key n own at s e) h = ground arith

EscrowStep-IsValid :
    {p : Platform} {now : ℤ} {who k : Pubkey} {e e' : PaymentEscrow}
    → EscrowStep p now who k e e'
    → IsValidEscrow e
    → IsValidEscrow e'
EscrowStep-IsValid (EscrowStep.deposited id rate bump amount at b q) h = ground arith
EscrowStep-IsValid (EscrowStep.paid total b q) h = ground arith

zero_escrow-IsValid : IsValidEscrow zero_escrow
zero_escrow-IsValid = record { solvent = omega arith; word = omega arith }

-- The first deposit into a fresh escrow sets its address.
fresh_escrow-IsAddressed :
    (p : Platform) (now : ℤ) (who k : Pubkey) (id rate bump amount : ℕ) (e : PaymentEscrow)
    → p.find_program_address (escrow_seeds who id) ≡ (k, bump)
    → IsDeposit now who id rate bump amount zero_escrow e
    → IsAddressed p k (escrow_account e)
fresh_escrow-IsAddressed p now who k id rate bump amount e at q =
    let a : e.agent ≡ who = ground arith in
    let i : e.instance_id ≡ id = ground arith in
    let c : e.bump ≡ bump = ground arith in rw (a, i, c) at

Evolve-IsValidAt :
    (p : Platform) (k : Pubkey) (now : ℤ) (who : Pubkey) (l : Ledger) (a b : AccountData)
    → Evolve p now who l k a b
    → IsValidAt p k a
    → IsValidAt p k b
Evolve-IsValidAt p k now who l a b (Evolve.same e) h = rw e h
Evolve-IsValidAt p k now who l a b (Evolve.new_config c v n at e) h =
    rw e (record { slash = n.slash; cooldown = n.cooldown }, at)
Evolve-IsValidAt p k now who l a b (Evolve.new_node c v n at e) h = rw e (ground arith, at)
Evolve-IsValidAt p k now who l a b (Evolve.new_instance c v n at e) h = rw e (ground arith, at)
Evolve-IsValidAt p k now who l a b (Evolve.new_escrow x id rate bump amount v at w q e) h = rw e (
  EscrowStep-IsValid {p = p} (EscrowStep.deposited id rate bump amount at w q) zero_escrow-IsValid,
  fresh_escrow-IsAddressed p now who k id rate bump amount x at q,
)
Evolve-IsValidAt p k now who l a b (Evolve.node n n' f s e) h =
    let (valid, at) = rw f at h in
    let kept = NodeStep-IsSameNode s in
    rw e (NodeStep-IsValid s valid, rw (kept.operator, kept.bump) at)
Evolve-IsValidAt p k now who l a b (Evolve.held i i' f s e) h =
    let (valid, at) = rw f at h in
    let kept = InstanceStep-IsSameInstance s in
    rw e (InstanceStep-IsValid s valid, rw (kept.agent, kept.instance_id, kept.bump) at)
Evolve-IsValidAt p k now who l a b (Evolve.escrow x x' f s e) h =
    let (valid, at) = rw f at h in rw e (EscrowStep-IsValid s valid, EscrowStep-IsAddressed s at)

-- From a valid ledger, any transactions lead to a valid ledger.
pub run-IsValid :
    (p : Platform) (txs : List (ℤ × Instruction)) (l : Ledger)
    → IsValid p l
    → IsValid p (run p txs l)
run-IsValid p txs l h k = run_keeps p (IsValidAt p k) k (Evolve-IsValidAt p k) txs l (h k)

pub IsValid-at :
    (p : Platform) (l : Ledger) (k : Pubkey) (a : AccountData)
    → IsValid p l
    → l.accounts k ≡ a
    → IsValidAt p k a
IsValid-at p l k a valid e = rw e at (valid k)
