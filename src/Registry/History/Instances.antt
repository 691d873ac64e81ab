-- ===== src/Registry/History/Instances.antt =====
-- Instance records of contracts/programs/supaba-registry over time.
use kraph_core.Prelude.{◌≡◌, refl, List, arith}
use kraph_core.Prelude.Int.{ℤ}
use kraph_core.Registry.Types.{Pubkey, InstanceRecord, InstanceStatus}
use kraph_core.Registry.Ledger.{AccountData, instance_account, Ledger, Platform}
use kraph_core.Registry.Program.{Instruction, run}
use kraph_core.Registry.Life.{InstanceStep, Evolve, IsImposed}
use kraph_core.Registry.Life.Program.{run_keeps}
use kraph_core.Registry.Identity.{IsSameInstance}

-- A property of an instance record that every step keeps holds after any transactions.
module _ (p : Platform) (P : InstanceRecord → Type 0) (k : Pubkey)
    (step : (now : ℤ) (who : Pubkey) (l : Ledger) (i i' : InstanceRecord)
      → InstanceStep now who l i i'
      → P i
      → P i') where
  HasInstance : AccountData → Type 0
  HasInstance a = (i : InstanceRecord) × (a ≡ instance_account i) × P i

  Evolve-HasInstance :
      (now : ℤ) (who : Pubkey) (l : Ledger) (a b : AccountData)
      → Evolve p now who l k a b
      → HasInstance a
      → HasInstance b
  unfolding HasInstance
  Evolve-HasInstance now who l a b (Evolve.same e) h = rw e h
  Evolve-HasInstance now who l a b (Evolve.new_config x v n at e) (m, f, q) = absurd (cc)
  Evolve-HasInstance now who l a b (Evolve.new_node x v n at e) (m, f, q) = absurd (cc)
  Evolve-HasInstance now who l a b (Evolve.new_instance x v n at e) (m, f, q) = absurd (cc)
  Evolve-HasInstance now who l a b (Evolve.new_escrow x i r u m' v at w z e) (m, f, q) = absurd (cc)
  Evolve-HasInstance now who l a b (Evolve.node n n' g s e) (m, f, q) = absurd (cc)
  Evolve-HasInstance now who l a b (Evolve.held i i' g s e) (m, f, q) =
      let same : m ≡ i = cc in (i', e, step now who l i i' s (rw same at q))
  Evolve-HasInstance now who l a b (Evolve.escrow x x' g s e) (m, f, q) = absurd (cc)

  pub run-instance :
      (txs : List (ℤ × Instruction)) (l : Ledger) (i : InstanceRecord)
      → l.accounts k ≡ instance_account i
      → P i
      → (i' : InstanceRecord) × ((run p txs l).accounts k ≡ instance_account i') × P i'
  unfolding HasInstance
  run-instance txs l i at h = run_keeps p HasInstance k Evolve-HasInstance txs l (i, at, h)

-- An instance that has been migrated, suspended or destroyed, later on.
pub record IsFrozen (i i' : InstanceRecord) : Type 0 where
  pub imposed : IsImposed i'.status
  pub root : i'.merkle_root ≡ i.merkle_root
  pub kept : IsSameInstance i i'

InstanceStep-IsFrozen :
    (m : InstanceRecord) (now : ℤ) (who : Pubkey) (l : Ledger) (i i' : InstanceRecord)
    → InstanceStep now who l i i'
    → IsFrozen m i
    → IsFrozen m i'
InstanceStep-IsFrozen m now who l i i' (InstanceStep.activated n at own s e) h =
    absurd (rw s at (h.imposed))
InstanceStep-IsFrozen m now who l i i' (InstanceStep.committed n root at own s e) h =
    absurd (rw s at (h.imposed))
InstanceStep-IsFrozen m now who l i i' (InstanceStep.requested n InstanceStatus.suspended at w e)
      h =
    ground arith
InstanceStep-IsFrozen m now who l i i' (InstanceStep.requested n InstanceStatus.migrating at w e)
      h =
    ground arith
InstanceStep-IsFrozen m now who l i i' (InstanceStep.requested n InstanceStatus.destroyed at w e)
      h =
    ground arith
InstanceStep-IsFrozen m now who l i i' (InstanceStep.requested n InstanceStatus.provisioning at w e)
      h =
    absurd w
InstanceStep-IsFrozen m now who l i i' (InstanceStep.requested n InstanceStatus.active at w e) h =
    absurd w
InstanceStep-IsFrozen m now who l i i' (InstanceStep.destroyed own e) h = ground arith
InstanceStep-IsFrozen m now who l i i' (InstanceStep.exhausted key x t at b q) h = ground arith
InstanceStep-IsFrozen m now who l i i' (InstanceStep.migrated key n own at s e) h = ground arith

-- Once an instance is migrating, suspended or destroyed, no transactions make it provisioning or
-- active again, and its Merkle root never changes: after any of them the record is there with the
-- same root, agent, id, replicas and key, and one of those three statuses.
pub IsFrozen-forever :
    (p : Platform) (txs : List (ℤ × Instruction)) (l : Ledger) (k : Pubkey) (i : InstanceRecord)
    → l.accounts k ≡ instance_account i
    → IsImposed i.status
    → (i' : InstanceRecord) × ((run p txs l).accounts k ≡ instance_account i') × IsFrozen i i'
IsFrozen-forever p txs l k i at s =
    run-instance p (IsFrozen i) k (InstanceStep-IsFrozen i) txs l i at (record {
      imposed = s;
      root = refl;
      kept = record {
        agent = refl;
        instance_id = refl;
        bump = refl;
        created_at = refl;
        replica_nodes = refl;
        encrypted_dek = refl;
      };
    })
