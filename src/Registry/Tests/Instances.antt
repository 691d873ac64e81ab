-- ===== src/Registry/Tests/Instances.antt =====
-- Runs of the instructions on instance records.
use kraph_core.Prelude.{◌≡◌, refl, arith, [], ◌∷◌}
use kraph_core.Prelude.Int.{pos}
use kraph_core.Registry.Types.{Pubkey, InstanceStatus, InstanceRecord, NodeRecord}
use kraph_core.Registry.Ledger.{
  ok, ◌>>=◌, require, constrain, as_config, as_node, as_instance, check_seeds, init_account, Ledger,
  Outcome, node_account, instance_account,
}
use kraph_core.Registry.Config.{initialize_config, load_config}
use kraph_core.Registry.Nodes.{initial_node, register_node}
use kraph_core.Registry.Instances.{
  initial_instance, allocate_instance, activate_instance, load_instance, load_operated,
  check_replicas, commit_merkle_root,
}
use kraph_core.Registry.Moves.{MigrateInstance, migrate_instance}
use kraph_core.Registry.Program
use kraph_core.Registry.Program.{Instruction, execute, run, signer}
use kraph_core.Registry.Authority.{IsOperator, root_authority}
use kraph_core.Registry.History.Instances.{IsFrozen, IsFrozen-forever}
use kraph_core.Registry.Counters.{self_migration_inflates}
use kraph_core.Registry.Tests.{platform, start, taken, setup}

abbrev ledger : Ledger
ledger = run platform setup start

abbrev node : NodeRecord
node = record (initial_node (pos 10) 2 [] 4 500 [] 255) { active_instances = 1 }

abbrev other : NodeRecord
other = initial_node (pos 11) 4 [] 4 500 [] 255

abbrev held : InstanceRecord
held = record (initial_instance (pos 12) 3 1 102 [] [] 255) {
  status = InstanceStatus.active;
  updated_at = pos 13;
}

node_there : ledger.accounts 102 ≡ node_account node
unfolding run execute initialize_config register_node init_account load_config as_config as_node
    as_instance check_seeds ◌>>=◌ require constrain allocate_instance activate_instance
    load_instance load_operated check_replicas
node_there = refl

other_there : ledger.accounts 104 ≡ node_account other
unfolding run execute initialize_config register_node init_account load_config as_config as_node
    as_instance check_seeds ◌>>=◌ require constrain allocate_instance activate_instance
    load_instance load_operated check_replicas
other_there = refl

held_there : ledger.accounts 1301 ≡ instance_account held
unfolding run execute initialize_config register_node init_account load_config as_config as_node
    as_instance check_seeds ◌>>=◌ require constrain allocate_instance activate_instance
    load_instance load_operated check_replicas
held_there = refl

abbrev commit : Instruction
commit =
    Program.commit_merkle_root (record { instance_key = 1301; primary_node = 102; operator = 2 }) 1
      77

abbrev committed : Outcome
committed = taken (execute platform (pos 20) commit ledger)

commit_done : execute platform (pos 20) commit ledger ≡ ok committed
unfolding run execute initialize_config register_node init_account load_config as_config as_node
    as_instance check_seeds ◌>>=◌ require constrain allocate_instance activate_instance
    load_instance load_operated check_replicas commit_merkle_root
commit_done = refl

root_there :
    committed.0.accounts 1301
    ≡ instance_account (record held { merkle_root = 77; updated_at = pos 20 })
unfolding run execute initialize_config register_node init_account load_config as_config as_node
    as_instance check_seeds ◌>>=◌ require constrain allocate_instance activate_instance
    load_instance load_operated check_replicas commit_merkle_root
root_there = refl

root_authority_example :
    (InstanceStatus.active ≡ InstanceStatus.active) × IsOperator ledger held (signer commit)
root_authority_example =
    root_authority platform (pos 20) commit ledger committed 1301 held
      (record held { merkle_root = 77; updated_at = pos 20 }) commit_done held_there root_there
      (λ same. absurd (omega (arith, same)))

abbrev migrate : Pubkey → MigrateInstance
migrate target = record { instance_key = 1301; old_primary = 102; new_primary = target; agent = 3 }

abbrev moved : Outcome
moved = taken (migrate_instance platform (pos 30) (migrate 104) 1 ledger)

migrate_done : migrate_instance platform (pos 30) (migrate 104) 1 ledger ≡ ok moved
unfolding run execute initialize_config register_node init_account load_config as_config as_node
    as_instance check_seeds ◌>>=◌ require constrain allocate_instance activate_instance
    load_instance load_operated check_replicas migrate_instance
migrate_done = refl

abbrev moving : InstanceRecord
moving = record held { primary_node = 104; status = InstanceStatus.migrating; updated_at = pos 30 }

moving_there : moved.0.accounts 1301 ≡ instance_account moving
unfolding run execute initialize_config register_node init_account load_config as_config as_node
    as_instance check_seeds ◌>>=◌ require constrain allocate_instance activate_instance
    load_instance load_operated check_replicas migrate_instance
moving_there = refl

IsFrozen-forever_example :
    (i : InstanceRecord) × ((run platform ((pos 40, commit) ∷ []) moved.0).accounts 1301
      ≡ instance_account i)
    × IsFrozen moving i
IsFrozen-forever_example =
    IsFrozen-forever platform ((pos 40, commit) ∷ []) moved.0 1301 moving moving_there tt

abbrev stayed : Outcome
stayed = taken (migrate_instance platform (pos 30) (migrate 102) 1 ledger)

stay_done : migrate_instance platform (pos 30) (migrate 102) 1 ledger ≡ ok stayed
unfolding run execute initialize_config register_node init_account load_config as_config as_node
    as_instance check_seeds ◌>>=◌ require constrain allocate_instance activate_instance
    load_instance load_operated check_replicas migrate_instance
stay_done = refl

self_migration_inflates_example :
    stayed.0.accounts 102 ≡ node_account (record node { active_instances = 2 })
self_migration_inflates_example =
    self_migration_inflates platform (pos 30) (migrate 102) 1 ledger node node stayed node_there
      node_there stay_done refl
