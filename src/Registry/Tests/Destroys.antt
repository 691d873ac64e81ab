-- ===== src/Registry/Tests/Destroys.antt =====
-- Runs of `destroy_instance`.
use kraph_core.Prelude.{◌≡◌, ◌-◌, ◌<◌, refl, arith, some, [], ◌∷◌, ◌++◌}
use kraph_core.Prelude.Int.{pos}
use kraph_core.Registry.Types.{InstanceStatus, InstanceRecord, NodeRecord, PaymentEscrow}
use kraph_core.Registry.Ledger.{
  ok, ◌>>=◌, require, constrain, as_config, as_node, as_instance, as_escrow, check_seeds,
  init_account, load_token, TokenAccount, Ledger, Outcome, node_account, instance_account,
  escrow_account, store,
}
use kraph_core.Registry.Config.{initialize_config, load_config}
use kraph_core.Registry.Nodes.{initial_node, register_node}
use kraph_core.Registry.Instances.{
  initial_instance, allocate_instance, activate_instance, load_instance, load_operated,
  check_replicas,
}
use kraph_core.Registry.Moves.{DestroyInstance, refund, check_signer, destroy_instance}
use kraph_core.Registry.Payments.{deposit_payment, deposit_into, open_escrow}
use kraph_core.Registry.Program
use kraph_core.Registry.Program.{Instruction, execute, run, signer}
use kraph_core.Registry.Authority.{destroy_authority}
use kraph_core.Registry.Destroys.{destroyed_instance, relieved}
use kraph_core.Registry.Destroys.Outcomes.{destroy_settles, destroy_again}
use kraph_core.Registry.Tests.{platform, start, taken, setup, allocate, deposit}

abbrev ledger : Ledger
ledger = run platform (setup ++ (pos 14, allocate 2 []) ∷ (pos 15, deposit 1 1000) ∷ []) start

abbrev node : NodeRecord
node = record (initial_node (pos 10) 2 [] 4 500 [] 255) { active_instances = 2 }

abbrev held : InstanceRecord
held = record (initial_instance (pos 12) 3 1 102 [] [] 255) {
  status = InstanceStatus.active;
  updated_at = pos 13;
}

abbrev escrow : PaymentEscrow
escrow = record {
  agent = 3;
  instance_id = 1;
  deposited = 1000;
  distributed = 0;
  rate_per_hour = 3600;
  last_distribution_at = pos 15;
  bump = 255;
}

abbrev destroy : DestroyInstance
destroy = record {
  instance_key = 1301;
  primary_node = 102;
  escrow = 50301;
  escrow_token_account = 34;
  agent_token_account = 33;
  agent = 3;
}

node_there : ledger.accounts 102 ≡ node_account node
unfolding run execute initialize_config register_node init_account load_config as_config as_node
    as_instance as_escrow check_seeds ◌>>=◌ require constrain allocate_instance activate_instance
    load_instance load_operated check_replicas destroy_instance refund check_signer deposit_payment
    deposit_into open_escrow load_token
node_there = refl

held_there : ledger.accounts 1301 ≡ instance_account held
unfolding run execute initialize_config register_node init_account load_config as_config as_node
    as_instance as_escrow check_seeds ◌>>=◌ require constrain allocate_instance activate_instance
    load_instance load_operated check_replicas destroy_instance refund check_signer deposit_payment
    deposit_into open_escrow load_token
held_there = refl

escrow_there : ledger.accounts 50301 ≡ escrow_account escrow
unfolding run execute initialize_config register_node init_account load_config as_config as_node
    as_instance as_escrow check_seeds ◌>>=◌ require constrain allocate_instance activate_instance
    load_instance load_operated check_replicas destroy_instance refund check_signer deposit_payment
    deposit_into open_escrow load_token
escrow_there = refl

abbrev gone : Outcome
gone = taken (destroy_instance platform (pos 30) destroy 1 ledger)

destroy_done : destroy_instance platform (pos 30) destroy 1 ledger ≡ ok gone
unfolding run execute initialize_config register_node init_account load_config as_config as_node
    as_instance as_escrow check_seeds ◌>>=◌ require constrain allocate_instance activate_instance
    load_instance load_operated check_replicas destroy_instance refund check_signer deposit_payment
    deposit_into open_escrow load_token
destroy_done = refl

destroy_settles_example :
    (held.agent ≡ destroy.agent)
    × (held.primary_node ≡ destroy.primary_node)
    × (gone.0.accounts 1301 ≡ instance_account (destroyed_instance (pos 30) held))
    × (0 < node.active_instances)
    × (gone.0.accounts 102 ≡ node_account (relieved node))
    × ((t : TokenAccount) × (ledger.tokens 34 ≡ some t) × (t.owner ≡ 50301))
    × ((t : TokenAccount) × (ledger.tokens 33 ≡ some t) × (t.owner ≡ 3))
    × (escrow.distributed < escrow.deposited
        → platform.token_transfer 34 33 50301 (1000 - 0) ledger ≡ ok gone.0.tokens)
destroy_settles_example =
    destroy_settles platform (pos 30) destroy 1 ledger held node escrow gone held_there node_there
      escrow_there destroy_done

gone_there : gone.0.accounts 1301 ≡ instance_account (destroyed_instance (pos 30) held)
unfolding run execute initialize_config register_node init_account load_config as_config as_node
    as_instance as_escrow check_seeds ◌>>=◌ require constrain allocate_instance activate_instance
    load_instance load_operated check_replicas destroy_instance refund check_signer deposit_payment
    deposit_into open_escrow load_token
gone_there = refl

execute_done : execute platform (pos 30) (Program.destroy_instance destroy 1) ledger ≡ ok gone
unfolding run execute initialize_config register_node init_account load_config as_config as_node
    as_instance as_escrow check_seeds ◌>>=◌ require constrain allocate_instance activate_instance
    load_instance load_operated check_replicas destroy_instance refund check_signer deposit_payment
    deposit_into open_escrow load_token
execute_done = refl

destroy_authority_example : held.agent ≡ signer (Program.destroy_instance destroy 1)
destroy_authority_example =
    destroy_authority platform (pos 30) (Program.destroy_instance destroy 1) ledger gone 1301 held
      (destroyed_instance (pos 30) held) execute_done held_there gone_there (λ same. absurd (cc))
      refl

abbrev drained_escrow : PaymentEscrow
drained_escrow = record escrow { distributed = 1000 }

abbrev drained : Ledger
drained = store ledger 50301 (escrow_account drained_escrow)

node_still : drained.accounts 102 ≡ node_account node
unfolding run execute initialize_config register_node init_account load_config as_config as_node
    as_instance as_escrow check_seeds ◌>>=◌ require constrain allocate_instance activate_instance
    load_instance load_operated check_replicas destroy_instance refund check_signer deposit_payment
    deposit_into open_escrow load_token
node_still = refl

held_still : drained.accounts 1301 ≡ instance_account held
unfolding run execute initialize_config register_node init_account load_config as_config as_node
    as_instance as_escrow check_seeds ◌>>=◌ require constrain allocate_instance activate_instance
    load_instance load_operated check_replicas destroy_instance refund check_signer deposit_payment
    deposit_into open_escrow load_token
held_still = refl

abbrev gone_once : Outcome
gone_once = taken (destroy_instance platform (pos 30) destroy 1 drained)

destroy_once : destroy_instance platform (pos 30) destroy 1 drained ≡ ok gone_once
unfolding run execute initialize_config register_node init_account load_config as_config as_node
    as_instance as_escrow check_seeds ◌>>=◌ require constrain allocate_instance activate_instance
    load_instance load_operated check_replicas destroy_instance refund check_signer deposit_payment
    deposit_into open_escrow load_token
destroy_once = refl

destroy_again_example :
    (r : Outcome) × (destroy_instance platform (pos 31) destroy 1 gone_once.0 ≡ ok r)
    × (r.0.accounts 102 ≡ node_account (record node { active_instances = 0 }))
destroy_again_example =
    destroy_again platform (pos 30) destroy 1 drained held node drained_escrow gone_once held_still
      node_still refl destroy_once refl (omega arith) (pos 31)
