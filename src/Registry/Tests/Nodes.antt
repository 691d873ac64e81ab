-- ===== src/Registry/Tests/Nodes.antt =====
-- Runs of the instructions on the configuration and on node records.
use kraph_core.Prelude.{◌+◌, ◌≤◌, ◌≡◌, refl, arith, List, [], ◌∷◌, inl, ◌⊎◌}
use kraph_core.Prelude.Int.{ℤ, pos, ◌≤ℤ◌, ◌-ℤ◌, saturating_sub_i64}
use kraph_core.Registry.Types.{NodeStatus, NodeRecord, NetworkConfig}
use kraph_core.Registry.Ledger.{
  Ledger, u64_max, ok, ◌>>=◌, require, constrain, as_config, as_node, check_seeds, init_account,
  Outcome, node_account, config_account,
}
use kraph_core.Registry.Config.{initialize_config, load_config}
use kraph_core.Registry.Nodes.{
  ClaimStake, initial_node, register_node, deregister_node, claim_stake, slash_node, slash_amount,
  move_lamports, load_own_node,
}
use kraph_core.Registry.Program.{Instruction, execute, run, signer}
use kraph_core.Registry.Life.{Evolves}
use kraph_core.Registry.Life.Program.{execute-Evolves}
use kraph_core.Registry.Validity.{IsValid, run-IsValid}
use kraph_core.Registry.Claims.{claim_succeeds}
use kraph_core.Registry.Authority.{IsAuthority, stake-IsAuthority}
use kraph_core.Registry.History.Nodes.{IsRetired, suspended_forever, cooldown_respected}
use kraph_core.Registry.Tests.{
  platform, start, taken, initialize, register, deregister, slash, start-IsValid,
}

abbrev nodes : List (ℤ × Instruction)
nodes = (pos 0, initialize) ∷ (pos 10, register 2) ∷ []

abbrev node : NodeRecord
node = initial_node (pos 10) 2 [] 4 500 [] 255

abbrev config : NetworkConfig
config = record {
  authority = 1;
  min_stake = 500;
  default_rate_per_hour = 3600;
  usdc_mint = 7;
  deregistration_cooldown = pos 100;
  slash_percentage = 50;
  bump = 255;
}

node_registered : (run platform nodes start).accounts 102 ≡ node_account node
unfolding run execute initialize_config register_node init_account load_config as_config check_seeds
    ◌>>=◌ require constrain
node_registered = refl

config_there : (run platform nodes start).accounts 10 ≡ config_account config
unfolding run execute initialize_config register_node init_account load_config as_config check_seeds
    ◌>>=◌ require constrain
config_there = refl

run-IsValid_example : IsValid platform (run platform nodes start)
run-IsValid_example = run-IsValid platform nodes start start-IsValid

abbrev slashed : Outcome
slashed = taken (execute platform (pos 30) slash (run platform nodes start))

slash_done : execute platform (pos 30) slash (run platform nodes start) ≡ ok slashed
unfolding run execute initialize_config register_node init_account load_config as_config as_node
    check_seeds ◌>>=◌ require constrain slash_node slash_amount move_lamports
slash_done = refl

abbrev suspended_node : NodeRecord
suspended_node = record node { stake = 250; status = NodeStatus.suspended }

node_slashed : slashed.0.accounts 102 ≡ node_account suspended_node
unfolding run execute initialize_config register_node init_account load_config as_config as_node
    check_seeds ◌>>=◌ require constrain slash_node slash_amount move_lamports
node_slashed = refl

execute-Evolves_example :
    Evolves platform (pos 30) (signer slash) (run platform nodes start) slashed.0
execute-Evolves_example =
    execute-Evolves platform (pos 30) slash (run platform nodes start) slashed slash_done

stake-IsAuthority_example :
    (2 ≡ signer slash) ⊎ IsAuthority (run platform nodes start) (signer slash)
stake-IsAuthority_example =
    stake-IsAuthority platform (pos 30) slash (run platform nodes start) slashed 102 node
      suspended_node slash_done node_registered node_slashed (inl (λ same. absurd (omega arith)))

abbrev later : List (ℤ × Instruction)
later = (pos 40, deregister) ∷ (pos 50, slash) ∷ []

suspended_forever_example :
    (n : NodeRecord) × ((run platform later slashed.0).accounts 102 ≡ node_account n)
    × IsRetired suspended_node n
suspended_forever_example =
    suspended_forever platform later slashed.0 102 suspended_node node_slashed refl

abbrev leaving : List (ℤ × Instruction)
leaving = (pos 0, initialize) ∷ (pos 10, register 2) ∷ (pos 20, deregister) ∷ []

abbrev leaving_node : NodeRecord
leaving_node = record node { status = NodeStatus.deregistering; last_heartbeat = pos 20 }

abbrev between : List (ℤ × Instruction)
between = (pos 30, register 4) ∷ []

abbrev claim : ClaimStake
claim = record { node = 102; operator = 2; config = 10 }

abbrev claimed : Outcome
claimed =
    taken (claim_stake platform (pos 150) claim (run platform between (run platform leaving start)))

node_leaving : (run platform leaving start).accounts 102 ≡ node_account leaving_node
unfolding run execute initialize_config register_node deregister_node load_own_node init_account
    load_config as_config as_node check_seeds ◌>>=◌ require constrain
node_leaving = refl

config_stays : (run platform leaving start).accounts 10 ≡ config_account config
unfolding run execute initialize_config register_node deregister_node load_own_node init_account
    load_config as_config as_node check_seeds ◌>>=◌ require constrain
config_stays = refl

claim_done :
    claim_stake platform (pos 150) claim (run platform between (run platform leaving start))
    ≡ ok claimed
unfolding run execute initialize_config register_node deregister_node load_own_node init_account
    load_config as_config as_node check_seeds ◌>>=◌ require constrain claim_stake move_lamports
    saturating_sub_i64 ◌-ℤ◌
claim_done = refl

cooldown_respected_example : pos 100 ≤ℤ pos 150 -ℤ pos 20
cooldown_respected_example =
    cooldown_respected platform (pos 150) between (run platform leaving start) claim leaving_node 10
      config claimed (run-IsValid platform leaving start start-IsValid) node_leaving refl
      config_stays (omega arith) claim_done

abbrev left : Ledger
left = run platform leaving start

ready : pos 100 ≤ℤ saturating_sub_i64 (pos 150) (pos 20)
unfolding saturating_sub_i64 ◌-ℤ◌
ready = omega arith

stake_there : 500 ≤ left.lamports 102
unfolding run execute initialize_config register_node deregister_node load_own_node init_account
    load_config as_config as_node check_seeds ◌>>=◌ require constrain
stake_there = omega arith

room_there : left.lamports 2 + 500 ≤ u64_max
unfolding run execute initialize_config register_node deregister_node load_own_node init_account
    load_config as_config as_node check_seeds ◌>>=◌ require constrain
room_there = omega arith

claim_succeeds_example :
    (r : Outcome) × (claim_stake platform (pos 150) claim left ≡ ok r)
    × (r.0.accounts 102
        ≡ node_account (record leaving_node { stake = 0; status = NodeStatus.deregistered }))
    × (r.0.lamports 102 + 500 ≡ left.lamports 102)
    × (r.0.lamports 2 ≡ left.lamports 2 + 500)
claim_succeeds_example =
    claim_succeeds platform (pos 150) claim left leaving_node config
      (run-IsValid platform leaving start start-IsValid) node_leaving config_stays refl refl refl
      ready (λ same. absurd (omega (arith, same))) stake_there room_there
