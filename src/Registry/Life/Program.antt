-- ===== src/Registry/Life/Program.antt =====
-- Every instruction of contracts/programs/supaba-registry keeps to the life of an account, and what
-- holds at each step of a life holds after any transactions.
use kraph_core.Prelude.{◌≡◌, refl, List, [], ◌∷◌}
use kraph_core.Prelude.Int.{ℤ}
use kraph_core.Registry.Types.{Pubkey}
use kraph_core.Registry.Ledger.{Ledger, Result, ok, err, Platform, AccountData, Outcome}
use kraph_core.Registry.Ensures.{Ensures}
use kraph_core.Registry.Program
use kraph_core.Registry.Program.{Instruction, signer, execute, settle, run}
use kraph_core.Registry.Life.{Evolve, Evolves}
use kraph_core.Registry.Life.Nodes
use kraph_core.Registry.Life.Instances
use kraph_core.Registry.Life.Moves
use kraph_core.Registry.Life.Payments

execute-Ensures :
    (p : Platform) (now : ℤ) (i : Instruction) (l : Ledger)
    → Ensures (λ r. Evolves p now (signer i) l r.0) (execute p now i l)
unfolding execute signer
execute-Ensures p now (Program.initialize_config ctx stake rate mint cooldown slash) l =
    Payments.initialize_config-Evolves p now l ctx stake rate mint cooldown slash
execute-Ensures p now (Program.register_node ctx endpoint capacity region) l =
    Nodes.register_node-Evolves p now l ctx endpoint capacity region
execute-Ensures p now (Program.update_node ctx endpoint capacity region) l =
    Nodes.update_node-Evolves p now l ctx endpoint capacity region
execute-Ensures p now (Program.heartbeat ctx) l = Nodes.heartbeat-Evolves p now l ctx
execute-Ensures p now (Program.deregister_node ctx) l = Nodes.deregister_node-Evolves p now l ctx
execute-Ensures p now (Program.claim_stake ctx) l = Nodes.claim_stake-Evolves p now l ctx
execute-Ensures p now (Program.allocate_instance ctx id replicas dek) l =
    Instances.allocate_instance-Evolves p now l ctx id replicas dek
execute-Ensures p now (Program.activate_instance ctx id) l =
    Instances.activate_instance-Evolves p now l ctx id
execute-Ensures p now (Program.update_instance_status ctx id status) l =
    Instances.update_instance_status-Evolves p now l ctx id status
execute-Ensures p now (Program.destroy_instance ctx id) l =
    Moves.destroy_instance-Evolves p now l ctx id
execute-Ensures p now (Program.deposit_payment ctx id amount) l =
    Payments.deposit_payment-Evolves p now l ctx id amount
execute-Ensures p now (Program.distribute_payment ctx id) l =
    Payments.distribute_payment-Evolves p now l ctx id
execute-Ensures p now (Program.commit_merkle_root ctx id root) l =
    Instances.commit_merkle_root-Evolves p now l ctx id root
execute-Ensures p now (Program.slash_node ctx proof) l = Nodes.slash_node-Evolves p now l ctx proof
execute-Ensures p now (Program.migrate_instance ctx id) l =
    Moves.migrate_instance-Evolves p now l ctx id

-- A successful instruction takes every account of the ledger by a step of its life: a record comes
-- into being, changes in one of the ways that `Life` lists for the one who signs, or stays.
pub execute-Evolves :
    (p : Platform) (now : ℤ) (i : Instruction) (l : Ledger) (r : Outcome)
    → execute p now i l ≡ ok r
    → Evolves p now (signer i) l r.0
execute-Evolves p now i l r h = (execute-Ensures p now i l).at r h

module _ (p : Platform) (P : AccountData → Type 0) (k : Pubkey)
    (step : (now : ℤ) (who : Pubkey) (l : Ledger) (a b : AccountData)
      → Evolve p now who l k a b
      → P a
      → P b) where
  settle_keeps :
      (now : ℤ) (i : Instruction) (l : Ledger) (r : Result Outcome)
      → execute p now i l ≡ r
      → P (l.accounts k)
      → P ((settle l r).accounts k)
  settle_keeps now i l (ok r) e h =
      step now (signer i) l (l.accounts k) (r.0.accounts k) (execute-Evolves p now i l r e k) h
  settle_keeps now i l (err x) e h = h

  -- What every step of a life keeps holds of an address after any transactions.
  pub run_keeps :
      (txs : List (ℤ × Instruction)) (l : Ledger) → P (l.accounts k) → P ((run p txs l).accounts k)
  unfolding run
  run_keeps [] l h = h
  run_keeps ((now, i) ∷ txs) l h = run_keeps txs _ (settle_keeps now i l (execute p now i l) refl h)
