-- ===== src/Registry/History/Configs.antt =====
-- The configuration account of contracts/programs/supaba-registry over time.
use kraph_core.Prelude.{
  ℕ, ◌≡◌, refl, List, Option, none, some, Bool-cases, Option-cases, inl, inr, arith, ◌==◌,
  if◌then◌else◌,
}
use kraph_core.Prelude.Int.{ℤ}
use kraph_core.Registry.Types.{Pubkey, NetworkConfig}
use kraph_core.Registry.Ledger.{
  AccountData, empty, foreign, config_account, node_account, instance_account, escrow_account,
  Ledger, Platform,
}
use kraph_core.Registry.Program.{Instruction, run}
use kraph_core.Registry.Validity.{IsValid, run-IsValid, IsValid-at}
use kraph_core.Registry.Life.{Evolve}
use kraph_core.Registry.Life.Program.{run_keeps}

config-fixed :
    (c : NetworkConfig) (p : Platform) (k : Pubkey) (now : ℤ) (who : Pubkey) (l : Ledger)
    (a b : AccountData)
    → Evolve p now who l k a b
    → a ≡ config_account c
    → b ≡ config_account c
config-fixed c p k now who l a b (Evolve.same e) h = cc
config-fixed c p k now who l a b (Evolve.new_config x v n at e) h = cc
config-fixed c p k now who l a b (Evolve.new_node x v n at e) h = cc
config-fixed c p k now who l a b (Evolve.new_instance x v n at e) h = cc
config-fixed c p k now who l a b (Evolve.new_escrow x i r u m v at w q e) h = cc
config-fixed c p k now who l a b (Evolve.node n n' f s e) h = cc
config-fixed c p k now who l a b (Evolve.held i i' f s e) h = cc
config-fixed c p k now who l a b (Evolve.escrow x x' f s e) h = cc

pub run-config :
    (p : Platform) (txs : List (ℤ × Instruction)) (l : Ledger) (k : Pubkey) (c : NetworkConfig)
    → l.accounts k ≡ config_account c
    → (run p txs l).accounts k ≡ config_account c
run-config p txs l k c at = run_keeps p (λ a. a ≡ config_account c) k (config-fixed c p k) txs l at

-- The configuration that an address holds, if it holds one.
abbrev pub config_at : AccountData → Option NetworkConfig
config_at empty = none
config_at foreign = none
config_at (config_account c) = some c
config_at (node_account n) = none
config_at (instance_account i) = none
config_at (escrow_account e) = none

config_at_lem : (a : AccountData) (c : NetworkConfig) → config_at a ≡ some c → a ≡ config_account c
config_at_lem a c h = ground arith

fst_path : {a : Pubkey × ℕ} {k j b c : ℕ} → a ≡ (k, b) → a ≡ (j, c) → k ≡ j
fst_path e f = ground arith

-- In a valid ledger two configuration accounts have one address.
config_address :
    (p : Platform) (l : Ledger) (k j : Pubkey) (c d : NetworkConfig)
    → IsValid p l
    → l.accounts k ≡ config_account c
    → l.accounts j ≡ config_account d
    → k ≡ j
config_address p l k j c d valid at found =
    let a = (IsValid-at p l k (config_account c) valid at).1 in
    let b = (IsValid-at p l j (config_account d) valid found).1 in fst_path a b

-- Once the configuration is there, in a valid ledger, no transactions change it, remove it or add
-- another: its address holds it afterwards, and no other address holds a configuration.
pub config_forever :
    (p : Platform) (txs : List (ℤ × Instruction)) (l : Ledger) (k j : Pubkey) (c : NetworkConfig)
    → IsValid p l
    → l.accounts k ≡ config_account c
    → config_at ((run p txs l).accounts j) ≡ (if k == j then some c else none)
config_forever p txs l k j c valid at =
    let kept = run-config p txs l k c at in
    let after = run p txs l in
    elim (Bool-cases (k == j)) [
      | inl here ↦ let same : k ≡ j = ground arith in rw (here, ← same, kept) refl
      | inr elsewhere ↦ elim (Option-cases (config_at (after.accounts j))) [
        | inl nothing ↦ rw elsewhere nothing
        | inr (d, found) ↦
            let q =
              config_address p after k j c d (run-IsValid p txs l valid) kept
                (config_at_lem (after.accounts j) d found) in
            absurd (ground arith)
      ]
    ]
