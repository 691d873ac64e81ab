-- ===== src/Node/Tests/Stores.antt =====
-- Runs of the port allocation, the warm pool and the stored environment variables of node-rs/src.
use kraph_core.Prelude.{
  ℕ, false, ◌+◌, ◌≤◌, ◌≡◌, refl, arith, true, Option, none, some, List, [], ◌∷◌, ◌++◌, length,
}
use kraph_core.Prelude.Bytes.{Bytes}
use kraph_core.Node.Paths.{Str}
use kraph_core.Node.Ports.{Ports, PortAllocation, allocate_port_block}
use kraph_core.Node.Ports.Blocks.{IsAnswer, allocate_port_block-IsAnswer}
use kraph_core.Node.Integrity.Merkle.{
  Hashing, build_merkle_proof, verify_merkle_proof, sibling, build_levels, next_level,
}
use kraph_core.Node.Integrity.Merkle.Proofs.{IsPaired, build_merkle_proof-verify}
use kraph_core.Node.Warm.{PoolConfig, Attempt, started}
use kraph_core.Node.Env.{Sealing, EnvRow, upsert_env_with_protection}
use kraph_core.Node.Env.RoundTrip.{IsUpserted, upsert_env_with_protection-IsUpserted}

abbrev block : Option Str → ℕ → PortAllocation
block id port = record { instance_id = id; base_port = port }

abbrev some_ports : Ports
some_ports = record {
  allocations = block none 10030 ∷ block (some (97 ∷ [])) 10000 ∷ block none 10010 ∷ [];
  instances = (97 ∷ []) ∷ [];
}

gap_found :
    allocate_port_block 10000 20000 some_ports
    ≡ some (
      10020,
      record {
        allocations = block none 10020 ∷ some_ports.allocations;
        instances = some_ports.instances;
      },
    )
unfolding allocate_port_block kraph_core.Node.Ports.find_gap
gap_found = refl

allocate_port_block-IsAnswer_example :
    IsAnswer 10000 20000 some_ports (allocate_port_block 10000 20000 some_ports)
allocate_port_block-IsAnswer_example =
    allocate_port_block-IsAnswer 10000 20000 some_ports (omega arith) (omega arith)
      (omega arith, (omega arith, (omega arith, tt)))

abbrev config : PoolConfig
config = record { warm_pool_size = 2; port_range_start = 10000; port_range_end = 10060 }

-- "supaba-warm-" and the attempt's number
abbrev attempt : ℕ → Attempt
attempt n = record {
  compose_project = 115 ∷ 117 ∷ 112 ∷ 97 ∷ 98 ∷ 97 ∷ 45 ∷ 119 ∷ 97 ∷ 114 ∷ 109 ∷ 45 ∷ n ∷ [];
  outcome = started;
  now = 7;
}

abbrev tag : Bytes
tag = 0 ∷ 0 ∷ 0 ∷ 0 ∷ 0 ∷ 0 ∷ 0 ∷ 0 ∷ 0 ∷ 0 ∷ 0 ∷ 0 ∷ 0 ∷ 0 ∷ 0 ∷ 0 ∷ []

abbrev untagged : Bytes → Option Bytes
untagged
      (t1 ∷ t2 ∷ t3 ∷ t4 ∷ t5 ∷ t6 ∷ t7 ∷ t8 ∷ t9 ∷ t10 ∷ t11 ∷ t12 ∷ t13 ∷ t14 ∷ t15 ∷ t16
        ∷ message) =
    some message
untagged _ = none

untagged_lem :
    (message : Bytes) {sealed : Bytes}
    → some (tag ++ message) ≡ some sealed
    → untagged sealed ≡ some message
untagged_lem message {sealed} h = let q : tag ++ message ≡ sealed = cc in rw (← q) refl

tag-length :
    (message : Bytes) {sealed : Bytes} → some (tag ++ message) ≡ some sealed → 16 ≤ length sealed
tag-length message {sealed} h = let q : tag ++ message ≡ sealed = cc in rw (← q) (omega arith)

-- A toy cipher, which puts a tag before the message.
abbrev toy_sealing : Sealing
toy_sealing = record {
  encrypt = λ dek nonce aad message. some (tag ++ message);
  decrypt = λ dek nonce aad sealed. untagged sealed;
  base64 = λ b. b;
  unbase64 = λ s. some s;
  unhex = λ s. some s;
  utf8 = λ s. s;
  from_utf8 = λ b. some b;
  decrypt-encrypt = λ dek nonce aad message h. untagged_lem message h;
  unbase64-base64 = λ b. refl;
  from_utf8-utf8 = λ s. refl;
  encrypt-tag = λ dek nonce aad message h. tag-length message h;
}

abbrev env_nonce : Bytes
env_nonce = 7 ∷ 7 ∷ 7 ∷ 7 ∷ 7 ∷ 7 ∷ 7 ∷ 7 ∷ 7 ∷ 7 ∷ 7 ∷ 7 ∷ []

abbrev env_rows : List EnvRow
env_rows = record { instance_id = 97 ∷ []; key = 75 ∷ []; value = 118 ∷ []; protected = true } ∷ []

upsert_env_with_protection-IsUpserted_example :
    IsUpserted toy_sealing (tag ++ tag) env_nonce (97 ∷ []) (75 ∷ []) (119 ∷ []) true env_rows (
      upsert_env_with_protection toy_sealing
        (some (tag ++ tag))
        env_nonce
        (97 ∷ [])
        (75 ∷ [])
        (119 ∷ [])
        true
        env_rows)
upsert_env_with_protection-IsUpserted_example =
    upsert_env_with_protection-IsUpserted toy_sealing (some (tag ++ tag)) (tag ++ tag) env_nonce
      (97 ∷ []) (75 ∷ []) (119 ∷ []) true env_rows refl refl

abbrev sum_bytes : Bytes → ℕ
sum_bytes [] = 0
sum_bytes (b ∷ bs) = b + sum_bytes bs

abbrev digest : ℕ → Bytes
digest n =
    n ∷ 0 ∷ 0 ∷ 0 ∷ 0 ∷ 0 ∷ 0 ∷ 0 ∷ 0 ∷ 0 ∷ 0 ∷ 0 ∷ 0 ∷ 0 ∷ 0 ∷ 0 ∷ 0 ∷ 0 ∷ 0 ∷ 0 ∷ 0 ∷ 0 ∷ 0 ∷ 0
    ∷ 0 ∷ 0 ∷ 0 ∷ 0 ∷ 0 ∷ 0 ∷ 0 ∷ 0 ∷ []

-- A toy hash, the sum of the bytes filled up with zeros.
abbrev toy_hashing : Hashing
toy_hashing = record {
  sha256 = λ b. digest (sum_bytes b);
  hex = λ b. b;
  unhex = λ s. some s;
  unhex-hex = λ b. refl;
  sha256-length = λ b. refl;
}

abbrev leaves : List Bytes
leaves = digest 1 ∷ digest 2 ∷ digest 3 ∷ []

second-IsPaired : IsPaired 3 3 1
second-IsPaired two =
    ((λ last. refl), λ two'. ((λ last. absurd (omega arith)), λ two''. absurd (omega arith)))

build_merkle_proof-verify_example :
    verify_merkle_proof toy_hashing
      (digest 2)
      (build_merkle_proof toy_hashing leaves 1).1
      (build_merkle_proof toy_hashing leaves 1).0
    ≡ true
build_merkle_proof-verify_example =
    build_merkle_proof-verify toy_hashing leaves 1 (digest 2) (refl, (refl, (refl, tt))) refl
      second-IsPaired

-- The last of three leaves has no sibling, and its proof does not verify.
last_of_three :
    verify_merkle_proof toy_hashing
      (digest 3)
      (build_merkle_proof toy_hashing leaves 2).1
      (build_merkle_proof toy_hashing leaves 2).0
    ≡ false
unfolding verify_merkle_proof build_merkle_proof build_levels next_level sibling
last_of_three = refl
