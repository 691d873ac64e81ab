-- ===== src/Node/Tests.antt =====
-- Runs of the admission control, the validators of names and the signature check of node-rs/src.
mod Stores
mod Dashboard
use kraph_core.Prelude.{
  ℕ, zero, suc, ◌+◌, ◌≡◌, ◌≢◌, inl, inr, refl, arith, Bool, true, false, not, ◌&&◌, ◌||◌, some,
  none, Option, [], ◌∷◌, ◌++◌, ◌==◌, ltb, any,
}
use kraph_core.Prelude.Int.{ℤ, pos, pos_part, ◌-ℤ◌, ◌+ℤ◌}
use kraph_core.Prelude.Bytes.{Bytes, eq_bytes}
use kraph_core.Node.Admission.{build, migration, State, admitted, try_acquire}
use kraph_core.Node.Admission.Jobs.{
  Job, guard_of, idle, IsReachable, started, acquired, IsExclusive, is_admitted, same_instance,
  same_build_wallet, reachable-IsExclusive, try_acquire_exact,
}
use kraph_core.Node.Paths.{
  Str, byte_len, accepted, panicked, validate_function_name, validate_segment_name, check_component,
}
use kraph_core.Node.Paths.Names.{IsPathLibrary, accepted_is_safe}
use kraph_core.Node.Auth.{
  Crypto, Request, NonceMap, nonce_retention, verified, ok, verify_request_sig, check_signature,
  check_and_record_nonce,
}
use kraph_core.Node.Auth.Checks.{IsSigned, verified-IsSigned}
use kraph_core.Node.Auth.Replay.{Call, serve, no_replay, boundary_replay}
use kraph_core.Node.Integrity.{compute_wal_hash, verify_wal_from, verify_wal_chain}
use kraph_core.Node.Integrity.Chains.{Clash, verify_wal_chain-Clash}
use kraph_core.Prelude.{List, ◌⊎◌}

abbrev first : Job
first = record { kind = build; wallet = 1 ∷ []; instance_id = 5 ∷ [] }

abbrev second : Job
second = record { kind = migration; wallet = 1 ∷ []; instance_id = 5 ∷ [] }

abbrev after : Job → State → State
after j s = elim (try_acquire j.kind j.wallet j.instance_id s) [ admitted g s' ↦ s' | _ ↦ s ]

first_in :
    try_acquire first.kind first.wallet first.instance_id idle
    ≡ admitted (guard_of first) (after first idle)
unfolding try_acquire
first_in = refl

second_in :
    try_acquire second.kind second.wallet second.instance_id (after first idle)
    ≡ admitted (guard_of second) (after second (after first idle))
unfolding try_acquire
second_in = refl

both : IsReachable (after second (after first idle)) (second ∷ first ∷ [])
both =
    acquired (after first idle) _ (first ∷ []) second (acquired idle _ [] first started first_in)
      second_in

reachable-IsExclusive_example : IsExclusive (second ∷ first ∷ [])
reachable-IsExclusive_example =
    reachable-IsExclusive (after second (after first idle)) (second ∷ first ∷ []) both

try_acquire_exact_example :
    is_admitted
      (try_acquire first.kind first.wallet first.instance_id (after second (after first idle)))
    ≡ not (
        any (λ k. same_build_wallet k first) (second ∷ first ∷ [])
        || any (λ k. same_instance k first) (second ∷ first ∷ []))
try_acquire_exact_example =
    try_acquire_exact (after second (after first idle)) (second ∷ first ∷ []) first both

-- "ab-1"
abbrev name : Str
name = 97 ∷ 98 ∷ 45 ∷ 49 ∷ []

abbrev is_normal : Str → Bool
is_normal s =
    ltb 0 (byte_len s)
    && (not (any (λ x. x == 47) s) && not (eq_bytes s (46 ∷ []) || eq_bytes s (46 ∷ 46 ∷ [])))

is_normal-IsPathLibrary : IsPathLibrary is_normal
is_normal-IsPathLibrary s some_bytes slash dots = ground arith

name_accepted : validate_function_name name ≡ accepted
unfolding validate_function_name
name_accepted = refl

accepted_is_safe_example : check_component is_normal name ≡ accepted
accepted_is_safe_example =
    accepted_is_safe is_normal is_normal-IsPathLibrary name (inr (inl name_accepted))

abbrev repeat : ℕ → ℕ → Bytes
repeat zero x = []
repeat (suc n) x = x ∷ repeat n x

abbrev read : Bytes → Option ℤ
read [] = none
read (n ∷ rest) = some (pos n)

-- A toy of the libraries: a number is one element, and a signature is the key twice.
abbrev crypto : Crypto
crypto = record {
  parse_i64 = read;
  print_i64 = λ z. pos_part z ∷ [];
  sha256_hex = λ b. b;
  decode_base58 = λ b. some b;
  is_pubkey = λ b. true;
  verify = λ pubkey message sig. eq_bytes sig (pubkey ++ pubkey);
}

abbrev request : Request
request = record {
  headers = record {
    sig = some (repeat 64 9);
    nonce = some (7 ∷ []);
    ts = some (1300 ∷ []);
    hash = none;
  };
  method = 80 ∷ [];
  path = 47 ∷ [];
  body = [];
  signer = repeat 32 9;
}

abbrev seen : NonceMap
seen = (7 ∷ [], 50 + nonce_retention) ∷ []

served : verify_request_sig crypto false (pos 1000) 50 request [] ≡ (ok verified, seen)
unfolding verify_request_sig check_signature check_and_record_nonce ◌-ℤ◌ ◌+ℤ◌
served = refl

verified-IsSigned_example : IsSigned crypto request
verified-IsSigned_example = verified-IsSigned crypto false (pos 1000) 50 request [] seen served

abbrev other : Call
other = record { missing_allowed = false; wall = pos 1001; instant = 60; request = request }

no_replay_example :
    (verify_request_sig crypto false (pos 1002) 70 request (serve crypto (other ∷ []) seen)).0
    ≢ ok verified
no_replay_example =
    no_replay crypto false false (pos 1000) (pos 1002) 50 70 request request (7 ∷ []) (other ∷ [])
      [] seen served refl refl (omega arith, tt) (omega arith)

boundary_replay_example :
    (verify_request_sig crypto false (pos (1000 + 600)) (50 + nonce_retention) request seen).0
    ≡ ok verified
boundary_replay_example =
    boundary_replay crypto false 1000 50 request (1300 ∷ []) [] seen served refl refl (omega arith)
      (omega arith)

abbrev chain : List (Bytes × Bytes)
chain = (1 ∷ [], 1 ∷ []) ∷ (2 ∷ [], 1 ∷ 2 ∷ []) ∷ []

chain_good : verify_wal_chain (λ b. b) chain ≡ true
unfolding verify_wal_chain verify_wal_from compute_wal_hash
chain_good = refl

verify_wal_chain-Clash_example : (chain ≡ chain) ⊎ Clash (λ b. b) none chain chain
verify_wal_chain-Clash_example =
    verify_wal_chain-Clash (λ b. b) chain chain chain_good chain_good refl
