-- ===== src/Node/Replication/Signing.antt =====
-- The signature on a replicated segment: `build_replication_sig` and `verify_replication_sig` of
-- node-rs/src/replication.rs. The secret, and whether a signature is required, are read from the
-- environment at each call.
use kraph_core.Prelude.{
  Bool, false, ◌==◌, Option, none, some, ◌∷◌, ◌++◌, ◌≡◌, ◌↔◌, refl, arith, length, if◌then◌else◌,
  Bool-cases, inl, inr, ap,
}
use kraph_core.Prelude.Int.{ℤ}
use kraph_core.Prelude.Bytes.{Bytes, eq_bytes, eq_bytes_lem, eq_bytes_refl}
use kraph_core.Node.Paths.{Str}
use kraph_core.Node.Replication.{
  Result, ok, err, ◌>>◌, ensure, Crypto, secret_unset, sig_required, sig_not_hex, sig_length,
  sig_mismatch,
}

-- What a signature covers.
abbrev pub signed_message :
    Crypto → (instance_id segment_name segment_hash previous_hash : Str) (chain_index : ℤ) → Bytes
signed_message c id name hash prev index =
    c.utf8 id
    ++ 10 ∷ c.utf8 name
    ++ 10 ∷ c.utf8 hash
    ++ 10 ∷ c.utf8 prev
    ++ 10 ∷ c.utf8 (c.print_i64 index)

unfoldable pub build_replication_sig :
    Crypto
    → (secret : Bytes) (instance_id segment_name segment_hash previous_hash : Str) (chain_index : ℤ)
    → Str
build_replication_sig c secret id name hash prev index =
    c.hex (c.hmac secret (signed_message c id name hash prev index))

-- `verify_slice` on what was decoded.
abbrev pub check_mac : (expected : Bytes) → Option Bytes → Result (Unit {0})
check_mac expected none = err sig_not_hex
check_mac expected (some provided) = do
  ensure (length provided == length expected) sig_length
  ensure (eq_bytes provided expected) sig_mismatch

abbrev pub check_sig :
    Crypto
    → (strict : Bool) → (expected : Bytes → Bytes) → (provided_sig : Option Str)
    → (secret : Option Bytes) → Result (Unit {0})
check_sig c strict expected none none = if strict then err secret_unset else ok tt
check_sig c strict expected (some sig) none = ok tt
check_sig c strict expected none (some secret) = if strict then err sig_required else ok tt
check_sig c strict expected (some sig) (some secret) =
    check_mac (expected secret) (c.unhex (c.trim sig))

unfoldable pub verify_replication_sig :
    Crypto
    → (strict : Bool) (secret : Option Bytes) (provided_sig : Option Str)
      (instance_id segment_name segment_hash previous_hash : Str) (chain_index : ℤ)
    → Result (Unit {0})
verify_replication_sig c strict secret provided_sig id name hash prev index =
    check_sig c strict (λ s. c.hmac s (signed_message c id name hash prev index)) provided_sig
      secret

-- When a segment is let in.
abbrev pub IsAuthentic :
    Crypto → (strict : Bool) → (secret : Option Bytes) → Option Str → Bytes → Type 0
IsAuthentic c strict none none message = strict ≡ false
IsAuthentic c strict none (some sig) message = Unit
IsAuthentic c strict (some secret) none message = strict ≡ false
IsAuthentic c strict (some secret) (some sig) message =
    c.unhex (c.trim sig) ≡ some (c.hmac secret message)

check_mac_lem :
    (expected : Bytes) (o : Option Bytes) → (check_mac expected o ≡ ok tt) ↔ (o ≡ some expected)
check_mac_lem expected none = (λ h. absurd (cc), λ h. absurd (cc))
check_mac_lem expected (some provided) = elim (Bool-cases (eq_bytes provided expected)) [
  | inl same ↦
      let q = eq_bytes_lem provided expected same in
      (λ h. ap some q, λ h. ground (arith, same, ap length q))
  | inr other ↦ (
    λ h. absurd (ground arith),
    λ h. let q : provided ≡ expected = cc in absurd (cc (rw q at other, eq_bytes_refl expected)),
  )
]

-- With a secret, a signature is accepted exactly if it is the HMAC of the headers under the secret,
-- and a segment without one exactly if none is required. Without a secret, a segment without a
-- signature is accepted exactly if none is required, and every signature is accepted, whether one is
-- required or not.
pub verify_replication_sig-IsAuthentic :
    (c : Crypto) (strict : Bool) (secret : Option Bytes) (sig : Option Str)
    (id name hash prev : Str) (index : ℤ)
    → (verify_replication_sig c strict secret sig id name hash prev index ≡ ok tt)
      ↔ IsAuthentic c strict secret sig (signed_message c id name hash prev index)
unfolding verify_replication_sig
verify_replication_sig-IsAuthentic c strict none none id name hash prev index = ground arith
verify_replication_sig-IsAuthentic c strict none (some sig) id name hash prev index =
    (λ h. tt, λ h. refl)
verify_replication_sig-IsAuthentic c strict (some secret) none id name hash prev index =
    ground arith
verify_replication_sig-IsAuthentic c strict (some secret) (some sig) id name hash prev index =
    check_mac_lem (c.hmac secret (signed_message c id name hash prev index)) (c.unhex (c.trim sig))
