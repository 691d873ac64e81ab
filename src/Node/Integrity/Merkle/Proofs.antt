-- ===== src/Node/Integrity/Merkle/Proofs.antt =====
-- The proofs that are built verify (node-rs/src/integrity.rs).
use kraph_core.Prelude.{
  ℕ, zero, suc, ◌/◌, ◌%◌, ◌≤◌, ◌≡◌, ◌≢◌, refl, arith, true, none, some, List, [], ◌∷◌, ◌++◌, leb,
  length, get_elem?, All, Bool-cases, Option-cases, inl, inr,
}
use kraph_core.Prelude.Bytes.{Bytes, eq_bytes_refl}
use kraph_core.Node.Integrity.Merkle.{
  Hashing, left, right, ProofNode, next_level, sibling, build_levels, first_node,
  build_merkle_proof, climb, verify_merkle_proof,
}

abbrev pub AreHashes : List Bytes → Type 0
AreHashes level = All (λ x. length x ≡ 32) level

-- On each level up to the root, which has half as many nodes as the one below, rounded up, the node
-- above the index is not an unpaired last one: the last node has an odd index.
abbrev pub IsPaired : (fuel size index : ℕ) → Type 0
IsPaired zero size index = Unit
IsPaired (suc fuel) size index =
    let above = IsPaired fuel (suc size / 2) (index / 2) in
    2 ≤ size → (suc index ≡ size → index % 2 ≡ 1) × above

next_level-AreHashes : (c : Hashing) (level : List Bytes) → AreHashes (next_level c level)
unfolding next_level
next_level-AreHashes c [] = tt
next_level-AreHashes c (x ∷ []) = (c.sha256-length (x ++ x), tt)
next_level-AreHashes c (x ∷ y ∷ level) = (c.sha256-length (x ++ y), next_level-AreHashes c level)

next_level-length :
    (c : Hashing) (level : List Bytes) → length (next_level c level) ≡ suc (length level) / 2
unfolding next_level
next_level-length c [] = omega arith
next_level-length c (x ∷ []) = omega arith
next_level-length c (x ∷ y ∷ level) = omega (arith, next_level-length c level)

sibling_there :
    (c : Hashing) (level : List Bytes) (index : ℕ) (x : Bytes)
    → get_elem? level index ≡ some x
    → (suc index ≡ length level → index % 2 ≡ 1)
    → sibling c level index ≢ none
unfolding sibling
sibling_there c [] index x at paired alone = absurd (cc)
sibling_there c (a ∷ []) zero x at paired alone =
    let odd : 0 % 2 ≡ 1 = paired refl in absurd (omega arith)
sibling_there c (a ∷ []) (suc index) x at paired alone = absurd (cc)
sibling_there c (a ∷ b ∷ level) zero x at paired alone = absurd (cc)
sibling_there c (a ∷ b ∷ level) (suc zero) x at paired alone = absurd (cc)
sibling_there c (a ∷ b ∷ level) (suc (suc index)) x at paired alone =
    sibling_there c level index x at
      (λ last. let odd : suc (suc index) % 2 ≡ 1 = paired (omega arith) in omega arith) alone

-- The recorded sibling leads from the node to the node above it.
climb_lem :
    (c : Hashing) (level : List Bytes) (index : ℕ) (x : Bytes) (node : ProofNode)
    → AreHashes level
    → get_elem? level index ≡ some x
    → sibling c level index ≡ some node
    → (up : Bytes) × (climb c node.position x (c.unhex node.hash) ≡ some up)
      × (get_elem? (next_level c level) (index / 2) ≡ some up)
unfolding sibling next_level
climb_lem c [] index x node hashes at found = absurd (cc)
climb_lem c (a ∷ []) zero x node hashes at found = absurd (cc)
climb_lem c (a ∷ []) (suc zero) x node hashes at found = absurd (cc)
climb_lem c (a ∷ []) (suc (suc index)) x node hashes at found = absurd (cc)
climb_lem c (a ∷ b ∷ level) zero x node (ha, (hb, hashes)) at found =
    let p : x ≡ a = cc in
    let q : node ≡ record { hash = c.hex b; position = right } = cc in
    (c.sha256 (a ++ b), rw (p, q) (rw (c.unhex-hex b) (rw hb refl)), refl)
climb_lem c (a ∷ b ∷ level) (suc zero) x node (ha, (hb, hashes)) at found =
    let p : x ≡ b = cc in
    let q : node ≡ record { hash = c.hex a; position = left } = cc in
    (c.sha256 (a ++ b), rw (p, q) (rw (c.unhex-hex a) (rw ha refl)), refl)
climb_lem c (a ∷ b ∷ level) (suc (suc index)) x node (ha, (hb, hashes)) at found =
    let (up, climbs, there) = climb_lem c level index x node hashes at found in
    let half : suc (suc index) / 2 ≡ suc (index / 2) = omega arith in (up, climbs, rw half there)

short_level :
    (level : List Bytes) (index : ℕ) (x : Bytes)
    → get_elem? level index ≡ some x
    → leb (length level) 1 ≡ true
    → x ≡ first_node level
short_level [] index x at short = absurd (cc)
short_level (a ∷ []) zero x at short = cc
short_level (a ∷ []) (suc index) x at short = absurd (cc)
short_level (a ∷ b ∷ level) index x at short = absurd (ground arith)

build_levels-verify :
    (c : Hashing) (fuel : ℕ) (level : List Bytes) (index : ℕ) (x : Bytes)
    → AreHashes level
    → get_elem? level index ≡ some x
    → length level ≤ fuel
    → IsPaired fuel (length level) index
    → verify_merkle_proof c x
        (build_levels c fuel level index).1
        (first_node (build_levels c fuel level index).0)
      ≡ true
unfolding build_levels verify_merkle_proof
build_levels-verify c zero [] index x hashes at enough paired = absurd (cc)
build_levels-verify c zero (a ∷ level) index x hashes at enough paired = absurd (omega arith)
build_levels-verify c (suc fuel) level index x hashes at enough paired =
    elim (Bool-cases (leb (length level) 1)) [
      | inl short ↦
          let q = short_level level index x at short in
          rw short (rw q (eq_bytes_refl (first_node level)))
      | inr long ↦
          let (last, above) = paired (ground arith) in
          let has = sibling_there c level index x at last in
          elim (Option-cases (sibling c level index)) [
            | inl alone ↦ absurd (has alone)
            | inr (node, found) ↦
                let (up, climbs, there) = climb_lem c level index x node hashes at found in
                let size = next_level-length c level in
                let shorter : length (next_level c level) ≤ fuel = ground (arith, size, long) in
                let rest =
                  build_levels-verify c fuel (next_level c level) (index / 2) up
                    (next_level-AreHashes c level) there shorter (rw size above) in
                rw (long, found) (rw climbs rest)
          ]
    ]

-- For leaves of 32 bytes and a target among them, the proof that is built verifies the target against
-- the root that is built with it, if on no level below the root the node above the target is an
-- unpaired last one. The number of leaves is fuel enough for the levels.
pub build_merkle_proof-verify :
    (c : Hashing) (leaves : List Bytes) (target_index : ℕ) (leaf : Bytes)
    → AreHashes leaves
    → get_elem? leaves target_index ≡ some leaf
    → IsPaired (length leaves) (length leaves) target_index
    → verify_merkle_proof c leaf
        (build_merkle_proof c leaves target_index).1
        (build_merkle_proof c leaves target_index).0
      ≡ true
unfolding build_merkle_proof verify_merkle_proof
build_merkle_proof-verify c [] index leaf hashes at paired = absurd (cc)
build_merkle_proof-verify c (x ∷ []) index leaf hashes at paired =
    let q : leaf ≡ x = short_level (x ∷ []) index leaf at (ground arith) in rw q (eq_bytes_refl x)
build_merkle_proof-verify c (x ∷ y ∷ leaves) index leaf hashes at paired =
    build_levels-verify c (length (x ∷ y ∷ leaves)) (x ∷ y ∷ leaves) index leaf hashes at
      (omega arith) paired
