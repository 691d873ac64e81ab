-- ===== src/Node/Integrity/Merkle.antt =====
-- The Merkle proofs of node-rs/src/integrity.rs. SHA-256 and hexadecimal are parameters. The loop
-- over the levels takes fuel: a level is shorter than the one below it, so the number of leaves is
-- enough, and Proofs shows it.
use kraph_core.Prelude.{
  ℕ, zero, suc, ◌+◌, ◌/◌, ◌≡◌, Bool, true, false, not, Option, none, some, List, [], ◌∷◌, ◌++◌,
  ◌==◌, leb, length, if◌then◌else◌,
}
use kraph_core.Prelude.Bytes.{Bytes, eq_bytes}
use kraph_core.Node.Paths.{Str}
pub mod Proofs

pub record Hashing : Type 0 where
  pub sha256 : Bytes → Bytes
  pub hex : Bytes → Str
  pub unhex : Str → Option Bytes
  pub unhex-hex : (b : Bytes) → unhex (hex b) ≡ some b
  pub sha256-length : (b : Bytes) → length (sha256 b) ≡ 32

-- "left", "right" and any other string
pub data Position : Type 0 where
  left right other : Position

pub record ProofNode : Type 0 where
  pub hash : Str
  pub position : Position

-- The level above: the hashes of pairs, where an unpaired last node is its own pair.
unfoldable pub next_level : Hashing → List Bytes → List Bytes
next_level c [] = []
next_level c (x ∷ []) = c.sha256 (x ++ x) ∷ []
next_level c (x ∷ y ∷ level) = let rest = next_level c level in c.sha256 (x ++ y) ∷ rest

-- What a level adds to the proof of an index.
unfoldable pub sibling : Hashing → List Bytes → (index : ℕ) → Option ProofNode
sibling c [] index = none
sibling c (x ∷ []) zero = none
sibling c (x ∷ []) (suc zero) = some (record { hash = c.hex x; position = left })
sibling c (x ∷ []) (suc (suc index)) = none
sibling c (x ∷ y ∷ level) zero = some (record { hash = c.hex y; position = right })
sibling c (x ∷ y ∷ level) (suc zero) = some (record { hash = c.hex x; position = left })
sibling c (x ∷ y ∷ level) (suc (suc index)) = sibling c level index

abbrev pub record_node : Option ProofNode → List ProofNode → List ProofNode
record_node none proof = proof
record_node (some node) proof = node ∷ proof

-- The loop over the levels: the last level, and the proof.
unfoldable pub build_levels :
    Hashing → (fuel : ℕ) → List Bytes → (index : ℕ) → List Bytes × List ProofNode
build_levels c zero level index = (level, [])
build_levels c (suc fuel) level index =
    let (top, proof) = build_levels c fuel (next_level c level) (index / 2) in
    if leb (length level) 1 then (level, []) else (top, record_node (sibling c level index) proof)

abbrev pub first_node : List Bytes → Bytes
first_node [] = []
first_node (x ∷ level) = x

unfoldable pub build_merkle_proof :
    Hashing → List Bytes → (target_index : ℕ) → Bytes × List ProofNode
build_merkle_proof c [] index = (c.sha256 [], [])
build_merkle_proof c (x ∷ []) index = (x, [])
build_merkle_proof c (x ∷ y ∷ leaves) index =
    let (top, proof) = build_levels c (length (x ∷ y ∷ leaves)) (x ∷ y ∷ leaves) index in
    (first_node top, proof)

-- The hash of a node and its sibling.
abbrev pub join : Hashing → Position → (current sibling_hash : Bytes) → Option Bytes
join c left current sib = some (c.sha256 (sib ++ current))
join c right current sib = some (c.sha256 (current ++ sib))
join c other current sib = none

abbrev pub climb : Hashing → Position → (current : Bytes) → Option Bytes → Option Bytes
climb c position current none = none
climb c position current (some sib) = if length sib == 32 then join c position current sib else none

abbrev pub unless_none : Option Bytes → (Bytes → Bool) → Bool
unless_none none next = false
unless_none (some current) next = next current

unfoldable pub verify_merkle_proof :
    Hashing → (leaf : Bytes) → List ProofNode → (expected_root : Bytes) → Bool
verify_merkle_proof c current [] root = eq_bytes current root
verify_merkle_proof c current (node ∷ proof) root =
    unless_none (climb c node.position current (c.unhex node.hash))
      (λ next. verify_merkle_proof c next proof root)
