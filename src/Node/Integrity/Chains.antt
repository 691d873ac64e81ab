-- ===== src/Node/Integrity/Chains.antt =====
-- What a chain of hashes that verifies says of the segments (node-rs/src/integrity.rs).
use kraph_core.Prelude.{
  ◌≡◌, ◌≢◌, ◌⊎◌, inl, inr, refl, true, Bool-cases, Option, none, some, List, [], ◌∷◌, ◌++◌, map,
}
use kraph_core.Prelude.Bytes.{Bytes, eq_bytes, eq_bytes_refl, eq_bytes_lem}
use kraph_core.Node.Integrity.{compute_wal_hash, verify_wal_from, verify_wal_chain}

-- What is hashed for a segment.
abbrev pub hashed : Option Bytes → Bytes → Bytes
hashed none x = x
hashed (some prev) x = prev ++ x

-- Somewhere in the two lists two different strings are hashed to one hash.
abbrev pub Clash : (Bytes → Bytes) → Option Bytes → (xs ys : List (Bytes × Bytes)) → Type 0
Clash sha256 prev [] ys = ⊥
Clash sha256 prev ((x, e) ∷ xs) [] = ⊥
Clash sha256 prev ((x, e) ∷ xs) ((y, f) ∷ ys) =
    ((hashed prev x ≢ hashed prev y) × (sha256 (hashed prev x) ≡ sha256 (hashed prev y)))
    ⊎ Clash sha256 (some e) xs ys

append_cancel : (p x y : Bytes) → p ++ x ≡ p ++ y → x ≡ y
append_cancel [] x y h = h
append_cancel (b ∷ p) x y h = append_cancel p x y (cc)

module _ (sha256 : Bytes → Bytes) where
  hash_lem :
      (x : Bytes) (prev : Option Bytes) → compute_wal_hash sha256 x prev ≡ sha256 (hashed prev x)
  unfolding compute_wal_hash
  hash_lem x none = refl
  hash_lem x (some prev) = refl

  hashed_cancel : (prev : Option Bytes) (x y : Bytes) → hashed prev x ≡ hashed prev y → x ≡ y
  hashed_cancel none x y h = h
  hashed_cancel (some prev) x y h = append_cancel prev x y h

  same_or_clash :
      (x y : Bytes) (prev : Option Bytes)
      → compute_wal_hash sha256 x prev ≡ compute_wal_hash sha256 y prev
      → (x ≡ y)
        ⊎ ((hashed prev x ≢ hashed prev y) × (sha256 (hashed prev x) ≡ sha256 (hashed prev y)))
  same_or_clash x y prev h = elim (Bool-cases (eq_bytes (hashed prev x) (hashed prev y))) [
    | inl same ↦ inl (hashed_cancel prev x y (eq_bytes_lem (hashed prev x) (hashed prev y) same))
    | inr other ↦ inr (
      (λ q. absurd (cc (rw q at other, eq_bytes_refl (hashed prev y)))),
      cc (h, hash_lem x prev, hash_lem y prev),
    )
  ]

  verify_head :
      (prev : Option Bytes) (x e : Bytes) (rest : List (Bytes × Bytes))
      → verify_wal_from sha256 prev ((x, e) ∷ rest) ≡ true
      → (compute_wal_hash sha256 x prev ≡ e) × (verify_wal_from sha256 (some e) rest ≡ true)
  unfolding verify_wal_from
  verify_head prev x e rest h = elim (Bool-cases (eq_bytes (compute_wal_hash sha256 x prev) e)) [
    | inl good ↦ (eq_bytes_lem (compute_wal_hash sha256 x prev) e good, rw good at h)
    | inr bad ↦ absurd (cc (rw bad at h))
  ]

  verify_wal_from_lem :
      (prev : Option Bytes) (xs ys : List (Bytes × Bytes))
      → verify_wal_from sha256 prev xs ≡ true
      → verify_wal_from sha256 prev ys ≡ true
      → map (λ s. s.1) xs ≡ map (λ s. s.1) ys
      → (xs ≡ ys) ⊎ Clash sha256 prev xs ys
  verify_wal_from_lem prev [] [] h h' same = inl refl
  verify_wal_from_lem prev [] ((y, f) ∷ ys) h h' same = absurd (cc)
  verify_wal_from_lem prev ((x, e) ∷ xs) [] h h' same = absurd (cc)
  verify_wal_from_lem prev ((x, e) ∷ xs) ((y, f) ∷ ys) h h' same =
      let hash : e ≡ f = cc in
      let hashes : map (λ s. s.1) xs ≡ map (λ s. s.1) ys = cc in
      let (here, later) = verify_head prev x e xs h in
      let (here', later') = verify_head prev y f ys h' in
      elim (same_or_clash x y prev (cc (here, here', hash))) [
        | inr found ↦ inr (inl found)
        | inl first ↦
            elim (verify_wal_from_lem (some e) xs ys later (rw (← hash) at later') hashes) [
              | inr found ↦ inr (inr found)
              | inl rest ↦ inl (rw (first, hash, rest) refl)
            ]
      ]

  -- Two lists of segments with the same list of hashes that both verify are the same list, or at
  -- some segment two different strings were hashed to one hash: short of that, no segment is changed
  -- under hashes that are kept.
  pub verify_wal_chain-Clash :
      (xs ys : List (Bytes × Bytes))
      → verify_wal_chain sha256 xs ≡ true
      → verify_wal_chain sha256 ys ≡ true
      → map (λ s. s.1) xs ≡ map (λ s. s.1) ys
      → (xs ≡ ys) ⊎ Clash sha256 none xs ys
  unfolding verify_wal_chain
  verify_wal_chain-Clash xs ys h h' same = verify_wal_from_lem none xs ys h h' same
