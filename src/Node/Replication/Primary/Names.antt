-- ===== src/Node/Replication/Primary/Names.antt =====
-- The names that the primary ships and those that a replica takes (node-rs/src/replication.rs and
-- node-rs/src/path_safety.rs).
use kraph_core.Prelude.{
  ◌≡◌, ◌↔◌, refl, arith, true, false, ◌&&◌, ◌||◌, ◌==◌, ltb, Option, none, some, all, Bool-cases,
  inl, inr,
}
use kraph_core.Prelude.Bytes.{eq_bytes}
use kraph_core.Node.Paths.{
  Str, accepted, byte_len, is_upper_hex, history, partial, without_suffix, split_at,
  validate_segment_name, validate_split, validate_middle,
}
use kraph_core.Node.Replication.Primary.{is_valid_wal_name, is_valid_split}

middle_lem :
    (mid : Str)
    → (byte_len mid == 16 && all is_upper_hex mid ≡ true) ↔ (validate_middle mid ≡ accepted)
middle_lem mid = elim (Bool-cases (byte_len mid == 16)) [
  | inl right ↦ elim (Bool-cases (all is_upper_hex mid)) [
    | inl good ↦ rw (right, good) (λ h. refl, λ h. refl)
    | inr bad ↦ rw (right, bad) (λ h. absurd (cc), λ h. absurd (cc))
  ]
  | inr wrong ↦ rw wrong (λ h. absurd (cc), λ h. absurd (cc))
]

split_lem :
    (o : Option (Str × Str)) → (is_valid_split o ≡ some true) ↔ (validate_split o ≡ accepted)
split_lem none = (λ h. absurd (cc), λ h. absurd (cc))
split_lem (some (head, tail)) =
    let (there, back) = middle_lem (without_suffix partial tail) in
    elim (Bool-cases (all is_upper_hex head)) [
      | inr bad ↦ rw bad (λ h. absurd (cc), λ h. absurd (cc))
      | inl good ↦ elim (Bool-cases (eq_bytes tail history)) [
        | inl is_history ↦ rw (good, is_history) (λ h. refl, λ h. refl)
        | inr segment ↦ rw (good, segment) ((λ h. there (cc)), (λ h. cc (back h)))
      ]
    ]

-- The primary processes a name that `ls` listed exactly if a replica's check of the segment's name
-- accepts it, so no segment is refused for its name.
pub is_valid_wal_name_lem :
    (name : Str) → (is_valid_wal_name name ≡ some true) ↔ (validate_segment_name name ≡ accepted)
unfolding is_valid_wal_name validate_segment_name
is_valid_wal_name_lem name = elim (Bool-cases (ltb (byte_len name) 9 || ltb 32 (byte_len name))) [
  | inl outside ↦ elim (Bool-cases (byte_len name == 0)) [
    | inl empty_name ↦ rw (outside, empty_name) (λ h. absurd (cc), λ h. absurd (cc))
    | inr some_name ↦ rw (outside, some_name) (λ h. absurd (cc), λ h. absurd (cc))
  ]
  | inr inside ↦
      let some_name : (byte_len name == 0) ≡ false = ground arith in
      rw (inside, some_name) (split_lem (split_at name 8))
]
