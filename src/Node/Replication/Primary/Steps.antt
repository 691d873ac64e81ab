-- ===== src/Node/Replication/Primary/Steps.antt =====
-- A turn of the loop of `process_instance_wal` in node-rs/src/replication.rs leaves its variables at
-- the end of the chain.
use kraph_core.Prelude.{
  suc, ◌-◌, ◌^◌, ◌≤◌, ◌<◌, ◌≡◌, refl, arith, Bool, true, false, none, some, List, ◌++◌, length,
  length-append, Option-cases, inl, inr,
}
use kraph_core.Prelude.Int.{pos}
use kraph_core.Prelude.Bytes.{Bytes, eq_bytes, eq_bytes_refl}
use kraph_core.Node.Paths.{Str}
use kraph_core.Node.Replication.{Crypto, write_file, rows_of, find_segment}
use kraph_core.Node.Replication.Chain.{
  IsChain, IsLinked, Describes, IsLinked-write_file, insert_segment-IsChain, IsChain-write_file,
  find_segment-insert_segment, insert_segment-IsLinked, rows_of-insert_segment, next_index_lem,
}
use kraph_core.Node.Replication.Primary.{
  Progress, Fetched, not_copied, not_read, not_written, copied, archive_file, store_segment,
  segment_row, associated_data,
}

-- The nonce that the random generator gave has its 12 bytes.
abbrev pub HasNonce : Fetched → Type 0
HasNonce not_copied = Unit
HasNonce not_read = Unit
HasNonce (not_written plaintext nonce left) = Unit
HasNonce (copied plaintext nonce) = length nonce ≡ 12

-- The variables of the loop stand at the end of the instance's chain.
abbrev pub InStep : Crypto → Str → Progress → Type 0
InStep c id p =
    IsLinked c p.primary.encrypted p.primary.wal_segments
    × IsChain c p.primary.encrypted id (rows_of id p.primary.wal_segments) p.prev_hash_bytes
    × (p.next_chain_index ≡ pos (length (rows_of id p.primary.wal_segments)))

abbrev pub IsNew : Str → Str → Progress → Type 0
IsNew id name p = find_segment id name p.primary.wal_segments ≡ none

module _ (c : Crypto) (key : Bytes) (id : Str) (replicas : List Str) where
  store_segment-InStep :
      (name on_disk : Bytes) (p : Progress)
      → IsNew id name p
      → 28 ≤ length on_disk
      → length (rows_of id p.primary.wal_segments) < 2 ^ 63 - 1
      → InStep c id p
      → InStep c id (store_segment c id replicas name on_disk p)
  store_segment-InStep name on_disk p fresh long few (linked, chain, index) =
      let row = segment_row c id name p on_disk in
      let segments = p.primary.wal_segments in
      let files = write_file p.primary.encrypted id name on_disk in
      let there : files id name ≡ some on_disk = rw (eq_bytes_refl id, eq_bytes_refl name) refl in
      let linked' =
        IsLinked-write_file c p.primary.encrypted segments id name on_disk fresh linked in
      let chain' =
        IsChain-write_file c p.primary.encrypted segments id name on_disk p.prev_hash_bytes fresh
          chain in
      let fits : Describes c row p.prev_hash_bytes on_disk (length (rows_of id segments)) =
        (refl, refl, refl, index, long) in
      (
        insert_segment-IsLinked c files segments row p.prev_hash_bytes on_disk fresh there chain'
            fits linked',
        insert_segment-IsChain c files segments row p.prev_hash_bytes on_disk fresh there chain'
            fits,
        rw (rows_of-insert_segment row segments fresh)
            (rw index (next_index_lem (length (rows_of id segments)) few)),
      )

  -- What a turn of the loop on a new name keeps for the others.
  abbrev pub Keeps : (name : Str) → (p q : Progress) → Type 0
  Keeps name p q =
      ((n : Str) → eq_bytes n name ≡ false → IsNew id n p → IsNew id n q)
      × (length (rows_of id q.primary.wal_segments)
          ≤ suc (length (rows_of id p.primary.wal_segments)))

  abbrev pub EndsWell : (name : Str) → Progress → Bool × Progress → Type 0
  EndsWell name p (goes_on, q) =
      IsLinked c q.primary.encrypted q.primary.wal_segments
      × (goes_on ≡ true → InStep c id q × Keeps name p q)

  pub archive_file-EndsWell :
      (name : Str) (fetched : Fetched) (p : Progress)
      → IsNew id name p
      → HasNonce fetched
      → length (rows_of id p.primary.wal_segments) < 2 ^ 63 - 1
      → InStep c id p
      → EndsWell name p (archive_file c key id replicas name fetched p)
  unfolding archive_file
  archive_file-EndsWell name not_copied p fresh nonces few step =
      (step.0, λ h. (step, ((λ n other new. new), omega arith)))
  archive_file-EndsWell name not_read p fresh nonces few step = (step.0, λ h. absurd (cc))
  archive_file-EndsWell name (not_written plaintext nonce left) p fresh nonces few step =
      elim (Option-cases
        (c.encrypt key nonce (associated_data c id name p.next_chain_index) plaintext)) [
          | inl failed ↦ rw failed (step.0, λ h. absurd (cc))
          | inr (sealed, at) ↦ rw at (
            IsLinked-write_file c p.primary.encrypted p.primary.wal_segments id name left fresh
                step.0,
            λ h. absurd (cc),
          )
        ]
  archive_file-EndsWell name (copied plaintext nonce) p fresh nonces few step =
      let aad = associated_data c id name p.next_chain_index in
      elim (Option-cases (c.encrypt key nonce aad plaintext)) [
        | inl failed ↦ rw failed (step.0, λ h. absurd (cc))
        | inr (sealed, at) ↦
            let row = segment_row c id name p (nonce ++ sealed) in
            let long : 28 ≤ length (nonce ++ sealed) = omega (
              arith,
              length-append nonce sealed,
              c.encrypt-tag key nonce aad plaintext at,
              nonces,
            ) in
            let next = store_segment-InStep name (nonce ++ sealed) p fresh long few step in
            rw at (
              next.0,
              λ h. (
                next,
                (
                  (λ n other new.
                      find_segment-insert_segment row id n p.primary.wal_segments other new),
                  rw (rows_of-insert_segment row p.primary.wal_segments fresh) (omega arith),
                ),
              ),
            )
      ]
