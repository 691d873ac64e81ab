-- ===== src/Node/Replication/Primary/Chained.antt =====
-- The rows and the blobs that the archiving of node-rs/src/replication.rs leaves are a chain.
use kraph_core.Prelude.{
  ◌+◌, ◌^◌, ◌<◌, ◌≡◌, refl, sym, arith, false, Option, none, List, [], ◌∷◌, length, ◌==◌, All,
  Bool-cases, Option-cases, inl, inr,
}
use kraph_core.Prelude.Int.{pos}
use kraph_core.Prelude.Bytes.{Bytes, eq_bytes}
use kraph_core.Node.Paths.{Str}
use kraph_core.Node.Replication.{Crypto, Segment, Files, rows_of, latest, highest, find_segment}
use kraph_core.Node.Replication.Chain.{
  IsChain, IsLinked, highest-IsChain, first_of, latest-IsChain, next_index_lem,
}
use kraph_core.Node.Replication.Primary.{
  Primary, Progress, Fetched, retain_valid, start_from, latest_hash, index_after, archive_file,
  archive_files, is_processed, processed_names, process_instance_wal,
}
use kraph_core.Node.Replication.Primary.Listed.{IsDistinct, retain-IsDistinct}
use kraph_core.Node.Replication.Primary.Steps.{HasNonce, InStep, IsNew, archive_file-EndsWell}

-- The names that the loop has before it and does not skip.
abbrev Awaits : Str → (processed : List Str) → Progress → List Str → Type 0
Awaits id processed p names = All (λ n. is_processed n processed ≡ false → IsNew id n p) names

keep_waiting :
    (id : Str) (processed : List Str) (name : Str) (p q : Progress) (names : List Str)
    → ((n : Str) → eq_bytes n name ≡ false → IsNew id n p → IsNew id n q)
    → All (λ m. eq_bytes m name ≡ false) names
    → Awaits id processed p names
    → Awaits id processed q names
keep_waiting id processed name p q [] keeps apart waits = tt
keep_waiting id processed name p q (n ∷ names) keeps (other, apart) (here, waits) = (
  (λ todo. keeps n other (here todo)),
  keep_waiting id processed name p q names keeps apart waits,
)

module _ (c : Crypto) (key : Bytes) (id : Str) (replicas processed : List Str)
    (fetch : Str → Fetched) (nonces : (n : Str) → HasNonce (fetch n)) where
  archive_files-IsLinked :
      (names : List Str) (p : Progress)
      → IsDistinct names
      → Awaits id processed p names
      → length (rows_of id p.primary.wal_segments) + length names < 2 ^ 63
      → InStep c id p
      → let q = (archive_files c key id replicas processed fetch names p).1.primary in
        IsLinked c q.encrypted q.wal_segments
  unfolding archive_files
  archive_files-IsLinked [] p distinct waits few step = step.0
  archive_files-IsLinked (name ∷ names) p (apart, distinct) (here, waits) few step =
      elim (Bool-cases (is_processed name processed)) [
        | inl done ↦ rw done (archive_files-IsLinked names p distinct waits (omega arith) step)
        | inr todo ↦
            let ends =
              archive_file-EndsWell c key id replicas name (fetch name) p (here todo) (nonces name)
                (omega arith) step in
            let next = (archive_file c key id replicas name (fetch name) p).1 in
            elim (Bool-cases (archive_file c key id replicas name (fetch name) p).0) [
              | inl goes_on ↦
                  let (step', (keeps, count)) = ends.1 goes_on in
                  let waits' = keep_waiting id processed name p next names keeps apart waits in
                  rw (todo, goes_on)
                    (archive_files-IsLinked names next distinct waits' (omega arith) step')
              | inr stops ↦ rw (todo, stops) ends.0
            ]
      ]

processed_IsNew :
    (id name : Str) (rows : List Segment)
    → is_processed name (processed_names id rows) ≡ false
    → find_segment id name rows ≡ none
processed_IsNew id name [] h = refl
processed_IsNew id name (s ∷ rows) h = elim (Bool-cases (eq_bytes s.instance_id id)) [
  | inl same ↦ elim (Bool-cases (eq_bytes s.segment_name name)) [
    | inl found ↦ absurd (cc (rw (same, found) at h))
    | inr other ↦ rw (same, other) (processed_IsNew id name rows (rw (same, other) at h))
  ]
  | inr other ↦ rw other (processed_IsNew id name rows (rw other at h))
]

waits_at_start :
    (id : Str) (p : Progress) (names : List Str)
    → Awaits id (processed_names id p.primary.wal_segments) p names
waits_at_start id p [] = tt
waits_at_start id p (n ∷ names) =
    ((λ todo. processed_IsNew id n p.primary.wal_segments todo), waits_at_start id p names)

first_is_last :
    (c : Crypto) (files : Files) (id : Str) (rows : List Segment) (tip : Option Bytes)
    → IsChain c files id rows tip
    → length rows < 2 ^ 63
    → (latest_hash c (first_of rows) ≡ tip) × (index_after (first_of rows) ≡ pos (length rows))
first_is_last c files id [] tip chain few = (sym chain, refl)
first_is_last c files id (s ∷ rows) tip chain few =
    let (prev, body, at, q, (h, p, z, i, w), rest) = chain in
    (
      (latest-IsChain c files id rows s tip chain).0,
      rw i (next_index_lem (length rows) (omega arith)),
    )

start_from-InStep :
    (c : Crypto) (id : Str) (db : Primary)
    → length (rows_of id db.wal_segments) < 2 ^ 63
    → IsLinked c db.encrypted db.wal_segments
    → InStep c id (start_from c (highest (rows_of id db.wal_segments)) db)
start_from-InStep c id db few linked =
    let (tip, chain) = linked id in
    let top = highest-IsChain c db.encrypted id (rows_of id db.wal_segments) tip chain in
    let (tip_is, index) =
      first_is_last c db.encrypted id (rows_of id db.wal_segments) tip chain few in
    rw top (linked, rw tip_is chain, index)

-- A pass over the WAL files of an instance leaves the rows and the blobs of every instance a chain:
-- the rows count up from 0, and each holds the hash of the blob under its name, chained to the hash
-- of the row before. It does so wherever the pass ends, on an error of Docker, of the encryption or
-- of the file system too, where it held before, the names that `ls` lists differ, a nonce has its
-- 12 bytes, and the indexes stay below 2^63.
pub process_instance_wal-IsLinked :
    (c : Crypto) (id key : Str) (replicas : List Str) (fetch : Str → Fetched) (listed : List Str)
    (db : Primary)
    → IsDistinct listed
    → ((n : Str) → HasNonce (fetch n))
    → length (rows_of id db.wal_segments) + length listed < 2 ^ 63
    → IsLinked c db.encrypted db.wal_segments
    → let q = (process_instance_wal c id key replicas fetch listed db).1 in
      IsLinked c q.encrypted q.wal_segments
unfolding process_instance_wal latest
process_instance_wal-IsLinked c id key replicas fetch listed db distinct nonces few linked =
    elim (Option-cases (retain_valid listed)) [
      | inl panics ↦ rw panics linked
      | inr (names, valid) ↦ elim (Option-cases (c.unhex key)) [
        | inl bad ↦ rw (valid, bad) linked
        | inr (bytes, good) ↦
            let (distinct', fewer) = retain-IsDistinct listed names valid distinct in
            let rows = rows_of id db.wal_segments in
            let start = start_from c (highest rows) db in
            let waits = waits_at_start id start names in
            let step = start_from-InStep c id db (omega arith) linked in
            let linked' =
              archive_files-IsLinked c bytes id replicas (processed_names id db.wal_segments) fetch
                nonces names start distinct' waits (omega arith) step in
            elim (Bool-cases (length bytes == 32)) [
              | inl right ↦ rw (valid, good, right) linked'
              | inr wrong ↦ rw (valid, good, wrong) linked
            ]
      ]
    ]
