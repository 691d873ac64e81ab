-- ===== src/Node/Replication/Primary.antt =====
-- The archiving of WAL segments on the primary: `process_instance_wal` of
-- node-rs/src/replication.rs. `listed` is what `ls` printed: trimmed, without empty lines and names
-- that end in ".tmp", and sorted. What Docker, the file system and the random generator do for a
-- name is an argument; the directories are taken to be created.
use kraph_core.Prelude.{
  ℕ, ◌+◌, Bool, true, false, not, ◌&&◌, ◌||◌, Option, none, some, List, [], ◌∷◌, ◌++◌, ◌==◌, ltb,
  any, all, length, map, if◌then◌else◌,
}
use kraph_core.Prelude.Int.{ℤ, pos}
use kraph_core.Prelude.Bytes.{Bytes, eq_bytes}
use kraph_core.Node.Paths.{Str, byte_len, split_at, is_upper_hex, history, without_suffix, partial}
use kraph_core.Node.Replication.{
  Crypto, Segment, Files, write_file, rows_of, latest, insert_segment, next_index, chain_hash,
  previous_hex,
}
use kraph_core.Node.Replication.Queue.{Queue, enqueue_replica_shipment}
pub mod Chained
pub mod Listed
pub mod Names
pub mod Steps

-- `is_valid_wal_name`, or a panic of `split_at`.
abbrev pub is_valid_tail : Str → Bool
is_valid_tail tail =
    let mid = without_suffix partial tail in
    eq_bytes tail history || byte_len mid == 16 && all is_upper_hex mid

abbrev pub is_valid_split : Option (Str × Str) → Option Bool
is_valid_split none = none
is_valid_split (some (head, tail)) = some (all is_upper_hex head && is_valid_tail tail)

unfoldable pub is_valid_wal_name : Str → Option Bool
is_valid_wal_name name =
    if ltb (byte_len name) 9 || ltb 32 (byte_len name)
    then some false
    else is_valid_split (split_at name 8)

-- `Vec::retain`, which panics where its test does.
abbrev pub keep_valid : Str → Option Bool → Option (List Str) → Option (List Str)
keep_valid name none rest = none
keep_valid name (some valid) none = none
keep_valid name (some valid) (some names) = some (if valid then name ∷ names else names)

abbrev pub retain_valid : List Str → Option (List Str)
retain_valid [] = some []
retain_valid (name ∷ names) =
    let rest = retain_valid names in keep_valid name (is_valid_wal_name name) rest

pub record Primary : Type 0 where
  pub wal_segments : List Segment
  pub encrypted : Files
  pub queue : Queue

-- What the environment does with a file: `docker cp` exits with an error, the file is not fetched
-- or not read, the blob is not written and `left` is at its place, or all of it works.
pub data Fetched : Type 0 where
  not_copied not_read : Fetched
  not_written : (plaintext nonce left : Bytes) → Fetched
  copied : (plaintext nonce : Bytes) → Fetched

-- The variables of the loop, with the database and the files.
pub record Progress : Type 0 where
  pub prev_hash_bytes : Option Bytes
  pub next_chain_index : ℤ
  pub primary : Primary

pub data Ended : Type 0 where
  completed failed panicked : Ended

-- `{instance_id}|{wal_file}|{next_chain_index}`
abbrev pub associated_data : Crypto → (instance_id wal_file : Str) → ℤ → Bytes
associated_data c id name index = c.utf8 id ++ 124 ∷ c.utf8 name ++ 124 ∷ c.utf8 (c.print_i64 index)

-- A shipment for every replica.
abbrev pub enqueue_all : (instance_id wal_file : Str) → List Str → Queue → Queue
enqueue_all id name [] q = q
enqueue_all id name (endpoint ∷ rest) q =
    enqueue_all id name rest (enqueue_replica_shipment id endpoint name q)

-- The row of a blob.
abbrev pub segment_row : Crypto → (instance_id wal_file : Str) → Progress → Bytes → Segment
segment_row c id name p on_disk = record {
  instance_id = id;
  segment_name = name;
  hash = c.hex (chain_hash c p.prev_hash_bytes on_disk);
  previous_hash = previous_hex c p.prev_hash_bytes;
  size = length on_disk;
  chain_index = p.next_chain_index;
}

abbrev pub with_blob : (instance_id wal_file : Str) → Bytes → Progress → Progress
with_blob id name body p = record {
  prev_hash_bytes = p.prev_hash_bytes;
  next_chain_index = p.next_chain_index;
  primary = record {
    wal_segments = p.primary.wal_segments;
    encrypted = write_file p.primary.encrypted id name body;
    queue = p.primary.queue;
  };
}

-- The blob is written, its row inserted, its shipments enqueued, and the chain goes on from it.
abbrev pub store_segment :
    Crypto
    → (instance_id : Str) → (replicas : List Str) → (wal_file : Str) → Bytes
    → Progress
    → Progress
store_segment c id replicas name on_disk p = record {
  prev_hash_bytes = some (chain_hash c p.prev_hash_bytes on_disk);
  next_chain_index = next_index p.next_chain_index;
  primary = record {
    wal_segments = insert_segment (segment_row c id name p on_disk) p.primary.wal_segments;
    encrypted = write_file p.primary.encrypted id name on_disk;
    queue = enqueue_all id name replicas p.primary.queue;
  };
}

-- After the encryption: an error ends the loop.
abbrev pub after_encrypt :
    Crypto
    → (instance_id : Str) (replicas : List Str) (wal_file : Str) (nonce : Bytes)
      (lost : Option Bytes)
    → Option Bytes
    → Progress
    → Bool × Progress
after_encrypt c id replicas name nonce lost none p = (false, p)
after_encrypt c id replicas name nonce (some left) (some sealed) p =
    (false, with_blob id name left p)
after_encrypt c id replicas name nonce none (some sealed) p =
    (true, store_segment c id replicas name (nonce ++ sealed) p)

-- One turn of the loop, on a file that is not processed: whether the loop goes on.
unfoldable pub archive_file :
    Crypto
    → (key : Bytes) (instance_id : Str) (replicas : List Str) (wal_file : Str) → Fetched
    → Progress
    → Bool × Progress
archive_file c key id replicas name not_copied p = (true, p)
archive_file c key id replicas name not_read p = (false, p)
archive_file c key id replicas name (not_written plaintext nonce left) p =
    let sealed = c.encrypt key nonce (associated_data c id name p.next_chain_index) plaintext in
    after_encrypt c id replicas name nonce (some left) sealed p
archive_file c key id replicas name (copied plaintext nonce) p =
    let sealed = c.encrypt key nonce (associated_data c id name p.next_chain_index) plaintext in
    after_encrypt c id replicas name nonce none sealed p

abbrev pub is_processed : Str → List Str → Bool
is_processed name processed = any (λ n. eq_bytes n name) processed

-- The loop.
unfoldable pub archive_files :
    Crypto
    → (key : Bytes) (instance_id : Str) (replicas processed : List Str) (fetch : Str → Fetched)
    → List Str
    → Progress
    → Ended × Progress
archive_files c key id replicas processed fetch [] p = (completed, p)
archive_files c key id replicas processed fetch (name ∷ names) p =
    let (goes_on, next) =
      if is_processed name processed
      then (true, p)
      else archive_file c key id replicas name (fetch name) p in
    let rest = archive_files c key id replicas processed fetch names next in
    if goes_on then rest else (failed, next)

-- `get_processed_wal_segments`
abbrev pub processed_names : Str → List Segment → List Str
processed_names id rows = map (λ s. s.segment_name) (rows_of id rows)

-- The start of a pass: `get_latest_wal_hash` decoded, and `get_latest_wal_chain_index` plus one.
abbrev pub latest_hash : Crypto → Option Segment → Option Bytes
latest_hash c none = none
latest_hash c (some s) = c.unhex s.hash

abbrev pub index_after : Option Segment → ℤ
index_after none = pos 0
index_after (some s) = next_index s.chain_index

abbrev pub start_from : Crypto → Option Segment → Primary → Progress
start_from c last db = record {
  prev_hash_bytes = latest_hash c last;
  next_chain_index = index_after last;
  primary = db;
}

abbrev pub with_key :
    Crypto
    → (instance_id : Str) (replicas : List Str) (fetch : Str → Fetched) (names : List Str)
    → Option Bytes
    → Primary
    → Ended × Primary
with_key c id replicas fetch names none db = (failed, db)
with_key c id replicas fetch names (some key) db =
    let processed = processed_names id db.wal_segments in
    let start = start_from c (latest id db.wal_segments) db in
    let (ended, p) = archive_files c key id replicas processed fetch names start in
    if length key == 32 then (ended, p.primary) else (failed, db)

abbrev pub with_names :
    Crypto
    → (instance_id wal_encryption_key : Str) (replicas : List Str) (fetch : Str → Fetched)
    → Option (List Str)
    → Primary
    → Ended × Primary
with_names c id key replicas fetch none db = (panicked, db)
with_names c id key replicas fetch (some names) db =
    with_key c id replicas fetch names (c.unhex key) db

unfoldable pub process_instance_wal :
    Crypto
    → (instance_id wal_encryption_key : Str) (replicas : List Str) (fetch : Str → Fetched)
    → (listed : List Str) → Primary
    → Ended × Primary
process_instance_wal c id key replicas fetch listed db =
    with_names c id key replicas fetch (retain_valid listed) db
