-- ===== src/Node/Replication/Replica.antt =====
-- What a replica does with a posted segment: `receive_segment` of node-rs/src/replication.rs.
use kraph_core.Prelude.{
  ℕ, ◌+◌, Bool, true, false, not, ◌&&◌, Option, none, some, List, [], ◌∷◌, ◌++◌, ltb, length,
  if◌then◌else◌,
}
use kraph_core.Prelude.Int.{ℤ, leb_ℤ}
use kraph_core.Prelude.Bytes.{Bytes, eq_bytes}
use kraph_core.Node.Paths.{
  Str, Verdict, accepted, panicked, validate_instance_id_component, validate_segment_name,
  check_component,
}
use kraph_core.Node.Replication.{
  ReplicationError, Result, ok, err, ◌>>=◌, ◌>>◌, ensure, Crypto, Segment, Files, write_file,
  latest, insert_segment, next_index, chain_hash, nonce_len, invalid_instance_id,
  invalid_segment_name, path_escape, body_too_small, previous_not_hex, hash_mismatch, chain_break,
  index_gap, io, panic,
}
use kraph_core.Node.Replication.Signing.{verify_replication_sig}
pub mod Link
pub mod Gaps
pub mod Calls
pub mod Serial

pub record Replica : Type 0 where
  pub replica_segments : List Segment
  pub stored : Files

-- What the file system does: no directory is made, the blob is written, or it is not and `left` is
-- at its place.
pub data Disk : Type 0 where
  no_directory : Disk
  written : Disk
  not_written : (left : Bytes) → Disk

-- The replica's settings and surroundings.
pub record Host : Type 0 where
  pub require_hmac : Bool
  pub hmac_secret : Option Bytes
  pub is_normal : Str → Bool
  pub disk : Disk

-- The headers and the body of a POST.
pub record Post : Type 0 where
  pub instance_id : Str
  pub segment_name : Str
  pub segment_hash : Str
  pub previous_hash : Str
  pub chain_index : ℤ
  pub replication_sig : Option Str
  pub body : Bytes

abbrev pub require_accepted : Verdict → ReplicationError → Result (Unit {0})
require_accepted accepted why = ok tt
require_accepted panicked why = err panic
require_accepted _ why = err why

abbrev pub decoded : Option Bytes → Result (Option Bytes)
decoded none = err previous_not_hex
decoded (some bytes) = ok (some bytes)

abbrev pub decode_previous : Crypto → Str → Result (Option Bytes)
decode_previous c [] = ok none
decode_previous c (digit ∷ digits) = decoded (c.unhex (digit ∷ digits))

-- `chain_hash != provided_hash`
abbrev pub check_hash : Crypto → Post → Result (Unit {0})
check_hash c post = do
  prev ← decode_previous c post.previous_hash
  ensure (eq_bytes (c.hex (chain_hash c prev post.body)) post.segment_hash) hash_mismatch

abbrev pub eq_ℤ : ℤ → ℤ → Bool
eq_ℤ a b = leb_ℤ a b && leb_ℤ b a

-- The match on `latest_replica_hash`.
abbrev pub check_link : Option Segment → Post → Result (Unit {0})
check_link none post = ok tt
check_link (some s) post = do
  ensure (eq_bytes post.previous_hash s.hash) chain_break
  ensure (eq_ℤ post.chain_index (next_index s.chain_index)) index_gap

-- The checks of the segment by itself.
abbrev pub check_segment : Crypto → Host → Post → Result (Unit {0})
check_segment c host post = do
  require_accepted (validate_instance_id_component post.instance_id) invalid_instance_id
  require_accepted (validate_segment_name post.segment_name) invalid_segment_name
  verify_replication_sig c host.require_hmac host.hmac_secret post.replication_sig post.instance_id
      post.segment_name post.segment_hash post.previous_hash post.chain_index
  ensure (not (ltb (length post.body) (nonce_len + 16))) body_too_small
  check_hash c post

-- The checks before anything is stored.
abbrev pub check_post : Crypto → Host → Post → (last : Option Segment) → Result (Unit {0})
check_post c host post last = check_segment c host post >> check_link last post

-- `{segment_name}.enc`
abbrev pub segment_file : Str → Str
segment_file name = name ++ 46 ∷ 101 ∷ 110 ∷ 99 ∷ []

abbrev pub row_of : Post → Segment
row_of post = record {
  instance_id = post.instance_id;
  segment_name = post.segment_name;
  hash = post.segment_hash;
  previous_hash = post.previous_hash;
  size = length post.body;
  chain_index = post.chain_index;
}

abbrev pub put_blob : Post → Bytes → Replica → Replica
put_blob post body r = record {
  replica_segments = r.replica_segments;
  stored = write_file r.stored post.instance_id post.segment_name body;
}

abbrev pub write_segment : Post → Disk → Replica → Result Segment × Replica
write_segment post no_directory r = (err io, r)
write_segment post (not_written left) r = (err io, put_blob post left r)
write_segment post written r = (
  ok (row_of post),
  record {
    replica_segments = insert_segment (row_of post) r.replica_segments;
    stored = write_file r.stored post.instance_id post.segment_name post.body;
  },
)

-- `create_dir_all`, `safe_join_under`, `fs::write` and the row.
abbrev pub join_and_write : Post → Disk → Result (Unit {0}) → Replica → Result Segment × Replica
join_and_write post no_directory joined r = (err io, r)
join_and_write post disk (err why) r = (err why, r)
join_and_write post disk (ok done) r = write_segment post disk r

abbrev pub store_post : Host → Post → Result (Unit {0}) → Replica → Result Segment × Replica
store_post host post (err why) r = (err why, r)
store_post host post (ok done) r =
    let joined =
      require_accepted (check_component host.is_normal (segment_file post.segment_name))
        path_escape in
    join_and_write post host.disk joined r

-- A call that no other one interrupts; Calls has those that run at the same time.
unfoldable pub receive_segment : Crypto → Host → Post → Replica → Result Segment × Replica
receive_segment c host post r =
    store_post host post (check_post c host post (latest post.instance_id r.replica_segments)) r

abbrev pub is_success : Result Segment → Bool
is_success (ok s) = true
is_success (err why) = false
