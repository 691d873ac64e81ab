-- ===== src/Node/Replication.antt =====
-- The replication of encrypted WAL segments between nodes (node-rs/src/replication.rs), with the
-- tables that it keeps (node-rs/src/db/mod.rs and node-rs/src/db/schema.rs). A string is the list of
-- its code points. SHA-256, HMAC, the cipher, hexadecimal and the printing of numbers are
-- parameters, and so is what the file system, Docker and the network do at each call.
use kraph_core.Prelude.{
  ℕ, Bool, true, false, not, ◌&&◌, Option, none, some, List, [], ◌∷◌, ◌++◌, ◌≡◌, ◌≢◌, ◌≤◌, length,
  if◌then◌else◌,
}
use kraph_core.Prelude.Int.{ℤ, pos, ◌+ℤ◌, leb_ℤ, ltb_ℤ, i64_min, i64_max}
use kraph_core.Prelude.Bytes.{Bytes, eq_bytes}
use kraph_core.Node.Paths.{Str}
pub mod Signing
pub mod Queue
pub mod Chain
pub mod Primary
pub mod Replica
pub mod Shipping
mod Tests

-- The errors, by their causes, and `panic` for a panic.
pub data ReplicationError : Type 0 where
  invalid_instance_id invalid_segment_name path_escape : ReplicationError
  secret_unset sig_required sig_not_hex sig_length sig_mismatch : ReplicationError
  body_too_small previous_not_hex hash_mismatch chain_break index_gap io panic : ReplicationError

pub data Result {ℓ} (T : Type ℓ) : Type ℓ where
  ok : (value : T) → Result T
  err : (why : ReplicationError) → Result T

infixl 5 ◌>>=◌ ◌>>◌
abbrev pub ◌>>=◌ {ℓ κ} : {S : Type ℓ} {T : Type κ} → Result S → (S → Result T) → Result T
err why >>= next = err why
ok value >>= next = next value

abbrev pub ◌>>◌ {ℓ} : {T : Type ℓ} → Result (Unit {0}) → Result T → Result T
check >> next = check >>= λ done. next

-- `bail!` unless the test holds.
abbrev pub ensure : Bool → ReplicationError → Result (Unit {0})
ensure holds why = if holds then ok tt else err why

abbrev pub nonce_len : ℕ
nonce_len = 12

abbrev pub max_shipment_attempts : ℕ
max_shipment_attempts = 5

pub record Crypto : Type 0 where
  pub sha256 : Bytes → Bytes
  pub hex : Bytes → Str
  pub unhex : Str → Option Bytes
  pub hmac : (secret message : Bytes) → Bytes
  pub encrypt : (key nonce aad message : Bytes) → Option Bytes
  pub utf8 : Str → Bytes
  pub print_i64 : ℤ → Str
  pub trim : Str → Str
  -- what was encoded is decoded again
  pub unhex-hex : (b : Bytes) → unhex (hex b) ≡ some b
  pub trim-hex : (b : Bytes) → trim (hex b) ≡ hex b
  -- a hash is not empty, and no byte is encoded as nothing
  pub hex-sha256 : (b : Bytes) → hex (sha256 b) ≢ []
  -- a ciphertext holds its tag
  pub encrypt-tag :
      (key nonce aad message : Bytes) {sealed : Bytes}
      → encrypt key nonce aad message ≡ some sealed
      → 16 ≤ length sealed

-- `WalSegment`, and `ReplicaSegment`, which mirrors it. The path of the stored blob is made from the
-- instance and the name, by which `Files` is indexed.
pub record Segment : Type 0 where
  pub instance_id : Str
  pub segment_name : Str
  pub hash : Str
  pub previous_hash : Str
  pub size : ℕ
  pub chain_index : ℤ

-- The blobs below one directory, by instance and segment name.
abbrev pub Files : Type 0
Files = Str → Str → Option Bytes

abbrev pub write_file : Files → (instance_id segment_name : Str) → Bytes → Files
write_file files id name body i n =
    if eq_bytes i id && eq_bytes n name then some body else files i n

-- The rows of an instance, the last inserted first.
abbrev pub rows_of : Str → List Segment → List Segment
rows_of id [] = []
rows_of id (s ∷ rows) =
    let rest = rows_of id rows in if eq_bytes s.instance_id id then s ∷ rest else rest

-- `ORDER BY chain_index DESC LIMIT 1`
abbrev pub later : Segment → Option Segment → Segment
later s none = s
later s (some m) = if ltb_ℤ s.chain_index m.chain_index then m else s

abbrev pub highest : List Segment → Option Segment
highest [] = none
highest (s ∷ rows) = some (later s (highest rows))

unfoldable pub latest : Str → List Segment → Option Segment
latest id rows = highest (rows_of id rows)

abbrev pub find_segment : Str → Str → List Segment → Option Segment
find_segment id name [] = none
find_segment id name (s ∷ rows) =
    let rest = find_segment id name rows in
    if eq_bytes s.instance_id id && eq_bytes s.segment_name name then some s else rest

-- `INSERT OR IGNORE`, where the instance and the name are unique together.
abbrev pub insert_unless : Option Segment → Segment → List Segment → List Segment
insert_unless none s rows = s ∷ rows
insert_unless (some old) s rows = rows

unfoldable pub insert_segment : Segment → List Segment → List Segment
insert_segment s rows = insert_unless (find_segment s.instance_id s.segment_name rows) s rows

-- `i + 1` for an `i64`, which wraps in a release build.
abbrev pub next_index : ℤ → ℤ
next_index i = if ltb_ℤ i i64_max then i +ℤ pos 1 else i64_min

-- The hash of a blob in the chain: SHA-256 of the previous hash, if there is one, and the blob.
abbrev pub chain_hash : Crypto → Option Bytes → Bytes → Bytes
chain_hash c none body = c.sha256 body
chain_hash c (some prev) body = c.sha256 (prev ++ body)

-- The previous hash as it is stored and sent: the empty string at the start of a chain.
abbrev pub previous_hex : Crypto → Option Bytes → Str
previous_hex c none = []
previous_hex c (some prev) = c.hex prev
