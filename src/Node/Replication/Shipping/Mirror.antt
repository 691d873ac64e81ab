-- ===== src/Node/Replication/Shipping/Mirror.antt =====
-- A replica of node-rs/src/replication.rs against the primary whose segments it receives.
use kraph_core.Prelude.{
  ℕ, suc, ◌+◌, ◌^◌, ◌<◌, ◌≡◌, ◌≢◌, refl, arith, true, false, Option, none, some, List, [], ◌∷◌, ltb,
  length,
}
use kraph_core.Prelude.Int.{pos}
use kraph_core.Prelude.Bytes.{Bytes, eq_bytes_refl}
use kraph_core.Node.Paths.{
  Str, accepted, validate_instance_id_component, validate_segment_name, check_component,
}
use kraph_core.Node.Replication.{
  Result, ok, ◌>>◌, Crypto, Segment, Files, write_file, rows_of, latest, find_segment,
  insert_segment, chain_hash, previous_hex, nonce_len, invalid_instance_id, invalid_segment_name,
}
use kraph_core.Node.Replication.Signing.{
  verify_replication_sig, verify_replication_sig-IsAuthentic, signed_message, build_replication_sig,
}
use kraph_core.Node.Replication.Queue.{Shipment}
use kraph_core.Node.Replication.Chain.{
  IsChain, Describes, first_of, highest-IsChain, latest-IsChain, next_index_lem,
}
use kraph_core.Node.Replication.Replica.{
  Replica, Host, Post, written, receive_segment, check_segment, check_hash, check_link,
  require_accepted, decode_previous, decoded, segment_file, eq_ℤ, store_post, row_of,
}
use kraph_core.Node.Replication.Shipping.{post_for, sign}

-- The replica knows the primary's secret, and where there is none it requires no signature.
abbrev pub SharesSecret : (secret : Option Bytes) → Host → Type 0
SharesSecret none host = (host.hmac_secret ≡ none) × (host.require_hmac ≡ false)
SharesSecret (some secret) host = host.hmac_secret ≡ some secret

-- A host that stores what passes its checks, and names that pass them.
abbrev pub IsReady : (secret : Option Bytes) → Host → (instance_id segment_name : Str) → Type 0
IsReady secret host id name =
    SharesSecret secret host
    × (host.disk ≡ written)
    × (validate_instance_id_component id ≡ accepted)
    × (validate_segment_name name ≡ accepted)
    × (check_component host.is_normal (segment_file name) ≡ accepted)

>>-ok :
    {first second : Result (Unit {0})} → first ≡ ok tt → second ≡ ok tt → first >> second ≡ ok tt
>>-ok a b = rw a b

decode_nonempty : (c : Crypto) (x : Str) → x ≢ [] → decode_previous c x ≡ decoded (c.unhex x)
decode_nonempty c [] h = absurd (h refl)
decode_nonempty c (d ∷ ds) h = refl

-- The previous hash that is sent is read back.
decode_previous_lem :
    (c : Crypto) (files : Files) (id : Str) (rows : List Segment) (tip : Option Bytes)
    → IsChain c files id rows tip
    → decode_previous c (previous_hex c tip) ≡ ok tip
decode_previous_lem c files id [] tip chain = rw chain refl
decode_previous_lem c files id (t ∷ rows) tip chain =
    let (back, hex, full) = latest-IsChain c files id rows t tip chain in
    let (prev, body, at, q, described, rest) = chain in
    rw (hex, decode_nonempty c t.hash full) (rw back (rw q refl))

authentic :
    (c : Crypto) (secret : Option Bytes) (host : Host) (shipment : Shipment) (s : Segment)
    → SharesSecret secret host
    → verify_replication_sig c host.require_hmac host.hmac_secret
        (sign c secret shipment.instance_id shipment.segment_name s)
        shipment.instance_id
        shipment.segment_name
        s.hash
        s.previous_hash
        s.chain_index
      ≡ ok tt
unfolding build_replication_sig
authentic c none host shipment s (no_secret, lax) =
    (verify_replication_sig-IsAuthentic c host.require_hmac host.hmac_secret none
        shipment.instance_id shipment.segment_name s.hash s.previous_hash s.chain_index).1
      (rw no_secret lax)
authentic c (some secret) host shipment s same =
    let sig = sign c (some secret) shipment.instance_id shipment.segment_name s in
    let message =
      signed_message c shipment.instance_id shipment.segment_name s.hash s.previous_hash
        s.chain_index in
    let mac = c.hmac secret message in
    (verify_replication_sig-IsAuthentic c host.require_hmac host.hmac_secret sig
        shipment.instance_id shipment.segment_name s.hash s.previous_hash s.chain_index).1
      (rw (same, c.trim-hex mac) (c.unhex-hex mac))

-- The segment of a row, as it is posted, passes the checks of the segment by itself.
check_segment-ok :
    (c : Crypto) (secret : Option Bytes) (host : Host) (shipment : Shipment) (s : Segment)
    (body : Bytes) (prev : Option Bytes) (index : ℕ)
    → IsReady secret host shipment.instance_id shipment.segment_name
    → Describes c s prev body index
    → decode_previous c (previous_hex c prev) ≡ ok prev
    → check_segment c host (post_for c secret shipment s body) ≡ ok tt
check_segment-ok c secret host shipment s body prev index (shares, disk, id, name, file)
      (h, p, z, i, w) back =
    let long : ltb (length body) (nonce_len + 16) ≡ false = ground arith in
    let hashed : check_hash c (post_for c secret shipment s body) ≡ ok tt =
      rw (p, back) (rw h (rw (eq_bytes_refl (c.hex (chain_hash c prev body))) refl)) in
    let a : require_accepted (validate_instance_id_component shipment.instance_id)
          invalid_instance_id
        ≡ ok tt =
      rw id refl in
    let b : require_accepted (validate_segment_name shipment.segment_name) invalid_segment_name
        ≡ ok tt =
      rw name refl in
    >>-ok a
      (>>-ok b (>>-ok (authentic c secret host shipment s shares) (>>-ok (rw long refl) hashed)))

eq_ℤ_refl : (n : ℕ) → eq_ℤ (pos n) (pos n) ≡ true
eq_ℤ_refl n = ground arith

-- The row that follows the rows held links to the last of them.
check_link-ok :
    (c : Crypto) (files : Files) (id : Str) (held : List Segment) (prev : Option Bytes)
    (s : Segment) (body : Bytes) (post : Post)
    → IsChain c files id held prev
    → Describes c s prev body (length held)
    → length held < 2 ^ 63
    → (post.previous_hash ≡ s.previous_hash)
    → (post.chain_index ≡ s.chain_index)
    → check_link (first_of held) post ≡ ok tt
check_link-ok c files id [] prev s body post chain d few same_hash same_index = refl
check_link-ok c files id (t ∷ rows) prev s body post chain (h, p, z, i, w) few same_hash
      same_index =
    let (prev', body', at', q', (h', p', z', i', w'), rest) = chain in
    let hex = (latest-IsChain c files id rows t prev chain).1 in
    let hash : post.previous_hash ≡ t.hash = cc in
    let index : post.chain_index ≡ pos (suc (length rows)) = cc in
    rw (hash, eq_bytes_refl t.hash)
      (rw (index, i', next_index_lem (length rows) (omega arith), eq_ℤ_refl (suc (length rows)))
        refl)

store_post-ok :
    (host : Host) (post : Post) (r : Replica)
    → host.disk ≡ written
    → check_component host.is_normal (segment_file post.segment_name) ≡ accepted
    → find_segment post.instance_id post.segment_name r.replica_segments ≡ none
    → store_post host post (ok tt) r ≡ (
      ok (row_of post),
      record {
        replica_segments = row_of post ∷ r.replica_segments;
        stored = write_file r.stored post.instance_id post.segment_name post.body;
      },
    )
unfolding insert_segment
store_post-ok host post r disk file fresh = rw (disk, file) (rw fresh refl)

-- A replica whose rows of the instance are a chain with the primary's last hash, and that has no row
-- of the name, accepts the next segment of the chain from the primary, stores its blob and adds its
-- row, if it shares the primary's secret, its disk works and the names pass its checks.
pub receive_segment_next :
    (c : Crypto) (secret : Option Bytes) (host : Host) (shipment : Shipment) (s : Segment)
    (body : Bytes) (prev : Option Bytes) (r : Replica)
    → let held = rows_of shipment.instance_id r.replica_segments in
      IsReady secret host shipment.instance_id shipment.segment_name
      → IsChain c r.stored shipment.instance_id held prev
      → Describes c s prev body (length held)
      → length held < 2 ^ 63
      → find_segment shipment.instance_id shipment.segment_name r.replica_segments ≡ none
      → let post = post_for c secret shipment s body in
        receive_segment c host post r ≡ (
          ok (row_of post),
          record {
            replica_segments = row_of post ∷ r.replica_segments;
            stored = write_file r.stored shipment.instance_id shipment.segment_name body;
          },
        )
unfolding receive_segment latest
receive_segment_next c secret host shipment s body prev r ready chain described few fresh =
    let (shares, disk, id, name, file) = ready in
    let post = post_for c secret shipment s body in
    let held = rows_of shipment.instance_id r.replica_segments in
    let back = decode_previous_lem c r.stored shipment.instance_id held prev chain in
    let alone =
      check_segment-ok c secret host shipment s body prev (length held) ready described back in
    let link =
      check_link-ok c r.stored shipment.instance_id held prev s body post chain described few refl
        refl in
    rw (highest-IsChain c r.stored shipment.instance_id held prev chain)
      (rw (>>-ok alone link) (store_post-ok host post r disk file fresh))
