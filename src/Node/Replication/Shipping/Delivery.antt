-- ===== src/Node/Replication/Shipping/Delivery.antt =====
-- A pass of node-rs/src/replication.rs that goes well brings a replica up to date.
use kraph_core.Prelude.{
  ℕ, ◌^◌, ◌≤◌, ◌<◌, ◌≡◌, refl, arith, true, false, Option, none, some, List, [], ◌∷◌, map, ltb, leb,
  length, All, Bool-cases, inl, inr,
}
use kraph_core.Prelude.Bytes.{Bytes, eq_bytes, eq_bytes_refl, eq_bytes_sym}
use kraph_core.Node.Paths.{Str}
use kraph_core.Node.Replication.{
  Crypto, Segment, Files, write_file, rows_of, find_segment, chain_hash, max_shipment_attempts,
}
use kraph_core.Node.Replication.Queue.{Shipment, pending, mark_shipment_shipped}
use kraph_core.Node.Replication.Chain.{IsChain, Describes, IsChain-write_file, latest-IsChain}
use kraph_core.Node.Replication.Replica.{Replica}
use kraph_core.Node.Replication.Primary.{Primary}
use kraph_core.Node.Replication.Shipping.{
  World, Weather, answered, ship_one, post_for, max_body, trim_end_slashes, with_shipments,
  set_replica, receive_replication_handler,
}
use kraph_core.Node.Replication.Shipping.Mirror.{IsReady, receive_segment_next}

-- The replica with one more segment.
abbrev pub with_segment : Segment → Bytes → Replica → Replica
with_segment s body r = record {
  replica_segments = s ∷ r.replica_segments;
  stored = write_file r.stored s.instance_id s.segment_name body;
}

-- A pending shipment of a segment.
pub record Due : Type 0 where
  pub id : ℕ
  pub attempts : ℕ
  pub endpoint : Str
  pub segment : Segment

abbrev pub shipment_of : Due → Shipment
shipment_of d = record {
  id = d.id;
  instance_id = d.segment.instance_id;
  replica_node_endpoint = d.endpoint;
  segment_name = d.segment.segment_name;
  status = pending;
  attempts = d.attempts;
}

-- The shipment is tried, to the endpoint, with its segment, and both the request and the answer
-- arrive.
abbrev pub IsFair : (secret : Option Bytes) → Weather → (endpoint : Str) → Primary → Due → Type 0
IsFair secret weather endpoint p d =
    (d.attempts < max_shipment_attempts)
    × (trim_end_slashes d.endpoint ≡ endpoint)
    × (find_segment d.segment.instance_id d.segment.segment_name p.wal_segments ≡ some d.segment)
    × (weather.fate (shipment_of d) ≡ answered)
    × IsReady secret (weather.host (shipment_of d)) d.segment.instance_id d.segment.segment_name

-- The world after a shipment that went well.
abbrev pub shipped_world : (endpoint : Str) → Due → Bytes → World → World
shipped_world endpoint d body w = record {
  primary = with_shipments (mark_shipment_shipped d.id w.primary.queue.shipments) w.primary;
  replicas = set_replica endpoint (with_segment d.segment body (w.replicas endpoint)) w.replicas;
  posted = d.id ∷ w.posted;
}

module _ (c : Crypto) (secret : Option Bytes) (weather : Weather) (endpoint : Str) where
  handler-ok :
      (d : Due) (body : Bytes) (prev : Option Bytes) (r : Replica)
      → let s = d.segment in
        IsReady secret (weather.host (shipment_of d)) s.instance_id s.segment_name
        → length body ≤ max_body
        → IsChain c r.stored s.instance_id (rows_of s.instance_id r.replica_segments) prev
        → Describes c s prev body (length (rows_of s.instance_id r.replica_segments))
        → length (rows_of s.instance_id r.replica_segments) < 2 ^ 63
        → find_segment s.instance_id s.segment_name r.replica_segments ≡ none
        → receive_replication_handler c
            (weather.host (shipment_of d))
            (post_for c secret (shipment_of d) s body)
            r
          ≡ (true, with_segment s body r)
  handler-ok d body prev r ready small chain described short fresh =
      let fits : ltb max_body (length body) ≡ false = ground arith in
      let received =
        receive_segment_next c secret (weather.host (shipment_of d)) (shipment_of d) d.segment body
          prev r ready chain described short fresh in
      rw fits (rw received (rw (← described.2) refl))

  pub ship_one-fair :
      (d : Due) (body : Bytes) (prev : Option Bytes) (w : World)
      → let s = d.segment in
        let r = w.replicas endpoint in
        IsFair secret weather endpoint w.primary d
        → w.primary.encrypted s.instance_id s.segment_name ≡ some body
        → length body ≤ max_body
        → IsChain c r.stored s.instance_id (rows_of s.instance_id r.replica_segments) prev
        → Describes c s prev body (length (rows_of s.instance_id r.replica_segments))
        → length (rows_of s.instance_id r.replica_segments) < 2 ^ 63
        → find_segment s.instance_id s.segment_name r.replica_segments ≡ none
        → ship_one c secret weather (shipment_of d) w ≡ shipped_world endpoint d body w
  unfolding ship_one
  ship_one-fair d body prev w (few, at, found, fair, ready) blob small chain described short fresh =
      let left : leb max_shipment_attempts d.attempts ≡ false = ground arith in
      let received =
        handler-ok d body prev (w.replicas endpoint) ready small chain described short fresh in
      rw (left, found) (rw (blob, fair, at) (rw received refl))

-- The rows with those of the shipments, in the order of the shipments, after them.
abbrev pub onto : List Due → List Segment → List Segment
onto [] held = held
onto (d ∷ ds) held = onto ds (d.segment ∷ held)

abbrev pub marked : List Due → List Shipment → List Shipment
marked [] rows = rows
marked (d ∷ ds) rows = marked ds (mark_shipment_shipped d.id rows)

pub onto-IsChain :
    (c : Crypto) (files : Files) (id : Str) (ds : List Due) (held : List Segment)
    (tip : Option Bytes)
    → IsChain c files id (onto ds held) tip
    → ((t : Option Bytes) × IsChain c files id held t) × (length held ≤ length (onto ds held))
onto-IsChain c files id [] held tip chain = ((tip, chain), omega arith)
onto-IsChain c files id (d ∷ ds) held tip chain =
    let ((t, (prev, body, at, q, described, rest)), few) =
      onto-IsChain c files id ds (d.segment ∷ held) tip chain in
    ((prev, rest), omega arith)

-- The rows fix the last hash.
pub tip_unique :
    (c : Crypto) (files files' : Files) (id : Str) (rows : List Segment) (t t' : Option Bytes)
    → IsChain c files id rows t
    → IsChain c files' id rows t'
    → t ≡ t'
tip_unique c files files' id [] t t' chain chain' = cc
tip_unique c files files' id (s ∷ rows) t t' chain chain' =
    let a = (latest-IsChain c files id rows s t chain).0 in
    let b = (latest-IsChain c files' id rows s t' chain').0 in cc

-- No row of the replica has the name.
abbrev pub IsNewTo : Replica → Due → Type 0
IsNewTo r d = find_segment d.segment.instance_id d.segment.segment_name r.replica_segments ≡ none

pub with_segment-IsNewTo :
    (s : Segment) (body : Bytes) (r : Replica) (ds : List Due)
    → All (λ n. eq_bytes n s.segment_name ≡ false) (map (λ d. d.segment.segment_name) ds)
    → All (IsNewTo r) ds
    → All (IsNewTo (with_segment s body r)) ds
with_segment-IsNewTo s body r [] apart new = tt
with_segment-IsNewTo s body r (d ∷ ds) (other, apart) (here, new) =
    let back : eq_bytes s.segment_name d.segment.segment_name ≡ false =
      cc (other, eq_bytes_sym d.segment.segment_name s.segment_name) in
    let rest = with_segment-IsNewTo s body r ds apart new in
    elim (Bool-cases (eq_bytes s.instance_id d.segment.instance_id)) [
      | inl same ↦ (rw (same, back) here, rest)
      | inr differs ↦ (rw differs here, rest)
    ]

pub rows_of-with_segment :
    (s : Segment) (body : Bytes) (r : Replica)
    → rows_of s.instance_id (with_segment s body r).replica_segments
      ≡ s ∷ rows_of s.instance_id r.replica_segments
rows_of-with_segment s body r = rw (eq_bytes_refl s.instance_id) refl

pub with_segment-IsChain :
    (c : Crypto) (s : Segment) (body : Bytes) (prev : Option Bytes) (r : Replica)
    → IsChain c r.stored s.instance_id (rows_of s.instance_id r.replica_segments) prev
    → Describes c s prev body (length (rows_of s.instance_id r.replica_segments))
    → find_segment s.instance_id s.segment_name r.replica_segments ≡ none
    → IsChain c
        (with_segment s body r).stored
        s.instance_id
        (rows_of s.instance_id (with_segment s body r).replica_segments)
        (some (chain_hash c prev body))
with_segment-IsChain c s body prev r chain described fresh =
    let there : (with_segment s body r).stored s.instance_id s.segment_name ≡ some body =
      rw (eq_bytes_refl s.instance_id, eq_bytes_refl s.segment_name) refl in
    let before =
      IsChain-write_file c r.stored r.replica_segments s.instance_id s.segment_name body prev fresh
        chain in
    rw (eq_bytes_refl s.instance_id) (prev, body, there, refl, described, before)
