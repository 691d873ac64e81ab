-- ===== src/Node/Replication/Shipping.antt =====
-- The shipping of WAL segments: `ship_pending_segments` of node-rs/src/replication.rs, and the
-- replicas it posts to, which run the same code (`receive_replication_handler` of
-- node-rs/src/main.rs). The headers arrive as they were sent.
use kraph_core.Prelude.{
  ℕ, ◌+◌, ◌*◌, Bool, true, false, ◌&&◌, Option, none, some, List, [], ◌∷◌, ◌==◌, ltb, leb, length,
  if◌then◌else◌,
}
use kraph_core.Prelude.Bytes.{Bytes, eq_bytes}
use kraph_core.Node.Paths.{Str}
use kraph_core.Node.Replication.{
  Crypto, Result, ok, err, Segment, Files, find_segment, max_shipment_attempts,
}
use kraph_core.Node.Replication.Signing.{build_replication_sig}
use kraph_core.Node.Replication.Queue.{
  Shipment, Queue, get_pending_shipments, mark_shipment_failed, mark_shipment_shipped,
  increment_shipment_attempts,
}
use kraph_core.Node.Replication.Primary.{Primary}
use kraph_core.Node.Replication.Replica.{Replica, Host, Post, is_success, receive_segment}
pub mod Retries
pub mod Counts
pub mod Tries
pub mod Mirror
pub mod Delivery
pub mod Pass

-- What the network does with a POST: the request does not arrive, the answer does not, or both do.
pub data Fate : Type 0 where
  lost unanswered answered : Fate

-- The primary, and the replicas by their endpoints. `posted` keeps account of the requests that the
-- primary has sent: the shipment of each, the last first.
pub record World : Type 0 where
  pub primary : Primary
  pub replicas : Str → Replica
  pub posted : List ℕ

-- What surrounds a pass, at each shipment.
pub record Weather : Type 0 where
  pub fate : Shipment → Fate
  pub host : Shipment → Host

-- `trim_end_matches('/')`
abbrev pub unless_slash : ℕ → Str → Str
unless_slash c [] = if c == 47 then [] else c ∷ []
unless_slash c (d ∷ rest) = c ∷ d ∷ rest

abbrev pub trim_end_slashes : Str → Str
trim_end_slashes [] = []
trim_end_slashes (c ∷ cs) = unless_slash c (trim_end_slashes cs)

-- The signature header, where a secret is configured.
abbrev pub sign : Crypto → Option Bytes → (instance_id segment_name : Str) → Segment → Option Str
sign c none id name s = none
sign c (some secret) id name s =
    some (build_replication_sig c secret id name s.hash s.previous_hash s.chain_index)

-- The request of a shipment.
abbrev pub post_for : Crypto → (secret : Option Bytes) → Shipment → Segment → Bytes → Post
post_for c secret shipment s body = record {
  instance_id = shipment.instance_id;
  segment_name = shipment.segment_name;
  segment_hash = s.hash;
  previous_hash = s.previous_hash;
  chain_index = s.chain_index;
  replication_sig = sign c secret shipment.instance_id shipment.segment_name s;
  body = body;
}

-- `DefaultBodyLimit::max`
abbrev pub max_body : ℕ
max_body = 64 * 1024 * 1024

-- The replica's handler: whether it answers with success, and its state.
abbrev pub receive_replication_handler : Crypto → Host → Post → Replica → Bool × Replica
receive_replication_handler c host post r =
    if ltb max_body (length post.body)
    then (false, r)
    else let (answer, r') = receive_segment c host post r in (is_success answer, r')

abbrev pub set_replica : Str → Replica → (Str → Replica) → Str → Replica
set_replica endpoint r replicas e = if eq_bytes e endpoint then r else replicas e

-- Whether the sender sees success, and the replicas.
abbrev pub deliver :
    Crypto → Host → Fate → (endpoint : Str) → Post → (Str → Replica) → Bool × (Str → Replica)
deliver c host lost endpoint post replicas = (false, replicas)
deliver c host unanswered endpoint post replicas =
    let (success, r) = receive_replication_handler c host post (replicas endpoint) in
    (false, set_replica endpoint r replicas)
deliver c host answered endpoint post replicas =
    let (success, r) = receive_replication_handler c host post (replicas endpoint) in
    (success, set_replica endpoint r replicas)

abbrev pub with_shipments : List Shipment → Primary → Primary
with_shipments rows p = record {
  wal_segments = p.wal_segments;
  encrypted = p.encrypted;
  queue = record { next_id = p.queue.next_id; shipments = rows };
}

-- A statement on the queue.
abbrev pub on_queue : (List Shipment → List Shipment) → World → World
on_queue change w = record {
  primary = with_shipments (change w.primary.queue.shipments) w.primary;
  replicas = w.replicas;
  posted = w.posted;
}

-- One request of the primary: `req.send().await`, and its success.
abbrev pub post_segment : Crypto → Weather → Shipment → Post → World → Bool × World
post_segment c weather shipment post w =
    let (success, replicas) =
      deliver c (weather.host shipment) (weather.fate shipment)
        (trim_end_slashes shipment.replica_node_endpoint) post w.replicas in
    (success, record { primary = w.primary; replicas = replicas; posted = shipment.id ∷ w.posted })

abbrev pub send :
    Crypto → (secret : Option Bytes) → Weather → Shipment → Segment → Option Bytes → World → World
send c secret weather shipment s none w = on_queue (increment_shipment_attempts shipment.id) w
send c secret weather shipment s (some body) w =
    let (success, sent) = post_segment c weather shipment (post_for c secret shipment s body) w in
    if success
    then on_queue (mark_shipment_shipped shipment.id) sent
    else on_queue (increment_shipment_attempts shipment.id) sent

abbrev pub send_found :
    Crypto → (secret : Option Bytes) → Weather → Shipment → Option Segment → World → World
send_found c secret weather shipment none w = on_queue (mark_shipment_failed shipment.id) w
send_found c secret weather shipment (some s) w =
    send c secret weather shipment s (w.primary.encrypted s.instance_id s.segment_name) w

-- One turn of the loop.
unfoldable pub ship_one : Crypto → (secret : Option Bytes) → Weather → Shipment → World → World
ship_one c secret weather shipment w =
    if leb max_shipment_attempts shipment.attempts
    then on_queue (mark_shipment_failed shipment.id) w
    else send_found c secret weather shipment
        (find_segment shipment.instance_id shipment.segment_name w.primary.wal_segments) w

-- The loop over the shipments that were pending at the start.
unfoldable pub ship_all : Crypto → (secret : Option Bytes) → Weather → List Shipment → World → World
ship_all c secret weather [] w = w
ship_all c secret weather (shipment ∷ rest) w =
    ship_all c secret weather rest (ship_one c secret weather shipment w)

unfoldable pub ship_pending_segments : Crypto → (secret : Option Bytes) → Weather → World → World
ship_pending_segments c secret weather w =
    ship_all c secret weather (get_pending_shipments w.primary.queue.shipments) w
