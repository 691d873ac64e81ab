-- ===== src/Node/Replication/Queue.antt =====
-- The table of shipments, `replica_shipments`, and the statements on it (node-rs/src/db/mod.rs), in
-- the order of the rows' ids. `next_id` is what AUTOINCREMENT gives the next row.
use kraph_core.Prelude.{
  ℕ, ◌+◌, Bool, true, false, ◌&&◌, List, [], ◌∷◌, ◌++◌, ◌==◌, any, if◌then◌else◌,
}
use kraph_core.Prelude.Bytes.{eq_bytes}
use kraph_core.Node.Paths.{Str}

pub data Status : Type 0 where
  pending failed shipped : Status

pub record Shipment : Type 0 where
  pub id : ℕ
  pub instance_id : Str
  pub replica_node_endpoint : Str
  pub segment_name : Str
  pub status : Status
  pub attempts : ℕ

pub record Queue : Type 0 where
  pub next_id : ℕ
  pub shipments : List Shipment

abbrev pub is_pending : Status → Bool
is_pending pending = true
is_pending failed = false
is_pending shipped = false

abbrev pub is_enqueued : (instance_id endpoint segment_name : Str) → List Shipment → Bool
is_enqueued id endpoint name rows =
    any
      (λ s.
        eq_bytes s.instance_id id
        && eq_bytes s.replica_node_endpoint endpoint
        && eq_bytes s.segment_name name)
      rows

-- `INSERT OR IGNORE`, where the instance, the endpoint and the name are unique together.
unfoldable pub enqueue_replica_shipment : (instance_id endpoint segment_name : Str) → Queue → Queue
enqueue_replica_shipment id endpoint name q =
    if is_enqueued id endpoint name q.shipments then q else record {
      next_id = q.next_id + 1;
      shipments =
          q.shipments
          ++ record {
            id = q.next_id;
            instance_id = id;
            replica_node_endpoint = endpoint;
            segment_name = name;
            status = pending;
            attempts = 0;
          }
            ∷ [];
    }

-- `WHERE status = 'pending'`
unfoldable pub get_pending_shipments : List Shipment → List Shipment
get_pending_shipments [] = []
get_pending_shipments (s ∷ rows) =
    let rest = get_pending_shipments rows in if is_pending s.status then s ∷ rest else rest

-- `UPDATE ... WHERE id = ?1`
abbrev pub update : ℕ → (Shipment → Shipment) → List Shipment → List Shipment
update id change [] = []
update id change (s ∷ rows) =
    let rest = update id change rows in (if s.id == id then change s else s) ∷ rest

abbrev pub with_status : Status → Shipment → Shipment
with_status status s = record {
  id = s.id;
  instance_id = s.instance_id;
  replica_node_endpoint = s.replica_node_endpoint;
  segment_name = s.segment_name;
  status = status;
  attempts = s.attempts;
}

abbrev pub attempted : Shipment → Shipment
attempted s = record {
  id = s.id;
  instance_id = s.instance_id;
  replica_node_endpoint = s.replica_node_endpoint;
  segment_name = s.segment_name;
  status = s.status;
  attempts = s.attempts + 1;
}

abbrev pub mark_shipment_failed : ℕ → List Shipment → List Shipment
mark_shipment_failed id rows = update id (with_status failed) rows

abbrev pub mark_shipment_shipped : ℕ → List Shipment → List Shipment
mark_shipment_shipped id rows = update id (with_status shipped) rows

abbrev pub increment_shipment_attempts : ℕ → List Shipment → List Shipment
increment_shipment_attempts id rows = update id attempted rows
