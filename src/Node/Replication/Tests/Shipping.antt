-- ===== src/Node/Replication/Tests/Shipping.antt =====
-- Runs of the shipping of node-rs/src/replication.rs, and of the handler on the replica.
use kraph_core.Prelude.{
  Bool-cases, inl, inr, List, ℕ, ◌≤◌, ◌≡◌, refl, arith, true, false, none, some, [], ◌∷◌, ◌++◌, map,
}
use kraph_core.Prelude.Int.{pos, ◌+ℤ◌}
use kraph_core.Node.Replication.Signing.{verify_replication_sig, build_replication_sig}
use kraph_core.Node.Paths.{validate_instance_id_component, validate_segment_name, check_component}
use kraph_core.Prelude.Bytes.{eq_bytes}
use kraph_core.Node.Paths.{Str}
use kraph_core.Node.Replication.{latest, insert_segment, Files, rows_of, chain_hash}
use kraph_core.Node.Replication.Queue.{get_pending_shipments}
use kraph_core.Node.Replication.Replica.{Replica, Host, Post, written}
use kraph_core.Node.Replication.Replica.Link.{IsHistory}
use kraph_core.Node.Replication.Replica.Calls.{Call, Event, arrives, resumes, serve, run_server}
use kraph_core.Node.Replication.Replica.Serial.{IsSerial, run_server-IsHistory}
use kraph_core.Node.Replication.Replica.Gaps.{receive_all, receive_all_refused}
use kraph_core.Node.Replication.Shipping.{
  World, Weather, answered, lost, ship_pending_segments, post_for,
}
use kraph_core.Node.Replication.Shipping.Retries.{ship_passes}
use kraph_core.Node.Replication.Shipping.Counts.{tries}
use kraph_core.Node.Replication.Shipping.Tries.{ship_passes-pending}
use kraph_core.Node.Replication.Shipping.Delivery.{Due, shipment_of, IsFair, marked}
use kraph_core.Node.Replication.Shipping.Pass.{Holds, ship_pending_segments-Holds}
use kraph_core.Node.Replication.Tests.{
  toy, secret, instance_id, name_ending, no_blobs, endpoint, blob, first_hash, second_hash,
  first_segment, second_segment, first-IsChain,
}

abbrev first_due : Due
first_due = record { id = 1; attempts = 0; endpoint = endpoint ++ 47 ∷ []; segment = first_segment }

abbrev second_due : Due
second_due = record { id = 2; attempts = 1; endpoint = endpoint; segment = second_segment }

abbrev same_blob : Files
same_blob id name = some blob

abbrev host : Host
host = record {
  require_hmac = true;
  hmac_secret = some secret;
  is_normal = λ s. true;
  disk = written;
}

abbrev fair_weather : Weather
fair_weather = record { fate = λ x. answered; host = λ x. host }

abbrev bad_weather : Weather
bad_weather = record { fate = λ x. lost; host = λ x. host }

abbrev empty_replica : Replica
empty_replica = record { replica_segments = []; stored = no_blobs }

abbrev world : World
world = record {
  primary = record {
    wal_segments = second_segment ∷ first_segment ∷ [];
    encrypted = same_blob;
    queue = record { next_id = 3; shipments = shipment_of first_due ∷ shipment_of second_due ∷ [] };
  };
  replicas = λ e. empty_replica;
  posted = [];
}

first-IsFair : IsFair (some secret) fair_weather endpoint world.primary first_due
unfolding validate_instance_id_component validate_segment_name check_component
first-IsFair = (omega arith, refl, refl, refl, (refl, refl, refl, refl, refl))

second-IsFair : IsFair (some secret) fair_weather endpoint world.primary second_due
unfolding validate_instance_id_component validate_segment_name check_component
second-IsFair = (omega arith, refl, refl, refl, (refl, refl, refl, refl, refl))

both_pending :
    get_pending_shipments world.primary.queue.shipments
    ≡ map shipment_of (first_due ∷ second_due ∷ [])
unfolding get_pending_shipments
both_pending = refl

ship_pending_segments-Holds_example :
    let w' = ship_pending_segments toy (some secret) fair_weather world in
    Holds toy
      (w'.replicas endpoint)
      instance_id
      (second_segment ∷ first_segment ∷ [])
      (some second_hash)
    × (w'.primary.queue.shipments
        ≡ marked
            (first_due ∷ second_due ∷ [])
            (shipment_of first_due ∷ shipment_of second_due ∷ []))
ship_pending_segments-Holds_example =
    ship_pending_segments-Holds toy (some secret) fair_weather endpoint
      (first_due ∷ second_due ∷ []) instance_id [] none (some second_hash) world both_pending
      (
        (refl, (refl, tt)),
        (first-IsFair, (second-IsFair, tt)),
        (refl, (refl, tt)),
        ((refl, tt), (tt, tt)),
      )
      (λ name body h. let q : blob ≡ body = cc in rw (← q) (omega arith))
      (
        some first_hash,
        blob,
        refl,
        refl,
        (refl, refl, refl, refl, omega arith),
        first-IsChain same_blob refl,
      )
      (omega arith) (refl, refl)

ship_passes-pending_example :
    let w =
      ship_passes toy
        (some secret)
        (bad_weather ∷ bad_weather ∷ fair_weather ∷ bad_weather ∷ bad_weather ∷ bad_weather ∷ [])
        world in
    (get_pending_shipments w.primary.queue.shipments ≡ []) × ((id : ℕ) → tries id w.posted ≤ 5)
ship_passes-pending_example =
    ship_passes-pending toy (some secret)
      (bad_weather ∷ bad_weather ∷ fair_weather ∷ bad_weather ∷ bad_weather ∷ bad_weather ∷ [])
      world refl ((refl, tt), (tt, tt)) (omega arith)

abbrev first_post : Post
first_post = post_for toy (some secret) (shipment_of first_due) first_segment blob

abbrev second_post : Post
second_post = post_for toy (some secret) (shipment_of second_due) second_segment blob

abbrev third_post : Post
third_post = record {
  instance_id = instance_id;
  segment_name = name_ending 50;
  segment_hash = chain_hash toy (some second_hash) blob;
  previous_hash = second_hash;
  chain_index = pos 2;
  replication_sig = none;
  body = blob;
}

abbrev one_held : Replica
one_held = record { replica_segments = first_segment ∷ []; stored = same_blob }

one_held-IsHistory : (id : Str) → IsHistory (rows_of id (first_segment ∷ []))
one_held-IsHistory id = elim (Bool-cases (eq_bytes instance_id id)) [
  | inl same ↦ rw same (omega arith, tt, tt)
  | inr other ↦ rw other tt
]

abbrev call : Post → Call
call post = record { host = host; post = post }

abbrev other_due : Due
other_due = record first_due { segment = record first_segment { instance_id = 99 ∷ [] } }

abbrev other_post : Post
other_post = post_for toy (some secret) (shipment_of other_due) other_due.segment blob

-- The calls of two instances overlap.
abbrev overlapping : List Event
overlapping = arrives (call second_post) ∷ arrives (call other_post) ∷ resumes 1 ∷ resumes 0 ∷ []

overlapping-IsSerial : IsSerial toy overlapping (record { replica = one_held; awaiting = [] })
unfolding serve latest validate_instance_id_component validate_segment_name check_component
    verify_replication_sig build_replication_sig ◌+ℤ◌
overlapping-IsSerial = ((omega arith, tt), ((omega arith, (refl, tt)), (tt, (tt, tt))))

run_server-IsHistory_example : IsHistory (
    rows_of instance_id
      (run_server toy overlapping
        (record { replica = one_held; awaiting = [] })).replica.replica_segments)
run_server-IsHistory_example =
    run_server-IsHistory toy overlapping one_held overlapping-IsSerial one_held-IsHistory
      instance_id

abbrev rival_due : Due
rival_due = record second_due { segment = record second_segment { segment_name = name_ending 50 } }

abbrev rival_post : Post
rival_post = post_for toy (some secret) (shipment_of rival_due) rival_due.segment blob

-- Two overlapping calls of one instance store two rows of one index.
two_of_one_index :
    map
      (λ s. s.chain_index)
      (run_server toy
        (arrives (call second_post) ∷ arrives (call rival_post) ∷ resumes 1 ∷ resumes 0 ∷ [])
        (record { replica = one_held; awaiting = [] })).replica.replica_segments
    ≡ pos 1 ∷ pos 1 ∷ pos 0 ∷ []
unfolding run_server serve latest insert_segment validate_instance_id_component
    validate_segment_name check_component verify_replication_sig build_replication_sig ◌+ℤ◌
two_of_one_index = refl

receive_all_refused_example :
    receive_all toy host (first_post ∷ third_post ∷ []) one_held ≡ (false, one_held)
receive_all_refused_example =
    receive_all_refused toy host instance_id (first_post ∷ third_post ∷ []) one_held
      (some first_hash) (first-IsChain same_blob refl) (λ h. absurd (cc)) (omega arith)
      ((refl, λ h. absurd (cc)), ((refl, λ h. absurd (cc)), tt))
