-- ===== src/Node/Replication/Shipping/Pass.antt =====
-- The composition of the primary, the shipping and a replica of node-rs/src/replication.rs.
use kraph_core.Prelude.{
  ◌^◌, ◌≤◌, ◌<◌, ◌≡◌, refl, sym, arith, Option, some, List, [], ◌∷◌, map, length, All,
}
use mathlib.Core.Path.{subst}
use kraph_core.Prelude.Bytes.{Bytes, eq_bytes_refl}
use kraph_core.Node.Paths.{Str}
use kraph_core.Node.Replication.{Crypto, Segment, Files, rows_of, chain_hash}
use kraph_core.Node.Replication.Chain.{IsChain, Describes}
use kraph_core.Node.Replication.Queue.{get_pending_shipments}
use kraph_core.Node.Replication.Replica.{Replica}
use kraph_core.Node.Replication.Primary.{Primary}
use kraph_core.Node.Replication.Primary.Listed.{IsDistinct}
use kraph_core.Node.Replication.Shipping.{
  World, Weather, ship_one, ship_all, ship_pending_segments, max_body,
}
use kraph_core.Node.Replication.Shipping.Delivery.{
  Due, shipment_of, IsFair, onto, marked, IsNewTo, with_segment, shipped_world, ship_one-fair,
  onto-IsChain, tip_unique, with_segment-IsNewTo, with_segment-IsChain, rows_of-with_segment,
}

-- Every blob of the instance is small enough to post.
abbrev pub IsSmall : Files → Str → Type 0
IsSmall files id = (name : Str) (body : Bytes) → files id name ≡ some body → length body ≤ max_body

-- The shipments are those of distinct segments of one instance, which the replica does not have,
-- and all go well.
abbrev pub IsBatch :
    (secret : Option Bytes) → Weather → (endpoint id : Str) → Primary → Replica → List Due → Type 0
IsBatch secret weather endpoint id p r ds =
    All (λ d. d.segment.instance_id ≡ id) ds
    × All (IsFair secret weather endpoint p) ds
    × All (IsNewTo r) ds
    × IsDistinct (map (λ d. d.segment.segment_name) ds)

-- The replica holds the rows, and their blobs, as a chain with this last hash.
abbrev pub Holds : Crypto → Replica → (id : Str) → List Segment → (tip : Option Bytes) → Type 0
Holds c r id rows tip = (rows_of id r.replica_segments ≡ rows) × IsChain c r.stored id rows tip

module _ (c : Crypto) (secret : Option Bytes) (weather : Weather) (endpoint : Str) where
  step_in_own_instance :
      (d : Due) (held : List Segment) (body : Bytes) (prev : Option Bytes) (w : World)
      → let id = d.segment.instance_id in
        let r = w.replicas endpoint in
        IsFair secret weather endpoint w.primary d
        → IsNewTo r d
        → w.primary.encrypted id d.segment.segment_name ≡ some body
        → length body ≤ max_body
        → Describes c d.segment prev body (length held)
        → length held < 2 ^ 63
        → Holds c r id held prev
        → (ship_one c secret weather (shipment_of d) w ≡ shipped_world endpoint d body w)
          × Holds c
              (with_segment d.segment body r)
              id
              (d.segment ∷ held)
              (some (chain_hash c prev body))
  step_in_own_instance d held body prev w fair new at small described few (rows, own) =
      let r = w.replicas endpoint in
      let own' = rw (← rows) at own in
      let described' = rw (← rows) at described in
      let added = rows_of-with_segment d.segment body r in
      let rows' : rows_of d.segment.instance_id (with_segment d.segment body r).replica_segments
          ≡ d.segment ∷ held =
        cc in
      (
        ship_one-fair c secret weather endpoint d body prev w fair at small own' described'
            (rw (← rows) at few) new,
        (rows', rw rows' at (with_segment-IsChain c d.segment body prev r own' described' new)),
      )

  step :
      (d : Due) (id : Str) (held : List Segment) (body : Bytes) (prev : Option Bytes) (w : World)
      → let r = w.replicas endpoint in
        (d.segment.instance_id ≡ id)
        → IsFair secret weather endpoint w.primary d
        → IsNewTo r d
        → w.primary.encrypted id d.segment.segment_name ≡ some body
        → length body ≤ max_body
        → Describes c d.segment prev body (length held)
        → length held < 2 ^ 63
        → Holds c r id held prev
        → (ship_one c secret weather (shipment_of d) w ≡ shipped_world endpoint d body w)
          × Holds c
              (with_segment d.segment body r)
              id
              (d.segment ∷ held)
              (some (chain_hash c prev body))
  step d id held body prev w same fair new at small described few holds =
      let r = w.replicas endpoint in
      let own = subst (λ i. Holds c r i held prev) (sym same) holds in
      let (stepped, more) =
        step_in_own_instance d held body prev w fair new (rw (← same) at at) small described few
          own in
      (
        stepped,
        subst
            (λ i.
              Holds c (with_segment d.segment body r) i (d.segment ∷ held)
                (some (chain_hash c prev body)))
            same more,
      )

  ship_all-Holds :
      (ds : List Due) (id : Str) (held : List Segment) (prev tip : Option Bytes) (w : World)
      (r : Replica)
      → w.replicas endpoint ≡ r
      → IsBatch secret weather endpoint id w.primary r ds
      → IsSmall w.primary.encrypted id
      → IsChain c w.primary.encrypted id (onto ds held) tip
      → length (onto ds held) < 2 ^ 63
      → Holds c r id held prev
      → let w' = ship_all c secret weather (map shipment_of ds) w in
        Holds c (w'.replicas endpoint) id (onto ds held) tip
        × (w'.primary.queue.shipments ≡ marked ds w.primary.queue.shipments)
  unfolding ship_all
  ship_all-Holds [] id held prev tip w r here batch small chain few (rows, own) =
      let q : prev ≡ tip = tip_unique c r.stored w.primary.encrypted id held prev tip own chain in
      rw here ((rows, rw (← q) own), refl)
  ship_all-Holds (d ∷ ds) id held prev tip w r here
        ((same, all_same), (fair, all_fair), (new, all_new), (apart, distinct)) small chain few
        (rows, own) =
      let ((t, (prev', body, at, q, described, rest)), fewer) =
        onto-IsChain c w.primary.encrypted id ds (d.segment ∷ held) tip chain in
      let p : prev' ≡ prev =
        tip_unique c w.primary.encrypted r.stored id held prev' prev rest own in
      let few_held : length held < 2 ^ 63 = omega arith in
      let holds : Holds c r id held prev = (rows, own) in
      let (stepped, more) =
        step d id held body prev w same fair (rw here new) at (small d.segment.segment_name body at)
          (rw p at described) few_held (rw here holds) in
      let new' = with_segment-IsNewTo d.segment body r ds apart all_new in
      let arrived : (shipped_world endpoint d body w).replicas endpoint
          ≡ with_segment d.segment body r =
        rw (eq_bytes_refl endpoint) (rw here refl) in
      let stored =
        subst
          (λ q.
            Holds c (with_segment d.segment body q) id (d.segment ∷ held)
              (some (chain_hash c prev body)))
          here more in
      let rest_arrives =
        ship_all-Holds ds id (d.segment ∷ held) (some (chain_hash c prev body)) tip
          (shipped_world endpoint d body w) (with_segment d.segment body r) arrived
          (all_same, all_fair, new', distinct) small chain few stored in
      subst
        (λ v.
          let w' = ship_all c secret weather (map shipment_of ds) v in
          Holds c (w'.replicas endpoint) id (onto (d ∷ ds) held) tip
          × (w'.primary.queue.shipments ≡ marked (d ∷ ds) w.primary.queue.shipments))
        (sym stepped) rest_arrives

  -- If the pending shipments are those of distinct segments of one instance to one replica, in the
  -- order of the primary's chain, which with the rows that the replica holds make up that chain, the
  -- replica has none of their names, shares the secret and can store, and no request or answer is
  -- lost, then after the pass the replica's rows are the primary's chain, each with its blob, and
  -- every one of these shipments is marked as shipped.
  pub ship_pending_segments-Holds :
      (ds : List Due) (id : Str) (held : List Segment) (prev tip : Option Bytes) (w : World)
      → get_pending_shipments w.primary.queue.shipments ≡ map shipment_of ds
      → IsBatch secret weather endpoint id w.primary (w.replicas endpoint) ds
      → IsSmall w.primary.encrypted id
      → IsChain c w.primary.encrypted id (onto ds held) tip
      → length (onto ds held) < 2 ^ 63
      → Holds c (w.replicas endpoint) id held prev
      → let w' = ship_pending_segments c secret weather w in
        Holds c (w'.replicas endpoint) id (onto ds held) tip
        × (w'.primary.queue.shipments ≡ marked ds w.primary.queue.shipments)
  unfolding ship_pending_segments
  ship_pending_segments-Holds ds id held prev tip w due batch small chain few holds =
      subst
        (λ xs.
          let w' = ship_all c secret weather xs w in
          Holds c (w'.replicas endpoint) id (onto ds held) tip
          × (w'.primary.queue.shipments ≡ marked ds w.primary.queue.shipments))
        (sym due)
        (ship_all-Holds ds id held prev tip w (w.replicas endpoint) refl batch small chain few
          holds)
