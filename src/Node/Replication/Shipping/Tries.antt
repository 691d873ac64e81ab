-- ===== src/Node/Replication/Shipping/Tries.antt =====
-- How often the shipping of node-rs/src/replication.rs posts one shipment.
use kraph_core.Prelude.{
  ℕ, ◌≤◌, ◌<◌, ◌≡◌, refl, arith, false, Option, List, [], ◌∷◌, ◌==◌, length, All, Bool-cases, inl,
  inr,
}
use kraph_core.Prelude.Bytes.{Bytes}
use kraph_core.Node.Replication.{Crypto, max_shipment_attempts}
use kraph_core.Node.Replication.Queue.{Shipment, is_pending, get_pending_shipments}
use kraph_core.Node.Replication.Shipping.{World, Weather, ship_one, ship_all, ship_pending_segments}
use kraph_core.Node.Replication.Shipping.Retries.{ship_passes, ship_passes-none_pending}
use kraph_core.Node.Replication.Shipping.Counts.{
  tries, HasKeys, Logged, ship_one-Logged, Counted, CountedPending, tries_other, IsCounted,
  turn-IsCounted,
}

-- The shipments that a pass has still to turn to.
abbrev Queued : List ℕ → List Shipment → Type 0
Queued posted xs = HasKeys xs × All (Counted posted) xs

-- A turn on another shipment leaves their counts.
turn-Queued :
    (x : Shipment) (posted posted' : List ℕ) (xs : List Shipment)
    → ((other : ℕ) → (other == x.id) ≡ false → tries other posted' ≡ tries other posted)
    → All (λ y. (y.id == x.id) ≡ false) xs
    → All (Counted posted) xs
    → All (Counted posted') xs
turn-Queued x posted posted' [] others apart counted = tt
turn-Queued x posted posted' (y ∷ xs) others (here, apart) (few, counted) =
    (rw (others y.id here) few, turn-Queued x posted posted' xs others apart counted)

others_kept :
    (x : Shipment) (w w' : World)
    → Logged x w w'
    → (other : ℕ) → (other == x.id) ≡ false
    → tries other w'.posted ≡ tries other w.posted
others_kept x w w' (inl (rows', log)) other apart = rw log refl
others_kept x w w' (inr (inl (few, rows', log))) other apart =
    rw log (tries_other other x.id w.posted apart)
others_kept x w w' (inr (inr (few, rows', inl log))) other apart = rw log refl
others_kept x w w' (inr (inr (few, rows', inr log))) other apart =
    rw log (tries_other other x.id w.posted apart)

ship_all-IsCounted :
    (c : Crypto) (secret : Option Bytes) (weather : Weather) (xs : List Shipment) (w : World)
    → Queued w.posted xs
    → IsCounted w
    → IsCounted (ship_all c secret weather xs w)
unfolding ship_all
ship_all-IsCounted c secret weather [] w queued h = h
ship_all-IsCounted c secret weather (x ∷ xs) w ((apart, keys), (few, counted)) h =
    let next = ship_one c secret weather x w in
    let turned = ship_one-Logged c secret weather x w in
    ship_all-IsCounted c secret weather xs next
      (keys, turn-Queued x w.posted next.posted xs (others_kept x w next turned) apart counted)
      (turn-IsCounted x w next turned few h)

pending-apart :
    (n : ℕ) (rows : List Shipment)
    → All (λ r. (r.id == n) ≡ false) rows
    → All (λ r. (r.id == n) ≡ false) (get_pending_shipments rows)
unfolding get_pending_shipments
pending-apart n [] apart = tt
pending-apart n (s ∷ rows) (here, apart) = elim (Bool-cases (is_pending s.status)) [
  | inl waits ↦ rw waits (here, pending-apart n rows apart)
  | inr done ↦ rw done (pending-apart n rows apart)
]

pending-Queued :
    (posted : List ℕ) (rows : List Shipment)
    → HasKeys rows
    → All (CountedPending posted) rows
    → Queued posted (get_pending_shipments rows)
unfolding get_pending_shipments
pending-Queued posted [] keys counted = (tt, tt)
pending-Queued posted (s ∷ rows) (apart, keys) (here, counted) =
    let (keys', counted') = pending-Queued posted rows keys counted in
    elim (Bool-cases (is_pending s.status)) [
      | inl waits ↦ rw waits ((pending-apart s.id rows apart, keys'), (here waits, counted'))
      | inr done ↦ rw done (keys', counted')
    ]

ship_passes-IsCounted :
    (c : Crypto) (secret : Option Bytes) (weathers : List Weather) (w : World)
    → IsCounted w
    → IsCounted (ship_passes c secret weathers w)
unfolding ship_passes ship_pending_segments
ship_passes-IsCounted c secret [] w h = h
ship_passes-IsCounted c secret (weather ∷ rest) w h =
    let rows = w.primary.queue.shipments in
    ship_passes-IsCounted c secret rest (ship_pending_segments c secret weather w) (
      ship_all-IsCounted c secret weather (get_pending_shipments rows) w
        (pending-Queued w.posted rows h.keys h.rows) h)

none_posted : (rows : List Shipment) → All (CountedPending []) rows
none_posted [] = tt
none_posted (s ∷ rows) = ((λ waits. omega arith), none_posted rows)

start-IsCounted : (w : World) → w.posted ≡ [] → HasKeys w.primary.queue.shipments → IsCounted w
start-IsCounted w none_yet keys = record {
  keys = keys;
  rows = rw none_yet (none_posted w.primary.queue.shipments);
  bound = λ id. rw none_yet (omega arith);
}

-- Six passes or more over the shipments leave none of them pending, whatever the network, the
-- replicas and the files did in each; and in all of them together the primary has sent at most five
-- requests for each shipment, where the ids of the shipments differ and none was sent before.
pub ship_passes-pending :
    (c : Crypto) (secret : Option Bytes) (weathers : List Weather) (w : World)
    → w.posted ≡ []
    → HasKeys w.primary.queue.shipments
    → max_shipment_attempts < length weathers
    → let w' = ship_passes c secret weathers w in
      (get_pending_shipments w'.primary.queue.shipments ≡ []) × ((id : ℕ) → tries id w'.posted ≤ 5)
ship_passes-pending c secret weathers w none_yet keys many = (
  ship_passes-none_pending c secret weathers w many,
  (ship_passes-IsCounted c secret weathers w (start-IsCounted w none_yet keys)).bound,
)
