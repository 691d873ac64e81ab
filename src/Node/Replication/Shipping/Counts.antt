-- ===== src/Node/Replication/Shipping/Counts.antt =====
-- The account of the requests that the shipping of node-rs/src/replication.rs sends, against the
-- attempts in the table.
use kraph_core.Prelude.{
  ℕ, suc, ◌≤◌, ◌<◌, ◌≡◌, ◌⊎◌, refl, sym, arith, true, false, Option, none, some, List, [], ◌∷◌,
  ◌==◌, ==_refl, leb, All, Bool-cases, inl, inr, if◌then◌else◌,
}
use mathlib.Core.Path.{subst}
use kraph_core.Prelude.Bytes.{Bytes}
use kraph_core.Node.Replication.{Crypto, Segment, max_shipment_attempts}
use kraph_core.Node.Replication.Queue.{
  Shipment, failed, shipped, is_pending, update, with_status, attempted, mark_shipment_failed,
  mark_shipment_shipped, increment_shipment_attempts,
}
use kraph_core.Node.Replication.Shipping.{
  World, Weather, send, send_found, ship_one, deliver, post_for, trim_end_slashes,
}

-- How many of the requests were for a shipment.
abbrev pub tries : (id : ℕ) → (posted : List ℕ) → ℕ
tries id [] = 0
tries id (x ∷ posted) = let rest = tries id posted in if x == id then suc rest else rest

-- No two rows have one id.
abbrev pub HasKeys : List Shipment → Type 0
HasKeys [] = Unit
HasKeys (s ∷ rows) = All (λ r. (r.id == s.id) ≡ false) rows × HasKeys rows

-- How a turn on a shipment changes the table and the account of requests.
abbrev pub Logged : Shipment → (w w' : World) → Type 0
Logged x w w' =
    let rows = w.primary.queue.shipments in
    let rows' = w'.primary.queue.shipments in
    ((rows' ≡ mark_shipment_failed x.id rows) × (w'.posted ≡ w.posted))
    ⊎ ((x.attempts < max_shipment_attempts)
        × (rows' ≡ mark_shipment_shipped x.id rows)
        × (w'.posted ≡ x.id ∷ w.posted))
    ⊎ ((x.attempts < max_shipment_attempts)
        × (rows' ≡ increment_shipment_attempts x.id rows)
        × ((w'.posted ≡ w.posted) ⊎ (w'.posted ≡ x.id ∷ w.posted)))

module _ (c : Crypto) (secret : Option Bytes) (weather : Weather) (x : Shipment) where
  send-Logged :
      (s : Segment) (o : Option Bytes) (w : World)
      → x.attempts < max_shipment_attempts
      → Logged x w (send c secret weather x s o w)
  send-Logged s none w few = inr (inr (few, refl, inl refl))
  send-Logged s (some body) w few =
      let sent =
        deliver c (weather.host x) (weather.fate x) (trim_end_slashes x.replica_node_endpoint)
          (post_for c secret x s body) w.replicas in
      elim (Bool-cases sent.0) [
        | inl success ↦ rw success (inr (inl (few, refl, refl)))
        | inr failure ↦ rw failure (inr (inr (few, refl, inr refl)))
      ]

  found-Logged :
      (o : Option Segment) (w : World)
      → x.attempts < max_shipment_attempts
      → Logged x w (send_found c secret weather x o w)
  found-Logged none w few = inl (refl, refl)
  found-Logged (some s) w few = send-Logged s _ w few

  pub ship_one-Logged : (w : World) → Logged x w (ship_one c secret weather x w)
  unfolding ship_one
  ship_one-Logged w = elim (Bool-cases (leb max_shipment_attempts x.attempts)) [
    | inl spent ↦ rw spent (inl (refl, refl))
    | inr left ↦ rw left (found-Logged _ w (ground arith))
  ]

-- A shipment has not been posted more often than its attempts say.
abbrev pub Counted : List ℕ → Shipment → Type 0
Counted posted s = tries s.id posted ≤ s.attempts

abbrev pub CountedPending : List ℕ → Shipment → Type 0
CountedPending posted s = is_pending s.status ≡ true → Counted posted s

apart_sym : (a b : ℕ) → (a == b) ≡ false → (b == a) ≡ false
apart_sym a b h = ground arith

-- A request for another shipment is not counted.
pub tries_other :
    (id other : ℕ) (posted : List ℕ)
    → (id == other) ≡ false
    → tries id (other ∷ posted) ≡ tries id posted
tries_other id other posted h = rw (apart_sym id other h) refl

tries_own : (id : ℕ) (posted : List ℕ) → tries id (id ∷ posted) ≡ suc (tries id posted)
tries_own id posted = rw (==_refl id) refl

-- What may come of a row of the shipment itself.
update-Counted :
    (id : ℕ) (change : Shipment → Shipment) (posted posted' : List ℕ) (rows : List Shipment)
    → ((s : Shipment)
        → (s.id == id) ≡ true
        → CountedPending posted s
        → CountedPending posted' (change s))
    → ((other : ℕ) → (other == id) ≡ false → tries other posted' ≡ tries other posted)
    → All (CountedPending posted) rows
    → All (CountedPending posted') (update id change rows)
update-Counted id change posted posted' [] own others counted = tt
update-Counted id change posted posted' (s ∷ rows) own others (here, counted) =
    let rest = update-Counted id change posted posted' rows own others counted in
    elim (Bool-cases (s.id == id)) [
      | inl same ↦ rw same (own s same here, rest)
      | inr other ↦ rw other ((λ waits. rw (others s.id other) (here waits)), rest)
    ]

update-apart :
    (n id : ℕ) (change : Shipment → Shipment) (rows : List Shipment)
    → ((s : Shipment) → (change s).id ≡ s.id)
    → All (λ r. (r.id == n) ≡ false) rows
    → All (λ r. (r.id == n) ≡ false) (update id change rows)
update-apart n id change [] keeps apart = tt
update-apart n id change (s ∷ rows) keeps (here, apart) =
    let rest = update-apart n id change rows keeps apart in
    elim (Bool-cases (s.id == id)) [
      | inl same ↦ rw same (rw (keeps s) here, rest)
      | inr other ↦ rw other (here, rest)
    ]

update-HasKeys :
    (id : ℕ) (change : Shipment → Shipment) (rows : List Shipment)
    → ((s : Shipment) → (change s).id ≡ s.id)
    → HasKeys rows
    → HasKeys (update id change rows)
update-HasKeys id change [] keeps keys = tt
update-HasKeys id change (s ∷ rows) keeps (apart, keys) =
    let rest = update-HasKeys id change rows keeps keys in
    let apart' = update-apart s.id id change rows keeps apart in
    elim (Bool-cases (s.id == id)) [
      | inl same ↦ rw same (rw (keeps s) apart', rest)
      | inr other ↦ rw other (apart', rest)
    ]

-- What holds of the table and the account of requests between two turns.
pub record IsCounted (w : World) : Type 0 where
  pub keys : HasKeys w.primary.queue.shipments
  pub rows : All (CountedPending w.posted) w.primary.queue.shipments
  pub bound : (id : ℕ) → tries id w.posted ≤ max_shipment_attempts

bound_after :
    (x : Shipment) (posted : List ℕ)
    → x.attempts < max_shipment_attempts
    → Counted posted x
    → ((id : ℕ) → tries id posted ≤ max_shipment_attempts)
    → (id : ℕ) → tries id (x.id ∷ posted) ≤ max_shipment_attempts
bound_after x posted few counted bound id = elim (Bool-cases (id == x.id)) [
  | inl same ↦
      let q : id ≡ x.id = ground arith in
      let own : tries x.id (x.id ∷ posted) ≤ max_shipment_attempts =
        rw (==_refl x.id) (omega arith) in
      subst (λ n. tries n (x.id ∷ posted) ≤ max_shipment_attempts) (sym q) own
  | inr other ↦ rw (tries_other id x.id posted other) (bound id)
]

pub turn-IsCounted :
    (x : Shipment) (w w' : World) → Logged x w w' → Counted w.posted x → IsCounted w → IsCounted w'
turn-IsCounted x w w' (inl (rows', log)) counted h = record {
  keys = rw rows' (update-HasKeys x.id (with_status failed) _ (λ s. refl) h.keys);
  rows =
      rw (rows', log)
        (update-Counted x.id (with_status failed) w.posted w.posted _
          (λ s same here waits. absurd (cc)) (λ other apart. refl) h.rows);
  bound = λ id. rw log (h.bound id);
}
turn-IsCounted x w w' (inr (inl (few, rows', log))) counted h = record {
  keys = rw rows' (update-HasKeys x.id (with_status shipped) _ (λ s. refl) h.keys);
  rows =
      rw (rows', log)
        (update-Counted x.id (with_status shipped) w.posted (x.id ∷ w.posted) _
          (λ s same here waits. absurd (cc)) (λ other apart. tries_other other x.id w.posted apart)
          h.rows);
  bound = λ id. rw log (bound_after x w.posted few counted h.bound id);
}
turn-IsCounted x w w' (inr (inr (few, rows', inl log))) counted h = record {
  keys = rw rows' (update-HasKeys x.id attempted _ (λ s. refl) h.keys);
  rows =
      rw (rows', log)
        (update-Counted x.id attempted w.posted w.posted _
          (λ s same here waits. let n = here waits in omega arith) (λ other apart. refl) h.rows);
  bound = λ id. rw log (h.bound id);
}
turn-IsCounted x w w' (inr (inr (few, rows', inr log))) counted h = record {
  keys = rw rows' (update-HasKeys x.id attempted _ (λ s. refl) h.keys);
  rows =
      rw (rows', log)
        (update-Counted x.id attempted w.posted (x.id ∷ w.posted) _
          (λ s same here waits.
            let q : x.id ≡ s.id = ground arith in
            let n = here waits in let own = tries_own s.id w.posted in rw (q, own) (omega arith))
          (λ other apart. tries_other other x.id w.posted apart) h.rows);
  bound = λ id. rw log (bound_after x w.posted few counted h.bound id);
}
