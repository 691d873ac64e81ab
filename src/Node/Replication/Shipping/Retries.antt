-- ===== src/Node/Replication/Shipping/Retries.antt =====
-- The retries of node-rs/src/replication.rs end.
use kraph_core.Prelude.{
  ℕ, zero, suc, ◌+◌, ◌≤◌, ◌<◌, ◌≡◌, ◌⊎◌, refl, arith, true, Option, none, some, List, [], ◌∷◌, ◌==◌,
  leb, length, any, All, Bool-cases, inl, inr,
}
use kraph_core.Prelude.Bytes.{Bytes}
use kraph_core.Node.Replication.{Crypto, Segment, max_shipment_attempts}
use kraph_core.Node.Replication.Queue.{
  Shipment, failed, shipped, is_pending, update, with_status, attempted, get_pending_shipments,
  mark_shipment_failed, mark_shipment_shipped, increment_shipment_attempts,
}
use kraph_core.Node.Replication.Shipping.{
  World, Weather, send, send_found, ship_one, ship_all, ship_pending_segments, deliver, post_for,
  trim_end_slashes,
}

-- Passes, each in its weather.
unfoldable pub ship_passes : Crypto → (secret : Option Bytes) → List Weather → World → World
ship_passes c secret [] w = w
ship_passes c secret (weather ∷ rest) w =
    ship_passes c secret rest (ship_pending_segments c secret weather w)

-- A pending row has been tried `n` times, and may be pending after `n` passes.
abbrev AtLeast : ℕ → Shipment → Type 0
AtLeast n s = is_pending s.status ≡ true → (n ≤ s.attempts) × (n ≤ max_shipment_attempts)

-- How a turn on a shipment changes the table.
abbrev Turned : Shipment → (rows rows' : List Shipment) → Type 0
Turned x rows rows' =
    (rows' ≡ mark_shipment_failed x.id rows)
    ⊎ (rows' ≡ mark_shipment_shipped x.id rows)
    ⊎ ((x.attempts < max_shipment_attempts) × (rows' ≡ increment_shipment_attempts x.id rows))

send-Turned :
    (c : Crypto) (secret : Option Bytes) (weather : Weather) (x : Shipment) (s : Segment)
    (o : Option Bytes) (w : World)
    → x.attempts < max_shipment_attempts
    → Turned x w.primary.queue.shipments (send c secret weather x s o w).primary.queue.shipments
send-Turned c secret weather x s none w few = inr (inr (few, refl))
send-Turned c secret weather x s (some body) w few =
    let sent =
      deliver c (weather.host x) (weather.fate x) (trim_end_slashes x.replica_node_endpoint)
        (post_for c secret x s body) w.replicas in
    elim (Bool-cases sent.0) [
      | inl success ↦ rw success (inr (inl refl))
      | inr failure ↦ rw failure (inr (inr (few, refl)))
    ]

found-Turned :
    (c : Crypto) (secret : Option Bytes) (weather : Weather) (x : Shipment) (o : Option Segment)
    (w : World)
    → x.attempts < max_shipment_attempts
    → Turned x w.primary.queue.shipments (send_found c secret weather x o w).primary.queue.shipments
found-Turned c secret weather x none w few = inl refl
found-Turned c secret weather x (some s) w few = send-Turned c secret weather x s _ w few

ship_one-Turned :
    (c : Crypto) (secret : Option Bytes) (weather : Weather) (x : Shipment) (w : World)
    → Turned x w.primary.queue.shipments (ship_one c secret weather x w).primary.queue.shipments
unfolding ship_one
ship_one-Turned c secret weather x w = elim (Bool-cases (leb max_shipment_attempts x.attempts)) [
  | inl spent ↦ rw spent (inl refl)
  | inr left ↦ rw left (found-Turned c secret weather x _ w (ground arith))
]

module _ (n : ℕ) where
  -- A row that a pass has still to try, or has tried.
  abbrev Todo : List Shipment → Shipment → Type 0
  Todo xs s = (AtLeast n s × (any (λ x. x.id == s.id) xs ≡ true)) ⊎ AtLeast (suc n) s

  update-Todo :
      (x : Shipment) (xs : List Shipment) (change : Shipment → Shipment) (rows : List Shipment)
      → ((s : Shipment) → AtLeast n s → AtLeast (suc n) (change s))
      → ((s : Shipment) → AtLeast (suc n) s → AtLeast (suc n) (change s))
      → All (Todo (x ∷ xs)) rows
      → All (Todo xs) (update x.id change rows)
  update-Todo x xs change [] moves keeps todo = tt
  update-Todo x xs change (s ∷ rows) moves keeps (here, todo) =
      let rest = update-Todo x xs change rows moves keeps todo in
      elim (Bool-cases (s.id == x.id)) [
        | inl same ↦ rw same (elim here [
          | inl (least, held) ↦ (inr (moves s least), rest)
          | inr done ↦ (inr (keeps s done), rest)
        ])
        | inr other ↦ rw other (elim here [
          | inl (least, held) ↦ (inl (least, ground arith), rest)
          | inr done ↦ (inr done, rest)
        ])
      ]

  step-Todo :
      (x : Shipment) (xs rows rows' : List Shipment)
      → (n ≤ x.attempts)
      → Turned x rows rows'
      → All (Todo (x ∷ xs)) rows
      → All (Todo xs) rows'
  step-Todo x xs rows rows' tried (inl q) todo = rw q (
      update-Todo x xs (with_status failed) rows (λ s h p. absurd (cc)) (λ s h p. absurd (cc)) todo)
  step-Todo x xs rows rows' tried (inr (inl q)) todo = rw q (
      update-Todo x xs (with_status shipped) rows (λ s h p. absurd (cc)) (λ s h p. absurd (cc))
        todo)
  step-Todo x xs rows rows' tried (inr (inr (few, q))) todo = rw q (
      update-Todo x xs attempted rows (λ s h p. let (a, b) = h p in (omega arith, omega arith))
        (λ s h p. let (a, b) = h p in (omega arith, omega arith)) todo)

  ship_all-Todo :
      (c : Crypto) (secret : Option Bytes) (weather : Weather) (xs : List Shipment) (w : World)
      → All (λ x. n ≤ x.attempts) xs
      → All (Todo xs) w.primary.queue.shipments
      → All (Todo []) (ship_all c secret weather xs w).primary.queue.shipments
  unfolding ship_all
  ship_all-Todo c secret weather [] w tried todo = todo
  ship_all-Todo c secret weather (x ∷ xs) w (here, tried) todo =
      let turned = ship_one-Turned c secret weather x w in
      ship_all-Todo c secret weather xs (ship_one c secret weather x w) tried
        (step-Todo x xs _ _ here turned todo)

  -- The snapshot of the pending rows.
  pending_tried :
      (rows : List Shipment)
      → All (AtLeast n) rows
      → All (λ x. n ≤ x.attempts) (get_pending_shipments rows)
  unfolding get_pending_shipments
  pending_tried [] least = tt
  pending_tried (s ∷ rows) (here, least) = elim (Bool-cases (is_pending s.status)) [
    | inl waits ↦ rw waits ((here waits).0, pending_tried rows least)
    | inr done ↦ rw done (pending_tried rows least)
  ]

  id_pending :
      (id : ℕ) (s : Shipment) (rows : List Shipment)
      → any (λ x. x.id == id) (get_pending_shipments rows) ≡ true
      → any (λ x. x.id == id) (get_pending_shipments (s ∷ rows)) ≡ true
  unfolding get_pending_shipments
  id_pending id s rows h = elim (Bool-cases (is_pending s.status)) [
    | inl waits ↦ rw waits (ground arith)
    | inr done ↦ rw done h
  ]

  widen :
      (s : Shipment) (table rows : List Shipment)
      → All (Todo (get_pending_shipments table)) rows
      → All (Todo (get_pending_shipments (s ∷ table))) rows
  widen s table [] todo = tt
  widen s table (r ∷ rows) (inl (least, held), todo) =
      (inl (least, id_pending r.id s table held), widen s table rows todo)
  widen s table (r ∷ rows) (inr done, todo) = (inr done, widen s table rows todo)

  start_Todo :
      (rows : List Shipment) → All (AtLeast n) rows → All (Todo (get_pending_shipments rows)) rows
  unfolding get_pending_shipments
  start_Todo [] least = tt
  start_Todo (s ∷ rows) (here, least) =
      let rest = widen s rows rows (start_Todo rows least) in
      elim (Bool-cases (is_pending s.status)) [
        | inl waits ↦ (inl (here, rw waits (ground arith)), rest)
        | inr done ↦ (inr (λ h. absurd (cc)), rest)
      ]

  end_Todo : (rows : List Shipment) → All (Todo []) rows → All (AtLeast (suc n)) rows
  end_Todo [] todo = tt
  end_Todo (s ∷ rows) (inl (least, held), todo) = absurd (cc)
  end_Todo (s ∷ rows) (inr done, todo) = (done, end_Todo rows todo)

  pass-AtLeast :
      (c : Crypto) (secret : Option Bytes) (weather : Weather) (w : World)
      → All (AtLeast n) w.primary.queue.shipments
      → All (AtLeast (suc n)) (ship_pending_segments c secret weather w).primary.queue.shipments
  unfolding ship_pending_segments
  pass-AtLeast c secret weather w least =
      let rows = w.primary.queue.shipments in
      end_Todo _ (
        ship_all-Todo c secret weather (get_pending_shipments rows) w (pending_tried rows least)
          (start_Todo rows least))

passes-AtLeast :
    (c : Crypto) (secret : Option Bytes) (weathers : List Weather) (n m : ℕ) (w : World)
    → n + length weathers ≡ m
    → All (AtLeast n) w.primary.queue.shipments
    → All (AtLeast m) (ship_passes c secret weathers w).primary.queue.shipments
unfolding ship_passes
passes-AtLeast c secret [] n m w count least = let q : n ≡ m = omega arith in rw (← q) least
passes-AtLeast c secret (weather ∷ rest) n m w count least =
    passes-AtLeast c secret rest (suc n) m (ship_pending_segments c secret weather w) (omega arith)
      (pass-AtLeast n c secret weather w least)

AtLeast-zero : (rows : List Shipment) → All (AtLeast zero) rows
AtLeast-zero [] = tt
AtLeast-zero (s ∷ rows) = ((λ h. (omega arith, omega arith)), AtLeast-zero rows)

none_pending :
    (n : ℕ) (rows : List Shipment)
    → max_shipment_attempts < n
    → All (AtLeast n) rows
    → get_pending_shipments rows ≡ []
unfolding get_pending_shipments
none_pending n [] many least = refl
none_pending n (s ∷ rows) many (here, least) = elim (Bool-cases (is_pending s.status)) [
  | inl waits ↦ absurd (let (a, b) = here waits in omega arith)
  | inr done ↦ rw done (none_pending n rows many least)
]

-- Six passes leave no shipment pending.
pub ship_passes-none_pending :
    (c : Crypto) (secret : Option Bytes) (weathers : List Weather) (w : World)
    → max_shipment_attempts < length weathers
    → get_pending_shipments (ship_passes c secret weathers w).primary.queue.shipments ≡ []
ship_passes-none_pending c secret weathers w many = none_pending (length weathers) _ many (
    passes-AtLeast c secret weathers zero (length weathers) w (omega arith)
      (AtLeast-zero w.primary.queue.shipments))
