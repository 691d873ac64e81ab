-- ===== src/Node/Ports/Blocks.antt =====
-- The blocks that the allocation of node-rs/src/db/mod.rs finds.
use kraph_core.Prelude.{
  ℕ, ◌+◌, ◌^◌, ◌≤◌, ◌<◌, ◌≡◌, ◌⊎◌, refl, arith, Bool, true, false, Option, none, some, List, [],
  ◌∷◌, ◌==◌, ltb, leb, any, All, Bool-cases, inl, inr, if◌then◌else◌,
}
use kraph_core.Node.Ports.Sorting.{IsSorted, All-sorted, sorted-All, sorted-IsSorted}
use kraph_core.Node.Ports.{
  Ports, ports_per_instance, block_end, sorted, base_ports, find_gap, with_allocations,
  allocate_port_block,
}

-- The blocks at two ports have no port in common.
abbrev pub IsApart : (p q : ℕ) → Type 0
IsApart p q = (p + ports_per_instance ≤ q) ⊎ (q + ports_per_instance ≤ p)

-- A block is free if it has no port in common with an allocated one.
abbrev pub IsFree : List ℕ → ℕ → Type 0
IsFree allocated p = All (IsApart p) allocated

abbrev pub IsBelow : (end : ℕ) → List ℕ → Type 0
IsBelow end ports = All (λ q. q + ports_per_instance ≤ end) ports

no_wrap :
    (p end : ℕ) → p + ports_per_instance ≤ end → end < 2 ^ 16 → block_end p ≡ p + ports_per_instance
no_wrap p end le small = omega arith

-- What the walk from a candidate finds: the first free block, where the ports are in order.
abbrev Found : (candidate end : ℕ) → List ℕ → ℕ → Type 0
Found candidate end ports g =
    (candidate ≤ g)
    × (g ≤ end)
    × IsFree ports g
    × ((c : ℕ) → candidate ≤ c → c < g → IsFree ports c → ⊥)

later-IsFree :
    (candidate used : ℕ) (ports : List ℕ)
    → candidate + ports_per_instance ≤ used
    → All (λ r. used ≤ r) ports
    → IsFree ports candidate
later-IsFree candidate used [] le least = tt
later-IsFree candidate used (r ∷ ports) le (h, least) =
    (inl (omega arith), later-IsFree candidate used ports le least)

-- The candidate after a used block that is not past it.
next_candidate :
    (candidate used end : ℕ)
    → used + ports_per_instance ≤ end
    → end < 2 ^ 16
    → candidate ≤ end
    → let next = if ltb candidate (block_end used) then block_end used else candidate in
      (candidate ≤ next)
      × (used + ports_per_instance ≤ next)
      × (next ≤ end)
      × ((next ≡ candidate) ⊎ (next ≡ used + ports_per_instance))
next_candidate candidate used end below small le =
    rw (no_wrap used end below small)
      (elim (Bool-cases (ltb candidate (used + ports_per_instance))) [
        | inl less ↦ rw less (ground arith, omega arith, omega arith, inr refl)
        | inr more ↦ rw more (omega arith, ground arith, omega arith, inl refl)
      ])

-- A free block from the candidate on does not start before the next candidate.
past_next :
    (candidate used next c : ℕ)
    → ((next ≡ candidate) ⊎ (next ≡ used + ports_per_instance))
    → used < candidate + ports_per_instance
    → candidate ≤ c
    → IsApart c used
    → next ≤ c
past_next candidate used next c (inl same) met from free = omega arith
past_next candidate used next c (inr moved) met from (inl before) = absurd (omega arith)
past_next candidate used next c (inr moved) met from (inr after) = omega arith

choose-Found :
    (candidate end : ℕ) (ports : List ℕ) (g h : ℕ) (gap : Bool)
    → (gap ≡ true → Found candidate end ports g)
    → (gap ≡ false → Found candidate end ports h)
    → Found candidate end ports (if gap then g else h)
choose-Found candidate end ports g h true here later = here refl
choose-Found candidate end ports g h false here later = later refl

find_gap-Found :
    (candidate end : ℕ) (ports : List ℕ)
    → IsSorted ports
    → IsBelow end ports
    → end + ports_per_instance < 2 ^ 16
    → candidate ≤ end
    → Found candidate end ports (find_gap candidate ports)
unfolding find_gap
find_gap-Found candidate end [] order below small le =
    (omega arith, le, tt, λ c low high free. omega arith)
find_gap-Found candidate end (used ∷ ports) (least, order) (here, below) small le =
    let next = if ltb candidate (block_end used) then block_end used else candidate in
    let (forward, past, in_range, which) =
      next_candidate candidate used end here (omega arith) le in
    let (low, high, free, first) = find_gap-Found next end ports order below small in_range in
    let wide : block_end candidate ≡ candidate + ports_per_instance = omega arith in
    choose-Found candidate end (used ∷ ports) candidate (find_gap next ports)
      (leb (block_end candidate) used)
      (λ gap. (
        omega arith,
        le,
        (
          inl (ground (arith, wide, gap)),
          later-IsFree candidate used ports (ground (arith, wide, gap)) least,
        ),
        λ c a b f. omega arith,
      ))
      (λ taken. (
        omega arith,
        high,
        (inr (omega arith), free),
        λ c a b f.
            first c (past_next candidate used next c which (ground (arith, wide, taken)) a f.0) b
              f.1,
      ))

-- What an allocation says: the port it gives, and the table then, or that it fails.
abbrev pub IsAnswer : (range_start range_end : ℕ) → Ports → Option (ℕ × Ports) → Type 0
IsAnswer start end p none =
    (c : ℕ) → start ≤ c → c + ports_per_instance ≤ end → IsFree (base_ports p.allocations) c → ⊥
IsAnswer start end p (some (port, q)) =
    (start ≤ port)
    × (port + ports_per_instance ≤ end)
    × IsFree (base_ports p.allocations) port
    × (q ≡ with_allocations (record { instance_id = none; base_port = port } ∷ p.allocations) p)

free_new : (port : ℕ) (ports : List ℕ) → IsFree ports port → any (λ q. q == port) ports ≡ false
free_new port [] free = refl
free_new port (q ∷ ports) (inl before, free) =
    let apart : (q == port) ≡ false = ground arith in rw apart (free_new port ports free)
free_new port (q ∷ ports) (inr after, free) =
    let apart : (q == port) ≡ false = ground arith in rw apart (free_new port ports free)

-- An allocation gives the base of a block in the range that has no port in common with an allocated
-- block, and records it, and it fails only if the range has no such block. So it is where the range
-- ends at least ten ports below 2^16 and the allocated blocks end in the range.
pub allocate_port_block-IsAnswer :
    (start end : ℕ) (p : Ports)
    → start ≤ end
    → end + ports_per_instance < 2 ^ 16
    → IsBelow end (base_ports p.allocations)
    → IsAnswer start end p (allocate_port_block start end p)
unfolding allocate_port_block
allocate_port_block-IsAnswer start end p range small below =
    let ports = base_ports p.allocations in
    let g = find_gap start (sorted ports) in
    let below' = All-sorted (λ q. q + ports_per_instance ≤ end) ports below in
    let (low, high, free, first) =
      find_gap-Found start end (sorted ports) (sorted-IsSorted ports) below' small range in
    let wide : block_end g ≡ g + ports_per_instance = omega arith in
    let free' = sorted-All (IsApart g) ports free in
    elim (Bool-cases (ltb end (block_end g))) [
      | inl full ↦ rw full (λ c from to f.
          first c from (ground (arith, wide, full)) (All-sorted (IsApart c) ports f))
      | inr room ↦
          rw room (rw (free_new g ports free') (low, ground (arith, wide, room), free', refl))
    ]
