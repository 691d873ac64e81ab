-- ===== src/Node/Ports.antt =====
-- The port blocks of the instances: the table `port_allocations` and the statements on it
-- (node-rs/src/db/mod.rs, node-rs/src/db/schema.rs). The arithmetic on `u16` wraps, as in a release
-- build. Foreign keys are enforced.
use kraph_core.Prelude.{
  ℕ, ◌+◌, ◌%◌, ◌^◌, Bool, true, false, not, ◌&&◌, Option, none, some, List, [], ◌∷◌, map, ◌==◌, ltb,
  leb, any, if◌then◌else◌,
}
use kraph_core.Prelude.Bytes.{eq_bytes}
use kraph_core.Node.Paths.{Str}
pub mod Sorting
pub mod Blocks

abbrev pub ports_per_instance : ℕ
ports_per_instance = 10

pub record PortAllocation : Type 0 where
  pub instance_id : Option Str
  pub base_port : ℕ

-- The allocations, and the ids of the rows of `instances`.
pub record Ports : Type 0 where
  pub allocations : List PortAllocation
  pub instances : List Str

-- `port + PORTS_PER_INSTANCE`
abbrev pub block_end : ℕ → ℕ
block_end port = (port + ports_per_instance) % 2 ^ 16

-- `ORDER BY base_port`
abbrev pub insert_sorted : ℕ → List ℕ → List ℕ
insert_sorted p [] = p ∷ []
insert_sorted p (q ∷ ports) =
    let rest = insert_sorted p ports in if leb p q then p ∷ q ∷ ports else q ∷ rest

abbrev pub sorted : List ℕ → List ℕ
sorted [] = []
sorted (p ∷ ports) = insert_sorted p (sorted ports)

abbrev pub base_ports : List PortAllocation → List ℕ
base_ports rows = map (λ r. r.base_port) rows

-- The walk through the allocated ports, up to a gap.
unfoldable pub find_gap : (candidate : ℕ) → (allocated : List ℕ) → ℕ
find_gap candidate [] = candidate
find_gap candidate (used ∷ allocated) =
    let next = if ltb candidate (block_end used) then block_end used else candidate in
    let rest = find_gap next allocated in if leb (block_end candidate) used then candidate else rest

abbrev pub with_allocations : List PortAllocation → Ports → Ports
with_allocations rows p = record { allocations = rows; instances = p.instances }

-- `INSERT`, which fails on a base port that is there: `base_port` is unique.
abbrev pub insert_allocation : ℕ → Ports → Option Ports
insert_allocation port p =
    if any (λ q. q == port) (base_ports p.allocations)
    then none
    else some (with_allocations (record { instance_id = none; base_port = port } ∷ p.allocations) p)

abbrev pub allocated_at : ℕ → Option Ports → Option (ℕ × Ports)
allocated_at port none = none
allocated_at port (some p) = some (port, p)

unfoldable pub allocate_port_block : (range_start range_end : ℕ) → Ports → Option (ℕ × Ports)
allocate_port_block start end p =
    let candidate = find_gap start (sorted (base_ports p.allocations)) in
    if ltb end (block_end candidate)
    then none
    else allocated_at candidate (insert_allocation candidate p)

-- `INSERT OR IGNORE`
abbrev pub or_ignore : Ports → Option Ports → Ports
or_ignore p none = p
or_ignore p (some q) = q

abbrev pub allocate_port_block_at : ℕ → Ports → Ports
allocate_port_block_at port p = or_ignore p (insert_allocation port p)

abbrev pub is_bound_to : Str → Option Str → Bool
is_bound_to id none = false
is_bound_to id (some other) = eq_bytes other id

abbrev pub unbound_from : Str → List PortAllocation → List PortAllocation
unbound_from id [] = []
unbound_from id (r ∷ rows) =
    let rest = unbound_from id rows in if is_bound_to id r.instance_id then rest else r ∷ rest

abbrev pub free_port_block : Str → Ports → Ports
free_port_block id p = with_allocations (unbound_from id p.allocations) p

abbrev pub bound_at : ℕ → Str → List PortAllocation → List PortAllocation
bound_at port id [] = []
bound_at port id (r ∷ rows) =
    let rest = bound_at port id rows in
    (if r.base_port == port then record { instance_id = some id; base_port = r.base_port } else r)
    ∷ rest

abbrev pub has_instance : Str → Ports → Bool
has_instance id p = any (λ i. eq_bytes i id) p.instances

-- The update fails if it would leave a row that names no instance.
unfoldable pub bind_port_to_instance : ℕ → Str → Ports → Option Ports
bind_port_to_instance port id p =
    if any (λ q. q == port) (base_ports p.allocations) && not (has_instance id p)
    then none
    else some (with_allocations (bound_at port id p.allocations) p)
