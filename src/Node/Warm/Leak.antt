-- ===== src/Node/Warm/Leak.antt =====
-- What becomes of the pool of node-rs/src/warm_pool.rs under the foreign key of `port_allocations`.
use kraph_core.Prelude.{ℕ, ◌≡◌, ◌≢◌, ◌⊎◌, false, Option, none, some, List, [], ◌∷◌, any}
use kraph_core.Prelude.Bytes.{eq_bytes}
use kraph_core.Node.Paths.{Str}
use kraph_core.Node.Ports.{Ports, PortAllocation, allocate_port_block, with_allocations}
use kraph_core.Node.Warm.{WarmPool, PoolConfig, Attempt, WarmInstance, maintain}

-- An allocation that succeeds adds one row for the port.
abbrev Allocates : Ports → Option (ℕ × Ports) → Type 0
Allocates p none = Unit
Allocates p (some (port, q)) =
    q ≡ with_allocations (record { instance_id = none; base_port = port } ∷ p.allocations) p

-- The ports after an attempt: no block was free, or one more is allocated.
abbrev IsTaken : PoolConfig → (p q : Ports) → Type 0
IsTaken config p q =
    let answer = allocate_port_block config.port_range_start config.port_range_end p in
    ((q ≡ p) × (answer ≡ none))
    ⊎ (((row : PortAllocation) × (q.allocations ≡ row ∷ p.allocations) × (row.instance_id ≡ none))
        × (q.instances ≡ p.instances)
        × (answer ≢ none))

-- No stack comes of an attempt.
abbrev IsLost : PoolConfig → Ports → Option WarmInstance × Ports → Type 0
IsLost config p (made, q) = (made ≡ none) × IsTaken config p q

-- Passes of `maintain`, with the cutoff and the attempts of each.
unfoldable pub maintain_passes : PoolConfig → List (ℕ × (ℕ → Attempt)) → WarmPool → WarmPool
maintain_passes config [] w = w
maintain_passes config ((cutoff, attempt) ∷ rest) w =
    maintain_passes config rest (maintain config cutoff attempt w)

-- An empty pool over the ports.
abbrev pub empty_pool : Ports → WarmPool
empty_pool p = record { pool = []; ports = p }

-- The project names of the attempts are no instance ids.
abbrev pub IsForeign : List Str → (ℕ × (ℕ → Attempt)) → Type 0
IsForeign instances (cutoff, attempt) =
    any (λ i. eq_bytes i (attempt 0).compose_project) instances ≡ false
