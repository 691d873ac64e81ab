-- ===== src/Node/Warm.antt =====
-- The pool of stacks that are started before they are asked for (node-rs/src/warm_pool.rs). Times are
-- numbers of seconds. What the file system and Docker do, the random id and the time of each attempt
-- are arguments. A stack's directory is made from its id and not kept here.
use kraph_core.Prelude.{
  ℕ, zero, suc, ◌+◌, ◌-◌, Bool, true, false, Option, none, some, List, [], ◌∷◌, ◌++◌, ◌==◌, ltb,
  length, if◌then◌else◌,
}
use kraph_core.Node.Paths.{Str}
use kraph_core.Node.Ports.{Ports, allocate_port_block, bind_port_to_instance, free_port_block}
pub mod Leak

pub record WarmInstance : Type 0 where
  pub compose_project_name : Str
  pub base_port : ℕ
  pub created_at : ℕ

-- `config.warm_pool_size`, `config.port_range_start` and `config.port_range_end`
pub record PoolConfig : Type 0 where
  pub warm_pool_size : ℕ
  pub port_range_start : ℕ
  pub port_range_end : ℕ

pub record WarmPool : Type 0 where
  pub pool : List WarmInstance
  pub ports : Ports

-- The files are not written, `docker compose` cannot be run, exits with an error, or starts the stack.
pub data Started : Type 0 where
  no_files not_run compose_failed started : Started

-- `supaba-warm-{warm_id}`, and what comes of the attempt.
pub record Attempt : Type 0 where
  pub compose_project : Str
  pub outcome : Started
  pub now : ℕ

abbrev pub finish : Attempt → (base_port : ℕ) → Started → Ports → Option WarmInstance × Ports
finish a port no_files p = (none, p)
finish a port not_run p = (none, p)
finish a port compose_failed p = (none, free_port_block a.compose_project p)
finish a port started p = (
  some (record { compose_project_name = a.compose_project; base_port = port; created_at = a.now }),
  p,
)

-- After `bind_port_to_instance`: an error ends the attempt.
abbrev pub after_bind :
    Attempt → (base_port : ℕ) → (allocated : Ports) → Option Ports → Option WarmInstance × Ports
after_bind a port allocated none = (none, allocated)
after_bind a port allocated (some p) = finish a port a.outcome p

abbrev pub after_allocate : Attempt → Ports → Option (ℕ × Ports) → Option WarmInstance × Ports
after_allocate a p none = (none, p)
after_allocate a p (some (port, q)) =
    after_bind a port q (bind_port_to_instance port a.compose_project q)

unfoldable pub provision_warm_instance : PoolConfig → Attempt → Ports → Option WarmInstance × Ports
provision_warm_instance config a p =
    after_allocate a p (allocate_port_block config.port_range_start config.port_range_end p)

-- The stacks that are not older than an hour, and the blocks of the others freed.
abbrev pub drain_stale : (stale_cutoff : ℕ) → List WarmInstance → Ports → List WarmInstance × Ports
drain_stale cutoff [] p = ([], p)
drain_stale cutoff (i ∷ pool) p =
    let stale = ltb i.created_at cutoff in
    let (kept, q) =
      drain_stale cutoff pool (if stale then free_port_block i.compose_project_name p else p) in
    (if stale then kept else i ∷ kept, q)

-- `Vec::push`
abbrev pub push : Option WarmInstance → List WarmInstance → List WarmInstance
push none pool = pool
push (some i) pool = pool ++ i ∷ []

abbrev pub is_provisioned : Option WarmInstance → Bool
is_provisioned none = false
is_provisioned (some i) = true

-- The loop of `maintain`, up to the first error. The `n`th attempt is `attempt n`.
unfoldable pub provision_needed :
    PoolConfig → (attempt : ℕ → Attempt) → (n needed : ℕ) → WarmPool → WarmPool
provision_needed config attempt n zero w = w
provision_needed config attempt n (suc needed) w =
    let (made, ports) = provision_warm_instance config (attempt n) w.ports in
    let next : WarmPool = record { pool = push made w.pool; ports = ports } in
    let rest = provision_needed config attempt (suc n) needed next in
    if is_provisioned made then rest else next

unfoldable pub maintain :
    PoolConfig → (stale_cutoff : ℕ) → (attempt : ℕ → Attempt) → WarmPool → WarmPool
maintain config cutoff attempt w =
    let (kept, ports) = drain_stale cutoff w.pool w.ports in
    let drained : WarmPool = record { pool = kept; ports = ports } in
    let full = provision_needed config attempt 0 (config.warm_pool_size - length kept) drained in
    if config.warm_pool_size == 0 then w else full

-- `Vec::pop`
abbrev pub popped :
    WarmInstance → Option WarmInstance × List WarmInstance → Option WarmInstance × List WarmInstance
popped i (none, rest) = (some i, [])
popped i (some last, rest) = (some last, i ∷ rest)

abbrev pub pop : List WarmInstance → Option WarmInstance × List WarmInstance
pop [] = (none, [])
pop (i ∷ pool) = popped i (pop pool)

abbrev pub take : WarmPool → Option WarmInstance × WarmPool
take w = let (last, rest) = pop w.pool in (last, record { pool = rest; ports = w.ports })

-- Whether the pool got a stack.
abbrev pub replenish : PoolConfig → Attempt → WarmPool → Bool × WarmPool
replenish config a w =
    let (made, ports) = provision_warm_instance config a w.ports in
    (is_provisioned made, record { pool = push made w.pool; ports = ports })
