-- ===== src/Registry/Life/Nodes.antt =====
-- The node instructions of contracts/programs/supaba-registry keep to the life of an account.
use kraph_core.Prelude.{
  ℕ, ◌*◌, ◌/◌, ◌≤◌, ◌<◌, ◌≡◌, ◌⊎◌, refl, Option, none, some, true, arith, inl, inr, ◌==◌, length,
  leb, ltb,
}
use kraph_core.Prelude.Int.{ℤ, leb_ℤ, saturating_sub_i64}
use kraph_core.Registry.Types.{
  Pubkey, Bytes, NetworkConfig, NodeRecord, NodeStatus, SlashProofType, overflow,
}
use kraph_core.Registry.Ledger.{
  config_account, Ledger, ok, ◌>>=◌, Outcome, node_account, Platform, AccountData, update,
  checked_sub, require, node_seeds,
}
use kraph_core.Registry.Ensures.{Ensures, Ensures-ok, Ensures-bind, Ensures-require}
use kraph_core.Registry.Nodes.{
  OperatorNode, RegisterNode, ClaimStake, SlashNode, heartbeat, deregister_node, update_node,
  claim_stake, slash_node, register_node, initial_node, load_own_node, set_endpoint, set_capacity,
  set_region, slash_amount, move_lamports, max_endpoint_len, max_region_len,
}
use kraph_core.Registry.Life.{
  Evolve, Evolves, NodeStep, node, new_node, updated, beat, deregistered, claimed, slashed, same,
}
use kraph_core.Registry.Life.Store.{
  Evolve-update, Evolves-store, as_node_lem, load_config_lem, has_status_lem, IsInit-find,
  IsInit-kept, init_account_lem,
}

pub load_own_node_lem :
    (p : Platform) (l : Ledger) (key operator : Pubkey) (n : NodeRecord)
    → load_own_node p l key operator ≡ ok n
    → (l.accounts key ≡ node_account n) × (n.operator ≡ operator)
unfolding load_own_node require ◌>>=◌
load_own_node_lem p l key operator n h =
    (as_node_lem (l.accounts key) n (ground arith), ground arith)

pub move_lamports_lem :
    (source target : Pubkey) (amount : ℕ) (l l' : Ledger)
    → move_lamports source target amount l ≡ ok l'
    → l'.accounts ≡ l.accounts
unfolding move_lamports ◌>>=◌
move_lamports_lem source target amount l l' h = ground arith

set_endpoint_lem :
    (o : Option Bytes) (n n' : NodeRecord)
    → set_endpoint o n ≡ ok n'
    → (ep : Bytes) × (n' ≡ record n { endpoint = ep })
      × ((ep ≡ n.endpoint) ⊎ (length ep ≤ max_endpoint_len))
unfolding set_endpoint require ◌>>=◌
set_endpoint_lem none n n' h = (n.endpoint, ground arith, inl refl)
set_endpoint_lem (some ep) n n' h = (ep, ground arith, inr (ground arith))

set_capacity_lem :
    (o : Option ℕ) (n n' : NodeRecord)
    → set_capacity o n ≡ ok n'
    → (c : ℕ) × (n' ≡ record n { capacity = c })
      × ((c ≡ n.capacity) ⊎ ((0 < c) × (n.active_instances ≤ c)))
unfolding set_capacity require ◌>>=◌
set_capacity_lem none n n' h = (n.capacity, ground arith, inl refl)
set_capacity_lem (some c) n n' h = (c, ground arith, inr (ground arith, ground arith))

set_region_lem :
    (o : Option Bytes) (n n' : NodeRecord)
    → set_region o n ≡ ok n'
    → (r : Bytes) × (n' ≡ record n { region = r }) × ((r ≡ n.region) ⊎ (length r ≤ max_region_len))
unfolding set_region require ◌>>=◌
set_region_lem none n n' h = (n.region, ground arith, inl refl)
set_region_lem (some r) n n' h = (r, ground arith, inr (ground arith))

slash_amount_lem :
    (c : NetworkConfig) (n : NodeRecord) {amount : ℕ}
    → slash_amount c n ≡ ok amount
    → amount ≡ n.stake * c.slash_percentage / 100
unfolding slash_amount ◌>>=◌
slash_amount_lem c n h = ground arith

module _ (p : Platform) (now : ℤ) (l : Ledger) where
  abbrev Kept : Pubkey → Outcome → Type 0
  Kept who r = Evolves p now who l r.0

  -- One node record is written, and nothing else.
  pub node-Evolves :
      (who key : Pubkey) (n n' : NodeRecord) (f : Pubkey → AccountData)
      → f ≡ l.accounts
      → l.accounts key ≡ node_account n
      → NodeStep now who l n n'
      → (k : Pubkey) → Evolve p now who l k (l.accounts k) (update f key (node_account n') k)
  node-Evolves who key n n' f e found step k =
      rw e (Evolves-store p now who l key (node_account n') (node n n' found step refl) k)

  pub update_node-Evolves :
      (ctx : OperatorNode) (endpoint : Option Bytes) (capacity : Option ℕ) (region : Option Bytes)
      → Ensures (Kept ctx.operator) (update_node p ctx endpoint capacity region l)
  unfolding update_node
  update_node-Evolves ctx endpoint capacity region = Ensures-bind _ _ λ n loaded.
      let own = load_own_node_lem p l ctx.node ctx.operator n loaded in
      Ensures-require _ _ _ λ active. Ensures-bind _ _ λ n₁ e₁. Ensures-bind _ _ λ n₂ e₂.
        Ensures-bind _ _ λ n₃ e₃.
          Ensures-ok _
            let (ep, p₁, b₁) = set_endpoint_lem endpoint n n₁ e₁ in
              let (c, p₂, b₂) = set_capacity_lem capacity n₁ n₂ e₂ in
              let (r, p₃, b₃) = set_region_lem region n₂ n₃ e₃ in
              node-Evolves ctx.operator ctx.node n n₃ l.accounts refl own.0 (
                updated ep c r own.1 (has_status_lem n.status NodeStatus.active active) b₁
                  (ground arith) (ground arith) (ground arith))

  pub heartbeat-Evolves : (ctx : OperatorNode) → Ensures (Kept ctx.operator) (heartbeat p now ctx l)
  unfolding heartbeat
  heartbeat-Evolves ctx = Ensures-bind _ _ λ n loaded.
      let own = load_own_node_lem p l ctx.node ctx.operator n loaded in
      Ensures-require _ _ _ λ active. Ensures-ok _ (
        node-Evolves ctx.operator ctx.node n _ l.accounts refl own.0
          (beat own.1 (has_status_lem n.status NodeStatus.active active) refl))

  pub deregister_node-Evolves :
      (ctx : OperatorNode) → Ensures (Kept ctx.operator) (deregister_node p now ctx l)
  unfolding deregister_node
  deregister_node-Evolves ctx = Ensures-bind _ _ λ n loaded.
      let own = load_own_node_lem p l ctx.node ctx.operator n loaded in
      Ensures-require _ _ _ λ active. Ensures-ok _ (
        node-Evolves ctx.operator ctx.node n _ l.accounts refl own.0
          (deregistered own.1 (has_status_lem n.status NodeStatus.active active) refl))

  pub claim_stake-Evolves :
      (ctx : ClaimStake) → Ensures (Kept ctx.operator) (claim_stake p now ctx l)
  unfolding claim_stake
  claim_stake-Evolves ctx = Ensures-bind _ _ λ n loaded.
      let own = load_own_node_lem p l ctx.node ctx.operator n loaded in
      Ensures-bind _ _ λ c config. Ensures-require _ _ _ λ leaving.
        Ensures-require _ _ _ λ (idle : (n.active_instances == 0) ≡ true).
          Ensures-require _ _ _
            λ (cooled : leb_ℤ c.deregistration_cooldown (saturating_sub_i64 now n.last_heartbeat)
                ≡ true).
              Ensures-bind _ _ λ l₁ moved. Ensures-ok _ (
                node-Evolves ctx.operator ctx.node n _ l₁.accounts
                  (move_lamports_lem ctx.node ctx.operator n.stake l l₁ moved) own.0
                  (claimed ctx.config c (load_config_lem p l ctx.config c config) own.1
                    (has_status_lem n.status NodeStatus.deregistering leaving) (ground arith)
                    (ground arith) refl))

  pub slash_node-Evolves :
      (ctx : SlashNode) (proof : SlashProofType)
      → Ensures (Kept ctx.authority) (slash_node p ctx proof l)
  unfolding slash_node
  slash_node-Evolves ctx proof = Ensures-bind _ _ λ n loaded.
      Ensures-bind _ _ λ (c : NetworkConfig) config.
        Ensures-require _ _ _ λ (authority : (c.authority == ctx.authority) ≡ true).
          Ensures-bind _ _ λ amount slash.
            Ensures-bind _ _ λ stake (kept : checked_sub n.stake amount overflow ≡ ok stake).
              Ensures-bind _ _ λ l₁ moved. Ensures-ok _ (
                node-Evolves ctx.authority ctx.node n
                  (record n { stake = stake; status = NodeStatus.suspended }) l₁.accounts
                  (move_lamports_lem ctx.node ctx.authority amount l l₁ moved)
                  (as_node_lem _ n loaded)
                  (slashed ctx.config c amount (load_config_lem p l ctx.config c config)
                    (ground arith) (slash_amount_lem c n slash) (ground arith) (ground arith)))

  pub register_node-Evolves :
      (ctx : RegisterNode) (endpoint : Bytes) (capacity : ℕ) (region : Bytes)
      → Ensures (Kept ctx.operator) (register_node p now ctx endpoint capacity region l)
  unfolding register_node
  register_node-Evolves ctx endpoint capacity region = Ensures-bind _ _ λ l₁ made.
      Ensures-bind _ _ λ (c : NetworkConfig) config.
        Ensures-require _ _ _ λ (short : leb (length endpoint) max_endpoint_len ≡ true).
          Ensures-require _ _ _ λ (near : leb (length region) max_region_len ≡ true).
            Ensures-require _ _ _ λ (room : ltb 0 capacity ≡ true). Ensures-bind _ _ λ f paid.
              let init = (init_account_lem p ctx.operator ctx.node _ _ _ l).at l₁ made in
              Ensures-ok _ λ k.
                Evolve-update p now ctx.operator l l₁.accounts ctx.node _ k
                  (new_node
                    (initial_node now ctx.operator endpoint capacity c.min_stake region
                      (p.find_program_address (node_seeds ctx.operator)).1)
                    init.fresh
                    (record {
                      signed = refl;
                      endpoint = ground arith;
                      region = ground arith;
                      capacity = ground arith;
                      idle = refl;
                      status = refl;
                      registered = refl;
                      seen = refl;
                      config_key = ctx.config;
                      config = c;
                      has_config =
                          IsInit-kept ctx.config (config_account c) init
                            (load_config_lem p l₁ ctx.config c config) (λ e. absurd (cc));
                      staked = refl;
                    })
                    (IsInit-find init) refl)
                  (λ e. same (init.elsewhere k e))
