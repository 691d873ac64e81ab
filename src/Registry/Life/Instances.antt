-- ===== src/Registry/Life/Instances.antt =====
-- `allocate_instance`, `activate_instance`, `update_instance_status` and `commit_merkle_root` of
-- contracts/programs/supaba-registry keep to the life of an account.
use kraph_core.Prelude.{ℕ, ◌≡◌, refl, true, List, arith, ltb, leb, ◌==◌, length}
use kraph_core.Prelude.Int.{ℤ}
use kraph_core.Registry.Types.{
  Pubkey, Bytes, NodeRecord, NodeStatus, InstanceRecord, InstanceStatus, zero_instance,
}
use kraph_core.Registry.Ledger.{
  Ledger, ok, ◌>>=◌, require, u8_max, checked_add, Outcome, node_account, instance_account,
  Platform, update, instance_seeds,
}
use kraph_core.Registry.Ensures.{Ensures, Ensures-ok, Ensures-bind, Ensures-require}
use kraph_core.Registry.Instances.{
  AllocateInstance, OperatorInstance, UpdateInstanceStatus, initial_instance, instance_record_size,
  max_replica_nodes, max_encrypted_dek_len, load_instance, load_operated, check_transition,
  allocate_instance, activate_instance, update_instance_status, commit_merkle_root,
}
use kraph_core.Registry.Life.{
  Evolve, Evolves, InstanceStep, IsEntitled, node, held, new_instance, gained, activated, requested,
  committed, same,
}
use kraph_core.Registry.Life.Store.{
  Evolve-update, Evolves-store, as_node_lem, as_instance_lem, has_status_lem,
  has_instance_status_lem, IsInit-find, IsInit-kept, init_account_lem,
}

pub load_instance_lem :
    (p : Platform) (l : Ledger) (key : Pubkey) (agent : InstanceRecord → Pubkey) (id : ℕ)
    (i : InstanceRecord)
    → load_instance p l key agent id ≡ ok i
    → l.accounts key ≡ instance_account i
unfolding load_instance ◌>>=◌
load_instance_lem p l key agent id i h = as_instance_lem (l.accounts key) i (ground arith)

-- The instance, and the primary node whose operator signs.
record IsOperated (l : Ledger) (ctx : OperatorInstance) (i : InstanceRecord) : Type 0 where
  found : l.accounts ctx.instance_key ≡ instance_account i
  primary : NodeRecord
  at_primary : l.accounts i.primary_node ≡ node_account primary
  signed : primary.operator ≡ ctx.operator

load_operated_lem :
    (p : Platform) (l : Ledger) (ctx : OperatorInstance) (id : ℕ)
    → Ensures (IsOperated l ctx) (load_operated p l ctx id)
unfolding load_operated
load_operated_lem p l ctx id = Ensures-bind _ _ λ (i : InstanceRecord) loaded.
    Ensures-bind _ _ λ (n : NodeRecord) primary.
      Ensures-require _ _ _ λ (its : (ctx.primary_node == i.primary_node) ≡ true).
        Ensures-require _ _ _ λ (own : (n.operator == ctx.operator) ≡ true).
          let same_key : ctx.primary_node ≡ i.primary_node = ground arith in
          Ensures-ok _ (record {
            found = load_instance_lem p l ctx.instance_key _ id i loaded;
            primary = n;
            at_primary = rw same_key at (as_node_lem _ n primary);
            signed = ground arith;
          })

check_transition_lem :
    (who agent operator : Pubkey) (s : InstanceStatus)
    → check_transition (who == agent) (who == operator) s ≡ ok tt
    → IsEntitled who agent operator s
unfolding check_transition require
check_transition_lem who agent operator InstanceStatus.suspended h = ground arith
check_transition_lem who agent operator InstanceStatus.destroyed h = ground arith
check_transition_lem who agent operator InstanceStatus.migrating h = ground arith
check_transition_lem who agent operator InstanceStatus.provisioning h = cc
check_transition_lem who agent operator InstanceStatus.active h = cc

module _ (p : Platform) (now : ℤ) (l : Ledger) where
  abbrev Kept : Pubkey → Outcome → Type 0
  Kept who r = Evolves p now who l r.0

  -- One instance record is written, and nothing else.
  instance-Evolves :
      (who key : Pubkey) (i i' : InstanceRecord)
      → l.accounts key ≡ instance_account i
      → InstanceStep now who l i i'
      → (k : Pubkey)
      → Evolve p now who l k (l.accounts k) (update l.accounts key (instance_account i') k)
  instance-Evolves who key i i' found step k =
      Evolves-store p now who l key (instance_account i') (held i i' found step refl) k

  pub activate_instance-Evolves :
      (ctx : OperatorInstance) (id : ℕ)
      → Ensures (Kept ctx.operator) (activate_instance p now ctx id l)
  unfolding activate_instance
  activate_instance-Evolves ctx id = Ensures-bind _ _ λ i loaded. Ensures-require _ _ _ λ waiting.
      Ensures-ok _
        let o = (load_operated_lem p l ctx id).at i loaded in
          (instance-Evolves ctx.operator ctx.instance_key i _ o.found (
            activated o.primary o.at_primary o.signed
              (has_instance_status_lem i.status InstanceStatus.provisioning waiting) refl))

  pub commit_merkle_root-Evolves :
      (ctx : OperatorInstance) (id root : ℕ)
      → Ensures (Kept ctx.operator) (commit_merkle_root p now ctx id root l)
  unfolding commit_merkle_root
  commit_merkle_root-Evolves ctx id root = Ensures-bind _ _ λ i loaded.
      Ensures-require _ _ _ λ live.
        Ensures-ok _
          let o = (load_operated_lem p l ctx id).at i loaded in
            (instance-Evolves ctx.operator ctx.instance_key i _ o.found (
              committed o.primary root o.at_primary o.signed
                (has_instance_status_lem i.status InstanceStatus.active live) refl))

  pub update_instance_status-Evolves :
      (ctx : UpdateInstanceStatus) (id : ℕ) (status : InstanceStatus)
      → Ensures (Kept ctx.signer) (update_instance_status p now ctx id status l)
  unfolding update_instance_status
  update_instance_status-Evolves ctx id status = Ensures-bind _ _ λ (i : InstanceRecord) loaded.
      Ensures-bind _ _ λ (n : NodeRecord) primary.
        Ensures-require _ _ _ λ (its : (ctx.primary_node == i.primary_node) ≡ true).
          Ensures-bind _ _
            λ u
                (allowed : check_transition (ctx.signer == i.agent) (ctx.signer == n.operator)
                    status
                  ≡ ok u).
              Ensures-ok _
                let same_key : ctx.primary_node ≡ i.primary_node = ground arith in
                  (instance-Evolves ctx.signer ctx.instance_key i _
                    (load_instance_lem p l ctx.instance_key _ id i loaded)
                    (requested n status
                      (rw same_key at (as_node_lem (l.accounts ctx.primary_node) n primary))
                      (check_transition_lem ctx.signer i.agent n.operator status allowed) refl))

  pub allocate_instance-Evolves :
      (ctx : AllocateInstance) (id : ℕ) (replicas : List Pubkey) (dek : Bytes)
      → Ensures (Kept ctx.agent) (allocate_instance p now ctx id replicas dek l)
  unfolding allocate_instance
  allocate_instance-Evolves ctx id replicas dek = Ensures-bind _ _ λ l₁ made.
      Ensures-bind _ _ λ (n : NodeRecord) primary. Ensures-require _ _ _ λ up.
        Ensures-require _ _ _ λ (few : leb (length replicas) max_replica_nodes ≡ true).
          Ensures-require _ _ _ λ (short : leb (length dek) max_encrypted_dek_len ≡ true).
            Ensures-require _ _ _ λ still_up.
              Ensures-require _ _ _ λ (room : ltb n.active_instances n.capacity ≡ true).
                Ensures-require _ _ _ λ paired. Ensures-bind _ _ λ u checked.
                  Ensures-bind _ _
                    λ active (raised : checked_add u8_max n.active_instances 1 ≡ ok active).
                      Ensures-ok _
                        let seeds = instance_seeds ctx.agent id in
                          let init =
                            (init_account_lem p ctx.agent ctx.instance_key instance_record_size
                                seeds (instance_account zero_instance) l).at
                              l₁ made in
                          let i =
                            initial_instance now ctx.agent id ctx.primary_node replicas dek
                              (p.find_program_address seeds).1 in
                          let n' : NodeRecord = record n { active_instances = active } in
                          λ k.
                            Evolve-update p now ctx.agent l
                              (update l₁.accounts ctx.instance_key (instance_account i))
                              ctx.primary_node (node_account n') k
                              (node n n'
                                (IsInit-kept ctx.primary_node (node_account n) init
                                  (as_node_lem _ n primary) (λ e. cc))
                                (gained (has_status_lem n.status NodeStatus.active up)
                                  (ground arith) (ground arith) (ground arith))
                                refl)
                              (λ _.
                                Evolve-update p now ctx.agent l l₁.accounts ctx.instance_key
                                  (instance_account i) k
                                  (new_instance i init.fresh
                                    (record {
                                      signed = refl;
                                      replicas = ground arith;
                                      dek = ground arith;
                                      status = refl;
                                      root = refl;
                                      created = refl;
                                    })
                                    (IsInit-find init) refl)
                                  (λ e. same (init.elsewhere k e)))
