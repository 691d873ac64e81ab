-- ===== src/Registry/Destroys.antt =====
-- What `destroy_instance` of contracts/programs/supaba-registry checks.
use kraph_core.Prelude.{
  ℕ, ◌-◌, ◌≤◌, ◌<◌, ◌≡◌, refl, arith, true, false, Bool-cases, leb, ◌==◌, ==_refl, inl, inr, [],
  ◌∷◌,
}
use kraph_core.Prelude.Int.{ℤ}
use kraph_core.Registry.Types.{
  Pubkey, NodeRecord, InstanceRecord, InstanceStatus, PaymentEscrow, overflow, instance_destroyed,
}
use kraph_core.Registry.Ledger.{
  Result, ok, ◌>>=◌, checked_sub, require, constrain, Outcome, AccountData, node_account,
  instance_account, escrow_account, as_node, as_instance, as_escrow, Ledger, TokenAccount,
  load_token, Platform, instance_seeds, escrow_seeds, check_seeds, update,
}
use kraph_core.Registry.Ensures.{
  Ensures, Ensures-ok, Ensures-bind, Ensures-require, Ensures-constrain,
}
use kraph_core.Registry.Instances.{load_instance}
use kraph_core.Registry.Moves.{DestroyInstance, check_signer, refund, destroy_instance}
use kraph_core.Registry.Life.Instances.{load_instance_lem}
use kraph_core.Registry.Life.Store.{as_node_lem, as_escrow_lem}
pub mod Outcomes

settled : {r : Result (Unit {0})} {u : Unit {0}} → r ≡ ok u → r ≡ ok tt
settled done = done

load_instance_address :
    (p : Platform) (l : Ledger) (key : Pubkey) (agent : InstanceRecord → Pubkey) (id : ℕ)
    → Ensures
        (λ i. check_seeds p (instance_seeds (agent i) id) i.bump key ≡ ok tt)
        (load_instance p l key agent id)
unfolding load_instance
load_instance_address p l key agent id =
    Ensures-bind _ _
      λ i loaded. Ensures-bind _ _ λ (u : Unit {0}) addressed. Ensures-ok i (settled addressed)

-- Two addresses that hold records of different types differ.
instance_ne_node :
    (f : Pubkey → AccountData) (j k : Pubkey) {i : InstanceRecord} {n : NodeRecord}
    → f j ≡ instance_account i
    → f k ≡ node_account n
    → (k == j) ≡ false
instance_ne_node f j k at_j at_k = elim (Bool-cases (k == j)) [
  | inl same ↦ let q : k ≡ j = ground arith in absurd (cc (rw q at at_k, at_j))
  | inr apart ↦ apart
]

escrow_ne_node :
    (f : Pubkey → AccountData) (j k : Pubkey) {e : PaymentEscrow} {n : NodeRecord}
    → f j ≡ escrow_account e
    → f k ≡ node_account n
    → (k == j) ≡ false
escrow_ne_node f j k at_j at_k = elim (Bool-cases (k == j)) [
  | inl same ↦ let q : k ≡ j = ground arith in absurd (cc (rw q at at_k, at_j))
  | inr apart ↦ apart
]

escrow_ne_instance :
    (f : Pubkey → AccountData) (j k : Pubkey) {e : PaymentEscrow} {i : InstanceRecord}
    → f j ≡ escrow_account e
    → f k ≡ instance_account i
    → (k == j) ≡ false
escrow_ne_instance f j k at_j at_k = elim (Bool-cases (k == j)) [
  | inl same ↦ let q : k ≡ j = ground arith in absurd (cc (rw q at at_k, at_j))
  | inr apart ↦ apart
]

-- What a successful `destroy_instance` has checked.
record CanDestroy (p : Platform) (ctx : DestroyInstance) (id : ℕ) (l : Ledger) (i : InstanceRecord)
    (n : NodeRecord) (e : PaymentEscrow) (t t' : TokenAccount) : Type 0 where
  at_instance : l.accounts ctx.instance_key ≡ instance_account i
  instance_address : check_seeds p (instance_seeds ctx.agent id) i.bump ctx.instance_key ≡ ok tt
  own : (i.agent == ctx.agent) ≡ true
  at_primary : l.accounts ctx.primary_node ≡ node_account n
  its : (ctx.primary_node == i.primary_node) ≡ true
  at_escrow : l.accounts ctx.escrow ≡ escrow_account e
  escrow_address : check_seeds p (escrow_seeds ctx.agent id) e.bump ctx.escrow ≡ ok tt
  escrow_token : load_token l ctx.escrow_token_account ≡ ok t
  escrow_owner : (t.owner == ctx.escrow) ≡ true
  agent_token : load_token l ctx.agent_token_account ≡ ok t'
  agent_owner : (t'.owner == ctx.agent) ≡ true
  counted : leb 1 n.active_instances ≡ true

abbrev pub destroyed_instance : ℤ → InstanceRecord → InstanceRecord
destroyed_instance now i = record i { status = InstanceStatus.destroyed; updated_at = now }

abbrev pub relieved : NodeRecord → NodeRecord
relieved n = record n { active_instances = n.active_instances - 1 }

module _ (p : Platform) (now : ℤ) (ctx : DestroyInstance) (id : ℕ) (l : Ledger) where
  abbrev after_destroy : Ledger → InstanceRecord → NodeRecord → Pubkey → AccountData
  after_destroy l₁ i n =
      update (update l₁.accounts ctx.instance_key (instance_account (destroyed_instance now i)))
        ctx.primary_node (node_account (relieved n))

  -- What is known after one success.
  record IsDestroyed (r : Outcome) : Type 0 where
    i : InstanceRecord
    n : NodeRecord
    e : PaymentEscrow
    t : TokenAccount
    t' : TokenAccount
    can : CanDestroy p ctx id l i n e t t'
    l₁ : Ledger
    refunded : refund p ctx i e l ≡ ok l₁
    accounts : r.0.accounts ≡ after_destroy l₁ i n
    tokens : r.0.tokens ≡ l₁.tokens

  destroy_instance-IsDestroyed : Ensures IsDestroyed (destroy_instance p now ctx id l)
  unfolding destroy_instance
  destroy_instance-IsDestroyed = Ensures-bind _ _ λ (i : InstanceRecord) loaded.
      Ensures-require _ _ _ λ own. Ensures-bind _ _ λ (n : NodeRecord) primary.
        Ensures-require _ _ _ λ its. Ensures-bind _ _ λ e escrow. Ensures-bind _ _ λ u addressed.
          Ensures-bind _ _ λ t token. Ensures-constrain _ _ _ λ held_by_escrow.
            Ensures-bind _ _ λ t' token'. Ensures-constrain _ _ _ λ held_by_agent.
              Ensures-bind _ _
                λ active (lowered : checked_sub n.active_instances 1 overflow ≡ ok active).
                  Ensures-bind _ _ λ l₁ refunded.
                    let fewer : active ≡ n.active_instances - 1 = ground arith in
                    Ensures-ok _ (record {
                      i = i;
                      n = n;
                      e = e;
                      t = t;
                      t' = t';
                      can = record {
                        at_instance = load_instance_lem p l ctx.instance_key _ id i loaded;
                        instance_address =
                            (load_instance_address p l ctx.instance_key _ id).at i loaded;
                        own = own;
                        at_primary = as_node_lem _ n primary;
                        its = its;
                        at_escrow = as_escrow_lem _ e escrow;
                        escrow_address = settled addressed;
                        escrow_token = token;
                        escrow_owner = held_by_escrow;
                        agent_token = token';
                        agent_owner = held_by_agent;
                        counted = ground arith;
                      };
                      l₁ = l₁;
                      refunded = refunded;
                      accounts = rw fewer refl;
                      tokens = refl;
                    })

  -- With nothing to refund, what has been checked is enough.
  destroy_succeeds :
      (i : InstanceRecord) (n : NodeRecord) (e : PaymentEscrow) (t t' : TokenAccount)
      → CanDestroy p ctx id l i n e t t'
      → e.deposited ≡ e.distributed
      → destroy_instance p now ctx id l
        ≡ ok (
          record l { accounts = after_destroy l i n },
          instance_destroyed i.instance_id i.agent ∷ [],
        )
  unfolding destroy_instance load_instance refund ◌>>=◌ require constrain as_node as_instance
      as_escrow
  destroy_succeeds i n e t t' can spent = ground arith

  -- The records that a success has checked would be accepted again.
  CanDestroy-again :
      (i : InstanceRecord) (n : NodeRecord) (e : PaymentEscrow) (t t' : TokenAccount)
      → CanDestroy p ctx id l i n e t t'
      → 2 ≤ n.active_instances
      → CanDestroy p ctx id
          (record l { accounts = after_destroy l i n })
          (destroyed_instance now i)
          (relieved n)
          e
          t
          t'
  unfolding load_token
  CanDestroy-again i n e t t' can two =
      let f = l.accounts in
      let pi =
        instance_ne_node f ctx.instance_key ctx.primary_node can.at_instance can.at_primary in
      let pe = escrow_ne_node f ctx.escrow ctx.primary_node can.at_escrow can.at_primary in
      let ie = escrow_ne_instance f ctx.escrow ctx.instance_key can.at_escrow can.at_instance in
      record {
        at_instance = rw (pi, ==_refl ctx.instance_key) refl;
        instance_address = can.instance_address;
        own = can.own;
        at_primary = rw (==_refl ctx.primary_node) refl;
        its = can.its;
        at_escrow = rw (pe, ie) can.at_escrow;
        escrow_address = can.escrow_address;
        escrow_token = can.escrow_token;
        escrow_owner = can.escrow_owner;
        agent_token = can.agent_token;
        agent_owner = can.agent_owner;
        counted = ground arith;
      }
