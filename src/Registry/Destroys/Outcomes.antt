-- ===== src/Registry/Destroys/Outcomes.antt =====
-- What a successful `destroy_instance` of contracts/programs/supaba-registry leaves, and that it
-- can succeed again.
use kraph_core.Prelude.{
  ℕ, ◌-◌, ◌≤◌, ◌<◌, ◌≡◌, refl, arith, true, leb, ◌==◌, ==_refl, [], ◌∷◌, some, ap, Option-cases,
  inl, inr,
}
use kraph_core.Prelude.Int.{ℤ}
use kraph_core.Registry.Types.{
  Pubkey, NodeRecord, InstanceRecord, PaymentEscrow, instance_destroyed,
}
use kraph_core.Registry.Ledger.{
  ok, ◌>>=◌, Outcome, AccountData, node_account, instance_account, escrow_account, Ledger, Platform,
  TokenAccount, load_token,
}
use kraph_core.Registry.Moves.{DestroyInstance, check_signer, refund, destroy_instance}
use kraph_core.Registry.Destroys.{
  instance_ne_node, destroyed_instance, relieved, after_destroy, destroy_instance-IsDestroyed,
  destroy_succeeds, CanDestroy-again,
}

node_injective :
    {a : AccountData} {n n' : NodeRecord} → a ≡ node_account n → a ≡ node_account n' → n ≡ n'
node_injective f g = cc

instance_injective :
    {a : AccountData} {i i' : InstanceRecord}
    → a ≡ instance_account i
    → a ≡ instance_account i'
    → i ≡ i'
instance_injective f g = cc

escrow_injective :
    {a : AccountData} {e e' : PaymentEscrow} → a ≡ escrow_account e → a ≡ escrow_account e' → e ≡ e'
escrow_injective f g = cc

loaded_token :
    (l : Ledger) (k : Pubkey) (t : TokenAccount) → load_token l k ≡ ok t → l.tokens k ≡ some t
unfolding load_token
loaded_token l k t h = elim (Option-cases (l.tokens k)) [
  | inl none_there ↦ absurd (cc (rw (none_there, load_token) at h))
  | inr (t', at) ↦ let q : t' ≡ t = cc (rw (at, load_token) at h) in rw at (ap some q)
]

-- What a refund moves.
refund-moves :
    (p : Platform) (ctx : DestroyInstance) (i : InstanceRecord) (e : PaymentEscrow) (l l₁ : Ledger)
    → refund p ctx i e l ≡ ok l₁
    → e.distributed < e.deposited
    → p.token_transfer ctx.escrow_token_account ctx.agent_token_account ctx.escrow
        (e.deposited - e.distributed)
        l
      ≡ ok l₁.tokens
unfolding refund ◌>>=◌ check_signer
refund-moves p ctx i e l l₁ done some_left = ground arith

module _ (p : Platform) (now : ℤ) (ctx : DestroyInstance) (id : ℕ) (l : Ledger) (i : InstanceRecord)
    (n : NodeRecord) (e : PaymentEscrow) (r : Outcome)
    (at_instance : l.accounts ctx.instance_key ≡ instance_account i)
    (at_primary : l.accounts ctx.primary_node ≡ node_account n)
    (at_escrow : l.accounts ctx.escrow ≡ escrow_account e)
    (done : destroy_instance p now ctx id l ≡ ok r) where
  -- A successful `destroy_instance` is on the instance's own primary node and asked for by its
  -- agent; it marks the instance as destroyed, takes one off the node's count, and transfers all that
  -- was deposited and not distributed, when that is more than nothing, from a token account that
  -- the escrow owns to one that the agent owns.
  pub destroy_settles :
      (i.agent ≡ ctx.agent)
      × (i.primary_node ≡ ctx.primary_node)
      × (r.0.accounts ctx.instance_key ≡ instance_account (destroyed_instance now i))
      × (0 < n.active_instances)
      × (r.0.accounts ctx.primary_node ≡ node_account (relieved n))
      × ((t : TokenAccount) × (l.tokens ctx.escrow_token_account ≡ some t) × (t.owner ≡ ctx.escrow))
      × ((t : TokenAccount) × (l.tokens ctx.agent_token_account ≡ some t) × (t.owner ≡ ctx.agent))
      × (e.distributed < e.deposited
          → p.token_transfer ctx.escrow_token_account ctx.agent_token_account ctx.escrow
              (e.deposited - e.distributed)
              l
            ≡ ok r.0.tokens)
  destroy_settles =
      let d = (destroy_instance-IsDestroyed p now ctx id l).at r done in
      let can = d.can in
      let same_i : d.i ≡ i = instance_injective can.at_instance at_instance in
      let same_n : d.n ≡ n = node_injective can.at_primary at_primary in
      let same_e : d.e ≡ e = escrow_injective can.at_escrow at_escrow in
      let apart =
        instance_ne_node l.accounts ctx.instance_key ctx.primary_node at_instance at_primary in
      let own : (i.agent == ctx.agent) ≡ true = rw same_i at (can.own) in
      let its : (ctx.primary_node == i.primary_node) ≡ true = rw same_i at (can.its) in
      let from_escrow : d.t.owner ≡ ctx.escrow =
        let h : (d.t.owner == ctx.escrow) ≡ true = can.escrow_owner in ground arith in
      let to_agent : d.t'.owner ≡ ctx.agent =
        let h : (d.t'.owner == ctx.agent) ≡ true = can.agent_owner in ground arith in
      let counted : leb 1 n.active_instances ≡ true = rw same_n at (can.counted) in
      (
        ground arith,
        ground arith,
        rw (d.accounts, apart, ==_refl ctx.instance_key, same_i) refl,
        ground arith,
        rw (d.accounts, ==_refl ctx.primary_node, same_n) refl,
        (d.t, loaded_token l ctx.escrow_token_account d.t can.escrow_token, from_escrow),
        (d.t', loaded_token l ctx.agent_token_account d.t' can.agent_token, to_agent),
        λ left. rw (d.tokens) (refund-moves p ctx d.i e l d.l₁ (rw same_e at (d.refunded)) left),
      )

  -- A `destroy_instance` that has succeeded, with nothing left in the escrow and another instance on
  -- the node, succeeds again at any later time: the node loses a second count for one instance.
  pub destroy_again :
      e.deposited ≡ e.distributed
      → 2 ≤ n.active_instances
      → (later : ℤ)
      → (r' : Outcome) × (destroy_instance p later ctx id r.0 ≡ ok r')
        × (r'.0.accounts ctx.primary_node
            ≡ node_account (record n { active_instances = n.active_instances - 2 }))
  destroy_again spent two later =
      let d = (destroy_instance-IsDestroyed p now ctx id l).at r done in
      let can = d.can in
      let same_n : d.n ≡ n = node_injective can.at_primary at_primary in
      let same_e : d.e ≡ e = escrow_injective can.at_escrow at_escrow in
      let empty_escrow : d.e.deposited ≡ d.e.distributed = rw same_e spent in
      let enough : 2 ≤ d.n.active_instances = rw same_n two in
      let first = destroy_succeeds p now ctx id l d.i d.n d.e d.t d.t' can empty_escrow in
      let same_r : r.0 ≡ record l { accounts = after_destroy p now ctx id l l d.i d.n } = cc in
      let again = CanDestroy-again p now ctx id l d.i d.n d.e d.t d.t' can enough in
      let second =
        destroy_succeeds p later ctx id
          (record l { accounts = after_destroy p now ctx id l l d.i d.n })
          (destroyed_instance now d.i) (relieved d.n) d.e d.t d.t' again empty_escrow in
      let twice : d.n.active_instances - 1 - 1 ≡ d.n.active_instances - 2 = omega arith in
      let l₁ = record l { accounts = after_destroy p now ctx id l l d.i d.n } in
      (
        (
          record l₁ {
            accounts =
                after_destroy p later ctx id l₁ l₁ (destroyed_instance now d.i) (relieved d.n);
          },
          instance_destroyed d.i.instance_id d.i.agent ∷ [],
        ),
        rw same_r second,
        rw (==_refl ctx.primary_node, twice, same_n) refl,
      )
