-- ===== src/Registry/Life/Store.antt =====
-- How a write to one address, and Anchor's `init`, `seeds` and account loading, show in the lives of
-- the accounts of contracts/programs/supaba-registry.
use kraph_core.Prelude.{
  ℕ, ◌≤◌, ◌≡◌, ◌≢◌, ==_refl, true, false, arith, inl, inr, Bool-cases, ◌==◌, refl, ap, sym, ◌∙◌,
}
use kraph_core.Prelude.Int.{ℤ}
use kraph_core.Registry.Types.{
  Pubkey, NetworkConfig, NodeRecord, NodeStatus, has_status, InstanceRecord, InstanceStatus,
  has_instance_status, PaymentEscrow,
}
use kraph_core.Registry.Ledger.{
  ok, ◌>>=◌, AccountData, empty, config_account, node_account, instance_account, escrow_account,
  as_config, as_node, as_instance, as_escrow, Ledger, Platform, Seeds, update, init_account,
}
use kraph_core.Registry.Ensures.{Ensures, Ensures-ok, Ensures-bind, Ensures-constrain}
use kraph_core.Registry.Config.{load_config}
use kraph_core.Registry.Life.{Evolve, same}

module _ (p : Platform) (now : ℤ) (who : Pubkey) (l : Ledger) where
  -- A write of `d` to `key` over accounts that evolve elsewhere.
  pub Evolve-update :
      (f : Pubkey → AccountData) (key : Pubkey) (d : AccountData) (k : Pubkey)
      → Evolve p now who l key (l.accounts key) d
      → ((key == k) ≡ false → Evolve p now who l k (l.accounts k) (f k))
      → Evolve p now who l k (l.accounts k) (update f key d k)
  Evolve-update f key d k h g = elim (Bool-cases (key == k)) [
    | inl e ↦ let q : key ≡ k = ground arith in rw e (rw q at h)
    | inr e ↦ rw e (g e)
  ]

  -- A write to one address of the ledger as it was.
  pub Evolves-store :
      (key : Pubkey) (d : AccountData)
      → Evolve p now who l key (l.accounts key) d
      → (k : Pubkey) → Evolve p now who l k (l.accounts k) (update l.accounts key d k)
  Evolves-store key d h k = Evolve-update l.accounts key d k h (λ _. same refl)

update_ne :
    (f : Pubkey → AccountData) (key k : Pubkey) (d : AccountData)
    → (key == k) ≡ false
    → update f key d k ≡ f k
update_ne f key k d e = rw e

-- What a successful `init` says of the ledger `l'` that it leaves.
pub record IsInit (p : Platform) (key : Pubkey) (seeds : Seeds) (zero : AccountData) (l l' : Ledger)
    : Type 0 where
  pub found : (p.find_program_address seeds).0 ≡ key
  pub fresh : l.accounts key ≡ empty
  pub here : l'.accounts key ≡ zero
  pub elsewhere : (k : Pubkey) → (key == k) ≡ false → l'.accounts k ≡ l.accounts k
  pub tokens : l'.tokens ≡ l.tokens
  pub lamports : (k : Pubkey) → l.accounts k ≢ empty → l.lamports k ≤ l'.lamports k

pub init_account_lem :
    (p : Platform) (payer key : Pubkey) (space : ℕ) (seeds : Seeds) (zero : AccountData)
    (l : Ledger)
    → Ensures (IsInit p key seeds zero l) (init_account p payer key space seeds zero l)
unfolding init_account
init_account_lem p payer key space seeds zero l =
    Ensures-constrain _ _ _ λ (found : ((p.find_program_address seeds).0 == key) ≡ true).
      Ensures-bind _ _ λ f made. Ensures-ok _ (record {
        found = ground arith;
        fresh = p.create_account_fresh payer key space l f made;
        here = rw (==_refl key);
        elsewhere = λ k e. update_ne l.accounts key k zero e;
        tokens = refl;
        lamports = λ k held. p.create_account_lamports payer key space l f k made held;
      })

-- The address and the bump that `init` found.
pub IsInit-find :
    {p : Platform} {key : Pubkey} {seeds : Seeds} {zero : AccountData} {l l' : Ledger}
    → IsInit p key seeds zero l l'
    → p.find_program_address seeds ≡ (key, (p.find_program_address seeds).1)
IsInit-find {p} {key} {seeds} h = ap (λ a. (a, (p.find_program_address seeds).1)) h.found

-- What differs from `zero` after `init` was there before.
pub IsInit-kept :
    {p : Platform} {key : Pubkey} {seeds : Seeds} {zero : AccountData} {l l' : Ledger} (k : Pubkey)
    (d : AccountData)
    → IsInit p key seeds zero l l'
    → l'.accounts k ≡ d
    → d ≢ zero
    → l.accounts k ≡ d
IsInit-kept {key} {l} {l'} k d h e ne = elim (Bool-cases (key == k)) [
  | inl q ↦ let r : key ≡ k = ground arith in absurd (ne (sym e ∙ rw r at h.here))
  | inr q ↦ sym (h.elsewhere k q) ∙ e
]

-- Reading an account.
pub as_config_lem :
    (a : AccountData) (c : NetworkConfig) → as_config a ≡ ok c → a ≡ config_account c
unfolding as_config
as_config_lem a c h = ground arith

pub as_node_lem : (a : AccountData) (n : NodeRecord) → as_node a ≡ ok n → a ≡ node_account n
unfolding as_node
as_node_lem a n h = ground arith

pub as_instance_lem :
    (a : AccountData) (i : InstanceRecord) → as_instance a ≡ ok i → a ≡ instance_account i
unfolding as_instance
as_instance_lem a i h = ground arith

pub as_escrow_lem :
    (a : AccountData) (e : PaymentEscrow) → as_escrow a ≡ ok e → a ≡ escrow_account e
unfolding as_escrow
as_escrow_lem a e h = ground arith

pub load_config_lem :
    (p : Platform) (l : Ledger) (key : Pubkey) (c : NetworkConfig)
    → load_config p l key ≡ ok c
    → l.accounts key ≡ config_account c
unfolding load_config ◌>>=◌
load_config_lem p l key c h = as_config_lem (l.accounts key) c (ground arith)

-- Tests on a status.
pub has_status_lem : (s t : NodeStatus) → has_status s t ≡ true → s ≡ t
has_status_lem s t h = ground arith

pub has_instance_status_lem : (s t : InstanceStatus) → has_instance_status s t ≡ true → s ≡ t
has_instance_status_lem s t h = ground arith
