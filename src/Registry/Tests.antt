-- ===== src/Registry/Tests.antt =====
-- A platform that behaves as documented, on which the instructions of
-- contracts/programs/supaba-registry run, and ledgers to run them on.
use kraph_core.Prelude.{
  ℕ, ◌+◌, ◌-◌, ◌*◌, ◌≤◌, ◌≡◌, ◌≢◌, refl, arith, true, false, Option, none, some, List, [], ◌∷◌,
  ◌==◌, leb, ◌&&◌, Bool-cases, inl, inr, if◌then◌else◌,
}
use kraph_core.Prelude.Int.{ℤ, pos}
use kraph_core.Registry.Types.{Pubkey, SlashProofType, external}
use kraph_core.Registry.Ledger.{
  Result, ok, err, AccountData, empty, foreign, config_account, node_account, instance_account,
  escrow_account, TokenAccount, Ledger, update, Seeds, config_seeds, node_seeds, instance_seeds,
  escrow_seeds, Platform, Outcome,
}
use kraph_core.Registry.Program
use kraph_core.Registry.Program.{Instruction}
use kraph_core.Registry.Validity.{IsValid}
use kraph_core.Registry.Payments.{if_empty}
pub mod Nodes
pub mod Instances
pub mod Destroys
pub mod Payments

-- Addresses that are apart for the keys and ids of the tests.
abbrev pub address : Seeds → Pubkey
address config_seeds = 10
address (node_seeds operator) = 100 + operator
address (instance_seeds agent id) = 1000 + 100 * agent + id
address (escrow_seeds agent id) = 50000 + 100 * agent + id

abbrev derive : Seeds → ℕ → Option Pubkey
derive seeds bump = if bump == 255 then some (address seeds) else none

abbrev moved : (source target : Pubkey) (amount : ℕ) → Ledger → Pubkey → ℕ
moved source target amount l =
    let left = update l.lamports source (l.lamports source - amount) in
    update left target (left target + amount)

abbrev pay_from : (source target : Pubkey) (amount : ℕ) → Ledger → Result (Pubkey → ℕ)
pay_from source target amount l =
    if_empty (l.accounts source)
      (if leb amount (l.lamports source)
        then ok (moved source target amount l)
        else err (external 1))
      (err (external 2))

abbrev create : (payer account : Pubkey) (space : ℕ) → Ledger → Result (Pubkey → ℕ)
create payer account space l =
    if_empty (l.accounts account) (pay_from payer account space l) (err (external 0))

abbrev credit : TokenAccount → ℕ → TokenAccount
credit t amount = record t { amount = t.amount + amount }

abbrev debit : TokenAccount → ℕ → TokenAccount
debit t amount = record t { amount = t.amount - amount }

abbrev move_tokens :
    (source target authority : Pubkey) (amount : ℕ)
    → (Pubkey → Option TokenAccount)
    → Option TokenAccount
    → Option TokenAccount
    → Result (Pubkey → Option TokenAccount)
move_tokens source target authority amount tokens (some s) (some t) =
    if s.owner == authority && leb amount s.amount && s.mint == t.mint
    then ok (update (update tokens source (some (debit s amount))) target (some (credit t amount)))
    else err (external 3)
move_tokens source target authority amount tokens none t = err (external 4)
move_tokens source target authority amount tokens (some s) none = err (external 5)

abbrev open_token :
    (account mint authority : Pubkey)
    → Ledger
    → Option TokenAccount
    → Result ((Pubkey → ℕ) × (Pubkey → Option TokenAccount))
open_token account mint authority l (some t) = ok (l.lamports, l.tokens)
open_token account mint authority l none = ok (
  l.lamports,
  update l.tokens account (some (record { mint = mint; owner = authority; amount = 0 })),
)

pub create_account_fresh_lem :
    (payer account : Pubkey) (space : ℕ) (l : Ledger) (f : Pubkey → ℕ)
    → create payer account space l ≡ ok f
    → l.accounts account ≡ empty
create_account_fresh_lem payer account space l f done = ground arith

pay_from-source :
    (source target : Pubkey) (amount : ℕ) (l : Ledger) (f : Pubkey → ℕ)
    → pay_from source target amount l ≡ ok f
    → l.accounts source ≡ empty
pay_from-source source target amount l f done = ground arith

pay_from-ok :
    (source target : Pubkey) (amount : ℕ) (l : Ledger) (f : Pubkey → ℕ)
    → pay_from source target amount l ≡ ok f
    → f ≡ moved source target amount l
pay_from-ok source target amount l f done = ground arith

pay_from-moved :
    (source target : Pubkey) (amount : ℕ) (l : Ledger) (f : Pubkey → ℕ) (k : Pubkey)
    → pay_from source target amount l ≡ ok f
    → (source == k) ≡ false
    → f k ≡ (if target == k then l.lamports k + amount else l.lamports k)
pay_from-moved source target amount l f k done apart =
    rw (pay_from-ok source target amount l f done) (elim (Bool-cases (target == k)) [
      | inl same ↦ let q : target ≡ k = ground arith in rw (same, q, apart) refl
      | inr elsewhere ↦ rw (elsewhere, apart) refl
    ])

pub pay_from_lem :
    (source target : Pubkey) (amount : ℕ) (l : Ledger) (f : Pubkey → ℕ) (k : Pubkey)
    → pay_from source target amount l ≡ ok f
    → l.accounts k ≢ empty
    → (if target == k then l.lamports k + amount else l.lamports k) ≤ f k
pay_from_lem source target amount l f k done held = elim (Bool-cases (source == k)) [
  | inl same ↦
      let q : source ≡ k = ground arith in
      absurd (held (rw q at (pay_from-source source target amount l f done)))
  | inr apart ↦ rw (pay_from-moved source target amount l f k done apart) (omega arith)
]

create-pays :
    (payer account : Pubkey) (space : ℕ) (l : Ledger) (f : Pubkey → ℕ)
    → create payer account space l ≡ ok f
    → pay_from payer account space l ≡ ok f
create-pays payer account space l f done = ground arith

pub create_lem :
    (payer account : Pubkey) (space : ℕ) (l : Ledger) (f : Pubkey → ℕ) (k : Pubkey)
    → create payer account space l ≡ ok f
    → l.accounts k ≢ empty
    → l.lamports k ≤ f k
create_lem payer account space l f k done held =
    let more =
      pay_from_lem payer account space l f k (create-pays payer account space l f done) held in
    elim (Bool-cases (account == k)) [
      | inl same ↦ let bound = rw same at more in omega arith
      | inr apart ↦ rw apart at more
    ]

pub open_token_lem :
    (account mint authority : Pubkey) (l : Ledger) (o : Option TokenAccount)
    (r : (Pubkey → ℕ) × (Pubkey → Option TokenAccount)) (k : Pubkey)
    → open_token account mint authority l o ≡ ok r
    → l.lamports k ≤ r.0 k
open_token_lem account mint authority l o r k done = ground arith

abbrev pub platform : Platform
platform = record {
  find_program_address = λ seeds. (address seeds, 255);
  create_program_address = derive;
  create_account = create;
  system_transfer = pay_from;
  token_transfer = λ source target authority amount l.
      move_tokens source target authority amount l.tokens (l.tokens source) (l.tokens target);
  associated_token =
      λ payer account mint authority l. open_token account mint authority l (l.tokens account);
  create_find = λ seeds. refl;
  create_account_fresh = create_account_fresh_lem;
  create_account_lamports = create_lem;
  transfer_lamports = pay_from_lem;
  associated_token_lamports = λ payer account mint authority l r k done held.
      open_token_lem account mint authority l (l.tokens account) r k done;
}

-- No account has data yet, every address has lamports, and the agent 3 has tokens of the mint 7.
abbrev pub start : Ledger
start = record {
  accounts = λ k. empty;
  lamports = λ k. 10000;
  tokens = λ k.
      if k == 33
      then some (record { mint = 7; owner = 3; amount = 100000 })
      else if leb 70 k && leb k 79
      then some (record { mint = 7; owner = k; amount = 0 })
      else none;
}

-- The outcome of a run that succeeds.
abbrev pub taken : Result Outcome → Outcome
taken (ok r) = r
taken (err e) = (start, [])

abbrev pub initialize : Instruction
initialize =
    Program.initialize_config (record { config = 10; authority = 1 }) 500 3600 7 (pos 100) 50

abbrev pub register : Pubkey → Instruction
register operator =
    Program.register_node (record { node = 100 + operator; operator = operator; config = 10 }) [] 4
      []

abbrev pub deregister : Instruction
deregister = Program.deregister_node (record { node = 102; operator = 2 })

abbrev pub slash : Instruction
slash =
    Program.slash_node (record { node = 102; config = 10; authority = 1 }) SlashProofType.downtime

abbrev pub allocate : (id : ℕ) → List Pubkey → Instruction
allocate id replicas =
    Program.allocate_instance
      (record {
        instance_key = 1300 + id;
        primary_node = 102;
        agent = 3;
        remaining_accounts = replicas;
      })
      id replicas []

abbrev pub activate : (id : ℕ) → Instruction
activate id =
    Program.activate_instance
      (record { instance_key = 1300 + id; primary_node = 102; operator = 2 }) id

abbrev pub deposit : (id amount : ℕ) → Instruction
deposit id amount =
    Program.deposit_payment
      (record {
        escrow = 50300 + id;
        escrow_token_account = 33 + id;
        agent_token_account = 33;
        usdc_mint = 7;
        config = 10;
        agent = 3;
      })
      id amount

-- A configuration, two nodes, and an instance on the first.
abbrev pub setup : List (ℤ × Instruction)
setup =
    (pos 0, initialize)
    ∷ (pos 10, register 2)
    ∷ (pos 11, register 4)
    ∷ (pos 12, allocate 1 [])
    ∷ (pos 13, activate 1)
    ∷ []

pub start-IsValid : IsValid platform start
start-IsValid k = (tt, tt)
