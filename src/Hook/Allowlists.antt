-- ===== src/Hook/Allowlists.antt =====
-- What the allowlist of contracts/programs/kraph-credits-hook holds, and whom it lets transfer.
use kraph_core.Prelude.{
  ℕ, ◌≡◌, ◌≢◌, ◌≤◌, ◌<◌, ◌↔◌, inl, inr, refl, arith, Bool, true, false, ◌||◌, ◌&&◌, not, ◌==◌, List,
  [], ◌∷◌, ◌++◌, none, some, length, length-append, Bool-cases, All,
}
use kraph_core.Hook.{
  Pubkey, Result, ok, err, allowlist_full, Allowlist, State, Outcome, contains, retain_others,
  max_entries, TransferHook, Instruction, initialize, add, remove, set_admin, transfer,
  initialize_allowlist, add_to_allowlist, remove_from_allowlist, transfer_admin, transfer_hook,
  execute, settle, run,
}

contains-append :
    (xs : List Pubkey) (w v : Pubkey) → contains (xs ++ w ∷ []) v ≡ (contains xs v || w == v)
contains-append [] w v = ground arith
contains-append (x ∷ xs) w v = ground (arith, contains-append xs w v)

contains-retain_others :
    (xs : List Pubkey) (w v : Pubkey)
    → contains (retain_others w xs) v ≡ (contains xs v && not (w == v))
contains-retain_others [] w v = refl
contains-retain_others (x ∷ xs) w v = elim (Bool-cases (x == w)) [
  | inl same ↦
      let q : x ≡ w = ground arith in rw same (ground (arith, q, contains-retain_others xs w v))
  | inr other ↦ rw other (ground (arith, contains-retain_others xs w v))
]

contains_path :
    (xs : List Pubkey) (w v : Pubkey) → contains xs w ≡ true → w ≡ v → contains xs v ≡ true
contains_path xs w v h q = rw q at h

abbrev pub listed : State → Pubkey → Bool
listed none w = false
listed (some a) w = contains a.entries w

-- The set of wallets after an instruction on an allowlist that is there.
abbrev pub listed_after : Instruction → (Pubkey → Bool) → Pubkey → Bool
listed_after (initialize created bump admin first) f w = f w
listed_after (add signer wallet) f w = f w || wallet == w
listed_after (remove signer wallet) f w = f w && not (wallet == w)
listed_after (set_admin signer admin) f w = f w
listed_after (transfer address ctx amount) f w = f w

add-listed :
    (signer wallet w : Pubkey) (a : Allowlist) (r : Outcome)
    → add_to_allowlist signer wallet (some a) ≡ ok r
    → listed r.0 w ≡ (contains a.entries w || wallet == w)
unfolding add_to_allowlist
add-listed signer wallet w a r done =
    ground (arith, contains-append a.entries wallet w, contains_path a.entries wallet w)

-- A successful instruction on an allowlist changes the set of listed wallets as its name says: an
-- addition adds its wallet, a removal takes its wallet out, and the others leave the set alone.
pub execute-listed :
    (i : Instruction) (a : Allowlist) (r : Outcome) (w : Pubkey)
    → execute i (some a) ≡ ok r
    → listed r.0 w ≡ listed_after i (listed (some a)) w
unfolding execute remove_from_allowlist initialize_allowlist transfer_admin transfer_hook
execute-listed (initialize created bump admin first) a r w done = ground arith
execute-listed (add signer wallet) a r w done = add-listed signer wallet w a r done
execute-listed (remove signer wallet) a r w done =
    ground (arith, contains-retain_others a.entries wallet w)
execute-listed (set_admin signer admin) a r w done = ground arith
execute-listed (transfer address ctx amount) a r w done = ground arith

-- Where the accounts of a transfer are the mint's own, the hook lets it pass exactly if the owner of
-- the source or the owner of the destination is listed, and leaves the allowlist as it is.
transfer_hook-listed :
    (address : Pubkey → Pubkey) (ctx : TransferHook) (amount : ℕ) (a : Allowlist)
    → ctx.source_mint ≡ ctx.mint
    → ctx.destination_mint ≡ ctx.mint
    → ctx.extra_account_meta_list ≡ address ctx.mint
    → (transfer_hook address ctx amount (some a) ≡ ok (some a, []))
      ↔ ((listed (some a) ctx.source_owner || listed (some a) ctx.destination_owner) ≡ true)
unfolding transfer_hook
transfer_hook-listed address ctx amount a source destination metas = ground arith

-- No wallet twice.
abbrev pub Distinct : List Pubkey → Type 0
Distinct [] = Unit
Distinct (w ∷ ws) = (contains ws w ≡ false) × Distinct ws

abbrev pub IsValid : State → Type 0
IsValid none = Unit
IsValid (some a) = (length a.entries ≤ max_entries) × Distinct a.entries

Distinct-append :
    (xs : List Pubkey) (w : Pubkey) → contains xs w ≡ false → Distinct xs → Distinct (xs ++ w ∷ [])
Distinct-append [] w new h = (refl, tt)
Distinct-append (x ∷ xs) w new (alone, rest) =
    (ground (arith, contains-append xs w x), Distinct-append xs w (ground arith) rest)

Distinct-retain_others :
    (xs : List Pubkey) (w : Pubkey) → Distinct xs → Distinct (retain_others w xs)
Distinct-retain_others [] w h = tt
Distinct-retain_others (x ∷ xs) w (alone, rest) = elim (Bool-cases (x == w)) [
  | inl same ↦ rw same (Distinct-retain_others xs w rest)
  | inr other ↦
      rw other (ground (arith, contains-retain_others xs w x), Distinct-retain_others xs w rest)
]

length-retain_others : (xs : List Pubkey) (w : Pubkey) → length (retain_others w xs) ≤ length xs
length-retain_others [] w = omega arith
length-retain_others (x ∷ xs) w = ground (arith, length-retain_others xs w)

-- Every instruction keeps an allowlist valid.
execute-IsValid :
    (i : Instruction) (s : State) (r : Outcome) → execute i s ≡ ok r → IsValid s → IsValid r.0
unfolding execute add_to_allowlist remove_from_allowlist initialize_allowlist transfer_admin
    transfer_hook
execute-IsValid (initialize created bump admin first) none r done h = ground arith
execute-IsValid (initialize created bump admin first) (some a) r done h = ground arith
execute-IsValid (add signer wallet) none r done h = ground arith
execute-IsValid (add signer wallet) (some a) r done (few, alone) =
    elim (Bool-cases (contains a.entries wallet)) [
      | inl there ↦ ground arith
      | inr new ↦
          let more = Distinct-append a.entries wallet new alone in
          ground (arith, more, length-append a.entries (wallet ∷ []))
    ]
execute-IsValid (remove signer wallet) none r done h = ground arith
execute-IsValid (remove signer wallet) (some a) r done (few, alone) =
    let rest = Distinct-retain_others a.entries wallet alone in
    ground (arith, rest, length-retain_others a.entries wallet)
execute-IsValid (set_admin signer admin) none r done h = ground arith
execute-IsValid (set_admin signer admin) (some a) r done h = ground arith
execute-IsValid (transfer address ctx amount) none r done h = ground arith
execute-IsValid (transfer address ctx amount) (some a) r done h = ground arith

settle-IsValid :
    (i : Instruction) (s : State) (r : Result Outcome)
    → execute i s ≡ r
    → IsValid s
    → IsValid (settle s r)
settle-IsValid i s (ok r) done h = execute-IsValid i s r done h
settle-IsValid i s (err e) done h = h

-- After any instructions the allowlist has at most 64 entries and names no wallet twice, if it did
-- before them or was not there.
pub run_hook-IsValid : (is : List Instruction) (s : State) → IsValid s → IsValid (run is s)
unfolding run
run_hook-IsValid [] s h = h
run_hook-IsValid (i ∷ is) s h = run_hook-IsValid is _ (settle-IsValid i s (execute i s) refl h)

-- The instruction is not one that `admin` signed.
abbrev pub IsForeign : Pubkey → Instruction → Type 0
IsForeign admin (initialize created bump a first) = Unit
IsForeign admin (add signer wallet) = signer ≢ admin
IsForeign admin (remove signer wallet) = signer ≢ admin
IsForeign admin (set_admin signer a) = signer ≢ admin
IsForeign admin (transfer address ctx amount) = Unit

settle_foreign :
    (i : Instruction) (a : Allowlist)
    → IsForeign a.admin i
    → settle (some a) (execute i (some a)) ≡ some a
unfolding execute add_to_allowlist remove_from_allowlist initialize_allowlist transfer_admin
    transfer_hook
settle_foreign (initialize created bump admin first) a h = ground arith
settle_foreign (add signer wallet) a h = ground arith
settle_foreign (remove signer wallet) a h = ground arith
settle_foreign (set_admin signer admin) a h = ground arith
settle_foreign (transfer address ctx amount) a h = ground arith

-- Without the signature of its admin nothing changes an allowlist: not its entries, and not who its
-- admin is.
pub run_foreign :
    (is : List Instruction) (a : Allowlist) → All (IsForeign a.admin) is → run is (some a) ≡ some a
unfolding run
run_foreign [] a h = refl
run_foreign (i ∷ is) a (here, rest) = rw (settle_foreign i a here) (run_foreign is a rest)

-- The comment on `add_to_allowlist` says that adding a listed wallet again is a no-op. With fewer
-- than 64 entries it is; with 64 it is refused as `AllowlistFull`.
add_listed_again :
    (a : Allowlist) (wallet : Pubkey)
    → listed (some a) wallet ≡ true
    → (length a.entries < max_entries → add_to_allowlist a.admin wallet (some a) ≡ ok (some a, []))
      × (length a.entries ≡ max_entries
          → add_to_allowlist a.admin wallet (some a) ≡ err allowlist_full)
unfolding add_to_allowlist
add_listed_again a wallet there = ground arith
