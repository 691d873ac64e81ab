-- ===== src/Hook/Tests.antt =====
-- Runs of the instructions of contracts/programs/kraph-credits-hook.
use kraph_core.Prelude.{ℕ, zero, suc, ◌+◌, ◌≡◌, refl, arith, some, List, [], ◌∷◌}
use kraph_core.Hook.{
  Pubkey, ok, Allowlist, TransferHook, add, remove, transfer, allowlist_removed,
  remove_from_allowlist, execute, run,
}
use kraph_core.Hook.Allowlists.{
  listed, listed_after, IsValid, execute-listed, run_hook-IsValid, run_foreign,
}

-- The wallets 1, 2, ..., n.
abbrev wallets : ℕ → List Pubkey
wallets zero = []
wallets (suc n) = suc n ∷ wallets n

abbrev two : Allowlist
two = record { admin = 9; bump = 255; entries = 5 ∷ 6 ∷ [] }

abbrev full : Allowlist
full = record { admin = 9; bump = 255; entries = wallets 64 }

removed :
    execute (remove 9 5) (some two)
    ≡ ok (some (record two { entries = 6 ∷ [] }), allowlist_removed 5 ∷ [])
unfolding execute remove_from_allowlist
removed = refl

execute-listed_example :
    listed (some (record two { entries = 6 ∷ [] })) 5
    ≡ listed_after (remove 9 5) (listed (some two)) 5
execute-listed_example =
    execute-listed (remove 9 5) two
      (some (record two { entries = 6 ∷ [] }), allowlist_removed 5 ∷ []) 5 removed

abbrev grant : TransferHook
grant = record {
  source_mint = 1;
  source_owner = 5;
  mint = 1;
  destination_mint = 1;
  destination_owner = 70;
  extra_account_meta_list = 11;
}

run_hook-IsValid_example : IsValid (run (add 9 7 ∷ add 9 7 ∷ remove 9 5 ∷ []) (some two))
run_hook-IsValid_example =
    run_hook-IsValid (add 9 7 ∷ add 9 7 ∷ remove 9 5 ∷ []) (some two)
      (omega arith, (refl, (refl, tt)))

run_foreign_example :
    run (add 5 7 ∷ transfer (λ mint. mint + 10) grant 50 ∷ []) (some two) ≡ some two
run_foreign_example =
    run_foreign (add 5 7 ∷ transfer (λ mint. mint + 10) grant 50 ∷ []) two
      ((λ same. absurd (omega (arith, same))), (tt, tt))
