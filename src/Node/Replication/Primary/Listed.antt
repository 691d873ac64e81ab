-- ===== src/Node/Replication/Primary/Listed.antt =====
-- The names that `process_instance_wal` of node-rs/src/replication.rs keeps differ where those that
-- `ls` lists do.
use kraph_core.Prelude.{
  ◌≤◌, ◌≡◌, refl, arith, Bool, true, false, Option, none, some, List, [], ◌∷◌, length, All, inl,
  inr, ◌⊎◌,
}
use kraph_core.Prelude.Bytes.{eq_bytes}
use kraph_core.Node.Paths.{Str}
use kraph_core.Node.Replication.Primary.{retain_valid, keep_valid, is_valid_wal_name}

abbrev pub IsDistinct : List Str → Type 0
IsDistinct [] = Unit
IsDistinct (n ∷ ns) = All (λ m. eq_bytes m n ≡ false) ns × IsDistinct ns

kept_cases :
    (m : Str) (test : Option Bool) (kept : Option (List Str)) (names : List Str)
    → keep_valid m test kept ≡ some names
    → ((rest : List Str) × (kept ≡ some rest) × (names ≡ m ∷ rest)) ⊎ (kept ≡ some names)
kept_cases m none kept names h = absurd (cc)
kept_cases m (some valid) none names h = absurd (cc)
kept_cases m (some true) (some rest) names h = inl (rest, refl, cc)
kept_cases m (some false) (some rest) names h = inr h

retain_cases :
    (m : Str) (listed names : List Str)
    → retain_valid (m ∷ listed) ≡ some names
    → ((rest : List Str) × (retain_valid listed ≡ some rest) × (names ≡ m ∷ rest))
      ⊎ (retain_valid listed ≡ some names)
retain_cases m listed names h = kept_cases m (is_valid_wal_name m) (retain_valid listed) names h

retain_apart :
    (n : Str) (listed names : List Str)
    → retain_valid listed ≡ some names
    → All (λ m. eq_bytes m n ≡ false) listed
    → All (λ m. eq_bytes m n ≡ false) names
retain_apart n [] names h apart = let q : [] ≡ names = cc in rw (← q) tt
retain_apart n (m ∷ listed) names h (here, apart) = elim (retain_cases m listed names h) [
  | inl (rest, at, q) ↦ rw q (here, retain_apart n listed rest at apart)
  | inr at ↦ retain_apart n listed names at apart
]

pub retain-IsDistinct :
    (listed names : List Str)
    → retain_valid listed ≡ some names
    → IsDistinct listed
    → IsDistinct names × (length names ≤ length listed)
retain-IsDistinct [] names h distinct = let q : [] ≡ names = cc in rw (← q) (tt, omega arith)
retain-IsDistinct (m ∷ listed) names h (apart, distinct) = elim (retain_cases m listed names h) [
  | inl (rest, at, q) ↦
      let (distinct', few) = retain-IsDistinct listed rest at distinct in
      rw q ((retain_apart m listed rest at apart, distinct'), omega arith)
  | inr at ↦
      let (distinct', few) = retain-IsDistinct listed names at distinct in (distinct', omega arith)
]
