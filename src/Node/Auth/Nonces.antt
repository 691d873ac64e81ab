-- ===== src/Node/Auth/Nonces.antt =====
-- The nonces that the signature check of node-rs/src/sigauth.rs has recorded.
use kraph_core.Prelude.{
  ℕ, ◌+◌, ◌≡◌, ◌≤◌, ◌<◌, refl, arith, true, false, Bool-cases, inl, inr, Option, none, some, [],
  ◌∷◌, ltb,
}
use kraph_core.Prelude.Bytes.{Bytes, eq_bytes, eq_bytes_refl, eq_bytes_lem}
use kraph_core.Node.Auth.{
  NonceMap, nonce_retention, retain_live, lookup, set_expiry, record_entry, clean,
  check_and_record_nonce,
}

-- The map holds a nonce until `until` at least.
abbrev pub IsHeld : Bytes → ℕ → NonceMap → Type 0
IsHeld n until map = (e : ℕ) × (lookup n map ≡ some e) × (until ≤ e)

lookup-retain_live :
    (now : ℕ) (n : Bytes) (map : NonceMap) (e : ℕ)
    → lookup n map ≡ some e
    → now < e
    → lookup n (retain_live now map) ≡ some e
lookup-retain_live now n [] e found live = absurd (cc)
lookup-retain_live now n ((m, x) ∷ rest) e found live = elim (Bool-cases (eq_bytes m n)) [
  | inl same ↦
      let q : x ≡ e = ground (arith, found, same) in
      let test : ltb now x ≡ true = ground arith in rw test (rw (same, q) refl)
  | inr other ↦
      let later = lookup-retain_live now n rest e (rw other at found) live in
      elim (Bool-cases (ltb now x)) [
        | inl kept ↦ rw kept (rw other later)
        | inr gone ↦ rw gone later
      ]
]

lookup-set_expiry_same :
    (n : Bytes) (x : ℕ) (map : NonceMap) (e : ℕ)
    → lookup n map ≡ some e
    → lookup n (set_expiry n x map) ≡ some x
lookup-set_expiry_same n x [] e found = absurd (cc)
lookup-set_expiry_same n x ((m, y) ∷ rest) e found = elim (Bool-cases (eq_bytes m n)) [
  | inl same ↦ rw same (rw same refl)
  | inr other ↦ rw other (rw other (lookup-set_expiry_same n x rest e (rw other at found)))
]

lookup-set_expiry_other :
    (n m : Bytes) (x : ℕ) (map : NonceMap)
    → eq_bytes n m ≡ false
    → lookup m (set_expiry n x map) ≡ lookup m map
lookup-set_expiry_other n m x [] apart = refl
lookup-set_expiry_other n m x ((k, y) ∷ rest) apart = elim (Bool-cases (eq_bytes k n)) [
  | inl same ↦ let q = eq_bytes_lem k n same in rw q (rw (eq_bytes_refl n) (rw apart refl))
  | inr other ↦ rw other (ground (arith, lookup-set_expiry_other n m x rest apart))
]

clean-IsHeld :
    (now : ℕ) (n : Bytes) (until : ℕ) (map : NonceMap)
    → now < until
    → IsHeld n until map
    → IsHeld n until (clean now map)
clean-IsHeld now n until map soon (e, found, late) =
    (e, ground (arith, lookup-retain_live now n map e found (omega arith)), late)

-- Another nonce's entry, where the held one is live.
other_nonce :
    (now : ℕ) (m n : Bytes) (map : NonceMap) (o : Option ℕ) (e : ℕ)
    → lookup m map ≡ o
    → lookup n map ≡ some e
    → (o ≡ some e → ⊥)
    → eq_bytes m n ≡ false
other_nonce now m n map o e at found apart = elim (Bool-cases (eq_bytes m n)) [
  | inl same ↦ let q = eq_bytes_lem m n same in absurd (apart (cc (rw q at at, found)))
  | inr other ↦ other
]

record_entry-IsHeld :
    (now : ℕ) (m n : Bytes) (until : ℕ) (map : NonceMap) (o : Option ℕ)
    → now < until
    → lookup m map ≡ o
    → IsHeld n until map
    → IsHeld n until (record_entry now m map o).1 × (m ≡ n → (record_entry now m map o).0 ≡ false)
record_entry-IsHeld now m n until map none soon at (e, found, late) =
    let other = other_nonce now m n map none e at found (λ q. absurd (cc)) in
    ((e, rw other found, late), λ same. absurd (cc (rw same at at, found)))
record_entry-IsHeld now m n until map (some x) soon at (e, found, late) =
    elim (Bool-cases (ltb now x)) [
      | inl live ↦ rw live ((e, found, late), λ same. refl)
      | inr dead ↦
          let apart : some x ≡ some e → ⊥ = λ q. absurd (ground arith) in
          let other = other_nonce now m n map (some x) e at found apart in
          let elsewhere = lookup-set_expiry_other m n (now + nonce_retention) map other in
          rw dead
            ((e, rw elsewhere found, late), λ same. absurd (apart (cc (rw same at at, found))))
    ]

pub check_and_record_nonce-IsHeld :
    (now : ℕ) (m n : Bytes) (until : ℕ) (map : NonceMap)
    → now < until
    → IsHeld n until map
    → IsHeld n until (check_and_record_nonce now m map).1
      × (m ≡ n → (check_and_record_nonce now m map).0 ≡ false)
unfolding check_and_record_nonce
check_and_record_nonce-IsHeld now m n until map soon held =
    let cleaned = clean-IsHeld now n until map soon held in
    record_entry-IsHeld now m n until (clean now map) (lookup m (clean now map)) soon refl cleaned

record_entry-lookup :
    (now : ℕ) (n : Bytes) (map : NonceMap) (o : Option ℕ)
    → lookup n map ≡ o
    → (record_entry now n map o).0 ≡ true
    → lookup n (record_entry now n map o).1 ≡ some (now + nonce_retention)
record_entry-lookup now n map none at fresh = rw (eq_bytes_refl n) refl
record_entry-lookup now n map (some x) at fresh = elim (Bool-cases (ltb now x)) [
  | inl live ↦ absurd (cc (rw live at fresh))
  | inr dead ↦ rw dead (lookup-set_expiry_same n (now + nonce_retention) map x at)
]

-- A nonce that is accepted is recorded for the retention.
pub lookup-check_and_record_nonce :
    (now : ℕ) (n : Bytes) (map : NonceMap)
    → (check_and_record_nonce now n map).0 ≡ true
    → lookup n (check_and_record_nonce now n map).1 ≡ some (now + nonce_retention)
unfolding check_and_record_nonce
lookup-check_and_record_nonce now n map fresh =
    record_entry-lookup now n (clean now map) (lookup n (clean now map)) refl fresh
