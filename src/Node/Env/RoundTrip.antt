-- ===== src/Node/Env/RoundTrip.antt =====
-- What is stored as an environment variable is read back (node-rs/src/db/mod.rs).
use kraph_core.Prelude.{
  ◌+◌, ◌≡◌, ◌⊎◌, refl, ap, arith, Bool, true, false, not, ◌&&◌, Option, none, some, List, [], ◌∷◌,
  ◌++◌, ==_refl, ltb, take, drop, length, length-append, Bool-cases, Option-cases, inl, inr,
}
use kraph_core.Prelude.Bytes.{Bytes, eq_bytes, eq_bytes_lem, eq_bytes_refl}
use kraph_core.Node.Paths.{Str}
use kraph_core.Node.Env.{
  Sealing, EnvRow, env_aad, env_nonce_len, prefix_v2, strip_prefix, encrypt_env_value,
  open_envelope, decrypt_env_value, is_at, find_env, put_env, is_protected, load_instance_dek,
  upsert_env_with_protection,
}

strip_lem : (prefix text : Str) → strip_prefix prefix (prefix ++ text) ≡ some text
unfolding strip_prefix
strip_lem [] text = refl
strip_lem (p ∷ prefix) text = rw (==_refl p) (strip_lem prefix text)

pub take_append : (xs ys : Bytes) → take (length xs) (xs ++ ys) ≡ xs
take_append [] ys = refl
take_append (x ∷ xs) ys = ap (λ zs. x ∷ zs) (take_append xs ys)

pub drop_append : (xs ys : Bytes) → drop (length xs) (xs ++ ys) ≡ ys
drop_append [] ys = refl
drop_append (x ∷ xs) ys = drop_append xs ys

open_lem :
    (c : Sealing) (dek nonce aad sealed : Bytes) (value : Str)
    → length nonce ≡ env_nonce_len
    → c.encrypt dek nonce aad (c.utf8 value) ≡ some sealed
    → open_envelope c (some dek) aad (some (nonce ++ sealed)) ≡ some value
open_lem c dek nonce aad sealed value size at =
    let tag = c.encrypt-tag dek nonce aad (c.utf8 value) at in
    let long : ltb (length (nonce ++ sealed)) (env_nonce_len + 16) ≡ false =
      ground (arith, length-append nonce sealed, size, tag) in
    let front : take env_nonce_len (nonce ++ sealed) ≡ nonce =
      rw size at (take_append nonce sealed) in
    let back : drop env_nonce_len (nonce ++ sealed) ≡ sealed =
      rw size at (drop_append nonce sealed) in
    rw (long, front, back)
      (rw (c.decrypt-encrypt dek nonce aad (c.utf8 value) at) (c.from_utf8-utf8 value))

decrypt-encrypt_env_value :
    (c : Sealing) (dek nonce : Bytes) (id key value stored : Str)
    → length nonce ≡ env_nonce_len
    → encrypt_env_value c dek nonce id key value ≡ some stored
    → decrypt_env_value c (some dek) id key stored ≡ some value
unfolding encrypt_env_value decrypt_env_value
decrypt-encrypt_env_value c dek nonce id key value stored size sealed_as =
    let aad = env_aad c id key in
    elim (Option-cases (c.encrypt dek nonce aad (c.utf8 value))) [
      | inl failed ↦ absurd (cc (rw failed at sealed_as))
      | inr (sealed, at) ↦
          let q : prefix_v2 ++ c.base64 (nonce ++ sealed) ≡ stored = cc (rw at at sealed_as) in
          let payload = c.base64 (nonce ++ sealed) in
          rw (← q) (
            rw (strip_lem prefix_v2 payload) (
              rw (c.unbase64-base64 (nonce ++ sealed))
                (open_lem c dek nonce aad sealed value size at)))
    ]

-- The wrapper fails only where the cipher does.
encrypt_env_value-none :
    (c : Sealing) (dek nonce : Bytes) (id key value : Str)
    → encrypt_env_value c dek nonce id key value ≡ none
    → c.encrypt dek nonce (c.utf8 id ++ 124 ∷ c.utf8 key) (c.utf8 value) ≡ none
unfolding encrypt_env_value
encrypt_env_value-none c dek nonce id key value h =
    elim (Option-cases (c.encrypt dek nonce (env_aad c id key) (c.utf8 value))) [
      | inl failed ↦ failed
      | inr (sealed, at) ↦ absurd (cc (rw at at h))
    ]

find-put_env :
    (new : EnvRow) (rows : List EnvRow)
    → find_env new.instance_id new.key (put_env new rows) ≡ some new
find-put_env new [] = rw (eq_bytes_refl new.instance_id, eq_bytes_refl new.key) refl
find-put_env new (r ∷ rows) = elim (Bool-cases (is_at new.instance_id new.key r)) [
  | inl same ↦ rw same (rw (eq_bytes_refl new.instance_id, eq_bytes_refl new.key) refl)
  | inr other ↦ rw other (rw other (find-put_env new rows))
]

-- Whether two slots are one.
abbrev same_slot : (id key id' key' : Str) → Bool
same_slot id key id' key' = eq_bytes id id' && eq_bytes key key'

moved_slot :
    (r : EnvRow) (id key id' key' : Str)
    → is_at id key r ≡ true
    → same_slot id key id' key' ≡ false
    → is_at id' key' r ≡ false
moved_slot r id key id' key' here apart =
    let q : r.instance_id ≡ id = eq_bytes_lem r.instance_id id (ground arith) in
    let p : r.key ≡ key = eq_bytes_lem r.key key (ground arith) in rw (q, p) apart

find-put_env_other :
    (new : EnvRow) (rows : List EnvRow) (id key : Str)
    → same_slot new.instance_id new.key id key ≡ false
    → find_env id key (put_env new rows) ≡ find_env id key rows
find-put_env_other new [] id key apart = rw apart refl
find-put_env_other new (r ∷ rows) id key apart =
    elim (Bool-cases (is_at new.instance_id new.key r)) [
      | inl same ↦ rw same (rw (apart, moved_slot r new.instance_id new.key id key same apart) refl)
      | inr other ↦ elim (Bool-cases (is_at id key r)) [
        | inl found ↦ rw other (rw found refl)
        | inr elsewhere ↦ rw other (rw elsewhere (find-put_env_other new rows id key apart))
      ]
    ]

-- A value set under a key is refused, or it is there: its row decrypts to it and has the flag, and
-- the rows of the other slots are as they were.
abbrev pub IsUpserted :
    Sealing
    → (dek nonce : Bytes) (id key value : Str) (protected : Bool) (rows : List EnvRow)
    → Option (List EnvRow)
    → Type 0
IsUpserted c dek nonce id key value protected rows none =
    ((is_protected (find_env id key rows) && not protected) ≡ true)
    ⊎ (c.encrypt dek nonce (c.utf8 id ++ 124 ∷ c.utf8 key) (c.utf8 value) ≡ none)
IsUpserted c dek nonce id key value protected rows (some rows') =
    ((is_protected (find_env id key rows) && not protected) ≡ false)
    × ((r : EnvRow) × (find_env id key rows' ≡ some r)
        × (decrypt_env_value c (some dek) id key r.value ≡ some value)
        × (r.protected ≡ protected))
    × ((id' key' : Str)
        → same_slot id key id' key' ≡ false
        → find_env id' key' rows' ≡ find_env id' key' rows)

-- With the instance's key, a value that is set is stored so that the stored row of its slot decrypts
-- to it again and carries the protection asked for, and no other slot changes. It is refused only if
-- the cipher fails, or if the slot holds a protected value and no protection is asked for.
pub upsert_env_with_protection-IsUpserted :
    (c : Sealing) (wal_key : Option Str) (dek nonce : Bytes) (id key value : Str) (protected : Bool)
    (rows : List EnvRow)
    → load_instance_dek c wal_key ≡ some dek
    → length nonce ≡ env_nonce_len
    → IsUpserted c dek nonce id key value protected rows
        (upsert_env_with_protection c wal_key nonce id key value protected rows)
unfolding upsert_env_with_protection
upsert_env_with_protection-IsUpserted c wal_key dek nonce id key value protected rows has_key size =
    elim (Bool-cases (is_protected (find_env id key rows) && not protected)) [
      | inl reserved ↦ rw has_key (rw reserved (inl reserved))
      | inr allowed ↦ elim (Option-cases (encrypt_env_value c dek nonce id key value)) [
        | inl failed ↦
            rw has_key (
              rw allowed (rw failed (inr (encrypt_env_value-none c dek nonce id key value failed))))
        | inr (stored, sealed) ↦
            let new : EnvRow = record {
              instance_id = id;
              key = key;
              value = stored;
              protected = protected;
            } in
            let back = decrypt-encrypt_env_value c dek nonce id key value stored size sealed in
            rw has_key (
              rw allowed (
                rw sealed (
                  allowed,
                  (new, find-put_env new rows, back, refl),
                  λ id' key' apart. find-put_env_other new rows id' key' apart,
                )))
      ]
    ]
