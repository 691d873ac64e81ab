-- ===== src/Node/Env.antt =====
-- The environment variables of an instance's functions, encrypted in the table `instance_env`
-- (node-rs/src/db/mod.rs). The cipher, base64, hexadecimal and UTF-8 are parameters. The causes of
-- errors are not told apart.
use kraph_core.Prelude.{
  ℕ, ◌+◌, ◌≤◌, ◌≡◌, Bool, true, false, not, ◌&&◌, ◌||◌, Option, none, some, List, [], ◌∷◌, ◌++◌,
  ◌==◌, ltb, take, drop, length, if◌then◌else◌,
}
use kraph_core.Prelude.Bytes.{Bytes, eq_bytes}
use kraph_core.Node.Paths.{Str}
pub mod RoundTrip

pub record Sealing : Type 0 where
  pub encrypt : (dek nonce aad message : Bytes) → Option Bytes
  pub decrypt : (dek nonce aad sealed : Bytes) → Option Bytes
  pub base64 : Bytes → Str
  pub unbase64 : Str → Option Bytes
  pub unhex : Str → Option Bytes
  pub utf8 : Str → Bytes
  pub from_utf8 : Bytes → Option Str
  -- what was encrypted or encoded is read back under the same key, nonce and additional data
  pub decrypt-encrypt :
      (dek nonce aad message : Bytes) {sealed : Bytes}
      → encrypt dek nonce aad message ≡ some sealed
      → decrypt dek nonce aad sealed ≡ some message
  pub unbase64-base64 : (b : Bytes) → unbase64 (base64 b) ≡ some b
  pub from_utf8-utf8 : (s : Str) → from_utf8 (utf8 s) ≡ some s
  -- a ciphertext holds its tag
  pub encrypt-tag :
      (dek nonce aad message : Bytes) {sealed : Bytes}
      → encrypt dek nonce aad message ≡ some sealed
      → 16 ≤ length sealed

abbrev pub env_nonce_len : ℕ
env_nonce_len = 12

-- "enc-v1:" and "enc-v2:"
abbrev pub prefix_v1 : Str
prefix_v1 = 101 ∷ 110 ∷ 99 ∷ 45 ∷ 118 ∷ 49 ∷ 58 ∷ []

abbrev pub prefix_v2 : Str
prefix_v2 = 101 ∷ 110 ∷ 99 ∷ 45 ∷ 118 ∷ 50 ∷ 58 ∷ []

-- `str::strip_prefix`
unfoldable pub strip_prefix : (prefix text : Str) → Option Str
strip_prefix [] text = some text
strip_prefix (p ∷ prefix) [] = none
strip_prefix (p ∷ prefix) (c ∷ text) =
    let rest = strip_prefix prefix text in if p == c then rest else none

-- `load_instance_dek`, from the instance's `wal_encryption_key` if there is an instance.
abbrev pub of_32_bytes : Option Bytes → Option Bytes
of_32_bytes none = none
of_32_bytes (some bytes) = if length bytes == 32 then some bytes else none

abbrev pub load_instance_dek : Sealing → (wal_encryption_key : Option Str) → Option Bytes
load_instance_dek c none = none
load_instance_dek c (some []) = none
load_instance_dek c (some (digit ∷ digits)) = of_32_bytes (c.unhex (digit ∷ digits))

-- `{instance_id}|{key}`
abbrev pub env_aad : Sealing → (instance_id key : Str) → Bytes
env_aad c id key = c.utf8 id ++ 124 ∷ c.utf8 key

abbrev pub envelope : Sealing → (nonce : Bytes) → Option Bytes → Option Str
envelope c nonce none = none
envelope c nonce (some sealed) = some (prefix_v2 ++ c.base64 (nonce ++ sealed))

unfoldable pub encrypt_env_value :
    Sealing → (dek nonce : Bytes) (instance_id key plaintext : Str) → Option Str
encrypt_env_value c dek nonce id key plaintext =
    envelope c nonce (c.encrypt dek nonce (env_aad c id key) (c.utf8 plaintext))

abbrev pub to_text : Sealing → Option Bytes → Option Str
to_text c none = none
to_text c (some plaintext) = c.from_utf8 plaintext

abbrev pub open_envelope : Sealing → Option Bytes → (aad : Bytes) → Option Bytes → Option Str
open_envelope c none aad decoded = none
open_envelope c (some dek) aad none = none
open_envelope c (some dek) aad (some bytes) =
    if ltb (length bytes) (env_nonce_len + 16)
    then none
    else to_text c (c.decrypt dek (take env_nonce_len bytes) aad (drop env_nonce_len bytes))

-- A value without a prefix is plaintext from before the encryption.
abbrev pub decrypt_v1 : Sealing → Option Bytes → (stored : Str) → Option Str → Option Str
decrypt_v1 c dek stored none = some stored
decrypt_v1 c dek stored (some payload) = open_envelope c dek [] (c.unbase64 payload)

abbrev pub decrypt_v2 :
    Sealing → Option Bytes → (instance_id key stored : Str) → Option Str → Option Str
decrypt_v2 c dek id key stored none = decrypt_v1 c dek stored (strip_prefix prefix_v1 stored)
decrypt_v2 c dek id key stored (some payload) =
    open_envelope c dek (env_aad c id key) (c.unbase64 payload)

unfoldable pub decrypt_env_value :
    Sealing → Option Bytes → (instance_id key stored : Str) → Option Str
decrypt_env_value c dek id key stored =
    decrypt_v2 c dek id key stored (strip_prefix prefix_v2 stored)

pub record EnvRow : Type 0 where
  pub instance_id : Str
  pub key : Str
  pub value : Str
  pub protected : Bool

abbrev pub is_at : (instance_id key : Str) → EnvRow → Bool
is_at id key r = eq_bytes r.instance_id id && eq_bytes r.key key

abbrev pub find_env : (instance_id key : Str) → List EnvRow → Option EnvRow
find_env id key [] = none
find_env id key (r ∷ rows) =
    let rest = find_env id key rows in if is_at id key r then some r else rest

-- `INSERT ... ON CONFLICT(instance_id, key) DO UPDATE`
abbrev pub put_env : EnvRow → List EnvRow → List EnvRow
put_env new [] = new ∷ []
put_env new (r ∷ rows) =
    let rest = put_env new rows in if is_at new.instance_id new.key r then new ∷ rows else r ∷ rest

abbrev pub is_protected : Option EnvRow → Bool
is_protected none = false
is_protected (some r) = r.protected

abbrev pub store_env :
    (instance_id key : Str) → (protected : Bool) → Option Str → List EnvRow → Option (List EnvRow)
store_env id key protected none rows = none
store_env id key protected (some stored) rows =
    some
      (put_env (record { instance_id = id; key = key; value = stored; protected = protected }) rows)

abbrev pub upsert_under :
    Sealing
    → Option Bytes
    → (nonce : Bytes) (instance_id key value : Str) (protected : Bool) → List EnvRow
    → Option (List EnvRow)
upsert_under c none nonce id key value protected rows = none
upsert_under c (some dek) nonce id key value protected rows =
    if is_protected (find_env id key rows) && not protected
    then none
    else store_env id key protected (encrypt_env_value c dek nonce id key value) rows

-- `nonce` is what the random generator gives.
unfoldable pub upsert_env_with_protection :
    Sealing
    → (wal_encryption_key : Option Str) (nonce : Bytes) (instance_id key value : Str)
      (protected : Bool)
    → List EnvRow
    → Option (List EnvRow)
upsert_env_with_protection c wal_key nonce id key value protected rows =
    upsert_under c (load_instance_dek c wal_key) nonce id key value protected rows

abbrev pub upsert_env :
    Sealing
    → (wal_encryption_key : Option Str) (nonce : Bytes) (instance_id key value : Str) → List EnvRow
    → Option (List EnvRow)
upsert_env c wal_key nonce id key value rows =
    upsert_env_with_protection c wal_key nonce id key value false rows

unfoldable pub delete_env : (instance_id key : Str) → List EnvRow → List EnvRow
delete_env id key [] = []
delete_env id key (r ∷ rows) =
    let rest = delete_env id key rows in if is_at id key r then rest else r ∷ rest
