-- ===== src/Node/Auth.antt =====
-- The check of a request's signature (node-rs/src/sigauth.rs). The two clocks are arguments: the
-- wall clock in seconds, and `Instant` in nanoseconds. Arithmetic on `i64` wraps, as in a release
-- build. SHA-256, base58, Ed25519 and the reading and printing of numbers are parameters.
use kraph_core.Prelude.{
  ℕ, ◌+◌, ◌*◌, ◌-◌, ◌^◌, Bool, true, false, not, ◌&&◌, Option, none, some, List, [], ◌∷◌, ◌++◌,
  ◌==◌, ltb, length, if◌then◌else◌,
}
use kraph_core.Prelude.Int.{ℤ, pos, negsuc, ◌+ℤ◌, ◌-ℤ◌, ltb_ℤ, i64_min, i64_max}
use kraph_core.Prelude.Bytes.{Bytes, eq_bytes}
pub mod Nonces
pub mod Checks
pub mod Replay

abbrev pub sig_timestamp_skew_secs : ℕ
sig_timestamp_skew_secs = 5 * 60

abbrev pub nonce_retention : ℕ
nonce_retention = 10 * 60 * 1000000000

abbrev pub nonce_cleanup_threshold : ℕ
nonce_cleanup_threshold = 100000

abbrev pub max_nonce_len : ℕ
max_nonce_len = 128

pub data SigVerifyOutcome : Type 0 where
  missing verified : SigVerifyOutcome

-- The causes of `Unauthorized`, in the order of the source.
pub data SigVerifyError : Type 0 where
  missing_signature incomplete_headers timestamp_not_integer skew_too_large : SigVerifyError
  nonce_too_long replay hash_mismatch sig_not_base58 sig_length : SigVerifyError
  pubkey_not_base58 pubkey_length invalid_pubkey bad_signature : SigVerifyError

pub data Result : Type 0 where
  ok : SigVerifyOutcome → Result
  err : SigVerifyError → Result

-- The map of seen nonces, with the instant at which each expires.
abbrev pub NonceMap : Type 0
NonceMap = List (Bytes × ℕ)

abbrev pub retain_live : (now : ℕ) → NonceMap → NonceMap
retain_live now [] = []
retain_live now ((nonce, expires) ∷ rest) =
    let kept = retain_live now rest in if ltb now expires then (nonce, expires) ∷ kept else kept

abbrev pub lookup : Bytes → NonceMap → Option ℕ
lookup nonce [] = none
lookup nonce ((n, expires) ∷ rest) =
    let later = lookup nonce rest in if eq_bytes n nonce then some expires else later

-- The value of an entry that is there.
abbrev pub set_expiry : Bytes → ℕ → NonceMap → NonceMap
set_expiry nonce expires [] = []
set_expiry nonce expires ((n, old) ∷ rest) =
    let later = set_expiry nonce expires rest in
    if eq_bytes n nonce then (n, expires) ∷ rest else (n, old) ∷ later

-- The map's `entry`, once expired ones have gone.
abbrev pub record_entry : (now : ℕ) → Bytes → NonceMap → Option ℕ → Bool × NonceMap
record_entry now nonce map (some expires) =
    if ltb now expires then (false, map) else (true, set_expiry nonce (now + nonce_retention) map)
record_entry now nonce map none = (true, (nonce, now + nonce_retention) ∷ map)

abbrev pub clean : (now : ℕ) → NonceMap → NonceMap
clean now map = if ltb nonce_cleanup_threshold (length map) then retain_live now map else map

unfoldable pub check_and_record_nonce : (now : ℕ) → Bytes → NonceMap → Bool × NonceMap
check_and_record_nonce now nonce map =
    let cleaned = clean now map in record_entry now nonce cleaned (lookup nonce cleaned)

-- Wrapping `i64` arithmetic, on arguments in range.
abbrev pub wrapping_sub : ℤ → ℤ → ℤ
wrapping_sub a b =
    let d = a -ℤ b in
    if ltb_ℤ d i64_min then d +ℤ pos (2 ^ 64) else if ltb_ℤ i64_max d then d -ℤ pos (2 ^ 64) else d

-- The absolute value of the least `i64` is itself.
abbrev pub wrapping_abs : ℤ → ℤ
wrapping_abs (pos n) = pos n
wrapping_abs (negsuc n) = if n == 2 ^ 63 - 1 then negsuc n else pos (n + 1)

pub record Headers : Type 0 where
  pub sig : Option Bytes
  pub nonce : Option Bytes
  pub ts : Option Bytes
  pub hash : Option Bytes

pub record Request : Type 0 where
  pub headers : Headers
  pub method : Bytes
  pub path : Bytes
  pub body : Bytes
  pub signer : Bytes

-- The libraries that the check calls.
pub record Crypto : Type 0 where
  pub parse_i64 : Bytes → Option ℤ
  pub print_i64 : ℤ → Bytes
  pub sha256_hex : Bytes → Bytes
  pub decode_base58 : Bytes → Option Bytes
  pub is_pubkey : Bytes → Bool
  pub verify : (pubkey message sig : Bytes) → Bool

-- "kraph-auth:v1:", and the colon.
abbrev pub prefix : Bytes
prefix = 107 ∷ 114 ∷ 97 ∷ 112 ∷ 104 ∷ 45 ∷ 97 ∷ 117 ∷ 116 ∷ 104 ∷ 58 ∷ 118 ∷ 49 ∷ 58 ∷ []

abbrev pub canonical : Crypto → (method path body_hash nonce : Bytes) → ℤ → Bytes
canonical c method path body_hash nonce ts =
    prefix ++ method ++ 58 ∷ path ++ 58 ∷ body_hash ++ 58 ∷ nonce ++ 58 ∷ c.print_i64 ts

-- The header `X-Kraph-Auth-Hash` is checked where it is there.
abbrev pub hash_matches : Option Bytes → Bytes → Bool
hash_matches none body_hash = true
hash_matches (some claimed) body_hash = eq_bytes claimed body_hash

abbrev pub verify_decoded : Crypto → (message sig_bytes : Bytes) → Option Bytes → Result
verify_decoded c message sig_bytes none = err pubkey_not_base58
verify_decoded c message sig_bytes (some pubkey) =
    if not (length pubkey == 32)
    then err pubkey_length
    else if not (c.is_pubkey pubkey)
    then err invalid_pubkey
    else if c.verify pubkey message sig_bytes
    then ok verified
    else err bad_signature

abbrev pub verify_sig : Crypto → (message signer : Bytes) → Option Bytes → Result
verify_sig c message signer none = err sig_not_base58
verify_sig c message signer (some sig_bytes) =
    let decoded = verify_decoded c message sig_bytes (c.decode_base58 signer) in
    if not (length sig_bytes == 64) then err sig_length else decoded

-- What follows the nonce check, none of which depends on the clocks.
unfoldable pub check_signature : Crypto → Request → (sig nonce : Bytes) → ℤ → Result
check_signature c q sig nonce ts =
    let body_hash = c.sha256_hex q.body in
    let message = canonical c q.method q.path body_hash nonce ts in
    if not (hash_matches q.headers.hash body_hash)
    then err hash_mismatch
    else verify_sig c message q.signer (c.decode_base58 sig)

-- The nonce is recorded before the signature is looked at.
abbrev pub after_nonce :
    Crypto → Request → (sig nonce : Bytes) → ℤ → Bool × NonceMap → Result × NonceMap
after_nonce c q sig nonce ts (fresh, seen) =
    (if fresh then check_signature c q sig nonce ts else err replay, seen)

abbrev pub verify_at :
    Crypto
    → (wall : ℤ) (instant : ℕ) → Request
    → (sig nonce : Bytes) → Option ℤ
    → NonceMap
    → Result × NonceMap
verify_at c wall instant q sig nonce none map = (err timestamp_not_integer, map)
verify_at c wall instant q sig nonce (some ts) map =
    let checked = after_nonce c q sig nonce ts (check_and_record_nonce instant nonce map) in
    if ltb_ℤ (pos sig_timestamp_skew_secs) (wrapping_abs (wrapping_sub wall ts))
    then (err skew_too_large, map)
    else if ltb max_nonce_len (length nonce)
    then (err nonce_too_long, map)
    else checked

abbrev pub verify_present :
    Crypto
    → (missing_allowed : Bool) (wall : ℤ) (instant : ℕ) → Request
    → (sig nonce ts : Option Bytes) → NonceMap
    → Result × NonceMap
verify_present c missing_allowed wall instant q none none none map =
    (if missing_allowed then ok missing else err missing_signature, map)
verify_present c missing_allowed wall instant q (some sig) (some nonce) (some ts) map =
    verify_at c wall instant q sig nonce (c.parse_i64 ts) map
verify_present c missing_allowed wall instant q s n t map = (err incomplete_headers, map)

-- `missing_allowed` is what the environment says about `SUPABA_SIGAUTH_ALLOW_MISSING`.
unfoldable pub verify_request_sig :
    Crypto
    → (missing_allowed : Bool) (wall : ℤ) (instant : ℕ) → Request
    → NonceMap
    → Result × NonceMap
verify_request_sig c missing_allowed wall instant q map =
    verify_present c missing_allowed wall instant q q.headers.sig q.headers.nonce q.headers.ts map
