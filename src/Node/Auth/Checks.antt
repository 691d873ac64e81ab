-- ===== src/Node/Auth/Checks.antt =====
-- What a request has passed that node-rs/src/sigauth.rs verifies.
use kraph_core.Prelude.{
  ℕ, ◌≡◌, ◌<◌, refl, ap, arith, Bool, true, false, Option, none, some, ltb, length, if◌then◌else◌,
}
use kraph_core.Prelude.Int.{ℤ, pos, ltb_ℤ}
use kraph_core.Prelude.Bytes.{Bytes}
use kraph_core.Node.Auth.{
  canonical, verify_sig, verify_decoded, NonceMap, check_and_record_nonce, verified, SigVerifyError,
  Result, ok, err, Crypto, Request, check_signature, after_nonce, verify_at, verify_present,
  verify_request_sig, wrapping_sub, wrapping_abs, sig_timestamp_skew_secs, max_nonce_len,
  skew_too_large, nonce_too_long,
}
use kraph_core.Node.Auth.Nonces.{IsHeld, check_and_record_nonce-IsHeld}

choice-IsHeld :
    (n : Bytes) (until : ℕ) (b b' : Bool) (x y z : Result × NonceMap)
    → IsHeld n until x.1
    → IsHeld n until y.1
    → IsHeld n until z.1
    → IsHeld n until (if b then x else if b' then y else z).1
choice-IsHeld n until true b' x y z h h' h'' = h
choice-IsHeld n until false true x y z h h' h'' = h'
choice-IsHeld n until false false x y z h h' h'' = h''

choice-verified :
    (b b' : Bool) (e e' : SigVerifyError) (map map' : NonceMap) (z : Result × NonceMap)
    → (if b then (err e, map) else if b' then (err e', map) else z) ≡ (ok verified, map')
    → (b ≡ false) × (b' ≡ false) × (z ≡ (ok verified, map'))
choice-verified true b' e e' map map' z done = absurd (cc (ap (λ r. r.0) done))
choice-verified false true e e' map map' z done = absurd (cc (ap (λ r. r.0) done))
choice-verified false false e e' map map' z done = (refl, refl, done)

module _ (c : Crypto) where
  verify_at-IsHeld :
      (w : ℤ) (t : ℕ) (q : Request) (sig m : Bytes) (o : Option ℤ) (n : Bytes) (until : ℕ)
      (map : NonceMap)
      → t < until
      → IsHeld n until map
      → IsHeld n until (verify_at c w t q sig m o map).1
  verify_at-IsHeld w t q sig m none n until map soon held = held
  verify_at-IsHeld w t q sig m (some ts) n until map soon held =
      choice-IsHeld n until (ltb_ℤ (pos sig_timestamp_skew_secs) (wrapping_abs (wrapping_sub w ts)))
        (ltb max_nonce_len (length m)) (err skew_too_large, map) (err nonce_too_long, map)
        (after_nonce c q sig m ts (check_and_record_nonce t m map)) held held
        (check_and_record_nonce-IsHeld t m n until map soon held).0

  pub verify_present-IsHeld :
      (a : Bool) (w : ℤ) (t : ℕ) (q : Request) (s m o : Option Bytes) (n : Bytes) (until : ℕ)
      (map : NonceMap)
      → t < until
      → IsHeld n until map
      → IsHeld n until (verify_present c a w t q s m o map).1
  verify_present-IsHeld a w t q none none none n until map soon held = held
  verify_present-IsHeld a w t q none none (some o) n until map soon held = held
  verify_present-IsHeld a w t q none (some m) o n until map soon held = held
  verify_present-IsHeld a w t q (some s) none o n until map soon held = held
  verify_present-IsHeld a w t q (some s) (some m) none n until map soon held = held
  verify_present-IsHeld a w t q (some s) (some m) (some o) n until map soon held =
      verify_at-IsHeld w t q s m (c.parse_i64 o) n until map soon held

-- What a request that is verified has passed.
pub record IsVerified (c : Crypto) (w : ℤ) (t : ℕ) (q : Request) (map map' : NonceMap)
    : Type 0 where
  pub sig : Bytes
  pub n : Bytes
  pub raw : Bytes
  pub ts : ℤ
  pub at_sig : q.headers.sig ≡ some sig
  pub at_nonce : q.headers.nonce ≡ some n
  pub at_ts : q.headers.ts ≡ some raw
  pub parsed : c.parse_i64 raw ≡ some ts
  pub in_time : ltb_ℤ (pos sig_timestamp_skew_secs) (wrapping_abs (wrapping_sub w ts)) ≡ false
  pub short : ltb max_nonce_len (length n) ≡ false
  pub recorded : check_and_record_nonce t n map ≡ (true, map')
  pub signed : check_signature c q sig n ts ≡ ok verified

after_nonce_lem :
    (c : Crypto) (q : Request) (sig n : Bytes) (ts : ℤ) (r : Bool × NonceMap) (map' : NonceMap)
    → after_nonce c q sig n ts r ≡ (ok verified, map')
    → (r ≡ (true, map')) × (check_signature c q sig n ts ≡ ok verified)
after_nonce_lem c q sig n ts (true, seen) map' done = ground arith
after_nonce_lem c q sig n ts (false, seen) map' done = ground arith

verify_at-IsVerified :
    (c : Crypto) (w : ℤ) (t : ℕ) (q : Request) (sig n raw : Bytes) (o : Option ℤ)
    (map map' : NonceMap)
    → q.headers.sig ≡ some sig
    → q.headers.nonce ≡ some n
    → q.headers.ts ≡ some raw
    → c.parse_i64 raw ≡ o
    → verify_at c w t q sig n o map ≡ (ok verified, map')
    → IsVerified c w t q map map'
verify_at-IsVerified c w t q sig n raw none map map' f g h e done = absurd (cc)
verify_at-IsVerified c w t q sig n raw (some ts) map map' f g h e done =
    let (in_time, short, rest) = choice-verified _ _ _ _ map map' _ done in
    let (recorded, signed) =
      after_nonce_lem c q sig n ts (check_and_record_nonce t n map) map' rest in
    record {
      sig = sig;
      n = n;
      raw = raw;
      ts = ts;
      at_sig = f;
      at_nonce = g;
      at_ts = h;
      parsed = e;
      in_time = in_time;
      short = short;
      recorded = recorded;
      signed = signed;
    }

verify_present-IsVerified :
    (c : Crypto) (a : Bool) (w : ℤ) (t : ℕ) (q : Request) (s n o : Option Bytes)
    (map map' : NonceMap)
    → q.headers.sig ≡ s
    → q.headers.nonce ≡ n
    → q.headers.ts ≡ o
    → verify_present c a w t q s n o map ≡ (ok verified, map')
    → IsVerified c w t q map map'
verify_present-IsVerified c a w t q none none none map map' f g h done = absurd (ground arith)
verify_present-IsVerified c a w t q none none (some o) map map' f g h done = absurd (cc)
verify_present-IsVerified c a w t q none (some n) o map map' f g h done = absurd (cc)
verify_present-IsVerified c a w t q (some s) none o map map' f g h done = absurd (cc)
verify_present-IsVerified c a w t q (some s) (some n) none map map' f g h done = absurd (cc)
verify_present-IsVerified c a w t q (some s) (some n) (some o) map map' f g h done =
    verify_at-IsVerified c w t q s n o (c.parse_i64 o) map map' f g h refl done

pub verify_request_sig-IsVerified :
    (c : Crypto) (a : Bool) (w : ℤ) (t : ℕ) (q : Request) (map map' : NonceMap)
    → verify_request_sig c a w t q map ≡ (ok verified, map')
    → IsVerified c w t q map map'
unfolding verify_request_sig
verify_request_sig-IsVerified c a w t q map map' done =
    verify_present-IsVerified c a w t q q.headers.sig q.headers.nonce q.headers.ts map map' refl
      refl refl done

-- What the check does on a request whose parts are known.
pub verify_present_lem :
    (c : Crypto) (a : Bool) (w : ℤ) (t : ℕ) (q : Request) (sig n raw : Bytes) (ts : ℤ)
    (map map' : NonceMap)
    → q.headers.sig ≡ some sig
    → q.headers.nonce ≡ some n
    → q.headers.ts ≡ some raw
    → c.parse_i64 raw ≡ some ts
    → ltb_ℤ (pos sig_timestamp_skew_secs) (wrapping_abs (wrapping_sub w ts)) ≡ false
    → ltb max_nonce_len (length n) ≡ false
    → check_and_record_nonce t n map ≡ (true, map')
    → check_signature c q sig n ts ≡ ok verified
    → verify_request_sig c a w t q map ≡ (ok verified, map')
unfolding verify_request_sig check_signature
verify_present_lem c a w t q sig n raw ts map map' f g h e in_time short recorded signed =
    rw (f, g, h, e, in_time, short, recorded, signed) refl

-- The message that the owner of a verified request has signed.
pub record IsSigned (c : Crypto) (q : Request) : Type 0 where
  pub sig : Bytes
  pub n : Bytes
  pub raw : Bytes
  pub ts : ℤ
  pub sig_bytes : Bytes
  pub pubkey : Bytes
  pub at_sig : q.headers.sig ≡ some sig
  pub at_nonce : q.headers.nonce ≡ some n
  pub at_ts : q.headers.ts ≡ some raw
  pub parsed : c.parse_i64 raw ≡ some ts
  pub decoded : c.decode_base58 sig ≡ some sig_bytes
  pub key : c.decode_base58 q.signer ≡ some pubkey
  pub key_length : length pubkey ≡ 32
  pub sig_length : length sig_bytes ≡ 64
  pub signed :
      c.verify pubkey (canonical c q.method q.path (c.sha256_hex q.body) n ts) sig_bytes ≡ true

verify_decoded_lem :
    (c : Crypto) (message sig_bytes : Bytes) (o : Option Bytes)
    → verify_decoded c message sig_bytes o ≡ ok verified
    → (pubkey : Bytes) × (o ≡ some pubkey)
      × (length pubkey ≡ 32)
      × (c.verify pubkey message sig_bytes ≡ true)
verify_decoded_lem c message sig_bytes none done = absurd (cc)
verify_decoded_lem c message sig_bytes (some pubkey) done =
    (pubkey, refl, ground arith, ground arith)

verify_sig_lem :
    (c : Crypto) (message signer : Bytes) (o : Option Bytes)
    → verify_sig c message signer o ≡ ok verified
    → (sig_bytes : Bytes) × (o ≡ some sig_bytes)
      × (length sig_bytes ≡ 64)
      × (verify_decoded c message sig_bytes (c.decode_base58 signer) ≡ ok verified)
verify_sig_lem c message signer none done = absurd (cc)
verify_sig_lem c message signer (some sig_bytes) done =
    (sig_bytes, refl, ground arith, ground arith)

check_signature_lem :
    (c : Crypto) (q : Request) (sig n : Bytes) (ts : ℤ)
    → check_signature c q sig n ts ≡ ok verified
    → verify_sig c
        (canonical c q.method q.path (c.sha256_hex q.body) n ts)
        q.signer
        (c.decode_base58 sig)
      ≡ ok verified
unfolding check_signature
check_signature_lem c q sig n ts done = ground arith

-- A request is reported as verified only if the expected signer's key verifies the signature in
-- its signature header over the method, the path, the hash of the body that arrived, and the nonce
-- and the time in its headers.
pub verified-IsSigned :
    (c : Crypto) (a : Bool) (w : ℤ) (t : ℕ) (q : Request) (map map' : NonceMap)
    → verify_request_sig c a w t q map ≡ (ok verified, map')
    → IsSigned c q
verified-IsSigned c a w t q map map' done =
    let v = verify_request_sig-IsVerified c a w t q map map' done in
    let (sig_bytes, decoded, long, rest) =
      verify_sig_lem c _ q.signer (c.decode_base58 v.sig)
        (check_signature_lem c q v.sig v.n v.ts v.signed) in
    let (pubkey, key, key_long, signed) =
      verify_decoded_lem c _ sig_bytes (c.decode_base58 q.signer) rest in
    record {
      sig = v.sig;
      n = v.n;
      raw = v.raw;
      ts = v.ts;
      sig_bytes = sig_bytes;
      pubkey = pubkey;
      at_sig = v.at_sig;
      at_nonce = v.at_nonce;
      at_ts = v.at_ts;
      parsed = v.parsed;
      decoded = decoded;
      key = key;
      key_length = key_long;
      sig_length = long;
      signed = signed;
    }
