-- ===== src/Node/Auth/Replay.antt =====
-- Against replays of a signed request (node-rs/src/sigauth.rs).
use kraph_core.Prelude.{
  ℕ, ◌+◌, ◌^◌, ◌≡◌, ◌≢◌, ◌≤◌, ◌<◌, refl, ap, arith, Bool, true, false, some, List, [], ◌∷◌, ltb,
  length, All,
}
use kraph_core.Prelude.Int.{ℤ, pos, ◌+ℤ◌, ◌-ℤ◌, ltb_ℤ}
use kraph_core.Prelude.Bytes.{Bytes}
use kraph_core.Node.Auth.{
  NonceMap, nonce_retention, lookup, set_expiry, check_and_record_nonce, verified, ok, Crypto,
  Request, verify_request_sig, wrapping_sub, wrapping_abs, sig_timestamp_skew_secs,
  nonce_cleanup_threshold,
}
use kraph_core.Node.Auth.Nonces.{
  IsHeld, check_and_record_nonce-IsHeld, lookup-check_and_record_nonce,
}
use kraph_core.Node.Auth.Checks.{
  verify_present-IsHeld, verify_request_sig-IsVerified, verify_present_lem,
}

-- A call of the check, with what it reads.
pub record Call : Type 0 where
  pub missing_allowed : Bool
  pub wall : ℤ
  pub instant : ℕ
  pub request : Request

unfoldable pub serve : Crypto → List Call → NonceMap → NonceMap
serve c [] map = map
serve c (k ∷ ks) map =
    serve c ks (verify_request_sig c k.missing_allowed k.wall k.instant k.request map).1

serve-IsHeld :
    (c : Crypto) (ks : List Call) (n : Bytes) (until : ℕ) (map : NonceMap)
    → All (λ k. k.instant < until) ks
    → IsHeld n until map
    → IsHeld n until (serve c ks map)
unfolding serve verify_request_sig
serve-IsHeld c [] n until map soon held = held
serve-IsHeld c (k ∷ ks) n until map (here, later) held = serve-IsHeld c ks n until _ later (
    verify_present-IsHeld c k.missing_allowed k.wall k.instant k.request k.request.headers.sig
      k.request.headers.nonce k.request.headers.ts n until map here held)

-- Once a request was verified, no request with its nonce is verified within the retention of ten
-- minutes, whatever else was checked in between, with whatever map of nonces it began.
pub no_replay :
    (c : Crypto) (a a' : Bool) (w w' : ℤ) (t t' : ℕ) (q q' : Request) (n : Bytes) (ks : List Call)
    (map map' : NonceMap)
    → verify_request_sig c a w t q map ≡ (ok verified, map')
    → q.headers.nonce ≡ some n
    → q'.headers.nonce ≡ some n
    → All (λ k. k.instant < t + nonce_retention) ks
    → t' < t + nonce_retention
    → (verify_request_sig c a' w' t' q' (serve c ks map')).0 ≢ ok verified
no_replay c a a' w w' t t' q q' n ks map map' done at at' soon soon' again =
    let v = verify_request_sig-IsVerified c a w t q map map' done in
    let same : v.n ≡ n = cc (v.at_nonce, at) in
    let last : (check_and_record_nonce t n map).1 ≡ map' =
      ap (λ r. r.1) (rw same at (v.recorded)) in
    let fresh = rw same at (lookup-check_and_record_nonce t v.n map (ap (λ r. r.0) v.recorded)) in
    let held =
      serve-IsHeld c ks n (t + nonce_retention) map' soon
        (t + nonce_retention, rw last at fresh, omega arith) in
    let r = verify_request_sig c a' w' t' q' (serve c ks map') in
    let v' =
      verify_request_sig-IsVerified c a' w' t' q' (serve c ks map') r.1
        (ap (λ x. (x, r.1)) again) in
    let same' : v'.n ≡ n = cc (v'.at_nonce, at') in
    let seen =
      (check_and_record_nonce-IsHeld t' v'.n n (t + nonce_retention) (serve c ks map') soon' held).1
        same' in
    absurd (cc (seen, ap (λ r. r.0) v'.recorded))

in_time_lem :
    (s : ℕ)
    → s + 600 < 2 ^ 63
    → ltb_ℤ
        (pos sig_timestamp_skew_secs)
        (wrapping_abs (wrapping_sub (pos (s + 600)) (pos (s + 300))))
      ≡ false
unfolding ◌-ℤ◌ ◌+ℤ◌
in_time_lem s fits = ground arith

-- At its expiry an entry of a map that is not cleaned does not refuse its nonce.
record_expired :
    (now : ℕ) (n : Bytes) (map : NonceMap)
    → lookup n map ≡ some now
    → length map ≤ nonce_cleanup_threshold
    → check_and_record_nonce now n map ≡ (true, set_expiry n (now + nonce_retention) map)
unfolding check_and_record_nonce
record_expired now n map found few =
    let small : ltb nonce_cleanup_threshold (length map) ≡ false = ground arith in
    let over : ltb now now ≡ false = ground arith in rw small (rw found (rw over refl))

-- The retention is as long as the time for which a signed request can pass the check of its
-- timestamp, five minutes before and five minutes after, and not longer, as the comment says it is:
-- a request that was verified with a timestamp of five minutes ahead is verified a second time
-- when exactly ten minutes have passed on both clocks, if the map of nonces is below the size at
-- which it is cleaned.
pub boundary_replay :
    (c : Crypto) (a : Bool) (s t : ℕ) (q : Request) (raw : Bytes) (map map' : NonceMap)
    → verify_request_sig c a (pos s) t q map ≡ (ok verified, map')
    → q.headers.ts ≡ some raw
    → c.parse_i64 raw ≡ some (pos (s + 300))
    → s + 600 < 2 ^ 63
    → length map' ≤ nonce_cleanup_threshold
    → (verify_request_sig c a (pos (s + 600)) (t + nonce_retention) q map').0 ≡ ok verified
boundary_replay c a s t q raw map map' done at parsed fits few =
    let v = verify_request_sig-IsVerified c a (pos s) t q map map' done in
    let same_raw : v.raw ≡ raw = cc (v.at_ts, at) in
    let same : v.ts ≡ pos (s + 300) = cc (rw same_raw at (v.parsed), parsed) in
    let found =
      rw (ap (λ r. r.1) v.recorded) at
        (lookup-check_and_record_nonce t v.n map (ap (λ r. r.0) v.recorded)) in
    let recorded = record_expired (t + nonce_retention) v.n map' found few in
    ap (λ r. r.0)
      (verify_present_lem c a (pos (s + 600)) (t + nonce_retention) q v.sig v.n v.raw v.ts map' _
        v.at_sig v.at_nonce v.at_ts v.parsed (rw same (in_time_lem s fits)) v.short recorded
        v.signed)
