-- ===== src/Node/Studio/Tokens.antt =====
-- The tokens of node-rs/src/studio_proxy.rs: what verifies, and that what is minted does.
use kraph_core.Prelude.{
  ◌≡◌, ◌≢◌, ◌↔◌, refl, arith, false, Option, none, some, [], ◌∷◌, ◌++◌, ◌==◌, any, Bool-cases,
  Option-cases, inl, inr,
}
use kraph_core.Prelude.Int.{ℤ, ◌+ℤ◌, ltb_ℤ}
use kraph_core.Prelude.Bytes.{Bytes, eq_bytes, eq_bytes_lem, eq_bytes_refl}
use kraph_core.Node.Paths.{Str}
use kraph_core.Node.Studio.{
  StudioClaims, TokenLibrary, valid, mint_token, split_once, read_claims, check_tag, verify_token,
}

-- The payload carries the claims, which have not expired.
abbrev pub Carries : TokenLibrary → (now : ℤ) → (payload_b64 : Str) → StudioClaims → Type 0
Carries c now payload_b64 claims =
    (json : Bytes) × (c.unb64u payload_b64 ≡ some json)
    × (c.from_json json ≡ some claims)
    × (ltb_ℤ claims.e now ≡ false)

-- The token is a payload that carries the claims and its HMAC under the secret, which is not empty.
abbrev pub IsSigned :
    TokenLibrary → (now : ℤ) → (secret : Bytes) (token : Str) → StudioClaims → Type 0
IsSigned c now secret token claims =
    (secret ≢ [])
    × ((payload_b64 : Str) × (tag_b64 : Str) × (split_once 46 token ≡ some (payload_b64, tag_b64))
        × (c.unb64u tag_b64 ≡ some (c.hmac secret (c.utf8 payload_b64)))
        × Carries c now payload_b64 claims)

module _ (c : TokenLibrary) (now : ℤ) (claims : StudioClaims) where
  carried :
      (payload_b64 : Str)
      → read_claims c now (c.unb64u payload_b64) ≡ valid claims
      → Carries c now payload_b64 claims
  carried payload_b64 h = elim (Option-cases (c.unb64u payload_b64)) [
    | inl bad ↦ absurd (cc (rw bad at h))
    | inr (json, at) ↦ elim (Option-cases (c.from_json json)) [
      | inl bad ↦ absurd (cc (rw (at, bad) at h))
      | inr (found, parsed) ↦ elim (Bool-cases (ltb_ℤ found.e now)) [
        | inl late ↦ absurd (cc (rw (at, parsed, late) at h))
        | inr live ↦
            let q : found ≡ claims = cc (rw (at, parsed, live) at h) in (json, at, cc, rw q at live)
      ]
    ]
  ]

  tagged :
      (secret : Bytes) (payload_b64 : Str) (o : Option Bytes)
      → check_tag c now secret payload_b64 o ≡ valid claims
      → (o ≡ some (c.hmac secret (c.utf8 payload_b64))) × Carries c now payload_b64 claims
  tagged secret payload_b64 none h = absurd (cc)
  tagged secret payload_b64 (some tag) h =
      let mac = c.hmac secret (c.utf8 payload_b64) in
      elim (Bool-cases (eq_bytes tag mac)) [
        | inl same ↦ (rw (eq_bytes_lem tag mac same) refl, carried payload_b64 (rw same at h))
        | inr other ↦ absurd (cc (rw other at h))
      ]

  signed :
      (secret token : Bytes)
      → verify_token c now secret token ≡ valid claims
      → IsSigned c now secret token claims
  unfolding verify_token
  signed [] token h = absurd (cc)
  signed (b ∷ bs) token h = elim (Option-cases (split_once 46 token)) [
    | inl whole ↦ absurd (cc (rw whole at h))
    | inr ((payload_b64, tag_b64), parts) ↦
        let (tag_is, carries) = tagged (b ∷ bs) payload_b64 (c.unb64u tag_b64) (rw parts at h) in
        ((λ empty. absurd (cc)), (payload_b64, tag_b64, parts, tag_is, carries))
  ]

  verifies :
      (secret token : Bytes)
      → IsSigned c now secret token claims
      → verify_token c now secret token ≡ valid claims
  unfolding verify_token
  verifies [] token (full, rest) = absurd (full refl)
  verifies (b ∷ bs) token (full, (payload_b64, tag_b64, parts, tag_is, (json, at, parsed, live))) =
      rw parts (
        rw tag_is (
          rw (eq_bytes_refl (c.hmac (b ∷ bs) (c.utf8 payload_b64)))
            (rw at (rw parsed (rw live refl)))))

-- A token verifies with claims exactly if it is a payload that carries them and the payload's HMAC
-- under the secret, which is not empty, and the claims have not expired.
pub verify_token-IsSigned :
    (c : TokenLibrary) (now : ℤ) (secret : Bytes) (token : Str) (claims : StudioClaims)
    → (verify_token c now secret token ≡ valid claims) ↔ IsSigned c now secret token claims
verify_token-IsSigned c now secret token claims =
    (signed c now claims secret token, verifies c now claims secret token)

split_lem :
    (before after : Str)
    → any (λ d. d == 46) before ≡ false
    → split_once 46 (before ++ 46 ∷ after) ≡ some (before, after)
unfolding split_once
split_lem [] after h = refl
split_lem (d ∷ before) after h =
    let here : (d == 46) ≡ false = ground arith in
    let rest : any (λ x. x == 46) before ≡ false = ground arith in
    rw here (rw (split_lem before after rest) refl)

-- A token that was minted under a secret, which is not empty, verifies with its claims until they
-- expire.
verify-mint_token :
    (c : TokenLibrary) (minted now : ℤ) (secret : Bytes) (wallet id : Str) (ttl_secs : ℤ)
    → secret ≢ []
    → ltb_ℤ (minted +ℤ ttl_secs) now ≡ false
    → verify_token c now secret (mint_token c minted secret wallet id ttl_secs)
      ≡ valid (record { w = wallet; i = id; e = minted +ℤ ttl_secs })
unfolding mint_token
verify-mint_token c minted now secret wallet id ttl full live =
    let claims : StudioClaims = record { w = wallet; i = id; e = minted +ℤ ttl } in
    let payload = c.b64u (c.to_json claims) in
    let mac = c.hmac secret (c.utf8 payload) in
    verifies c now claims secret (payload ++ 46 ∷ c.b64u mac) (
      full,
      (
        payload,
        c.b64u mac,
        split_lem payload (c.b64u mac) (c.no_dot (c.to_json claims)),
        c.unb64u-b64u mac,
        (c.to_json claims, c.unb64u-b64u (c.to_json claims), c.from_json-to_json claims, live),
      ),
    )
