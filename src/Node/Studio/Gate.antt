-- ===== src/Node/Studio/Gate.antt =====
-- Whom the handlers of node-rs/src/main.rs let through to an instance's dashboard.
use kraph_core.Prelude.{
  ℕ, ◌≡◌, ◌≢◌, ◌↔◌, refl, Option, none, some, [], ◌∷◌, Bool-cases, Option-cases, inl, inr,
}
use kraph_core.Prelude.Int.{ℤ}
use kraph_core.Prelude.Bytes.{Bytes, eq_bytes, eq_bytes_lem, eq_bytes_refl}
use kraph_core.Node.Paths.{Str}
use kraph_core.Node.Env.{strip_prefix}
use kraph_core.Node.Studio.{
  StudioClaims, TokenLibrary, Verified, valid, malformed, bad_signature, expired, verify_token,
  Site, Reply, to_port, set_cookie, exchange_path, or_empty, instance_id_from_host,
  read_studio_cookie, on_host, with_cookie, port_reply, configured, studio_forward_auth_handler,
  unless_blank, exchange, studio_exchange_handler, trim_start_dots,
}
use kraph_core.Node.Studio.Tokens.{IsSigned, verify_token-IsSigned}

-- The cookie is a signed token, not expired, for the instance that the host names, which has the port.
abbrev pub IsGranted :
    TokenLibrary → (now : ℤ) → Site → (host cookie : Option Str) → (port : ℕ) → Type 0
IsGranted c now site host cookie port =
    (token : Str) × (claims : StudioClaims) × (read_studio_cookie c cookie ≡ some token)
    × IsSigned c now site.studio_proxy_secret token claims
    × (or_empty (instance_id_from_host (or_empty host)) ≡ claims.i)
    × (site.studio_port claims.i ≡ some port)

port_of : (o : Option ℕ) (port : ℕ) → port_reply o ≡ to_port port → o ≡ some port
port_of none port h = absurd (cc)
port_of (some p) port h = cc

granted_on :
    (site : Site) (host_id : Str) (v : Verified) (port : ℕ)
    → on_host site host_id v ≡ to_port port
    → (claims : StudioClaims) × (v ≡ valid claims)
      × (host_id ≡ claims.i)
      × (site.studio_port claims.i ≡ some port)
granted_on site host_id malformed port h = absurd (cc)
granted_on site host_id bad_signature port h = absurd (cc)
granted_on site host_id expired port h = absurd (cc)
granted_on site host_id (valid claims) port h = elim (Bool-cases (eq_bytes host_id claims.i)) [
  | inl same ↦ (
    claims,
    refl,
    eq_bytes_lem host_id claims.i same,
    port_of (site.studio_port claims.i) port (rw same at h),
  )
  | inr other ↦ absurd (cc (rw other at h))
]

configured_port :
    (secret : Bytes) (reply : Reply) (port : ℕ)
    → configured secret reply ≡ to_port port
    → reply ≡ to_port port
configured_port [] reply port h = absurd (cc)
configured_port (b ∷ bs) reply port h = h

full_secret : (secret : Bytes) (reply : Reply) → secret ≢ [] → configured secret reply ≡ reply
full_secret [] reply full = absurd (full refl)
full_secret (b ∷ bs) reply full = refl

module _ (c : TokenLibrary) (now : ℤ) (site : Site) (host cookie : Option Str) (port : ℕ) where
  granted :
      with_cookie c now site host (read_studio_cookie c cookie) ≡ to_port port
      → IsGranted c now site host cookie port
  granted h = elim (Option-cases (read_studio_cookie c cookie)) [
    | inl missing ↦ absurd (cc (rw missing at h))
    | inr (token, read) ↦
        let host_id = or_empty (instance_id_from_host (or_empty host)) in
        let (claims, verified, same, found) =
          granted_on site host_id (verify_token c now site.studio_proxy_secret token) port
            (rw read at h) in
        (
          token,
          claims,
          read,
          (verify_token-IsSigned c now site.studio_proxy_secret token claims).0 verified,
          same,
          found,
        )
  ]

  grants :
      IsGranted c now site host cookie port
      → with_cookie c now site host (read_studio_cookie c cookie) ≡ to_port port
  grants (token, claims, read, signed, same, found) =
      let verified = (verify_token-IsSigned c now site.studio_proxy_secret token claims).1 signed in
      rw read (rw verified (rw same (rw (eq_bytes_refl claims.i) (rw found refl))))

-- A request that is not to the exchange path is sent to a port exactly if its cookie is a token that
-- was signed under the node's secret and has not expired, for the instance that the host names, and
-- the port is that instance's; a request to the exchange path is sent to no port.
pub studio_forward_auth_handler-IsGranted :
    (c : TokenLibrary) (now : ℤ) (site : Site) (uri host cookie : Option Str) (port : ℕ)
    → (studio_forward_auth_handler c now site uri host cookie ≡ to_port port)
      ↔ ((strip_prefix exchange_path (or_empty uri) ≡ none) × IsGranted c now site host cookie port)
unfolding studio_forward_auth_handler
studio_forward_auth_handler-IsGranted c now site uri host cookie port =
    elim (Option-cases (strip_prefix exchange_path (or_empty uri))) [
      | inr (rest, at) ↦ rw at ((λ h. absurd (cc)), (λ h. absurd (cc (h.0))))
      | inl plain ↦ rw plain (
        (λ h. (
          refl,
          granted c now site host cookie port (
              configured_port site.studio_proxy_secret
                (with_cookie c now site host (read_studio_cookie c cookie)) port h),
        )),
        (λ (p, g).
            let (token, claims, read, (full, signed), same, found) = g in
            rw
              (full_secret site.studio_proxy_secret
                (with_cookie c now site host (read_studio_cookie c cookie)) full)
              (grants c now site host cookie port g)),
      )
    ]

exchanged :
    (site : Site) (token token' : Str) (host : Option Str) (v : Verified)
    → exchange site token host v ≡ set_cookie token'
    → (token ≡ token')
      × ((claims : StudioClaims) × (v ≡ valid claims)
          × (or_empty (instance_id_from_host (or_empty host)) ≡ claims.i)
          × ((port : ℕ) × (site.studio_port claims.i ≡ some port)))
exchanged site token token' host malformed h = absurd (cc)
exchanged site token token' host bad_signature h = absurd (cc)
exchanged site token token' host expired h = absurd (cc)
exchanged site token token' none (valid claims) h =
    elim (Option-cases (site.studio_port claims.i)) [
      | inl gone ↦ absurd (cc (rw gone at h))
      | inr (port, found) ↦ absurd (cc (rw found at h))
    ]
exchanged site token token' (some host) (valid claims) h =
    elim (Option-cases (site.studio_port claims.i)) [
      | inl gone ↦ absurd (cc (rw gone at h))
      | inr (port, found) ↦ elim (Option-cases (instance_id_from_host host)) [
        | inl bad ↦ absurd (cc (rw (found, bad) at h))
        | inr (host_id, at) ↦ elim (Bool-cases (eq_bytes host_id claims.i)) [
          | inl same ↦
              let q : token ≡ token' = cc (rw (found, at, same) at h) in
              (q, (claims, refl, rw at (eq_bytes_lem host_id claims.i same), (port, found)))
          | inr other ↦ absurd (cc (rw (found, at, other) at h))
        ]
      ]
    ]

checked_cookie :
    (secret apex token' : Str) (reply : Reply)
    → unless_blank secret (unless_blank apex reply) ≡ set_cookie token'
    → reply ≡ set_cookie token'
checked_cookie [] apex token' reply h = absurd (cc)
checked_cookie (b ∷ bs) [] token' reply h = absurd (cc)
checked_cookie (b ∷ bs) (d ∷ ds) token' reply h = h

-- If the exchange sets a token as the cookie, then a request to another path of the same host that
-- carries this cookie at that time is sent to the port of the host's instance.
pub exchange-then-forward :
    (c : TokenLibrary) (now : ℤ) (site : Site) (token token' : Str) (host uri cookie : Option Str)
    → studio_exchange_handler c now site token host ≡ set_cookie token'
    → read_studio_cookie c cookie ≡ some token'
    → strip_prefix exchange_path (or_empty uri) ≡ none
    → (port : ℕ) × (site.studio_port (or_empty (instance_id_from_host (or_empty host))) ≡ some port)
      × (studio_forward_auth_handler c now site uri host cookie ≡ to_port port)
unfolding studio_exchange_handler
exchange-then-forward c now site token token' host uri cookie set read plain =
    let verified = verify_token c now site.studio_proxy_secret token in
    let set' =
      checked_cookie site.studio_proxy_secret (trim_start_dots site.studio_apex) token'
        (exchange site token host verified) set in
    let (q, (claims, valid_claims, same, (port, found))) =
      exchanged site token token' host verified set' in
    let signed =
      (verify_token-IsSigned c now site.studio_proxy_secret token claims).0 valid_claims in
    let granted_to : IsGranted c now site host cookie port =
      (token, claims, rw q read, signed, same, found) in
    (
      port,
      rw same found,
      (studio_forward_auth_handler-IsGranted c now site uri host cookie port).1 (plain, granted_to),
    )
