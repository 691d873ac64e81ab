-- ===== src/Node/Studio.antt =====
-- The gate before an instance's dashboard: the tokens and cookies of node-rs/src/studio_proxy.rs, and
-- the handlers of node-rs/src/main.rs that use them. The clock is an argument. HMAC, base64, the
-- claims' JSON, UTF-8 and `str::trim` are parameters, and so is the table of instances.
use kraph_core.Prelude.{
  ℕ, ◌≡◌, Bool, true, false, not, Option, none, some, List, [], ◌∷◌, ◌++◌, ◌==◌, any, if◌then◌else◌,
}
use kraph_core.Prelude.Int.{ℤ, pos, ◌+ℤ◌, ltb_ℤ}
use kraph_core.Prelude.Bytes.{Bytes, eq_bytes}
use kraph_core.Node.Paths.{Str}
use kraph_core.Node.Env.{strip_prefix}
pub mod Tokens
pub mod Gate

pub record StudioClaims : Type 0 where
  pub w : Str
  pub i : Str
  pub e : ℤ

pub record TokenLibrary : Type 0 where
  pub hmac : (secret message : Bytes) → Bytes
  pub b64u : Bytes → Str
  pub unb64u : Str → Option Bytes
  pub utf8 : Str → Bytes
  pub to_json : StudioClaims → Bytes
  pub from_json : Bytes → Option StudioClaims
  pub trim : Str → Str
  -- what was encoded is decoded again, and the alphabet of base64 has no dot
  pub unb64u-b64u : (b : Bytes) → unb64u (b64u b) ≡ some b
  pub from_json-to_json : (claims : StudioClaims) → from_json (to_json claims) ≡ some claims
  pub no_dot : (b : Bytes) → any (λ d. d == 46) (b64u b) ≡ false

pub data Verified : Type 0 where
  malformed bad_signature expired : Verified
  valid : StudioClaims → Verified

unfoldable pub mint_token :
    TokenLibrary → (now : ℤ) → (secret : Bytes) (wallet instance_id : Str) (ttl_secs : ℤ) → Str
mint_token c now secret wallet id ttl =
    let payload_b64 = c.b64u (c.to_json (record { w = wallet; i = id; e = now +ℤ ttl })) in
    payload_b64 ++ 46 ∷ c.b64u (c.hmac secret (c.utf8 payload_b64))

-- `str::split_once`
abbrev pub after_head : ℕ → Option (Str × Str) → Option (Str × Str)
after_head d none = none
after_head d (some (before, after)) = some (d ∷ before, after)

unfoldable pub split_once : (separator : ℕ) → Str → Option (Str × Str)
split_once separator [] = none
split_once separator (d ∷ text) =
    let rest = split_once separator text in
    if d == separator then some ([], text) else after_head d rest

abbrev pub check_expiry : (now : ℤ) → Option StudioClaims → Verified
check_expiry now none = malformed
check_expiry now (some claims) = if ltb_ℤ claims.e now then expired else valid claims

abbrev pub read_claims : TokenLibrary → (now : ℤ) → Option Bytes → Verified
read_claims c now none = malformed
read_claims c now (some payload) = check_expiry now (c.from_json payload)

abbrev pub check_tag :
    TokenLibrary → (now : ℤ) → (secret : Bytes) (payload_b64 : Str) → Option Bytes → Verified
check_tag c now secret payload_b64 none = malformed
check_tag c now secret payload_b64 (some tag) =
    if eq_bytes tag (c.hmac secret (c.utf8 payload_b64))
    then read_claims c now (c.unb64u payload_b64)
    else bad_signature

abbrev pub check_parts : TokenLibrary → (now : ℤ) → (secret : Bytes) → Option (Str × Str) → Verified
check_parts c now secret none = malformed
check_parts c now secret (some (payload_b64, tag_b64)) =
    check_tag c now secret payload_b64 (c.unb64u tag_b64)

abbrev pub unless_empty : Bytes → Verified → Verified
unless_empty [] checked = bad_signature
unless_empty (b ∷ bs) checked = checked

unfoldable pub verify_token : TokenLibrary → (now : ℤ) → (secret : Bytes) (token : Str) → Verified
verify_token c now secret token =
    unless_empty secret (check_parts c now secret (split_once 46 token))

-- "kraph_studio="
abbrev pub cookie_prefix : Str
cookie_prefix = 107 ∷ 114 ∷ 97 ∷ 112 ∷ 104 ∷ 95 ∷ 115 ∷ 116 ∷ 117 ∷ 100 ∷ 105 ∷ 111 ∷ 61 ∷ []

-- `str::split`
abbrev pub onto_first : ℕ → List Str → List Str
onto_first d [] = (d ∷ []) ∷ []
onto_first d (part ∷ parts) = (d ∷ part) ∷ parts

abbrev pub split : (separator : ℕ) → Str → List Str
split separator [] = [] ∷ []
split separator (d ∷ text) =
    let rest = split separator text in if d == separator then [] ∷ rest else onto_first d rest

abbrev pub or_else : Option Str → Option Str → Option Str
or_else none second = second
or_else (some first) second = some first

abbrev pub first_cookie : TokenLibrary → List Str → Option Str
first_cookie c [] = none
first_cookie c (kv ∷ rest) =
    let later = first_cookie c rest in or_else (strip_prefix cookie_prefix (c.trim kv)) later

-- From the Cookie header, if there is one.
abbrev pub read_studio_cookie : TokenLibrary → Option Str → Option Str
read_studio_cookie c none = none
read_studio_cookie c (some header) = first_cookie c (split 59 header)

abbrev pub before_port : List Str → Str
before_port [] = []
before_port (part ∷ parts) = part

abbrev pub leading : Option (Str × Str) → Option Str
leading none = none
leading (some (id, rest)) = some id

unfoldable pub instance_id_from_host : Str → Option Str
instance_id_from_host host = leading (split_once 46 (before_port (split 58 host)))

-- The configuration that the handlers read, and `get_instance_by_id`: the studio port of an
-- instance that is not destroyed.
pub record Site : Type 0 where
  pub studio_proxy_secret : Bytes
  pub studio_apex : Str
  pub studio_port : Str → Option ℕ

-- 200 without a port, 200 with the port to proxy to, 302 with the cookie's token, or a refusal.
pub data Reply : Type 0 where
  let_through : Reply
  to_port : ℕ → Reply
  set_cookie : (token : Str) → Reply
  forbidden unauthorized not_found unavailable : Reply

abbrev pub or_empty : Option Str → Str
or_empty none = []
or_empty (some s) = s

-- "/__kraph/studio/exchange"
abbrev pub exchange_path : Str
exchange_path =
    47 ∷ 95 ∷ 95 ∷ 107 ∷ 114 ∷ 97 ∷ 112 ∷ 104 ∷ 47 ∷ 115 ∷ 116 ∷ 117 ∷ 100 ∷ 105 ∷ 111 ∷ 47 ∷ 101
    ∷ 120 ∷ 99 ∷ 104 ∷ 97 ∷ 110 ∷ 103 ∷ 101 ∷ []

abbrev pub port_reply : Option ℕ → Reply
port_reply none = not_found
port_reply (some port) = to_port port

abbrev pub on_host : Site → (host_id : Str) → Verified → Reply
on_host site host_id (valid claims) =
    if eq_bytes host_id claims.i then port_reply (site.studio_port claims.i) else unauthorized
on_host site host_id _ = unauthorized

abbrev pub with_cookie : TokenLibrary → (now : ℤ) → Site → (host : Option Str) → Option Str → Reply
with_cookie c now site host none = unauthorized
with_cookie c now site host (some token) =
    let host_id = or_empty (instance_id_from_host (or_empty host)) in
    on_host site host_id (verify_token c now site.studio_proxy_secret token)

abbrev pub configured : Bytes → Reply → Reply
configured [] reply = unavailable
configured (b ∷ bs) reply = reply

abbrev pub is_exchange : Option Str → Bool
is_exchange none = false
is_exchange (some rest) = true

-- `host` is the X-Forwarded-Host header, or else the Host header.
unfoldable pub studio_forward_auth_handler :
    TokenLibrary → (now : ℤ) → Site → (forwarded_uri host cookie : Option Str) → Reply
studio_forward_auth_handler c now site uri host cookie =
    if is_exchange (strip_prefix exchange_path (or_empty uri))
    then let_through
    else configured site.studio_proxy_secret
        (with_cookie c now site host (read_studio_cookie c cookie))

abbrev pub trim_start_dots : Str → Str
trim_start_dots [] = []
trim_start_dots (d ∷ text) = let rest = trim_start_dots text in if d == 46 then rest else d ∷ text

abbrev pub match_host : (token : Str) → StudioClaims → Option Str → Reply
match_host token claims none = forbidden
match_host token claims (some host_id) =
    if eq_bytes host_id claims.i then set_cookie token else forbidden

abbrev pub require_host : (token : Str) → StudioClaims → Option Str → Reply
require_host token claims none = forbidden
require_host token claims (some host) = match_host token claims (instance_id_from_host host)

abbrev pub if_found : Option ℕ → Reply → Reply
if_found none reply = not_found
if_found (some port) reply = reply

abbrev pub exchange : Site → (token : Str) → (host : Option Str) → Verified → Reply
exchange site token host (valid claims) =
    if_found (site.studio_port claims.i) (require_host token claims host)
exchange site token host _ = forbidden

abbrev pub unless_blank : Str → Reply → Reply
unless_blank [] reply = forbidden
unless_blank (d ∷ text) reply = reply

unfoldable pub studio_exchange_handler :
    TokenLibrary → (now : ℤ) → Site → (token : Str) → (host : Option Str) → Reply
studio_exchange_handler c now site token host = unless_blank site.studio_proxy_secret (
    unless_blank (trim_start_dots site.studio_apex)
      (exchange site token host (verify_token c now site.studio_proxy_secret token)))
