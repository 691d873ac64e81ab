-- ===== src/Node/Tests/Dashboard.antt =====
-- Runs of the gate before the dashboards (node-rs/src/studio_proxy.rs), with toy cryptography.
use kraph_core.Prelude.{
  ℕ, zero, suc, ◌+◌, ◌-◌, ◌≡◌, ◌↔◌, refl, arith, false, Option, none, some, [], ◌∷◌, ◌++◌, ◌==◌,
  any, map, length, take, drop,
}
use kraph_core.Prelude.Int.{ℤ, pos, negsuc}
use kraph_core.Prelude.Bytes.{Bytes}
use kraph_core.Node.Paths.{Str}
use kraph_core.Node.Env.{strip_prefix}
use kraph_core.Node.Env.RoundTrip.{take_append, drop_append}
use kraph_core.Node.Studio.{
  StudioClaims, TokenLibrary, verify_token, Site, to_port, set_cookie, cookie_prefix, exchange_path,
  or_empty, instance_id_from_host, read_studio_cookie, studio_forward_auth_handler,
  studio_exchange_handler, split_once,
}
use kraph_core.Node.Studio.Gate.{
  IsGranted, studio_forward_auth_handler-IsGranted, exchange-then-forward,
}

abbrev shift : Bytes → Str
shift b = map (λ x. x + 100) b

abbrev unshift : Str → Bytes
unshift s = map (λ x. x - 100) s

unshift-shift : (b : Bytes) → some (unshift (shift b)) ≡ some b
unshift-shift [] = refl
unshift-shift (x ∷ b) =
    let here : x + 100 - 100 ≡ x = omega arith in
    let rest : unshift (shift b) ≡ b = cc (unshift-shift b) in rw (here, rest) refl

shift_no_dot : (b : Bytes) → any (λ d. d == 46) (shift b) ≡ false
shift_no_dot [] = refl
shift_no_dot (x ∷ b) = let here : (x + 100 == 46) ≡ false = ground arith in rw here (shift_no_dot b)

abbrev to_json_toy : StudioClaims → Bytes
to_json_toy claims =
    elim claims.e [ pos n ↦ 0 ∷ n ∷ [] | negsuc n ↦ 1 ∷ n ∷ [] ]
    ++ length claims.w ∷ claims.w
    ++ claims.i

abbrev number : ℕ → ℕ → ℤ
number zero n = pos n
number (suc sign) n = negsuc n

abbrev from_json_toy : Bytes → Option StudioClaims
from_json_toy (sign ∷ n ∷ size ∷ rest) =
    some (record { w = take size rest; i = drop size rest; e = number sign n })
from_json_toy _ = none

json_back :
    (w i : Str) (e : ℤ)
    → from_json_toy (to_json_toy (record { w = w; i = i; e = e }))
      ≡ some (record { w = w; i = i; e = e })
json_back w i (pos n) = rw (take_append w i, drop_append w i) refl
json_back w i (negsuc n) = rw (take_append w i, drop_append w i) refl

abbrev toy_tokens : TokenLibrary
toy_tokens = record {
  hmac = λ secret message. secret ++ message;
  b64u = shift;
  unb64u = λ s. some (unshift s);
  utf8 = λ s. s;
  to_json = to_json_toy;
  from_json = from_json_toy;
  trim = λ s. s;
  unb64u-b64u = unshift-shift;
  from_json-to_json = λ claims. json_back claims.w claims.i claims.e;
  no_dot = shift_no_dot;
}

abbrev secret : Bytes
secret = 9 ∷ []

abbrev site : Site
site = record {
  studio_proxy_secret = secret;
  studio_apex = 46 ∷ 120 ∷ [];
  studio_port = λ id. some 10005;
}

-- "ab.s.x:4"
abbrev host : Option Str
host = some (97 ∷ 98 ∷ 46 ∷ 115 ∷ 46 ∷ 120 ∷ 58 ∷ 52 ∷ [])

abbrev token : Str
token =
    shift (0 ∷ 1300 ∷ 1 ∷ 87 ∷ 97 ∷ 98 ∷ [])
    ++ 46 ∷ shift (9 ∷ shift (0 ∷ 1300 ∷ 1 ∷ 87 ∷ 97 ∷ 98 ∷ []))

abbrev jar : Option Str
jar = some (cookie_prefix ++ token)

studio_forward_auth_handler-IsGranted_example :
    (studio_forward_auth_handler toy_tokens (pos 1000) site (some (47 ∷ [])) host jar
      ≡ to_port 10005)
    ↔ ((strip_prefix exchange_path (or_empty (some (47 ∷ []))) ≡ none)
        × IsGranted toy_tokens (pos 1000) site host jar 10005)
studio_forward_auth_handler-IsGranted_example =
    studio_forward_auth_handler-IsGranted toy_tokens (pos 1000) site (some (47 ∷ [])) host jar 10005

exchange_sets : studio_exchange_handler toy_tokens (pos 1000) site token host ≡ set_cookie token
unfolding studio_exchange_handler verify_token split_once instance_id_from_host
exchange_sets = refl

jar_read : read_studio_cookie toy_tokens jar ≡ some token
unfolding strip_prefix
jar_read = refl

plain_path : strip_prefix exchange_path (or_empty (some (47 ∷ []))) ≡ none
unfolding strip_prefix
plain_path = refl

exchange-then-forward_example :
    (port : ℕ) × (site.studio_port (or_empty (instance_id_from_host (or_empty host))) ≡ some port)
    × (studio_forward_auth_handler toy_tokens (pos 1000) site (some (47 ∷ [])) host jar
        ≡ to_port port)
exchange-then-forward_example =
    exchange-then-forward toy_tokens (pos 1000) site token token host (some (47 ∷ [])) jar
      exchange_sets jar_read plain_path
