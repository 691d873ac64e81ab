-- ===== src/Node/Paths/Names.antt =====
-- Which names the validators of node-rs/src/path_safety.rs accept.
use kraph_core.Prelude.{
  ℕ, ◌+◌, ◌-◌, ◌≡◌, ◌≢◌, ◌≤◌, ◌<◌, ◌↔◌, ◌⊎◌, inl, inr, refl, arith, Bool, true, false, ◌||◌,
  Bool-cases, none, [], ◌∷◌, ◌++◌, ◌==◌, ltb, leb, length, all, any,
}
use kraph_core.Prelude.Bytes.{eq_bytes}
use kraph_core.Node.Paths.{
  Str, width, byte_len, is_id_char, is_function_char, is_env_char, is_env_start, accepted, panicked,
  validate_instance_id_component, validate_function_name, validate_env_key, validate_segment_name,
  check_component, split_at,
}

byte_len_positive : (s : Str) → byte_len s ≡ 0 → s ≡ []
byte_len_positive [] h = refl
byte_len_positive (c ∷ cs) h = absurd (ground arith)

-- The names of one kind have only characters that no path gives a meaning to.
module _ (is_char : ℕ → Bool)
    (plain : (c : ℕ)
      → is_char c ≡ true
      → (c < 128) × (c ≢ 0) × (c ≢ 46) × (c ≢ 47) × (c ≢ 92)) where
  byte_len-all : (s : Str) → all is_char s ≡ true → byte_len s ≡ length s
  byte_len-all [] h = refl
  byte_len-all (c ∷ cs) h =
      let p = plain c (ground arith) in ground (arith, p.0, byte_len-all cs (ground arith))

  free_of :
      (b : ℕ)
      → ((c : ℕ) → is_char c ≡ true → c ≢ b)
      → (s : Str) → all is_char s ≡ true
      → any (λ x. x == b) s ≡ false
  free_of b apart [] h = refl
  free_of b apart (c ∷ cs) h =
      let p = apart c (ground arith) in ground (arith, p, free_of b apart cs (ground arith))

plain_id : (c : ℕ) → is_id_char c ≡ true → (c < 128) × (c ≢ 0) × (c ≢ 46) × (c ≢ 47) × (c ≢ 92)
plain_id c h = ground arith

-- An instance id is accepted exactly if it has between 1 and 64 characters, each a letter, a digit,
-- `_` or `-` of ASCII.
validate_instance_id_component_lem :
    (s : Str)
    → (validate_instance_id_component s ≡ accepted)
      ↔ ((0 < length s) × (length s ≤ 64) × (all is_id_char s ≡ true))
unfolding validate_instance_id_component
validate_instance_id_component_lem s = elim (Bool-cases (all is_id_char s)) [
  | inl good ↦ ground (arith, byte_len-all is_id_char plain_id s good)
  | inr bad ↦ ground arith
]

plain_function :
    (c : ℕ) → is_function_char c ≡ true → (c < 128) × (c ≢ 0) × (c ≢ 46) × (c ≢ 47) × (c ≢ 92)
plain_function c h = ground arith

plain_env : (c : ℕ) → is_env_char c ≡ true → (c < 128) × (c ≢ 0) × (c ≢ 46) × (c ≢ 47) × (c ≢ 92)
plain_env c h = ground arith

env_start : (c : ℕ) → is_env_start c ≡ true → is_env_char c ≡ true
env_start c h = ground arith

not_dots :
    (s : Str)
    → any (λ x. x == 46) s ≡ false
    → (eq_bytes s (46 ∷ []) || eq_bytes s (46 ∷ 46 ∷ [])) ≡ false
not_dots [] h = refl
not_dots (c ∷ cs) h = ground arith

-- What the standard library documents of a path's components: a name that is not empty, holds no
-- separator and is neither `.` nor `..` is one normal component.
abbrev pub IsPathLibrary : (Str → Bool) → Type 0
IsPathLibrary is_normal =
    (s : Str)
    → (0 < byte_len s)
    → any (λ x. x == 47) s ≡ false
    → (eq_bytes s (46 ∷ []) || eq_bytes s (46 ∷ 46 ∷ [])) ≡ false
    → is_normal s ≡ true

module _ (is_normal : Str → Bool) (library : IsPathLibrary is_normal) where
  plain_is_safe :
      (is_char : ℕ → Bool)
      → ((c : ℕ) → is_char c ≡ true → (c < 128) × (c ≢ 0) × (c ≢ 46) × (c ≢ 47) × (c ≢ 92))
      → (s : Str) → (0 < byte_len s)
      → all is_char s ≡ true
      → check_component is_normal s ≡ accepted
  unfolding check_component
  plain_is_safe is_char plain s some_bytes good =
      let nul = free_of is_char plain 0 (λ c h. (plain c h).1) s good in
      let dot = free_of is_char plain 46 (λ c h. (plain c h).2) s good in
      let slash = free_of is_char plain 47 (λ c h. (plain c h).3) s good in
      let backslash = free_of is_char plain 92 (λ c h. (plain c h).4) s good in
      let dots = not_dots s dot in
      let normal = library s some_bytes slash dots in
      let long : (byte_len s == 0) ≡ false = ground arith in
      rw (long, nul, slash, backslash, dots, normal) refl

  -- Where the path library takes every plain name for one normal component, a name that is accepted
  -- as an instance id, a function name or an environment key passes the
  -- component check of `safe_join_under`: it is no way out of a directory.
  pub accepted_is_safe :
      (s : Str)
      → (validate_instance_id_component s ≡ accepted)
        ⊎ ((validate_function_name s ≡ accepted) ⊎ (validate_env_key s ≡ accepted))
      → check_component is_normal s ≡ accepted
  unfolding validate_instance_id_component validate_function_name validate_env_key
  accepted_is_safe s (inl h) = plain_is_safe is_id_char plain_id s (ground arith) (ground arith)
  accepted_is_safe s (inr (inl h)) =
      plain_is_safe is_function_char plain_function s (ground arith) (ground arith)
  accepted_is_safe [] (inr (inr h)) = absurd (cc)
  accepted_is_safe (c ∷ cs) (inr (inr h)) =
      let start : is_env_start c ≡ true = ground arith in
      let first = env_start c start in
      plain_is_safe is_env_char plain_env (c ∷ cs) (ground arith) (ground (arith, first))

split_inside :
    (head : Str) (c : ℕ) (rest : Str) (n : ℕ)
    → all (λ x. ltb x 128) head ≡ true
    → length head + 1 ≡ n
    → 128 ≤ c
    → split_at (head ++ c ∷ rest) n ≡ none
split_inside [] c rest n ascii e wide =
    let one : n ≡ 1 = omega (arith, e) in
    let narrow : leb (width c) 1 ≡ false = ground arith in rw one (rw narrow refl)
split_inside (x ∷ xs) c rest n ascii e wide =
    let here : width x ≡ 1 = ground arith in
    let next = split_inside xs c rest (n - 1) (ground arith) (omega arith) wide in
    let some_left : (n == 0) ≡ false = ground arith in
    let fits : leb 1 n ≡ true = ground arith in rw (some_left, here, fits, next) refl

-- A segment name with a code point outside ASCII after seven characters of ASCII is split in the
-- middle of that code point, and the validator panics instead of refusing the name.
validate_segment_name_panics :
    (head : Str) (c : ℕ) (rest : Str)
    → all (λ x. ltb x 128) head ≡ true
    → length head ≡ 7
    → 128 ≤ c
    → 9 ≤ byte_len (head ++ c ∷ rest)
    → byte_len (head ++ c ∷ rest) ≤ 32
    → validate_segment_name (head ++ c ∷ rest) ≡ panicked
unfolding validate_segment_name
validate_segment_name_panics head c rest ascii seven wide long short =
    ground (arith, split_inside head c rest 8 ascii (omega arith) wide)
