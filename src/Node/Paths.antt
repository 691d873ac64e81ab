-- ===== src/Node/Paths.antt =====
-- The validators of names that reach the file system (node-rs/src/path_safety.rs). A string is the
-- list of its code points; `byte_len` is its length in UTF-8.
use kraph_core.Prelude.{
  ℕ, ◌+◌, ◌-◌, Bool, true, false, not, ◌&&◌, ◌||◌, Option, none, some, List, [], ◌∷◌, ◌==◌, ltb,
  leb, length, all, any, if◌then◌else◌,
}
use kraph_core.Prelude.Bytes.{eq_bytes}
pub mod Names

abbrev pub Str : Type 0
Str = List ℕ

-- The bytes of a code point in UTF-8.
abbrev pub width : ℕ → ℕ
width c = if ltb c 128 then 1 else if ltb c 2048 then 2 else if ltb c 65536 then 3 else 4

abbrev pub byte_len : Str → ℕ
byte_len [] = 0
byte_len (c ∷ cs) = width c + byte_len cs

abbrev pub is_digit : ℕ → Bool
is_digit c = leb 48 c && leb c 57

abbrev pub is_upper : ℕ → Bool
is_upper c = leb 65 c && leb c 90

abbrev pub is_lower : ℕ → Bool
is_lower c = leb 97 c && leb c 122

abbrev pub is_alphanumeric : ℕ → Bool
is_alphanumeric c = is_digit c || is_upper c || is_lower c

-- `Err` with its cause, or a panic.
pub data Verdict : Type 0 where
  accepted panicked : Verdict
  empty too_long out_of_bounds invalid_character bad_start : Verdict
  bad_head bad_middle_length bad_middle : Verdict
  nul_byte separator special not_normal : Verdict

-- `_` and `-`
abbrev pub is_id_char : ℕ → Bool
is_id_char c = is_alphanumeric c || c == 95 || c == 45

unfoldable pub validate_instance_id_component : Str → Verdict
validate_instance_id_component s =
    if byte_len s == 0
    then empty
    else if ltb 64 (byte_len s)
    then too_long
    else if all is_id_char s
    then accepted
    else invalid_character

abbrev pub is_function_char : ℕ → Bool
is_function_char c = is_lower c || is_digit c || c == 45

unfoldable pub validate_function_name : Str → Verdict
validate_function_name s =
    if byte_len s == 0
    then empty
    else if ltb 64 (byte_len s)
    then too_long
    else if all is_function_char s
    then accepted
    else invalid_character

abbrev pub is_env_start : ℕ → Bool
is_env_start c = is_upper c || is_lower c || c == 95

abbrev pub is_env_char : ℕ → Bool
is_env_char c = is_alphanumeric c || c == 95

unfoldable pub validate_env_key : Str → Verdict
validate_env_key [] = empty
validate_env_key (first ∷ rest) =
    if ltb 128 (byte_len (first ∷ rest))
    then too_long
    else if not (is_env_start first)
    then bad_start
    else if all is_env_char rest
    then accepted
    else invalid_character

-- `is_upper_hex`
abbrev pub is_upper_hex : ℕ → Bool
is_upper_hex c = is_digit c || (leb 65 c && leb c 70)

-- `str::split_at`, which panics inside a code point or past the end.
abbrev pub on_head : ℕ → Option (Str × Str) → Option (Str × Str)
on_head c none = none
on_head c (some (head, tail)) = some (c ∷ head, tail)

abbrev pub split_at : Str → ℕ → Option (Str × Str)
split_at [] n = if n == 0 then some ([], []) else none
split_at (c ∷ cs) n =
    let rest = split_at cs (n - width c) in
    if n == 0 then some ([], c ∷ cs) else if leb (width c) n then on_head c rest else none

-- ".history" and ".partial"
abbrev pub history : Str
history = 46 ∷ 104 ∷ 105 ∷ 115 ∷ 116 ∷ 111 ∷ 114 ∷ 121 ∷ []

abbrev pub partial : Str
partial = 46 ∷ 112 ∷ 97 ∷ 114 ∷ 116 ∷ 105 ∷ 97 ∷ 108 ∷ []

-- `str::strip_suffix`, or the whole string.
abbrev pub without_suffix : Str → Str → Str
without_suffix suffix [] = []
without_suffix suffix (c ∷ cs) =
    let rest = without_suffix suffix cs in if eq_bytes (c ∷ cs) suffix then [] else c ∷ rest

abbrev pub validate_middle : Str → Verdict
validate_middle mid =
    if not (byte_len mid == 16)
    then bad_middle_length
    else if all is_upper_hex mid
    then accepted
    else bad_middle

abbrev pub validate_split : Option (Str × Str) → Verdict
validate_split none = panicked
validate_split (some (head, tail)) =
    if not (all is_upper_hex head)
    then bad_head
    else if eq_bytes tail history
    then accepted
    else validate_middle (without_suffix partial tail)

unfoldable pub validate_segment_name : Str → Verdict
validate_segment_name s =
    if byte_len s == 0
    then empty
    else if ltb (byte_len s) 9 || ltb 32 (byte_len s)
    then out_of_bounds
    else validate_split (split_at s 8)

-- One turn of the first loop of `safe_join_under`. `is_normal` is whether `Path::components` finds
-- nothing but `Component::Normal`.
unfoldable pub check_component : (is_normal : Str → Bool) → Str → Verdict
check_component is_normal c =
    if byte_len c == 0
    then empty
    else if any (λ x. x == 0) c
    then nul_byte
    else if any (λ x. x == 47) c || any (λ x. x == 92) c
    then separator
    else if eq_bytes c (46 ∷ []) || eq_bytes c (46 ∷ 46 ∷ [])
    then special
    else if is_normal c
    then accepted
    else not_normal
