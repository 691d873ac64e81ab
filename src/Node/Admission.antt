-- ===== src/Node/Admission.antt =====
-- The admission control for expensive jobs (node-rs/src/job_admission.rs). A string is the list of
-- its bytes. The state behind the mutex is passed along, and a handler's guard is a value that
-- `drop_guard` consumes.
use kraph_core.Prelude.{
  ℕ, Bool, true, false, not, ◌&&◌, List, [], ◌∷◌, ◌++◌, ◌==◌, any, if◌then◌else◌,
}
use kraph_core.Prelude.Bytes.{Bytes, eq_bytes}
pub mod Jobs

pub data JobKind : Type 0 where
  build migration : JobKind

-- "build" and "migration"
abbrev pub as_str : JobKind → Bytes
as_str build = 98 ∷ 117 ∷ 105 ∷ 108 ∷ 100 ∷ []
as_str migration = 109 ∷ 105 ∷ 103 ∷ 114 ∷ 97 ∷ 116 ∷ 105 ∷ 111 ∷ 110 ∷ []

-- `format!("{}|{name}", kind.as_str())`
abbrev pub job_key : JobKind → Bytes → Bytes
job_key kind name = as_str kind ++ 124 ∷ name

-- `HashSet<String>`: `contains`, `insert` and `remove`.
abbrev pub contains : List Bytes → Bytes → Bool
contains keys key = any (λ k. eq_bytes k key) keys

abbrev pub insert : Bytes → List Bytes → List Bytes
insert key keys = if contains keys key then keys else key ∷ keys

abbrev pub delete : Bytes → List Bytes → List Bytes
delete key [] = []
delete key (k ∷ keys) = let rest = delete key keys in if eq_bytes k key then rest else k ∷ rest

pub record State : Type 0 where
  pub by_wallet : List Bytes
  pub by_instance : List Bytes

pub record AdmissionGuard : Type 0 where
  pub kind : JobKind
  pub wallet_key : Bytes
  pub instance_key : Bytes

pub data Admission : Type 0 where
  admitted : AdmissionGuard → State → Admission
  wallet_busy instance_busy : JobKind → Admission

abbrev pub is_build : JobKind → Bool
is_build build = true
is_build migration = false

-- The guard of a job that was let in.
abbrev pub guard_for : JobKind → (wallet instance_id : Bytes) → AdmissionGuard
guard_for kind wallet instance_id = record {
  kind = kind;
  wallet_key = job_key kind wallet;
  instance_key = job_key kind instance_id;
}

unfoldable pub try_acquire : JobKind → (wallet instance_id : Bytes) → State → Admission
try_acquire kind wallet instance_id s =
    let wallet_key = job_key kind wallet in
    let instance_key = job_key kind instance_id in
    if is_build kind && contains s.by_wallet wallet_key
    then wallet_busy kind
    else if contains s.by_instance instance_key
    then instance_busy kind
    else admitted (guard_for kind wallet instance_id) (record {
      by_wallet = insert wallet_key s.by_wallet;
      by_instance = insert instance_key s.by_instance;
    })

-- `impl Drop for AdmissionGuard`
unfoldable pub drop_guard : AdmissionGuard → State → State
drop_guard g s = record {
  by_wallet = delete g.wallet_key s.by_wallet;
  by_instance = delete g.instance_key s.by_instance;
}
