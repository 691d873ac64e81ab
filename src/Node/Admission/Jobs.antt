-- ===== src/Node/Admission/Jobs.antt =====
-- Which jobs run at once under the admission control of node-rs/src/job_admission.rs.
use kraph_core.Prelude.{
  ◌≡◌, refl, sym, arith, Bool, true, false, not, ◌&&◌, ◌||◌, Bool-cases, inl, inr, List, [], ◌∷◌,
  ◌++◌, any,
}
use kraph_core.Prelude.Bytes.{Bytes, eq_bytes, eq_bytes_refl, eq_bytes_lem, eq_bytes_sym}
use kraph_core.Node.Admission.{
  AdmissionGuard, JobKind, build, migration, job_key, contains, insert, delete, State, Admission,
  admitted, wallet_busy, instance_busy, is_build, guard_for, try_acquire, drop_guard,
}

contains-insert :
    (k : Bytes) (keys : List Bytes) (key : Bytes)
    → contains (insert k keys) key ≡ (contains keys key || eq_bytes k key)
contains-insert k keys key = elim (Bool-cases (eq_bytes k key)) [
  | inl same ↦
      let q = eq_bytes_lem k key same in
      rw q (rw (eq_bytes_refl key) (ground (arith, eq_bytes_refl key)))
  | inr other ↦ rw other (ground (arith, other))
]

contains-delete :
    (k : Bytes) (keys : List Bytes) (key : Bytes)
    → contains (delete k keys) key ≡ (contains keys key && not (eq_bytes k key))
contains-delete k [] key = refl
contains-delete k (x ∷ xs) key = elim (Bool-cases (eq_bytes x k)) [
  | inl same ↦
      let q = eq_bytes_lem x k same in rw same (ground (arith, q, contains-delete k xs key))
  | inr other ↦ elim (Bool-cases (eq_bytes x key)) [
    | inl here ↦
        let q = eq_bytes_lem x key here in
        rw (← q, other, eq_bytes_sym k x, other, eq_bytes_refl x) refl
    | inr there ↦ rw (other, there) (ground (arith, contains-delete k xs key))
  ]
]

contains-append :
    (xs ys : List Bytes) (key : Bytes)
    → contains (xs ++ ys) key ≡ (contains xs key || contains ys key)
contains-append [] ys key = refl
contains-append (x ∷ xs) ys key = ground (arith, contains-append xs ys key)

pub record Job : Type 0 where
  pub kind : JobKind
  pub wallet : Bytes
  pub instance_id : Bytes

abbrev pub guard_of : Job → AdmissionGuard
guard_of j = guard_for j.kind j.wallet j.instance_id

abbrev pub idle : State
idle = record { by_wallet = []; by_instance = [] }

-- The states that acquiring and dropping lead to, with the jobs that run.
pub data IsReachable : State → List Job → Type 0 where
  started : IsReachable idle []
  acquired :
      (s s' : State) (js : List Job) (j : Job)
      → IsReachable s js
      → try_acquire j.kind j.wallet j.instance_id s ≡ admitted (guard_of j) s'
      → IsReachable s' (j ∷ js)
  dropped :
      (s : State) (before after : List Job) (j : Job)
      → IsReachable s (before ++ j ∷ after)
      → IsReachable (drop_guard (guard_of j) s) (before ++ after)

-- Two jobs of one kind on one instance, and two builds for one wallet.
abbrev pub same_instance : Job → Job → Bool
same_instance j k = eq_bytes (job_key j.kind j.instance_id) (job_key k.kind k.instance_id)

abbrev pub same_build_wallet : Job → Job → Bool
same_build_wallet j k =
    is_build k.kind
    && (is_build j.kind && eq_bytes (job_key j.kind j.wallet) (job_key k.kind k.wallet))

-- No two entries of the list are related.
abbrev pub Apart : (Job → Job → Bool) → List Job → Type 0
Apart r [] = Unit
Apart r (j ∷ js) = (any (λ k. r k j) js ≡ false) × Apart r js

abbrev pub IsExclusive : List Job → Type 0
IsExclusive js = Apart same_instance js × Apart same_build_wallet js

module _ {ℓ} {A : Type ℓ} (p : A → Bool) where
  any-append : (xs ys : List A) → any p (xs ++ ys) ≡ (any p xs || any p ys)
  any-append [] ys = refl
  any-append (x ∷ xs) ys = ground (arith, any-append xs ys)

  any-drop :
      (xs : List A) (y : A) (ys : List A)
      → any p (xs ++ y ∷ ys) ≡ false
      → (p y ≡ false) × (any p (xs ++ ys) ≡ false)
  any-drop xs y ys h = ground (arith, any-append xs (y ∷ ys), any-append xs ys)

any-none {ℓ} : {A : Type ℓ} (xs : List A) → any (λ x. false) xs ≡ false
any-none [] = refl
any-none (x ∷ xs) = any-none xs

module _ (r : Job → Job → Bool) (flip : (j k : Job) → r j k ≡ r k j) where
  Apart-drop :
      (xs : List Job) (j : Job) (ys : List Job)
      → Apart r (xs ++ j ∷ ys)
      → (any (λ k. r k j) (xs ++ ys) ≡ false) × Apart r (xs ++ ys)
  Apart-drop [] j ys h = h
  Apart-drop (x ∷ xs) j ys (alone, rest) =
      let (here, there) = any-drop (λ k. r k x) xs j ys alone in
      let (others, apart) = Apart-drop xs j ys rest in
      let back : r x j ≡ false = rw (flip j x) at here in (rw back others, (there, apart))

same_instance_flip : (j k : Job) → same_instance j k ≡ same_instance k j
same_instance_flip j k = eq_bytes_sym (job_key j.kind j.instance_id) (job_key k.kind k.instance_id)

same_build_wallet_flip : (j k : Job) → same_build_wallet j k ≡ same_build_wallet k j
same_build_wallet_flip j k =
    ground (arith, eq_bytes_sym (job_key j.kind j.wallet) (job_key k.kind k.wallet))

abbrev build_of : Bytes → Job → Bool
build_of w j = is_build j.kind && eq_bytes (job_key j.kind j.wallet) (job_key build w)

-- How the sets follow the jobs that run.
record IsTracked (s : State) (js : List Job) : Type 0 where
  instances :
      (k : Job)
      → contains s.by_instance (job_key k.kind k.instance_id) ≡ any (λ j. same_instance j k) js
  wallets : (w : Bytes) → contains s.by_wallet (job_key build w) ≡ any (build_of w) js

-- The part of `try_acquire` that lets a job in.
try_acquire-admitted :
    (j : Job) (s s' : State)
    → try_acquire j.kind j.wallet j.instance_id s ≡ admitted (guard_of j) s'
    → (s'.by_wallet ≡ insert (job_key j.kind j.wallet) s.by_wallet)
      × (s'.by_instance ≡ insert (job_key j.kind j.instance_id) s.by_instance)
      × (contains s.by_instance (job_key j.kind j.instance_id) ≡ false)
      × ((is_build j.kind && contains s.by_wallet (job_key j.kind j.wallet)) ≡ false)
unfolding try_acquire
try_acquire-admitted j s s' done = ground arith

insert_wallet :
    (kind : JobKind) (wallet w : Bytes) (keys : List Bytes)
    → contains (insert (job_key kind wallet) keys) (job_key build w) ≡ (
        (is_build kind && eq_bytes (job_key kind wallet) (job_key build w))
        || contains keys (job_key build w))
insert_wallet build wallet w keys =
    ground (arith, contains-insert (job_key build wallet) keys (job_key build w))
insert_wallet migration wallet w keys =
    ground (arith, contains-insert (job_key migration wallet) keys (job_key build w))

IsTracked-acquired :
    (j : Job) (s s' : State) (js : List Job)
    → IsTracked s js
    → try_acquire j.kind j.wallet j.instance_id s ≡ admitted (guard_of j) s'
    → IsTracked s' (j ∷ js)
IsTracked-acquired j s s' js h done =
    let (wallets, instances, free, unbuilt) = try_acquire-admitted j s s' done in
    record {
      instances = λ k. rw instances (
          ground (
            arith,
            contains-insert (job_key j.kind j.instance_id) s.by_instance
                (job_key k.kind k.instance_id),
            h.instances k,
          ));
      wallets = λ w. rw (wallets, insert_wallet j.kind j.wallet w s.by_wallet, h.wallets w) refl;
    }

-- A job that the sets allow shares nothing with the jobs that run.
free_wallet :
    (kind : JobKind) (wallet i : Bytes) (s : State) (js : List Job)
    → IsTracked s js
    → (is_build kind && contains s.by_wallet (job_key kind wallet))
      ≡ any (λ k. same_build_wallet k (record { kind = kind; wallet = wallet; instance_id = i })) js
free_wallet build wallet i s js h = h.wallets wallet
free_wallet migration wallet i s js h = sym (any-none js)

IsExclusive-acquired :
    (j : Job) (s s' : State) (js : List Job)
    → IsTracked s js
    → IsExclusive js
    → try_acquire j.kind j.wallet j.instance_id s ≡ admitted (guard_of j) s'
    → IsExclusive (j ∷ js)
IsExclusive-acquired j s s' js h (a, b) done =
    let (wallets, instances, free, unbuilt) = try_acquire-admitted j s s' done in
    let alone = rw (h.instances j) at free in
    let alone_wallet = rw (free_wallet j.kind j.wallet j.instance_id s js h) at unbuilt in
    ((alone, a), (alone_wallet, b))

-- Taking the job `j` out, when no other is related as `c` says.
without :
    (p : Job → Bool) (xs : List Job) (j : Job) (ys : List Job) (e c : Bool)
    → e ≡ any p (xs ++ j ∷ ys)
    → c ≡ p j
    → (c ≡ true → any p (xs ++ ys) ≡ false)
    → (e && not c) ≡ any p (xs ++ ys)
without p xs j ys e c f g alone = ground (arith, any-append p xs (j ∷ ys), any-append p xs ys)

delete_wallet :
    (kind : JobKind) (wallet w : Bytes) (keys : List Bytes)
    → contains (delete (job_key kind wallet) keys) (job_key build w) ≡ (
        contains keys (job_key build w)
        && not (is_build kind && eq_bytes (job_key kind wallet) (job_key build w)))
delete_wallet build wallet w keys = contains-delete (job_key build wallet) keys (job_key build w)
delete_wallet migration wallet w keys =
    contains-delete (job_key migration wallet) keys (job_key build w)

-- A build for `w` shares its wallet with every other build for `w`.
shared_wallet :
    (kind : JobKind) (wallet i w : Bytes) (js : List Job)
    → (is_build kind && eq_bytes (job_key kind wallet) (job_key build w)) ≡ true
    → any (λ k. same_build_wallet k (record { kind = kind; wallet = wallet; instance_id = i })) js
      ≡ false
    → any (build_of w) js ≡ false
shared_wallet build wallet i w js same alone = let q = eq_bytes_lem wallet w same in rw q at alone
shared_wallet migration wallet i w js same alone = absurd (cc)

IsTracked-dropped :
    (s : State) (xs : List Job) (j : Job) (ys : List Job)
    → IsTracked s (xs ++ j ∷ ys)
    → IsExclusive (xs ++ j ∷ ys)
    → IsTracked (drop_guard (guard_of j) s) (xs ++ ys)
unfolding drop_guard
IsTracked-dropped s xs j ys h (a, b) =
    let (alone, rest) = Apart-drop same_instance same_instance_flip xs j ys a in
    let (alone_wallet, rest_wallet) =
      Apart-drop same_build_wallet same_build_wallet_flip xs j ys b in
    record {
      instances = λ k.
          let key = job_key k.kind k.instance_id in
          rw (contains-delete (job_key j.kind j.instance_id) s.by_instance key) (
            without (λ x. same_instance x k) xs j ys (contains s.by_instance key)
              (same_instance j k) (h.instances k) refl
              (λ same.
                let q = eq_bytes_lem (job_key j.kind j.instance_id) key same in rw q at alone));
      wallets = λ w. rw (delete_wallet j.kind j.wallet w s.by_wallet) (
          without (build_of w) xs j ys (contains s.by_wallet (job_key build w)) (build_of w j)
            (h.wallets w) refl
            (λ same. shared_wallet j.kind j.wallet j.instance_id w (xs ++ ys) same alone_wallet));
    }

IsExclusive-dropped :
    (xs : List Job) (j : Job) (ys : List Job) → IsExclusive (xs ++ j ∷ ys) → IsExclusive (xs ++ ys)
IsExclusive-dropped xs j ys (a, b) = (
  (Apart-drop same_instance same_instance_flip xs j ys a).1,
  (Apart-drop same_build_wallet same_build_wallet_flip xs j ys b).1,
)

reachable : (s : State) (js : List Job) → IsReachable s js → IsTracked s js × IsExclusive js
reachable s js started = (record { instances = λ k. refl; wallets = λ w. refl }, (tt, tt))
reachable s js (acquired s₀ s' js' j before done) =
    let (tracked, exclusive) = reachable s₀ js' before in
    (
      IsTracked-acquired j s₀ s' js' tracked done,
      IsExclusive-acquired j s₀ s' js' tracked exclusive done,
    )
reachable s js (dropped s₀ xs ys j before) =
    let (tracked, exclusive) = reachable s₀ (xs ++ j ∷ ys) before in
    (IsTracked-dropped s₀ xs j ys tracked exclusive, IsExclusive-dropped xs j ys exclusive)

-- However jobs come and go, no two that run at once are builds, or migrations, on one instance, and
-- no two are builds for one wallet.
pub reachable-IsExclusive : (s : State) (js : List Job) → IsReachable s js → IsExclusive js
reachable-IsExclusive s js h = (reachable s js h).1

abbrev pub is_admitted : Admission → Bool
is_admitted (admitted g s) = true
is_admitted (wallet_busy kind) = false
is_admitted (instance_busy kind) = false

-- In any state that is reached, a job is let in exactly if it shares its instance with no job of its
-- kind that runs, and, for a build, its wallet with no build that runs: what has been dropped
-- holds nothing back.
pub try_acquire_exact :
    (s : State) (js : List Job) (j : Job)
    → IsReachable s js
    → is_admitted (try_acquire j.kind j.wallet j.instance_id s)
      ≡ not (any (λ k. same_build_wallet k j) js || any (λ k. same_instance k j) js)
unfolding try_acquire
try_acquire_exact s js j h =
    let (tracked, exclusive) = reachable s js h in
    rw (← free_wallet j.kind j.wallet j.instance_id s js tracked, ← tracked.instances j)
      (ground arith)
