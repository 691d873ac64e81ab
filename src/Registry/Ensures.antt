-- ===== src/Registry/Ensures.antt =====
-- Postconditions of a `Result`: what holds of the value if there is one. One rule for each way in
-- which the instructions of contracts/programs/supaba-registry are put together.
use kraph_core.Prelude.{◌≡◌, refl, Bool, true, false, if◌then◌else◌}
use kraph_core.Registry.Types.{SupabaError, AnchorError}
use kraph_core.Registry.Ledger.{Result, ok, err, ◌>>=◌, ◌>>◌, require, constrain}

pub record Ensures {ℓ κ} {A : Type ℓ} (Q : A → Type κ) (r : Result A) : Type (ℓ ⊔ κ) where
  pub at : (a : A) → r ≡ ok a → Q a

ok_injective {ℓ} : {A : Type ℓ} {a b : A} → ok a ≡ ok b → a ≡ b
ok_injective e = cc

module _ {ℓ κ} {A : Type ℓ} {Q : A → Type κ} where
  pub Ensures-ok : (a : A) → Q a → Ensures Q (ok a)
  Ensures-ok a q = record { at = λ b e. rw (ok_injective e) at q }

  pub Ensures-require :
      (b : Bool) (e : SupabaError) (k : Result A)
      → (b ≡ true → Ensures Q k)
      → Ensures Q (require b e >> k)
  unfolding require ◌>>=◌
  Ensures-require true e k h = h refl
  Ensures-require false e k h = record { at = λ a eq. cc }

  pub Ensures-constrain :
      (b : Bool) (e : AnchorError) (k : Result A)
      → (b ≡ true → Ensures Q k)
      → Ensures Q (constrain b e >> k)
  unfolding constrain ◌>>=◌
  Ensures-constrain true e k h = h refl
  Ensures-constrain false e k h = record { at = λ a eq. cc }

  pub Ensures-if :
      (b : Bool) (r s : Result A)
      → (b ≡ true → Ensures Q r)
      → (b ≡ false → Ensures Q s)
      → Ensures Q (if b then r else s)
  Ensures-if true r s h k = h refl
  Ensures-if false r s h k = k refl

module _ {ℓ κ μ} {A : Type ℓ} {B : Type μ} {Q : B → Type κ} where
  pub Ensures-bind :
      (m : Result A) (f : A → Result B)
      → ((a : A) → m ≡ ok a → Ensures Q (f a))
      → Ensures Q (m >>= f)
  unfolding ◌>>=◌
  Ensures-bind (ok a) f h = h a refl
  Ensures-bind (err e) f h = record { at = λ a eq. cc }
