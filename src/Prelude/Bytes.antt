-- ===== src/Prelude/Bytes.antt =====
-- Byte strings, and their equality test.
use Prim.Native.Nat.{ℕ}
use mathlib.Core.Path.{◌≡◌, refl}
use mathlib.Core.Bool.{Bool, true, false, ◌&&◌}
use mathlib.Core.List.{List, [], ◌∷◌}
use native.Mathlib.Omega.{arith}
use kraph_core.Prelude.Tests.{◌==◌, ==_refl}

abbrev pub Bytes : Type 0
Bytes = List ℕ

abbrev pub eq_bytes : Bytes → Bytes → Bool
eq_bytes [] [] = true
eq_bytes [] (y ∷ ys) = false
eq_bytes (x ∷ xs) [] = false
eq_bytes (x ∷ xs) (y ∷ ys) = x == y && eq_bytes xs ys

pub eq_bytes_refl : (a : Bytes) → eq_bytes a a ≡ true
eq_bytes_refl [] = refl
eq_bytes_refl (x ∷ xs) = rw (==_refl x) (eq_bytes_refl xs)

pub eq_bytes_lem : (a b : Bytes) → eq_bytes a b ≡ true → a ≡ b
eq_bytes_lem [] [] h = refl
eq_bytes_lem [] (y ∷ ys) h = absurd (cc)
eq_bytes_lem (x ∷ xs) [] h = absurd (cc)
eq_bytes_lem (x ∷ xs) (y ∷ ys) h =
    let p : x ≡ y = ground arith in let q = eq_bytes_lem xs ys (ground arith) in rw (p, q) refl

pub eq_bytes_sym : (a b : Bytes) → eq_bytes a b ≡ eq_bytes b a
eq_bytes_sym [] [] = refl
eq_bytes_sym [] (y ∷ ys) = refl
eq_bytes_sym (x ∷ xs) [] = refl
eq_bytes_sym (x ∷ xs) (y ∷ ys) = ground (arith, eq_bytes_sym xs ys)
