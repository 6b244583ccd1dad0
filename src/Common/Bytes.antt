-- ===== src/Common/Bytes.antt =====
-- Little-endian bytes: `to_le_bytes` and `from_le_bytes` of Rust's integers.
use Prim.Native.Nat.{ℕ, zero, suc, ◌+◌, ◌*◌, ◌/◌, ◌%◌, ◌^◌, ◌<◌}
use mathlib.Core.Path.{◌≡◌, refl, ap, ap₂, sym, ◌∙◌}
use mathlib.Core.Bool.{Bool, true, false, ◌&&◌}
use mathlib.Core.List.{List, [], ◌∷◌}
use native.Mathlib.Omega.{arith}
use rust_lib.Common.Lists.{length, All}
use rust_lib.Common.Tests.{◌==◌}

abbrev pub IsByte : ℕ → Type 0
IsByte b = b < 256

-- The lowest `n` bytes of a number, lowest first.
unfoldable pub to_le_bytes : ℕ → ℕ → List ℕ
to_le_bytes zero v = []
to_le_bytes (suc n) v = (v % 256) ∷ to_le_bytes n (v / 256)

unfoldable pub from_le_bytes : List ℕ → ℕ
from_le_bytes [] = 0
from_le_bytes (b ∷ bytes) = b + 256 * from_le_bytes bytes

pub length-to_le_bytes : (n v : ℕ) → length (to_le_bytes n v) ≡ n
unfolding to_le_bytes
length-to_le_bytes zero v = refl
length-to_le_bytes (suc n) v = omega (arith, length-to_le_bytes n (v / 256))

pub to_le_bytes-IsByte : (n v : ℕ) → All IsByte (to_le_bytes n v)
unfolding to_le_bytes
to_le_bytes-IsByte zero v = tt
to_le_bytes-IsByte (suc n) v = (omega arith, to_le_bytes-IsByte n (v / 256))

pub from-to_le_bytes : (n v : ℕ) → v < 256 ^ n → from_le_bytes (to_le_bytes n v) ≡ v
unfolding to_le_bytes from_le_bytes
from-to_le_bytes zero v h = omega arith
from-to_le_bytes (suc n) v h = omega (arith, from-to_le_bytes n (v / 256) (omega arith))

pub to-from_le_bytes :
    (bytes : List ℕ) → All IsByte bytes → to_le_bytes (length bytes) (from_le_bytes bytes) ≡ bytes
unfolding to_le_bytes from_le_bytes
to-from_le_bytes [] h = refl
to-from_le_bytes (b ∷ bytes) (byte, h) =
    let low : (b + 256 * from_le_bytes bytes) % 256 ≡ b = omega arith in
    let high : (b + 256 * from_le_bytes bytes) / 256 ≡ from_le_bytes bytes = omega arith in
    rw (low, high) (ap (λ r. b ∷ r) (to-from_le_bytes bytes h))

pub from_le_bytes-injective :
    (n : ℕ) (xs ys : List ℕ)
    → length xs ≡ n
    → length ys ≡ n
    → All IsByte xs
    → All IsByte ys
    → from_le_bytes xs ≡ from_le_bytes ys
    → xs ≡ ys
from_le_bytes-injective n xs ys lx ly hx hy e =
    sym (to-from_le_bytes xs hx) ∙ ap₂ to_le_bytes (lx ∙ sym ly) e ∙ to-from_le_bytes ys hy

-- `==` of byte arrays.
unfoldable pub bytes_eq : List ℕ → List ℕ → Bool
bytes_eq [] [] = true
bytes_eq [] (y ∷ ys) = false
bytes_eq (x ∷ xs) [] = false
bytes_eq (x ∷ xs) (y ∷ ys) = (x == y) && bytes_eq xs ys

pub bytes_eq-eq : (xs ys : List ℕ) → bytes_eq xs ys ≡ true → xs ≡ ys
unfolding bytes_eq
bytes_eq-eq [] [] e = refl
bytes_eq-eq [] (y ∷ ys) e = cc
bytes_eq-eq (x ∷ xs) [] e = cc
bytes_eq-eq (x ∷ xs) (y ∷ ys) e = ground (arith, bytes_eq-eq xs ys)

pub bytes_eq_refl : (xs : List ℕ) → bytes_eq xs xs ≡ true
unfolding bytes_eq
bytes_eq_refl [] = refl
bytes_eq_refl (x ∷ xs) = ground (arith, bytes_eq_refl xs)
