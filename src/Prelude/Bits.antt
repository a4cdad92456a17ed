-- ===== src/Prelude/Bits.antt =====
-- The bit operations that the codecs use, as arithmetic.
use Prim.Native.Nat.{
  ℕ, zero, suc, ◌+◌, ◌*◌, ◌/◌, ◌%◌, ◌^◌, ◌≤◌, ◌<◌, min, max, bit_and, bit_or, digits, bitwise,
  bit_and-bitwise, bit_or-bitwise,
}
use mathlib.Core.Path.{◌≡◌, refl, sym, ap, ◌∙◌}
use native.Mathlib.Omega.{arith}
use native.Mathlib.Nat.{pow-suc}
use native.Mathlib.Decide.{ℕ_discrete}

-- The native operations recur on a count of binary digits; a surplus in the count changes nothing.
module _ (rest : ℕ → ℕ) (op : ℕ → ℕ → ℕ) where
  one_spare : (k x y : ℕ) → x ≤ k → digits rest op (suc k) x y ≡ digits rest op k x y
  one_spare zero zero y le = refl
  one_spare (suc k) zero y le = refl
  one_spare (suc k) (suc x) y le =
      ap (λ t. t * 2 + op (suc x % 2) (y % 2)) (one_spare k (suc x / 2) (y / 2) (omega arith))
  one_spare zero (suc x) y le = elim le [ ]

  spare : (m k x y : ℕ) → x ≤ k → k ≤ m → digits rest op m x y ≡ digits rest op k x y
  spare zero k x y le ge = let e : zero ≡ k = omega arith in ap (λ t. digits rest op t x y) e
  spare (suc m) k x y le ge = elim (ℕ_discrete k (suc m)) [
    | yes e ↦ ap (λ t. digits rest op t x y) (sym e)
    | no ne ↦ one_spare m x y (omega arith) ∙ spare m k x y le (omega arith)
  ]

  lowest :
      (x y : ℕ)
      → bitwise rest op (suc x) y ≡ bitwise rest op (suc x / 2) (y / 2) * 2 + op (suc x % 2) (y % 2)
  lowest x y =
      ap (λ t. t * 2 + op (suc x % 2) (y % 2))
        (spare x (suc x / 2) (suc x / 2) (y / 2) (omega arith) (omega arith))

pub bit_or_low : (a b : ℕ) → bit_or a b ≡ bit_or (a / 2) (b / 2) * 2 + max (a % 2) (b % 2)
bit_or_low zero b = simp bit_or-bitwise (omega arith)
bit_or_low (suc a) b = simp bit_or-bitwise (lowest (λ y. y) max a b)

pub bit_and_low : (a b : ℕ) → bit_and a b ≡ bit_and (a / 2) (b / 2) * 2 + min (a % 2) (b % 2)
bit_and_low zero b = simp bit_and-bitwise (omega arith)
bit_and_low (suc a) b = simp bit_and-bitwise (lowest (λ y. 0) min a b)

-- A value below 2 ^ k and one shifted left by k have no bit in common.
pub bit_or_disjoint : (k x y : ℕ) → x < 2 ^ k → bit_or x (y * 2 ^ k) ≡ x + y * 2 ^ k
bit_or_disjoint zero zero y h = simp bit_or-bitwise (omega arith)
bit_or_disjoint zero (suc x) y h = absurd (omega arith)
bit_or_disjoint (suc k) x y h =
    let p : 2 ^ suc k ≡ 2 * 2 ^ k = simp pow-suc (omega arith) in
    let q : y * 2 ^ suc k ≡ 2 * (y * 2 ^ k) = rw p (grind arith) in
    let half : 2 * (y * 2 ^ k) / 2 ≡ y * 2 ^ k = omega arith in
    let ih = bit_or_disjoint k (x / 2) y (omega (arith, p)) in
    let low = bit_or_low x (2 * (y * 2 ^ k)) in rw q (omega (arith, rw (half, ih) at low))

no_digits : (k x : ℕ) → digits (λ y. 0) min k x 0 ≡ 0
no_digits zero x = refl
no_digits (suc k) zero = refl
no_digits (suc k) (suc x) = omega (arith, no_digits k (suc x / 2))

bit_and-zero : (x : ℕ) → bit_and x 0 ≡ 0
bit_and-zero x = bit_and-bitwise x 0 ∙ no_digits x x

and-mask3 : (a : ℕ) → bit_and a 7 ≡ a % 8
and-mask3 a = omega (
  arith,
  bit_and_low a 7,
  bit_and_low (a / 2) 3,
  bit_and_low (a / 2 / 2) 1,
  bit_and-zero (a / 2 / 2 / 2),
)

-- `x & 0xFF` is the lowest byte.
pub bit_and_byte : (a : ℕ) → bit_and a 0xFF ≡ a % 256
bit_and_byte a = omega (
  arith,
  bit_and_low a 255,
  bit_and_low (a / 2) 127,
  bit_and_low (a / 2 / 2) 63,
  bit_and_low (a / 2 / 2 / 2) 31,
  bit_and_low (a / 2 / 2 / 2 / 2) 15,
  and-mask3 (a / 2 / 2 / 2 / 2 / 2),
)
