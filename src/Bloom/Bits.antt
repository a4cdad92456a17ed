-- ===== src/Bloom/Bits.antt =====
-- Setting one bit of an array of bytes sets that bit and clears none.
use Prim.Native.Nat.{bit_and, bit_or}
use lsm_tree_key_value_store.Prelude.{
  ℕ, zero, suc, ◌*◌, ◌/◌, ◌%◌, ◌^◌, ◌<◌, ◌≡◌, refl, arith, Bool, true, false, ◌&&◌, Bytes, length,
  get_or, length-set, All, All-set, All-get_or, get_or-set_self, get_or-set_ne, ◌==◌, if◌then◌else◌,
  Bool-cases, inl, inr,
}
use lsm_tree_key_value_store.Codec.{IsByte}
use lsm_tree_key_value_store.Bloom.{set_bit, test_bit}

-- `p` at every number below `n`, by evaluation.
holds_to : (ℕ → Bool) → ℕ → Bool
holds_to p zero = true
holds_to p (suc n) = if p n then holds_to p n else false

holds_at : (p : ℕ → Bool) {n : ℕ} (i : ℕ) → i < n → holds_to p n ≡ true → p i ≡ true
unfolding holds_to
holds_at p {n = zero} i lt all = absurd (omega arith)
holds_at p {n = suc n} i lt all = ground (arith, λ (below : i < n). holds_at p {n = n} i below)

abbrev has_bit : ℕ → ℕ → Bool
has_bit b j = if bit_and b (2 ^ j) == 0 then false else true

abbrev with_bit : ℕ → ℕ → ℕ
with_bit b i = bit_or b (2 ^ i) % 2 ^ 8

abbrev implies : Bool → Bool → Bool
implies a b = if a then b else true

-- Setting bit `i` of a byte sets it and clears none.
abbrev sets_bit : ℕ → ℕ → ℕ → Bool
sets_bit b i j = has_bit (with_bit b i) i && implies (has_bit b j) (has_bit (with_bit b i) j)

abbrev sets_bits : ℕ → ℕ → Bool
sets_bits b i = holds_to (sets_bit b i) 8

abbrev sets_all : ℕ → Bool
sets_all b = holds_to (sets_bits b) 8

sets_bit_table : holds_to sets_all 256 ≡ true
unfolding holds_to
sets_bit_table = refl

sets_bit_lem : (b i j : ℕ) → b < 256 → i < 8 → j < 8 → sets_bit b i j ≡ true
sets_bit_lem b i j hb hi hj =
    holds_at (sets_bit b i) j hj
      (holds_at (sets_bits b) i hi (holds_at sets_all b hb sets_bit_table))

pub length-set_bit : (i : ℕ) (bits : Bytes) → length (set_bit i bits) ≡ length bits
unfolding set_bit
length-set_bit i bits = length-set bits _ _

pub set_bit-IsByte : (i : ℕ) (bits : Bytes) → All IsByte bits → All IsByte (set_bit i bits)
unfolding set_bit
set_bit-IsByte i bits h = All-set IsByte bits _ _ (omega arith) h

pub test-set_bit_self :
    (i : ℕ) (bits : Bytes)
    → All IsByte bits
    → i < length bits * 8
    → test_bit i (set_bit i bits) ≡ true
unfolding set_bit test_bit
test-set_bit_self i bits h lt =
    rw (get_or-set_self bits (i / 8) (with_bit (get_or bits (i / 8) 0) (i % 8)) 0 (omega arith)) (
      ground (
        arith,
        sets_bit_lem (get_or bits (i / 8) 0) (i % 8) (i % 8)
            (All-get_or IsByte bits (i / 8) 0 (omega arith) h) (omega arith) (omega arith),
      ))

-- A bit that is set stays set.
pub test-set_bit_keep :
    (i j : ℕ) (bits : Bytes)
    → All IsByte bits
    → i < length bits * 8
    → test_bit j bits ≡ true
    → test_bit j (set_bit i bits) ≡ true
unfolding set_bit test_bit
test-set_bit_keep i j bits h lt t = elim (Bool-cases (i / 8 == j / 8)) [
  | inl e ↦
      let q : j / 8 ≡ i / 8 = ground arith in
      let b = get_or bits (i / 8) 0 in
      rw (q, get_or-set_self bits (i / 8) (with_bit b (i % 8)) 0 (omega arith))
        (ground (
          arith,
          rw q at t,
          sets_bit_lem b (i % 8) (j % 8) (All-get_or IsByte bits (i / 8) 0 (omega arith) h)
              (omega arith) (omega arith),
        ))
  | inr n ↦
      rw
        (get_or-set_ne bits (i / 8) (j / 8) (with_bit (get_or bits (i / 8) 0) (i % 8)) 0
          (λ (e : i / 8 ≡ j / 8). ground arith))
        t
]
