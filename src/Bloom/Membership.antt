-- ===== src/Bloom/Membership.antt =====
-- The filter has no false negatives: a key that was added is reported, whatever is added later.
use lsm_tree_key_value_store.Prelude.{
  ℕ, zero, suc, ◌+◌, ◌*◌, ◌<◌, ◌≡◌, refl, ◌∙◌, arith, true, false, List, [], ◌∷◌, Bytes, length,
  All, All-replicate, Bool-cases, inl, inr,
}
use lsm_tree_key_value_store.Prelude.Strings.{is_empty}
use lsm_tree_key_value_store.Codec.{IsByte}
use lsm_tree_key_value_store.Bloom.{
  BloomFilter, init, bit_index, bit_count, set_bit, test_bit, add_loop, add, test_loop,
  possibly_contains, hash1, hash2, num_bytes_for,
}
use lsm_tree_key_value_store.Bloom.Bits.{
  length-set_bit, set_bit-IsByte, test-set_bit_self, test-set_bit_keep,
}

-- Every bit of `a` is set in `b`.
abbrev Extends : Bytes → Bytes → Type 0
Extends a b = (j : ℕ) → test_bit j a ≡ true → test_bit j b ≡ true

-- An array of `num_bits` bits.
record IsArray (num_bits : ℕ) (bits : Bytes) : Type 0 where
  bytes : All IsByte bits
  sized : num_bits ≡ length bits * 8
  not_empty : 0 < num_bits

bit_index-lt : (h1 h2 i n : ℕ) → 0 < n → bit_index h1 h2 i n < n
unfolding bit_index
bit_index-lt h1 h2 i n h = omega arith

module _ (h1 h2 num_bits : ℕ) where
  set_bit-IsArray :
      (i : ℕ) (bits : Bytes) → IsArray num_bits bits → IsArray num_bits (set_bit i bits)
  set_bit-IsArray i bits a = record {
    bytes = set_bit-IsByte i bits a.bytes;
    sized = omega (arith, length-set_bit i bits, a.sized);
    not_empty = a.not_empty;
  }

  add_loop-IsArray :
      (n i : ℕ) (bits : Bytes)
      → IsArray num_bits bits
      → IsArray num_bits (add_loop n i h1 h2 num_bits bits)
  unfolding add_loop
  add_loop-IsArray zero i bits a = a
  add_loop-IsArray (suc n) i bits a = add_loop-IsArray n (i + 1) _ (set_bit-IsArray _ bits a)

  index_inside :
      (i : ℕ) (bits : Bytes) → IsArray num_bits bits → bit_index h1 h2 i num_bits < length bits * 8
  index_inside i bits a = omega (arith, bit_index-lt h1 h2 i num_bits a.not_empty, a.sized)

  add_loop-Extends :
      (n i : ℕ) (bits : Bytes)
      → IsArray num_bits bits
      → Extends bits (add_loop n i h1 h2 num_bits bits)
  unfolding add_loop
  add_loop-Extends zero i bits a j t = t
  add_loop-Extends (suc n) i bits a j t =
      add_loop-Extends n (i + 1) _ (set_bit-IsArray _ bits a) j
        (test-set_bit_keep _ j bits a.bytes (index_inside i bits a) t)

  test_loop_mono :
      (n i : ℕ) (a b : Bytes)
      → Extends a b
      → test_loop n i h1 h2 num_bits a ≡ true
      → test_loop n i h1 h2 num_bits b ≡ true
  unfolding test_loop
  test_loop_mono zero i a b e t = refl
  test_loop_mono (suc n) i a b e t =
      ground (arith, e (bit_index h1 h2 i num_bits), test_loop_mono n (i + 1) a b e)

  test_loop-add_loop :
      (n i : ℕ) (bits : Bytes)
      → IsArray num_bits bits
      → test_loop n i h1 h2 num_bits (add_loop n i h1 h2 num_bits bits) ≡ true
  unfolding test_loop add_loop
  test_loop-add_loop zero i bits a = refl
  test_loop-add_loop (suc n) i bits a =
      let k = bit_index h1 h2 i num_bits in
      let a' = set_bit-IsArray k bits a in
      ground (
        arith,
        add_loop-Extends n (i + 1) (set_bit k bits) a' k
            (test-set_bit_self k bits a.bytes (index_inside i bits a)),
        test_loop-add_loop n (i + 1) (set_bit k bits) a',
      )

-- The array of a filter that has one.
array :
    (f : BloomFilter) → All IsByte f.bits → is_empty f.bits ≡ false → IsArray (bit_count f) f.bits
array f v h = record { bytes = v; sized = refl; not_empty = positive f.bits h }
  where
    positive : (bits : Bytes) → is_empty bits ≡ false → 0 < length bits * 8
    positive [] e = unfold is_empty in cc (e)
    positive (x ∷ xs) e = omega arith

is_empty-eq : (a b : Bytes) → length a ≡ length b → is_empty a ≡ is_empty b
unfolding is_empty
is_empty-eq [] [] h = refl
is_empty-eq [] (y ∷ b) h = absurd (omega arith)
is_empty-eq (x ∷ a) [] h = absurd (omega arith)
is_empty-eq (x ∷ a) (y ∷ b) h = refl

abbrev added : Bytes → BloomFilter → BloomFilter
added k f = record f { bits = add_loop f.num_hashes 0 (hash1 k) (hash2 k) (bit_count f) f.bits }

add_filled : (k : Bytes) (f : BloomFilter) → is_empty f.bits ≡ false → add k f ≡ added k f
unfolding add
add_filled k f h = rw h

add_empty : (k : Bytes) (f : BloomFilter) → is_empty f.bits ≡ true → add k f ≡ f
unfolding add
add_empty k f h = rw h

test_filled :
    (k : Bytes) (f : BloomFilter)
    → is_empty f.bits ≡ false
    → possibly_contains k f ≡ test_loop f.num_hashes 0 (hash1 k) (hash2 k) (bit_count f) f.bits
unfolding possibly_contains
test_filled k f h = rw h

test_empty : (k : Bytes) (f : BloomFilter) → is_empty f.bits ≡ true → possibly_contains k f ≡ true
unfolding possibly_contains
test_empty k f h = rw h

-- A test after an addition to a filter that has an array.
test-added :
    (j k : Bytes) (f : BloomFilter)
    → All IsByte f.bits
    → is_empty f.bits ≡ false
    → possibly_contains j (add k f)
      ≡ test_loop f.num_hashes 0 (hash1 j) (hash2 j) (bit_count f) (added k f).bits
test-added j k f v h =
    let b =
      add_loop-IsArray (hash1 k) (hash2 k) (bit_count f) f.num_hashes 0 f.bits (array f v h) in
    let same : length (added k f).bits ≡ length f.bits = omega (arith, b.sized) in
    rw (add_filled k f h, test_filled j (added k f) (is_empty-eq _ _ same ∙ h), same)

pub add-IsByte : (k : Bytes) (f : BloomFilter) → All IsByte f.bits → All IsByte (add k f).bits
add-IsByte k f v = elim (Bool-cases (is_empty f.bits)) [
  | inl e ↦ rw (add_empty k f e) v
  | inr n ↦
      let b =
        add_loop-IsArray (hash1 k) (hash2 k) (bit_count f) f.num_hashes 0 f.bits (array f v n) in
      rw (add_filled k f n) b.bytes
]

-- A key that has been added is reported.
pub possibly_contains-add_self :
    (k : Bytes) (f : BloomFilter) → All IsByte f.bits → possibly_contains k (add k f) ≡ true
possibly_contains-add_self k f v = elim (Bool-cases (is_empty f.bits)) [
  | inl e ↦ rw (add_empty k f e) (test_empty k f e)
  | inr n ↦
      rw (test-added k k f v n)
        (test_loop-add_loop (hash1 k) (hash2 k) (bit_count f) f.num_hashes 0 f.bits (array f v n))
]

-- A key that is reported is still reported after any other has been added.
pub possibly_contains-add_keep :
    (j k : Bytes) (f : BloomFilter)
    → All IsByte f.bits
    → possibly_contains j f ≡ true
    → possibly_contains j (add k f) ≡ true
possibly_contains-add_keep j k f v h = elim (Bool-cases (is_empty f.bits)) [
  | inl e ↦ rw (add_empty k f e) h
  | inr n ↦ rw (test-added j k f v n) (
      test_loop_mono (hash1 j) (hash2 j) (bit_count f) f.num_hashes 0 f.bits (added k f).bits
        (add_loop-Extends (hash1 k) (hash2 k) (bit_count f) f.num_hashes 0 f.bits (array f v n))
        (rw (test_filled j f n) at h))
]

-- The filter after the keys have been added in their order.
unfoldable pub add_all : List Bytes → BloomFilter → BloomFilter
add_all [] f = f
add_all (k ∷ ks) f = add_all ks (add k f)

add_all_keep :
    (j : Bytes) (ks : List Bytes) (f : BloomFilter)
    → All IsByte f.bits
    → possibly_contains j f ≡ true
    → possibly_contains j (add_all ks f) ≡ true
unfolding add_all
add_all_keep j [] f v h = h
add_all_keep j (k ∷ ks) f v h =
    add_all_keep j ks (add k f) (add-IsByte k f v) (possibly_contains-add_keep j k f v h)

-- No false negatives: after these keys have been added to a filter of bytes, each is reported.
pub add_all_reported :
    (ks : List Bytes) (f : BloomFilter)
    → All IsByte f.bits
    → All (λ k. possibly_contains k (add_all ks f) ≡ true) ks
unfolding add_all
add_all_reported [] f v = tt
add_all_reported (k ∷ ks) f v = (
  add_all_keep k ks (add k f) (add-IsByte k f v) (possibly_contains-add_self k f v),
  add_all_reported ks (add k f) (add-IsByte k f v),
)

-- The constructor makes a filter of bytes.
pub init-IsByte : (n b h : ℕ) → All IsByte (init n b h).bits
unfolding init
init-IsByte n b h = All-replicate IsByte (num_bytes_for n b) 0 (omega arith)
