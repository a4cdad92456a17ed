-- ===== src/Bloom/Size.antt =====
-- Adding keys leaves the size of a filter as it is.
use lsm_tree_key_value_store.Prelude.{
  ℕ, zero, suc, ◌+◌, ◌^◌, ◌<◌, ◌≡◌, refl, ◌∙◌, arith, List, [], ◌∷◌, Bytes, length,
  length-replicate, Bool-cases, inl, inr,
}
use lsm_tree_key_value_store.Prelude.Strings.{is_empty}
use lsm_tree_key_value_store.Bloom.{
  BloomFilter, init, num_bytes_for, bit_index, set_bit, add_loop, add,
}
use lsm_tree_key_value_store.Bloom.Bits.{length-set_bit}
use lsm_tree_key_value_store.Bloom.Membership.{add_all}

length-add_loop :
    (n i h1 h2 num_bits : ℕ) (bits : Bytes)
    → length (add_loop n i h1 h2 num_bits bits) ≡ length bits
unfolding add_loop
length-add_loop zero i h1 h2 num_bits bits = refl
length-add_loop (suc n) i h1 h2 num_bits bits =
    length-add_loop n (i + 1) h1 h2 num_bits (set_bit (bit_index h1 h2 i num_bits) bits)
    ∙ length-set_bit (bit_index h1 h2 i num_bits) bits

length-add : (k : Bytes) (f : BloomFilter) → length (add k f).bits ≡ length f.bits
unfolding add
length-add k f = elim (Bool-cases (is_empty f.bits)) [
  | inl e ↦ rw (e) refl
  | inr n ↦ rw (n) (length-add_loop f.num_hashes 0 _ _ _ f.bits)
]

num_hashes-add : (k : Bytes) (f : BloomFilter) → (add k f).num_hashes ≡ f.num_hashes
unfolding add
num_hashes-add k f = elim (Bool-cases (is_empty f.bits)) [
  | inl e ↦ rw (e) refl
  | inr n ↦ rw (n) refl
]

pub length-add_all :
    (ks : List Bytes) (f : BloomFilter) → length (add_all ks f).bits ≡ length f.bits
unfolding add_all
length-add_all [] f = refl
length-add_all (k ∷ ks) f = length-add_all ks (add k f) ∙ length-add k f

pub num_hashes-add_all :
    (ks : List Bytes) (f : BloomFilter) → (add_all ks f).num_hashes ≡ f.num_hashes
unfolding add_all
num_hashes-add_all [] f = refl
num_hashes-add_all (k ∷ ks) f = num_hashes-add_all ks (add k f) ∙ num_hashes-add k f

pub length-init : (n b h : ℕ) → length (init n b h).bits ≡ num_bytes_for n b
unfolding init
length-init n b h = length-replicate (num_bytes_for n b) 0

pub num_hashes-init : (n b h : ℕ) → (init n b h).num_hashes < 2 ^ 32
unfolding init
num_hashes-init n b h = omega arith
