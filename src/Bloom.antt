-- ===== src/Bloom.antt =====
-- include/lsm/bloom_filter.h and src/bloom_filter.cpp: the Bloom filter.
pub mod Bits
pub mod Membership
pub mod Serial
pub mod Size
use Prim.Native.Nat.{bit_and, bit_or, bit_xor}
use lsm_tree_key_value_store.Prelude.{
  ℕ, zero, suc, ◌+◌, ◌*◌, ◌/◌, ◌%◌, ◌^◌, Bool, true, false, [], ◌∷◌, ◌++◌, Bytes, length, take,
  drop, get_or, set, replicate, ltb, ◌==◌, if◌then◌else◌,
}
use lsm_tree_key_value_store.Prelude.Strings.{text, is_empty}
use lsm_tree_key_value_store.Codec.{encode32, decode32}
use lsm_tree_key_value_store.Throws.{Throws, returned, thrown}

pub record BloomFilter : Type 0 where
  pub bits : Bytes
  pub num_hashes : ℕ

-- The bytes that the constructor asks for; the arithmetic is in size_t.
unfoldable pub num_bytes_for : ℕ → ℕ → ℕ
num_bytes_for num_keys bits_per_key =
    let keys = if num_keys == 0 then 64 else num_keys in
    let total = keys * bits_per_key % 2 ^ 64 in
    let total_bits = if ltb total 64 then 64 else total in (total_bits + 7) % 2 ^ 64 / 8

-- `BloomFilter(num_keys, bits_per_key, num_hashes)`
unfoldable pub init : ℕ → ℕ → ℕ → BloomFilter
init num_keys bits_per_key num_hashes = record {
  bits = replicate (num_bytes_for num_keys bits_per_key) 0;
  num_hashes = num_hashes % 2 ^ 32;
}

-- FNV-1a, from the current value of `hash` on.
unfoldable pub fnv_loop : ℕ → Bytes → ℕ
fnv_loop hash [] = hash
fnv_loop hash (c ∷ cs) = fnv_loop (bit_xor hash c * 16777619 % 2 ^ 32) cs

unfoldable pub hash1 : Bytes → ℕ
unfolding fnv_loop
hash1 key = fnv_loop 2166136261 key

-- `hash += (hash << k)` and `hash ^= (hash >> k)` on a uint32_t
abbrev pub add_shifted : ℕ → ℕ → ℕ
add_shifted k hash = (hash + hash * 2 ^ k % 2 ^ 32) % 2 ^ 32

abbrev pub xor_shifted : ℕ → ℕ → ℕ
xor_shifted k hash = bit_xor hash (hash / 2 ^ k)

-- Jenkins' one-at-a-time hash.
unfoldable pub jenkins_loop : ℕ → Bytes → ℕ
jenkins_loop hash [] = hash
jenkins_loop hash (c ∷ cs) = jenkins_loop (xor_shifted 6 (add_shifted 10 ((hash + c) % 2 ^ 32))) cs

unfoldable pub hash2 : Bytes → ℕ
unfolding jenkins_loop
hash2 key =
    let hash = add_shifted 15 (xor_shifted 11 (add_shifted 3 (jenkins_loop 0 key))) in
    if hash == 0 then 1 else hash

-- `(uint64_t(h1) + uint64_t(i) * h2) % num_bits`
unfoldable pub bit_index : ℕ → ℕ → ℕ → ℕ → ℕ
bit_index h1 h2 i num_bits = (h1 + i * h2 % 2 ^ 64) % 2 ^ 64 % num_bits

-- `bitCount()`
abbrev pub bit_count : BloomFilter → ℕ
bit_count f = length f.bits * 8

-- `bits_[idx / 8] |= (1 << (idx % 8))`
unfoldable pub set_bit : ℕ → Bytes → Bytes
set_bit idx bits = set bits (idx / 8) (bit_or (get_or bits (idx / 8) 0) (2 ^ (idx % 8)) % 2 ^ 8)

-- `bits_[idx / 8] & (1 << (idx % 8))` as a condition
unfoldable pub test_bit : ℕ → Bytes → Bool
test_bit idx bits = if bit_and (get_or bits (idx / 8) 0) (2 ^ (idx % 8)) == 0 then false else true

-- The loop over `i`, with the number of rounds left.
unfoldable pub add_loop : ℕ → ℕ → ℕ → ℕ → ℕ → Bytes → Bytes
add_loop zero i h1 h2 num_bits bits = bits
add_loop (suc n) i h1 h2 num_bits bits =
    add_loop n (i + 1) h1 h2 num_bits (set_bit (bit_index h1 h2 i num_bits) bits)

unfoldable pub add : Bytes → BloomFilter → BloomFilter
add key f =
    if is_empty f.bits
    then f
    else record f { bits = add_loop f.num_hashes 0 (hash1 key) (hash2 key) (bit_count f) f.bits }

unfoldable pub test_loop : ℕ → ℕ → ℕ → ℕ → ℕ → Bytes → Bool
test_loop zero i h1 h2 num_bits bits = true
test_loop (suc n) i h1 h2 num_bits bits = elim (test_bit (bit_index h1 h2 i num_bits) bits) [
  | true ↦ test_loop n (i + 1) h1 h2 num_bits bits
  | false ↦ false
]

unfoldable pub possibly_contains : Bytes → BloomFilter → Bool
possibly_contains key f =
    if is_empty f.bits
    then true
    else test_loop f.num_hashes 0 (hash1 key) (hash2 key) (bit_count f) f.bits

unfoldable pub serialize : BloomFilter → Bytes
serialize f = encode32 f.num_hashes ++ (encode32 (length f.bits % 2 ^ 32) ++ f.bits)

-- `8 + num_bytes` is a sum of uint32_t. Where it wraps, the copy reads past the buffer; here it
-- stops at the end, and no theorem covers that.
unfoldable pub deserialize : Bytes → Throws BloomFilter
deserialize bs =
    let num_hashes = decode32 bs in
    let num_bytes = decode32 (drop 4 bs) in
    if ltb (length bs) 8
    then thrown (text "Invalid Bloom filter buffer size")
    else if ltb (length bs) ((8 + num_bytes) % 2 ^ 32)
    then thrown (text "Bloom filter data truncated")
    else returned (record { bits = take num_bytes (drop 8 bs); num_hashes = num_hashes })
