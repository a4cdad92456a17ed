-- ===== src/Codec.antt =====
-- The little-endian codecs that src/wal.cpp, src/sstable.cpp and src/bloom_filter.cpp each define.
-- A decoder gets a pointer: here the bytes from there on. Every caller checks that there are enough.
pub mod RoundTrip
use Prim.Native.Nat.{bit_and, bit_or}
use lsm_tree_key_value_store.Prelude.{
  ℕ, zero, suc, ◌+◌, ◌*◌, ◌/◌, ◌%◌, ◌^◌, ◌<◌, [], ◌∷◌, Bytes, get_or,
}

-- `static_cast<uint8_t>((value >> (8 * i)) & 0xFF)`
abbrev pub byte_of : ℕ → ℕ → ℕ
byte_of value i = bit_and (value / 2 ^ (8 * i)) 0xFF % 2 ^ 8

unfoldable pub encode32 : ℕ → Bytes
encode32 value = byte_of value 0 ∷ byte_of value 1 ∷ byte_of value 2 ∷ byte_of value 3 ∷ []

-- `static_cast<uint32_t>(buffer[i]) << (8 * i)`
abbrev pub lane32 : Bytes → ℕ → ℕ
lane32 bs i = get_or bs i 0 * 2 ^ (8 * i) % 2 ^ 32

unfoldable pub decode32 : Bytes → ℕ
decode32 bs = bit_or (bit_or (bit_or (get_or bs 0 0) (lane32 bs 1)) (lane32 bs 2)) (lane32 bs 3)

-- The loop over `i`, with the number of rounds left.
unfoldable pub encode64_loop : ℕ → ℕ → ℕ → Bytes
encode64_loop zero i value = []
encode64_loop (suc n) i value = byte_of value i ∷ encode64_loop n (i + 1) value

unfoldable pub encode64 : ℕ → Bytes
unfolding encode64_loop
encode64 value = encode64_loop 8 0 value

unfoldable pub decode64_loop : ℕ → ℕ → ℕ → Bytes → ℕ
decode64_loop zero i val bs = val
decode64_loop (suc n) i val bs =
    decode64_loop n (i + 1) (bit_or val (get_or bs i 0 * 2 ^ (8 * i) % 2 ^ 64)) bs

unfoldable pub decode64 : Bytes → ℕ
unfolding decode64_loop
decode64 bs = decode64_loop 8 0 0 bs

abbrev pub IsByte : ℕ → Type 0
IsByte b = b < 2 ^ 8
