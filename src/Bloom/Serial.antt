-- ===== src/Bloom/Serial.antt =====
-- A filter that is written and read back.
use lsm_tree_key_value_store.Prelude.{
  ℕ, ◌+◌, ◌%◌, ◌^◌, ◌<◌, ◌≡◌, refl, arith, ◌++◌, Bytes, length, drop, length-append, drop_front,
  drop_front, le→ltb, take_all,
}
use lsm_tree_key_value_store.Codec.{encode32}
use lsm_tree_key_value_store.Codec.RoundTrip.{decode32-encode32, length-encode32}
use lsm_tree_key_value_store.Throws.{returned}
use lsm_tree_key_value_store.Bloom.{BloomFilter, serialize, deserialize}

drop_header : (a b : ℕ) (rest : Bytes) → drop 8 (encode32 a ++ (encode32 b ++ rest)) ≡ rest
unfolding encode32
drop_header a b rest = refl

-- `deserialize` reads back the filter that `serialize` wrote, if the number of hash functions is a
-- uint32_t and the bytes with their 8 bytes of header are few enough for one too.
pub deserialize-serialize :
    (f : BloomFilter)
    → f.num_hashes < 2 ^ 32
    → length f.bits + 8 < 2 ^ 32
    → deserialize (serialize f) ≡ returned f
unfolding deserialize serialize
deserialize-serialize f hn hb =
    let size = encode32 (length f.bits % 2 ^ 32) in
    let n : length f.bits % 2 ^ 32 ≡ length f.bits = omega arith in
    rw (
      decode32-encode32 f.num_hashes (size ++ f.bits) hn,
      drop_front 4 (encode32 f.num_hashes) (size ++ f.bits) (length-encode32 f.num_hashes),
      decode32-encode32 (length f.bits % 2 ^ 32) f.bits (omega arith),
      length-append (encode32 f.num_hashes) (size ++ f.bits),
      length-append size f.bits,
      length-encode32 f.num_hashes,
      length-encode32 (length f.bits % 2 ^ 32),
      n,
      drop_header f.num_hashes (length f.bits) f.bits,
      take_all (length f.bits) f.bits (omega arith),
      le→ltb (4 + (4 + length f.bits)) 8 (omega arith),
      le→ltb (4 + (4 + length f.bits)) ((8 + length f.bits) % 2 ^ 32) (omega arith),
    )
