-- ===== src/Frame.antt =====
-- The layout of one record, which src/wal.cpp (appendRecord) and src/sstable.cpp (append) both write:
-- type, lengths of key and value, key, value, and the checksum of all that.
pub mod Layout
use lsm_tree_key_value_store.Prelude.{
  ℕ, ◌+◌, ◌%◌, ◌^◌, ◌∷◌, ◌++◌, Bytes, length, take, if◌then◌else◌,
}
use lsm_tree_key_value_store.Types.{RecordType, is_tombstone_type, to_byte}
use lsm_tree_key_value_store.Types.Crc32.{crc32}
use lsm_tree_key_value_store.Codec.{encode32}

-- `static_cast<uint32_t>(key.size())`
unfoldable pub key_len : Bytes → ℕ
key_len key = length key % 2 ^ 32

-- `(type == RecordType::TOMBSTONE) ? 0 : static_cast<uint32_t>(value.size())`
unfoldable pub val_len : RecordType → Bytes → ℕ
val_len type value = if is_tombstone_type type then 0 else length value % 2 ^ 32

-- The 9 bytes `type`, `key_len`, `val_len`.
unfoldable pub header : RecordType → ℕ → ℕ → Bytes
header type klen vlen = to_byte type ∷ (encode32 klen ++ encode32 vlen)

-- What `buffer` holds before the checksum is computed. In src/wal.cpp the sum of the two lengths is
-- a uint32_t: where it wraps, the copies overrun the buffer, which the definition does not show. What
-- is said of a put on a store and of the records of a log assumes lengths whose sum does not wrap.
unfoldable pub payload : RecordType → Bytes → Bytes → Bytes
payload type key value =
    header type (key_len key) (val_len type value)
    ++ (take (key_len key) key ++ take (val_len type value) value)

-- The bytes of the record: the buffer and its checksum.
unfoldable pub encode : RecordType → Bytes → Bytes → Bytes
encode type key value = payload type key value ++ encode32 (crc32 (payload type key value))
