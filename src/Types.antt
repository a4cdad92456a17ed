-- ===== src/Types.antt =====
-- include/lsm/types.h: `RecordType` and `KeyValueEntry`.
pub mod Codes
pub mod Crc32
use lsm_tree_key_value_store.Prelude.{ℕ, Bool, true, false, Bytes, ◌==◌, if◌then◌else◌}

-- The enumeration has `uint8_t` under it and the readers cast any byte to it, so it can hold a value
-- that has no name: `other`.
pub data RecordType : Type 0 where
  put tombstone : RecordType
  other : ℕ → RecordType

-- `static_cast<RecordType>(b)`
unfoldable pub of_byte : ℕ → RecordType
of_byte b = if b == 1 then put else if b == 2 then tombstone else other b

-- `static_cast<uint8_t>(type)`
unfoldable pub to_byte : RecordType → ℕ
to_byte put = 1
to_byte tombstone = 2
to_byte (other b) = b

-- `type == RecordType::TOMBSTONE`
abbrev pub is_tombstone_type : RecordType → Bool
is_tombstone_type tombstone = true
is_tombstone_type _ = false

pub record KeyValueEntry : Type 0 where
  pub key : Bytes
  pub value : Bytes
  pub type : RecordType

-- `entry.isTombstone()`
abbrev pub is_tombstone : KeyValueEntry → Bool
is_tombstone e = is_tombstone_type e.type
