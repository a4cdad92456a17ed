-- ===== src/MemTable.antt =====
-- include/lsm/memtable.h and src/memtable.cpp: the sorted buffer of mutations.
pub mod Lookup
pub mod Size
use lsm_tree_key_value_store.Prelude.{
  ℕ, ◌+◌, ◌-◌, ◌*◌, ◌%◌, ◌^◌, Bool, true, false, Option, none, some, List, [], Bytes, length, leb,
  if◌then◌else◌,
}
use lsm_tree_key_value_store.Prelude.Strings.{text}
use lsm_tree_key_value_store.Prelude.SortedMap.{find, insert}
use lsm_tree_key_value_store.Types.{RecordType, is_tombstone_type}
use lsm_tree_key_value_store.Result
use lsm_tree_key_value_store.Result.{Result}

pub record MemTableEntry : Type 0 where
  pub value : Bytes
  pub type : RecordType

-- `entry.isTombstone()`
abbrev pub is_tombstone : MemTableEntry → Bool
is_tombstone e = is_tombstone_type e.type

pub record MemTable : Type 0 where
  pub table : List (Bytes × MemTableEntry)
  pub approximate_size : ℕ
  pub size_threshold : ℕ

-- `sizeof(void*) * 4 + sizeof(MemTableEntry)` where pointers have 8 bytes and an entry, a string of
-- 32 bytes and a tag, has 40. No proof reads the number.
unfoldable pub entry_overhead : ℕ
entry_overhead = 8 * 4 + 40

-- A sum in size_t.
abbrev pub word64 : ℕ → ℕ
word64 n = n % 2 ^ 64

-- `MemTable(size_threshold)`
abbrev pub init : ℕ → MemTable
init threshold = record { table = []; approximate_size = 0; size_threshold = threshold }

unfoldable pub add_size : MemTable → ℕ → MemTable
add_size t bytes = record t { approximate_size = word64 (t.approximate_size + bytes) }

unfoldable pub sub_size : MemTable → ℕ → MemTable
sub_size t bytes =
    if leb bytes t.approximate_size
    then record t { approximate_size = t.approximate_size - bytes }
    else record t { approximate_size = 0 }

-- The size that `put` and `remove` take off for an entry that they overwrite.
unfoldable pub old_entry_size : Bytes → MemTableEntry → ℕ
old_entry_size key e =
    word64 (length key + (if is_tombstone e then 0 else length e.value) + entry_overhead)

-- `table_[key] = e` and the size of what is new.
unfoldable pub write_entry : Bytes → MemTableEntry → ℕ → MemTable → MemTable
unfolding add_size
write_entry key e size t = add_size (record t { table = insert key e t.table }) size

-- What `put` and `remove` do once `find` has answered.
unfoldable pub overwrite : Bytes → MemTableEntry → ℕ → Option MemTableEntry → MemTable → MemTable
unfolding write_entry sub_size old_entry_size
overwrite key e size none t = write_entry key e size t
overwrite key e size (some old) t = write_entry key e size (sub_size t (old_entry_size key old))

unfoldable pub put : MemTable → Bytes → Bytes → MemTable
unfolding overwrite
put t key value =
    overwrite key (record { value = value; type = RecordType.put })
      (word64 (length key + length value + entry_overhead)) (find key t.table) t

unfoldable pub remove : MemTable → Bytes → MemTable
unfolding overwrite
remove t key =
    overwrite key (record { value = []; type = RecordType.tombstone })
      (word64 (length key + entry_overhead)) (find key t.table) t

unfoldable pub get_found : Option MemTableEntry → Result × Bool
get_found none = (Result.not_found (text "Key not found in MemTable"), false)
get_found (some e) =
    if is_tombstone e
    then (Result.not_found (text "Key is deleted (tombstone)"), true)
    else (Result.ok e.value, false)

-- The result, and what the out-parameter `is_tombstone` is set to.
unfoldable pub get : MemTable → Bytes → Result × Bool
unfolding get_found
get t key = get_found (find key t.table)

unfoldable pub contains : MemTable → Bytes → Bool
contains t key = elim (find key t.table) [ none ↦ false | some e ↦ true ]

unfoldable pub is_full : MemTable → Bool
is_full t = leb t.size_threshold t.approximate_size

unfoldable pub clear : MemTable → MemTable
clear t = record t { table = []; approximate_size = 0 }

-- `count()` and `empty()`
abbrev pub count : MemTable → ℕ
count t = length t.table
