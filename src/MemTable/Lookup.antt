-- ===== src/MemTable/Lookup.antt =====
-- What a reader of the memtable sees after each mutation.
use lsm_tree_key_value_store.Prelude.{true, false, some, ◌≡◌, [], Bytes, arith, if◌then◌else◌}
use lsm_tree_key_value_store.Prelude.Strings.{text, string_eq}
use lsm_tree_key_value_store.Prelude.SortedMap.{find, insert, find-insert}
use lsm_tree_key_value_store.Types.{RecordType}
use lsm_tree_key_value_store.Result
use lsm_tree_key_value_store.Result.{Result}
use lsm_tree_key_value_store.MemTable.{MemTable, MemTableEntry, put, remove, get}

abbrev pub put_entry : Bytes → MemTableEntry
put_entry value = record { value = value; type = RecordType.put }

abbrev pub tombstone_entry : MemTableEntry
tombstone_entry = record { value = []; type = RecordType.tombstone }

pub table-put : (t : MemTable) (k v : Bytes) → (put t k v).table ≡ insert k (put_entry v) t.table
unfolding put
table-put t k v = ground arith

pub table-remove :
    (t : MemTable) (k : Bytes) → (remove t k).table ≡ insert k tombstone_entry t.table
unfolding remove
table-remove t k = ground arith

pub find-put :
    (t : MemTable) (k v j : Bytes)
    → find j (put t k v).table ≡ (if string_eq k j then some (put_entry v) else find j t.table)
find-put t k v j = rw (table-put t k v) (find-insert k j (put_entry v) t.table)

pub find-remove :
    (t : MemTable) (k j : Bytes)
    → find j (remove t k).table ≡ (if string_eq k j then some tombstone_entry else find j t.table)
find-remove t k j = rw (table-remove t k) (find-insert k j tombstone_entry t.table)

-- After a put of `k`, a get of `k` returns the value and a get of any other key what it did before.
pub get-put :
    (t : MemTable) (k v j : Bytes)
    → get (put t k v) j ≡ (if string_eq k j then (Result.ok v, false) else get t j)
unfolding get
get-put t k v j = ground (arith, find-put t k v j)

-- After a removal of `k`, a get of `k` reports a tombstone and a get of any other key what it did.
pub get-remove :
    (t : MemTable) (k j : Bytes)
    → get (remove t k) j ≡ (
        if string_eq k j
        then (Result.not_found (text "Key is deleted (tombstone)"), true)
        else get t j)
unfolding get
get-remove t k j = ground (arith, find-remove t k j)
