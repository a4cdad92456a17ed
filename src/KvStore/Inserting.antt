-- ===== src/KvStore/Inserting.antt =====
-- One more entry in the memtable of an open store, and its record in the log.
use lsm_tree_key_value_store.Prelude.{
  ◌≡◌, refl, ap, ◌∙◌, sym, some, List, [], ◌∷◌, Bytes, All, Bool-cases, inl, inr, if◌then◌else◌,
}
use lsm_tree_key_value_store.Prelude.Strings.{string_eq, string_lt}
use lsm_tree_key_value_store.Prelude.SortedMap.{insert, insert-IsSorted, find-insert, or_else}
use lsm_tree_key_value_store.Types.{KeyValueEntry}
use lsm_tree_key_value_store.Disk.{Disk, set_file}
use lsm_tree_key_value_store.Disk.Laws.{file-set_file_ne}
use lsm_tree_key_value_store.MemTable.{MemTable, MemTableEntry}
use lsm_tree_key_value_store.SsTable.Writer.{table_entries}
use lsm_tree_key_value_store.SsTable.Layout.{IsStored}
use lsm_tree_key_value_store.Compaction.Merge.{newest}
use lsm_tree_key_value_store.KvStore.{KvStore}
use lsm_tree_key_value_store.KvStore.Names.Paths.{table_path, wal-ne-table_path}
use lsm_tree_key_value_store.KvStore.View.{shown, view, Represents, Readers-frame, IsNamed-same}
use lsm_tree_key_value_store.KvStore.Reading.{find-table_entries}

-- An entry of the memtable as an entry of a table.
abbrev pub stored_as : Bytes → MemTableEntry → KeyValueEntry
stored_as key e = record { key = key; value = e.value; type = e.type }

insert-IsStored :
    (key : Bytes) (e : MemTableEntry) (m : List (Bytes × MemTableEntry))
    → IsStored (stored_as key e)
    → All IsStored (table_entries m)
    → All IsStored (table_entries (insert key e m))
unfolding insert table_entries
insert-IsStored key e [] new h = (new, tt)
insert-IsStored key e ((k, x) ∷ m) new h = elim (Bool-cases (string_lt key k)) [
  | inl below ↦ rw (below) (new, h)
  | inr above ↦ elim (Bool-cases (string_eq k key)) [
    | inl same ↦ rw (above, same) (new, h.1)
    | inr other ↦ rw (above, other) (h.0, insert-IsStored key e m new h.1)
  ]
]

module _ (s : KvStore) (d : Disk) (ess : List (List KeyValueEntry)) (h : Represents s d ess)
    (key : Bytes) (e : MemTableEntry) where
  -- The store with the entry in its memtable, and the record in its log.
  pub inserted-Represents :
      (m : MemTable) (c : Bytes)
      → m.table ≡ insert key e s.memtable.table
      → IsStored (stored_as key e)
      → Represents (record s { memtable = m }) (set_file s.wal.filepath (some c) d) ess
  inserted-Represents m c at new =
      let l = h.layout in
      record {
        is_open = h.is_open;
        layout = record {
          manifest = l.manifest;
          wal_path = l.wal_path;
          wal_open = l.wal_open;
          wal_good = l.wal_good;
          named = l.named;
        };
        readers =
            Readers-frame d (set_file s.wal.filepath (some c) d) s.sstables ess
              (IsNamed-same s.db_path s.next_sst_seq d (set_file s.wal.filepath (some c) d)
                s.sstables
                (λ n lt. file-set_file_ne s.wal.filepath (table_path s.db_path n) (some c) d (
                  ap (λ p. string_eq p (table_path s.db_path n)) l.wal_path
                  ∙ wal-ne-table_path s.db_path n))
                l.named)
              h.readers;
        mem_sorted = rw (at) (insert-IsSorted key e s.memtable.table h.mem_sorted);
        mem_stored = rw (at) (insert-IsStored key e s.memtable.table new h.mem_stored);
      }

  -- Its map differs at the key only.
  pub inserted-view :
      (m : MemTable) (j : Bytes)
      → m.table ≡ insert key e s.memtable.table
      → view (record s { memtable = m }) ess j
        ≡ (if string_eq key j then shown (some (stored_as key e)) else view s ess j)
  unfolding view
  inserted-view m j at =
      rw
        (
          at,
          find-table_entries j (insert key e s.memtable.table),
          find-insert key j e s.memtable.table,
        )
        (elim (Bool-cases (string_eq key j)) [
          | inl same ↦ rw (same) refl
          | inr other ↦ rw (other) (
              ap (λ o. shown (or_else o (newest j ess)))
                (sym (find-table_entries j s.memtable.table)))
        ])
