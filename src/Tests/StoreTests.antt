-- ===== src/Tests/StoreTests.antt =====
-- An open store at concrete inputs: two entries in a memtable that is full, and no table yet.
use lsm_tree_key_value_store.Prelude.{refl, ap, ◌∙◌, arith, true, some, [], ◌∷◌, Bytes}
use lsm_tree_key_value_store.Prelude.Strings.{string_eq, string_lt, is_empty}
use lsm_tree_key_value_store.Prelude.SortedMap.{insert}
use lsm_tree_key_value_store.Types.{put, tombstone}
use lsm_tree_key_value_store.Options.{default_options}
use lsm_tree_key_value_store.Disk.{Disk, reliable, set_file}
use lsm_tree_key_value_store.SsTable.Writer.{table_entries}
use lsm_tree_key_value_store.Compaction.{merge_records, surviving}
use lsm_tree_key_value_store.Compaction.Merge.{merge_all, compacted_entries}
use lsm_tree_key_value_store.KvStore
use lsm_tree_key_value_store.KvStore.{KvStore}
use lsm_tree_key_value_store.KvStore.Names.Paths.{
  table_path, table_path-ne, manifest_file, wal_file,
}
use lsm_tree_key_value_store.KvStore.Flush.{flush_internal, compact_internal}
use lsm_tree_key_value_store.KvStore.Ops
use lsm_tree_key_value_store.KvStore.View.{view, Represents}
use lsm_tree_key_value_store.KvStore.Durable.{Kept}
use lsm_tree_key_value_store.KvStore.Reading.{Shows, get-view}
use lsm_tree_key_value_store.KvStore.Persisting.{HasRoom, flush_internal-Kept}
use lsm_tree_key_value_store.KvStore.Mutation.{Updated, put-view, remove-view}
use lsm_tree_key_value_store.KvStore.Termination.{Returns, get-Returns}
use lsm_tree_key_value_store.Tests.SsTableTests.{
  first, second, entries, disk, first-IsStored, second-IsStored,
}
use lsm_tree_key_value_store.Tests.CompactionTests.{
  entries-IsSmall, only_first, older, two_tables, older-Saved, newer-Saved, compacted-two_tables,
}
use lsm_tree_key_value_store.Disk.Laws.{file-set_file_self, file-set_file_ne}
use lsm_tree_key_value_store.SsTable.Reopen.{OpenedAs, OnDisk}
use lsm_tree_key_value_store.KvStore.Compacting.{compact_internal-Kept}

abbrev pub db : Bytes
db = 100 ∷ []

abbrev pub full_store : KvStore
full_store = record (KvStore.init default_options) {
  memtable = record {
    table =
        (first.key, record { value = first.value; type = put })
        ∷ (second.key, record { value = []; type = tombstone })
        ∷ [];
    approximate_size = 147;
    size_threshold = 100;
  };
  wal = record { filepath = wal_file db; is_open = true; good = true };
  is_open = true;
  db_path = db;
  manifest_path = manifest_file db;
  wal_path = wal_file db;
}

pub full_store-Represents : (d : Disk) → Represents full_store d []
unfolding string_lt string_eq table_entries
full_store-Represents d = record {
  is_open = refl;
  layout = record {
    manifest = refl;
    wal_path = refl;
    wal_open = refl;
    wal_good = refl;
    named = tt;
  };
  readers = tt;
  mem_sorted = ((refl, tt), (tt, tt));
  mem_stored = (first-IsStored, (second-IsStored, tt));
}

pub full_store-HasRoom : HasRoom full_store []
unfolding compacted_entries merge_all merge_records insert surviving string_lt string_eq
    table_entries
full_store-HasRoom = record { table = entries-IsSmall; merged = only_first; numbers = omega arith }

get-view_example : Shows (view full_store [] (98 ∷ [])) (Ops.get reliable disk (98 ∷ []) full_store)
unfolding is_empty
get-view_example = get-view disk (98 ∷ []) full_store [] (full_store-Represents disk) refl

flush_internal-Kept_example : Kept (flush_internal reliable [] full_store disk) full_store disk [] 2
flush_internal-Kept_example =
    flush_internal-Kept [] full_store disk [] (full_store-Represents disk) full_store-HasRoom

put-view_example :
    Updated
      (Ops.put reliable [] (99 ∷ []) (1 ∷ 2 ∷ []) full_store disk)
      full_store
      disk
      []
      (record { type = put; key = 99 ∷ []; value = 1 ∷ 2 ∷ [] })
      2
unfolding is_empty
put-view_example =
    put-view [] full_store disk [] (99 ∷ []) (1 ∷ 2 ∷ []) (full_store-Represents disk)
      full_store-HasRoom refl (omega arith)

remove-view_example :
    Updated
      (Ops.remove reliable [] (97 ∷ []) full_store disk)
      full_store
      disk
      []
      (record { type = tombstone; key = 97 ∷ []; value = [] })
      2
unfolding is_empty
remove-view_example =
    remove-view [] full_store disk [] (97 ∷ []) (full_store-Represents disk) full_store-HasRoom refl
      (omega arith)

-- The same store with two tables and an empty memtable.
abbrev pub two_disk : Disk
two_disk =
    set_file (table_path db 2) (some newer-Saved.contents)
      (set_file (table_path db 1) (some older-Saved.contents) disk)

pub older_opened : OpenedAs (table_path db 1) true two_disk older
older_opened = older-Saved.table.at (table_path db 1) true two_disk (
    file-set_file_ne (table_path db 2) (table_path db 1) _ _
      (table_path-ne db 2 1 (λ e. absurd (omega arith)))
    ∙ file-set_file_self (table_path db 1) _ disk)

pub newer_opened : OpenedAs (table_path db 2) true two_disk entries
newer_opened =
    newer-Saved.table.at (table_path db 2) true two_disk (file-set_file_self (table_path db 2) _ _)

abbrev pub two_store : KvStore
two_store = record full_store {
  memtable = (KvStore.init default_options).memtable;
  sstables = older_opened.reader ∷ newer_opened.reader ∷ [];
  next_sst_seq = 3;
}

pub two_store-Represents : Represents two_store two_disk two_tables
unfolding table_entries
two_store-Represents = record {
  is_open = refl;
  layout = record {
    manifest = refl;
    wal_path = refl;
    wal_open = refl;
    wal_good = refl;
    named = ((1, omega arith, older_opened.path), ((2, omega arith, newer_opened.path), tt));
  };
  readers = ((older_opened.holds, older_on_disk), ((newer_opened.holds, newer_on_disk), tt));
  mem_sorted = tt;
  mem_stored = tt;
}
  where
    older_on_disk : OnDisk two_disk older_opened.reader.filepath older
    older_on_disk = record {
      contents = older-Saved.contents;
      file =
          ap two_disk.file older_opened.path
          ∙ (file-set_file_ne (table_path db 2) (table_path db 1) _ _
                (table_path-ne db 2 1 (λ e. absurd (omega arith)))
              ∙ file-set_file_self (table_path db 1) _ disk);
      table = older-Saved.table;
    }

    newer_on_disk : OnDisk two_disk newer_opened.reader.filepath entries
    newer_on_disk = record {
      contents = newer-Saved.contents;
      file = ap two_disk.file newer_opened.path ∙ file-set_file_self (table_path db 2) _ _;
      table = newer-Saved.table;
    }

compact_internal-Kept_example :
    Kept (compact_internal reliable [] two_store two_disk) two_store two_disk two_tables 1
compact_internal-Kept_example =
    compact_internal-Kept [] two_store two_disk two_tables two_store-Represents
      (rw (compacted-two_tables) only_first) (omega arith)

get-Returns_example : Returns (Ops.get reliable two_disk (98 ∷ []) two_store)
get-Returns_example = get-Returns reliable two_disk (98 ∷ []) two_store
