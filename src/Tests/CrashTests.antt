-- ===== src/Tests/CrashTests.antt =====
-- Crashes at concrete inputs: a store with a memtable, and one with two tables.
use lsm_tree_key_value_store.Prelude.{
  ℕ, ◌≡◌, refl, ◌∙◌, arith, false, none, some, [], ◌∷◌, ◌++◌, inl,
}
use lsm_tree_key_value_store.Prelude.Strings.{text, string_eq, is_empty}
use lsm_tree_key_value_store.Prelude.SortedMap.{find}
use lsm_tree_key_value_store.Options.{default_options}
use lsm_tree_key_value_store.Disk.{Disk, reliable, set_file, contents}
use lsm_tree_key_value_store.Disk.Laws.{file-set_file_self, file-set_file_ne}
use lsm_tree_key_value_store.Wal.Replay.Recovery.{encode_log}
use lsm_tree_key_value_store.SsTable.Layout.{keyed}
use lsm_tree_key_value_store.KvStore
use lsm_tree_key_value_store.KvStore.{KvStore}
use lsm_tree_key_value_store.KvStore.Names.Paths.{
  table_path, manifest_file, manifest_temp, wal_file, wal-ne-manifest, wal-ne-table_path,
  manifest-ne-table_path,
}
use lsm_tree_key_value_store.KvStore.Flush.{next_path}
use lsm_tree_key_value_store.KvStore.Open.{open_store}
use lsm_tree_key_value_store.KvStore.View.{
  shown, buffered, view, Represents, Readers-frame, IsNamed-same,
}
use lsm_tree_key_value_store.KvStore.Publishing.{manifest_of}
use lsm_tree_key_value_store.KvStore.Durable.{Durable}
use lsm_tree_key_value_store.KvStore.Crashes.{Rereads, torn_files-Rereads}
use lsm_tree_key_value_store.KvStore.Crashes.TornAppend.{torn_append-Rereads}
use lsm_tree_key_value_store.KvStore.Ops
use lsm_tree_key_value_store.Wal
use lsm_tree_key_value_store.Disk.{Os}
use lsm_tree_key_value_store.MemTable
use lsm_tree_key_value_store.Status
use lsm_tree_key_value_store.Tests.WalTests.{put_ab, rest_of_put, cut_put, two_records-IsLogged}
use lsm_tree_key_value_store.KvStore.Crashes.BeforeReset.{Unreset, flush_crash-Rereads}
use lsm_tree_key_value_store.KvStore.Crashes.Unlisted.{Unlisted, lost_compaction-Rereads}
use lsm_tree_key_value_store.Tests.CompactionTests.{two_tables, compacted-two_tables, only_first}
use lsm_tree_key_value_store.Tests.StoreTests.{
  db, full_store, full_store-Represents, full_store-HasRoom, two_disk, two_store, older_opened,
  newer_opened, two_store-Represents,
}
use lsm_tree_key_value_store.Tests.RecoveryTests.{log_records, left_disk, left_disk-Durable}

torn_files-Rereads_example :
    Rereads
      (open_store reliable db (KvStore.init default_options) (
        set_file (manifest_temp db) (some (115 ∷ [])) (
          set_file
            (next_path full_store ++ text ".compact_tmp")
            none
            (set_file (next_path full_store) (some (76 ∷ 83 ∷ [])) left_disk))))
      (view full_store [])
torn_files-Rereads_example =
    torn_files-Rereads full_store (KvStore.init default_options) left_disk [] (some (76 ∷ 83 ∷ []))
      none (some (115 ∷ [])) (full_store-Represents left_disk) ([], log_records, left_disk-Durable)
      refl

flush_crash-Rereads_example :
    Unreset full_store (KvStore.init default_options) left_disk (view full_store [])
flush_crash-Rereads_example =
    flush_crash-Rereads full_store (KvStore.init default_options) left_disk []
      (full_store-Represents left_disk) ([], log_records, left_disk-Durable)
      full_store-HasRoom.table (omega arith) refl

-- The disk of the two tables, with their manifest and an empty log.
abbrev table_disk : Disk
table_disk = record two_disk { dir = λ p. string_eq p db }

abbrev manifest_disk : Disk
manifest_disk = set_file (manifest_file db) (some (manifest_of two_store.sstables)) table_disk

abbrev listed_disk : Disk
listed_disk = set_file (wal_file db) (some []) manifest_disk

listed_disk-Represents : Represents two_store listed_disk two_tables
unfolding set_file
listed_disk-Represents =
    let h = two_store-Represents in
    record {
      is_open = h.is_open;
      layout = h.layout;
      readers =
          Readers-frame two_disk listed_disk two_store.sstables two_tables
            (IsNamed-same db 3 two_disk listed_disk two_store.sstables
              (λ n lt.
                file-set_file_ne (wal_file db) (table_path db n) (some []) manifest_disk
                  (wal-ne-table_path db n)
                ∙ file-set_file_ne (manifest_file db) (table_path db n)
                    (some (manifest_of two_store.sstables)) table_disk
                    (manifest-ne-table_path db n))
              h.layout.named)
            h.readers;
      mem_sorted = h.mem_sorted;
      mem_stored = h.mem_stored;
    }

listed_disk-Durable : Durable two_store listed_disk (1 ∷ 2 ∷ []) []
unfolding is_empty string_eq set_file encode_log
listed_disk-Durable = record {
  path = refl;
  directory = refl;
  numbered = ((omega arith, older_opened.path), ((omega arith, newer_opened.path), tt));
  manifest = inl (
      file-set_file_ne (wal_file db) (manifest_file db) (some []) manifest_disk (wal-ne-manifest db)
      ∙ file-set_file_self (manifest_file db) (some (manifest_of two_store.sstables)) table_disk);
  log = file-set_file_self (wal_file db) (some []) manifest_disk;
  logged = tt;
  buffer = refl;
}

no_directory : (n : ℕ) → listed_disk.dir (table_path db n) ≡ false
unfolding set_file text string_eq
no_directory n = refl

lost_compaction-Rereads_example :
    Unlisted two_store
      (KvStore.init default_options)
      listed_disk
      (λ key. shown (find key (keyed (buffered two_store))))
unfolding is_empty
lost_compaction-Rereads_example =
    lost_compaction-Rereads two_store (KvStore.init default_options) listed_disk two_tables
      listed_disk-Represents (1 ∷ 2 ∷ [], [], listed_disk-Durable) refl
      (rw (compacted-two_tables) only_first) no_directory refl

torn_append-Rereads_example :
    Rereads
      (open_store reliable db (KvStore.init default_options) (
        set_file full_store.wal.filepath
          (some (contents left_disk full_store.wal.filepath ++ 1 ∷ []))
          left_disk))
      (view full_store [])
torn_append-Rereads_example =
    torn_append-Rereads put_ab (1 ∷ []) rest_of_put 1 two_records-IsLogged.0 cut_put (λ e. cc)
      full_store (KvStore.init default_options) left_disk [] (full_store-Represents left_disk)
      ([], log_records, left_disk-Durable) refl

-- Two bytes of a write reach the file.
abbrev short_of_space : Os
short_of_space = record reliable { takes = λ d p bs. 2 }
