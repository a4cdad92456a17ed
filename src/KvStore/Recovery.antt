-- ===== src/KvStore/Recovery.antt =====
-- `KVStore::open` on what a store has left behind, after a `close` or a crash alike.
use lsm_tree_key_value_store.Prelude.{
  length, ℕ, ◌+◌, ◌%◌, ◌^◌, ◌≤◌, ◌≡◌, refl, ap, ◌∙◌, sym, arith, true, false, Option, some, List,
  [], Bytes, if◌then◌else◌,
}
use mathlib.Core.List.{foldl}
use lsm_tree_key_value_store.Prelude.Strings.{is_empty}
use lsm_tree_key_value_store.Prelude.SortedMap.{find, or_else}
use lsm_tree_key_value_store.Types.{KeyValueEntry}
use lsm_tree_key_value_store.Status
use lsm_tree_key_value_store.Status.{Status}
use lsm_tree_key_value_store.Disk.{Disk, reliable, exists, set_file}
use lsm_tree_key_value_store.Disk.Laws.{file-set_file_self, file-set_file_ne}
use lsm_tree_key_value_store.MemTable
use lsm_tree_key_value_store.MemTable.{MemTable, MemTableEntry}
use lsm_tree_key_value_store.Wal.Replay.{WalRecord}
use lsm_tree_key_value_store.Wal.Replay.Recovery.{encode_log}
use lsm_tree_key_value_store.SsTable.Reader.{SsTableReader}
use lsm_tree_key_value_store.SsTable.Writer.{table_entries}
use lsm_tree_key_value_store.SsTable.Layout.{encode_records, keyed}
use lsm_tree_key_value_store.Compaction.Merge.{newest}
use lsm_tree_key_value_store.KvStore.{KvStore}
use lsm_tree_key_value_store.KvStore.Names.Paths.{
  wal-ne-manifest, table_path, manifest_file, wal_file, wal-ne-table_path,
}
use lsm_tree_key_value_store.KvStore.Open.{
  apply_record, read_manifest, load_tables, recover, tables_loaded, load_database, open_closed,
  open_store,
}
use lsm_tree_key_value_store.KvStore.View.{shown, view, IsNamed-same, Represents, Readers-frame}
use lsm_tree_key_value_store.KvStore.Durable.{Lasting, Durable}
use lsm_tree_key_value_store.KvStore.Volume.{total, volume}
use lsm_tree_key_value_store.KvStore.Lasting.{Listed-frame}
use lsm_tree_key_value_store.KvStore.Reloading.{names_for, Readers-Stock, Loaded, load_tables-Stock}
use lsm_tree_key_value_store.KvStore.Replaying.{
  exists-dir, names_found, recovered_store, recover-encode_log, table-replayed,
}
use lsm_tree_key_value_store.KvStore.Numbering.{
  Numbered-IsNamed, below-next, small_numbers, Listed-Numbered, IsNamed-below,
}

-- The store that `load_tables` leaves to `recover`.
abbrev pub loaded_store : KvStore → Bytes → List SsTableReader → ℕ → KvStore
loaded_store c db rs largest = record c {
  db_path = db;
  manifest_path = manifest_file db;
  sstables = rs;
  next_sst_seq = (largest + 1) % 2 ^ 64;
}

pub open_store-Loaded :
    (c : KvStore) (d : Disk) (db : Bytes) (ns : List ℕ) (rs : List WalRecord)
    {ess : List (List KeyValueEntry)}
    → c.is_open ≡ false
    → is_empty db ≡ false
    → exists d db ≡ true
    → (if exists d (manifest_file db) then read_manifest reliable d (manifest_file db) else [])
      ≡ names_for ns
    → (l : Loaded
        (load_tables reliable d db c.options.enable_bloom_filter (names_for ns) [] 0)
        d
        db
        ns
        ess
        []
        0)
    → open_store reliable db c d ≡ recover reliable (loaded_store c db l.readers l.largest) d
unfolding open_store open_closed load_database tables_loaded
open_store-Loaded c d db ns rs closed ne dir names l = simp (closed, ne, dir, names, l.done) refl

-- A store that was opened: with the same entries in its tables, the same map, and what the next `open`
-- needs.
pub record Reopened (run : Option (Status × KvStore × Disk)) (c s : KvStore)
    (ess : List (List KeyValueEntry)) : Type 0 where
  pub after : KvStore
  pub disk : Disk
  pub done : run ≡ some (Status.ok, after, disk)
  pub represents : Represents after disk ess
  pub same_view : (key : Bytes) → view after ess key ≡ view s ess key
  pub lasting : Lasting after disk
  pub options : after.options ≡ c.options
  pub same_path : after.db_path ≡ s.db_path
  pub volume_same : volume after ess ≡ volume s ess
  pub numbers_le : after.next_sst_seq ≤ s.next_sst_seq + 1

-- The store that `open` leaves stands for the entries of the tables that it loaded, whatever the log is.
pub loads-Represents :
    (s c : KvStore) (d' d : Disk) (ess : List (List KeyValueEntry)) (ns : List ℕ)
    (rs : List WalRecord) (log : Option Bytes)
    → Represents s d' ess
    → (foldl apply_record (MemTable.clear c.memtable) rs).table ≡ s.memtable.table
    → (l : Loaded
        (load_tables reliable d s.db_path c.options.enable_bloom_filter (names_for ns) [] 0)
        d
        s.db_path
        ns
        ess
        []
        0)
    → Represents
        (recovered_store (loaded_store c s.db_path l.readers l.largest) rs)
        (set_file (wal_file s.db_path) log d)
        ess
loads-Represents s c d' d ess ns rs log h same l =
    let db = s.db_path in
    let next = (l.largest + 1) % 2 ^ 64 in
    let named =
      Numbered-IsNamed db next ns l.readers l.numbered (below-next l.largest ns l.fits l.below) in
    record {
      is_open = refl;
      layout = record {
        manifest = refl;
        wal_path = refl;
        wal_open = refl;
        wal_good = refl;
        named = named;
      };
      readers =
          Readers-frame d (set_file (wal_file db) log d) l.readers ess
            (IsNamed-same db next d (set_file (wal_file db) log d) l.readers
              (λ n lt.
                file-set_file_ne (wal_file db) (table_path db n) log d (wal-ne-table_path db n))
              named)
            l.held;
      mem_sorted = rw (same) h.mem_sorted;
      mem_stored = rw (same) h.mem_stored;
    }

module _ (s : KvStore) (d : Disk) (ess : List (List KeyValueEntry)) (ns : List ℕ)
    (rs : List WalRecord) (h : Represents s d ess) (u : Durable s d ns rs) (c : KvStore) where
  abbrev loading : Status × List SsTableReader × ℕ
  loading = load_tables reliable d s.db_path c.options.enable_bloom_filter (names_for ns) [] 0

  loads : Loaded loading d s.db_path ns ess [] 0
  loads =
      load_tables-Stock d s.db_path c.options.enable_bloom_filter ns ess [] 0
        (Readers-Stock d s.db_path ns s.sstables ess u.numbered h.readers)
        (small_numbers s.db_path ns s.sstables u.numbered) (omega arith)

  abbrev again : KvStore
  again = recovered_store (loaded_store c s.db_path loads.readers loads.largest) rs

  abbrev disk_again : Disk
  disk_again = set_file (wal_file s.db_path) (some (encode_log rs)) d

  same_table : again.memtable.table ≡ s.memtable.table
  unfolding MemTable.clear
  same_table = table-replayed rs (MemTable.clear c.memtable) ∙ sym u.buffer

  again-Represents : Represents again disk_again ess
  again-Represents = loads-Represents s c d d ess ns rs (some (encode_log rs)) h same_table loads

  again-Lasting : Lasting again disk_again
  unfolding set_file
  again-Lasting = (
    ns,
    rs,
    record {
      path = u.path;
      directory = u.directory;
      numbered = loads.numbered;
      manifest =
          Listed-frame d disk_again (manifest_file s.db_path) loads.readers
            (file-set_file_ne (wal_file s.db_path) (manifest_file s.db_path) (some (encode_log rs))
              d (wal-ne-manifest s.db_path))
            refl
            (Listed-Numbered d (manifest_file s.db_path) s.db_path ns s.sstables loads.readers
              u.numbered loads.numbered u.manifest);
      log = file-set_file_self (wal_file s.db_path) (some (encode_log rs)) d;
      logged = u.logged;
      buffer = same_table ∙ u.buffer;
    },
  )

  again_numbers : again.next_sst_seq ≤ s.next_sst_seq + 1
  again_numbers = omega (
    arith,
    loads.fits,
    loads.within s.next_sst_seq (omega arith)
        (IsNamed-below s.db_path s.next_sst_seq ns s.sstables u.numbered h.layout.named),
  )

  -- What an open store has on disk, its manifest and its log, is enough: `open` on a store that is
  -- closed, without faults of the disk, ends with OK in a store with the same map, whatever became of the
  -- state in memory. What is on disk is then enough again. The path is that of the first store, the options
  -- are those of the second, the records take as many bytes, and the next number of a table is larger by
  -- one at most.
  pub open_store-view : c.is_open ≡ false → Reopened (open_store reliable s.db_path c d) c s ess
  unfolding view
  open_store-view closed = record {
    after = again;
    disk = disk_again;
    done =
        open_store-Loaded c d s.db_path ns rs closed u.path (exists-dir d s.db_path u.directory)
          (names_found d s.db_path ns s.sstables u.numbered u.manifest) loads
        ∙ recover-encode_log (loaded_store c s.db_path loads.readers loads.largest) d rs u.log
            u.logged;
    represents = again-Represents;
    same_view = λ key.
        ap (λ m. shown (or_else (find key (keyed (table_entries m))) (newest key ess))) same_table;
    lasting = again-Lasting;
    options = refl;
    same_path = refl;
    volume_same = ap (λ m. total ess + length (encode_records (table_entries m))) same_table;
    numbers_le = again_numbers;
  }
