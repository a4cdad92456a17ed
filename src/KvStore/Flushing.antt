-- ===== src/KvStore/Flushing.antt =====
-- A flush without a compaction: the memtable becomes the newest table.
use lsm_tree_key_value_store.Prelude.{
  ℕ, ◌+◌, ◌%◌, ◌^◌, ◌<◌, ◌≡◌, refl, ap, ◌∙◌, arith, true, some, List, [], ◌∷◌, ◌++◌, Bytes,
}
use lsm_tree_key_value_store.Prelude.Strings.{string_eq}
use lsm_tree_key_value_store.Prelude.SortedMap.{find}
use lsm_tree_key_value_store.Types.{KeyValueEntry}
use lsm_tree_key_value_store.Status
use lsm_tree_key_value_store.Status.{Status}
use lsm_tree_key_value_store.Disk.{Disk, reliable, set_file, open_trunc}
use lsm_tree_key_value_store.Disk.Laws.{file-set_file_self, file-set_file_ne}
use lsm_tree_key_value_store.MemTable
use lsm_tree_key_value_store.Wal
use lsm_tree_key_value_store.Wal.{Wal}
use lsm_tree_key_value_store.SsTable.Reader.{SsTableReader}
use lsm_tree_key_value_store.SsTable.Writer.{table_entries}
use lsm_tree_key_value_store.SsTable.Layout.{keyed}
use lsm_tree_key_value_store.SsTable.Lookup.{Holds}
use lsm_tree_key_value_store.SsTable.Reopen.{OpenedAs, OnDisk}
use lsm_tree_key_value_store.KvStore.{KvStore}
use lsm_tree_key_value_store.KvStore.Names.Paths.{table_path, table_path-ne, wal-ne-table_path}
use lsm_tree_key_value_store.KvStore.Flush.{next_path, take_seq, reset_log, flushed}
use lsm_tree_key_value_store.KvStore.View.{
  IsNamed-snoc, IsNamed-weaken, IsNamed-same, shown, Represents, Readers-frame, Readers-snoc,
  buffered, view, newest-snoc,
}
use lsm_tree_key_value_store.KvStore.Publishing.{
  published, published-table_path, add_table-reliable,
}

clear-reliable :
    (w : Wal) (d : Disk)
    → Wal.clear reliable w d
      ≡ (Status.ok, record w { is_open = true; good = true }, set_file w.filepath (some []) d)
unfolding Wal.clear open_trunc
clear-reliable w d = refl

-- The store after a flush: with one more table, an empty memtable and an empty log.
abbrev pub flushed_store : KvStore → SsTableReader → KvStore
flushed_store s r = record s {
  next_sst_seq = (s.next_sst_seq + 1) % 2 ^ 64;
  sstables = s.sstables ++ r ∷ [];
  memtable = MemTable.clear s.memtable;
  wal = record s.wal { is_open = true; good = true };
}

-- The disk after it: the table, the manifest and the log.
unfoldable pub flushed_disk : KvStore → SsTableReader → Bytes → Disk → Disk
flushed_disk s r c d =
    set_file s.wal.filepath (some [])
      (published s.manifest_path (s.sstables ++ r ∷ []) (set_file (next_path s) (some c) d))

pub flushed-reliable :
    (s : KvStore) (c : Bytes) (d : Disk) {es : List KeyValueEntry}
    (a : OpenedAs
      (next_path s)
      s.options.enable_bloom_filter
      (set_file (next_path s) (some c) d)
      es)
    → flushed reliable (next_path s) (take_seq s) (Status.ok, set_file (next_path s) (some c) d)
      ≡ (Status.ok, flushed_store s a.reader, flushed_disk s a.reader c d)
unfolding flushed take_seq flushed_disk reset_log
flushed-reliable s c d a =
    ap (reset_log reliable)
      (add_table-reliable (next_path s) (take_seq s) (set_file (next_path s) (some c) d) a)
    ∙ rw (clear-reliable s.wal _) refl

module _ (s : KvStore) (d : Disk) (ess : List (List KeyValueEntry)) (h : Represents s d ess)
    (c : Bytes) (r : SsTableReader) where
  abbrev pub disk_after : Disk
  disk_after = flushed_disk s r c d

  flushed-table_path :
      (n : ℕ)
      → disk_after.file (table_path s.db_path n)
        ≡ (set_file (table_path s.db_path s.next_sst_seq) (some c) d).file (table_path s.db_path n)
  unfolding flushed_disk next_path
  flushed-table_path n =
      let q = table_path s.db_path n in
      let l = h.layout in
      let d1 = set_file (table_path s.db_path s.next_sst_seq) (some c) d in
      let rs = s.sstables ++ r ∷ [] in
      file-set_file_ne s.wal.filepath q (some []) _
        (ap (λ p. string_eq p q) l.wal_path ∙ wal-ne-table_path s.db_path n)
      ∙ (ap (λ p. (published p rs d1).file q) l.manifest ∙ published-table_path s.db_path n rs d1)

  flushed_older :
      (n : ℕ)
      → n < s.next_sst_seq
      → disk_after.file (table_path s.db_path n) ≡ d.file (table_path s.db_path n)
  flushed_older n lt =
      flushed-table_path n
      ∙ file-set_file_ne (table_path s.db_path s.next_sst_seq) (table_path s.db_path n) (some c) d
          (table_path-ne s.db_path s.next_sst_seq n (λ e. absurd (omega arith)))

  pub flushed_new : disk_after.file (table_path s.db_path s.next_sst_seq) ≡ some c
  flushed_new =
      flushed-table_path s.next_sst_seq
      ∙ file-set_file_self (table_path s.db_path s.next_sst_seq) (some c) d

  -- The flushed store holds one more table.
  pub flushed-Represents :
      {es : List KeyValueEntry}
      → Holds disk_after r es
      → OnDisk disk_after r.filepath es
      → r.filepath ≡ next_path s
      → s.next_sst_seq + 1 < 2 ^ 64
      → Represents (flushed_store s r) disk_after (ess ++ es ∷ [])
  unfolding next_path MemTable.clear table_entries
  flushed-Represents {es} hold on at fit =
      let l = h.layout in
      let more : (s.next_sst_seq + 1) % 2 ^ 64 ≡ s.next_sst_seq + 1 = omega arith in
      record {
        is_open = h.is_open;
        layout = record {
          manifest = l.manifest;
          wal_path = l.wal_path;
          wal_open = refl;
          wal_good = refl;
          named =
              IsNamed-snoc s.db_path ((s.next_sst_seq + 1) % 2 ^ 64) s.sstables r
                (IsNamed-weaken s.db_path s.next_sst_seq ((s.next_sst_seq + 1) % 2 ^ 64) s.sstables
                  (omega arith) l.named)
                (s.next_sst_seq, omega arith, at);
        };
        readers =
            Readers-snoc disk_after s.sstables ess r es
              (Readers-frame d disk_after s.sstables ess
                (IsNamed-same s.db_path s.next_sst_seq d disk_after s.sstables flushed_older
                  l.named)
                h.readers)
              hold on;
        mem_sorted = tt;
        mem_stored = tt;
      }

-- The map is the same when the memtable has become a table.
pub flushed-view :
    (s : KvStore) (r : SsTableReader) (ess : List (List KeyValueEntry)) (key : Bytes)
    → view (flushed_store s r) (ess ++ buffered s ∷ []) key ≡ view s ess key
unfolding view MemTable.clear table_entries keyed find
flushed-view s r ess key = ap shown (newest-snoc key ess (buffered s))
