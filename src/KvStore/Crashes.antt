-- ===== src/KvStore/Crashes.antt =====
-- Crashes in an append and between the steps of a flush or a compaction: what `open` makes of what they
-- leave.
pub mod TornAppend
pub mod BeforeReset
pub mod Unlisted
pub mod Unrecorded
use lsm_tree_key_value_store.Prelude.{
  ℕ, ◌+◌, ◌%◌, ◌^◌, ◌<◌, ◌≡◌, refl, ap, ◌∙◌, sym, arith, true, false, Option, none, some, List, [],
  ◌∷◌, ◌++◌, Bytes, inl,
}
use lsm_tree_key_value_store.Prelude.Strings.{text, string_eq, is_empty}
use lsm_tree_key_value_store.Prelude.SortedMap.{find, or_else}
use lsm_tree_key_value_store.Types.{KeyValueEntry}
use lsm_tree_key_value_store.Status
use lsm_tree_key_value_store.Status.{Status}
use lsm_tree_key_value_store.Disk.{Disk, reliable, set_file}
use lsm_tree_key_value_store.Disk.Laws.{file-set_file_self, file-set_file_ne}
use lsm_tree_key_value_store.Wal.Replay.{WalRecord}
use lsm_tree_key_value_store.SsTable.Reader.{SsTableReader}
use lsm_tree_key_value_store.SsTable.Writer.{write_from_mem_table}
use lsm_tree_key_value_store.SsTable.Layout.{keyed}
use lsm_tree_key_value_store.SsTable.Limits.{IsSmall, IsWritable}
use lsm_tree_key_value_store.SsTable.Reopen.{OpenedAs, write_from_mem_table-Saved}
use lsm_tree_key_value_store.Compaction.Merge.{newest}
use lsm_tree_key_value_store.KvStore.{KvStore}
use lsm_tree_key_value_store.KvStore.Names.Paths.{
  table_path, manifest_file, manifest_temp, wal_file, table_path-ne, table_path-ne-manifest,
  table_path-ne-wal, compact_temp-ne-wal, compact_temp-ne-manifest, compact_temp-ne-table_path,
  temp-ne-manifest, temp-ne-wal, temp-ne-table_path, wal-ne-table_path,
}
use lsm_tree_key_value_store.KvStore.Ops
use lsm_tree_key_value_store.KvStore.Open.{open_store}
use lsm_tree_key_value_store.KvStore.Flush.{next_path, take_seq, add_table}
use lsm_tree_key_value_store.KvStore.View.{
  shown, buffered, view, Represents, Readers-frame, IsNamed-same, newest-snoc,
}
use lsm_tree_key_value_store.KvStore.Reading.{Shows, get-view}
use lsm_tree_key_value_store.KvStore.Durable.{Durable, Lasting, Numbered-snoc}
use lsm_tree_key_value_store.KvStore.Publishing.{published, add_table-reliable}
use lsm_tree_key_value_store.KvStore.Lasting.{Listed-frame, published-manifest, published-wal}
use lsm_tree_key_value_store.KvStore.Flushing.{flushed_store, flushed_disk}
use lsm_tree_key_value_store.KvStore.Persisting.{IsSorted-table_entries, opened-Represents}
use lsm_tree_key_value_store.KvStore.Recovery.{Reopened, open_store-view}

-- An opening that ended with OK in a store whose lookups answer from this map.
pub record Rereads (run : Option (Status × KvStore × Disk)) (m : Bytes → Option Bytes)
    : Type 0 where
  pub after : KvStore
  pub disk : Disk
  pub done : run ≡ some (Status.ok, after, disk)
  pub answers :
      (key : Bytes) → is_empty key ≡ false → Shows (m key) (Ops.get reliable disk key after)

pub Reopened-Rereads :
    (run : Option (Status × KvStore × Disk)) (c s : KvStore) (ess : List (List KeyValueEntry))
    (m : Bytes → Option Bytes)
    → Reopened run c s ess
    → ((key : Bytes) → view s ess key ≡ m key)
    → Rereads run m
Reopened-Rereads run c s ess m o same = record {
  after = o.after;
  disk = o.disk;
  done = o.done;
  answers =
      λ key ne. rw⁻¹ (o.same_view key ∙ same key) (get-view o.disk key o.after ess o.represents ne);
}

-- A disk on which the manifest, the log and the tables of a store are as they were.
pub record Spared (s : KvStore) (d d' : Disk) : Type 0 where
  pub same_manifest : d'.file (manifest_file s.db_path) ≡ d.file (manifest_file s.db_path)
  pub same_log : d'.file (wal_file s.db_path) ≡ d.file (wal_file s.db_path)
  pub same_tables :
      (n : ℕ)
      → n < s.next_sst_seq
      → d'.file (table_path s.db_path n) ≡ d.file (table_path s.db_path n)
  pub same_dirs : d'.dir ≡ d.dir

pub Spared-Rereads :
    (s c : KvStore) (d d' : Disk) (ess : List (List KeyValueEntry))
    → Represents s d ess
    → Lasting s d
    → Spared s d d'
    → c.is_open ≡ false
    → Rereads (open_store reliable s.db_path c d') (view s ess)
Spared-Rereads s c d d' ess h (ns, rs, u) k closed =
    let h' : Represents s d' ess = record {
      is_open = h.is_open;
      layout = h.layout;
      readers =
          Readers-frame d d' s.sstables ess
            (IsNamed-same s.db_path s.next_sst_seq d d' s.sstables k.same_tables h.layout.named)
            h.readers;
      mem_sorted = h.mem_sorted;
      mem_stored = h.mem_stored;
    } in
    let u' : Durable s d' ns rs = record {
      path = u.path;
      directory = ap (λ f. f s.db_path) k.same_dirs ∙ u.directory;
      numbered = u.numbered;
      manifest =
          Listed-frame d d' (manifest_file s.db_path) s.sstables k.same_manifest k.same_dirs
            u.manifest;
      log = k.same_log ∙ u.log;
      logged = u.logged;
      buffer = u.buffer;
    } in
    Reopened-Rereads _ c s ess (view s ess) (open_store-view s d' ess ns rs h' u' c closed)
      (λ key. refl)

-- A crash of a flush while it writes its table or the temporary manifest, or of a compaction while it
-- writes its merged table and has deleted no input: whatever the file of the new table, the temporary
-- file of a compaction and the temporary manifest then hold, where the other files are as an open
-- store had them and are enough to open it, an `open` by a closed store, without faults of the disk,
-- ends with OK in a store that answers each key that is not empty as the store before the crash did.
pub torn_files-Rereads :
    (s c : KvStore) (d : Disk) (ess : List (List KeyValueEntry)) (table merged temp : Option Bytes)
    → Represents s d ess
    → Lasting s d
    → c.is_open ≡ false
    → Rereads
        (open_store reliable s.db_path c (
          set_file (manifest_temp s.db_path) temp (
            set_file (next_path s ++ text ".compact_tmp") merged (set_file (next_path s) table d))))
        (view s ess)
unfolding next_path set_file
torn_files-Rereads s c d ess table merged temp h k closed =
    let db = s.db_path in
    let n = s.next_sst_seq in
    let path = table_path db n in
    let merging = path ++ text ".compact_tmp" in
    let d1 = set_file path table d in
    let d2 = set_file merging merged d1 in
    Spared-Rereads s c d _ ess h k
      (record {
        same_manifest =
            file-set_file_ne (manifest_temp db) (manifest_file db) temp d2 (temp-ne-manifest db)
            ∙ (file-set_file_ne merging (manifest_file db) merged d1 (compact_temp-ne-manifest db n)
                ∙ file-set_file_ne path (manifest_file db) table d (table_path-ne-manifest db n));
        same_log =
            file-set_file_ne (manifest_temp db) (wal_file db) temp d2 (temp-ne-wal db)
            ∙ (file-set_file_ne merging (wal_file db) merged d1 (compact_temp-ne-wal db n)
                ∙ file-set_file_ne path (wal_file db) table d (table_path-ne-wal db n));
        same_tables = λ m lt.
            file-set_file_ne (manifest_temp db) (table_path db m) temp d2 (temp-ne-table_path db m)
            ∙ (file-set_file_ne merging (table_path db m) merged d1
                  (compact_temp-ne-table_path db n m)
                ∙ file-set_file_ne path (table_path db m) table d
                    (table_path-ne db n m (λ e. absurd (omega arith))));
        same_dirs = refl;
      })
      closed
