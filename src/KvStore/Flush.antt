-- ===== src/KvStore/Flush.antt =====
-- The private functions of `KVStoreImpl`: `updateManifest`, `compactInternal` and `flushInternal`.
use lsm_tree_key_value_store.Prelude.{
  ◌+◌, ◌%◌, ◌^◌, Bool, true, Option, none, some, List, [], ◌∷◌, ◌++◌, Bytes, length, map, ltb, leb,
  if◌then◌else◌,
}
use lsm_tree_key_value_store.Prelude.Strings.{text, is_empty}
use lsm_tree_key_value_store.Status
use lsm_tree_key_value_store.Status.{Status}
use lsm_tree_key_value_store.Disk.{
  Disk, Os, Stream, open_trunc, write, exists, rename_file, remove_file,
}
use lsm_tree_key_value_store.MemTable
use lsm_tree_key_value_store.Wal
use lsm_tree_key_value_store.SsTable.Reader
use lsm_tree_key_value_store.SsTable.Reader.{SsTableReader}
use lsm_tree_key_value_store.SsTable.Writer.{write_from_mem_table}
use lsm_tree_key_value_store.Compaction
use lsm_tree_key_value_store.KvStore.{KvStore}
use lsm_tree_key_value_store.KvStore.Names.{table_name, file_name}

-- The loop that writes a name and a line feed for each table, on the stream `mf`.
unfoldable pub write_names : Os → List SsTableReader → Stream × Disk → Stream × Disk
write_names os [] sd = sd
write_names os (reader ∷ readers) sd =
    write_names os readers (write os (10 ∷ []) (write os (file_name [] reader.filepath) sd))

-- The new manifest takes the place of the old one. Whether the writes succeeded is not asked.
unfoldable pub publish : Os → Bytes → Bytes → Disk → Status × Disk
publish os temp path d = elim (rename_file os temp path d) [
  | none ↦
      (Status.io_error (text "Failed to update manifest: " ++ os.reason d), remove_file os temp d)
  | some d' ↦ (Status.ok, d')
]

unfoldable pub update_manifest : Os → KvStore → Disk → Status × Disk
update_manifest os s d =
    let temp = s.manifest_path ++ text ".tmp" in
    elim (open_trunc os d temp) [
      | none ↦ (Status.io_error (text "Failed to open temporary manifest for writing"), d)
      | some sd ↦ publish os temp s.manifest_path (write_names os s.sstables sd).1
    ]

-- The path of the table that `generateSSTableFilename` names next, and the store after it.
unfoldable pub next_path : KvStore → Bytes
next_path s = s.db_path ++ (text "/" ++ table_name s.next_sst_seq)

unfoldable pub take_seq : KvStore → KvStore
take_seq s = record s { next_sst_seq = (s.next_sst_seq + 1) % 2 ^ 64 }

-- `sstables_.push_back` of a reader on `path`, then `updateManifest`; the reader's status where it
-- does not open.
unfoldable pub add_table : Os → Bytes → KvStore → Disk → Status × KvStore × Disk
add_table os path s d =
    let (status, reader) = Reader.open_table os path s.options.enable_bloom_filter Reader.init d in
    let s' = record s { sstables = s.sstables ++ reader ∷ [] } in
    let (status', d') = update_manifest os s' d in
    if Status.is_ok status then (status', s', d') else (status, s, d)

-- The tables that can be opened again after a compaction that failed.
unfoldable pub reopen_tables : Os → Bool → List Bytes → Disk → List SsTableReader
reopen_tables os enable [] d = []
reopen_tables os enable (path ∷ paths) d =
    let (status, reader) = Reader.open_table os path enable Reader.init d in
    let readers = reopen_tables os enable paths d in
    if exists d path then (if Status.is_ok status then reader ∷ readers else readers) else readers

-- What follows `Compaction::compact` on these paths.
unfoldable pub compacted :
    Os → List Bytes → Bytes → KvStore → Status × Disk → Status × KvStore × Disk
compacted os paths path s (status, d) =
    if Status.is_ok status
    then add_table os path s d
    else (status, record s { sstables = reopen_tables os s.options.enable_bloom_filter paths d }, d)

-- `none` where the fuel of a scan runs out. `stale` is as in `SsTable.ReadAll`.
unfoldable pub compact_internal : Os → Bytes → KvStore → Disk → Option (Status × KvStore × Disk)
compact_internal os stale s d =
    let paths = map (λ (r : SsTableReader). r.filepath) s.sstables in
    let s' = record (take_seq s) { sstables = [] } in
    if ltb (length s.sstables) 2
    then some (Status.ok, s, d)
    else elim (Compaction.compact os stale paths (next_path s) s.options true d) [
      | none ↦ none
      | some out ↦ some (compacted os paths (next_path s) s' out)
    ]

-- The end of a flush: a compaction where there are many tables.
unfoldable pub maybe_compact :
    Os → Bytes → Status × KvStore × Disk → Option (Status × KvStore × Disk)
maybe_compact os stale (status, s, d) =
    if Status.is_ok status
    then (if leb s.options.compaction_threshold (length s.sstables)
        then compact_internal os stale s d
        else some (Status.ok, s, d))
    else some (status, s, d)

-- The memtable and the log start again, once the manifest names the new table.
unfoldable pub reset_log : Os → Status × KvStore × Disk → Status × KvStore × Disk
reset_log os (status, s, d) =
    let (status', wal, d') = Wal.clear os s.wal d in
    if Status.is_ok status
    then (status', record s { memtable = MemTable.clear s.memtable; wal = wal }, d')
    else (status, s, d)

-- The reader, the manifest and the reset, after `writeFromMemTable`.
unfoldable pub flushed : Os → Bytes → KvStore → Status × Disk → Status × KvStore × Disk
flushed os path s (status, d) =
    if Status.is_ok status then reset_log os (add_table os path s d) else (status, s, d)

unfoldable pub flush_internal : Os → Bytes → KvStore → Disk → Option (Status × KvStore × Disk)
flush_internal os stale s d =
    let written = write_from_mem_table os (next_path s) s.memtable s.options d in
    if is_empty s.memtable.table
    then some (Status.ok, s, d)
    else maybe_compact os stale (flushed os (next_path s) (take_seq s) written)
