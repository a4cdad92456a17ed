-- ===== src/KvStore/Open.antt =====
-- `KVStoreImpl::open`: the manifest, the tables that it names, and the replay of the log.
use lsm_tree_key_value_store.Prelude.{
  ℕ, ◌+◌, ◌%◌, ◌^◌, Bool, true, false, Option, none, some, List, [], ◌∷◌, ◌++◌, Bytes, ltb, not,
  ◌&&◌, if◌then◌else◌,
}
use lsm_tree_key_value_store.Prelude.Strings.{text, is_empty}
use lsm_tree_key_value_store.Types.{RecordType}
use lsm_tree_key_value_store.Status
use lsm_tree_key_value_store.Status.{Status}
use lsm_tree_key_value_store.Disk.{Disk, Os, exists, open_read, create_directories}
use lsm_tree_key_value_store.MemTable
use lsm_tree_key_value_store.MemTable.{MemTable}
use lsm_tree_key_value_store.Wal
use lsm_tree_key_value_store.Wal.{Wal}
use lsm_tree_key_value_store.Wal.Replay.{WalRecord, Replay, replay}
use lsm_tree_key_value_store.SsTable.Reader
use lsm_tree_key_value_store.SsTable.Reader.{SsTableReader}
use lsm_tree_key_value_store.KvStore.{KvStore}
use lsm_tree_key_value_store.KvStore.Names.{lines, names_of, table_seq}
use lsm_tree_key_value_store.KvStore.Ops.{close}

-- The names in the manifest; none where it cannot be opened.
unfoldable pub read_manifest : Os → Disk → Bytes → List Bytes
read_manifest os d path = elim (open_read os d path) [
  | none ↦ []
  | some bs ↦ names_of (lines [] bs)
]

-- `if (seq > max_seq) max_seq = seq`, where the name has a number.
unfoldable pub later_seq : ℕ → Option ℕ → ℕ
later_seq max_seq none = max_seq
later_seq max_seq (some seq) = if ltb max_seq seq then seq else max_seq

-- The loop over the names: the tables, the largest number, and the status. A name without a file is
-- passed over.
unfoldable pub load_tables :
    Os → Disk → Bytes → Bool → List Bytes → List SsTableReader → ℕ → Status × List SsTableReader × ℕ
load_tables os d db_path enable [] readers max_seq = (Status.ok, readers, max_seq)
load_tables os d db_path enable (name ∷ names) readers max_seq =
    let path = db_path ++ (text "/" ++ name) in
    let (status, reader) = Reader.open_table os path enable Reader.init d in
    elim (exists d path) [
      | false ↦ load_tables os d db_path enable names readers max_seq
      | true ↦ elim (Status.is_ok status) [
        | true ↦
            load_tables os d db_path enable names (readers ++ reader ∷ [])
              (later_seq max_seq (table_seq name))
        | false ↦ (
          Status.corruption (text "Failed opening SSTable listed in manifest: " ++ status.message),
          readers,
          max_seq,
        )
      ]
    ]

-- The consumer of the replay.
unfoldable pub apply_record : MemTable → WalRecord → MemTable
apply_record t rec = elim rec.type [
  | RecordType.put ↦ MemTable.put t rec.key rec.value
  | RecordType.tombstone ↦ MemTable.remove t rec.key
  | RecordType.other b ↦ t
]

-- The end of `open`: the log is opened for appending.
unfoldable pub open_wal : Os → KvStore → Disk → Status × KvStore × Disk
open_wal os s d =
    let (status, wal, d') = Wal.open_log os s.wal_path s.wal d in
    let s' = record s { wal = wal } in
    if Status.is_ok status then (Status.ok, record s' { is_open = true }, d') else (status, s', d')

-- The replay's end: an error that is no truncation fails the `open`.
unfoldable pub replayed : Os → KvStore → Disk → Replay MemTable → Status × KvStore × Disk
replayed os s d r =
    let s' = record s { memtable = r.state } in
    if not (Status.is_ok r.status) && not r.had_truncation
    then (Status.corruption (text "WAL replay error: " ++ r.status.message), s', d)
    else open_wal os s' d

unfoldable pub recover : Os → KvStore → Disk → Option (Status × KvStore × Disk)
recover os s d =
    let s' = record s {
      wal_path = s.db_path ++ text "/wal.log";
      memtable = MemTable.clear s.memtable;
    } in
    let r = replay apply_record os d s'.wal_path s'.memtable in
    if exists d s'.wal_path
    then elim r [ none ↦ none | some out ↦ some (replayed os s' d out) ]
    else some (open_wal os s' d)

-- The tables of the manifest. Where one fails, the tables before it stay, and the number of the next
-- table is not set.
unfoldable pub tables_loaded :
    Os → KvStore → Disk → Status × List SsTableReader × ℕ → Option (Status × KvStore × Disk)
tables_loaded os s d (status, readers, max_seq) =
    let s' = record s { sstables = readers } in
    if Status.is_ok status
    then recover os (record s' { next_sst_seq = (max_seq + 1) % 2 ^ 64 }) d
    else some (status, s', d)

unfoldable pub load_database : Os → KvStore → Disk → Option (Status × KvStore × Disk)
load_database os s d =
    let path = s.db_path ++ text "/manifest.txt" in
    let names = if exists d path then read_manifest os d path else [] in
    tables_loaded os (record s { manifest_path = path }) d
      (load_tables os d s.db_path s.options.enable_bloom_filter names [] 0)

-- `open` on a store that is closed.
unfoldable pub open_closed : Os → Bytes → KvStore → Disk → Option (Status × KvStore × Disk)
open_closed os path s d =
    let s' = record s { db_path = path } in
    if is_empty path
    then some (Status.invalid_argument (text "Database path cannot be empty"), s, d)
    else if exists d path
    then load_database os s' d
    else elim (create_directories os path d) [
      | none ↦
          some
            (Status.io_error (text "Failed to create database directory: " ++ os.reason d), s', d)
      | some d' ↦ load_database os s' d'
    ]

-- `none` where the fuel of the replay runs out.
unfoldable pub open_store : Os → Bytes → KvStore → Disk → Option (Status × KvStore × Disk)
open_store os path s d = open_closed os path (if s.is_open then (close s).1 else s) d
