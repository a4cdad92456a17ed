-- ===== src/KvStore/Replaying.antt =====
-- What `KVStore::open` reads: the names in the manifest, and the records of the log.
use lsm_tree_key_value_store.Prelude.{
  ℕ, ◌≡◌, refl, ap, ◌∙◌, arith, true, some, List, [], ◌∷◌, Bytes, All, inl, inr, if◌then◌else◌,
}
use mathlib.Core.List.{foldl}
use lsm_tree_key_value_store.Types.{RecordType}
use lsm_tree_key_value_store.Status
use lsm_tree_key_value_store.Status.{Status}
use lsm_tree_key_value_store.Disk.{
  Disk, reliable, exists, open_read, open_append, set_file, contents,
}
use lsm_tree_key_value_store.MemTable
use lsm_tree_key_value_store.MemTable.{MemTable, MemTableEntry}
use lsm_tree_key_value_store.MemTable.Lookup.{table-put, table-remove}
use lsm_tree_key_value_store.Wal
use lsm_tree_key_value_store.Wal.{Wal}
use lsm_tree_key_value_store.Wal.Replay.{WalRecord, replay}
use lsm_tree_key_value_store.Wal.Replay.Recovery.{encode_log, IsLogged, replay_bytes-encode_log}
use lsm_tree_key_value_store.SsTable.Reader.{SsTableReader}
use lsm_tree_key_value_store.KvStore.{KvStore}
use lsm_tree_key_value_store.KvStore.Names.Paths.{manifest_file, wal_file}
use lsm_tree_key_value_store.KvStore.Publishing.{manifest_of, update_manifest-reliable}
use lsm_tree_key_value_store.KvStore.Flush.{update_manifest}
use lsm_tree_key_value_store.KvStore.Lasting.{published-manifest}
use lsm_tree_key_value_store.KvStore.Open.{read_manifest, apply_record, open_wal, replayed, recover}
use lsm_tree_key_value_store.KvStore.Durable.{apply_entry, Numbered, Listed}
use lsm_tree_key_value_store.KvStore.Reloading.{names_for, names_of-manifest_of}

table-apply_record :
    (t : MemTable) (r : WalRecord) → (apply_record t r).table ≡ apply_entry t.table r
unfolding apply_record apply_entry
table-apply_record t r = go r.type
  where
    go :
        (type : RecordType)
        → (apply_record t (record r { type = type })).table
          ≡ apply_entry t.table (record r { type = type })
    go RecordType.put = table-put t r.key r.value
    go RecordType.tombstone = table-remove t r.key
    go (RecordType.other b) = refl

-- The entries that the replay of a log leaves depend on nothing but the log and the entries before.
pub table-replayed :
    (rs : List WalRecord) (t : MemTable)
    → (foldl apply_record t rs).table ≡ foldl apply_entry t.table rs
table-replayed [] t = refl
table-replayed (r ∷ rs) t =
    table-replayed rs (apply_record t r) ∙ ap (λ m. foldl apply_entry m rs) (table-apply_record t r)

pub exists-file : (d : Disk) (p c : Bytes) → d.file p ≡ some c → exists d p ≡ true
unfolding exists
exists-file d p c e = rw (e) refl

pub exists-dir : (d : Disk) (p : Bytes) → d.dir p ≡ true → exists d p ≡ true
unfolding exists
exists-dir d p e = ground arith

-- The names that `open` starts from.
pub names_found :
    (d : Disk) (db : Bytes) (ns : List ℕ) (rs : List SsTableReader)
    → Numbered db ns rs
    → Listed d (manifest_file db) rs
    → (if exists d (manifest_file db) then read_manifest reliable d (manifest_file db) else [])
      ≡ names_for ns
unfolding read_manifest open_read
names_found d db ns rs h (inl e) =
    rw (exists-file d (manifest_file db) (manifest_of rs) e, e) (names_of-manifest_of db ns rs h)
names_found d db [] rs h (inr (absent, e)) = rw (absent) refl
names_found d db (n ∷ ns) [] h (inr (absent, e)) = absurd h
names_found d db (n ∷ ns) (r ∷ rs) h (inr (absent, e)) = cc

-- The store and the disk once the log is replayed and open again.
abbrev pub recovered_store : KvStore → List WalRecord → KvStore
recovered_store s rs = record s {
  wal_path = wal_file s.db_path;
  memtable = foldl apply_record (MemTable.clear s.memtable) rs;
  wal = record { filepath = wal_file s.db_path; is_open = true; good = true };
  is_open = true;
}

pub recover-encode_log :
    (s : KvStore) (d : Disk) (rs : List WalRecord)
    → d.file (wal_file s.db_path) ≡ some (encode_log rs)
    → All IsLogged rs
    → recover reliable s d
      ≡ some
          (Status.ok, recovered_store s rs, set_file (wal_file s.db_path) (some (encode_log rs)) d)
unfolding recover replay open_read replayed open_wal Wal.open_log Wal.close open_append contents
recover-encode_log s d rs e h =
    rw
      (
        exists-file d (wal_file s.db_path) (encode_log rs) e,
        e,
        replay_bytes-encode_log apply_record rs (MemTable.clear s.memtable) h,
        e,
      )
      refl

-- For a store whose tables have the names of these numbers in its directory, updateManifest without
-- faults of the disk ends with OK, and what open reads from the manifest after it are these names, in
-- the order of the tables.
pub read_manifest-update_manifest :
    (s : KvStore) (d : Disk) (ns : List ℕ)
    → Numbered s.db_path ns s.sstables
    → let out = update_manifest reliable s d in
      (out.0 ≡ Status.ok) × (read_manifest reliable out.1 s.manifest_path ≡ names_for ns)
unfolding read_manifest open_read
read_manifest-update_manifest s d ns h =
    let there = published-manifest s.manifest_path s.sstables d in
    rw (update_manifest-reliable s d)
      (refl, rw (there, read_manifest) (names_of-manifest_of s.db_path ns s.sstables h))
