-- ===== src/KvStore/Durable.antt =====
-- What of a store is on disk, so that it can be opened again.
use lsm_tree_key_value_store.Prelude.{
  ℕ, ◌+◌, ◌^◌, ◌<◌, ◌≡◌, true, false, Option, some, List, [], ◌∷◌, ◌++◌, Bytes, All, ◌⊎◌,
}
use mathlib.Core.List.{foldl}
use lsm_tree_key_value_store.Prelude.Strings.{is_empty}
use lsm_tree_key_value_store.Prelude.SortedMap.{insert}
use lsm_tree_key_value_store.Types.{RecordType, KeyValueEntry}
use lsm_tree_key_value_store.Status
use lsm_tree_key_value_store.Status.{Status}
use lsm_tree_key_value_store.Disk.{Disk, exists}
use lsm_tree_key_value_store.MemTable.{MemTableEntry}
use lsm_tree_key_value_store.MemTable.Lookup.{put_entry, tombstone_entry}
use lsm_tree_key_value_store.Wal.Replay.{WalRecord}
use lsm_tree_key_value_store.Wal.Replay.Recovery.{encode_log, IsLogged}
use lsm_tree_key_value_store.SsTable.Reader.{SsTableReader}
use lsm_tree_key_value_store.KvStore.{KvStore}
use lsm_tree_key_value_store.KvStore.Names.Paths.{table_path, manifest_file, wal_file}
use lsm_tree_key_value_store.KvStore.Publishing.{manifest_of}
use lsm_tree_key_value_store.KvStore.View.{view, Represents}
use lsm_tree_key_value_store.KvStore.Volume.{Grown}

-- A record of the log, applied to the entries of the memtable.
unfoldable pub apply_entry : List (Bytes × MemTableEntry) → WalRecord → List (Bytes × MemTableEntry)
apply_entry m r = elim r.type [
  | RecordType.put ↦ insert r.key (put_entry r.value) m
  | RecordType.tombstone ↦ insert r.key tombstone_entry m
  | RecordType.other b ↦ m
]

-- The readers are open on the tables of these numbers.
abbrev pub Numbered : Bytes → List ℕ → List SsTableReader → Type 0
Numbered db [] [] = Unit
Numbered db [] (r ∷ rs) = ⊥
Numbered db (n ∷ ns) [] = ⊥
Numbered db (n ∷ ns) (r ∷ rs) =
    ((n + 1 < 2 ^ 64) × (r.filepath ≡ table_path db n)) × Numbered db ns rs

pub Numbered-snoc :
    (db : Bytes) (n : ℕ) (ns : List ℕ) (rs : List SsTableReader) (r : SsTableReader)
    → Numbered db ns rs
    → n + 1 < 2 ^ 64
    → r.filepath ≡ table_path db n
    → Numbered db (ns ++ n ∷ []) (rs ++ r ∷ [])
Numbered-snoc db n [] [] r h fit at = ((fit, at), tt)
Numbered-snoc db n [] (q ∷ rs) r h fit at = absurd h
Numbered-snoc db n (k ∷ ns) [] r h fit at = absurd h
Numbered-snoc db n (k ∷ ns) (q ∷ rs) r h fit at = (h.0, Numbered-snoc db n ns rs r h.1 fit at)

-- The manifest of a database names these tables; where it has none, there may be no manifest.
abbrev pub Listed : Disk → Bytes → List SsTableReader → Type 0
Listed d path rs = (d.file path ≡ some (manifest_of rs)) ⊎ ((exists d path ≡ false) × (rs ≡ []))

-- What an open store has on disk: the tables of these numbers, and the log of these records, which make
-- up its memtable.
pub record Durable (s : KvStore) (d : Disk) (ns : List ℕ) (rs : List WalRecord) : Type 0 where
  pub path : is_empty s.db_path ≡ false
  pub directory : d.dir s.db_path ≡ true
  pub numbered : Numbered s.db_path ns s.sstables
  pub manifest : Listed d (manifest_file s.db_path) s.sstables
  pub log : d.file (wal_file s.db_path) ≡ some (encode_log rs)
  pub logged : All IsLogged rs
  pub buffer : s.memtable.table ≡ foldl apply_entry [] rs

-- That for some tables and some log.
abbrev pub Lasting : KvStore → Disk → Type 0
Lasting s d = (ns : List ℕ) × (rs : List WalRecord) × Durable s d ns rs

-- A run that ended with OK in a state that stands for the same map as a store before it, and that can
-- be opened again if that could. It has no more bytes of records, and took so many numbers at most.
pub record Kept (run : Option (Status × KvStore × Disk)) (s : KvStore) (d : Disk)
    (ess : List (List KeyValueEntry)) (steps : ℕ) : Type 0 where
  pub after : KvStore
  pub disk : Disk
  pub entries : List (List KeyValueEntry)
  pub done : run ≡ some (Status.ok, after, disk)
  pub represents : Represents after disk entries
  pub same_view : (key : Bytes) → view after entries key ≡ view s ess key
  pub lasting : Lasting s d → Lasting after disk
  pub grown : Grown 0 steps s ess after entries
