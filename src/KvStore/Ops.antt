-- ===== src/KvStore/Ops.antt =====
-- The public operations of `KVStoreImpl` but `open`.
use lsm_tree_key_value_store.Prelude.{
  Bool, true, false, Option, none, some, List, [], ◌∷◌, Bytes, reverse, if◌then◌else◌,
}
use lsm_tree_key_value_store.Prelude.Strings.{text, is_empty}
use lsm_tree_key_value_store.Status
use lsm_tree_key_value_store.Status.{Status}
use lsm_tree_key_value_store.Result
use lsm_tree_key_value_store.Result.{Result}
use lsm_tree_key_value_store.Disk.{Disk, Os}
use lsm_tree_key_value_store.MemTable
use lsm_tree_key_value_store.Wal
use lsm_tree_key_value_store.Wal.{Wal}
use lsm_tree_key_value_store.SsTable.Reader
use lsm_tree_key_value_store.SsTable.Reader.{SsTableReader}
use lsm_tree_key_value_store.KvStore.{KvStore}
use lsm_tree_key_value_store.KvStore.Flush.{flush_internal, compact_internal}

-- What every operation begins with.
unfoldable pub guarded {ℓ} : {A : Type ℓ} → KvStore → Bytes → (Status → A) → A → A
guarded s key refuse go =
    if s.is_open
    then (if is_empty key
        then refuse (Status.invalid_argument (text "Key cannot be empty"))
        else go)
    else refuse (Status.io_error (text "Database is not open"))

-- `if (memtable_.isFull())`: the flush, or nothing.
unfoldable pub make_room : Os → Bytes → KvStore → Disk → Option (Status × KvStore × Disk)
make_room os stale s d =
    if MemTable.is_full s.memtable then flush_internal os stale s d else some (Status.ok, s, d)

-- The memtable follows a log that has accepted the record.
unfoldable pub logged :
    (KvStore → KvStore) → KvStore → Status × Wal × Disk → Status × KvStore × Disk
logged update s (status, wal, d) =
    let s' = record s { wal = wal } in
    if Status.is_ok status then (Status.ok, update s', d) else (status, s', d)

unfoldable pub put_entry : Bytes → Bytes → KvStore → KvStore
put_entry key value s = record s { memtable = MemTable.put s.memtable key value }

unfoldable pub remove_entry : Bytes → KvStore → KvStore
remove_entry key s = record s { memtable = MemTable.remove s.memtable key }

unfoldable pub put_logged : Os → Bytes → Bytes → Status × KvStore × Disk → Status × KvStore × Disk
put_logged os key value (status, s, d) =
    if Status.is_ok status
    then logged (put_entry key value) s (Wal.append_put os key value s.wal d)
    else (status, s, d)

unfoldable pub remove_logged : Os → Bytes → Status × KvStore × Disk → Status × KvStore × Disk
remove_logged os key (status, s, d) =
    if Status.is_ok status
    then logged (remove_entry key) s (Wal.append_delete os key s.wal d)
    else (status, s, d)

-- What follows a flush that may not have ended within its fuel.
abbrev pub after {ℓ} : {A B : Type ℓ} → (A → B) → Option A → Option B
after f none = none
after f (some a) = some (f a)

-- `none` where the fuel of a scan runs out. `stale` is as in `SsTable.ReadAll`.
unfoldable pub put : Os → Bytes → Bytes → Bytes → KvStore → Disk → Option (Status × KvStore × Disk)
put os stale key value s d =
    guarded s key (λ status. some (status, s, d))
      (after (put_logged os key value) (make_room os stale s d))

unfoldable pub remove : Os → Bytes → Bytes → KvStore → Disk → Option (Status × KvStore × Disk)
remove os stale key s d =
    guarded s key (λ status. some (status, s, d))
      (after (remove_logged os key) (make_room os stale s d))

-- The loop over the tables, in the order of the list. A result that is neither OK nor a tombstone is
-- passed over, errors included.
unfoldable pub get_from_tables : Os → Disk → Bytes → List SsTableReader → Option Result
get_from_tables os d key [] = some (Result.not_found (text "Key not found in KVStore"))
get_from_tables os d key (reader ∷ readers) = elim (Reader.get os d reader key false) [
  | none ↦ none
  | some (r, is_tombstone) ↦ elim (Result.is_ok r) [
    | true ↦ some r
    | false ↦ elim is_tombstone [
      | true ↦ some (Result.not_found (text "Key was deleted in SSTable"))
      | false ↦ get_from_tables os d key readers
    ]
  ]
]

-- The memtable's answer, or the tables' from the newest to the oldest.
unfoldable pub get_open : Os → Disk → Bytes → KvStore → Result × Bool → Option Result
get_open os d key s (r, is_tombstone) =
    if Result.is_ok r
    then some r
    else if is_tombstone
    then some (Result.not_found (text "Key was deleted"))
    else get_from_tables os d key (reverse s.sstables)

unfoldable pub get : Os → Disk → Bytes → KvStore → Option Result
get os d key s =
    guarded s key (λ status. some (Result.error status))
      (get_open os d key s (MemTable.get s.memtable key))

unfoldable pub flush : Os → Bytes → KvStore → Disk → Option (Status × KvStore × Disk)
flush os stale s d =
    if s.is_open
    then flush_internal os stale s d
    else some (Status.io_error (text "Database is not open"), s, d)

unfoldable pub compact : Os → Bytes → KvStore → Disk → Option (Status × KvStore × Disk)
compact os stale s d =
    if s.is_open
    then compact_internal os stale s d
    else some (Status.io_error (text "Database is not open"), s, d)

unfoldable pub close : KvStore → Status × KvStore
close s =
    if s.is_open
    then (
      Status.ok,
      record s {
        wal = Wal.close s.wal;
        sstables = [];
        memtable = MemTable.clear s.memtable;
        is_open = false;
      },
    )
    else (Status.ok, s)
