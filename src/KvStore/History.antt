-- ===== src/KvStore/History.antt =====
-- Any number of operations on a database, one after another, with the loss of the memory among them.
pub mod Step
pub mod Run
pub mod Database
use lsm_tree_key_value_store.Prelude.{
  ℕ, ◌+◌, ◌*◌, ◌≡◌, true, false, Bool, Option, none, some, List, [], ◌∷◌, Bytes, length, All,
  if◌then◌else◌,
}
use lsm_tree_key_value_store.Prelude.Strings.{string_eq, is_empty}
use lsm_tree_key_value_store.Types.{RecordType}
use lsm_tree_key_value_store.Status
use lsm_tree_key_value_store.Status.{Status}
use lsm_tree_key_value_store.Disk.{Disk, Os}
use lsm_tree_key_value_store.Wal.Replay.Recovery.{IsLogged}
use lsm_tree_key_value_store.KvStore
use lsm_tree_key_value_store.KvStore.{KvStore}
use lsm_tree_key_value_store.KvStore.Ops
use lsm_tree_key_value_store.KvStore.Open.{open_store}

-- What is done to a database. `restarts` is a new process: the store in memory is lost, and another one
-- with the same options opens the path.
pub data Op : Type 0 where
  writes : Bytes → Bytes → Op
  deletes : Bytes → Op
  flushes compacts restarts : Op

unfoldable pub perform : Os → Bytes → Op → KvStore → Disk → Option (Status × KvStore × Disk)
perform os stale (writes key value) s d = Ops.put os stale key value s d
perform os stale (deletes key) s d = Ops.remove os stale key s d
perform os stale flushes s d = Ops.flush os stale s d
perform os stale compacts s d = Ops.compact os stale s d
perform os stale restarts s d = open_store os s.db_path (KvStore.init s.options) d

-- One operation after another, up to the first that does not end with OK.
unfoldable pub perform_all :
    Os → Bytes → List Op → KvStore → Disk → Option (Status × KvStore × Disk)
perform_all os stale [] s d = some (Status.ok, s, d)
perform_all os stale (op ∷ ops) s d = elim (perform os stale op s d) [
  | none ↦ none
  | some (status, s', d') ↦ elim (Status.is_ok status) [
    | true ↦ perform_all os stale ops s' d'
    | false ↦ some (status, s', d')
  ]
]

-- The same on a map from keys to values.
unfoldable pub effect : Op → (Bytes → Option Bytes) → Bytes → Option Bytes
effect (writes key value) m j = if string_eq key j then some value else m j
effect (deletes key) m j = if string_eq key j then none else m j
effect _ m j = m j

unfoldable pub effects : List Op → (Bytes → Option Bytes) → Bytes → Option Bytes
effects [] m = m
effects (op ∷ ops) m = effects ops (effect op m)

-- The bytes of the record that an operation writes.
unfoldable pub cost : Op → ℕ
cost (writes key value) = 13 + length key + length value
cost (deletes key) = 13 + length key
cost _ = 0

unfoldable pub costs : List Op → ℕ
costs [] = 0
costs (op ∷ ops) = cost op + costs ops

-- A key is not empty, and a replay takes key and value.
abbrev pub IsValid : Op → Type 0
IsValid (writes key value) =
    (is_empty key ≡ false) × IsLogged (record { type = RecordType.put; key = key; value = value })
IsValid (deletes key) =
    (is_empty key ≡ false)
    × IsLogged (record { type = RecordType.tombstone; key = key; value = [] })
IsValid _ = Unit
