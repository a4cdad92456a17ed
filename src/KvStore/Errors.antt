-- ===== src/KvStore/Errors.antt =====
-- What the public operations of src/kv_store.cpp answer where the store is not open.
use lsm_tree_key_value_store.Prelude.{◌≡◌, refl, false, Option, some, Bytes}
use lsm_tree_key_value_store.Prelude.Strings.{text}
use lsm_tree_key_value_store.Status
use lsm_tree_key_value_store.Status.{Status}
use lsm_tree_key_value_store.Result
use lsm_tree_key_value_store.Disk.{Disk, Os}
use lsm_tree_key_value_store.KvStore.{KvStore}
use lsm_tree_key_value_store.KvStore.Ops.{guarded, put, remove, get, flush, compact}

-- What an operation that is refused returns: the store and the disk are as they were.
abbrev pub Refused : Status → KvStore → Disk → Option (Status × KvStore × Disk) → Type 0
Refused status s d run = run ≡ some (status, s, d)

-- On a store that is not open, each operation but `open` and `close` returns that error, and changes
-- neither the store nor the disk.
pub closed-Refused :
    (os : Os) (stale key value : Bytes) (s : KvStore) (d : Disk)
    → s.is_open ≡ false
    → let e = Status.io_error (text "Database is not open") in
      Refused e s d (put os stale key value s d)
      × Refused e s d (remove os stale key s d)
      × (get os d key s ≡ some (Result.error e))
      × Refused e s d (flush os stale s d)
      × Refused e s d (compact os stale s d)
unfolding put remove get flush compact guarded
closed-Refused os stale key value s d h =
    (rw (h) refl, rw (h) refl, rw (h) refl, rw (h) refl, rw (h) refl)
