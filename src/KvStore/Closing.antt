-- ===== src/KvStore/Closing.antt =====
-- `KVStore::close`, what the store refuses after it, and the `open` that follows.
use lsm_tree_key_value_store.Prelude.{◌≡◌, refl, false, some, List, Bytes, Bool-cases, inl, inr}
use lsm_tree_key_value_store.Prelude.Strings.{text}
use lsm_tree_key_value_store.Types.{KeyValueEntry}
use lsm_tree_key_value_store.Status
use lsm_tree_key_value_store.Status.{Status}
use lsm_tree_key_value_store.Result
use lsm_tree_key_value_store.Disk.{Disk, Os, reliable}
use lsm_tree_key_value_store.KvStore.{KvStore}
use lsm_tree_key_value_store.KvStore.Ops.{put, remove, get, flush, compact, close}
use lsm_tree_key_value_store.KvStore.Open.{open_store}
use lsm_tree_key_value_store.KvStore.View.{view, Represents}
use lsm_tree_key_value_store.KvStore.Durable.{Lasting}
use lsm_tree_key_value_store.KvStore.Errors.{Refused, closed-Refused}
use lsm_tree_key_value_store.KvStore.Recovery.{open_store-view}
use lsm_tree_key_value_store.KvStore.Crashes.{Rereads, Reopened-Rereads}

close_lem : (s : KvStore) → ((close s).0 ≡ Status.ok) × ((close s).1.is_open ≡ false)
unfolding close
close_lem s = elim (Bool-cases s.is_open) [
  | inl opened ↦ rw (opened) (refl, refl)
  | inr closed ↦ rw (closed) (refl, refl)
]

-- A close of an open store whose tables hold these entries and whose files are enough to open it ends
-- with OK. Each of put, remove, get, flush and compact on the closed store then returns an IO error,
-- on any operating system and whatever the key and the value, and changes neither the store nor the
-- disk. An open of the same path by the closed store, without faults of the disk, ends with OK in a
-- store that answers each key that is not empty as the first one did.
pub close-Refused :
    (os : Os) (stale key value : Bytes) (s : KvStore) (d : Disk) (ess : List (List KeyValueEntry))
    → Represents s d ess
    → Lasting s d
    → let e = Status.io_error (text "Database is not open") in
      let c = (close s).1 in
      ((close s).0 ≡ Status.ok)
      × (Refused e c d (put os stale key value c d)
          × Refused e c d (remove os stale key c d)
          × (get os d key c ≡ some (Result.error e))
          × Refused e c d (flush os stale c d)
          × Refused e c d (compact os stale c d))
      × Rereads (open_store reliable s.db_path c d) (view s ess)
close-Refused os stale key value s d ess h (ns, rs, u) =
    let (ok, shut) = close_lem s in
    let c = (close s).1 in
    (
      ok,
      closed-Refused os stale key value c d shut,
      Reopened-Rereads _ c s ess (view s ess) (open_store-view s d ess ns rs h u c shut)
          (λ j. refl),
    )
