-- ===== src/KvStore/Crashes/Unrecorded.antt =====
-- A `put` of src/kv_store.cpp whose record the log does not take, on any operating system.
use lsm_tree_key_value_store.Prelude.{◌≡◌, false, Option, some, Bytes}
use lsm_tree_key_value_store.Prelude.Strings.{is_empty}
use lsm_tree_key_value_store.Status
use lsm_tree_key_value_store.Status.{Status}
use lsm_tree_key_value_store.Disk.{Disk, reliable}
use lsm_tree_key_value_store.MemTable
use lsm_tree_key_value_store.Wal
use lsm_tree_key_value_store.Wal.{Wal}
use lsm_tree_key_value_store.KvStore.{KvStore}
use lsm_tree_key_value_store.KvStore.Ops
use lsm_tree_key_value_store.KvStore.Open.{open_store}
use lsm_tree_key_value_store.KvStore.Reading.{Shows}
use lsm_tree_key_value_store.KvStore.Crashes.{Rereads}

-- A mutation that ended with an error: the store still answers from this map, and so does a closed store
-- that opens what is on disk.
pub record Undone (run : Option (Status × KvStore × Disk)) (s c : KvStore)
    (m : Bytes → Option Bytes) : Type 0 where
  pub status : Status
  pub after : KvStore
  pub disk : Disk
  pub done : run ≡ some (status, after, disk)
  pub failed : Status.is_ok status ≡ false
  pub answers :
      (key : Bytes) → is_empty key ≡ false → Shows (m key) (Ops.get reliable disk key after)
  pub reopened : Rereads (open_store reliable s.db_path c disk) m
