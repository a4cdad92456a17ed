-- ===== src/KvStore.antt =====
-- include/lsm/kv_store.h and src/kv_store.cpp: the state of `KVStoreImpl`. `KVStore` only hands each
-- call on to it.
pub mod Names
pub mod Flush
pub mod Ops
pub mod Open
pub mod View
pub mod Volume
pub mod Durable
pub mod Reading
pub mod Publishing
pub mod Flushing
pub mod Lasting
pub mod Compacting
pub mod Persisting
pub mod Capacity
pub mod Inserting
pub mod Mutation
pub mod Errors
pub mod Termination
pub mod Reloading
pub mod Replaying
pub mod Numbering
pub mod Recovery
pub mod Durability
pub mod Creation
pub mod Crashes
pub mod Closing
pub mod History
use lsm_tree_key_value_store.Prelude.{ℕ, Bool, false, List, [], Bytes, length}
use lsm_tree_key_value_store.Options.{Options}
use lsm_tree_key_value_store.MemTable
use lsm_tree_key_value_store.MemTable.{MemTable}
use lsm_tree_key_value_store.Wal
use lsm_tree_key_value_store.Wal.{Wal}
use lsm_tree_key_value_store.SsTable.Reader.{SsTableReader}

pub record KvStore : Type 0 where
  pub options : Options
  pub memtable : MemTable
  pub wal : Wal
  pub sstables : List SsTableReader
  pub is_open : Bool
  pub db_path : Bytes
  pub manifest_path : Bytes
  pub wal_path : Bytes
  pub next_sst_seq : ℕ

-- `KVStoreImpl(options)`
abbrev pub init : Options → KvStore
init o = record {
  options = o;
  memtable = MemTable.init o.memtable_size_threshold;
  wal = Wal.init;
  sstables = [];
  is_open = false;
  db_path = [];
  manifest_path = [];
  wal_path = [];
  next_sst_seq = 1;
}

-- `sstableCount()` and `memtableSize()`
abbrev pub sstable_count : KvStore → ℕ
sstable_count s = length s.sstables

abbrev pub memtable_size : KvStore → ℕ
memtable_size s = s.memtable.approximate_size
