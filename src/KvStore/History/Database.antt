-- ===== src/KvStore/History/Database.antt =====
-- A new database, and all that is done to it.
use lsm_tree_key_value_store.Prelude.{
  ℕ, ◌*◌, ◌<◌, ◌≤◌, ◌≡◌, refl, ap, ◌∙◌, fun_ext, arith, false, Option, none, some, List, [], Bytes,
  length, All,
}
use lsm_tree_key_value_store.Prelude.Strings.{is_empty}
use lsm_tree_key_value_store.Options.{Options}
use lsm_tree_key_value_store.Status
use lsm_tree_key_value_store.Status.{Status}
use lsm_tree_key_value_store.Disk.{Disk, reliable}
use lsm_tree_key_value_store.MemTable
use lsm_tree_key_value_store.SsTable.Writer.{table_entries}
use lsm_tree_key_value_store.SsTable.Layout.{encode_records}
use lsm_tree_key_value_store.KvStore
use lsm_tree_key_value_store.KvStore.{KvStore}
use lsm_tree_key_value_store.KvStore.Ops
use lsm_tree_key_value_store.KvStore.Open.{open_store}
use lsm_tree_key_value_store.KvStore.Volume.{total}
use lsm_tree_key_value_store.KvStore.Capacity.{HasCapacity, capacity, max_bits}
use lsm_tree_key_value_store.KvStore.Reading.{Shows, get-view}
use lsm_tree_key_value_store.KvStore.Creation.{
  IsVacant, new_store, new_disk, open_store-new, new-Represents, new-Lasting, view-new,
}
use lsm_tree_key_value_store.KvStore.History.{Op, perform_all, effects, costs, IsValid}
use lsm_tree_key_value_store.KvStore.History.Step.{Sound}
use lsm_tree_key_value_store.KvStore.History.Run.{perform_all-effects}

-- The opening and the operations end with OK, and a lookup afterwards answers this.
pub record Answered (o : Options) (stale db : Bytes) (ops : List Op) (d : Disk) (key : Bytes)
    (value : Option Bytes) : Type 0 where
  pub first : KvStore
  pub first_disk : Disk
  pub opened : open_store reliable db (KvStore.init o) d ≡ some (Status.ok, first, first_disk)
  pub last : KvStore
  pub last_disk : Disk
  pub done : perform_all reliable stale ops first first_disk ≡ some (Status.ok, last, last_disk)
  pub answers : Shows value (Ops.get reliable last_disk key last)

pub new-HasCapacity :
    (o : Options) (db : Bytes) (bytes steps : ℕ)
    → 0 < o.sparse_index_interval
    → o.bloom_bits_per_key ≤ max_bits
    → bytes < capacity
    → steps < 18446744073709551615
    → HasCapacity bytes steps (new_store (KvStore.init o) db) []
unfolding total MemTable.clear table_entries encode_records
new-HasCapacity o db bytes steps interval bits fit few = record {
  interval_pos = interval;
  bits_le = bits;
  bytes_fit = omega arith;
  numbers_fit = omega arith;
}

-- A database on a path where nothing is, with an interval of the sparse index that is not 0, at most
-- 64 bits of the filter for a key, and fewer than 2^63 writes, deletions, flushes, compactions and new
-- processes in any order, with keys that are not empty, keys of at most 16 MiB and values of at most
-- 64 MiB, and less than 2 GiB of records in all: without faults of the disk the opening and every
-- operation end with OK, and a lookup of a key that is not empty then answers what the operations make
-- of an empty map.
pub database-effects :
    (o : Options) (stale db : Bytes) (ops : List Op) (d : Disk) (key : Bytes)
    → is_empty db ≡ false
    → IsVacant d db
    → 0 < o.sparse_index_interval
    → o.bloom_bits_per_key ≤ max_bits
    → All IsValid ops
    → costs ops < capacity
    → 2 * length ops < 18446744073709551615
    → is_empty key ≡ false
    → Answered o stale db ops d key (effects ops (λ j. none) key)
database-effects o stale db ops d key ne v interval bits valid bytes steps full =
    let c = KvStore.init o in
    let h : Sound (new_store c db) (new_disk db d) [] = record {
      represents = new-Represents c d db;
      lasting = new-Lasting c d db ne v;
    } in
    let r =
      perform_all-effects stale ops (new_store c db) (new_disk db d) [] h valid
        (new-HasCapacity o db (costs ops) (2 * length ops) interval bits bytes steps) in
    let same = r.same_view key ∙ ap (λ m. effects ops m key) (fun_ext (view-new c db)) in
    record {
      first = new_store c db;
      first_disk = new_disk db d;
      opened = open_store-new c d db refl ne v;
      last = r.after;
      last_disk = r.disk;
      done = r.done;
      answers = rw⁻¹ same (get-view r.disk key r.after r.entries r.sound.represents full);
    }
