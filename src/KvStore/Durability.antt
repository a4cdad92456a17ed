-- ===== src/KvStore/Durability.antt =====
-- What `put` has acknowledged, the next process reads: a mutation, a loss of the memory, an `open`.
use lsm_tree_key_value_store.Prelude.{
  length, ◌+◌, ◌<◌, ◌^◌, ℕ, ◌≡◌, ◌∙◌, arith, false, Option, none, some, List, [], Bytes,
  if◌then◌else◌,
}
use lsm_tree_key_value_store.Prelude.Strings.{string_eq, is_empty}
use lsm_tree_key_value_store.Types.{RecordType, KeyValueEntry}
use lsm_tree_key_value_store.Status
use lsm_tree_key_value_store.Status.{Status}
use lsm_tree_key_value_store.Disk.{Disk, reliable}
use lsm_tree_key_value_store.Wal.Replay.{WalRecord}
use lsm_tree_key_value_store.Wal.Replay.Recovery.{IsLogged}
use lsm_tree_key_value_store.KvStore.{KvStore}
use lsm_tree_key_value_store.KvStore.Ops.{put, remove, get}
use lsm_tree_key_value_store.KvStore.Open.{open_store}
use lsm_tree_key_value_store.KvStore.View.{view, Represents}
use lsm_tree_key_value_store.KvStore.Durable.{Lasting}
use lsm_tree_key_value_store.KvStore.Reading.{Shows, get-view}
use lsm_tree_key_value_store.KvStore.Persisting.{HasRoom}
use lsm_tree_key_value_store.KvStore.Mutation.{Updated, written, put-view, remove-view}
use lsm_tree_key_value_store.KvStore.Recovery.{open_store-view}

-- The mutation ends with OK, a closed store opens what it left with OK, and a lookup there answers this.
pub record Survives (run : Option (Status × KvStore × Disk)) (c : KvStore) (key : Bytes)
    (value : Option Bytes) : Type 0 where
  pub after : KvStore
  pub disk : Disk
  pub done : run ≡ some (Status.ok, after, disk)
  pub next : KvStore
  pub next_disk : Disk
  pub opened : open_store reliable after.db_path c disk ≡ some (Status.ok, next, next_disk)
  pub answers : Shows value (get reliable next_disk key next)

Updated-Survives :
    (run : Option (Status × KvStore × Disk)) (s : KvStore) (d : Disk)
    (ess : List (List KeyValueEntry)) (r : WalRecord) (c : KvStore) (j : Bytes)
    → {steps : ℕ} → Updated run s d ess r steps
    → Lasting s d
    → IsLogged r
    → c.is_open ≡ false
    → is_empty j ≡ false
    → Survives run c j (if string_eq r.key j then written r else view s ess j)
Updated-Survives run s d ess r c j u k fits closed ne =
    let (ns, rs, last) = u.lasting fits k in
    let o = open_store-view u.after u.disk u.entries ns rs u.represents last c closed in
    record {
      after = u.after;
      disk = u.disk;
      done = u.done;
      next = o.after;
      next_disk = o.disk;
      opened = o.done;
      answers =
          rw⁻¹ (o.same_view j ∙ u.updated j) (get-view o.disk j o.after u.entries o.represents ne);
    }

module _ (stale : Bytes) (s c : KvStore) (d : Disk) (ess : List (List KeyValueEntry))
    (key j : Bytes) where
  -- In an open store with room, that is with an interval of the sparse index that is not 0, where the
  -- table of a flush and that of a compaction after it are within the limits of the format and two
  -- numbers of tables are left, whose tables hold these entries and whose files are enough to open it,
  -- a `put` of a key that is not empty and has at most 16 MiB and of a value of at most 64 MiB ends
  -- with OK. If the memory is lost then, `open` by a closed store ends with OK, and a lookup there
  -- answers the value for the key, and for any other key that is not empty what the first store stood
  -- for. No fault of the disk occurs.
  pub put-Survives :
      (value : Bytes)
      → Represents s d ess
      → Lasting s d
      → HasRoom s ess
      → is_empty key ≡ false
      → IsLogged (record { type = RecordType.put; key = key; value = value })
      → c.is_open ≡ false
      → is_empty j ≡ false
      → Survives
          (put reliable stale key value s d)
          c
          j
          (if string_eq key j then some value else view s ess j)
  put-Survives value h k room ne fits closed other =
      let fit : length key + length value < 2 ^ 32 =
        omega (arith, fits.key_small, fits.value_small) in
      Updated-Survives (put reliable stale key value s d) s d ess
        (record { type = RecordType.put; key = key; value = value }) c j
        (put-view stale s d ess key value h room ne fit) k fits closed other

  -- In an open store with room, that is with an interval of the sparse index that is not 0, where the
  -- table of a flush and that of a compaction after it are within the limits of the format and two
  -- numbers of tables are left, whose tables hold these entries and whose files are enough to open it,
  -- a `remove` of a key that is not empty and has at most 16 MiB ends with OK. If the memory is lost
  -- then, `open` by a closed store ends with OK, and a lookup there answers that the key has no value,
  -- and for any other key that is not empty what the first store stood for. No fault of the disk
  -- occurs.
  pub remove-Survives :
      Represents s d ess
      → Lasting s d
      → HasRoom s ess
      → is_empty key ≡ false
      → IsLogged (record { type = RecordType.tombstone; key = key; value = [] })
      → c.is_open ≡ false
      → is_empty j ≡ false
      → Survives
          (remove reliable stale key s d)
          c
          j
          (if string_eq key j then none else view s ess j)
  remove-Survives h k room ne fits closed other =
      Updated-Survives (remove reliable stale key s d) s d ess
        (record { type = RecordType.tombstone; key = key; value = [] }) c j
        (remove-view stale s d ess key h room ne (omega (arith, fits.key_small))) k fits closed
        other
