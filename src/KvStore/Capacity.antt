-- ===== src/KvStore/Capacity.antt =====
-- How much a store can hold, so that a flush and a compaction stay within the format of a table.
use lsm_tree_key_value_store.Prelude.{
  ℕ, ◌+◌, ◌*◌, ◌≤◌, ◌<◌, arith, List, [], ◌∷◌, ◌++◌, length, All,
}
use native.Mathlib.Nat.{mul-le-mul_right}
use lsm_tree_key_value_store.Types.{KeyValueEntry}
use lsm_tree_key_value_store.Options.{Options}
use lsm_tree_key_value_store.Disk.{Disk}
use lsm_tree_key_value_store.Bloom.{num_bytes_for}
use lsm_tree_key_value_store.SsTable.Layout.{encode_records, IsStored}
use lsm_tree_key_value_store.SsTable.Limits.{IsSmall, filter_keys}
use lsm_tree_key_value_store.Compaction.Merge.{compacted_entries, compacted_entries-IsStored}
use lsm_tree_key_value_store.KvStore.{KvStore}
use lsm_tree_key_value_store.KvStore.View.{buffered, Represents, Readers-IsStored}
use lsm_tree_key_value_store.KvStore.Volume.{
  volume, total-snoc, length-compacted_entries, length_le-encode_records,
}
use lsm_tree_key_value_store.KvStore.Persisting.{HasRoom, flush_internal-Kept}
use lsm_tree_key_value_store.Disk.{reliable}
use lsm_tree_key_value_store.Prelude.{Bytes}
use lsm_tree_key_value_store.KvStore.Flush.{flush_internal, compact_internal}
use lsm_tree_key_value_store.KvStore.Durable.{Kept}
use lsm_tree_key_value_store.KvStore.Compacting.{compact_internal-Kept}

-- The bytes of records below which no table of them is too large.
abbrev pub capacity : ℕ
capacity = 2147483648

-- The bits for a key up to which that is so.
abbrev pub max_bits : ℕ
max_bits = 64

-- There is room for so many more bytes of records, and so many more tables.
pub record HasCapacity (bytes steps : ℕ) (s : KvStore) (ess : List (List KeyValueEntry))
    : Type 0 where
  pub interval_pos : 0 < s.options.sparse_index_interval
  pub bits_le : s.options.bloom_bits_per_key ≤ max_bits
  pub bytes_fit : volume s ess + bytes < capacity
  pub numbers_fit : s.next_sst_seq + steps < 18446744073709551616

product_le : (k b : ℕ) → k ≤ 165191050 → b ≤ 64 → k * b ≤ 10572227200
product_le k b hk hb = omega (arith, mul-le-mul_right b hk)

num_bytes_for-bound : (k b : ℕ) → k ≤ 165191050 → b ≤ 64 → num_bytes_for k b + 8 < 4294967296
unfolding num_bytes_for
num_bytes_for-bound k b hk hb =
    ground (arith, product_le k b hk hb, product_le 64 b (omega arith) hb)

-- A table of so few bytes is within the limits of the format.
pub IsSmall-capacity :
    (o : Options) (es : List KeyValueEntry)
    → All IsStored es
    → 0 < o.sparse_index_interval
    → o.bloom_bits_per_key ≤ max_bits
    → length (encode_records es) < capacity
    → IsSmall o es
IsSmall-capacity o es h interval bits fit =
    let count = length_le-encode_records es h in
    record {
      interval_pos = interval;
      records_fit = omega arith;
      count_fits = omega arith;
      filter_fits =
          num_bytes_for-bound (filter_keys (length es)) o.bloom_bits_per_key (ground arith) bits;
    }

All-snoc :
    (ess : List (List KeyValueEntry)) (es : List KeyValueEntry)
    → All (All IsStored) ess
    → All IsStored es
    → All (All IsStored) (ess ++ es ∷ [])
All-snoc [] es h g = (g, tt)
All-snoc (x ∷ ess) es h g = (h.0, All-snoc ess es h.1 g)

-- In an open store whose tables hold these entries, with an interval of the sparse index that is not 0, at
-- most 64 bits of the filter for a key, less than 2 GiB of records and two numbers of tables to come, each table that a flush and a compaction write is
-- within the limits of the format: counts, offsets and the size of the filter.
pub HasCapacity-HasRoom :
    (s : KvStore) (d : Disk) (ess : List (List KeyValueEntry))
    → Represents s d ess
    → HasCapacity 0 2 s ess
    → HasRoom s ess
HasCapacity-HasRoom s d ess h c =
    let all = ess ++ buffered s ∷ [] in
    let held =
      All-snoc ess (buffered s) (Readers-IsStored d s.sstables ess h.readers) h.mem_stored in
    let size = c.bytes_fit in
    record {
      table =
          IsSmall-capacity s.options (buffered s) h.mem_stored c.interval_pos c.bits_le
            (omega (arith, size));
      merged =
          IsSmall-capacity s.options (compacted_entries all) (compacted_entries-IsStored all held)
            c.interval_pos c.bits_le
            (omega (arith, size, length-compacted_entries all, total-snoc ess (buffered s)));
      numbers = c.numbers_fit;
    }

-- Under the same conditions, but for the numbers, the table of a compaction alone is within these limits.
pub HasCapacity-IsSmall :
    (s : KvStore) (d : Disk) (ess : List (List KeyValueEntry)) {steps : ℕ}
    → Represents s d ess
    → HasCapacity 0 steps s ess
    → IsSmall s.options (compacted_entries ess)
HasCapacity-IsSmall s d ess h c =
    let size = c.bytes_fit in
    IsSmall-capacity s.options (compacted_entries ess)
      (compacted_entries-IsStored ess (Readers-IsStored d s.sstables ess h.readers)) c.interval_pos
      c.bits_le (omega (arith, size, length-compacted_entries ess))

-- In an open store whose tables hold these entries, with an interval of the sparse index that is not
-- 0, at most 64 bits of the filter for a key, less than 2 GiB of records in memtable and tables, and
-- two numbers of tables to come: a flush, with the compaction that it may start, and a compaction each
-- end with OK without faults of the disk, in such a store with the same map. Where manifest, tables
-- and log were enough to open the store before, they still are. Path and options stay, the records
-- take no more bytes, and the flush takes at most two numbers of tables, the compaction at most one.
pub HasCapacity-Kept :
    (stale : Bytes) (s : KvStore) (d : Disk) (ess : List (List KeyValueEntry))
    → Represents s d ess
    → HasCapacity 0 2 s ess
    → Kept (flush_internal reliable stale s d) s d ess 2
      × Kept (compact_internal reliable stale s d) s d ess 1
HasCapacity-Kept stale s d ess h c = (
  flush_internal-Kept stale s d ess h (HasCapacity-HasRoom s d ess h c),
  compact_internal-Kept stale s d ess h (HasCapacity-IsSmall s d ess h c)
      (omega (arith, c.numbers_fit)),
)
