-- ===== src/KvStore/Persisting.antt =====
-- `flushInternal`, with the compaction at its end, without faults of the disk.
use lsm_tree_key_value_store.Prelude.{
  ℕ, ◌+◌, ◌^◌, ◌<◌, ◌≡◌, refl, ap, ◌∙◌, sym, arith, some, List, [], ◌∷◌, ◌++◌, Bytes, Option,
  length, leb, Bool-cases, inl, inr,
}
use lsm_tree_key_value_store.Prelude.Strings.{is_empty}
use lsm_tree_key_value_store.Prelude.SortedMap.{Above, IsSorted}
use lsm_tree_key_value_store.Types.{KeyValueEntry}
use lsm_tree_key_value_store.Status
use lsm_tree_key_value_store.Status.{Status}
use lsm_tree_key_value_store.Disk.{Disk, reliable, set_file}
use lsm_tree_key_value_store.Disk.Laws.{file-set_file_self}
use lsm_tree_key_value_store.MemTable.{MemTableEntry}
use lsm_tree_key_value_store.SsTable.Writer.{table_entries}
use lsm_tree_key_value_store.SsTable.Layout.{encode_records, keyed}
use lsm_tree_key_value_store.SsTable.Limits.{IsSmall, IsWritable}
use lsm_tree_key_value_store.SsTable.Reopen.{OpenedAs, IsTable, write_from_mem_table-Saved}
use lsm_tree_key_value_store.Compaction.Merge.{compacted_entries}
use lsm_tree_key_value_store.KvStore.{KvStore}
use lsm_tree_key_value_store.KvStore.Flush.{next_path, maybe_compact, flush_internal}
use lsm_tree_key_value_store.KvStore.View.{Represents, Holds-frame, buffered, view}
use lsm_tree_key_value_store.KvStore.Volume.{Grown, Grown-refl, Grown-trans, total-snoc}
use lsm_tree_key_value_store.SsTable.Reader.{SsTableReader}
use lsm_tree_key_value_store.MemTable
use lsm_tree_key_value_store.KvStore.Durable.{Kept, Lasting}
use lsm_tree_key_value_store.KvStore.Lasting.{flushed-Lasting}
use lsm_tree_key_value_store.KvStore.Flushing.{
  flushed_store, flushed_disk, flushed-reliable, flushed_new, flushed-Represents, flushed-view,
}
use lsm_tree_key_value_store.KvStore.Compacting.{compact_internal-Kept}

Above-table_entries :
    (k : Bytes) (m : List (Bytes × MemTableEntry)) → Above k m → Above k (keyed (table_entries m))
unfolding keyed table_entries
Above-table_entries k [] h = tt
Above-table_entries k (x ∷ m) h = (h.0, Above-table_entries k m h.1)

-- The entries that a memtable gives to a table are in the order of its keys.
pub IsSorted-table_entries :
    (m : List (Bytes × MemTableEntry)) → IsSorted m → IsSorted (keyed (table_entries m))
unfolding keyed table_entries
IsSorted-table_entries [] h = tt
IsSorted-table_entries ((k, e) ∷ m) h = (Above-table_entries k m h.0, IsSorted-table_entries m h.1)

-- There is room for one more table, and for the table of a compaction after it.
pub record HasRoom (s : KvStore) (ess : List (List KeyValueEntry)) : Type 0 where
  pub table : IsSmall s.options (buffered s)
  pub merged : IsSmall s.options (compacted_entries (ess ++ buffered s ∷ []))
  pub numbers : s.next_sst_seq + 2 < 2 ^ 64

pub unchanged :
    (s : KvStore) (d : Disk) (ess : List (List KeyValueEntry))
    → Represents s d ess
    → (steps : ℕ) → Kept (some (Status.ok, s, d)) s d ess steps
unchanged s d ess h steps = record {
  after = s;
  disk = d;
  entries = ess;
  done = refl;
  represents = h;
  same_view = λ key. refl;
  lasting = λ k. k;
  grown = Grown-refl steps s ess;
}

module _ (stale : Bytes) (s : KvStore) (d : Disk) (ess : List (List KeyValueEntry))
    (h : Represents s d ess) where
  -- A new reader on the flushed table still holds its entries when the manifest and the log are written.
  pub opened-Represents :
      (c : Bytes)
      (a : OpenedAs
        (next_path s)
        s.options.enable_bloom_filter
        (set_file (next_path s) (some c) d)
        (buffered s))
      → IsTable c (buffered s)
      → s.next_sst_seq + 1 < 2 ^ 64
      → Represents (flushed_store s a.reader) (flushed_disk s a.reader c d) (ess ++ buffered s ∷ [])
  unfolding next_path
  opened-Represents c a t fit =
      let d1 = set_file (next_path s) (some c) d in
      let d2 = flushed_disk s a.reader c d in
      let there : d2.file a.reader.filepath ≡ some c =
        ap d2.file a.path ∙ flushed_new s d ess h c a.reader in
      let same : d2.file a.reader.filepath ≡ d1.file a.reader.filepath =
        there ∙ sym (ap d1.file a.path ∙ file-set_file_self (next_path s) (some c) d) in
      flushed-Represents s d ess h c a.reader (Holds-frame d1 d2 a.reader (buffered s) same a.holds)
        (record { contents = c; file = there; table = t }) a.path fit

  -- The compaction at the end of a flush leaves the map as it is.
  maybe_compact-Kept :
      IsSmall s.options (compacted_entries ess)
      → s.next_sst_seq + 1 < 2 ^ 64
      → Kept (maybe_compact reliable stale (Status.ok, s, d)) s d ess 1
  unfolding maybe_compact
  maybe_compact-Kept small fit =
      elim (Bool-cases (leb s.options.compaction_threshold (length s.sstables))) [
        | inl many ↦ rw (many) (compact_internal-Kept stale s d ess h small fit)
        | inr few ↦ rw (few) (unchanged s d ess h 1)
      ]

-- A run from a state with the same map.
Kept-from :
    (run : Option (Status × KvStore × Disk)) (s s' : KvStore) (d d' : Disk)
    (ess ess' : List (List KeyValueEntry)) (m n : ℕ)
    → ((key : Bytes) → view s' ess' key ≡ view s ess key)
    → (Lasting s d → Lasting s' d')
    → Grown 0 m s ess s' ess'
    → Kept run s' d' ess' n
    → Kept run s d ess (m + n)
Kept-from run s s' d d' ess ess' m n same more grown k = record {
  after = k.after;
  disk = k.disk;
  entries = k.entries;
  done = k.done;
  represents = k.represents;
  same_view = λ key. k.same_view key ∙ same key;
  lasting = λ t. k.lasting (more t);
  grown = Grown-trans grown k.grown;
}

flushed-Grown :
    (s : KvStore) (r : SsTableReader) (ess : List (List KeyValueEntry))
    → Grown 0 1 s ess (flushed_store s r) (ess ++ buffered s ∷ [])
unfolding MemTable.clear table_entries encode_records
flushed-Grown s r ess = record {
  options = refl;
  same_path = refl;
  volume_le = omega (arith, total-snoc ess (buffered s));
  numbers_le = omega arith;
}

-- In an open store with room, that is with an interval of the sparse index that is not 0, where the
-- table of a flush and that of a compaction after it are within the limits of the format and two
-- numbers of tables are left, whose tables hold these entries, flushInternal without faults of the
-- disk, the compaction at its end included, ends with OK, in such a store with the same map. Manifest,
-- tables and log are enough to open it, where they were before. Path and options stay, the records
-- take no more bytes, and at most two numbers of tables are taken.
pub flush_internal-Kept :
    (stale : Bytes) (s : KvStore) (d : Disk) (ess : List (List KeyValueEntry))
    → Represents s d ess
    → HasRoom s ess
    → Kept (flush_internal reliable stale s d) s d ess 2
unfolding flush_internal
flush_internal-Kept stale s d ess h room = elim (Bool-cases (is_empty s.memtable.table)) [
  | inl empty ↦ rw (empty) (unchanged s d ess h 2)
  | inr full ↦
      let v : IsWritable s.options (buffered s) = record {
        stored = h.mem_stored;
        sorted = IsSorted-table_entries s.memtable.table h.mem_sorted;
        small = room.table;
      } in
      let w = write_from_mem_table-Saved (next_path s) s.memtable s.options d v in
      let d1 = set_file (next_path s) (some w.contents) d in
      let a =
        w.table.at (next_path s) s.options.enable_bloom_filter d1
          (file-set_file_self (next_path s) (some w.contents) d) in
      let s' = flushed_store s a.reader in
      let d' = flushed_disk s a.reader w.contents d in
      let fit : s.next_sst_seq + 2 < 2 ^ 64 = room.numbers in
      let out =
        maybe_compact-Kept stale s' d' (ess ++ buffered s ∷ [])
          (opened-Represents stale s d ess h w.contents a w.table (omega arith)) room.merged
          (omega arith) in
      rw (full, w.done, flushed-reliable s w.contents d a)
        (Kept-from _ s s' d d' ess (ess ++ buffered s ∷ []) 1 1 (flushed-view s a.reader ess)
          (flushed-Lasting s d h.layout a.reader w.contents (omega arith) a.path)
          (flushed-Grown s a.reader ess) out)
]
