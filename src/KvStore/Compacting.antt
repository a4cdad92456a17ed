-- ===== src/KvStore/Compacting.antt =====
-- `compactInternal` without faults of the disk: one table stands for all.
use lsm_tree_key_value_store.Prelude.{
  ◌+◌, ◌%◌, ◌^◌, ◌<◌, ◌≡◌, refl, ap, ◌∙◌, sym, arith, false, some, none, List, [], ◌∷◌, Bytes,
  Option, length, ltb, Bool-cases, inl, inr,
}
use lsm_tree_key_value_store.Prelude.Strings.{is_empty}
use lsm_tree_key_value_store.Prelude.SortedMap.{find, or_else}
use lsm_tree_key_value_store.Types.{KeyValueEntry, is_tombstone}
use lsm_tree_key_value_store.Status
use lsm_tree_key_value_store.Status.{Status}
use lsm_tree_key_value_store.Disk.{Disk, reliable}
use lsm_tree_key_value_store.SsTable.Reader.{SsTableReader}
use lsm_tree_key_value_store.SsTable.Layout.{keyed}
use lsm_tree_key_value_store.SsTable.Limits.{IsSmall}
use lsm_tree_key_value_store.SsTable.Reopen.{OnDisk}
use lsm_tree_key_value_store.Compaction.Merge.{
  newest, live, compacted_entries, find-compacted_entries,
}
use lsm_tree_key_value_store.Compaction.Run.{Compacted, compact-Tables}
use lsm_tree_key_value_store.KvStore.{KvStore}
use lsm_tree_key_value_store.KvStore.Names.Paths.{table_path}
use lsm_tree_key_value_store.KvStore.Flush.{next_path, take_seq, compacted, compact_internal}
use lsm_tree_key_value_store.KvStore.View.{
  shown, buffered, view, paths_of, Readers, Readers-Tables, Readers-IsStored, Readers-IsSorted,
  Holds-frame, Represents,
}
use lsm_tree_key_value_store.KvStore.Publishing.{
  published, published-table_path, add_table-reliable,
}
use lsm_tree_key_value_store.KvStore.Volume.{Grown-refl, total, length-compacted_entries}
use lsm_tree_key_value_store.KvStore.Durable.{Kept}
use lsm_tree_key_value_store.KvStore.Lasting.{compacted_store, Compacted-Lasting}

-- What is shown is live.
shown-live : (a b : Option KeyValueEntry) → shown (or_else a (live b)) ≡ shown (or_else a b)
unfolding shown live
shown-live (some e) b = refl
shown-live none none = refl
shown-live none (some e) = elim (Bool-cases (is_tombstone e)) [
  | inl dead ↦ rw (dead) refl
  | inr alive ↦ rw (alive) (rw (alive) refl)
]

-- One table of the compacted entries shows what all the tables showed.
newest-compacted :
    (d : Disk) (rs : List SsTableReader) (ess : List (List KeyValueEntry)) (key : Bytes)
    → Readers d rs ess
    → newest key (compacted_entries ess ∷ []) ≡ live (newest key ess)
unfolding newest
newest-compacted d rs ess key h =
    find-compacted_entries ess (Readers-IsStored d rs ess h) key (Readers-IsSorted d rs ess h)

not_few : (rs : List SsTableReader) → ltb (length rs) 2 ≡ false → is_empty (paths_of rs) ≡ false
unfolding is_empty
not_few [] h = absurd (ground arith)
not_few (r ∷ rs) h = refl

module _ (stale : Bytes) (s : KvStore) (d : Disk) (ess : List (List KeyValueEntry))
    (h : Represents s d ess) where
  -- What the opening of the new table and the manifest leave.
  compacted-Kept :
      (d' : Disk)
      → Compacted (paths_of s.sstables) ess (next_path s) d d'
      → s.next_sst_seq + 1 < 2 ^ 64
      → Kept
          (some (
            compacted reliable
              (paths_of s.sstables)
              (next_path s)
              (record (take_seq s) { sstables = [] })
              (Status.ok, d')))
          s
          d
          ess
          1
  unfolding compacted take_seq next_path view
  compacted-Kept d' out fit =
      let l = h.layout in
      let path = table_path s.db_path s.next_sst_seq in
      let a = out.table.table.at path s.options.enable_bloom_filter d' out.table.file in
      let disk = published s.manifest_path (a.reader ∷ []) d' in
      let same : disk.file path ≡ d'.file path =
        ap (λ p. (published p (a.reader ∷ []) d').file path) l.manifest
        ∙ published-table_path s.db_path s.next_sst_seq (a.reader ∷ []) d' in
      let same_reader : disk.file a.reader.filepath ≡ d'.file a.reader.filepath =
        ap disk.file a.path ∙ (same ∙ sym (ap d'.file a.path)) in
      let on : OnDisk disk a.reader.filepath (compacted_entries ess) = record {
        contents = out.table.contents;
        file = same_reader ∙ (ap d'.file a.path ∙ out.table.file);
        table = out.table.table;
      } in
      let more : (s.next_sst_seq + 1) % 2 ^ 64 ≡ s.next_sst_seq + 1 = omega arith in
      record {
        after = compacted_store s a.reader;
        disk = disk;
        entries = compacted_entries ess ∷ [];
        done = ap some (add_table-reliable path (record (take_seq s) { sstables = [] }) d' a);
        represents = record {
          is_open = h.is_open;
          layout = record {
            manifest = l.manifest;
            wal_path = l.wal_path;
            wal_open = l.wal_open;
            wal_good = l.wal_good;
            named = ((s.next_sst_seq, omega arith, a.path), tt);
          };
          readers =
              ((Holds-frame d' disk a.reader (compacted_entries ess) same_reader a.holds, on), tt);
          mem_sorted = h.mem_sorted;
          mem_stored = h.mem_stored;
        };
        same_view = λ key.
            ap (λ n. shown (or_else (find key (keyed (buffered s))) n))
              (newest-compacted d s.sstables ess key h.readers)
            ∙ shown-live (find key (keyed (buffered s))) (newest key ess);
        lasting = Compacted-Lasting s d l a.reader ess d' out fit a.path;
        grown = record {
          options = refl;
          same_path = refl;
          volume_le = unfold total in omega (arith, length-compacted_entries ess);
          numbers_le = omega arith;
        };
      }

  -- In an open store whose tables hold these entries, with an interval of the sparse index that is not
  -- 0, where the merged table is within the limits of the format and the next number is below 2^64 -
  -- 1, compactInternal without faults of the disk ends with OK, in such a store with the same map.
  -- Manifest, tables and log are enough to open it, where they were before. Path and options stay, the
  -- records take no more bytes, and at most one number of a table is taken.
  pub compact_internal-Kept :
      IsSmall s.options (compacted_entries ess)
      → s.next_sst_seq + 1 < 2 ^ 64
      → Kept (compact_internal reliable stale s d) s d ess 1
  unfolding compact_internal
  compact_internal-Kept small fit = elim (Bool-cases (ltb (length s.sstables) 2)) [
    | inl few ↦ record {
      after = s;
      disk = d;
      entries = ess;
      done = rw (few) refl;
      represents = h;
      same_view = λ key. refl;
      lasting = λ k. k;
      grown = Grown-refl 1 s ess;
    }
    | inr many ↦
        let (d', run, out) =
          compact-Tables stale (paths_of s.sstables) ess (next_path s) s.options d
            (not_few s.sstables many) (Readers-Tables d s.sstables ess h.readers)
            (Readers-IsStored d s.sstables ess h.readers) small in
        let k = compacted-Kept d' out fit in
        record {
          after = k.after;
          disk = k.disk;
          entries = k.entries;
          done = rw (many) (rw (run) k.done);
          represents = k.represents;
          same_view = k.same_view;
          lasting = k.lasting;
          grown = k.grown;
        }
  ]
