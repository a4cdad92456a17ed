-- ===== src/KvStore/Crashes/BeforeReset.antt =====
-- A crash of a flush between the new manifest and the clearing of the log.
use lsm_tree_key_value_store.Prelude.{
  ◌+◌, ◌%◌, ◌^◌, ◌<◌, ◌≡◌, refl, ap, ◌∙◌, sym, false, Option, none, some, List, [], ◌∷◌, ◌++◌,
  Bytes, inl,
}
use lsm_tree_key_value_store.Prelude.Strings.{string_eq}
use lsm_tree_key_value_store.Prelude.SortedMap.{find, or_else}
use lsm_tree_key_value_store.Types.{KeyValueEntry}
use lsm_tree_key_value_store.Status
use lsm_tree_key_value_store.Status.{Status}
use lsm_tree_key_value_store.Disk.{Disk, reliable, set_file}
use lsm_tree_key_value_store.Disk.Laws.{file-set_file_self, file-set_file_ne}
use lsm_tree_key_value_store.SsTable.Reader.{SsTableReader}
use lsm_tree_key_value_store.SsTable.Writer.{write_from_mem_table}
use lsm_tree_key_value_store.SsTable.Layout.{keyed}
use lsm_tree_key_value_store.SsTable.Limits.{IsSmall, IsWritable}
use lsm_tree_key_value_store.SsTable.Reopen.{OpenedAs, write_from_mem_table-Saved}
use lsm_tree_key_value_store.Compaction.Merge.{newest}
use lsm_tree_key_value_store.KvStore.{KvStore}
use lsm_tree_key_value_store.KvStore.Names.Paths.{
  table_path, manifest_file, wal_file, table_path-ne-wal, wal-ne-table_path,
}
use lsm_tree_key_value_store.KvStore.Open.{open_store}
use lsm_tree_key_value_store.KvStore.Flush.{next_path, take_seq, add_table}
use lsm_tree_key_value_store.KvStore.View.{
  shown, buffered, view, Represents, Readers-frame, IsNamed-same, newest-snoc,
}
use lsm_tree_key_value_store.KvStore.Durable.{Lasting, Numbered-snoc}
use lsm_tree_key_value_store.KvStore.Publishing.{published, add_table-reliable}
use lsm_tree_key_value_store.KvStore.Lasting.{published-manifest, published-wal}
use lsm_tree_key_value_store.KvStore.Flushing.{flushed_store, flushed_disk}
use lsm_tree_key_value_store.KvStore.Persisting.{IsSorted-table_entries, opened-Represents}
use lsm_tree_key_value_store.KvStore.Recovery.{open_store-view}
use lsm_tree_key_value_store.KvStore.Crashes.{Rereads, Reopened-Rereads}

or_else-twice : (a b : Option KeyValueEntry) → or_else a (or_else a b) ≡ or_else a b
or_else-twice none b = refl
or_else-twice (some e) b = refl

-- The store between the new manifest of a flush and the clearing of the log.
abbrev listed_store : KvStore → SsTableReader → KvStore
listed_store s r = record s {
  next_sst_seq = (s.next_sst_seq + 1) % 2 ^ 64;
  sstables = s.sstables ++ r ∷ [];
}

-- The entries of the memtable are then in a table too, which changes nothing.
listed-view :
    (s : KvStore) (r : SsTableReader) (ess : List (List KeyValueEntry)) (key : Bytes)
    → view (listed_store s r) (ess ++ buffered s ∷ []) key ≡ view s ess key
unfolding view
listed-view s r ess key =
    ap (λ n. shown (or_else (find key (keyed (buffered s))) n)) (newest-snoc key ess (buffered s))
    ∙ ap shown (or_else-twice (find key (keyed (buffered s))) (newest key ess))

module _ (s : KvStore) (d : Disk) (ess : List (List KeyValueEntry)) (h : Represents s d ess)
    (c : Bytes)
    (a : OpenedAs
      (next_path s)
      s.options.enable_bloom_filter
      (set_file (next_path s) (some c) d)
      (buffered s))
    (fit : s.next_sst_seq + 1 < 2 ^ 64) where
  abbrev listed_disk : Disk
  listed_disk =
      published s.manifest_path (s.sstables ++ a.reader ∷ []) (set_file (next_path s) (some c) d)

  listed-Represents :
      Represents (flushed_store s a.reader) (flushed_disk s a.reader c d) (ess ++ buffered s ∷ [])
      → Represents (listed_store s a.reader) listed_disk (ess ++ buffered s ∷ [])
  unfolding flushed_disk
  listed-Represents f =
      let l = f.layout in
      record {
        is_open = h.is_open;
        layout = record {
          manifest = l.manifest;
          wal_path = l.wal_path;
          wal_open = h.layout.wal_open;
          wal_good = h.layout.wal_good;
          named = l.named;
        };
        readers =
            Readers-frame (flushed_disk s a.reader c d) listed_disk (s.sstables ++ a.reader ∷ [])
              (ess ++ buffered s ∷ [])
              (IsNamed-same s.db_path ((s.next_sst_seq + 1) % 2 ^ 64) (flushed_disk s a.reader c d)
                listed_disk (s.sstables ++ a.reader ∷ [])
                (λ n lt. sym (
                  file-set_file_ne s.wal.filepath (table_path s.db_path n) (some []) listed_disk (
                    ap (λ p. string_eq p (table_path s.db_path n)) l.wal_path
                    ∙ wal-ne-table_path s.db_path n)))
                l.named)
              f.readers;
        mem_sorted = h.mem_sorted;
        mem_stored = h.mem_stored;
      }

  listed-Lasting : Lasting s d → Lasting (listed_store s a.reader) listed_disk
  unfolding next_path set_file published
  listed-Lasting (ns, rs, u) =
      let db = s.db_path in
      let all = s.sstables ++ a.reader ∷ [] in
      let d1 = set_file (next_path s) (some c) d in
      (
        ns ++ s.next_sst_seq ∷ [],
        rs,
        record {
          path = u.path;
          directory = u.directory;
          numbered = Numbered-snoc db s.next_sst_seq ns s.sstables a.reader u.numbered fit a.path;
          manifest = inl (
              ap (λ p. (published p all d1).file (manifest_file db)) h.layout.manifest
              ∙ published-manifest (manifest_file db) all d1);
          log =
              ap (λ p. (published p all d1).file (wal_file db)) h.layout.manifest
              ∙ (published-wal db all d1
                  ∙ (file-set_file_ne (next_path s) (wal_file db) (some c) d
                        (table_path-ne-wal db s.next_sst_seq)
                      ∙ u.log));
          logged = u.logged;
          buffer = u.buffer;
        },
      )

-- The table of a flush is written and the manifest names it, but the log is not cleared; an opening then
-- answers from this map.
pub record Unreset (s c : KvStore) (d : Disk) (m : Bytes → Option Bytes) : Type 0 where
  pub table_disk : Disk
  pub table_written :
      write_from_mem_table reliable (next_path s) s.memtable s.options d ≡ (Status.ok, table_disk)
  pub next : KvStore
  pub manifest_disk : Disk
  pub manifest_written :
      add_table reliable (next_path s) (take_seq s) table_disk ≡ (Status.ok, next, manifest_disk)
  pub rereads : Rereads (open_store reliable s.db_path c manifest_disk) m

-- A crash of a flush between the new manifest and the clearing of the log: in an open store whose
-- files are enough to open it, with an interval of the sparse index that is not 0, where the new table
-- is within the limits of the format and its number is below 2^64 - 1, the table is written and the
-- manifest names it, without faults of the disk, and an `open` by a closed store on what is there then
-- ends with OK in a store that answers each key that is not empty as the store before the flush did.
pub flush_crash-Rereads :
    (s c : KvStore) (d : Disk) (ess : List (List KeyValueEntry))
    → Represents s d ess
    → Lasting s d
    → IsSmall s.options (buffered s)
    → s.next_sst_seq + 1 < 2 ^ 64
    → c.is_open ≡ false
    → Unreset s c d (view s ess)
flush_crash-Rereads s c d ess h k small fit closed =
    let v : IsWritable s.options (buffered s) = record {
      stored = h.mem_stored;
      sorted = IsSorted-table_entries s.memtable.table h.mem_sorted;
      small = small;
    } in
    let w = write_from_mem_table-Saved (next_path s) s.memtable s.options d v in
    let d1 = set_file (next_path s) (some w.contents) d in
    let a =
      w.table.at (next_path s) s.options.enable_bloom_filter d1
        (file-set_file_self (next_path s) (some w.contents) d) in
    let f = opened-Represents [] s d ess h w.contents a w.table fit in
    let (ns, rs, u) = listed-Lasting s d ess h w.contents a fit k in
    record {
      table_disk = d1;
      table_written = w.done;
      next = listed_store s a.reader;
      manifest_disk = listed_disk s d ess h w.contents a fit;
      manifest_written = unfold take_seq in add_table-reliable (next_path s) (take_seq s) d1 a;
      rereads =
          Reopened-Rereads _ c (listed_store s a.reader) (ess ++ buffered s ∷ []) (view s ess)
            (open_store-view (listed_store s a.reader) _ (ess ++ buffered s ∷ []) ns rs
              (listed-Represents s d ess h w.contents a fit f) u c closed)
            (listed-view s a.reader ess);
    }
