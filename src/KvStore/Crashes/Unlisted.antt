-- ===== src/KvStore/Crashes/Unlisted.antt =====
-- A crash of a compaction between the deletion of its inputs and the new manifest.
use lsm_tree_key_value_store.Prelude.{
  ℕ, ◌≡◌, refl, ap, ◌∙◌, sym, arith, true, false, Option, none, some, List, [], ◌∷◌, Bytes,
}
use lsm_tree_key_value_store.Prelude.Strings.{string_eq, is_empty}
use lsm_tree_key_value_store.Prelude.SortedMap.{find, or_else}
use lsm_tree_key_value_store.Types.{KeyValueEntry}
use lsm_tree_key_value_store.Status
use lsm_tree_key_value_store.Status.{Status}
use lsm_tree_key_value_store.Disk.{Disk, reliable, set_file}
use lsm_tree_key_value_store.Wal.Replay.{WalRecord}
use lsm_tree_key_value_store.SsTable.Reader.{SsTableReader}
use lsm_tree_key_value_store.SsTable.Layout.{keyed}
use lsm_tree_key_value_store.SsTable.Limits.{IsSmall}
use lsm_tree_key_value_store.Compaction.Merge.{newest}
use lsm_tree_key_value_store.KvStore.{KvStore}
use lsm_tree_key_value_store.KvStore.Names.Paths.{
  table_path, manifest_file, wal_file, table_path-ne, table_path-ne-manifest, table_path-ne-wal,
  compact_temp-ne-wal, compact_temp-ne-manifest,
}
use lsm_tree_key_value_store.KvStore.Open.{open_store}
use lsm_tree_key_value_store.KvStore.Flush.{next_path}
use lsm_tree_key_value_store.KvStore.View.{shown, buffered, view, Represents}
use lsm_tree_key_value_store.KvStore.Reading.{get-view}
use lsm_tree_key_value_store.KvStore.Durable.{Durable, Lasting}
use lsm_tree_key_value_store.KvStore.Lasting.{Listed-frame}
use lsm_tree_key_value_store.Prelude.{Bool, All}
use lsm_tree_key_value_store.Prelude.SortedMap.{or_else-none}
use lsm_tree_key_value_store.Disk.{exists}
use lsm_tree_key_value_store.MemTable
use lsm_tree_key_value_store.Wal.Replay.Recovery.{encode_log}
use lsm_tree_key_value_store.SsTable.Writer.{table_entries}
use lsm_tree_key_value_store.Compaction
use lsm_tree_key_value_store.Compaction.Merge.{compacted_entries}
use lsm_tree_key_value_store.Compaction.Removal.{Gone}
use lsm_tree_key_value_store.Compaction.Run.{Compacted, compact-Tables}
use lsm_tree_key_value_store.KvStore.Names.Paths.{
  table_path-ne-manifest, compact_temp-ne-wal, compact_temp-ne-manifest,
}
use lsm_tree_key_value_store.KvStore.Open.{
  load_tables, recover, tables_loaded, load_database, open_closed,
}
use lsm_tree_key_value_store.KvStore.View.{paths_of, IsNamed, Readers-Tables, Readers-IsStored}
use lsm_tree_key_value_store.KvStore.Durable.{Numbered}
use lsm_tree_key_value_store.KvStore.Reloading.{names_for}
use lsm_tree_key_value_store.KvStore.Recovery.{loaded_store}
use lsm_tree_key_value_store.KvStore.Replaying.{
  exists-dir, names_found, recovered_store, recover-encode_log, table-replayed,
}
use lsm_tree_key_value_store.KvStore.Crashes.{Rereads}

module _ (s : KvStore) where
  -- The inputs are neither the manifest nor the log.
  inputs-ne :
      (q : Bytes)
      → ((n : ℕ) → string_eq (table_path s.db_path n) q ≡ false)
      → (rs : List SsTableReader) → All (IsNamed s.db_path s.next_sst_seq) rs
      → All (λ p. string_eq p q ≡ false) (paths_of rs)
  inputs-ne q ne [] h = tt
  inputs-ne q ne (r ∷ rs) ((n, lt, at), h) =
      (ap (λ p. string_eq p q) at ∙ ne n, inputs-ne q ne rs h)

  -- No file stands for these numbers any more.
  inputs_absent :
      (d : Disk) (ns : List ℕ) (rs : List SsTableReader)
      → Numbered s.db_path ns rs
      → All (IsNamed s.db_path s.next_sst_seq) rs
      → Gone (table_path s.db_path s.next_sst_seq) (paths_of rs) d
      → ((n : ℕ) → d.dir (table_path s.db_path n) ≡ false)
      → All (λ n. exists d (table_path s.db_path n) ≡ false) ns
  unfolding exists
  inputs_absent d [] rs h k g nodir = tt
  inputs_absent d (n ∷ ns) [] h k g nodir = absurd h
  inputs_absent d (n ∷ ns) (r ∷ rs) h ((m, lt, at), k) g nodir =
      let other =
        ap (λ p. string_eq p (table_path s.db_path s.next_sst_seq)) at
        ∙ table_path-ne s.db_path m s.next_sst_seq (λ e. absurd (omega arith)) in
      let gone : d.file (table_path s.db_path n) ≡ none = ap d.file (sym h.0.1) ∙ g.0 other in
      (rw (gone) (nodir n), inputs_absent d ns rs h.1 k g.1 nodir)

-- The loop over the names passes over all of them.
load_tables-absent :
    (d : Disk) (db : Bytes) (enable : Bool) (ns : List ℕ)
    → All (λ n. exists d (table_path db n) ≡ false) ns
    → load_tables reliable d db enable (names_for ns) [] 0 ≡ (Status.ok, [], 0)
unfolding load_tables
load_tables-absent d db enable [] h = refl
load_tables-absent d db enable (n ∷ ns) h =
    rw (h.0, load_tables) (load_tables-absent d db enable ns h.1)

module _ (s c : KvStore) (d' : Disk) (ns : List ℕ) (rs : List WalRecord) (u : Durable s d' ns rs)
    (absent : All (λ n. exists d' (table_path s.db_path n) ≡ false) ns) where
  abbrev left_store : KvStore
  left_store = recovered_store (loaded_store c s.db_path [] 0) rs

  abbrev left_disk : Disk
  left_disk = set_file (wal_file s.db_path) (some (encode_log rs)) d'

  recovers-absent :
      c.is_open ≡ false
      → open_store reliable s.db_path c d' ≡ recover reliable (loaded_store c s.db_path [] 0) d'
  unfolding open_store open_closed load_database tables_loaded
  recovers-absent closed =
      simp
        (
          closed,
          u.path,
          exists-dir d' s.db_path u.directory,
          names_found d' s.db_path ns s.sstables u.numbered u.manifest,
          load_tables-absent d' s.db_path c.options.enable_bloom_filter ns absent,
        )
        refl

  open_store-absent :
      c.is_open ≡ false
      → open_store reliable s.db_path c d' ≡ some (Status.ok, left_store, left_disk)
  open_store-absent closed =
      recovers-absent closed
      ∙ recover-encode_log (loaded_store c s.db_path [] 0) d' rs u.log u.logged

  left_table : left_store.memtable.table ≡ s.memtable.table
  unfolding MemTable.clear
  left_table = table-replayed rs (MemTable.clear c.memtable) ∙ sym u.buffer

  left-Represents :
      {d : Disk} {ess : List (List KeyValueEntry)}
      → Represents s d ess
      → Represents left_store left_disk []
  left-Represents h = record {
    is_open = refl;
    layout = record {
      manifest = refl;
      wal_path = refl;
      wal_open = refl;
      wal_good = refl;
      named = tt;
    };
    readers = tt;
    mem_sorted = rw (left_table) h.mem_sorted;
    mem_stored = rw (left_table) h.mem_stored;
  }

  left-view : (key : Bytes) → view left_store [] key ≡ shown (find key (keyed (buffered s)))
  unfolding view newest
  left-view key =
      ap (λ m. shown (or_else (find key (keyed (table_entries m))) none)) left_table
      ∙ ap shown (or_else-none (find key (keyed (buffered s))))

-- The compaction has written its table and deleted its inputs, and an opening then answers from this map.
pub record Unlisted (s c : KvStore) (d : Disk) (m : Bytes → Option Bytes) : Type 0 where
  pub disk : Disk
  pub compacted :
      Compaction.compact reliable [] (paths_of s.sstables) (next_path s) s.options true d
      ≡ some (Status.ok, disk)
  pub rereads : Rereads (open_store reliable s.db_path c disk) m

-- A crash of a compaction between the deletion of its inputs and the new manifest: in an open store
-- with tables, whose files are enough to open it, with an interval of the sparse index that is not 0,
-- where the merged table is within the limits of the format and no directory has the name of a table,
-- the compaction ends with OK without faults of the disk, and an `open` by a closed store on what is
-- there then ends with OK too, but in a store that answers from the memtable of the first store alone:
-- what was in its tables is not found.
pub lost_compaction-Rereads :
    (s c : KvStore) (d : Disk) (ess : List (List KeyValueEntry))
    → Represents s d ess
    → Lasting s d
    → is_empty (paths_of s.sstables) ≡ false
    → IsSmall s.options (compacted_entries ess)
    → ((n : ℕ) → d.dir (table_path s.db_path n) ≡ false)
    → c.is_open ≡ false
    → Unlisted s c d (λ key. shown (find key (keyed (buffered s))))
lost_compaction-Rereads s c d ess h (ns, rs, u) many small nodir closed =
    let db = s.db_path in
    let n = s.next_sst_seq in
    let l = h.layout in
    let (d', run, out) =
      compact-Tables [] (paths_of s.sstables) ess (next_path s) s.options d many
        (Readers-Tables d s.sstables ess h.readers) (Readers-IsStored d s.sstables ess h.readers)
        small in
    let out' : Compacted (paths_of s.sstables) ess (table_path db n) d d' =
      unfold next_path in out in
    let u' : Durable s d' ns rs = record {
      path = u.path;
      directory = ap (λ f. f db) out'.directories ∙ u.directory;
      numbered = u.numbered;
      manifest =
          Listed-frame d d' (manifest_file db) s.sstables
            (out'.others (manifest_file db) (table_path-ne-manifest db n)
              (compact_temp-ne-manifest db n)
              (inputs-ne s (manifest_file db) (table_path-ne-manifest db) s.sstables l.named))
            out'.directories u.manifest;
      log =
          out'.others (wal_file db) (table_path-ne-wal db n) (compact_temp-ne-wal db n)
            (inputs-ne s (wal_file db) (table_path-ne-wal db) s.sstables l.named)
          ∙ u.log;
      logged = u.logged;
      buffer = u.buffer;
    } in
    let absent =
      inputs_absent s d' ns s.sstables u.numbered l.named out'.removed
        (λ k. ap (λ f. f (table_path db k)) out'.directories ∙ nodir k) in
    record {
      disk = d';
      compacted = run;
      rereads = record {
        after = left_store s c d' ns rs u' absent;
        disk = left_disk s c d' ns rs u' absent;
        done = open_store-absent s c d' ns rs u' absent closed;
        answers = λ key ne. rw⁻¹ (left-view s c d' ns rs u' absent key) (
            get-view (left_disk s c d' ns rs u' absent) key (left_store s c d' ns rs u' absent) []
              (left-Represents s c d' ns rs u' absent h) ne);
      };
    }
