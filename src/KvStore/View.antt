-- ===== src/KvStore/View.antt =====
-- What a store holds: tables of entries, the oldest first, and the memtable above them.
use lsm_tree_key_value_store.Prelude.{
  ℕ, ◌<◌, ◌≤◌, arith, ◌≡◌, ap, ◌∙◌, sym, true, Option, none, some, List, [], ◌∷◌, ◌++◌, Bytes, All,
  map, if◌then◌else◌,
}
use lsm_tree_key_value_store.Prelude.SortedMap.{
  find, IsSorted, or_else, or_else_assoc, or_else-none,
}
use lsm_tree_key_value_store.Types.{KeyValueEntry, is_tombstone}
use lsm_tree_key_value_store.Disk.{Disk}
use lsm_tree_key_value_store.SsTable.Reader.{SsTableReader}
use lsm_tree_key_value_store.SsTable.Writer.{table_entries}
use lsm_tree_key_value_store.SsTable.Layout.{IsStored, keyed}
use lsm_tree_key_value_store.SsTable.Lookup.{Holds}
use lsm_tree_key_value_store.SsTable.Reopen.{OnDisk, Tables, OnDisk-frame}
use lsm_tree_key_value_store.Compaction.Merge.{newest}
use lsm_tree_key_value_store.KvStore.{KvStore}
use lsm_tree_key_value_store.KvStore.Names.Paths.{table_path, manifest_file, wal_file}

-- The value that an entry shows: none for a tombstone.
unfoldable pub shown : Option KeyValueEntry → Option Bytes
shown none = none
shown (some e) = if is_tombstone e then none else some e.value

-- The entries of the memtable.
abbrev pub buffered : KvStore → List KeyValueEntry
buffered s = table_entries s.memtable.table

-- The map from keys to values that the store stands for, where its tables hold these entries.
unfoldable pub view : KvStore → List (List KeyValueEntry) → Bytes → Option Bytes
unfolding shown
view s ess key = shown (or_else (find key (keyed (buffered s))) (newest key ess))

-- The readers are open on files that hold these entries.
abbrev pub Readers : Disk → List SsTableReader → List (List KeyValueEntry) → Type 0
Readers d [] [] = Unit
Readers d [] (es ∷ ess) = ⊥
Readers d (r ∷ rs) [] = ⊥
Readers d (r ∷ rs) (es ∷ ess) = (Holds d r es × OnDisk d r.filepath es) × Readers d rs ess

abbrev pub paths_of : List SsTableReader → List Bytes
paths_of rs = map (λ (r : SsTableReader). r.filepath) rs

pub Readers-Tables :
    (d : Disk) (rs : List SsTableReader) (ess : List (List KeyValueEntry))
    → Readers d rs ess
    → Tables d (paths_of rs) ess
Readers-Tables d [] [] h = tt
Readers-Tables d [] (es ∷ ess) h = absurd h
Readers-Tables d (r ∷ rs) [] h = absurd h
Readers-Tables d (r ∷ rs) (es ∷ ess) h = (h.0.1, Readers-Tables d rs ess h.1)

pub Readers-IsStored :
    (d : Disk) (rs : List SsTableReader) (ess : List (List KeyValueEntry))
    → Readers d rs ess
    → All (All IsStored) ess
Readers-IsStored d [] [] h = tt
Readers-IsStored d [] (es ∷ ess) h = absurd h
Readers-IsStored d (r ∷ rs) [] h = absurd h
Readers-IsStored d (r ∷ rs) (es ∷ ess) h = (h.0.0.stored, Readers-IsStored d rs ess h.1)

pub Readers-IsSorted :
    (d : Disk) (rs : List SsTableReader) (ess : List (List KeyValueEntry))
    → Readers d rs ess
    → All (λ es. IsSorted (keyed es)) ess
Readers-IsSorted d [] [] h = tt
Readers-IsSorted d [] (es ∷ ess) h = absurd h
Readers-IsSorted d (r ∷ rs) [] h = absurd h
Readers-IsSorted d (r ∷ rs) (es ∷ ess) h = (h.0.0.sorted, Readers-IsSorted d rs ess h.1)

pub Holds-frame :
    (d d' : Disk) (r : SsTableReader) (es : List KeyValueEntry)
    → d'.file r.filepath ≡ d.file r.filepath
    → Holds d r es
    → Holds d' r es
Holds-frame d d' r es same h = record {
  is_open = h.is_open;
  at_header = h.at_header;
  data_size = h.data_size;
  fits = h.fits;
  stored = h.stored;
  sorted = h.sorted;
  sampled = h.sampled;
  reported = h.reported;
  bytes = h.bytes;
  post = h.post;
  file = same ∙ h.file;
  records = h.records;
}

-- Tables are not touched by a change of other files.
pub Readers-frame :
    (d d' : Disk) (rs : List SsTableReader) (ess : List (List KeyValueEntry))
    → All (λ (r : SsTableReader). d'.file r.filepath ≡ d.file r.filepath) rs
    → Readers d rs ess
    → Readers d' rs ess
Readers-frame d d' [] [] same h = tt
Readers-frame d d' [] (es ∷ ess) same h = absurd h
Readers-frame d d' (r ∷ rs) [] same h = absurd h
Readers-frame d d' (r ∷ rs) (es ∷ ess) same h = (
  (Holds-frame d d' r es same.0 h.0.0, OnDisk-frame d d' r.filepath es same.0 h.0.1),
  Readers-frame d d' rs ess same.1 h.1,
)

pub Readers-snoc :
    (d : Disk) (rs : List SsTableReader) (ess : List (List KeyValueEntry)) (r : SsTableReader)
    (es : List KeyValueEntry)
    → Readers d rs ess
    → Holds d r es
    → OnDisk d r.filepath es
    → Readers d (rs ++ r ∷ []) (ess ++ es ∷ [])
Readers-snoc d [] [] r es h hold on = ((hold, on), tt)
Readers-snoc d [] (x ∷ ess) r es h hold on = absurd h
Readers-snoc d (q ∷ rs) [] r es h hold on = absurd h
Readers-snoc d (q ∷ rs) (x ∷ ess) r es h hold on = (h.0, Readers-snoc d rs ess r es h.1 hold on)

-- A table above the others is looked at first.
pub newest-snoc :
    (key : Bytes) (ess : List (List KeyValueEntry)) (es : List KeyValueEntry)
    → newest key (ess ++ es ∷ []) ≡ or_else (find key (keyed es)) (newest key ess)
unfolding newest
newest-snoc key [] es = sym (or_else-none (find key (keyed es)))
newest-snoc key (x ∷ ess) es =
    ap (λ n. or_else n (find key (keyed x))) (newest-snoc key ess es)
    ∙ or_else_assoc (find key (keyed es)) (newest key ess) (find key (keyed x))

-- A reader is open on a table of this database with a smaller number than this.
abbrev pub IsNamed : Bytes → ℕ → SsTableReader → Type 0
IsNamed db seq r = (n : ℕ) × (n < seq) × (r.filepath ≡ table_path db n)

-- The paths of an open store belong together, and its log is open.
pub record IsLaidOut (s : KvStore) : Type 0 where
  pub manifest : s.manifest_path ≡ manifest_file s.db_path
  pub wal_path : s.wal.filepath ≡ wal_file s.db_path
  pub wal_open : s.wal.is_open ≡ true
  pub wal_good : s.wal.good ≡ true
  pub named : All (IsNamed s.db_path s.next_sst_seq) s.sstables

-- The state of an open store whose tables hold these entries.
pub record Represents (s : KvStore) (d : Disk) (ess : List (List KeyValueEntry)) : Type 0 where
  pub is_open : s.is_open ≡ true
  pub layout : IsLaidOut s
  pub readers : Readers d s.sstables ess
  pub mem_sorted : IsSorted s.memtable.table
  pub mem_stored : All IsStored (buffered s)

-- Numbers that are smaller stay smaller.
pub IsNamed-weaken :
    (db : Bytes) (n m : ℕ) (rs : List SsTableReader)
    → n ≤ m
    → All (IsNamed db n) rs
    → All (IsNamed db m) rs
IsNamed-weaken db n m [] le h = tt
IsNamed-weaken db n m (r ∷ rs) le ((k, lt, at), h) =
    ((k, omega arith, at), IsNamed-weaken db n m rs le h)

pub IsNamed-snoc :
    (db : Bytes) (n : ℕ) (rs : List SsTableReader) (r : SsTableReader)
    → All (IsNamed db n) rs
    → IsNamed db n r
    → All (IsNamed db n) (rs ++ r ∷ [])
IsNamed-snoc db n [] r h g = (g, tt)
IsNamed-snoc db n (q ∷ rs) r h g = (h.0, IsNamed-snoc db n rs r h.1 g)

-- A change of the disk that leaves the tables below a number alone leaves these readers' files alone.
pub IsNamed-same :
    (db : Bytes) (seq : ℕ) (d d' : Disk) (rs : List SsTableReader)
    → ((n : ℕ) → n < seq → d'.file (table_path db n) ≡ d.file (table_path db n))
    → All (IsNamed db seq) rs
    → All (λ (r : SsTableReader). d'.file r.filepath ≡ d.file r.filepath) rs
IsNamed-same db seq d d' [] same h = tt
IsNamed-same db seq d d' (r ∷ rs) same ((n, lt, at), h) =
    (ap d'.file at ∙ (same n lt ∙ sym (ap d.file at)), IsNamed-same db seq d d' rs same h)
