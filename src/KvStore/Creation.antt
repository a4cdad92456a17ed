-- ===== src/KvStore/Creation.antt =====
-- `KVStore::open` on a path where nothing is: a new database.
use lsm_tree_key_value_store.Prelude.{
  ◌≡◌, refl, ap, ◌∙◌, sym, Bool, true, false, Option, none, some, [], ◌++◌, Bytes, append-nil, ◌||◌,
  inr,
}
use lsm_tree_key_value_store.Prelude.Strings.{text, string_eq, string_eq_refl, is_empty}
use lsm_tree_key_value_store.Prelude.SortedMap.{find}
use lsm_tree_key_value_store.Status
use lsm_tree_key_value_store.Status.{Status}
use lsm_tree_key_value_store.Disk.{
  Disk, reliable, exists, open_append, set_file, contents, or_empty, is_some, create_directories,
}
use lsm_tree_key_value_store.Disk.Laws.{file-set_file_self, file-set_file_ne}
use lsm_tree_key_value_store.MemTable
use lsm_tree_key_value_store.Wal
use lsm_tree_key_value_store.Wal.Replay.Recovery.{encode_log}
use lsm_tree_key_value_store.SsTable.Writer.{table_entries}
use lsm_tree_key_value_store.SsTable.Layout.{keyed}
use lsm_tree_key_value_store.Compaction.Merge.{newest}
use lsm_tree_key_value_store.KvStore.{KvStore}
use lsm_tree_key_value_store.KvStore.Names.Paths.{
  string_eq-append, manifest_file, wal_file, wal-ne-manifest,
}
use lsm_tree_key_value_store.KvStore.Open.{
  load_tables, open_wal, recover, tables_loaded, load_database, open_closed, open_store,
}
use lsm_tree_key_value_store.KvStore.View.{shown, view, Represents}
use lsm_tree_key_value_store.KvStore.Durable.{Lasting}
use lsm_tree_key_value_store.KvStore.Lasting.{exists-frame}

-- Nothing is at the path, nor under the two names that `open` looks for.
pub record IsVacant (d : Disk) (db : Bytes) : Type 0 where
  pub here : exists d db ≡ false
  pub no_manifest : exists d (manifest_file db) ≡ false
  pub no_log : exists d (wal_file db) ≡ false

-- The disk with the directory.
abbrev pub made : Bytes → Disk → Disk
made db d = record d { dir = λ q. string_eq db q || d.dir q }

string_eq-below : (db : Bytes) (c : Bytes) → string_eq db (db ++ c) ≡ string_eq [] c
string_eq-below db c =
    ap (λ a. string_eq a (db ++ c)) (sym (append-nil db)) ∙ string_eq-append db [] c

exists-made :
    (db c : Bytes) (d : Disk)
    → string_eq [] c ≡ false
    → exists d (db ++ c) ≡ false
    → exists (made db d) (db ++ c) ≡ false
unfolding exists
exists-made db c d ne h = rw (string_eq-below db c ∙ ne) h

-- The new store, its log open.
abbrev pub new_store : KvStore → Bytes → KvStore
new_store c db = record c {
  db_path = db;
  manifest_path = manifest_file db;
  sstables = [];
  next_sst_seq = 1;
  wal_path = wal_file db;
  memtable = MemTable.clear c.memtable;
  wal = record { filepath = wal_file db; is_open = true; good = true };
  is_open = true;
}

or_empty-absent : (f : Option Bytes) (b : Bool) → (is_some f || b) ≡ false → or_empty f ≡ []
or_empty-absent none b h = refl
or_empty-absent (some bs) b h = cc

contents-absent : (d : Disk) (p : Bytes) → exists d p ≡ false → contents d p ≡ []
unfolding exists contents
contents-absent d p h = or_empty-absent (d.file p) (d.dir p) h

abbrev pub new_disk : Bytes → Disk → Disk
new_disk db d = set_file (wal_file db) (some []) (made db d)

pub open_store-new :
    (c : KvStore) (d : Disk) (db : Bytes)
    → c.is_open ≡ false
    → is_empty db ≡ false
    → IsVacant d db
    → open_store reliable db c d ≡ some (Status.ok, new_store c db, new_disk db d)
unfolding open_store open_closed load_database load_tables tables_loaded recover open_wal
    create_directories Wal.open_log Wal.close open_append
open_store-new c d db closed ne v =
    let manifest : exists (made db d) (manifest_file db) ≡ false =
      exists-made db (text "/manifest.txt") d (unfold text string_eq in refl) v.no_manifest in
    let log : exists (made db d) (wal_file db) ≡ false =
      exists-made db (text "/wal.log") d (unfold text string_eq in refl) v.no_log in
    simp (closed, ne, v.here, manifest, log, contents-absent (made db d) (wal_file db) log) refl

new-no_manifest :
    (d : Disk) (db : Bytes) → IsVacant d db → exists (new_disk db d) (manifest_file db) ≡ false
unfolding set_file
new-no_manifest d db v =
    exists-frame (made db d) (new_disk db d) (manifest_file db)
      (file-set_file_ne (wal_file db) (manifest_file db) (some []) (made db d) (wal-ne-manifest db))
      refl
    ∙ exists-made db (text "/manifest.txt") d (unfold text string_eq in refl) v.no_manifest

pub new-Represents :
    (c : KvStore) (d : Disk) (db : Bytes) → Represents (new_store c db) (new_disk db d) []
unfolding MemTable.clear table_entries
new-Represents c d db = record {
  is_open = refl;
  layout = record {
    manifest = refl;
    wal_path = refl;
    wal_open = refl;
    wal_good = refl;
    named = tt;
  };
  readers = tt;
  mem_sorted = tt;
  mem_stored = tt;
}

pub new-Lasting :
    (c : KvStore) (d : Disk) (db : Bytes)
    → is_empty db ≡ false
    → IsVacant d db
    → Lasting (new_store c db) (new_disk db d)
unfolding MemTable.clear set_file encode_log
new-Lasting c d db ne v = (
  [],
  [],
  record {
    path = ne;
    directory = ap (λ b. b || d.dir db) (string_eq_refl db);
    numbered = tt;
    manifest = inr (new-no_manifest d db v, refl);
    log = file-set_file_self (wal_file db) (some []) (made db d);
    logged = tt;
    buffer = refl;
  },
)

pub view-new : (c : KvStore) (db key : Bytes) → view (new_store c db) [] key ≡ none
unfolding MemTable.clear view shown find keyed newest table_entries
view-new c db key = refl

-- Where nothing is at a path, nor under the two names below it that `open` looks for, `open` in a store
-- that is closed makes a new database there, without faults of the disk: it ends with OK in an open store
-- without entries, which can be opened again.
pub open_store-IsVacant :
    (c : KvStore) (d : Disk) (db : Bytes)
    → c.is_open ≡ false
    → is_empty db ≡ false
    → IsVacant d db
    → (s : KvStore) × (d' : Disk) × (open_store reliable db c d ≡ some (Status.ok, s, d'))
      × Represents s d' []
      × Lasting s d'
      × ((key : Bytes) → view s [] key ≡ none)
open_store-IsVacant c d db closed ne v = (
  new_store c db,
  new_disk db d,
  open_store-new c d db closed ne v,
  new-Represents c d db,
  new-Lasting c d db ne v,
  view-new c db,
)
