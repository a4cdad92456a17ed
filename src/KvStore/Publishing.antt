-- ===== src/KvStore/Publishing.antt =====
-- `updateManifest`, and the addition of a table, without faults of the disk.
use lsm_tree_key_value_store.Prelude.{
  ℕ, ◌≡◌, refl, ap, ◌∙◌, sym, false, some, none, List, [], ◌∷◌, ◌++◌, Bytes, append_assoc,
  append-nil,
}
use lsm_tree_key_value_store.Prelude.Strings.{text, string_eq}
use lsm_tree_key_value_store.Types.{KeyValueEntry}
use lsm_tree_key_value_store.Status
use lsm_tree_key_value_store.Disk.{Disk, Stream, reliable, set_file, open_trunc}
use lsm_tree_key_value_store.Disk.Laws.{
  stream, write-write_behind, file-set_file_self, file-set_file_ne, rename_file-reliable,
}
use lsm_tree_key_value_store.SsTable.Reader.{SsTableReader}
use lsm_tree_key_value_store.SsTable.Reopen.{OpenedAs}
use lsm_tree_key_value_store.KvStore.{KvStore}
use lsm_tree_key_value_store.KvStore.Names.{file_name}
use lsm_tree_key_value_store.KvStore.Names.Paths.{
  table_path, manifest_file, manifest-ne-table_path, temp-ne-table_path,
}
use lsm_tree_key_value_store.KvStore.Flush.{write_names, publish, update_manifest, add_table}

-- The contents of a manifest of these tables.
unfoldable pub manifest_of : List SsTableReader → Bytes
manifest_of [] = []
manifest_of (r ∷ rs) = (file_name [] r.filepath ++ 10 ∷ []) ++ manifest_of rs

write_names-reliable :
    (rs : List SsTableReader) (p c : Bytes) (d : Disk)
    → write_names reliable rs (stream p, set_file p (some c) d)
      ≡ (stream p, set_file p (some (c ++ manifest_of rs)) d)
unfolding write_names manifest_of
write_names-reliable [] p c d = ap (λ bs. (stream p, set_file p (some bs) d)) (sym (append-nil c))
write_names-reliable (r ∷ rs) p c d =
    let line = file_name [] r.filepath ++ 10 ∷ [] in
    ap (write_names reliable rs) (write-write_behind (file_name [] r.filepath) (10 ∷ []) p c d)
    ∙ (write_names-reliable rs p (c ++ line) d
        ∙ ap (λ bs. (stream p, set_file p (some bs) d)) (append_assoc c line (manifest_of rs)))

-- The disk once the manifest at a path names these tables.
unfoldable pub published : Bytes → List SsTableReader → Disk → Disk
published path rs d =
    let temp = path ++ text ".tmp" in
    set_file path (some (manifest_of rs))
      (set_file temp none (set_file temp (some (manifest_of rs)) d))

publish-reliable :
    (temp path bs : Bytes) (d : Disk)
    → d.file temp ≡ some bs
    → publish reliable temp path d ≡ (Status.ok, set_file path (some bs) (set_file temp none d))
unfolding publish
publish-reliable temp path bs d e = rw (publish, rename_file-reliable temp path bs d e) refl

pub update_manifest-reliable :
    (s : KvStore) (d : Disk)
    → update_manifest reliable s d ≡ (Status.ok, published s.manifest_path s.sstables d)
unfolding update_manifest open_trunc published
update_manifest-reliable s d =
    let temp = s.manifest_path ++ text ".tmp" in
    let bs = manifest_of s.sstables in
    ap (λ (sd : Stream × Disk). publish reliable temp s.manifest_path sd.1)
      (write_names-reliable s.sstables temp [] d)
    ∙ publish-reliable temp s.manifest_path bs (set_file temp (some bs) d)
        (file-set_file_self temp (some bs) d)

pub published-file :
    (path q : Bytes) (rs : List SsTableReader) (d : Disk)
    → string_eq path q ≡ false
    → string_eq (path ++ text ".tmp") q ≡ false
    → (published path rs d).file q ≡ d.file q
unfolding published
published-file path q rs d no_path no_temp =
    let temp = path ++ text ".tmp" in
    file-set_file_ne path q _ _ no_path
    ∙ (file-set_file_ne temp q _ _ no_temp ∙ file-set_file_ne temp q _ d no_temp)

-- A table of the database is not touched by a new manifest.
pub published-table_path :
    (db : Bytes) (n : ℕ) (rs : List SsTableReader) (d : Disk)
    → (published (manifest_file db) rs d).file (table_path db n) ≡ d.file (table_path db n)
published-table_path db n rs d =
    published-file (manifest_file db) (table_path db n) rs d (manifest-ne-table_path db n)
      (temp-ne-table_path db n)

-- A table that opens is added, and the manifest names it.
pub add_table-reliable :
    (path : Bytes) (s : KvStore) (d : Disk) {es : List KeyValueEntry}
    (a : OpenedAs path s.options.enable_bloom_filter d es)
    → add_table reliable path s d ≡ (
      Status.ok,
      record s { sstables = s.sstables ++ a.reader ∷ [] },
      published s.manifest_path (s.sstables ++ a.reader ∷ []) d,
    )
unfolding add_table
add_table-reliable path s d a =
    rw (a.done, update_manifest-reliable (record s { sstables = s.sstables ++ a.reader ∷ [] }) d)
      refl
