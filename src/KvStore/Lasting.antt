-- ===== src/KvStore/Lasting.antt =====
-- The flush, the compaction and the mutation of one entry leave on disk what the next `open` needs.
use lsm_tree_key_value_store.Prelude.{
  ◌+◌, ◌%◌, ◌^◌, ◌<◌, ◌≡◌, refl, ap, ◌∙◌, sym, false, some, List, [], ◌∷◌, ◌++◌, Bytes, All, inl,
  inr, append-nil, append_assoc,
}
use mathlib.Core.List.{foldl}
use lsm_tree_key_value_store.Prelude.Strings.{string_eq}
use lsm_tree_key_value_store.Types.{KeyValueEntry}
use lsm_tree_key_value_store.Disk.{Disk, set_file, contents, exists, or_empty}
use lsm_tree_key_value_store.Frame.{encode}
use lsm_tree_key_value_store.Disk.Laws.{file-set_file_self, file-set_file_ne}
use lsm_tree_key_value_store.MemTable
use lsm_tree_key_value_store.MemTable.{MemTable, MemTableEntry}
use lsm_tree_key_value_store.Wal.Replay.{WalRecord}
use lsm_tree_key_value_store.Wal.Replay.Recovery.{encode_log, IsLogged}
use lsm_tree_key_value_store.SsTable.Reader.{SsTableReader}
use lsm_tree_key_value_store.Compaction.Run.{Compacted}
use lsm_tree_key_value_store.KvStore.{KvStore}
use lsm_tree_key_value_store.KvStore.Names.Paths.{
  manifest_file, wal_file, table_path-ne-wal, manifest-ne-wal, wal-ne-manifest, temp-ne-wal,
  compact_temp-ne-wal,
}
use lsm_tree_key_value_store.KvStore.Flush.{next_path}
use lsm_tree_key_value_store.KvStore.View.{IsNamed, IsLaidOut, paths_of}
use lsm_tree_key_value_store.KvStore.Publishing.{manifest_of, published, published-file}
use lsm_tree_key_value_store.KvStore.Durable.{apply_entry, Listed, Numbered-snoc, Lasting}
use lsm_tree_key_value_store.KvStore.Flushing.{flushed_store, flushed_disk}

pub published-manifest :
    (path : Bytes) (rs : List SsTableReader) (d : Disk)
    → (published path rs d).file path ≡ some (manifest_of rs)
unfolding published
published-manifest path rs d = file-set_file_self path _ _

published-dir :
    (path : Bytes) (rs : List SsTableReader) (d : Disk) → (published path rs d).dir ≡ d.dir
unfolding published set_file
published-dir path rs d = refl

pub published-wal :
    (db : Bytes) (rs : List SsTableReader) (d : Disk)
    → (published (manifest_file db) rs d).file (wal_file db) ≡ d.file (wal_file db)
published-wal db rs d =
    published-file (manifest_file db) (wal_file db) rs d (manifest-ne-wal db) (temp-ne-wal db)

-- The store after a compaction.
abbrev pub compacted_store : KvStore → SsTableReader → KvStore
compacted_store s r = record s { next_sst_seq = (s.next_sst_seq + 1) % 2 ^ 64; sstables = r ∷ [] }

pub exists-frame :
    (d d' : Disk) (p : Bytes) → d'.file p ≡ d.file p → d'.dir ≡ d.dir → exists d' p ≡ exists d p
unfolding exists
exists-frame d d' p same dirs = rw (same, ap (λ f. f p) dirs) refl

pub Listed-frame :
    (d d' : Disk) (p : Bytes) (rs : List SsTableReader)
    → d'.file p ≡ d.file p
    → d'.dir ≡ d.dir
    → Listed d p rs
    → Listed d' p rs
Listed-frame d d' p rs same dirs (inl e) = inl (same ∙ e)
Listed-frame d d' p rs same dirs (inr (absent, e)) = inr (exists-frame d d' p same dirs ∙ absent, e)

encode_log-snoc :
    (rs : List WalRecord) (r : WalRecord)
    → encode_log (rs ++ r ∷ []) ≡ encode_log rs ++ encode r.type r.key r.value
unfolding encode_log
encode_log-snoc [] r = append-nil (encode r.type r.key r.value)
encode_log-snoc (q ∷ rs) r =
    ap (λ bs. encode q.type q.key q.value ++ bs) (encode_log-snoc rs r)
    ∙ sym (append_assoc (encode q.type q.key q.value) (encode_log rs) (encode r.type r.key r.value))

All-snoc :
    (rs : List WalRecord) (r : WalRecord)
    → All IsLogged rs
    → IsLogged r
    → All IsLogged (rs ++ r ∷ [])
All-snoc [] r h g = (g, tt)
All-snoc (q ∷ rs) r h g = (h.0, All-snoc rs r h.1 g)

foldl-snoc :
    (rs : List WalRecord) (r : WalRecord) (m : List (Bytes × MemTableEntry))
    → foldl apply_entry m (rs ++ r ∷ []) ≡ apply_entry (foldl apply_entry m rs) r
foldl-snoc [] r m = refl
foldl-snoc (q ∷ rs) r m = foldl-snoc rs r (apply_entry m q)

module _ (s : KvStore) (d : Disk) (l : IsLaidOut s) where
  pub flushed-Lasting :
      (r : SsTableReader) (c : Bytes)
      → s.next_sst_seq + 1 < 2 ^ 64
      → r.filepath ≡ next_path s
      → Lasting s d
      → Lasting (flushed_store s r) (flushed_disk s r c d)
  unfolding flushed_disk next_path set_file published encode_log MemTable.clear
  flushed-Lasting r c fit at (ns, rs, u) =
      let db = s.db_path in
      let all = s.sstables ++ r ∷ [] in
      let d1 = set_file (next_path s) (some c) d in
      let d2 = published s.manifest_path all d1 in
      let not_log : string_eq s.wal.filepath (manifest_file db) ≡ false =
        ap (λ p. string_eq p (manifest_file db)) l.wal_path ∙ wal-ne-manifest db in
      (
        ns ++ s.next_sst_seq ∷ [],
        [],
        record {
          path = u.path;
          directory = u.directory;
          numbered = Numbered-snoc db s.next_sst_seq ns s.sstables r u.numbered fit at;
          manifest = inl (
              file-set_file_ne s.wal.filepath (manifest_file db) (some []) d2 not_log
              ∙ (ap (λ p. (published p all d1).file (manifest_file db)) l.manifest
                  ∙ published-manifest (manifest_file db) all d1));
          log =
              ap (λ p. (set_file p (some []) d2).file (wal_file db)) l.wal_path
              ∙ file-set_file_self (wal_file db) (some []) d2;
          logged = tt;
          buffer = refl;
        },
      )

  inputs-ne-wal :
      (rs : List SsTableReader)
      → All (IsNamed s.db_path s.next_sst_seq) rs
      → All (λ p. string_eq p (wal_file s.db_path) ≡ false) (paths_of rs)
  inputs-ne-wal [] h = tt
  inputs-ne-wal (r ∷ rs) ((n, lt, at), h) = (
    ap (λ p. string_eq p (wal_file s.db_path)) at ∙ table_path-ne-wal s.db_path n,
    inputs-ne-wal rs h,
  )

  pub Compacted-Lasting :
      (r : SsTableReader) (ess : List (List KeyValueEntry)) (d' : Disk)
      → Compacted (paths_of s.sstables) ess (next_path s) d d'
      → s.next_sst_seq + 1 < 2 ^ 64
      → r.filepath ≡ next_path s
      → Lasting s d
      → Lasting (compacted_store s r) (published s.manifest_path (r ∷ []) d')
  unfolding next_path
  Compacted-Lasting r ess d' out fit at (ns, rs, u) =
      let db = s.db_path in
      (
        s.next_sst_seq ∷ [],
        rs,
        record {
          path = u.path;
          directory =
              ap (λ f. f db) (published-dir s.manifest_path (r ∷ []) d' ∙ out.directories)
              ∙ u.directory;
          numbered = ((fit, at), tt);
          manifest = inl (
              ap (λ p. (published p (r ∷ []) d').file (manifest_file db)) l.manifest
              ∙ published-manifest (manifest_file db) (r ∷ []) d');
          log =
              ap (λ p. (published p (r ∷ []) d').file (wal_file db)) l.manifest
              ∙ (published-wal db (r ∷ []) d'
                  ∙ (out.others (wal_file db) (table_path-ne-wal db s.next_sst_seq)
                        (compact_temp-ne-wal db s.next_sst_seq) (inputs-ne-wal s.sstables l.named)
                      ∙ u.log));
          logged = u.logged;
          buffer = u.buffer;
        },
      )

  -- One more record in the log, and its entry in the memtable.
  pub logged-Lasting :
      (m : MemTable) (r : WalRecord)
      → IsLogged r
      → m.table ≡ apply_entry s.memtable.table r
      → Lasting s d
      → Lasting
          (record s { memtable = m })
          (set_file s.wal.filepath
            (some (contents d s.wal.filepath ++ encode r.type r.key r.value))
            d)
  unfolding set_file contents
  logged-Lasting m r fits at (ns, rs, u) =
      let db = s.db_path in
      let bytes = encode r.type r.key r.value in
      let d' = set_file s.wal.filepath (some (contents d s.wal.filepath ++ bytes)) d in
      (
        ns,
        rs ++ r ∷ [],
        record {
          path = u.path;
          directory = u.directory;
          numbered = u.numbered;
          manifest =
              Listed-frame d d' (manifest_file db) s.sstables
                (file-set_file_ne s.wal.filepath (manifest_file db) _ d
                  (ap (λ p. string_eq p (manifest_file db)) l.wal_path ∙ wal-ne-manifest db))
                refl u.manifest;
          log =
              ap (λ p. (set_file p (some (contents d p ++ bytes)) d).file (wal_file db)) l.wal_path
              ∙ (file-set_file_self (wal_file db) (some (contents d (wal_file db) ++ bytes)) d
                  ∙ (ap (λ o. some (or_empty o ++ bytes)) u.log
                      ∙ ap some (sym (encode_log-snoc rs r))));
          logged = All-snoc rs r u.logged fits;
          buffer = at ∙ (ap (λ t. apply_entry t r) u.buffer ∙ sym (foldl-snoc rs r []));
        },
      )
