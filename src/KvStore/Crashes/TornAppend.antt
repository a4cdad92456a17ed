-- ===== src/KvStore/Crashes/TornAppend.antt =====
-- A crash in the middle of an append to the log.
use lsm_tree_key_value_store.Prelude.{
  ℕ, ◌≡◌, ◌≢◌, refl, ap, ◌∙◌, sym, arith, false, some, List, [], ◌∷◌, ◌++◌, Bytes, All,
}
use lsm_tree_key_value_store.Prelude.SortedMap.{find, or_else}
use lsm_tree_key_value_store.Types.{KeyValueEntry}
use lsm_tree_key_value_store.Status
use lsm_tree_key_value_store.Status.{Status}
use lsm_tree_key_value_store.Disk.{
  Disk, reliable, set_file, contents, or_empty, open_read, open_append,
}
use lsm_tree_key_value_store.Disk.Laws.{file-set_file_self, file-set_file_ne}
use lsm_tree_key_value_store.Frame.{encode}
use lsm_tree_key_value_store.MemTable
use lsm_tree_key_value_store.Wal
use lsm_tree_key_value_store.Wal.Replay.{WalRecord, replay}
use lsm_tree_key_value_store.Wal.Replay.Recovery.{encode_log, IsLogged}
use lsm_tree_key_value_store.Wal.Replay.Damage.{replay_bytes_torn}
use lsm_tree_key_value_store.SsTable.Writer.{table_entries}
use lsm_tree_key_value_store.SsTable.Layout.{keyed}
use lsm_tree_key_value_store.Compaction.Merge.{newest}
use lsm_tree_key_value_store.KvStore.{KvStore}
use lsm_tree_key_value_store.KvStore.Names.Paths.{
  table_path, manifest_file, wal_file, wal-ne-manifest, wal-ne-table_path,
}
use lsm_tree_key_value_store.KvStore.Open.{open_store, open_wal, replayed, recover, apply_record}
use lsm_tree_key_value_store.KvStore.View.{shown, view, Represents, Readers-frame, IsNamed-same}
use lsm_tree_key_value_store.KvStore.Reading.{get-view}
use lsm_tree_key_value_store.KvStore.Durable.{Durable, Lasting}
use lsm_tree_key_value_store.KvStore.Lasting.{Listed-frame}
use lsm_tree_key_value_store.KvStore.Reloading.{Readers-Stock, load_tables-Stock}
use lsm_tree_key_value_store.KvStore.Replaying.{
  exists-file, exists-dir, names_found, recovered_store, table-replayed,
}
use lsm_tree_key_value_store.KvStore.Numbering.{small_numbers}
use lsm_tree_key_value_store.KvStore.Recovery.{loaded_store, open_store-Loaded, loads-Represents}
use lsm_tree_key_value_store.KvStore.Crashes.{Rereads}

module _ (r : WalRecord) (front back : Bytes) (x : ℕ) (fits : IsLogged r)
    (cut : encode r.type r.key r.value ≡ front ++ (x ∷ back)) (some_bytes : front ≢ []) where
  recover-torn :
      (s : KvStore) (d : Disk) (rs : List WalRecord)
      → d.file (wal_file s.db_path) ≡ some (encode_log rs ++ front)
      → All IsLogged rs
      → recover reliable s d
        ≡ some (
          Status.ok,
          recovered_store s rs,
          set_file (wal_file s.db_path) (some (encode_log rs ++ front)) d,
        )
  unfolding recover replay open_read replayed open_wal Wal.open_log Wal.close open_append contents
  recover-torn s d rs e h =
      rw
        (
          exists-file d (wal_file s.db_path) (encode_log rs ++ front) e,
          e,
          (replay_bytes_torn apply_record rs r front back x (MemTable.clear s.memtable) h fits cut
              some_bytes).1,
          e,
        )
        refl

  torn_log-Rereads :
      (s c : KvStore) (d : Disk) (ess : List (List KeyValueEntry)) (ns : List ℕ)
      (rs : List WalRecord)
      → Represents s d ess
      → Durable s d ns rs
      → c.is_open ≡ false
      → Rereads
          (open_store reliable s.db_path c
            (set_file (wal_file s.db_path) (some (encode_log rs ++ front)) d))
          (view s ess)
  unfolding set_file MemTable.clear view
  torn_log-Rereads s c d ess ns rs h u closed =
      let db = s.db_path in
      let torn = some (encode_log rs ++ front) in
      let d' = set_file (wal_file db) torn d in
      let readers =
        Readers-frame d d' s.sstables ess
          (IsNamed-same db s.next_sst_seq d d' s.sstables
            (λ n lt.
              file-set_file_ne (wal_file db) (table_path db n) torn d (wal-ne-table_path db n))
            h.layout.named)
          h.readers in
      let loads =
        load_tables-Stock d' db c.options.enable_bloom_filter ns ess [] 0
          (Readers-Stock d' db ns s.sstables ess u.numbered readers)
          (small_numbers db ns s.sstables u.numbered) (omega arith) in
      let same_manifest =
        file-set_file_ne (wal_file db) (manifest_file db) torn d (wal-ne-manifest db) in
      let same = table-replayed rs (MemTable.clear c.memtable) ∙ sym u.buffer in
      let store = loaded_store c db loads.readers loads.largest in
      let after = loads-Represents s c d d' ess ns rs torn h same loads in
      record {
        after = recovered_store store rs;
        disk = set_file (wal_file db) torn d';
        done =
            open_store-Loaded c d' db ns rs closed u.path (exists-dir d' db u.directory)
              (names_found d' db ns s.sstables u.numbered
                (Listed-frame d d' (manifest_file db) s.sstables same_manifest refl u.manifest))
              loads
            ∙ recover-torn store d' rs (file-set_file_self (wal_file db) torn d) u.logged;
        answers = λ key ne.
            rw⁻¹
              (ap (λ m. shown (or_else (find key (keyed (table_entries m))) (newest key ess))) same)
              (get-view (set_file (wal_file db) torn d') key (recovered_store store rs) ess after
                ne);
      }

  -- A crash while a record is appended to the log: the first bytes of a record with a key of at most
  -- 16 MiB and a value of at most 64 MiB, not none and not all, stand behind the log of an open store
  -- whose files are enough to open it. An `open` by a closed store, without faults of the disk, then
  -- ends with OK, in a store that answers each key that is not empty as the store before the append
  -- did.
  pub torn_append-Rereads :
      (s c : KvStore) (d : Disk) (ess : List (List KeyValueEntry))
      → Represents s d ess
      → Lasting s d
      → c.is_open ≡ false
      → Rereads
          (open_store reliable s.db_path c
            (set_file s.wal.filepath (some (contents d s.wal.filepath ++ front)) d))
          (view s ess)
  unfolding view
  torn_append-Rereads s c d ess h (ns, rs, u) closed =
      let same : contents d (wal_file s.db_path) ≡ encode_log rs =
        unfold contents in ap or_empty u.log in
      rw (h.layout.wal_path, same) (torn_log-Rereads s c d ess ns rs h u closed)
