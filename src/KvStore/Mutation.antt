-- ===== src/KvStore/Mutation.antt =====
-- `KVStore::put` and `KVStore::remove` without faults of the disk, with the flush of a full memtable.
use lsm_tree_key_value_store.Prelude.{
  ℕ, ◌+◌, ◌^◌, ◌<◌, ◌≡◌, refl, ap, ◌∙◌, sym, arith, true, false, Option, none, some, List, [], ◌++◌,
  Bytes, length, Bool-cases, inl, inr, if◌then◌else◌,
}
use lsm_tree_key_value_store.Prelude.Strings.{string_eq, is_empty}
use lsm_tree_key_value_store.Prelude.SortedMap.{insert}
use lsm_tree_key_value_store.Types.{RecordType, is_tombstone_type, KeyValueEntry}
use lsm_tree_key_value_store.Status
use lsm_tree_key_value_store.Status.{Status}
use lsm_tree_key_value_store.Disk.{Disk, reliable, set_file, contents}
use lsm_tree_key_value_store.Frame.{encode}
use lsm_tree_key_value_store.MemTable
use lsm_tree_key_value_store.MemTable.{MemTable, MemTableEntry}
use lsm_tree_key_value_store.MemTable.Lookup.{put_entry, tombstone_entry, table-put, table-remove}
use lsm_tree_key_value_store.Wal
use lsm_tree_key_value_store.Wal.{Wal}
use lsm_tree_key_value_store.Wal.Append.{IsOpen, append_record-reliable}
use lsm_tree_key_value_store.Wal.Replay.{WalRecord}
use lsm_tree_key_value_store.Wal.Replay.Recovery.{IsLogged}
use lsm_tree_key_value_store.SsTable.Writer.{table_entries}
use lsm_tree_key_value_store.SsTable.Layout.{encode_records, IsStored}
use lsm_tree_key_value_store.KvStore.{KvStore}
use lsm_tree_key_value_store.KvStore.Ops
use lsm_tree_key_value_store.KvStore.Ops.{
  guarded, make_room, logged, put_logged, remove_logged, after, put, remove,
}
use lsm_tree_key_value_store.KvStore.View.{shown, view, Represents}
use lsm_tree_key_value_store.KvStore.Volume.{Grown, Grown-trans, length-insert}
use lsm_tree_key_value_store.KvStore.Durable.{apply_entry, Kept, Lasting}
use lsm_tree_key_value_store.KvStore.Lasting.{logged-Lasting}
use lsm_tree_key_value_store.KvStore.Persisting.{HasRoom, unchanged, flush_internal-Kept}
use lsm_tree_key_value_store.KvStore.Inserting.{stored_as, inserted-Represents, inserted-view}

-- What a record of the log makes of its key: a value, or none.
abbrev pub written : WalRecord → Option Bytes
written r = if is_tombstone_type r.type then none else some r.value

-- A run that ended with OK in a state whose map has what this record says at its key, and differs nowhere
-- else. It can be opened again, if that could and if a replay accepts the record.
pub record Updated (run : Option (Status × KvStore × Disk)) (s : KvStore) (d : Disk)
    (ess : List (List KeyValueEntry)) (r : WalRecord) (steps : ℕ) : Type 0 where
  pub after : KvStore
  pub disk : Disk
  pub entries : List (List KeyValueEntry)
  pub done : run ≡ some (Status.ok, after, disk)
  pub represents : Represents after disk entries
  pub updated :
      (j : Bytes) → view after entries j ≡ (if string_eq r.key j then written r else view s ess j)
  pub lasting : IsLogged r → Lasting s d → Lasting after disk
  pub grown : Grown (length (encode r.type r.key r.value)) steps s ess after entries

abbrev record_of : Bytes → MemTableEntry → WalRecord
record_of key e = record { type = e.type; key = key; value = e.value }

-- `make_room` leaves the map as it is.
make_room-Kept :
    (stale : Bytes) (s : KvStore) (d : Disk) (ess : List (List KeyValueEntry))
    → Represents s d ess
    → HasRoom s ess
    → Kept (make_room reliable stale s d) s d ess 2
unfolding make_room
make_room-Kept stale s d ess h room = elim (Bool-cases (MemTable.is_full s.memtable)) [
  | inl full ↦ rw (full) (flush_internal-Kept stale s d ess h room)
  | inr other ↦ rw (other) (unchanged s d ess h 2)
]

-- What a logged change of one entry does to a store that had room for it.
logged-Updated :
    (s : KvStore) (d : Disk) (ess : List (List KeyValueEntry))
    → Represents s d ess
    → (key : Bytes) (e : MemTableEntry) (m : MemTable) → m.table ≡ insert key e s.memtable.table
    → IsStored (stored_as key e)
    → (update : KvStore → KvStore) → update s ≡ record s { memtable = m }
    → apply_entry s.memtable.table (record_of key e) ≡ insert key e s.memtable.table
    → Updated
        (some (logged update s (Wal.append_record reliable e.type key e.value s.wal d)))
        s
        d
        ess
        (record_of key e)
        0
unfolding logged shown
logged-Updated s d ess h key e m at new update eq same =
    let open_log : IsOpen s.wal = record {
      open_now = h.layout.wal_open;
      good_now = h.layout.wal_good;
    } in
    let bytes = contents d s.wal.filepath ++ encode e.type key e.value in
    record {
      after = record s { memtable = m };
      disk = set_file s.wal.filepath (some bytes) d;
      entries = ess;
      done =
          rw (append_record-reliable e.type key e.value s.wal d open_log)
            (ap (λ u. some (Status.ok, u, set_file s.wal.filepath (some bytes) d)) eq);
      represents = inserted-Represents s d ess h key e m bytes at new;
      updated = λ j. inserted-view s d ess h key e m j at;
      lasting = λ fits k. logged-Lasting s d h.layout m (record_of key e) fits (at ∙ sym same) k;
      grown = record {
        options = refl;
        same_path = refl;
        volume_le = omega (
          arith,
          length-insert key e s.memtable.table,
          ap (λ t. length (encode_records (table_entries t))) at,
        );
        numbers_le = omega arith;
      };
    }

Updated-from :
    (run : Option (Status × KvStore × Disk)) (s s' : KvStore) (d d' : Disk)
    (ess ess' : List (List KeyValueEntry)) (r : WalRecord) (m n : ℕ)
    → ((j : Bytes) → view s' ess' j ≡ view s ess j)
    → (Lasting s d → Lasting s' d')
    → Grown 0 m s ess s' ess'
    → Updated run s' d' ess' r n
    → Updated run s d ess r (m + n)
Updated-from run s s' d d' ess ess' r m n same more grown u = record {
  after = u.after;
  disk = u.disk;
  entries = u.entries;
  done = u.done;
  represents = u.represents;
  updated = λ j. u.updated j ∙ ap (λ w. if string_eq r.key j then written r else w) (same j);
  lasting = λ fits k. u.lasting fits (more k);
  grown = Grown-trans grown u.grown;
}

guarded-open {ℓ} :
    {A : Type ℓ} (s : KvStore) (key : Bytes) (refuse : Status → A) (go : A)
    → s.is_open ≡ true
    → is_empty key ≡ false
    → guarded s key refuse go ≡ go
unfolding guarded
guarded-open s key refuse go h ne = rw (h, ne) refl

module _ (stale : Bytes) (s : KvStore) (d : Disk) (ess : List (List KeyValueEntry))
    (key : Bytes) where
  -- A `put` without faults of the disk, of a key that is not empty and a value that together have less
  -- than 2^32 bytes, in an open store with room, that is with an interval of the sparse index that is
  -- not 0, where the table of a flush and that of a compaction after it are within the limits of the
  -- format and two numbers of tables are left: it ends with OK, and the map then has the value at the
  -- key and is as before at every other key, through the flush and the compaction that it may start.
  -- Manifest, tables and log are again enough to open the store, where they were and a replay takes
  -- the record. Path and options stay, the records take at most the bytes of the new one more, and at
  -- most two numbers of tables are taken.
  pub put-view :
      (value : Bytes)
      → Represents s d ess
      → HasRoom s ess
      → is_empty key ≡ false
      → length key + length value < 2 ^ 32
      → Updated
          (put reliable stale key value s d)
          s
          d
          ess
          (record { type = RecordType.put; key = key; value = value })
          2
  unfolding put put_logged Wal.append_put Ops.put_entry apply_entry
  put-view value h room ne fits =
      let k = make_room-Kept stale s d ess h room in
      let new : IsStored (stored_as key (put_entry value)) = record {
        fits = record { key_fits = omega arith; value_fits = omega arith };
        named = refl;
        kept = refl;
      } in
      rw
        (
          guarded-open {A = Option (Status × KvStore × Disk)} s key (λ status. some (status, s, d))
              _ h.is_open ne,
          k.done,
        )
        (Updated-from _ s k.after d k.disk ess k.entries (record_of key (put_entry value)) 2 0
          k.same_view k.lasting k.grown
          (logged-Updated k.after k.disk k.entries k.represents key (put_entry value)
            (MemTable.put k.after.memtable key value) (table-put k.after.memtable key value) new
            (Ops.put_entry key value) refl refl))

  -- A `remove` without faults of the disk, of a key that is not empty and has less than 2^32 bytes, in
  -- an open store with room, that is with an interval of the sparse index that is not 0, where the
  -- table of a flush and that of a compaction after it are within the limits of the format and two
  -- numbers of tables are left: it ends with OK, and the map then has no value at the key and is as
  -- before at every other key. Manifest, tables and log are again enough to open the store, where they
  -- were and a replay takes the record. Path and options stay, the records take at most the bytes of
  -- the new one more, and at most two numbers of tables are taken.
  pub remove-view :
      Represents s d ess
      → HasRoom s ess
      → is_empty key ≡ false
      → length key < 2 ^ 32
      → Updated
          (remove reliable stale key s d)
          s
          d
          ess
          (record { type = RecordType.tombstone; key = key; value = [] })
          2
  unfolding remove remove_logged Wal.append_delete Ops.remove_entry apply_entry
  remove-view h room ne fit =
      let k = make_room-Kept stale s d ess h room in
      let new : IsStored (stored_as key tombstone_entry) = record {
        fits = record { key_fits = fit; value_fits = omega arith };
        named = refl;
        kept = refl;
      } in
      rw
        (
          guarded-open {A = Option (Status × KvStore × Disk)} s key (λ status. some (status, s, d))
              _ h.is_open ne,
          k.done,
        )
        (Updated-from _ s k.after d k.disk ess k.entries (record_of key tombstone_entry) 2 0
          k.same_view k.lasting k.grown
          (logged-Updated k.after k.disk k.entries k.represents key tombstone_entry
            (MemTable.remove k.after.memtable key) (table-remove k.after.memtable key) new
            (Ops.remove_entry key) refl refl))
