-- ===== src/Tests/RecoveryTests.antt =====
-- A store that is opened again, at concrete inputs: its log has two records, and there is no table.
use lsm_tree_key_value_store.Prelude.{
  ◌≡◌, refl, arith, false, none, some, List, [], ◌∷◌, Bytes, inr, if◌then◌else◌,
}
use lsm_tree_key_value_store.Prelude.Strings.{text, string_eq, string_lt, is_empty}
use lsm_tree_key_value_store.Prelude.SortedMap.{insert}
use lsm_tree_key_value_store.Types.{put, tombstone}
use lsm_tree_key_value_store.Options.{default_options}
use lsm_tree_key_value_store.Disk.{Disk, reliable, set_file, exists}
use lsm_tree_key_value_store.Wal.Replay.{WalRecord}
use lsm_tree_key_value_store.Wal.Replay.Recovery.{encode_log}
use lsm_tree_key_value_store.KvStore
use lsm_tree_key_value_store.SsTable.Reader
use lsm_tree_key_value_store.SsTable.Reader.{SsTableReader}
use lsm_tree_key_value_store.KvStore.Names.{table_name, table_seq}
use lsm_tree_key_value_store.KvStore.Names.Paths.{wal_file, table_path}
use lsm_tree_key_value_store.KvStore.Names.Manifest.{table_seq-table_name}
use lsm_tree_key_value_store.KvStore.Reloading.{names_for}
use lsm_tree_key_value_store.KvStore.Flush.{update_manifest}
use lsm_tree_key_value_store.KvStore.Replaying.{read_manifest-update_manifest}
use lsm_tree_key_value_store.KvStore.Closing.{close-Refused}
use lsm_tree_key_value_store.KvStore.Errors.{Refused}
use lsm_tree_key_value_store.KvStore.Crashes.{Rereads}
use lsm_tree_key_value_store.Result
use lsm_tree_key_value_store.KvStore.Open.{open_store, read_manifest}
use lsm_tree_key_value_store.KvStore.View.{Represents, view}
use lsm_tree_key_value_store.KvStore.Ops
use lsm_tree_key_value_store.KvStore.Durability.{Survives, put-Survives, remove-Survives}
use lsm_tree_key_value_store.KvStore.Durable.{apply_entry, Durable, Lasting}
use lsm_tree_key_value_store.KvStore.{KvStore}
use lsm_tree_key_value_store.Status
use lsm_tree_key_value_store.KvStore.Creation.{open_store-IsVacant}
use lsm_tree_key_value_store.KvStore.Recovery.{Reopened, open_store-view}
use lsm_tree_key_value_store.Tests.SsTableTests.{first, second, disk}
use lsm_tree_key_value_store.Tests.StoreTests.{
  db, full_store, full_store-Represents, full_store-HasRoom,
}

abbrev pub log_records : List WalRecord
log_records =
    record { type = put; key = first.key; value = first.value }
    ∷ record { type = tombstone; key = second.key; value = [] }
    ∷ []

abbrev pub left_disk : Disk
left_disk =
    set_file (wal_file db) (some (encode_log log_records))
      (record disk { dir = λ p. string_eq p db })

pub left_disk-Durable : Durable full_store left_disk [] log_records
unfolding is_empty exists string_eq string_lt set_file text insert apply_entry
left_disk-Durable = record {
  path = refl;
  directory = refl;
  numbered = tt;
  manifest = inr (refl, refl);
  log = refl;
  logged = (
    record {
      type_logged = refl;
      key_small = omega arith;
      value_small = omega arith;
      value_kept = refl;
    },
    (
      record {
        type_logged = refl;
        key_small = omega arith;
        value_small = omega arith;
        value_kept = refl;
      },
      tt,
    ),
  );
  buffer = refl;
}

open_store-view_example :
    Reopened
      (open_store reliable db (KvStore.init default_options) left_disk)
      (KvStore.init default_options)
      full_store
      []
open_store-view_example =
    open_store-view full_store left_disk [] [] log_records (full_store-Represents left_disk)
      left_disk-Durable (KvStore.init default_options) refl

table_seq-table_name_example : table_seq (table_name 7) ≡ some 7
table_seq-table_name_example = table_seq-table_name 7 (omega arith)

abbrev named_reader : SsTableReader
named_reader = record Reader.init { filepath = table_path db 7 }

-- The full store with a table in its list.
abbrev listing_store : KvStore
listing_store = record full_store { sstables = named_reader ∷ [] }

read_manifest-update_manifest_example :
    let out = update_manifest reliable listing_store left_disk in
    (out.0 ≡ Status.ok)
    × (read_manifest reliable out.1 listing_store.manifest_path ≡ names_for (7 ∷ []))
read_manifest-update_manifest_example =
    read_manifest-update_manifest listing_store left_disk (7 ∷ []) ((omega arith, refl), tt)

close-Refused_example :
    let e = Status.io_error (text "Database is not open") in
    let c = (Ops.close full_store).1 in
    ((Ops.close full_store).0 ≡ Status.ok)
    × (Refused e c left_disk (Ops.put reliable [] (97 ∷ []) [] c left_disk)
        × Refused e c left_disk (Ops.remove reliable [] (97 ∷ []) c left_disk)
        × (Ops.get reliable left_disk (97 ∷ []) c ≡ some (Result.error e))
        × Refused e c left_disk (Ops.flush reliable [] c left_disk)
        × Refused e c left_disk (Ops.compact reliable [] c left_disk))
    × Rereads (open_store reliable full_store.db_path c left_disk) (view full_store [])
close-Refused_example =
    close-Refused reliable [] (97 ∷ []) [] full_store left_disk [] (full_store-Represents left_disk)
      ([], log_records, left_disk-Durable)

put-Survives_example :
    Survives
      (Ops.put reliable [] (99 ∷ []) (1 ∷ []) full_store left_disk)
      (KvStore.init default_options)
      (97 ∷ [])
      (if string_eq (99 ∷ []) (97 ∷ []) then some (1 ∷ []) else view full_store [] (97 ∷ []))
unfolding is_empty
put-Survives_example =
    put-Survives [] full_store (KvStore.init default_options) left_disk [] (99 ∷ []) (97 ∷ [])
      (1 ∷ []) (full_store-Represents left_disk) ([], log_records, left_disk-Durable)
      full_store-HasRoom refl
      (record {
        type_logged = refl;
        key_small = omega arith;
        value_small = omega arith;
        value_kept = refl;
      })
      refl refl

remove-Survives_example :
    Survives
      (Ops.remove reliable [] (97 ∷ []) full_store left_disk)
      (KvStore.init default_options)
      (97 ∷ [])
      (if string_eq (97 ∷ []) (97 ∷ []) then none else view full_store [] (97 ∷ []))
unfolding is_empty
remove-Survives_example =
    remove-Survives [] full_store (KvStore.init default_options) left_disk [] (97 ∷ []) (97 ∷ [])
      (full_store-Represents left_disk) ([], log_records, left_disk-Durable) full_store-HasRoom refl
      (record {
        type_logged = refl;
        key_small = omega arith;
        value_small = omega arith;
        value_kept = refl;
      })
      refl refl

abbrev pub empty_disk : Disk
empty_disk = record { file = λ p. none; dir = λ p. false }

open_store-IsVacant_example :
    (s : KvStore) × (d' : Disk) × (open_store reliable db (KvStore.init default_options) empty_disk
      ≡ some (Status.ok, s, d'))
    × Represents s d' []
    × Lasting s d'
    × ((key : Bytes) → view s [] key ≡ none)
unfolding is_empty exists
open_store-IsVacant_example =
    open_store-IsVacant (KvStore.init default_options) empty_disk db refl refl
      (record { here = refl; no_manifest = refl; no_log = refl })
