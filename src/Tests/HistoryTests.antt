-- ===== src/Tests/HistoryTests.antt =====
-- Operations on a database, at concrete inputs.
use lsm_tree_key_value_store.Prelude.{◌*◌, refl, arith, none, List, [], ◌∷◌, length, All}
use lsm_tree_key_value_store.Prelude.Strings.{is_empty}
use lsm_tree_key_value_store.Options.{Options, default_options}
use lsm_tree_key_value_store.Disk.{reliable, exists}
use lsm_tree_key_value_store.SsTable.Writer.{table_entries}
use lsm_tree_key_value_store.KvStore.View.{view}
use lsm_tree_key_value_store.KvStore.Volume.{total}
use lsm_tree_key_value_store.KvStore.Flush.{flush_internal, compact_internal}
use lsm_tree_key_value_store.KvStore.Durable.{Kept}
use lsm_tree_key_value_store.KvStore.Capacity.{HasCapacity, HasCapacity-Kept}
use lsm_tree_key_value_store.KvStore.History.{
  Op, writes, deletes, flushes, compacts, restarts, perform_all, effects, cost, costs, IsValid,
}
use lsm_tree_key_value_store.KvStore.History.Run.{Replayed, perform_all-effects}
use lsm_tree_key_value_store.KvStore.History.Database.{Answered, database-effects}
use lsm_tree_key_value_store.Tests.SsTableTests.{disk, length-entries}
use lsm_tree_key_value_store.Tests.StoreTests.{db, full_store, full_store-Represents}
use lsm_tree_key_value_store.Tests.RecoveryTests.{
  log_records, left_disk, left_disk-Durable, empty_disk,
}

abbrev some_ops : List Op
some_ops =
    writes (97 ∷ []) (1 ∷ [])
    ∷ writes (98 ∷ []) (2 ∷ [])
    ∷ deletes (97 ∷ [])
    ∷ restarts
    ∷ flushes
    ∷ compacts
    ∷ []

some_ops-IsValid : All IsValid some_ops
unfolding is_empty
some_ops-IsValid = (
  (
    refl,
    record {
      type_logged = refl;
      key_small = omega arith;
      value_small = omega arith;
      value_kept = refl;
    },
  ),
  (
    (
      refl,
      record {
        type_logged = refl;
        key_small = omega arith;
        value_small = omega arith;
        value_kept = refl;
      },
    ),
    (
      (
        refl,
        record {
          type_logged = refl;
          key_small = omega arith;
          value_small = omega arith;
          value_kept = refl;
        },
      ),
      (tt, (tt, (tt, tt))),
    ),
  ),
)

full_store-HasCapacity : HasCapacity (costs some_ops) (2 * length some_ops) full_store []
unfolding costs cost total table_entries
full_store-HasCapacity = record {
  interval_pos = omega arith;
  bits_le = omega arith;
  bytes_fit = omega (arith, length-entries);
  numbers_fit = omega arith;
}

perform_all-effects_example :
    Replayed
      (perform_all reliable [] some_ops full_store left_disk)
      (effects some_ops (view full_store []))
perform_all-effects_example =
    perform_all-effects [] some_ops full_store left_disk []
      (record {
        represents = full_store-Represents left_disk;
        lasting = ([], log_records, left_disk-Durable);
      })
      some_ops-IsValid full_store-HasCapacity

HasCapacity-Kept_example :
    Kept (flush_internal reliable [] full_store disk) full_store disk [] 2
    × Kept (compact_internal reliable [] full_store disk) full_store disk [] 1
unfolding total table_entries
HasCapacity-Kept_example =
    HasCapacity-Kept [] full_store disk [] (full_store-Represents disk) (record {
      interval_pos = omega arith;
      bits_le = omega arith;
      bytes_fit = omega (arith, length-entries);
      numbers_fit = omega arith;
    })

-- Each write finds the memtable full, and two tables are enough for a compaction.
abbrev small_options : Options
small_options = record default_options { memtable_size_threshold = 1; compaction_threshold = 2 }

database-effects_example :
    Answered small_options [] db some_ops empty_disk
      (98 ∷ [])
      (effects some_ops (λ j. none) (98 ∷ []))
unfolding is_empty exists costs cost
database-effects_example =
    database-effects small_options [] db some_ops empty_disk (98 ∷ []) refl
      (record { here = refl; no_manifest = refl; no_log = refl }) (omega arith) (omega arith)
      some_ops-IsValid (omega arith) (omega arith) refl
