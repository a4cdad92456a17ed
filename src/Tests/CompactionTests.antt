-- ===== src/Tests/CompactionTests.antt =====
-- Tables that are written, read back and merged, at concrete inputs.
use lsm_tree_key_value_store.Prelude.{◌≡◌, refl, arith, true, false, some, List, [], ◌∷◌, All}
use lsm_tree_key_value_store.Prelude.Strings.{string_eq, string_lt, is_empty}
use lsm_tree_key_value_store.Prelude.SortedMap.{find, insert}
use lsm_tree_key_value_store.Types.{KeyValueEntry}
use lsm_tree_key_value_store.Status
use lsm_tree_key_value_store.Status.{Status}
use lsm_tree_key_value_store.Options.{default_options}
use lsm_tree_key_value_store.Disk.{Disk, reliable, set_file}
use lsm_tree_key_value_store.Bloom.{num_bytes_for}
use lsm_tree_key_value_store.SsTable.Reader
use lsm_tree_key_value_store.SsTable.Reader.{SsTableReader, get}
use lsm_tree_key_value_store.SsTable.ReadAll.{read_all_records}
use lsm_tree_key_value_store.SsTable.Writer.{write_from_entries}
use lsm_tree_key_value_store.SsTable.Layout.{
  IsStored, encode_records, keyed, Answers, length-encode_records,
}
use lsm_tree_key_value_store.SsTable.Limits.{IsSmall, IsWritable}
use lsm_tree_key_value_store.SsTable.ReadBack.{read_all_records-Holds}
use lsm_tree_key_value_store.SsTable.Reopen.{
  Saved, Tables, write_from_entries-Saved, get-write_from_entries,
}
use lsm_tree_key_value_store.Compaction.{compact, merge_records, surviving}
use lsm_tree_key_value_store.Compaction.Merge.{
  merge_all, compacted_entries, newest, live, find-compacted_entries,
}
use lsm_tree_key_value_store.Compaction.Run.{Compacted, compact-Tables}
use lsm_tree_key_value_store.Tests.SsTableTests.{
  first, second, entries, reader, disk, disk-Holds, first-IsStored, length-entries,
}

pub entries-IsSmall : IsSmall default_options entries
unfolding num_bytes_for
entries-IsSmall = record {
  records_fit = omega (arith, length-entries);
  count_fits = omega arith;
  interval_pos = omega arith;
  filter_fits = omega arith;
}

entries-IsWritable : IsWritable default_options entries
entries-IsWritable = record {
  stored = disk-Holds.stored;
  sorted = disk-Holds.sorted;
  small = entries-IsSmall;
}

read_all_records-Holds_example :
    read_all_records reliable disk reader [] ≡ some (Status.ok, entries)
read_all_records-Holds_example = read_all_records-Holds disk reader entries [] disk-Holds

get-write_from_entries_example :
    (d' : Disk) × (r : SsTableReader) × (write_from_entries reliable
        (2 ∷ [])
        entries
        default_options
        disk
      ≡ (Status.ok, d'))
    × (Reader.open_table reliable (2 ∷ []) true Reader.init d' ≡ (Status.ok, r))
    × Answers (find (98 ∷ []) (keyed entries)) (get reliable d' r (98 ∷ []) false)
get-write_from_entries_example =
    get-write_from_entries (2 ∷ []) entries default_options disk true (98 ∷ []) false
      entries-IsWritable

-- The newer table deletes the second key's older entry, and the older table has the first key.
abbrev pub older : List KeyValueEntry
older = record second { value = 7 ∷ []; type = first.type } ∷ []

abbrev pub two_tables : List (List KeyValueEntry)
two_tables = older ∷ entries ∷ []

older-IsStored : IsStored (record second { value = 7 ∷ []; type = first.type })
older-IsStored = record {
  fits = record { key_fits = omega arith; value_fits = omega arith };
  named = refl;
  kept = refl;
}

two_tables-IsStored : All (All IsStored) two_tables
two_tables-IsStored = ((older-IsStored, tt), (disk-Holds.stored, tt))

find-compacted_entries_example :
    find (98 ∷ []) (keyed (compacted_entries two_tables)) ≡ live (newest (98 ∷ []) two_tables)
unfolding keyed
find-compacted_entries_example =
    find-compacted_entries two_tables two_tables-IsStored (98 ∷ [])
      ((tt, tt), (disk-Holds.sorted, tt))

pub compacted-two_tables : compacted_entries two_tables ≡ first ∷ []
unfolding compacted_entries merge_all merge_records insert surviving string_lt string_eq
compacted-two_tables = refl

pub only_first : IsSmall default_options (first ∷ [])
unfolding num_bytes_for encode_records
only_first = record {
  records_fit = omega (arith, length-encode_records first [] first-IsStored);
  count_fits = omega arith;
  interval_pos = omega arith;
  filter_fits = omega arith;
}

older-IsWritable : IsWritable default_options older
unfolding keyed num_bytes_for encode_records
older-IsWritable = record {
  stored = (older-IsStored, tt);
  sorted = (tt, tt);
  small = record {
    records_fit = omega (
      arith,
      length-encode_records (record second { value = 7 ∷ []; type = first.type }) [] older-IsStored,
    );
    count_fits = omega arith;
    interval_pos = omega arith;
    filter_fits = omega arith;
  };
}

pub older-Saved :
    Saved (write_from_entries reliable (3 ∷ []) older default_options disk) (3 ∷ []) older disk
older-Saved = write_from_entries-Saved (3 ∷ []) older default_options disk older-IsWritable

pub newer-Saved :
    Saved (write_from_entries reliable (4 ∷ []) entries default_options disk) (4 ∷ []) entries disk
newer-Saved = write_from_entries-Saved (4 ∷ []) entries default_options disk entries-IsWritable

abbrev two_files : Disk
two_files =
    set_file (4 ∷ []) (some newer-Saved.contents)
      (set_file (3 ∷ []) (some older-Saved.contents) disk)

two_files-Tables : Tables two_files ((3 ∷ []) ∷ (4 ∷ []) ∷ []) two_tables
unfolding set_file string_eq
two_files-Tables = (
  record { contents = older-Saved.contents; file = refl; table = older-Saved.table },
  (record { contents = newer-Saved.contents; file = refl; table = newer-Saved.table }, tt),
)

compact-Tables_example :
    (d' : Disk) × (compact reliable []
        ((3 ∷ []) ∷ (4 ∷ []) ∷ [])
        (5 ∷ [])
        default_options
        true
        two_files
      ≡ some (Status.ok, d'))
    × Compacted ((3 ∷ []) ∷ (4 ∷ []) ∷ []) two_tables (5 ∷ []) two_files d'
unfolding is_empty
compact-Tables_example =
    compact-Tables [] ((3 ∷ []) ∷ (4 ∷ []) ∷ []) two_tables (5 ∷ []) default_options two_files refl
      two_files-Tables two_tables-IsStored (rw (compacted-two_tables) only_first)
