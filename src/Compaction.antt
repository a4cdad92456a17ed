-- ===== src/Compaction.antt =====
-- include/lsm/compaction.h and src/compaction.cpp: several tables become one.
pub mod Merge
pub mod Removal
pub mod Run
use lsm_tree_key_value_store.Prelude.{
  Bool, true, false, not, Option, none, some, List, [], ◌∷◌, ◌++◌, Bytes, if◌then◌else◌,
}
use lsm_tree_key_value_store.Prelude.Strings.{text, string_eq, is_empty}
use lsm_tree_key_value_store.Prelude.SortedMap.{insert}
use lsm_tree_key_value_store.Types.{KeyValueEntry, is_tombstone}
use lsm_tree_key_value_store.Status
use lsm_tree_key_value_store.Status.{Status}
use lsm_tree_key_value_store.Options.{Options}
use lsm_tree_key_value_store.Disk.{Disk, Os, remove_file, rename_file}
use lsm_tree_key_value_store.SsTable.Reader
use lsm_tree_key_value_store.SsTable.Reader.{SsTableReader}
use lsm_tree_key_value_store.SsTable.ReadAll.{read_all_records}
use lsm_tree_key_value_store.SsTable.Writer.{write_from_entries}

-- `std::map<std::string, KeyValueEntry>`
abbrev pub Merged : Type 0
Merged = List (Bytes × KeyValueEntry)

-- The inner loop: each record overwrites what is there under its key.
unfoldable pub merge_records : List KeyValueEntry → Merged → Merged
merge_records [] merged = merged
merge_records (rec ∷ records) merged = merge_records records (insert rec.key rec merged)

-- The records of one table, as `open` and `readAllRecords` return them.
unfoldable pub read_table : Os → Disk → Bytes → Bytes → Option (Status × List KeyValueEntry)
read_table os d stale path =
    let (s, reader) = Reader.open_table os path false Reader.init d in
    if Status.is_ok s then read_all_records os d reader stale else some (s, [])

-- The loop over the tables, the oldest first. It stops at the first status that is not OK.
unfoldable pub merge_tables : Os → Disk → Bytes → List Bytes → Merged → Option (Status × Merged)
merge_tables os d stale [] merged = some (Status.ok, merged)
merge_tables os d stale (path ∷ paths) merged = elim (read_table os d stale path) [
  | none ↦ none
  | some (s, records) ↦ elim (Status.is_ok s) [
    | true ↦ merge_tables os d stale paths (merge_records records merged)
    | false ↦ some (s, merged)
  ]
]

-- The entries that are no tombstones, in the order of their keys.
unfoldable pub surviving : Merged → List KeyValueEntry
surviving [] = []
surviving ((key, entry) ∷ merged) =
    if not (is_tombstone entry) then entry ∷ surviving merged else surviving merged

-- The loop that deletes the input tables.
unfoldable pub remove_inputs : Os → Bytes → List Bytes → Disk → Disk
remove_inputs os out [] d = d
remove_inputs os out (path ∷ paths) d =
    remove_inputs os out paths (if not (string_eq path out) then remove_file os path d else d)

-- The temporary file takes the place of the target.
unfoldable pub replace_target : Os → List Bytes → Bytes → Bytes → Bool → Disk → Status × Disk
replace_target os paths temp out remove_old d = elim (rename_file os temp out d) [
  | none ↦ (
    Status.io_error (text "Failed to rename temporary compacted SSTable: " ++ os.reason d),
    remove_file os temp d,
  )
  | some d' ↦ (Status.ok, if remove_old then remove_inputs os out paths d' else d')
]

-- The temporary file is opened once before it is used.
unfoldable pub verify : Os → List Bytes → Bytes → Bytes → Bool → Disk → Status × Disk
verify os paths temp out remove_old d =
    let (s, verifier) = Reader.open_table os temp true Reader.init d in
    if Status.is_ok s then replace_target os paths temp out remove_old d else (
      Status.corruption (text "Failed to verify compacted SSTable: " ++ s.message),
      remove_file os temp d,
    )

-- What follows the merge: the surviving entries are written to a temporary file.
unfoldable pub write_merged :
    Os → List Bytes → Bytes → Options → Bool → Merged → Disk → Status × Disk
write_merged os paths out o remove_old merged d =
    let temp = out ++ text ".compact_tmp" in
    let (s, d') = write_from_entries os temp (surviving merged) o (remove_file os temp d) in
    if Status.is_ok s then verify os paths temp out remove_old d' else (s, remove_file os temp d')

-- `none` where the fuel of a scan runs out. `stale` is as in `SsTable.ReadAll`.
unfoldable pub compact :
    Os → Bytes → List Bytes → Bytes → Options → Bool → Disk → Option (Status × Disk)
compact os stale paths out o remove_old d =
    let merge = merge_tables os d stale paths [] in
    if is_empty paths
    then some (Status.invalid_argument (text "No SSTables provided for compaction"), d)
    else elim merge [
      | none ↦ none
      | some (s, merged) ↦ elim (Status.is_ok s) [
        | true ↦ some (write_merged os paths out o remove_old merged d)
        | false ↦ some (s, d)
      ]
    ]
