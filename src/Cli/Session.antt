-- ===== src/Cli/Session.antt =====
-- The state of a session of src/cli.cpp, what it prints, and the tables that it shows.
use lsm_tree_key_value_store.Prelude.{not, none, some, List, [], ◌∷◌, ◌++◌, Bytes, if◌then◌else◌}
use lsm_tree_key_value_store.Prelude.Strings.{text, is_empty}
use lsm_tree_key_value_store.Status
use lsm_tree_key_value_store.Status.{Status}
use lsm_tree_key_value_store.Disk.{Disk, Os, exists, open_read}
use lsm_tree_key_value_store.KvStore.{KvStore}
use lsm_tree_key_value_store.KvStore.Names.{lines}
use lsm_tree_key_value_store.Cli.Words.{trim}

-- The store, the disk, and what `std::cout` has taken.
pub record Session : Type 0 where
  pub store : KvStore
  pub disk : Disk
  pub out : Bytes

-- `std::cout << bytes`
abbrev pub say : Bytes → Session → Session
say bytes s = record s { out = s.out ++ bytes }

abbrev pub line_feed : Bytes
line_feed = 10 ∷ []

-- `"Error: " << status.toString() << "\n"`
abbrev pub say_error : Status → Session → Session
say_error status s = say (text "Error: " ++ (Status.to_string status ++ line_feed)) s

-- The lines that are not empty once trimmed.
unfoldable pub trimmed_names : List Bytes → List Bytes
trimmed_names [] = []
trimmed_names (line ∷ rest) =
    let name = trim line in
    let names = trimmed_names rest in if not (is_empty name) then name ∷ names else names

-- `getActiveSSTables`
unfoldable pub active_sstables : Os → Disk → Bytes → List Bytes
active_sstables os d db_path =
    let path = db_path ++ text "/manifest.txt" in
    let found : List Bytes = elim (open_read os d path) [
      | none ↦ []
      | some bs ↦ trimmed_names (lines [] bs)
    ] in
    if exists d path then found else []

-- The loop that prints names with commas between them.
unfoldable pub joined : List Bytes → Bytes
joined [] = []
joined (name ∷ names) =
    let rest = joined names in
    if is_empty names then name ++ line_feed else name ++ (text ", " ++ rest)

-- `tables.back()`, on a list that is not empty.
unfoldable pub last_of : Bytes → List Bytes → Bytes
last_of name [] = name
last_of name (next ∷ names) = last_of next names
