-- ===== src/Cli/Program.antt =====
-- The loop and the `main` of src/cli.cpp.
use lsm_tree_key_value_store.Prelude.{
  ℕ, ◌||◌, Option, none, some, List, [], ◌∷◌, ◌++◌, Bytes, if◌then◌else◌,
}
use lsm_tree_key_value_store.Prelude.Strings.{text, string_eq, is_empty}
use lsm_tree_key_value_store.Status
use lsm_tree_key_value_store.Status.{Status}
use lsm_tree_key_value_store.Options.{default_options}
use lsm_tree_key_value_store.Disk.{Disk, Os}
use lsm_tree_key_value_store.KvStore
use lsm_tree_key_value_store.KvStore.{KvStore}
use lsm_tree_key_value_store.KvStore.Names.{lines}
use lsm_tree_key_value_store.KvStore.Open.{open_store}
use lsm_tree_key_value_store.KvStore.Ops.{close, after}
use lsm_tree_key_value_store.Cli.Words.{trim, to_upper, next_token}
use lsm_tree_key_value_store.Cli.Session.{Session, say}
use lsm_tree_key_value_store.Cli.Commands.{
  put_command, get_command, delete_command, flush_command, compact_command, stats_command,
  help_text,
}

-- What a command leads to: the session goes on, or it ends.
pub data Turn : Type 0 where
  goes_on : Session → Turn
  ends : Session → Turn

-- The chain of tests on the command's word. `none` where the fuel of a scan runs out.
unfoldable pub dispatch : Os → Bytes → Bytes → Bytes × Bytes → Session → Option Turn
dispatch os stale db_path (cmd, rest) s =
    let cmd_upper = to_upper cmd in
    if string_eq cmd_upper (text "EXIT") || string_eq cmd_upper (text "QUIT")
    then some (ends s)
    else if string_eq cmd_upper (text "HELP")
    then some (goes_on (say help_text s))
    else if string_eq cmd_upper (text "PUT")
    then after goes_on (put_command os stale rest s)
    else if string_eq cmd_upper (text "GET")
    then after goes_on (get_command os rest s)
    else if string_eq cmd_upper (text "DELETE")
    then after goes_on (delete_command os stale rest s)
    else if string_eq cmd_upper (text "FLUSH")
    then after goes_on (flush_command os stale db_path s)
    else if string_eq cmd_upper (text "COMPACT")
    then after goes_on (compact_command os stale db_path s)
    else if string_eq cmd_upper (text "STATS")
    then some (goes_on (stats_command os db_path s))
    else some (
        goes_on (
          say (text "Unknown command: '" ++ (cmd ++ text "'. Type HELP for available commands.\n"))
            s))

-- One round of the loop, on a line that was read.
unfoldable pub round : Os → Bytes → Bytes → Bytes → Session → Option Turn
round os stale db_path raw s =
    let line = trim raw in
    if is_empty line then some (goes_on s) else dispatch os stale db_path (next_token line) s

-- The loop: a prompt, then a line; at the end of the input it stops after the prompt.
unfoldable pub session_loop : Os → Bytes → Bytes → List Bytes → Session → Option Session
session_loop os stale db_path [] s = some (say (text "annany_lsm> ") s)
session_loop os stale db_path (raw ∷ raws) s =
    elim (round os stale db_path raw (say (text "annany_lsm> ") s)) [
      | none ↦ none
      | some turn ↦ elim turn [
        | goes_on s' ↦ session_loop os stale db_path raws s'
        | ends s' ↦ some s'
      ]
    ]

-- How the program ends: the exit status, what both streams have taken, and the disk.
pub record Outcome : Type 0 where
  pub code : ℕ
  pub out : Bytes
  pub err : Bytes
  pub disk : Disk

-- `store.close()` and the last line.
unfoldable pub farewell : Session → Outcome
farewell s =
    let s' = record s { store = (close s.store).1 } in
    record {
      code = 0;
      out = s'.out ++ text "Database closed. Goodbye!\n";
      err = [];
      disk = s'.disk;
    }

unfoldable pub banner : Bytes → Bytes
banner db_path =
    text "========================================\n"
    ++ (text "       LSM-Tree Key-Value Store         \n"
        ++ (text "========================================\n"
            ++ (text "Database: " ++ (db_path ++ (10 ∷ [] ++ text "Type HELP for commands.\n\n")))))

-- `argv[1]`, or the default.
unfoldable pub path_argument : List Bytes → Bytes
path_argument [] = text "./demo_db"
path_argument (arg ∷ args) = arg

-- What follows the `open`.
unfoldable pub opened : Os → Bytes → Bytes → Bytes → Status × KvStore × Disk → Option Outcome
opened os stale db_path input (status, store, d) =
    let s : Session = record { store = store; disk = d; out = banner db_path } in
    if Status.is_ok status
    then after farewell (session_loop os stale db_path (lines [] input) s)
    else some (record {
      code = 1;
      out = [];
      err =
          text "Failed to open database at '"
          ++ (db_path ++ (text "': " ++ (Status.to_string status ++ 10 ∷ [])));
      disk = d;
    })

-- `main`, on the arguments after the program's name and the whole of its input. `none` where the fuel
-- of a scan runs out. `stale` is as in `SsTable.ReadAll`.
unfoldable pub main : Os → Bytes → List Bytes → Bytes → Disk → Option Outcome
main os stale args input d =
    let db_path = path_argument args in
    elim (open_store os db_path (KvStore.init default_options) d) [
      | none ↦ none
      | some run ↦ opened os stale db_path input run
    ]
