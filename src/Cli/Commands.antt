-- ===== src/Cli/Commands.antt =====
-- The commands of src/cli.cpp, each on what follows its word in the line.
use lsm_tree_key_value_store.Prelude.{
  Option, some, List, [], ◌∷◌, ◌++◌, Bytes, length, ltb, if◌then◌else◌,
}
use lsm_tree_key_value_store.Prelude.Strings.{text, is_empty}
use lsm_tree_key_value_store.Prelude.Decimal.{decimal}
use lsm_tree_key_value_store.Status
use lsm_tree_key_value_store.Status.{Status}
use lsm_tree_key_value_store.Result
use lsm_tree_key_value_store.Result.{Result}
use lsm_tree_key_value_store.Disk.{Disk, Os}
use lsm_tree_key_value_store.KvStore.{KvStore, memtable_size}
use lsm_tree_key_value_store.KvStore.Ops.{put, remove, get, flush, compact, after}
use lsm_tree_key_value_store.Cli.Words.{trim, next_token, first_line}
use lsm_tree_key_value_store.Cli.Session.{
  Session, say, say_error, line_feed, active_sstables, joined, last_of,
}

-- The session after an operation, with its status.
abbrev pub moved : Session → Status × KvStore × Disk → Status × Session
moved s (status, store, disk) = (status, record s { store = store; disk = disk })

-- What `PUT` and `DELETE` print.
unfoldable pub acknowledge : Bytes → Status × Session → Session
acknowledge message (status, s) = if Status.is_ok status then say message s else say_error status s

unfoldable pub put_command : Os → Bytes → Bytes → Session → Option Session
put_command os stale rest s =
    let (key, rest') = next_token rest in
    let val = trim (first_line rest') in
    if is_empty key
    then some (say (text "Error: Missing key. Usage: PUT <key> <value>\n") s)
    else if is_empty val
    then some (say (text "Error: Missing value. Usage: PUT <key> <value>\n") s)
    else after (λ run. acknowledge (text "OK [WAL appended]\n") (moved s run))
        (put os stale key val s.store s.disk)

-- What `GET` prints.
unfoldable pub show_result : Result → Session → Session
show_result r s =
    if Result.is_ok r
    then say (r.value ++ line_feed) s
    else if Status.is_not_found r.status
    then say (text "NOT_FOUND\n") s
    else say_error r.status s

unfoldable pub get_command : Os → Bytes → Session → Option Session
get_command os rest s =
    let key = (next_token rest).0 in
    if is_empty key
    then some (say (text "Error: Missing key. Usage: GET <key>\n") s)
    else after (λ r. show_result r s) (get os s.disk key s.store)

unfoldable pub delete_command : Os → Bytes → Bytes → Session → Option Session
delete_command os stale rest s =
    let key = (next_token rest).0 in
    if is_empty key
    then some (say (text "Error: Missing key. Usage: DELETE <key>\n") s)
    else after (λ run. acknowledge (text "OK [TOMBSTONE written to WAL/MemTable]\n") (moved s run))
        (remove os stale key s.store s.disk)

-- What `FLUSH` prints for the tables before and after it.
unfoldable pub flush_report : List Bytes → List Bytes → Bytes
flush_report before [] = text "FLUSH complete (MemTable was empty, no new SSTable created)\n"
flush_report before (name ∷ names) =
    if ltb (length before) (length (name ∷ names))
    then text "FLUSH complete\n"
      ++ (text "SSTable created: "
          ++ (last_of name names
              ++ (line_feed
                  ++ (text "Active SSTables: " ++ (decimal (length (name ∷ names)) ++ line_feed)))))
    else text "FLUSH complete (MemTable was empty, no new SSTable created)\n"

unfoldable pub flush_done : Os → Bytes → List Bytes → Status × Session → Session
flush_done os db_path before (status, s) =
    if Status.is_ok status
    then say (flush_report before (active_sstables os s.disk db_path)) s
    else say_error status s

unfoldable pub flush_command : Os → Bytes → Bytes → Session → Option Session
flush_command os stale db_path s =
    let before = active_sstables os s.disk db_path in
    after (λ run. flush_done os db_path before (moved s run)) (flush os stale s.store s.disk)

-- `after_ssts.empty() ? "(none)" : after_ssts.front()`
unfoldable pub front_or_none : List Bytes → Bytes
front_or_none [] = text "(none)"
front_or_none (name ∷ names) = name

unfoldable pub compact_done : Os → Bytes → List Bytes → Status × Session → Session
compact_done os db_path before (status, s) =
    let out = front_or_none (active_sstables os s.disk db_path) in
    if Status.is_ok status
    then say
        (text "Output SSTable: "
          ++ (out
              ++ (line_feed
                  ++ (text "Old SSTables removed: "
                      ++ (joined before ++ text "Compaction complete\n")))))
        s
    else say_error status s

unfoldable pub compact_command : Os → Bytes → Bytes → Session → Option Session
compact_command os stale db_path s =
    let before = active_sstables os s.disk db_path in
    let started =
      say (text "Compaction started\n" ++ (text "Input SSTables: " ++ joined before)) s in
    if ltb (length before) 2
    then some (
        say
          (text "Compaction skipped: requires at least 2 SSTables (currently "
            ++ (decimal (length before) ++ text ")\n"))
          s)
    else after (λ run. compact_done os db_path before (moved started run))
        (compact os stale s.store s.disk)

unfoldable pub stats_rows : List Bytes → Bytes
stats_rows [] = []
stats_rows (sst ∷ ssts) = text "  - " ++ (sst ++ (line_feed ++ stats_rows ssts))

unfoldable pub stats_command : Os → Bytes → Session → Session
stats_command os db_path s =
    let ssts = active_sstables os s.disk db_path in
    say
      (text "Database Path:       "
        ++ (db_path
            ++ (line_feed
                ++ (text "Active SSTables:     "
                    ++ (decimal (length ssts)
                        ++ (line_feed
                            ++ (stats_rows ssts
                                ++ (text "MemTable Approx Size:"
                                    ++ (decimal (memtable_size s.store) ++ text " bytes\n")))))))))
      s

unfoldable pub help_text : Bytes
help_text =
    text "Supported Commands:\n"
    ++ (text "  PUT <key> <value>    Insert or update key-value pair (supports spaces in value)\n"
        ++ (text "  GET <key>            Look up value for key\n"
            ++ (text "  DELETE <key>         Delete key (writes tombstone)\n"
                ++ (text "  FLUSH                Flush MemTable to a new SSTable on disk\n"
                    ++ (text
                          "  COMPACT              Merge all active SSTables into a single SSTable\n"
                        ++ (text
                              "  STATS                Display active SSTable count and MemTable size\n"
                            ++ (text "  HELP                 Show this help message\n"
                                ++ text "  EXIT / QUIT          Close database and exit\n")))))))
