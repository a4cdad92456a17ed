-- ===== src/Tests/CliTests.antt =====
-- The command line at concrete inputs.
use lsm_tree_key_value_store.Prelude.{◌≡◌, refl, arith, none, some, List, [], ◌∷◌, Bytes, map}
use lsm_tree_key_value_store.Prelude.Strings.{text, is_empty, string_eq}
use lsm_tree_key_value_store.Disk.{reliable, exists}
use lsm_tree_key_value_store.SsTable.Writer.{table_entries}
use lsm_tree_key_value_store.KvStore.Names.{lines}
use lsm_tree_key_value_store.KvStore.View.{view}
use lsm_tree_key_value_store.KvStore.Volume.{total}
use lsm_tree_key_value_store.KvStore.Capacity.{HasCapacity}
use lsm_tree_key_value_store.KvStore.History.{Op, writes, deletes, effects, cost, costs}
use lsm_tree_key_value_store.Cli.Words.{
  trim, trim_front, trim_back, to_upper, next_token, skip_space, word, first_line,
}
use lsm_tree_key_value_store.Cli.Session.{Session, say}
use lsm_tree_key_value_store.Cli.Commands.{get_command}
use lsm_tree_key_value_store.Cli.Program.{path_argument, session_loop, main}
use lsm_tree_key_value_store.Cli.Requests.{
  requests_of, requests_of_all, is_exit, put_request, delete_request,
}
use lsm_tree_key_value_store.Cli.Requests.Lines.{line_of, requests_of_all-line_of}
use lsm_tree_key_value_store.Cli.Effects.{printed, get_command-view}
use lsm_tree_key_value_store.Cli.Effects.Sessions.{Ended, session_loop-effects}
use lsm_tree_key_value_store.Cli.Effects.Programs.{Exited, main-effects}
use lsm_tree_key_value_store.Tests.SsTableTests.{length-entries}
use lsm_tree_key_value_store.Tests.StoreTests.{full_store, full_store-Represents}
use lsm_tree_key_value_store.Tests.RecoveryTests.{
  log_records, left_disk, left_disk-Durable, empty_disk,
}

token_put : next_token (text "put  k a b") ≡ (text "put", text "  k a b")
unfolding text next_token skip_space word
token_put = refl

trim_line : trim (text " \tGet k \r\n") ≡ text "Get k"
unfolding text trim is_empty
trim_line = refl

upper_put : to_upper (text "pUt1") ≡ text "PUT1"
unfolding text to_upper
upper_put = refl

abbrev some_changes : List Op
some_changes = writes (97 ∷ []) (98 ∷ 32 ∷ 99 ∷ []) ∷ deletes (100 ∷ []) ∷ []

requests_of_all-line_of_example : requests_of_all (map line_of some_changes) ≡ some_changes
unfolding is_empty trim_front trim_back first_line
requests_of_all-line_of_example = requests_of_all-line_of some_changes (
  (
    record { full = refl; solid = (refl, tt) },
    record { full = refl; front = refl; back = refl; single = refl },
  ),
  (record { full = refl; solid = (refl, tt) }, tt),
)

abbrev full_session : Session
full_session = record { store = full_store; disk = left_disk; out = [] }

-- ` k`
get_command-view_example :
    get_command reliable (32 ∷ 107 ∷ []) full_session
    ≡ some (say (printed (view full_store [] (next_token (32 ∷ 107 ∷ [])).0)) full_session)
get_command-view_example =
    get_command-view (32 ∷ 107 ∷ []) full_session [] (full_store-Represents left_disk)
      (unfold next_token skip_space word is_empty in refl)

-- `put a b`, a blank line, `delete a`, `quit`, `put a c`
abbrev some_lines : List Bytes
some_lines =
    (112 ∷ 117 ∷ 116 ∷ 32 ∷ 97 ∷ 32 ∷ 98 ∷ [])
    ∷ (32 ∷ [])
    ∷ (100 ∷ 101 ∷ 108 ∷ 101 ∷ 116 ∷ 101 ∷ 32 ∷ 97 ∷ [])
    ∷ (113 ∷ 117 ∷ 105 ∷ 116 ∷ [])
    ∷ (112 ∷ 117 ∷ 116 ∷ 32 ∷ 97 ∷ 32 ∷ 99 ∷ [])
    ∷ []

some_lines-requests :
    requests_of_all some_lines ≡ writes (97 ∷ []) (98 ∷ []) ∷ deletes (97 ∷ []) ∷ []
unfolding requests_of_all is_exit requests_of put_request delete_request next_token skip_space word
    trim trim_front trim_back is_empty to_upper string_eq text first_line
some_lines-requests = refl

some_room :
    HasCapacity (costs (writes (97 ∷ []) (98 ∷ []) ∷ deletes (97 ∷ []) ∷ [])) 10 full_store []
unfolding costs cost total table_entries
some_room = record {
  interval_pos = omega arith;
  bits_le = omega arith;
  bytes_fit = omega (arith, length-entries);
  numbers_fit = omega arith;
}

session_loop-effects_example :
    Ended
      (session_loop reliable [] (97 ∷ []) some_lines full_session)
      full_store.db_path
      (effects (requests_of_all some_lines) (view full_store []))
session_loop-effects_example =
    session_loop-effects [] (97 ∷ []) some_lines full_session []
      (record {
        represents = full_store-Represents left_disk;
        lasting = ([], log_records, left_disk-Durable);
      })
      (omega arith, (omega arith, (omega arith, (omega arith, (omega arith, tt)))))
      (rw (some_lines-requests) some_room)

-- `PUT a b`, `EXIT`
abbrev some_input : Bytes
some_input = 80 ∷ 85 ∷ 84 ∷ 32 ∷ 97 ∷ 32 ∷ 98 ∷ 10 ∷ 69 ∷ 88 ∷ 73 ∷ 84 ∷ 10 ∷ []

main-effects_example :
    Exited
      (main reliable [] ((100 ∷ []) ∷ []) some_input empty_disk)
      (path_argument ((100 ∷ []) ∷ []))
      (97 ∷ [])
      (effects (requests_of_all (lines [] some_input)) (λ j. none) (97 ∷ []))
unfolding is_empty exists path_argument lines
main-effects_example =
    main-effects [] some_input ((100 ∷ []) ∷ []) empty_disk (97 ∷ []) refl
      (record { here = refl; no_manifest = refl; no_log = refl }) (omega arith, (omega arith, tt))
      (omega arith) refl
