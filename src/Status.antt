-- ===== src/Status.antt =====
-- include/lsm/status.h: `Status`, a code with a message.
pub mod Code
use lsm_tree_key_value_store.Prelude.{Bool, true, false, [], ◌++◌, Bytes}
use lsm_tree_key_value_store.Prelude.Strings.{text}
use Code.{StatusCode}

pub record Status : Type 0 where
  pub code : StatusCode
  pub message : Bytes

-- `Status::OK()`, and the constructor without arguments.
abbrev pub ok : Status
ok = record { code = StatusCode.ok; message = [] }

abbrev pub not_found : Bytes → Status
not_found msg = record { code = StatusCode.not_found; message = msg }

abbrev pub io_error : Bytes → Status
io_error msg = record { code = StatusCode.io_error; message = msg }

abbrev pub corruption : Bytes → Status
corruption msg = record { code = StatusCode.corruption; message = msg }

abbrev pub invalid_argument : Bytes → Status
invalid_argument msg = record { code = StatusCode.invalid_argument; message = msg }

abbrev code_is_ok : StatusCode → Bool
code_is_ok StatusCode.ok = true
code_is_ok _ = false

-- `s.ok()`
abbrev pub is_ok : Status → Bool
is_ok s = code_is_ok s.code

abbrev code_is_not_found : StatusCode → Bool
code_is_not_found StatusCode.not_found = true
code_is_not_found _ = false

-- `s.isNotFound()`
abbrev pub is_not_found : Status → Bool
is_not_found s = code_is_not_found s.code

render : StatusCode → Bytes → Bytes
render StatusCode.ok msg = text "OK"
render StatusCode.not_found msg = text "NotFound: " ++ msg
render StatusCode.io_error msg = text "IOError: " ++ msg
render StatusCode.corruption msg = text "Corruption: " ++ msg
render StatusCode.invalid_argument msg = text "InvalidArgument: " ++ msg

-- `s.toString()`
unfoldable pub to_string : Status → Bytes
unfolding render
to_string s = render s.code s.message
