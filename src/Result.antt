-- ===== src/Result.antt =====
-- include/lsm/status.h: `Result`, a status with a value.
use lsm_tree_key_value_store.Prelude.{Bool, [], Bytes}
use lsm_tree_key_value_store.Status
use lsm_tree_key_value_store.Status.{Status}

pub record Result : Type 0 where
  pub status : Status
  pub value : Bytes

abbrev pub ok : Bytes → Result
ok value = record { status = Status.ok; value = value }

abbrev pub not_found : Bytes → Result
not_found msg = record { status = Status.not_found msg; value = [] }

abbrev pub error : Status → Result
error s = record { status = s; value = [] }

-- `r.ok()`
abbrev pub is_ok : Result → Bool
is_ok r = Status.is_ok r.status
