-- ===== src/Wal.antt =====
-- include/lsm/wal.h and src/wal.cpp: the write-ahead log. This file has the operations on the open
-- log; `Wal.Replay` has the reader.
pub mod Append
pub mod Refusal
pub mod Replay
use lsm_tree_key_value_store.Prelude.{
  Bool, true, false, Option, none, some, [], ◌++◌, Bytes, if◌then◌else◌,
}
use lsm_tree_key_value_store.Prelude.Strings.{text}
use lsm_tree_key_value_store.Types.{RecordType}
use lsm_tree_key_value_store.Types.Crc32.{crc32}
use lsm_tree_key_value_store.Codec.{encode32}
use lsm_tree_key_value_store.Frame.{payload}
use lsm_tree_key_value_store.Status
use lsm_tree_key_value_store.Status.{Status}
use lsm_tree_key_value_store.Disk.{Disk, Os, Stream, open_append, open_trunc, write}

-- `good` is the state of the stream `file_`.
pub record Wal : Type 0 where
  pub filepath : Bytes
  pub is_open : Bool
  pub good : Bool

-- `WAL()`
abbrev pub init : Wal
init = record { filepath = []; is_open = false; good = true }

-- `close()`; the bytes are in the file already.
unfoldable pub close : Wal → Wal
close w = record w { is_open = false }

opened : Bytes → Wal → Disk → Option (Stream × Disk) → Status × Wal × Disk
opened err w d none = (Status.io_error err, w, d)
opened err w d (some (s, d')) = (Status.ok, record w { is_open = true; good = s.good }, d')

unfoldable pub open_log : Os → Bytes → Wal → Disk → Status × Wal × Disk
unfolding opened close
open_log os path w d =
    opened (text "Failed to open WAL file: " ++ path) (record (close w) { filepath = path }) d
      (open_append os d path)

-- What `append_record` does with the stream after both writes.
written : Wal → Stream × Disk → Status × Wal × Disk
written w (s, d) =
    if s.good
    then (Status.ok, w, d)
    else (Status.io_error (text "Failed writing to WAL file"), record w { good = false }, d)

unfoldable pub append_record : Os → RecordType → Bytes → Bytes → Wal → Disk → Status × Wal × Disk
unfolding written
append_record os type key value w d =
    let buffer = payload type key value in
    let stream : Stream = record { path = w.filepath; good = w.good } in
    if w.is_open
    then written w (write os (encode32 (crc32 buffer)) (write os buffer (stream, d)))
    else (Status.io_error (text "WAL is not open"), w, d)

unfoldable pub append_put : Os → Bytes → Bytes → Wal → Disk → Status × Wal × Disk
append_put os key value w d = append_record os RecordType.put key value w d

unfoldable pub append_delete : Os → Bytes → Wal → Disk → Status × Wal × Disk
append_delete os key w d = append_record os RecordType.tombstone key [] w d

unfoldable pub flush : Wal → Status
flush w =
    if w.is_open
    then (if w.good then Status.ok else Status.io_error (text "Failed to flush WAL file"))
    else Status.io_error (text "WAL is not open")

-- Truncates the file, and leaves it open from its start.
unfoldable pub clear : Os → Wal → Disk → Status × Wal × Disk
unfolding opened close
clear os w d =
    opened (text "Failed to truncate WAL file: " ++ w.filepath) (close w) d
      (open_trunc os d w.filepath)
