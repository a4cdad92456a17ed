-- ===== src/Wal/Replay.antt =====
-- src/wal.cpp: `WAL::replay`, which reads a log from its start and hands each record to a consumer.
pub mod Steps
pub mod Recovery
pub mod Longer
pub mod Damage
use lsm_tree_key_value_store.Prelude.{
  ℕ, zero, suc, ◌*◌, ◌+◌, Bool, true, false, ◌||◌, Option, none, some, List, [], ◌∷◌, ◌++◌, Bytes,
  length, take, drop, get_or, ltb, ◌==◌, if◌then◌else◌,
}
use lsm_tree_key_value_store.Prelude.Strings.{text}
use lsm_tree_key_value_store.Prelude.Decimal.{decimal}
use lsm_tree_key_value_store.Types.{RecordType, of_byte}
use lsm_tree_key_value_store.Types.Crc32.{crc32}
use lsm_tree_key_value_store.Codec.{decode32}
use lsm_tree_key_value_store.Status
use lsm_tree_key_value_store.Status.{Status}
use lsm_tree_key_value_store.Disk.{Disk, Os, open_read}

pub record WalRecord : Type 0 where
  pub type : RecordType
  pub key : Bytes
  pub value : Bytes

-- How one round of the loop ends: at the end of the file; inside a record, with the flag
-- `out_had_truncation` set; with another corruption; or with a record and the bytes after it.
pub data Round : Type 0 where
  eof : Round
  truncated : Bytes → Round
  corrupt : Bytes → Round
  record_read : WalRecord → Bytes → Round

abbrev pub max_key : ℕ
max_key = 16 * 1024 * 1024

abbrev pub max_value : ℕ
max_value = 64 * 1024 * 1024

-- The checksum, and the record that it covers.
unfoldable pub check_crc : Bytes → WalRecord → Bytes → Round
check_crc head rec rest =
    let crc_buf = take 4 rest in
    if ltb (length crc_buf) 4
    then truncated (text "Truncated WAL record checksum")
    else if crc32 (head ++ (rec.key ++ rec.value)) == decode32 crc_buf
    then record_read rec (drop 4 rest)
    else corrupt (text "WAL record checksum mismatch")

unfoldable pub read_value : Bytes → RecordType → Bytes → ℕ → Bytes → Round
read_value head type key vlen rest =
    let value = take vlen rest in
    if ltb (length value) vlen
    then truncated (text "Truncated WAL record value payload")
    else check_crc head (record { type = type; key = key; value = value }) (drop vlen rest)

unfoldable pub read_key : Bytes → RecordType → ℕ → ℕ → Bytes → Round
read_key head type klen vlen rest =
    let key = take klen rest in
    if ltb (length key) klen
    then truncated (text "Truncated WAL record key payload")
    else read_value head type key vlen (drop klen rest)

-- The defensive checks on a complete header.
unfoldable pub read_fields : Bytes → Bytes → Round
read_fields head rest =
    let type_val = get_or head 0 0 in
    let klen = decode32 (drop 1 head) in
    let vlen = decode32 (drop 5 head) in
    if type_val == 1 || type_val == 2
    then (if ltb max_key klen || ltb max_value vlen
        then corrupt (text "WAL record payload lengths exceed reasonable safety limits")
        else read_key head (of_byte type_val) klen vlen rest)
    else corrupt (text "Invalid RecordType in WAL: " ++ decimal type_val)

unfoldable pub read_record : Bytes → Round
read_record bs =
    let head = take 9 bs in
    if length head == 0
    then eof
    else if ltb (length head) 9
    then truncated (text "Truncated WAL record header")
    else read_fields head (drop 9 bs)

-- What a replay ends with: its status, the consumer's state, and the flag.
pub record Replay (S : Type 0) : Type 0 where
  pub status : Status
  pub state : S
  pub had_truncation : Bool

module _ {S : Type 0} (consumer : S → WalRecord → S) where
  -- The loop, one record a round; `none` means that the fuel ran out.
  unfoldable pub replay_loop : ℕ → S → Bytes → Option (Replay S)
  replay_loop zero s bs = none
  replay_loop (suc fuel) s bs = elim (read_record bs) [
    | eof ↦ some (record { status = Status.ok; state = s; had_truncation = false })
    | truncated msg ↦
        some (record { status = Status.corruption msg; state = s; had_truncation = true })
    | corrupt msg ↦
        some (record { status = Status.corruption msg; state = s; had_truncation = false })
    | record_read rec rest ↦ replay_loop fuel (consumer s rec) rest
  ]

  -- The fuel of `replay` is one more than the bytes of the file: a record takes 13 of them at least.
  unfoldable pub replay_bytes : S → Bytes → Option (Replay S)
  replay_bytes s bs = replay_loop (suc (length bs)) s bs

  -- A log that cannot be opened is one that is not there yet.
  unfoldable pub replay : Os → Disk → Bytes → S → Option (Replay S)
  replay os d path s = elim (open_read os d path) [
    | none ↦ some (record { status = Status.ok; state = s; had_truncation = false })
    | some bs ↦ replay_bytes s bs
  ]

-- The overload that collects the records in a vector.
abbrev pub push_back : List WalRecord → WalRecord → List WalRecord
push_back out rec = out ++ rec ∷ []
