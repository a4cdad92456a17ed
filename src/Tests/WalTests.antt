-- ===== src/Tests/WalTests.antt =====
-- The log: two records, a torn one, a damaged one, one that is too long.
use lsm_tree_key_value_store.Prelude.{
  ℕ, ◌≡◌, ◌≢◌, refl, arith, true, false, some, List, [], ◌∷◌, ◌++◌, Bytes, All, replicate, take,
  drop,
}
use lsm_tree_key_value_store.Prelude.Strings.{text}
use lsm_tree_key_value_store.Types.{RecordType, to_byte}
use lsm_tree_key_value_store.Types.Crc32.{crc32, crc_step}
use lsm_tree_key_value_store.Codec.{encode32, decode32}
use lsm_tree_key_value_store.Status
use lsm_tree_key_value_store.Frame.{payload, header, key_len, val_len, encode}
use lsm_tree_key_value_store.Disk.{Disk, reliable, contents}
use lsm_tree_key_value_store.Wal.{Wal}
use lsm_tree_key_value_store.Wal.Append.{append_all, replay-append_all}
use lsm_tree_key_value_store.Wal.Replay.{WalRecord, replay_bytes, Replay, push_back}
use lsm_tree_key_value_store.Wal.Replay.Recovery.{encode_log, IsLogged, ended, replay_bytes_total}
use lsm_tree_key_value_store.Wal.Replay.Damage.{replay_bytes_torn, replay_bytes_mismatch}
use mathlib.Core.Option.{Option}

abbrev pub put_ab : WalRecord
put_ab = record { type = RecordType.put; key = b'a' ∷ []; value = b'b' ∷ b'c' ∷ [] }

abbrev pub delete_a : WalRecord
delete_a = record { type = RecordType.tombstone; key = b'a' ∷ []; value = [] }

abbrev pub two_records : List WalRecord
two_records = put_ab ∷ delete_a ∷ []

pub two_records-IsLogged : All IsLogged two_records
two_records-IsLogged = (
  record {
    type_logged = refl;
    key_small = omega arith;
    value_small = omega arith;
    value_kept = refl;
  },
  (
    record {
      type_logged = refl;
      key_small = omega arith;
      value_small = omega arith;
      value_kept = refl;
    },
    tt,
  ),
)

-- The bytes of `PUT a bc` as src/wal.cpp writes them, up to the checksum.
encode-put_ab :
    take 12 (encode RecordType.put (b'a' ∷ []) (b'b' ∷ b'c' ∷ []))
    ≡ 1 ∷ 1 ∷ 0 ∷ 0 ∷ 0 ∷ 2 ∷ 0 ∷ 0 ∷ 0 ∷ b'a' ∷ b'b' ∷ b'c' ∷ []
unfolding encode payload header key_len val_len to_byte encode32
encode-put_ab = refl

replay_bytes_total_example :
    (r : Replay (List WalRecord)) × (replay_bytes push_back [] (7 ∷ []) ≡ some r)
replay_bytes_total_example = replay_bytes_total push_back [] (7 ∷ [])

abbrev fresh_log : Wal
fresh_log = record { filepath = b'w' ∷ []; is_open = true; good = true }

abbrev blank : Disk
blank = record { file = λ p. Option.none; dir = λ p. false }

replay-append_all_example :
    replay_bytes push_back []
      (contents (append_all reliable two_records fresh_log blank) (b'w' ∷ []))
    ≡ ended push_back two_records Status.ok false
unfolding contents
replay-append_all_example =
    replay-append_all two_records fresh_log blank (record { open_now = refl; good_now = refl }) refl
      two_records-IsLogged

-- The record of `PUT a bc` cut after its first byte.
abbrev pub rest_of_put : Bytes
rest_of_put = drop 2 (encode RecordType.put (b'a' ∷ []) (b'b' ∷ b'c' ∷ []))

pub cut_put : encode RecordType.put (b'a' ∷ []) (b'b' ∷ b'c' ∷ []) ≡ (1 ∷ []) ++ (1 ∷ rest_of_put)
unfolding encode payload header key_len val_len to_byte encode32
cut_put = refl

replay_bytes_torn_example :
    (msg : Bytes) × (replay_bytes push_back [] (encode_log two_records ++ (1 ∷ []))
      ≡ ended push_back two_records (Status.corruption msg) true)
replay_bytes_torn_example =
    replay_bytes_torn push_back two_records put_ab (1 ∷ []) rest_of_put 1 [] two_records-IsLogged
      two_records-IsLogged.0 cut_put (λ e. cc)

-- Four zero bytes are not the checksum of `PUT a b`.
wrong_crc : decode32 (0 ∷ 0 ∷ 0 ∷ 0 ∷ []) ≢ crc32 (header RecordType.put 1 1 ++ (b'a' ∷ b'b' ∷ []))
unfolding decode32 crc32 crc_step header to_byte encode32
wrong_crc e = omega arith

replay_bytes_mismatch_example :
    replay_bytes push_back [] (
      encode_log two_records
      ++ (header RecordType.put 1 1
          ++ ((b'a' ∷ []) ++ ((b'b' ∷ []) ++ ((0 ∷ 0 ∷ 0 ∷ 0 ∷ []) ++ encode_log two_records)))))
    ≡ ended push_back two_records (Status.corruption (text "WAL record checksum mismatch")) false
replay_bytes_mismatch_example =
    replay_bytes_mismatch push_back two_records RecordType.put (b'a' ∷ []) (b'b' ∷ [])
      (0 ∷ 0 ∷ 0 ∷ 0 ∷ []) (encode_log two_records) [] two_records-IsLogged refl (omega arith)
      (omega arith) refl wrong_crc

-- A key of `n` bytes.
key_of_length : ℕ → Bytes
key_of_length n = replicate n b'k'
