-- ===== src/Wal/Replay/Longer.antt =====
-- What a replay reads where more bytes follow.
use lsm_tree_key_value_store.Prelude.{
  ℕ, ◌≡◌, arith, ◌++◌, Bytes, get_or, take, drop, take-append_le, drop-append_le, length-take,
}
use lsm_tree_key_value_store.Types.{RecordType, of_byte}
use lsm_tree_key_value_store.Codec.{decode32}
use lsm_tree_key_value_store.Wal.Replay.{
  WalRecord, Round, eof, truncated, corrupt, record_read, read_record, check_crc, read_value,
  read_key, read_fields,
}

-- What a round makes of a longer input: the rest grows, and a corruption stays one.
abbrev pub extend : Bytes → Round → Round
extend more eof = eof
extend more (truncated msg) = truncated msg
extend more (corrupt msg) = corrupt msg
extend more (record_read rec rest) = record_read rec (rest ++ more)

-- A round that did not meet the end of the input reads the same from a longer input.
abbrev pub IsConclusive : Round → Type 0
IsConclusive eof = ⊥
IsConclusive (truncated msg) = ⊥
IsConclusive (corrupt msg) = Unit
IsConclusive (record_read rec rest) = Unit

module _ (more : Bytes) where
  check_crc-append :
      (head : Bytes) (rec : WalRecord) (bs : Bytes)
      → IsConclusive (check_crc head rec bs)
      → check_crc head rec (bs ++ more) ≡ extend more (check_crc head rec bs)
  unfolding check_crc
  check_crc-append head rec bs h =
      ground (arith, length-take 4 bs, take-append_le 4 bs more, drop-append_le 4 bs more)

  read_value-append :
      (head : Bytes) (type : RecordType) (key : Bytes) (vlen : ℕ) (bs : Bytes)
      → IsConclusive (read_value head type key vlen bs)
      → read_value head type key vlen (bs ++ more) ≡ extend more (read_value head type key vlen bs)
  unfolding read_value
  read_value-append head type key vlen bs h = ground (
    arith,
    length-take vlen bs,
    take-append_le vlen bs more,
    drop-append_le vlen bs more,
    check_crc-append head (record { type = type; key = key; value = take vlen bs }) (drop vlen bs),
  )

  read_key-append :
      (head : Bytes) (type : RecordType) (klen vlen : ℕ) (bs : Bytes)
      → IsConclusive (read_key head type klen vlen bs)
      → read_key head type klen vlen (bs ++ more) ≡ extend more (read_key head type klen vlen bs)
  unfolding read_key
  read_key-append head type klen vlen bs h = ground (
    arith,
    length-take klen bs,
    take-append_le klen bs more,
    drop-append_le klen bs more,
    read_value-append head type (take klen bs) vlen (drop klen bs),
  )

  read_fields-append :
      (head bs : Bytes)
      → IsConclusive (read_fields head bs)
      → read_fields head (bs ++ more) ≡ extend more (read_fields head bs)
  unfolding read_fields
  read_fields-append head bs h = ground (
    arith,
    read_key-append head (of_byte (get_or head 0 0)) (decode32 (drop 1 head))
        (decode32 (drop 5 head)) bs,
  )

  pub read_record-append :
      (bs : Bytes)
      → IsConclusive (read_record bs)
      → read_record (bs ++ more) ≡ extend more (read_record bs)
  unfolding read_record
  read_record-append bs h = ground (
    arith,
    length-take 9 bs,
    take-append_le 9 bs more,
    drop-append_le 9 bs more,
    read_fields-append (take 9 bs) (drop 9 bs),
  )
