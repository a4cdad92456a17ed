-- ===== src/Wal/Replay/Steps.antt =====
-- One round of the replay: on a record that was written, on a part of one, and on any bytes.
use lsm_tree_key_value_store.Prelude.{
  ℕ, ◌+◌, ◌≤◌, ◌≡◌, arith, ◌++◌, Bytes, true, get_or, take-length, drop-length, length, take, drop,
  length-take, length-drop, take_front, drop_front, ==_refl, le→ltb,
}
use lsm_tree_key_value_store.Types.Codes.{is_logged, to_byte-is_logged, of_byte-to_byte}
use lsm_tree_key_value_store.Types.{RecordType, of_byte}
use lsm_tree_key_value_store.Types.Crc32.{crc32, crc32-lt}
use lsm_tree_key_value_store.Codec.{encode32, decode32}
use lsm_tree_key_value_store.Codec.RoundTrip.{decode32-encode32_self, length-encode32}
use lsm_tree_key_value_store.Frame.{header, encode}
use lsm_tree_key_value_store.Frame.Layout.{
  kept_value, encode-append, length-header, key_len-header, val_len-header, type-header,
  kept_value-le, kept_value-le,
}
use lsm_tree_key_value_store.Wal.Replay.{
  WalRecord, record_read, max_key, max_value, check_crc, read_value, read_key, read_fields,
  read_record,
}

module _ {rec : WalRecord} {rest : Bytes} where
  check_crc-shorter :
      (head : Bytes) (r : WalRecord) (bs : Bytes)
      → check_crc head r bs ≡ record_read rec rest
      → length rest + 4 ≤ length bs
  unfolding check_crc
  check_crc-shorter head r bs h = ground (arith, length-take 4 bs, length-drop 4 bs)

  read_value-shorter :
      (head : Bytes) (type : RecordType) (key : Bytes) (vlen : ℕ) (bs : Bytes)
      → read_value head type key vlen bs ≡ record_read rec rest
      → length rest + 4 ≤ length bs
  unfolding read_value
  read_value-shorter head type key vlen bs h = ground (
    arith,
    length-drop vlen bs,
    check_crc-shorter head (record { type = type; key = key; value = take vlen bs }) (drop vlen bs),
  )

  read_key-shorter :
      (head : Bytes) (type : RecordType) (klen vlen : ℕ) (bs : Bytes)
      → read_key head type klen vlen bs ≡ record_read rec rest
      → length rest + 4 ≤ length bs
  unfolding read_key
  read_key-shorter head type klen vlen bs h =
      ground (
        arith,
        length-drop klen bs,
        read_value-shorter head type (take klen bs) vlen (drop klen bs),
      )

  read_fields-shorter :
      (head bs : Bytes) → read_fields head bs ≡ record_read rec rest → length rest + 4 ≤ length bs
  unfolding read_fields
  read_fields-shorter head bs h = ground (
    arith,
    read_key-shorter head (of_byte (get_or head 0 0)) (decode32 (drop 1 head))
        (decode32 (drop 5 head)) bs,
  )

  -- A round that returns a record has taken bytes off the front.
  pub read_record-shorter :
      (bs : Bytes) → read_record bs ≡ record_read rec rest → length rest + 13 ≤ length bs
  unfolding read_record
  read_record-shorter bs h =
      ground
        (arith, length-take 9 bs, length-drop 9 bs, read_fields-shorter (take 9 bs) (drop 9 bs))

-- The checksum that was written is the one that is computed.
check_crc-encode :
    (head key value rest : Bytes) (type : RecordType)
    → check_crc head
        (record { type = type; key = key; value = value })
        (encode32 (crc32 (head ++ (key ++ value))) ++ rest)
      ≡ record_read (record { type = type; key = key; value = value }) rest
unfolding check_crc
check_crc-encode head key value rest type =
    let crc = crc32 (head ++ (key ++ value)) in
    rw (
      take_front 4 (encode32 crc) rest (length-encode32 crc),
      drop_front 4 (encode32 crc) rest (length-encode32 crc),
      length-encode32 crc,
      decode32-encode32_self crc (crc32-lt (head ++ (key ++ value))),
      ==_refl crc,
    )

read_value-encode :
    (head key value rest : Bytes) (type : RecordType)
    → read_value head type key
        (length value)
        (value ++ (encode32 (crc32 (head ++ (key ++ value))) ++ rest))
      ≡ record_read (record { type = type; key = key; value = value }) rest
unfolding read_value
read_value-encode head key value rest type =
    let more = encode32 (crc32 (head ++ (key ++ value))) ++ rest in
    rw
      (
        take-length value more,
        drop-length value more,
        le→ltb (length value) (length value) (omega arith),
      )
      (check_crc-encode head key value rest type)

read_key-encode :
    (head key value rest : Bytes) (type : RecordType)
    → read_key head type
        (length key)
        (length value)
        (key ++ (value ++ (encode32 (crc32 (head ++ (key ++ value))) ++ rest)))
      ≡ record_read (record { type = type; key = key; value = value }) rest
unfolding read_key
read_key-encode head key value rest type =
    let more = value ++ (encode32 (crc32 (head ++ (key ++ value))) ++ rest) in
    rw (take-length key more, drop-length key more, le→ltb (length key) (length key) (omega arith))
      (read_value-encode head key value rest type)

-- Within the limits the fields of a header are read back.
pub read_fields-header :
    (type : RecordType) (klen vlen : ℕ) (rest : Bytes)
    → is_logged type ≡ true
    → klen ≤ max_key
    → vlen ≤ max_value
    → read_fields (header type klen vlen) rest
      ≡ read_key (header type klen vlen) type klen vlen rest
unfolding read_fields
read_fields-header type klen vlen rest ht hk hv = rw (
  type-header type klen vlen,
  key_len-header type klen vlen (omega arith),
  val_len-header type klen vlen (omega arith),
  le→ltb max_key klen hk,
  le→ltb max_value vlen hv,
  to_byte-is_logged type ht,
  of_byte-to_byte type ht,
)

-- A complete header leads to the checks of its fields.
pub read_record-header :
    (head rest : Bytes) → length head ≡ 9 → read_record (head ++ rest) ≡ read_fields head rest
unfolding read_record
read_record-header head rest h = rw (take_front 9 head rest h, drop_front 9 head rest h, h)

-- A record within the limits is read back, whatever follows it.
pub read_record-encode :
    (type : RecordType) (key value rest : Bytes)
    → is_logged type ≡ true
    → length key ≤ max_key
    → length value ≤ max_value
    → read_record (encode type key value ++ rest)
      ≡ record_read (record { type = type; key = key; value = kept_value type value }) rest
read_record-encode type key value rest ht hk hv =
    let v = kept_value type value in
    rw
      (
        encode-append type key value rest
            (record { key_fits = omega arith; value_fits = omega arith }),
        read_record-header (header type (length key) (length v)) _
            (length-header type (length key) (length v)),
        read_fields-header type (length key) (length v) _ ht hk
            (omega (arith, kept_value-le type value)),
      )
      (read_key-encode (header type (length key) (length v)) key v rest type)
