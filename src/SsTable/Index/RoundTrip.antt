-- ===== src/SsTable/Index/RoundTrip.antt =====
-- What the reader gets from the index block that the writer writes.
use lsm_tree_key_value_store.Prelude.{
  ℕ, ◌+◌, ◌-◌, ◌%◌, ◌^◌, ◌<◌, ◌≤◌, ◌≡◌, refl, ap, ◌∙◌, sym, arith, [], ◌∷◌, ◌++◌, Bytes, length,
  All, drop, drop_front, take-length, drop-length, length-append, append_assoc, drop_past,
  length-drop, append-nil, le→ltb, ==_refl,
}
use lsm_tree_key_value_store.Types.Crc32.{crc32, crc32-lt}
use lsm_tree_key_value_store.Codec.{encode32, decode32, encode64}
use lsm_tree_key_value_store.Codec.RoundTrip.{
  decode32-encode32, decode64-encode64, decode32-encode32_self, length-encode32, length-encode64,
}
use lsm_tree_key_value_store.Throws.{returned}
use lsm_tree_key_value_store.SsTable.Index.{
  IndexEntry, Index, encode_entry, encode_entries, body, serialize, read_entry, read_entries,
  deserialize,
}

-- The length of the key and the offset lie within the ranges of their C++ types.
pub record InRange (e : IndexEntry) : Type 0 where
  pub key_fits : length e.key < 2 ^ 32
  pub offset_fits : e.offset < 2 ^ 64

pub length-encode_entry : (e : IndexEntry) → length (encode_entry e) ≡ 12 + length e.key
unfolding encode_entry
length-encode_entry e = omega (
  arith,
  length-append (encode32 (length e.key % 2 ^ 32)) (e.key ++ encode64 e.offset),
  length-append e.key (encode64 e.offset),
  length-encode32 (length e.key % 2 ^ 32),
  length-encode64 e.offset,
)

encode_entry-append :
    (e : IndexEntry) (rest : Bytes)
    → encode_entry e ++ rest
      ≡ encode32 (length e.key % 2 ^ 32) ++ (e.key ++ (encode64 e.offset ++ rest))
unfolding encode_entry
encode_entry-append e rest =
    append_assoc (encode32 (length e.key % 2 ^ 32)) (e.key ++ encode64 e.offset) rest
    ∙ ap (λ bs. encode32 (length e.key % 2 ^ 32) ++ bs)
        (append_assoc e.key (encode64 e.offset) rest)

-- One entry, at a cursor with four bytes of checksum behind the rest.
read_entry-encode_entry :
    (bs : Bytes) (cursor : ℕ) (e : IndexEntry) (rest : Bytes)
    → InRange e
    → drop cursor bs ≡ encode_entry e ++ rest
    → cursor ≤ length bs
    → 4 ≤ length rest
    → read_entry bs cursor ≡ returned (e, cursor + length (encode_entry e))
unfolding read_entry
read_entry-encode_entry bs cursor e rest h at le more =
    let klen = length e.key in
    let cell = e.key ++ (encode64 e.offset ++ rest) in
    let at_length : drop cursor bs ≡ encode32 (klen % 2 ^ 32) ++ cell =
      at ∙ encode_entry-append e rest in
    let small : klen % 2 ^ 32 ≡ klen = omega (arith, h.key_fits) in
    let at_key =
      drop_past cursor 4 bs (encode32 (klen % 2 ^ 32)) cell at_length
        (length-encode32 (klen % 2 ^ 32)) in
    let at_offset = drop_past (cursor + 4) klen bs e.key (encode64 e.offset ++ rest) at_key refl in
    let size : length bs ≡ cursor + (12 + klen + length rest) = omega (
      arith,
      length-drop cursor bs,
      ap length at,
      length-append (encode_entry e) rest,
      length-encode_entry e,
    ) in
    let read : decode32 (drop cursor bs) ≡ klen =
      ap decode32 at_length ∙ (decode32-encode32 (klen % 2 ^ 32) cell (omega arith) ∙ small) in
    rw
      (
        read,
        at_key,
        at_offset,
        le→ltb (length bs - 4) (cursor + 4) (omega arith),
        le→ltb (length bs - 4) (cursor + 4 + klen) (omega arith),
        le→ltb (length bs - 4) (cursor + 4 + klen + 8) (omega arith),
        take-length e.key (encode64 e.offset ++ rest),
        decode64-encode64 e.offset rest h.offset_fits,
      )
      (ap (λ n. returned (e, n)) (omega (arith, length-encode_entry e)))

-- The loop, on the entries and the checksum behind them.
read_entries-encode_entries :
    (es : Index) (bs : Bytes) (cursor : ℕ) (index : Index) (crc : Bytes)
    → All InRange es
    → drop cursor bs ≡ encode_entries es ++ crc
    → cursor ≤ length bs
    → length crc ≡ 4
    → read_entries bs (length es) cursor index ≡ returned (index ++ es)
unfolding read_entries encode_entries
read_entries-encode_entries [] bs cursor index crc h at le four =
    ap returned (sym (append-nil index))
read_entries-encode_entries (e ∷ es) bs cursor index crc h at le four =
    let rest = encode_entries es ++ crc in
    let at_entry = at ∙ append_assoc (encode_entry e) (encode_entries es) crc in
    let four_more : 4 ≤ length rest = omega (arith, length-append (encode_entries es) crc) in
    let next = cursor + length (encode_entry e) in
    let size : next ≤ length bs = omega (
      arith,
      length-encode_entry e,
      length-drop cursor bs,
      ap length at_entry,
      length-append (encode_entry e) rest,
    ) in
    rw (read_entry-encode_entry bs cursor e rest h.0 at_entry le four_more) (
      read_entries-encode_entries es bs next (index ++ e ∷ []) crc h.1
        (drop_past cursor (length (encode_entry e)) bs (encode_entry e) rest at_entry refl) size
        four
      ∙ ap returned (append_assoc index (e ∷ []) es))

body-append :
    (index : Index) (crc : Bytes)
    → body index ++ crc ≡ encode32 (length index % 2 ^ 32) ++ (encode_entries index ++ crc)
unfolding body
body-append index crc = append_assoc (encode32 (length index % 2 ^ 32)) (encode_entries index) crc

-- An index block is read as it was written. The keys, the offsets and the number of entries fit their
-- C++ types.
pub deserialize-serialize_index :
    (index : Index)
    → All InRange index
    → length index < 2 ^ 32
    → deserialize (serialize index) ≡ returned index
unfolding deserialize serialize
deserialize-serialize_index index h lt =
    let crc = encode32 (crc32 (body index)) in
    let count = encode32 (length index % 2 ^ 32) in
    let four = length-encode32 (crc32 (body index)) in
    let size = length-append (body index) crc in
    let front : body index ++ crc ≡ count ++ (encode_entries index ++ crc) =
      body-append index crc in
    let long : 8 ≤ length (body index ++ crc) = omega (
      arith,
      four,
      ap length front,
      length-append count (encode_entries index ++ crc),
      length-append (encode_entries index) crc,
      length-encode32 (length index % 2 ^ 32),
    ) in
    let last : length (body index ++ crc) - 4 ≡ length (body index) = omega (arith, size, four) in
    let small : length index % 2 ^ 32 ≡ length index = omega arith in
    let number : decode32 (body index ++ crc) ≡ length index =
      ap decode32 front
      ∙ (decode32-encode32 (length index % 2 ^ 32) (encode_entries index ++ crc) (omega arith)
          ∙ small) in
    rw
      (
        last,
        take-length (body index) crc,
        drop-length (body index) crc,
        decode32-encode32_self (crc32 (body index)) (crc32-lt (body index)),
        ==_refl (crc32 (body index)),
        le→ltb (length (body index ++ crc)) 8 long,
        number,
      )
      (read_entries-encode_entries index (body index ++ crc) 4 [] crc h
        (ap (drop 4) front
          ∙ drop_front 4 count (encode_entries index ++ crc)
              (length-encode32 (length index % 2 ^ 32)))
        (omega arith) four)
