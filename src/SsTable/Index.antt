-- ===== src/SsTable/Index.antt =====
-- `IndexEntry` and `SSTableIndex`: every so-many-th key of the table with the offset of its record.
pub mod RoundTrip
use lsm_tree_key_value_store.Prelude.{
  ℕ, zero, suc, ◌+◌, ◌-◌, ◌%◌, ◌^◌, Bool, true, false, List, [], ◌∷◌, ◌++◌, Bytes, length, take,
  drop, ltb, ◌==◌, if◌then◌else◌,
}
use lsm_tree_key_value_store.Prelude.Strings.{text, string_lt}
use lsm_tree_key_value_store.Types.Crc32.{crc32}
use lsm_tree_key_value_store.Codec.{encode32, decode32, encode64, decode64}
use lsm_tree_key_value_store.Throws.{Throws, returned, thrown, ◌>>=◌}
use lsm_tree_key_value_store.SsTable.{header_size}

pub record IndexEntry : Type 0 where
  pub key : Bytes
  pub offset : ℕ

abbrev pub Index : Type 0
Index = List IndexEntry

unfoldable pub add : Bytes → ℕ → Index → Index
add key offset index = index ++ record { key = key; offset = offset } ∷ []

unfoldable pub encode_entry : IndexEntry → Bytes
encode_entry e = encode32 (length e.key % 2 ^ 32) ++ (e.key ++ encode64 e.offset)

unfoldable pub encode_entries : Index → Bytes
encode_entries [] = []
encode_entries (e ∷ es) = encode_entry e ++ encode_entries es

-- What `buffer` holds before the checksum.
unfoldable pub body : Index → Bytes
body index = encode32 (length index % 2 ^ 32) ++ encode_entries index

unfoldable pub serialize : Index → Bytes
serialize index = body index ++ encode32 (crc32 (body index))

-- One round of the loop of `deserialize` at `cursor`: the entry and the cursor after it.
unfoldable pub read_entry : Bytes → ℕ → Throws (IndexEntry × ℕ)
read_entry bs cursor =
    let last = length bs - 4 in
    let klen = decode32 (drop cursor bs) in
    if ltb last (cursor + 4)
    then thrown (text "Index corrupted while reading key length")
    else if ltb last (cursor + 4 + klen)
    then thrown (text "Index corrupted while reading key")
    else if ltb last (cursor + 4 + klen + 8)
    then thrown (text "Index corrupted while reading offset")
    else returned (
      record {
        key = take klen (drop (cursor + 4) bs);
        offset = decode64 (drop (cursor + 4 + klen) bs);
      },
      cursor + 4 + klen + 8,
    )

-- The loop, with the number of entries left.
unfoldable pub read_entries : Bytes → ℕ → ℕ → Index → Throws Index
read_entries bs zero cursor index = returned index
read_entries bs (suc n) cursor index = do
  (e, cursor') ← read_entry bs cursor
  read_entries bs n cursor' (index ++ e ∷ [])

unfoldable pub deserialize : Bytes → Throws Index
deserialize bs =
    if ltb (length bs) 8
    then thrown (text "Index block too small")
    else if decode32 (drop (length bs - 4) bs) == crc32 (take (length bs - 4) bs)
    then read_entries bs (decode32 bs) 4 []
    else thrown (text "Index block CRC mismatch")

-- `std::upper_bound` finds the first entry whose key is above `key`. `start` is the offset of the
-- entry before the one that is looked at, or of the first record.
unfoldable pub range_from : Bytes → ℕ → Index → ℕ → ℕ × ℕ
range_from key start [] data_end = (start, data_end)
range_from key start (e ∷ es) data_end =
    if string_lt key e.key then (start, e.offset) else range_from key e.offset es data_end

-- `findOffsetRange`: `[start_offset, end_offset)`.
unfoldable pub find_offset_range : Bytes → Index → ℕ → ℕ × ℕ
find_offset_range key index data_end = range_from key header_size index data_end
