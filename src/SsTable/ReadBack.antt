-- ===== src/SsTable/ReadBack.antt =====
-- `SSTableReader::readAllRecords` on a table that holds some entries.
use lsm_tree_key_value_store.Prelude.{
  ℕ, zero, suc, ◌+◌, ◌-◌, ◌%◌, ◌^◌, ◌<◌, ◌≡◌, refl, ap, ◌∙◌, arith, false, some, List, [], ◌∷◌,
  ◌++◌, Bytes, length, All, drop, replicate, take-length, drop-length, take_front, drop_front,
  length-append, length-drop, append_assoc, append-nil, le→ltb, lt→ltb, ==_refl,
}
use lsm_tree_key_value_store.Prelude.Strings.{is_empty}
use lsm_tree_key_value_store.Types.{KeyValueEntry}
use lsm_tree_key_value_store.Types.Codes.{of_byte-to_byte}
use lsm_tree_key_value_store.Types.Crc32.{crc32, crc32-lt}
use lsm_tree_key_value_store.Codec.{encode32}
use lsm_tree_key_value_store.Codec.RoundTrip.{decode32-encode32, length-encode32}
use lsm_tree_key_value_store.Frame.{header, encode}
use lsm_tree_key_value_store.Frame.Layout.{
  kept_value, encode-append, length-header, key_len-header, val_len-header, type-header,
  kept_value-le,
}
use lsm_tree_key_value_store.Status
use lsm_tree_key_value_store.Disk.{Disk, reliable, open_read}
use lsm_tree_key_value_store.SsTable.{header_size}
use lsm_tree_key_value_store.SsTable.Reader.{SsTableReader, scanned}
use lsm_tree_key_value_store.SsTable.ReadAll.{read_unchecked, read_loop, read_all_records}
use lsm_tree_key_value_store.SsTable.Layout.{
  IsStored, encode_records, encode_records-cons, length-encode_records, length-encode-IsStored,
  not_empty,
}
use lsm_tree_key_value_store.SsTable.Lookup.{Holds}

-- A buffer that was filled has no padding.
padding_full : (bs : Bytes) → bs ++ replicate (length bs - length bs) 0 ≡ bs
padding_full bs = let e : length bs - length bs ≡ 0 = omega arith in rw (e) (append-nil bs)

-- A record that was written is read back, whatever follows it and whatever was in the buffer.
read_unchecked-encode :
    (stale : Bytes) (e : KeyValueEntry) (rest : Bytes)
    → IsStored e
    → read_unchecked stale (encode e.type e.key e.value ++ rest) ≡ scanned e rest
unfolding read_unchecked
read_unchecked-encode stale e rest h =
    let v = kept_value e.type e.value in
    let head = header e.type (length e.key) (length v) in
    let crc = encode32 (crc32 (head ++ (e.key ++ v))) in
    rw
      (
        encode-append e.type e.key e.value rest h.fits,
        take_front 9 head (e.key ++ (v ++ (crc ++ rest)))
            (length-header e.type (length e.key) (length v)),
        drop_front 9 head (e.key ++ (v ++ (crc ++ rest)))
            (length-header e.type (length e.key) (length v)),
        length-header e.type (length e.key) (length v),
        key_len-header e.type (length e.key) (length v) h.fits.key_fits,
        take-length e.key (v ++ (crc ++ rest)),
        drop-length e.key (v ++ (crc ++ rest)),
        val_len-header e.type (length e.key) (length v)
            (omega (arith, kept_value-le e.type e.value, h.fits.value_fits)),
        take-length v (crc ++ rest),
        drop-length v (crc ++ rest),
        padding_full e.key,
        padding_full v,
        take_front 4 crc rest (length-encode32 (crc32 (head ++ (e.key ++ v)))),
        drop_front 4 crc rest (length-encode32 (crc32 (head ++ (e.key ++ v)))),
        decode32-encode32 (crc32 (head ++ (e.key ++ v))) (drop (length crc) stale)
            (crc32-lt (head ++ (e.key ++ v))),
        ==_refl (crc32 (head ++ (e.key ++ v))),
        type-header e.type (length e.key) (length v),
        of_byte-to_byte e.type h.named,
      )
      (ap (λ w. scanned (record e { value = w }) rest) h.kept)

read_loop_round :
    (fuel curr end : ℕ) (stale : Bytes) (out : List KeyValueEntry) (bs : Bytes) {e : KeyValueEntry}
    {rest : Bytes}
    → curr < end
    → is_empty bs ≡ false
    → read_unchecked stale bs ≡ scanned e rest
    → read_loop (suc fuel) curr end stale out bs
      ≡ read_loop fuel (curr + (13 + length e.key + length e.value)) end stale (out ++ e ∷ []) rest
unfolding read_loop
read_loop_round fuel curr end stale out bs lt ne q =
    rw (lt→ltb curr end lt, ne, read_loop) (rw (q, read_loop) refl)

-- The loop pushes the entries of these records, in their order, and ends at the end of the range.
read_loop-encode_records :
    (es : List KeyValueEntry) (fuel curr end : ℕ) (stale : Bytes) (out : List KeyValueEntry)
    (rest : Bytes)
    → All IsStored es
    → length (encode_records es) < fuel
    → end ≡ curr + length (encode_records es)
    → read_loop fuel curr end stale out (encode_records es ++ rest) ≡ some (Status.ok, out ++ es)
read_loop-encode_records es zero curr end stale out rest h lt at = absurd (omega arith)
read_loop-encode_records [] (suc fuel) curr end stale out rest h lt at =
    unfold encode_records read_loop in
    rw (le→ltb curr end (omega arith), read_loop, append-nil out) refl
read_loop-encode_records (e ∷ es) (suc fuel) curr end stale out rest h lt at =
    let len = length-encode_records e es h.0 in
    let more = encode_records es ++ rest in
    let bs = encode e.type e.key e.value ++ more in
    let size = length-append (encode e.type e.key e.value) more in
    let ne = not_empty bs (omega (arith, size, length-encode-IsStored e h.0)) in
    rw
      (
        encode_records-cons e es rest,
        read_loop_round fuel curr end stale out bs (omega (arith, len)) ne
            (read_unchecked-encode stale e more h.0),
      )
      (read_loop-encode_records es fuel (curr + (13 + length e.key + length e.value)) end stale
          (out ++ e ∷ []) rest h.1 (omega (arith, len)) (omega (arith, len))
        ∙ ap (λ l. some (Status.ok, l)) (append_assoc out (e ∷ []) es))

-- Where an open reader and the file behind it hold these entries, `readAllRecords` returns them in their
-- order with status OK, without faults of the disk.
pub read_all_records-Holds :
    (d : Disk) (r : SsTableReader) (es : List KeyValueEntry) (stale : Bytes)
    → Holds d r es
    → read_all_records reliable d r stale ≡ some (Status.ok, es)
unfolding read_all_records open_read
read_all_records-Holds d r es stale h =
    let fit = h.fits in
    let off : r.footer.data_offset ≡ header_size = h.at_header in
    let end : (header_size + r.footer.data_size) % 2 ^ 64
        ≡ header_size + length (encode_records es) =
      omega (arith, h.data_size, fit) in
    let size = ap length h.records in
    simp (h.is_open, h.file, off, end, h.records)
      (read_loop-encode_records es (suc (length h.bytes)) header_size
        (header_size + length (encode_records es)) stale [] h.post h.stored
        (omega
          (arith, size, length-append (encode_records es) h.post, length-drop header_size h.bytes))
        refl)
