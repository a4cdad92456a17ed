-- ===== src/SsTable/Loading.antt =====
-- What `SSTableReader::open` makes of the file that a writer leaves.
use lsm_tree_key_value_store.Prelude.{
  ℕ, ◌+◌, ◌-◌, ◌%◌, ◌^◌, ◌<◌, ◌≡◌, refl, ap, ◌∙◌, arith, true, false, ltb, ◌++◌, Bytes, length, All,
  take, drop, take_all, take_front, drop_front, drop_past, take-length, drop-length, length-append,
  append_assoc, le→ltb, ==_refl,
}
use lsm_tree_key_value_store.Types.Crc32.{crc32, crc32-lt}
use lsm_tree_key_value_store.Codec.{encode32, decode32, encode64, decode64}
use lsm_tree_key_value_store.Codec.RoundTrip.{
  decode32-encode32, decode64-encode64, decode32-encode32_self, length-encode32, length-encode64,
}
use lsm_tree_key_value_store.Throws.{returned}
use lsm_tree_key_value_store.Status
use lsm_tree_key_value_store.Bloom
use lsm_tree_key_value_store.Bloom.Serial.{deserialize-serialize}
use lsm_tree_key_value_store.SsTable.{header_magic, table_version, header_size, footer_size}
use lsm_tree_key_value_store.SsTable.Index
use lsm_tree_key_value_store.SsTable.Index.RoundTrip.{deserialize-serialize_index}
use lsm_tree_key_value_store.SsTable.Index.RoundTrip as IndexTrip
use lsm_tree_key_value_store.SsTable.Footer
use lsm_tree_key_value_store.SsTable.Footer.{Footer}
use lsm_tree_key_value_store.SsTable.Footer.RoundTrip.{
  deserialize-serialize_footer, length-serialize,
}
use lsm_tree_key_value_store.SsTable.Footer.RoundTrip as FooterTrip
use lsm_tree_key_value_store.SsTable.Writer.{
  SsTableWriter, table_header, index_block, bloom_block, footer_of,
}
use lsm_tree_key_value_store.SsTable.Reader.{
  SsTableReader, slice, load, load_footer, load_blocks, load_index, load_bloom, offsets_valid,
}
use lsm_tree_key_value_store.SsTable.Written.{trailer}

length-table_header : length table_header ≡ header_size
unfolding table_header encode64 encode32
length-table_header = refl

table_header-append :
    (rest : Bytes)
    → table_header ++ rest
      ≡ encode64 header_magic ++ (encode32 table_version ++ (encode32 0 ++ rest))
unfolding table_header encode64 encode32
table_header-append rest = refl

magic-table_header : (rest : Bytes) → decode64 (table_header ++ rest) ≡ header_magic
magic-table_header rest =
    ap decode64 (table_header-append rest)
    ∙ decode64-encode64 header_magic (encode32 table_version ++ (encode32 0 ++ rest)) (omega arith)

version-table_header : (rest : Bytes) → decode32 (drop 8 (table_header ++ rest)) ≡ table_version
version-table_header rest =
    let more = encode32 table_version ++ (encode32 0 ++ rest) in
    ap (λ bs. decode32 (drop 8 bs)) (table_header-append rest)
    ∙ (ap decode32 (drop_front 8 (encode64 header_magic) more (length-encode64 header_magic))
        ∙ decode32-encode32 table_version (encode32 0 ++ rest) (omega arith))

-- The four tests on the offsets, from their equations.
offsets_valid-eq :
    (f : Footer) (size : ℕ)
    → f.data_offset ≡ header_size
    → (f.data_offset + f.data_size) % 2 ^ 64 ≡ f.index_offset
    → (f.index_offset + f.index_size) % 2 ^ 64 ≡ f.bloom_offset
    → (f.bloom_offset + f.bloom_size) % 2 ^ 64 ≡ size - footer_size
    → offsets_valid f size ≡ true
unfolding offsets_valid
offsets_valid-eq f size a b c d = ground arith

-- What the loading asks of a writer: its numbers fit their C++ types, and its offset is behind these
-- records.
pub record IsLoadable (w : SsTableWriter) (records : Bytes) : Type 0 where
  pub offset : w.current_offset ≡ header_size + length records
  pub index_fits : All IndexTrip.InRange w.index
  pub index_count_fits : length w.index < 2 ^ 32
  pub hashes_fit : w.bloom_filter.num_hashes < 2 ^ 32
  pub bits_fit : length w.bloom_filter.bits + 8 < 2 ^ 32
  pub count_fits : w.record_count < 2 ^ 32
  pub size_fits :
      header_size + length records + length (index_block w) + length (bloom_block w) < 2 ^ 64

module _ (w : SsTableWriter) (records : Bytes) (h : IsLoadable w records) where
  abbrev footer_bytes : Bytes
  footer_bytes = Footer.serialize (footer_of w)

  -- The file, bracketed to the right.
  trailer-eq :
      trailer w (table_header ++ records)
      ≡ table_header ++ (records ++ (index_block w ++ (bloom_block w ++ footer_bytes)))
  unfolding trailer bloom_block
  trailer-eq = let raw = Bloom.serialize w.bloom_filter in simp append_assoc

  footer_of-InRange : FooterTrip.InRange (footer_of w)
  unfolding footer_of
  footer_of-InRange =
      let fit = h.size_fits in
      let at = h.offset in
      let n = h.count_fits in
      record {
        data_offset_fits = omega arith;
        data_size_fits = omega arith;
        index_offset_fits = omega arith;
        index_size_fits = omega arith;
        bloom_offset_fits = omega arith;
        bloom_size_fits = omega arith;
        record_count_fits = n;
        flags_fits = omega arith;
      }

  abbrev bs : Bytes
  bs = trailer w (table_header ++ records)

  -- Where the blocks lie.
  pub records-at :
      drop header_size bs ≡ records ++ (index_block w ++ (bloom_block w ++ footer_bytes))
  records-at =
      ap (drop header_size) trailer-eq ∙ drop_front header_size table_header _ length-table_header

  index-at :
      drop (header_size + length records) bs ≡ index_block w ++ (bloom_block w ++ footer_bytes)
  index-at = drop_past header_size (length records) bs records _ records-at refl

  bloom-at :
      drop (header_size + length records + length (index_block w)) bs
      ≡ bloom_block w ++ footer_bytes
  bloom-at =
      drop_past (header_size + length records) (length (index_block w)) bs (index_block w) _
        index-at refl

  footer-at :
      drop (header_size + length records + length (index_block w) + length (bloom_block w)) bs
      ≡ footer_bytes
  footer-at =
      drop_past (header_size + length records + length (index_block w)) (length (bloom_block w)) bs
        (bloom_block w) footer_bytes bloom-at refl

  length-bs :
      length bs
      ≡ header_size + length records + length (index_block w) + length (bloom_block w) + footer_size
  length-bs = omega (
    arith,
    ap length trailer-eq,
    length-append table_header (records ++ (index_block w ++ (bloom_block w ++ footer_bytes))),
    length-append records (index_block w ++ (bloom_block w ++ footer_bytes)),
    length-append (index_block w) (bloom_block w ++ footer_bytes),
    length-append (bloom_block w) footer_bytes,
    length-table_header,
    length-serialize (footer_of w),
  )

  footer-slice : slice (length bs - footer_size) footer_size bs ≡ footer_bytes
  footer-slice =
      let place : length bs - footer_size
          ≡ header_size + length records + length (index_block w) + length (bloom_block w) =
        omega (arith, length-bs) in
      rw (place, footer-at)
        (take_all footer_size footer_bytes (omega (arith, length-serialize (footer_of w))))

  offsets_valid-footer_of : offsets_valid (footer_of w) (length bs) ≡ true
  unfolding footer_of
  offsets_valid-footer_of =
      let fit = h.size_fits in
      let at = h.offset in
      let size = length-bs in
      offsets_valid-eq (footer_of w) (length bs) refl (omega arith) (omega arith) (omega arith)

  module _ (r : SsTableReader) where
    load_bloom-bloom_block :
        r.footer.bloom_size ≡ length (bloom_block w)
        → load_bloom r (bloom_block w)
          ≡ (Status.ok, record r { bloom_filter = w.bloom_filter; is_open = true })
    unfolding load_bloom bloom_block
    load_bloom-bloom_block size =
        let raw = Bloom.serialize w.bloom_filter in
        let crc = encode32 (crc32 raw) in
        let total = length-append raw crc in
        let four = length-encode32 (crc32 raw) in
        let last : length (raw ++ crc) - 4 ≡ length raw = omega arith in
        simp
          (
            size,
            last,
            take-length raw crc,
            drop-length raw crc,
            decode32-encode32_self (crc32 raw) (crc32-lt raw),
            ==_refl (crc32 raw),
            le→ltb (length (raw ++ crc)) (length (raw ++ crc)) (omega arith),
            le→ltb (length (raw ++ crc)) 4 (omega arith),
            deserialize-serialize w.bloom_filter h.hashes_fit h.bits_fit,
          )
          refl

  -- The reader once it has loaded the footer, and once it is open.
  abbrev with_footer : SsTableReader → SsTableReader
  with_footer r = record r { footer = footer_of w }

  abbrev pub loaded : SsTableReader → SsTableReader
  loaded r = record r {
    footer = footer_of w;
    index = w.index;
    bloom_filter = w.bloom_filter;
    is_open = true;
  }

  index-slice : slice (footer_of w).index_offset (footer_of w).index_size bs ≡ index_block w
  unfolding footer_of
  index-slice =
      let n = length (index_block w) in
      ap (λ k. take n (drop k bs)) h.offset
      ∙ (ap (take n) index-at ∙ take_front n (index_block w) (bloom_block w ++ footer_bytes) refl)

  bloom-slice : slice (footer_of w).bloom_offset (footer_of w).bloom_size bs ≡ bloom_block w
  unfolding footer_of
  bloom-slice =
      let n = length (index_block w) in
      let place : (w.current_offset + n) % 2 ^ 64 ≡ header_size + length records + n =
        omega (arith, h.offset, h.size_fits) in
      rw (place, bloom-at) (take_front (length (bloom_block w)) (bloom_block w) footer_bytes refl)

  index_size-footer_of : ltb (length (index_block w)) (footer_of w).index_size ≡ false
  unfolding footer_of
  index_size-footer_of = le→ltb (length (index_block w)) (length (index_block w)) (omega arith)

  bloom_size-footer_of : (footer_of w).bloom_size ≡ length (bloom_block w)
  unfolding footer_of
  bloom_size-footer_of = refl

  index-read : Index.deserialize (index_block w) ≡ returned w.index
  unfolding index_block
  index-read = deserialize-serialize_index w.index h.index_fits h.index_count_fits

  load_index-index_block :
      (r : SsTableReader) → load_index (with_footer r) bs (index_block w) ≡ (Status.ok, loaded r)
  unfolding load_index
  load_index-index_block r =
      rw (index_size-footer_of, index-read, bloom-slice)
        (load_bloom-bloom_block (record (with_footer r) { index = w.index }) bloom_size-footer_of)

  load_blocks-trailer : (r : SsTableReader) → load_blocks (with_footer r) bs ≡ (Status.ok, loaded r)
  unfolding load_blocks
  load_blocks-trailer r = rw (offsets_valid-footer_of, index-slice) (load_index-index_block r)

  -- The file that the writer leaves is loaded, with the writer's footer, index and filter.
  pub load-trailer : (r : SsTableReader) → load r bs ≡ (Status.ok, loaded r)
  unfolding load load_footer
  load-trailer r =
      let rest = records ++ (index_block w ++ (bloom_block w ++ footer_bytes)) in
      simp
        (
          le→ltb (length bs) (header_size + footer_size) (omega (arith, length-bs)),
          ap decode64 trailer-eq,
          magic-table_header rest,
          ap (λ b. decode32 (drop 8 b)) trailer-eq,
          version-table_header rest,
          footer-slice,
          deserialize-serialize_footer (footer_of w) r.footer footer_of-InRange,
        )
        (load_blocks-trailer r)
