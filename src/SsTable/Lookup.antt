-- ===== src/SsTable/Lookup.antt =====
-- `SSTableReader::get` on a table whose blocks agree.
use lsm_tree_key_value_store.Prelude.{
  suc, ◌+◌, ◌%◌, ◌^◌, ◌<◌, ◌≡◌, refl, arith, Bool, true, false, not, ◌&&◌, none, some, List, [],
  ◌∷◌, ◌++◌, Bytes, length, All, drop, Bool-cases, inl, inr,
}
use lsm_tree_key_value_store.Prelude.Strings.{text, string_eq, string_eq→eq}
use lsm_tree_key_value_store.Prelude.SortedMap.{find, IsSorted}
use lsm_tree_key_value_store.Types.{KeyValueEntry}
use lsm_tree_key_value_store.Disk.{Disk, reliable, open_read}
use lsm_tree_key_value_store.Bloom.{possibly_contains}
use lsm_tree_key_value_store.SsTable.{header_size}
use lsm_tree_key_value_store.SsTable.Index.{find_offset_range}
use lsm_tree_key_value_store.SsTable.Reader.{SsTableReader, scan_range, get}
use lsm_tree_key_value_store.SsTable.Layout.{IsStored, encode_records, keyed, Answers}
use lsm_tree_key_value_store.SsTable.Sparse.{Samples, scan-Samples}

-- An open reader, and the file behind it, that hold these entries: footer, index and filter say of the
-- records what is so.
pub record Holds (d : Disk) (r : SsTableReader) (es : List KeyValueEntry) : Type 0 where
  pub is_open : r.is_open ≡ true
  pub at_header : r.footer.data_offset ≡ header_size
  pub data_size : r.footer.data_size ≡ length (encode_records es)
  pub fits : header_size + length (encode_records es) < 2 ^ 64
  pub stored : All IsStored es
  pub sorted : IsSorted (keyed es)
  pub sampled : Samples header_size es r.index
  pub reported : All (λ e. possibly_contains e.key r.bloom_filter ≡ true) es
  pub bytes : Bytes
  pub post : Bytes
  pub file : d.file r.filepath ≡ some bytes
  pub records : drop header_size bytes ≡ encode_records es ++ post

-- A key that the filter does not report is in no record.
find-not_reported :
    (key : Bytes) (P : Bytes → Bool) (es : List KeyValueEntry)
    → All (λ e. P e.key ≡ true) es
    → P key ≡ false
    → find key (keyed es) ≡ none
unfolding find keyed
find-not_reported key P [] h absent = refl
find-not_reported key P (e ∷ es) h absent = elim (Bool-cases (string_eq e.key key)) [
  | inl eq ↦ let p : e.key ≡ key = string_eq→eq e.key key eq in cc (h.0, absent, p)
  | inr ne ↦ rw (ne) (find-not_reported key P es h.1 absent)
]

scan_range-Holds :
    (d : Disk) (r : SsTableReader) (es : List KeyValueEntry) (key : Bytes) (flag : Bool)
    → Holds d r es
    → let range =
        find_offset_range key r.index ((r.footer.data_offset + r.footer.data_size) % 2 ^ 64) in
      Answers (find key (keyed es)) (scan_range reliable d r range.0 range.1 key flag)
unfolding scan_range find_offset_range open_read keyed encode_records
scan_range-Holds d r es key flag h =
    let fit = h.fits in
    let end : (r.footer.data_offset + r.footer.data_size) % 2 ^ 64
        ≡ header_size + length (encode_records es) =
      omega (arith, h.at_header, h.data_size, fit) in
    rw (h.file) (
      scan-Samples h.bytes key flag (suc (length h.bytes)) [] es r.index header_size header_size _
        h.post h.sampled tt h.stored h.sorted h.records (omega arith) end (omega arith))

skipped : (a b : Bool) → (a && not b) ≡ true → b ≡ false
skipped true true h = absurd cc
skipped true false h = refl
skipped false b h = absurd cc

-- Where an open reader and the file behind it hold these entries, in the order of their keys, a lookup
-- without faults of the disk answers from them: the value of the key, a tombstone, or that it is not
-- there; whether the Bloom filter is asked or not.
pub get-Holds :
    (d : Disk) (r : SsTableReader) (es : List KeyValueEntry) (key : Bytes) (flag : Bool)
    → Holds d r es
    → Answers (find key (keyed es)) (get reliable d r key flag)
unfolding get
get-Holds d r es key flag h =
    elim (Bool-cases (r.enable_bloom_filter && not (possibly_contains key r.bloom_filter))) [
      | inl skip ↦
          let absent = skipped r.enable_bloom_filter (possibly_contains key r.bloom_filter) skip in
          simp
            (
              h.is_open,
              skip,
              find-not_reported key (λ k. possibly_contains k r.bloom_filter) es h.reported absent,
            )
            (text "Key absent according to Bloom filter", refl)
      | inr look ↦ simp (h.is_open, look) (scan_range-Holds d r es key flag h)
    ]
