-- ===== src/SsTable/Limits.antt =====
-- The entries that a table can take, and what follows for its blocks.
use lsm_tree_key_value_store.Prelude.{
  ℕ, ◌+◌, ◌^◌, ◌%◌, ◌<◌, ◌≤◌, ◌≡◌, arith, List, ◌∷◌, ◌++◌, length, All, length-append, ltb,
  if◌then◌else◌,
}
use lsm_tree_key_value_store.Prelude.SortedMap.{IsSorted}
use lsm_tree_key_value_store.Types.{KeyValueEntry}
use lsm_tree_key_value_store.Types.Crc32.{crc32}
use lsm_tree_key_value_store.Codec.{encode32}
use lsm_tree_key_value_store.Codec.RoundTrip.{length-encode32}
use lsm_tree_key_value_store.Options.{Options}
use lsm_tree_key_value_store.Bloom
use lsm_tree_key_value_store.Bloom.{BloomFilter, num_bytes_for}
use lsm_tree_key_value_store.SsTable.Index
use lsm_tree_key_value_store.SsTable.Index.{Index, encode_entry, encode_entries}
use lsm_tree_key_value_store.SsTable.Index.RoundTrip.{InRange, length-encode_entry}
use lsm_tree_key_value_store.SsTable.Layout.{
  IsStored, encode_records, keyed, length-encode-IsStored, length-encode_records,
}
use lsm_tree_key_value_store.SsTable.Sparse.{Samples, samples_nil, samples_skip, samples_take}

-- How many keys the writer sizes its filter for.
abbrev pub filter_keys : ℕ → ℕ
filter_keys n = if ltb 0 n then n else 100

-- The entries are few enough for the offsets and sizes of the format, and the interval of the sparse index
-- is not 0, by which the source divides.
pub record IsSmall (o : Options) (es : List KeyValueEntry) : Type 0 where
  pub interval_pos : 0 < o.sparse_index_interval
  pub records_fit : length (encode_records es) < 2 ^ 62
  pub count_fits : length es < 2 ^ 32
  pub filter_fits : num_bytes_for (filter_keys (length es)) o.bloom_bits_per_key + 8 < 2 ^ 32

-- Moreover they are in the order of their keys, and a record keeps each of them whole.
pub record IsWritable (o : Options) (es : List KeyValueEntry) : Type 0 where
  pub stored : All IsStored es
  pub sorted : IsSorted (keyed es)
  pub small : IsSmall o es

pub Samples-InRange :
    {off : ℕ} {es : List KeyValueEntry} {ix : Index}
    → Samples off es ix
    → All IsStored es
    → off + length (encode_records es) < 2 ^ 64
    → All InRange ix
Samples-InRange samples_nil h fit = tt
Samples-InRange {es = e ∷ es} (samples_skip r) h fit =
    let len = length-encode_records e es h.0 in
    let own = length-encode-IsStored e h.0 in Samples-InRange r h.1 (omega arith)
Samples-InRange {es = e ∷ es} (samples_take r) h fit =
    let len = length-encode_records e es h.0 in
    let own = length-encode-IsStored e h.0 in
    (
      record { key_fits = h.0.fits.key_fits; offset_fits = omega arith },
      Samples-InRange r h.1 (omega arith),
    )

pub Samples-length :
    {off : ℕ} {es : List KeyValueEntry} {ix : Index} → Samples off es ix → length ix ≤ length es
Samples-length samples_nil = omega arith
Samples-length (samples_skip r) = omega (arith, Samples-length r)
Samples-length (samples_take r) = omega (arith, Samples-length r)

-- An entry of the index is shorter than the record that it names.
length-encode_entries :
    {off : ℕ} {es : List KeyValueEntry} {ix : Index}
    → Samples off es ix
    → All IsStored es
    → length (encode_entries ix) ≤ length (encode_records es)
unfolding encode_entries
length-encode_entries samples_nil h = omega arith
length-encode_entries {es = e ∷ es} (samples_skip r) h =
    omega (arith, length-encode_entries r h.1, length-encode_records e es h.0)
length-encode_entries {off} {es = e ∷ es} {ix = i ∷ ix} (samples_take r) h = omega (
  arith,
  length-encode_entries r h.1,
  length-encode_records e es h.0,
  length-append (encode_entry i) (encode_entries ix),
  length-encode_entry i,
)

pub length-serialize_index :
    {off : ℕ} {es : List KeyValueEntry} {ix : Index}
    → Samples off es ix
    → All IsStored es
    → length (Index.serialize ix) ≤ 8 + length (encode_records es)
unfolding Index.serialize Index.body
length-serialize_index {ix} r h =
    let count = encode32 (length ix % 2 ^ 32) in
    let all = count ++ encode_entries ix in
    omega (
      arith,
      length-encode_entries r h,
      length-append all (encode32 (crc32 all)),
      length-append count (encode_entries ix),
      length-encode32 (length ix % 2 ^ 32),
      length-encode32 (crc32 all),
    )

pub length-serialize_filter : (f : BloomFilter) → length (Bloom.serialize f) ≡ 8 + length f.bits
unfolding Bloom.serialize encode32
length-serialize_filter f = omega arith
