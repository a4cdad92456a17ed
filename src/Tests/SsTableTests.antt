-- ===== src/Tests/SsTableTests.antt =====
-- The SSTable at concrete inputs.
use lsm_tree_key_value_store.Prelude.{
  ◌≡◌, refl, arith, true, false, none, some, List, [], ◌∷◌, ◌++◌, Bytes, length, append-nil, sym,
  if◌then◌else◌,
}
use lsm_tree_key_value_store.Prelude.Strings.{string_eq, string_lt}
use lsm_tree_key_value_store.Prelude.SortedMap.{find}
use lsm_tree_key_value_store.Types.{put, tombstone, KeyValueEntry}
use lsm_tree_key_value_store.Disk.{Disk, reliable}
use lsm_tree_key_value_store.Bloom
use lsm_tree_key_value_store.Bloom.Membership.{add_all, add_all_reported, init-IsByte}
use lsm_tree_key_value_store.SsTable.{header_size}
use lsm_tree_key_value_store.SsTable.Index
use lsm_tree_key_value_store.SsTable.Footer
use lsm_tree_key_value_store.SsTable.Footer.{Footer}
use lsm_tree_key_value_store.SsTable.Reader.{SsTableReader, get}
use lsm_tree_key_value_store.SsTable.Layout.{
  IsStored, encode_records, keyed, Answers, length-encode_records,
}
use lsm_tree_key_value_store.SsTable.Sparse.{samples_nil, samples_skip, samples_take}
use lsm_tree_key_value_store.SsTable.Lookup.{Holds, get-Holds}
use lsm_tree_key_value_store.SsTable.Written.{Written, write_from_entries-IsSorted}
use lsm_tree_key_value_store.Options.{default_options}

abbrev pub first : KeyValueEntry
first = record { key = 97 ∷ []; value = 5 ∷ []; type = put }

abbrev pub second : KeyValueEntry
second = record { key = 98 ∷ []; value = []; type = tombstone }

abbrev pub entries : List KeyValueEntry
entries = first ∷ second ∷ []

abbrev keys : List Bytes
keys = first.key ∷ second.key ∷ []

abbrev small_index : Index.Index
small_index = record { key = first.key; offset = header_size } ∷ []

abbrev small_footer : Footer
small_footer = record Footer.blank { data_offset = header_size; data_size = 29; record_count = 2 }

abbrev pub reader : SsTableReader
reader = record {
  filepath = 1 ∷ [];
  is_open = true;
  enable_bloom_filter = true;
  footer = small_footer;
  index = small_index;
  bloom_filter = add_all keys (Bloom.init 2 10 7);
}

abbrev header_bytes : Bytes
header_bytes = 0 ∷ 0 ∷ 0 ∷ 0 ∷ 0 ∷ 0 ∷ 0 ∷ 0 ∷ 0 ∷ 0 ∷ 0 ∷ 0 ∷ 0 ∷ 0 ∷ 0 ∷ 0 ∷ []

abbrev pub disk : Disk
disk = record {
  file = λ p. if string_eq p (1 ∷ []) then some (header_bytes ++ encode_records entries) else none;
  dir = λ p. false;
}

pub first-IsStored : IsStored first
first-IsStored = record {
  fits = record { key_fits = omega arith; value_fits = omega arith };
  named = refl;
  kept = refl;
}

pub second-IsStored : IsStored second
second-IsStored = record {
  fits = record { key_fits = omega arith; value_fits = omega arith };
  named = refl;
  kept = refl;
}

pub length-entries : length (encode_records entries) ≡ 29
unfolding encode_records
length-entries = omega (
  arith,
  length-encode_records first (second ∷ []) first-IsStored,
  length-encode_records second [] second-IsStored,
)

pub disk-Holds : Holds disk reader entries
unfolding keyed string_lt string_eq
disk-Holds = record {
  is_open = refl;
  at_header = refl;
  data_size = sym length-entries;
  fits = omega (arith, length-entries);
  stored = (first-IsStored, (second-IsStored, tt));
  sorted = ((refl, tt), (tt, tt));
  sampled = samples_take (samples_skip samples_nil);
  reported = add_all_reported keys (Bloom.init 2 10 7) (init-IsByte 2 10 7);
  bytes = header_bytes ++ encode_records entries;
  post = [];
  file = refl;
  records = sym (append-nil (encode_records entries));
}

get-Holds_example :
    Answers (find (98 ∷ []) (keyed entries)) (get reliable disk reader (98 ∷ []) false)
get-Holds_example = get-Holds disk reader entries (98 ∷ []) false disk-Holds

write_from_entries-IsSorted_example : Written (1 ∷ []) entries default_options disk
write_from_entries-IsSorted_example =
    write_from_entries-IsSorted (1 ∷ []) entries default_options disk (omega arith)
      disk-Holds.sorted disk-Holds.fits
