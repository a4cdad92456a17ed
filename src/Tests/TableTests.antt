-- ===== src/Tests/TableTests.antt =====
-- The memtable, the codecs and the Bloom filter at concrete inputs.
use lsm_tree_key_value_store.Prelude.{◌≡◌, arith, true, false, [], ◌∷◌, Bytes, All, if◌then◌else◌}
use lsm_tree_key_value_store.Prelude.Strings.{text, string_eq}
use lsm_tree_key_value_store.Prelude.SortedMap.{insert}
use lsm_tree_key_value_store.Result
use lsm_tree_key_value_store.MemTable.{put, remove, get, init, entry_overhead}
use lsm_tree_key_value_store.MemTable.Lookup.{get-put, get-remove}
use lsm_tree_key_value_store.MemTable.Size.{IsValid, put-IsValid, init-IsValid, total_size}
use lsm_tree_key_value_store.Bloom
use lsm_tree_key_value_store.Bloom.{BloomFilter, possibly_contains, serialize, deserialize}
use lsm_tree_key_value_store.Bloom.Membership.{add_all, add_all_reported, init-IsByte}

abbrev key_a : Bytes
key_a = b'a' ∷ []

get-put_example :
    get (put (init 100) key_a (5 ∷ [])) key_a
    ≡ (if string_eq key_a key_a then (Result.ok (5 ∷ []), false) else get (init 100) key_a)
get-put_example = get-put (init 100) key_a (5 ∷ []) key_a

get-remove_example : get (remove (init 100) key_a) key_a ≡ (
    if string_eq key_a key_a
    then (Result.not_found (text "Key is deleted (tombstone)"), true)
    else get (init 100) key_a)
get-remove_example = get-remove (init 100) key_a key_a

put-IsValid_example : IsValid (put (init 100) key_a (5 ∷ []))
unfolding total_size insert entry_overhead
put-IsValid_example = put-IsValid (init 100) key_a (5 ∷ []) (init-IsValid 100) (omega arith)

add_all_reported_example :
    All
      (λ k. possibly_contains k (add_all (key_a ∷ [] ∷ []) (Bloom.init 2 10 7)) ≡ true)
      (key_a ∷ [] ∷ [])
add_all_reported_example =
    add_all_reported (key_a ∷ [] ∷ []) (Bloom.init 2 10 7) (init-IsByte 2 10 7)
