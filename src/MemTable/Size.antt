-- ===== src/MemTable/Size.antt =====
-- The table stays sorted, and the approximate size is the sum of the sizes of the entries.
use lsm_tree_key_value_store.Prelude.{
  ℕ, ◌+◌, ◌-◌, ◌^◌, ◌≤◌, ◌<◌, ◌≡◌, refl, Option, none, some, List, [], ◌∷◌, Bytes, length, arith,
  if◌then◌else◌, le→leb, leb, ◌%◌,
}
use lsm_tree_key_value_store.Prelude.Strings.{string_eq→eq, string_lt→ne'}
use lsm_tree_key_value_store.Prelude.SortedMap.{
  find, insert, IsSorted, insert-IsSorted, find-Above, Above-trans,
}
use lsm_tree_key_value_store.MemTable.Lookup.{put_entry, tombstone_entry}
use lsm_tree_key_value_store.MemTable.{
  MemTable, MemTableEntry, add_size, word64, sub_size, write_entry, is_tombstone, entry_overhead,
  old_entry_size, put, remove, clear, overwrite, init, is_full,
}

-- Key, value unless it is a tombstone, and overhead.
abbrev pub entry_size : Bytes → MemTableEntry → ℕ
entry_size k e = length k + (if is_tombstone e then 0 else length e.value) + entry_overhead

unfoldable pub total_size : List (Bytes × MemTableEntry) → ℕ
total_size [] = 0
total_size ((k, e) ∷ m) = entry_size k e + total_size m

abbrev size_or_zero : Bytes → Option MemTableEntry → ℕ
size_or_zero k none = 0
size_or_zero k (some e) = entry_size k e

-- An insertion takes off the size of the entry that it overwrites, and adds its own.
total_size-insert :
    (k : Bytes) (e : MemTableEntry) (m : List (Bytes × MemTableEntry))
    → IsSorted m
    → total_size (insert k e m) + size_or_zero k (find k m) ≡ total_size m + entry_size k e
unfolding total_size find insert
total_size-insert k e [] s = omega arith
total_size-insert k e ((j, w) ∷ m) s = ground (
  arith,
  string_lt→ne' k j,
  string_eq→eq j k,
  Above-trans k j m,
  find-Above k m,
  total_size-insert k e m,
)

found_size-le :
    (k : Bytes) (m : List (Bytes × MemTableEntry)) → size_or_zero k (find k m) ≤ total_size m
unfolding total_size find
found_size-le k [] = omega arith
found_size-le k ((j, w) ∷ m) = ground (arith, string_eq→eq j k, found_size-le k m)

-- An entry that is in a table of a size_t total has a size that does not wrap.
written_size :
    (k : Bytes) (e : MemTableEntry) (t : MemTable)
    → IsSorted t.table
    → total_size (insert k e t.table) < 2 ^ 64
    → word64 (entry_size k e) ≡ entry_size k e
written_size k e t s fits = omega (arith, total_size-insert k e t.table s, found_size-le k t.table)

pub record IsValid (t : MemTable) : Type 0 where
  pub sorted : IsSorted t.table
  pub counted : t.approximate_size ≡ total_size t.table
  pub fits : total_size t.table < 2 ^ 64

table-overwrite :
    (k : Bytes) (e : MemTableEntry) (size : ℕ) (o : Option MemTableEntry) (t : MemTable)
    → (overwrite k e size o t).table ≡ insert k e t.table
unfolding overwrite
table-overwrite k e size none t = refl
table-overwrite k e size (some old) t = ground arith

sub_size_exact :
    (t : MemTable) (n : ℕ)
    → n ≤ t.approximate_size
    → (sub_size t n).approximate_size ≡ t.approximate_size - n
unfolding sub_size
sub_size_exact t n h = rw (le→leb n t.approximate_size h)

size-overwrite :
    (k : Bytes) (e : MemTableEntry) (size : ℕ) (o : Option MemTableEntry) (t : MemTable)
    → size_or_zero k o ≤ t.approximate_size
    → t.approximate_size < 2 ^ 64
    → (overwrite k e size o t).approximate_size
      ≡ (t.approximate_size - size_or_zero k o + size) % 2 ^ 64
unfolding overwrite write_entry add_size old_entry_size
size-overwrite k e size none t h w = omega arith
size-overwrite k e size (some old) t h w =
    let q : old_entry_size k old ≡ entry_size k old = omega arith in
    omega (arith, sub_size_exact t (old_entry_size k old) (omega arith))

overwrite-IsValid :
    (k : Bytes) (e : MemTableEntry) (size : ℕ) (t : MemTable)
    → size ≡ entry_size k e
    → IsValid t
    → total_size (insert k e t.table) < 2 ^ 64
    → IsValid (overwrite k e size (find k t.table) t)
overwrite-IsValid k e size t hs v fits = record {
  sorted = rw table-overwrite (insert-IsSorted k e t.table v.sorted);
  counted = rw table-overwrite (
      omega (
        arith,
        total_size-insert k e t.table v.sorted,
        found_size-le k t.table,
        size-overwrite k e size (find k t.table) t,
      ));
  fits = rw table-overwrite fits;
}

-- A put keeps the table sorted and the size exact, if the new total is a size_t.
pub put-IsValid :
    (t : MemTable) (k v : Bytes)
    → IsValid t
    → total_size (insert k (put_entry v) t.table) < 2 ^ 64
    → IsValid (put t k v)
unfolding put
put-IsValid t k v h fits =
    overwrite-IsValid k (put_entry v) _ t (written_size k (put_entry v) t h.sorted fits) h fits

pub remove-IsValid :
    (t : MemTable) (k : Bytes)
    → IsValid t
    → total_size (insert k tombstone_entry t.table) < 2 ^ 64
    → IsValid (remove t k)
unfolding remove
remove-IsValid t k h fits =
    overwrite-IsValid k tombstone_entry _ t
      (omega (arith, written_size k tombstone_entry t h.sorted fits)) h fits

pub init-IsValid : (threshold : ℕ) → IsValid (init threshold)
unfolding total_size
init-IsValid threshold = record { sorted = tt; counted = refl; fits = omega arith }

pub clear-IsValid : (t : MemTable) → IsValid (clear t)
unfolding clear total_size
clear-IsValid t = record { sorted = tt; counted = refl; fits = omega arith }

-- `is_full` compares the exact total with the threshold.
is_full_exact : (t : MemTable) → IsValid t → is_full t ≡ leb t.size_threshold (total_size t.table)
unfolding is_full
is_full_exact t v = rw v.counted
