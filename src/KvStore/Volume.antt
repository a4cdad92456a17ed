-- ===== src/KvStore/Volume.antt =====
-- How many bytes the records of a store take, and what the operations add to them.
use lsm_tree_key_value_store.Prelude.{
  ℕ, ◌+◌, ◌*◌, ◌≤◌, ◌≡◌, refl, ◌∙◌, arith, List, [], ◌∷◌, ◌++◌, Bytes, length, All, length-append,
}
use lsm_tree_key_value_store.Prelude.SortedMap.{insert}
use lsm_tree_key_value_store.Types.{KeyValueEntry}
use lsm_tree_key_value_store.Frame.{encode}
use lsm_tree_key_value_store.MemTable.{MemTableEntry}
use lsm_tree_key_value_store.SsTable.Writer.{table_entries}
use lsm_tree_key_value_store.SsTable.Layout.{encode_records, IsStored, length-encode_records}
use lsm_tree_key_value_store.Compaction.{Merged, merge_records, surviving}
use lsm_tree_key_value_store.Compaction.Merge.{merge_all, compacted_entries}
use lsm_tree_key_value_store.KvStore.{KvStore}
use lsm_tree_key_value_store.KvStore.View.{buffered}

-- The bytes of the records of several tables.
unfoldable pub total : List (List KeyValueEntry) → ℕ
total [] = 0
total (es ∷ ess) = length (encode_records es) + total ess

-- Those of a store whose tables hold these entries, the memtable counted like a table.
abbrev pub volume : KvStore → List (List KeyValueEntry) → ℕ
volume s ess = total ess + length (encode_records (buffered s))

-- One store comes from another at the same path and with the same options, with at most so many more bytes of records and
-- at most so many numbers of tables taken.
pub record Grown (bytes steps : ℕ) (s : KvStore) (ess : List (List KeyValueEntry)) (s' : KvStore)
    (ess' : List (List KeyValueEntry)) : Type 0 where
  pub options : s'.options ≡ s.options
  pub same_path : s'.db_path ≡ s.db_path
  pub volume_le : volume s' ess' ≤ volume s ess + bytes
  pub numbers_le : s'.next_sst_seq ≤ s.next_sst_seq + steps

pub Grown-refl :
    (steps : ℕ) (s : KvStore) (ess : List (List KeyValueEntry)) → Grown 0 steps s ess s ess
Grown-refl steps s ess = record {
  options = refl;
  same_path = refl;
  volume_le = omega arith;
  numbers_le = omega arith;
}

pub Grown-trans :
    {b m n : ℕ} {s t u : KvStore} {ess fss gss : List (List KeyValueEntry)}
    → Grown 0 m s ess t fss
    → Grown b n t fss u gss
    → Grown b (m + n) s ess u gss
Grown-trans g h = record {
  options = h.options ∙ g.options;
  same_path = h.same_path ∙ g.same_path;
  volume_le = omega (arith, g.volume_le, h.volume_le);
  numbers_le = omega (arith, g.numbers_le, h.numbers_le);
}

pub total-snoc :
    (ess : List (List KeyValueEntry)) (es : List KeyValueEntry)
    → total (ess ++ es ∷ []) ≡ total ess + length (encode_records es)
unfolding total
total-snoc [] es = omega arith
total-snoc (x ∷ ess) es = omega (arith, total-snoc ess es)

-- The bytes of the records of a merge, tombstones and all.
weight : Merged → ℕ
weight [] = 0
weight ((k, e) ∷ m) = length (encode e.type e.key e.value) + weight m

weight-insert :
    (key : Bytes) (e : KeyValueEntry) (m : Merged)
    → weight (insert key e m) ≤ length (encode e.type e.key e.value) + weight m
unfolding weight insert
weight-insert key e [] = omega arith
weight-insert key e ((k, x) ∷ m) = ground (arith, weight-insert key e m)

length-encode_records-cons :
    (e : KeyValueEntry) (es : List KeyValueEntry)
    → length (encode_records (e ∷ es))
      ≡ length (encode e.type e.key e.value) + length (encode_records es)
unfolding encode_records
length-encode_records-cons e es = length-append (encode e.type e.key e.value) (encode_records es)

weight-merge_records :
    (es : List KeyValueEntry) (m : Merged)
    → weight (merge_records es m) ≤ length (encode_records es) + weight m
unfolding merge_records
weight-merge_records [] m = omega arith
weight-merge_records (e ∷ es) m = omega (
  arith,
  weight-merge_records es (insert e.key e m),
  weight-insert e.key e m,
  length-encode_records-cons e es,
)

weight-merge_all :
    (ess : List (List KeyValueEntry)) (m : Merged) → weight (merge_all ess m) ≤ total ess + weight m
unfolding merge_all total
weight-merge_all [] m = omega arith
weight-merge_all (es ∷ ess) m =
    omega (arith, weight-merge_all ess (merge_records es m), weight-merge_records es m)

length-surviving : (m : Merged) → length (encode_records (surviving m)) ≤ weight m
unfolding surviving weight
length-surviving [] = unfold encode_records in omega arith
length-surviving ((k, e) ∷ m) =
    ground (arith, length-surviving m, length-encode_records-cons e (surviving m))

-- A merge takes no more bytes than the tables did.
pub length-compacted_entries :
    (ess : List (List KeyValueEntry)) → length (encode_records (compacted_entries ess)) ≤ total ess
unfolding compacted_entries weight
length-compacted_entries ess =
    omega (arith, length-surviving (merge_all ess []), weight-merge_all ess [])

-- A write to the memtable adds at most the bytes of its record.
pub length-insert :
    (key : Bytes) (e : MemTableEntry) (m : List (Bytes × MemTableEntry))
    → length (encode_records (table_entries (insert key e m)))
      ≤ length (encode e.type key e.value) + length (encode_records (table_entries m))
unfolding insert table_entries
length-insert key e [] =
    omega
      (arith, length-encode_records-cons (record { key = key; value = e.value; type = e.type }) [])
length-insert key e ((k, x) ∷ m) = ground (
  arith,
  length-insert key e m,
  length-encode_records-cons (record { key = key; value = e.value; type = e.type })
      (table_entries m),
  length-encode_records-cons (record { key = key; value = e.value; type = e.type })
      (record { key = k; value = x.value; type = x.type } ∷ table_entries m),
  length-encode_records-cons (record { key = k; value = x.value; type = x.type }) (table_entries m),
  length-encode_records-cons (record { key = k; value = x.value; type = x.type })
      (table_entries (insert key e m)),
)

-- There are no more entries than bytes.
pub length_le-encode_records :
    (es : List KeyValueEntry) → All IsStored es → 13 * length es ≤ length (encode_records es)
length_le-encode_records [] h = unfold encode_records in omega arith
length_le-encode_records (e ∷ es) h =
    omega (arith, length_le-encode_records es h.1, length-encode_records e es h.0)
