-- ===== src/Compaction/Merge.antt =====
-- What the merge of several tables holds: the newest entry of each key, less the tombstones.
use lsm_tree_key_value_store.Prelude.{
  ◌≡◌, refl, ap, ◌∙◌, sym, Option, none, some, List, [], ◌∷◌, Bytes, All, Bool-cases, inl, inr,
  if◌then◌else◌,
}
use lsm_tree_key_value_store.Prelude.Strings.{string_eq, string_lt, string_eq→eq}
use lsm_tree_key_value_store.Prelude.SortedMap.{
  find, insert, IsSorted, Above, find-Above, find-insert, insert-IsSorted, or_else, or_else-none,
  or_else_assoc,
}
use lsm_tree_key_value_store.Types.{KeyValueEntry, is_tombstone}
use lsm_tree_key_value_store.SsTable.Layout.{IsStored, keyed}
use lsm_tree_key_value_store.Compaction.{Merged, merge_records, surviving}

-- The entry of a key in several tables, the oldest first: the newest one counts.
unfoldable pub newest : Bytes → List (List KeyValueEntry) → Option KeyValueEntry
newest key [] = none
newest key (es ∷ ess) = or_else (newest key ess) (find key (keyed es))

-- The outer loop of the merge.
unfoldable pub merge_all : List (List KeyValueEntry) → Merged → Merged
merge_all [] merged = merged
merge_all (es ∷ ess) merged = merge_all ess (merge_records es merged)

-- What counts as present.
unfoldable pub live : Option KeyValueEntry → Option KeyValueEntry
live none = none
live (some e) = if is_tombstone e then none else some e

find-merge_records :
    (key : Bytes) (es : List KeyValueEntry) (m : Merged)
    → IsSorted (keyed es)
    → find key (merge_records es m) ≡ or_else (find key (keyed es)) (find key m)
unfolding merge_records keyed find
find-merge_records key [] m s = refl
find-merge_records key (e ∷ es) m s =
    rw (find-merge_records key es (insert e.key e m) s.1, find-insert e.key key e m)
      (elim (Bool-cases (string_eq e.key key)) [
        | inl same ↦
            let p : e.key ≡ key = string_eq→eq e.key key same in
            let above : Above key (keyed es) = rw p at s.0 in
            rw (same, find-Above key (keyed es) above) refl
        | inr other ↦ rw (other) refl
      ])

-- The merge finds the newest entry.
pub find-merge_all :
    (key : Bytes) (ess : List (List KeyValueEntry)) (m : Merged)
    → All (λ es. IsSorted (keyed es)) ess
    → find key (merge_all ess m) ≡ or_else (newest key ess) (find key m)
unfolding merge_all newest
find-merge_all key [] m s = refl
find-merge_all key (es ∷ ess) m s =
    find-merge_all key ess (merge_records es m) s.1
    ∙ (ap (or_else (newest key ess)) (find-merge_records key es m s.0)
        ∙ sym (or_else_assoc (newest key ess) (find key (keyed es)) (find key m)))

-- Each entry of the map stands under its own key, and can be stored.
abbrev pub Matches : Merged → Type 0
Matches = All (λ x. (x.1.key ≡ x.0) × IsStored x.1)

insert-Matches :
    (e : KeyValueEntry) (m : Merged) → IsStored e → Matches m → Matches (insert e.key e m)
unfolding insert
insert-Matches e [] st h = ((refl, st), tt)
insert-Matches e ((k, x) ∷ m) st h = elim (Bool-cases (string_lt e.key k)) [
  | inl below ↦ rw (below) ((refl, st), h)
  | inr above ↦ elim (Bool-cases (string_eq k e.key)) [
    | inl same ↦ rw (above, same) ((refl, st), h.1)
    | inr other ↦ rw (above, other) (h.0, insert-Matches e m st h.1)
  ]
]

-- A map that is in order and matches.
pub record IsMerge (m : Merged) : Type 0 where
  pub sorted : IsSorted m
  pub matches : Matches m

merge_records-IsMerge :
    (es : List KeyValueEntry) (m : Merged)
    → All IsStored es
    → IsMerge m
    → IsMerge (merge_records es m)
unfolding merge_records
merge_records-IsMerge [] m h g = g
merge_records-IsMerge (e ∷ es) m h g = merge_records-IsMerge es (insert e.key e m) h.1 (record {
  sorted = insert-IsSorted e.key e m g.sorted;
  matches = insert-Matches e m h.0 g.matches;
})

pub merge_all-IsMerge :
    (ess : List (List KeyValueEntry)) (m : Merged)
    → All (All IsStored) ess
    → IsMerge m
    → IsMerge (merge_all ess m)
unfolding merge_all
merge_all-IsMerge [] m h g = g
merge_all-IsMerge (es ∷ ess) m h g =
    merge_all-IsMerge ess (merge_records es m) h.1 (merge_records-IsMerge es m h.0 g)

surviving-Above : (k : Bytes) (m : Merged) → Matches m → Above k m → Above k (keyed (surviving m))
unfolding surviving keyed
surviving-Above k [] h a = tt
surviving-Above k ((j, e) ∷ m) h a = elim (Bool-cases (is_tombstone e)) [
  | inl dead ↦ rw (dead) (surviving-Above k m h.1 a.1)
  | inr alive ↦ rw (alive) (rw (h.0.0) a.0, surviving-Above k m h.1 a.1)
]

pub surviving-IsSorted : (m : Merged) → IsMerge m → IsSorted (keyed (surviving m))
unfolding surviving keyed
surviving-IsSorted [] g = tt
surviving-IsSorted ((j, e) ∷ m) g =
    let rest = surviving-IsSorted m (record { sorted = g.sorted.1; matches = g.matches.1 }) in
    elim (Bool-cases (is_tombstone e)) [
      | inl dead ↦ rw (dead) rest
      | inr alive ↦ rw (alive, g.matches.0.0) (surviving-Above j m g.matches.1 g.sorted.0, rest)
    ]

pub surviving-IsStored : (m : Merged) → Matches m → All IsStored (surviving m)
unfolding surviving
surviving-IsStored [] h = tt
surviving-IsStored ((j, e) ∷ m) h = elim (Bool-cases (is_tombstone e)) [
  | inl dead ↦ rw (dead) (surviving-IsStored m h.1)
  | inr alive ↦ rw (alive) (h.0.1, surviving-IsStored m h.1)
]

-- The entries that survive hold what was live.
pub find-surviving :
    (key : Bytes) (m : Merged) → IsMerge m → find key (keyed (surviving m)) ≡ live (find key m)
unfolding surviving keyed find live
find-surviving key [] g = refl
find-surviving key ((j, e) ∷ m) g =
    let rest = find-surviving key m (record { sorted = g.sorted.1; matches = g.matches.1 }) in
    elim (Bool-cases (string_eq j key)) [
      | inl same ↦
          let p : j ≡ key = string_eq→eq j key same in
          let above : Above key m = rw p at g.sorted.0 in
          elim (Bool-cases (is_tombstone e)) [
            | inl dead ↦ rw (same, dead) (rest ∙ ap live (find-Above key m above))
            | inr alive ↦ rw (same, alive, g.matches.0.0, same) refl
          ]
      | inr other ↦ elim (Bool-cases (is_tombstone e)) [
        | inl dead ↦ rw (other, dead) rest
        | inr alive ↦ rw (other, alive, g.matches.0.0, other) rest
      ]
    ]

-- What a compaction of these tables leaves.
unfoldable pub compacted_entries : List (List KeyValueEntry) → List KeyValueEntry
compacted_entries ess = surviving (merge_all ess [])

module _ (ess : List (List KeyValueEntry)) (h : All (All IsStored) ess) where
  merged-IsMerge : IsMerge (merge_all ess [])
  merged-IsMerge = merge_all-IsMerge ess [] h (record { sorted = tt; matches = tt })

  pub compacted_entries-IsStored : All IsStored (compacted_entries ess)
  unfolding compacted_entries
  compacted_entries-IsStored = surviving-IsStored (merge_all ess []) merged-IsMerge.matches

  pub compacted_entries-IsSorted : IsSorted (keyed (compacted_entries ess))
  unfolding compacted_entries
  compacted_entries-IsSorted = surviving-IsSorted (merge_all ess []) merged-IsMerge

  -- Of tables in the order of their keys, the compacted entries hold under each key the newest entry,
  -- and nothing where that is a tombstone or there is none.
  pub find-compacted_entries :
      (key : Bytes)
      → All (λ es. IsSorted (keyed es)) ess
      → find key (keyed (compacted_entries ess)) ≡ live (newest key ess)
  unfolding compacted_entries
  find-compacted_entries key s =
      find-surviving key (merge_all ess []) merged-IsMerge
      ∙ ap live (find-merge_all key ess [] s ∙ unfold find in or_else-none (newest key ess))
