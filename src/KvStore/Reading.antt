-- ===== src/KvStore/Reading.antt =====
-- `KVStore::get` answers from the map that the store stands for.
use lsm_tree_key_value_store.Prelude.{
  ◌≡◌, refl, ap, ◌∙◌, sym, true, false, Option, none, some, List, [], ◌∷◌, ◌++◌, reverse,
  reverse-append, append_assoc, append-nil, Bytes, Bool-cases, inl, inr, if◌then◌else◌,
}
use lsm_tree_key_value_store.Prelude.Strings.{text, string_eq, string_eq→eq, is_empty}
use lsm_tree_key_value_store.Prelude.SortedMap.{find, or_else}
use lsm_tree_key_value_store.Types.{KeyValueEntry, is_tombstone, is_tombstone_type}
use lsm_tree_key_value_store.Result
use lsm_tree_key_value_store.Result.{Result}
use lsm_tree_key_value_store.Disk.{Disk, reliable}
use lsm_tree_key_value_store.MemTable
use lsm_tree_key_value_store.MemTable.{MemTableEntry}
use lsm_tree_key_value_store.SsTable.Reader
use lsm_tree_key_value_store.SsTable.Reader.{SsTableReader, answer}
use lsm_tree_key_value_store.SsTable.Writer.{table_entries}
use lsm_tree_key_value_store.SsTable.Layout.{keyed, Answers}
use lsm_tree_key_value_store.SsTable.Lookup.{get-Holds}
use lsm_tree_key_value_store.Compaction.Merge.{newest}
use lsm_tree_key_value_store.KvStore.{KvStore}
use lsm_tree_key_value_store.KvStore.Ops.{guarded, get_from_tables, get_open, get}
use lsm_tree_key_value_store.KvStore.View.{shown, view, Readers, Represents}

-- A result that shows this value, or that there is none.
abbrev pub Shows : Option Bytes → Option Result → Type 0
Shows (some v) r = r ≡ some (Result.ok v)
Shows none r = (msg : Bytes) × (r ≡ some (Result.not_found msg))

-- What `get` makes of an entry of a table, and of the answer of the tables below.
table_result : Option KeyValueEntry → Option Result → Option Result
table_result none below = below
table_result (some e) below =
    if is_tombstone e
    then some (Result.not_found (text "Key was deleted in SSTable"))
    else some (Result.ok e.value)

answer-dead :
    (e : KeyValueEntry)
    → is_tombstone e ≡ true
    → answer e ≡ (Result.not_found (text "Key deleted (tombstone in SSTable)"), true)
unfolding answer
answer-dead e h = rw (h) refl

answer-alive : (e : KeyValueEntry) → is_tombstone e ≡ false → answer e ≡ (Result.ok e.value, false)
unfolding answer
answer-alive e h = rw (h) refl

module _ (d : Disk) (key : Bytes) where
  get_from_tables-Holds :
      (r : SsTableReader) (rest : List SsTableReader) (found : Option KeyValueEntry)
      → Answers found (Reader.get reliable d r key false)
      → get_from_tables reliable d key (r ∷ rest)
        ≡ table_result found (get_from_tables reliable d key rest)
  unfolding get_from_tables table_result
  get_from_tables-Holds r rest none (msg, e) = rw (e, get_from_tables) refl
  get_from_tables-Holds r rest (some x) e = elim (Bool-cases (is_tombstone x)) [
    | inl dead ↦ rw (e ∙ ap some (answer-dead x dead), get_from_tables, dead) refl
    | inr alive ↦ rw (e ∙ ap some (answer-alive x alive), get_from_tables, alive) refl
  ]

  table_result-or_else :
      (a b : Option KeyValueEntry) (below : Option Result)
      → table_result (or_else a b) below ≡ table_result a (table_result b below)
  unfolding table_result
  table_result-or_else none b below = refl
  table_result-or_else (some e) b below = refl

  get_from_tables-Readers :
      (rs rest : List SsTableReader) (ess : List (List KeyValueEntry))
      → Readers d rs ess
      → get_from_tables reliable d key (reverse rs ++ rest)
        ≡ table_result (newest key ess) (get_from_tables reliable d key rest)
  unfolding newest table_result
  get_from_tables-Readers [] rest [] h = refl
  get_from_tables-Readers [] rest (es ∷ ess) h = absurd h
  get_from_tables-Readers (r ∷ rs) rest [] h = absurd h
  get_from_tables-Readers (r ∷ rs) rest (es ∷ ess) h =
      ap (λ l. get_from_tables reliable d key (l ++ rest)) (reverse-append (r ∷ []) rs)
      ∙ (ap (get_from_tables reliable d key) (append_assoc (reverse rs) (r ∷ []) rest)
          ∙ (get_from_tables-Readers rs (r ∷ rest) ess h.1
              ∙ (ap (table_result (newest key ess)) (
                    get_from_tables-Holds r rest (find key (keyed es))
                      (get-Holds d r es key false h.0.0))
                  ∙ sym (table_result-or_else (newest key ess) (find key (keyed es)) _))))

-- The memtable's entry, as an entry of a table.
abbrev pub as_entry : Bytes → Option MemTableEntry → Option KeyValueEntry
as_entry key none = none
as_entry key (some e) = some (record { key = key; value = e.value; type = e.type })

pub find-table_entries :
    (key : Bytes) (m : List (Bytes × MemTableEntry))
    → find key (keyed (table_entries m)) ≡ as_entry key (find key m)
unfolding find keyed table_entries
find-table_entries key [] = refl
find-table_entries key ((k, e) ∷ m) = elim (Bool-cases (string_eq k key)) [
  | inl same ↦
      let p : k ≡ key = string_eq→eq k key same in
      rw (same) (ap (λ j. some (record { key = j; value = e.value; type = e.type })) p)
  | inr other ↦ rw (other) (find-table_entries key m)
]

module _ (d : Disk) (key : Bytes) (s : KvStore) (ess : List (List KeyValueEntry)) where
  -- The tables answer what their newest entry shows.
  get_from_tables-shown :
      Readers d s.sstables ess
      → Shows (shown (newest key ess)) (get_from_tables reliable d key (reverse s.sstables))
  get_from_tables-shown h =
      let e =
        ap (get_from_tables reliable d key) (sym (append-nil (reverse s.sstables)))
        ∙ get_from_tables-Readers d key s.sstables [] ess h in
      rw (e) (go (newest key ess))
    where
      go :
          (found : Option KeyValueEntry)
          → Shows (shown found) (table_result found (get_from_tables reliable d key []))
      go none = unfold shown table_result get_from_tables in (_, refl)
      go (some e) = elim (Bool-cases (is_tombstone e)) [
        | inl dead ↦ unfold shown table_result in rw (dead) (_, refl)
        | inr alive ↦ unfold shown table_result in rw (alive) refl
      ]

  get_open-shown :
      (found : Option MemTableEntry)
      → Readers d s.sstables ess
      → Shows
          (shown (or_else (as_entry key found) (newest key ess)))
          (get_open reliable d key s (MemTable.get_found found))
  get_open-shown none h = unfold get_open MemTable.get_found in get_from_tables-shown h
  get_open-shown (some e) h = elim (Bool-cases (is_tombstone_type e.type)) [
    | inl dead ↦ unfold get_open MemTable.get_found shown in rw (dead) (_, refl)
    | inr alive ↦ unfold get_open MemTable.get_found shown in rw (alive) refl
  ]

  -- On an open store whose tables hold these entries, a lookup without faults of the disk answers from
  -- the map that the store stands for: the value of the key, or that there is none.
  pub get-view :
      Represents s d ess → is_empty key ≡ false → Shows (view s ess key) (get reliable d key s)
  unfolding get guarded view MemTable.get
  get-view h ne =
      simp (h.is_open, ne, find-table_entries key s.memtable.table)
        (get_open-shown (find key s.memtable.table) h.readers)
