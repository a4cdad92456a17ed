-- ===== src/KvStore/Termination.antt =====
-- `KVStore::get` returns on any system.
use lsm_tree_key_value_store.Prelude.{
  ◌≡◌, refl, Bool, false, Option, some, List, [], ◌∷◌, Bytes, reverse, Bool-cases, inl, inr,
}
use lsm_tree_key_value_store.Prelude.Strings.{is_empty}
use lsm_tree_key_value_store.Result
use lsm_tree_key_value_store.Result.{Result}
use lsm_tree_key_value_store.Disk.{Disk, Os}
use lsm_tree_key_value_store.MemTable
use lsm_tree_key_value_store.SsTable.Reader.{SsTableReader}
use lsm_tree_key_value_store.SsTable.Termination.{get_total}
use lsm_tree_key_value_store.KvStore.{KvStore}
use lsm_tree_key_value_store.KvStore.Ops.{guarded, get_from_tables, get_open, get}

-- A run that has a result.
abbrev pub Returns {ℓ} : {A : Type ℓ} → Option A → Type ℓ
Returns {A} run = (out : A) × (run ≡ some out)

get_from_tables-Returns :
    (os : Os) (d : Disk) (key : Bytes) (rs : List SsTableReader)
    → Returns (get_from_tables os d key rs)
unfolding get_from_tables
get_from_tables-Returns os d key [] = (_, refl)
get_from_tables-Returns os d key (r ∷ rs) =
    let ((res, dead), run) = get_total os d r key false in
    elim (Bool-cases (Result.is_ok res)) [
      | inl ok ↦ rw (run, get_from_tables, ok) (res, refl)
      | inr failed ↦ elim (Bool-cases dead) [
        | inl gone ↦ rw (run, get_from_tables, failed, gone) (_, refl)
        | inr live ↦
            let (out, rest) = get_from_tables-Returns os d key rs in
            rw (run, get_from_tables, failed, live) (out, rest)
      ]
    ]

get_open-Returns :
    (os : Os) (d : Disk) (key : Bytes) (s : KvStore) (found : Result × Bool)
    → Returns (get_open os d key s found)
unfolding get_open
get_open-Returns os d key s (r, dead) = elim (Bool-cases (Result.is_ok r)) [
  | inl ok ↦ rw (ok) (_, refl)
  | inr failed ↦ elim (Bool-cases dead) [
    | inl gone ↦ rw (failed, gone) (_, refl)
    | inr live ↦ rw (failed, live) (get_from_tables-Returns os d key (reverse s.sstables))
  ]
]

-- A lookup in any store, on any system and with any bytes in its files, returns.
pub get-Returns : (os : Os) (d : Disk) (key : Bytes) (s : KvStore) → Returns (get os d key s)
unfolding get guarded get_open
get-Returns os d key s = elim (Bool-cases s.is_open) [
  | inr closed ↦ rw (closed) (_, refl)
  | inl opened ↦ elim (Bool-cases (is_empty key)) [
    | inl empty ↦ rw (opened, empty) (_, refl)
    | inr other ↦ rw (opened, other) (get_open-Returns os d key s (MemTable.get s.memtable key))
  ]
]
