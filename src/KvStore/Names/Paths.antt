-- ===== src/KvStore/Names/Paths.antt =====
-- The files of a database have different paths.
use lsm_tree_key_value_store.Prelude.{
  true, ℕ, ◌≡◌, ◌≢◌, refl, ap, ◌∙◌, sym, arith, false, [], ◌∷◌, ◌++◌, Bytes, append_assoc,
  Bool-cases, inl, inr,
}
use lsm_tree_key_value_store.Prelude.Strings.{string_eq_comm, text, string_eq, string_eq→eq}
use lsm_tree_key_value_store.KvStore.Names.{padded, table_name}
use lsm_tree_key_value_store.KvStore.Names.Numbers.{table_name_injective}

pub string_eq-append : (a b c : Bytes) → string_eq (a ++ b) (a ++ c) ≡ string_eq b c
unfolding string_eq
string_eq-append [] b c = refl
string_eq-append (x ∷ a) b c = ground (arith, string_eq-append a b c)

-- The paths that `KVStoreImpl` builds from that of the database.
abbrev pub table_path : Bytes → ℕ → Bytes
table_path db n = db ++ (text "/" ++ table_name n)

abbrev pub manifest_file : Bytes → Bytes
manifest_file db = db ++ text "/manifest.txt"

abbrev pub manifest_temp : Bytes → Bytes
manifest_temp db = manifest_file db ++ text ".tmp"

abbrev pub wal_file : Bytes → Bytes
wal_file db = db ++ text "/wal.log"

-- The last byte, or this one.
ending : ℕ → Bytes → ℕ
ending c [] = c
ending c (x ∷ xs) = ending x xs

ending-append : (c : ℕ) (xs ys : Bytes) → ending c (xs ++ ys) ≡ ending (ending c xs) ys
unfolding ending
ending-append c [] ys = refl
ending-append c (x ∷ xs) ys = ending-append x xs ys

ending-table_name : (c n : ℕ) → ending c (table_name n) ≡ 116
unfolding ending text table_name
ending-table_name c n = ending-append b'_' (padded n) (text ".sst")

ending-compact_temp : (c : ℕ) (name : Bytes) → ending c (name ++ text ".compact_tmp") ≡ 112
unfolding ending text
ending-compact_temp c name = ending-append c name (text ".compact_tmp")

module _ (db : Bytes) where
  pub table_path_injective :
      (n m : ℕ) → string_eq (table_path db n) (table_path db m) ≡ true → n ≡ m
  unfolding text
  table_path_injective n m same =
      let tail =
        sym (string_eq-append db (text "/" ++ table_name n) (text "/" ++ table_name m)) ∙ same in
      let names = sym (string_eq-append (text "/") (table_name n) (table_name m)) ∙ tail in
      table_name_injective n m (string_eq→eq (table_name n) (table_name m) names)

  pub table_path-ne : (n m : ℕ) → n ≢ m → string_eq (table_path db n) (table_path db m) ≡ false
  table_path-ne n m ne = elim (Bool-cases (string_eq (table_path db n) (table_path db m))) [
    | inl same ↦ absurd (ne (table_path_injective n m same))
    | inr other ↦ other
  ]

  pub manifest-ne-table_path : (n : ℕ) → string_eq (manifest_file db) (table_path db n) ≡ false
  manifest-ne-table_path n =
      string_eq-append db (text "/manifest.txt") (text "/" ++ table_name n)
      ∙ unfold text string_eq table_name in refl

  pub temp-ne-table_path : (n : ℕ) → string_eq (manifest_temp db) (table_path db n) ≡ false
  temp-ne-table_path n =
      ap (λ a. string_eq a (table_path db n)) (append_assoc db (text "/manifest.txt") (text ".tmp"))
      ∙ (string_eq-append db (text "/manifest.txt" ++ text ".tmp") (text "/" ++ table_name n)
          ∙ unfold text string_eq table_name in refl)

  pub wal-ne-table_path : (n : ℕ) → string_eq (wal_file db) (table_path db n) ≡ false
  wal-ne-table_path n =
      string_eq-append db (text "/wal.log") (text "/" ++ table_name n)
      ∙ unfold text string_eq table_name in refl

  pub table_path-ne-wal : (n : ℕ) → string_eq (table_path db n) (wal_file db) ≡ false
  table_path-ne-wal n = string_eq_comm (table_path db n) (wal_file db) ∙ wal-ne-table_path n

  pub table_path-ne-manifest : (n : ℕ) → string_eq (table_path db n) (manifest_file db) ≡ false
  table_path-ne-manifest n =
      string_eq_comm (table_path db n) (manifest_file db) ∙ manifest-ne-table_path n

  pub temp-ne-manifest : string_eq (manifest_temp db) (manifest_file db) ≡ false
  temp-ne-manifest =
      ap (λ a. string_eq a (manifest_file db))
        (append_assoc db (text "/manifest.txt") (text ".tmp"))
      ∙ (string_eq-append db (text "/manifest.txt" ++ text ".tmp") (text "/manifest.txt")
          ∙ unfold text string_eq in refl)

  pub manifest-ne-wal : string_eq (manifest_file db) (wal_file db) ≡ false
  manifest-ne-wal =
      string_eq-append db (text "/manifest.txt") (text "/wal.log") ∙ unfold text string_eq in refl

  pub wal-ne-manifest : string_eq (wal_file db) (manifest_file db) ≡ false
  wal-ne-manifest = string_eq_comm (wal_file db) (manifest_file db) ∙ manifest-ne-wal

  pub temp-ne-wal : string_eq (manifest_temp db) (wal_file db) ≡ false
  temp-ne-wal =
      ap (λ a. string_eq a (wal_file db)) (append_assoc db (text "/manifest.txt") (text ".tmp"))
      ∙ (string_eq-append db (text "/manifest.txt" ++ text ".tmp") (text "/wal.log")
          ∙ unfold text string_eq in refl)

  pub compact_temp-ne-wal :
      (n : ℕ) → string_eq (table_path db n ++ text ".compact_tmp") (wal_file db) ≡ false
  compact_temp-ne-wal n =
      ap (λ a. string_eq a (wal_file db))
        (append_assoc db (text "/" ++ table_name n) (text ".compact_tmp"))
      ∙ (string_eq-append db ((text "/" ++ table_name n) ++ text ".compact_tmp") (text "/wal.log")
          ∙ unfold text string_eq table_name in refl)

  pub compact_temp-ne-manifest :
      (n : ℕ) → string_eq (table_path db n ++ text ".compact_tmp") (manifest_file db) ≡ false
  compact_temp-ne-manifest n =
      ap (λ a. string_eq a (manifest_file db))
        (append_assoc db (text "/" ++ table_name n) (text ".compact_tmp"))
      ∙ (string_eq-append db ((text "/" ++ table_name n) ++ text ".compact_tmp")
            (text "/manifest.txt")
          ∙ unfold text string_eq table_name in refl)

  pub compact_temp-ne-table_path :
      (n m : ℕ) → string_eq (table_path db n ++ text ".compact_tmp") (table_path db m) ≡ false
  compact_temp-ne-table_path n m =
      ap (λ a. string_eq a (table_path db m))
        (append_assoc db (text "/" ++ table_name n) (text ".compact_tmp"))
      ∙ (string_eq-append db ((text "/" ++ table_name n) ++ text ".compact_tmp")
            (text "/" ++ table_name m)
          ∙ other_end)
    where
      other_end :
          string_eq ((text "/" ++ table_name n) ++ text ".compact_tmp") (text "/" ++ table_name m)
          ≡ false
      other_end =
          elim (Bool-cases (
            string_eq ((text "/" ++ table_name n) ++ text ".compact_tmp")
              (text "/" ++ table_name m))) [
                | inl same ↦
                    let e = ap (ending 0) (string_eq→eq _ _ same) in
                    let p = ending-compact_temp 0 (text "/" ++ table_name n) in
                    let t =
                      ending-append 0 (text "/") (table_name m)
                      ∙ ending-table_name (ending 0 (text "/")) m in
                    absurd (omega (arith, sym p ∙ (e ∙ t)))
                | inr other ↦ other
              ]
