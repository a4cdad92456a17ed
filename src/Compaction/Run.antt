-- ===== src/Compaction/Run.antt =====
-- `Compaction::compact` without faults of the disk.
use lsm_tree_key_value_store.Prelude.{
  ◌≡◌, refl, ap, ◌∙◌, arith, true, false, none, some, List, [], ◌∷◌, ◌++◌, Bytes, All, Bool-cases,
  inl, inr, ◌⊎◌, length, length-append,
}
use lsm_tree_key_value_store.Prelude.Strings.{text, string_eq, string_eq→eq, is_empty}
use lsm_tree_key_value_store.Types.{KeyValueEntry}
use lsm_tree_key_value_store.Status
use lsm_tree_key_value_store.Options.{Options}
use lsm_tree_key_value_store.Disk.{Disk, reliable, set_file, remove_file}
use lsm_tree_key_value_store.Disk.Laws.{file-set_file_self, file-set_file_ne, rename_file-reliable}
use lsm_tree_key_value_store.SsTable.Writer.{write_from_entries}
use lsm_tree_key_value_store.SsTable.Limits.{IsSmall, IsWritable}
use lsm_tree_key_value_store.SsTable.Layout.{IsStored}
use lsm_tree_key_value_store.SsTable.ReadBack.{read_all_records-Holds}
use lsm_tree_key_value_store.SsTable.Reopen.{
  OnDisk, OpenedAs, Tables, Saved, write_from_entries-Saved,
}
use lsm_tree_key_value_store.Compaction.{
  Merged, merge_records, read_table, merge_tables, surviving, remove_inputs, replace_target, verify,
  write_merged, compact,
}
use lsm_tree_key_value_store.Compaction.Merge.{
  merge_all, compacted_entries, compacted_entries-IsStored, compacted_entries-IsSorted,
}
use lsm_tree_key_value_store.Compaction.Removal.{
  remove_inputs_keep, remove_inputs-dir, remove_inputs-Gone, Gone,
}

read_table-OnDisk :
    (d : Disk) (stale p : Bytes) (es : List KeyValueEntry)
    → OnDisk d p es
    → read_table reliable d stale p ≡ some (Status.ok, es)
unfolding read_table
read_table-OnDisk d stale p es t =
    let a = t.table.at p false d t.file in
    rw (a.done) (read_all_records-Holds d a.reader es stale a.holds)

merge_tables-Tables :
    (d : Disk) (stale : Bytes) (ps : List Bytes) (ess : List (List KeyValueEntry)) (m : Merged)
    → Tables d ps ess
    → merge_tables reliable d stale ps m ≡ some (Status.ok, merge_all ess m)
unfolding merge_tables merge_all
merge_tables-Tables d stale [] [] m t = refl
merge_tables-Tables d stale [] (es ∷ ess) m t = absurd t
merge_tables-Tables d stale (p ∷ ps) [] m t = absurd t
merge_tables-Tables d stale (p ∷ ps) (es ∷ ess) m t =
    rw (read_table-OnDisk d stale p es t.0, merge_tables)
      (merge_tables-Tables d stale ps ess (merge_records es m) t.1)

abbrev pub temp_path : Bytes → Bytes
temp_path out = out ++ text ".compact_tmp"

-- The disk after the surviving entries `bytes` have taken the place of the target.
unfoldable pub replaced : List Bytes → Bytes → Bytes → Disk → Disk
replaced ps out bytes d = remove_inputs reliable out ps (
    set_file out (some bytes) (
      set_file (temp_path out) none
        (set_file (temp_path out) (some bytes) (set_file (temp_path out) none d))))

-- A compaction that ran: the target is a table of the merge, no other input is left, and all other
-- files are as they were.
pub record Compacted (ps : List Bytes) (ess : List (List KeyValueEntry)) (out : Bytes) (d d' : Disk)
    : Type 0 where
  pub directories : d'.dir ≡ d.dir
  pub table : OnDisk d' out (compacted_entries ess)
  pub removed : Gone out ps d'
  pub others :
      (q : Bytes)
      → string_eq out q ≡ false
      → string_eq (temp_path out) q ≡ false
      → All (λ p. string_eq p q ≡ false) ps
      → d'.file q ≡ d.file q

string_eq-temp_path : (out : Bytes) → string_eq (temp_path out) out ≡ false
unfolding text
string_eq-temp_path out = elim (Bool-cases (string_eq (temp_path out) out)) [
  | inl same ↦ absurd (
      omega (
        arith,
        ap length (string_eq→eq (temp_path out) out same),
        length-append out (text ".compact_tmp"),
      ))
  | inr other ↦ other
]

replace_target-reliable :
    (ps : List Bytes) (temp out c : Bytes) (d : Disk)
    → d.file temp ≡ some c
    → replace_target reliable ps temp out true d
      ≡ (Status.ok, remove_inputs reliable out ps (set_file out (some c) (set_file temp none d)))
unfolding replace_target
replace_target-reliable ps temp out c d e =
    rw (replace_target, rename_file-reliable temp out c d e) refl

verify-reliable :
    (ps : List Bytes) (temp out : Bytes) (es : List KeyValueEntry) (d : Disk)
    → OpenedAs temp true d es
    → verify reliable ps temp out true d ≡ replace_target reliable ps temp out true d
unfolding verify
verify-reliable ps temp out es d a = rw (a.done) refl

write_merged-reliable :
    (ps : List Bytes) (out : Bytes) (o : Options) (m : Merged) (d : Disk)
    (s : Saved
      (write_from_entries reliable
        (temp_path out)
        (surviving m)
        o
        (set_file (temp_path out) none d))
      (temp_path out)
      (surviving m)
      (set_file (temp_path out) none d))
    → write_merged reliable ps out o true m d ≡ (Status.ok, replaced ps out s.contents d)
unfolding write_merged remove_file replaced
write_merged-reliable ps out o m d s =
    let temp = temp_path out in
    let d1 = set_file temp none d in
    let d2 = set_file temp (some s.contents) d1 in
    let there = file-set_file_self temp (some s.contents) d1 in
    rw (s.done) (
      verify-reliable ps temp out (surviving m) d2 (s.table.at temp true d2 there)
      ∙ replace_target-reliable ps temp out s.contents d2 there)

-- The files after a replacement.
replaced-out :
    (ps : List Bytes) (out c : Bytes) (d : Disk) → (replaced ps out c d).file out ≡ some c
unfolding replaced
replaced-out ps out c d =
    remove_inputs_keep out out ps _ (target_or_other out ps) ∙ file-set_file_self out (some c) _
  where
    target_or_other :
        (out : Bytes) (ps : List Bytes)
        → All (λ p. (string_eq p out ≡ true) ⊎ (string_eq p out ≡ false)) ps
    target_or_other out [] = tt
    target_or_other out (p ∷ ps) = (Bool-cases (string_eq p out), target_or_other out ps)

replaced-dir : (ps : List Bytes) (out c : Bytes) (d : Disk) → (replaced ps out c d).dir ≡ d.dir
unfolding replaced set_file
replaced-dir ps out c d = remove_inputs-dir out ps _

replaced_others :
    (ps : List Bytes) (out c q : Bytes) (d : Disk)
    → string_eq out q ≡ false
    → string_eq (temp_path out) q ≡ false
    → All (λ p. string_eq p q ≡ false) ps
    → (replaced ps out c d).file q ≡ d.file q
unfolding replaced
replaced_others ps out c q d no_out no_temp h =
    let temp = temp_path out in
    remove_inputs_keep out q ps _ (others q ps h)
    ∙ (file-set_file_ne out q (some c) _ no_out
        ∙ (file-set_file_ne temp q none _ no_temp
            ∙ (file-set_file_ne temp q (some c) _ no_temp
                ∙ file-set_file_ne temp q none d no_temp)))
  where
    others :
        (q : Bytes) (ps : List Bytes)
        → All (λ p. string_eq p q ≡ false) ps
        → All (λ p. (string_eq p out ≡ true) ⊎ (string_eq p q ≡ false)) ps
    others q [] h = tt
    others q (p ∷ ps) h = (inr h.0, others q ps h.1)

-- Compaction::compact, without faults of the disk, of tables that hold these entries, one at least,
-- with an interval of the sparse index that is not 0, where the merged entries are within the limits
-- of the format, ends with OK: the target is a table of the newest live entries, no other input is
-- left, and no other file is changed but the temporary one.
pub compact-Tables :
    (stale : Bytes) (ps : List Bytes) (ess : List (List KeyValueEntry)) (out : Bytes) (o : Options)
    (d : Disk)
    → is_empty ps ≡ false
    → Tables d ps ess
    → All (All IsStored) ess
    → IsSmall o (compacted_entries ess)
    → (d' : Disk) × (compact reliable stale ps out o true d ≡ some (Status.ok, d'))
      × Compacted ps ess out d d'
unfolding compact compacted_entries replaced
compact-Tables stale ps ess out o d ne t h small =
    let v : IsWritable o (compacted_entries ess) = record {
      stored = compacted_entries-IsStored ess h;
      sorted = compacted_entries-IsSorted ess h;
      small = small;
    } in
    let s =
      write_from_entries-Saved (temp_path out) (compacted_entries ess) o
        (set_file (temp_path out) none d) v in
    let run = write_merged-reliable ps out o (merge_all ess []) d s in
    (
      replaced ps out s.contents d,
      rw (ne, merge_tables-Tables d stale ps ess [] t) (ap some run),
      record {
        directories = replaced-dir ps out s.contents d;
        table = record {
          contents = s.contents;
          file = replaced-out ps out s.contents d;
          table = s.table;
        };
        removed = remove_inputs-Gone out ps _;
        others = λ q no_out no_temp no_input.
            replaced_others ps out s.contents q d no_out no_temp no_input;
      },
    )
