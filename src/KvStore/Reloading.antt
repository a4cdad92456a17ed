-- ===== src/KvStore/Reloading.antt =====
-- The manifest and the log, as the next `open` finds them.
use lsm_tree_key_value_store.Prelude.{
  ℕ, ◌+◌, ◌^◌, ◌<◌, ◌≤◌, ◌≡◌, refl, ap, ◌∙◌, sym, arith, Bool, true, false, some, List, [], ◌∷◌,
  ◌++◌, Bytes, All, map, ltb, ltb→lt, ◌⊎◌, append_assoc, append-nil, Bool-cases, inl, inr,
}
use lsm_tree_key_value_store.Prelude.Strings.{text, is_empty}
use lsm_tree_key_value_store.Types.{KeyValueEntry}
use lsm_tree_key_value_store.Status
use lsm_tree_key_value_store.Status.{Status}
use lsm_tree_key_value_store.Disk.{Disk, reliable, exists}
use lsm_tree_key_value_store.SsTable.Reader.{SsTableReader}
use lsm_tree_key_value_store.SsTable.Reopen.{OnDisk, Tables}
use lsm_tree_key_value_store.KvStore.Names.{table_name, lines, names_of, file_name, table_seq}
use lsm_tree_key_value_store.KvStore.Names.Paths.{table_path}
use lsm_tree_key_value_store.KvStore.Names.Manifest.{
  lines-IsPlain, table_name-IsPlain, file_name-table_path, table_seq-table_name,
}
use lsm_tree_key_value_store.KvStore.Publishing.{manifest_of}
use lsm_tree_key_value_store.KvStore.Durable.{Numbered}
use lsm_tree_key_value_store.KvStore.Open.{later_seq, load_tables}
use lsm_tree_key_value_store.KvStore.View.{Readers}

-- The names of tables with these numbers.
abbrev pub names_for : List ℕ → List Bytes
names_for ns = map table_name ns

table_name_full : (n : ℕ) → is_empty (table_name n) ≡ false
unfolding is_empty table_name text
table_name_full n = refl

-- What `open` reads from a manifest that `updateManifest` has written for tables of this database: the
-- names of these tables, in their order.
pub names_of-manifest_of :
    (db : Bytes) (ns : List ℕ) (rs : List SsTableReader)
    → Numbered db ns rs
    → names_of (lines [] (manifest_of rs)) ≡ names_for ns
unfolding manifest_of names_of
names_of-manifest_of db [] [] h = unfold lines names_of is_empty in refl
names_of-manifest_of db [] (r ∷ rs) h = absurd h
names_of-manifest_of db (n ∷ ns) [] h = absurd h
names_of-manifest_of db (n ∷ ns) (r ∷ rs) ((lt, at), h) =
    let name : file_name [] r.filepath ≡ table_name n =
      ap (file_name []) at ∙ file_name-table_path db n in
    ap names_of (
      ap (lines []) (
        ap (λ f. (f ++ 10 ∷ []) ++ manifest_of rs) name
        ∙ append_assoc (table_name n) (10 ∷ []) (manifest_of rs))
      ∙ lines-IsPlain [] (table_name n) (manifest_of rs) (table_name-IsPlain n))
    ∙ rw (table_name_full n, names_of)
        (ap (λ l. table_name n ∷ l) (names_of-manifest_of db ns rs h))

-- The tables of these numbers hold these entries.
abbrev pub Stock : Disk → Bytes → List ℕ → List (List KeyValueEntry) → Type 0
Stock d db ns ess = Tables d (map (table_path db) ns) ess

-- Open readers tell what the files hold.
pub Readers-Stock :
    (d : Disk) (db : Bytes) (ns : List ℕ) (rs : List SsTableReader)
    (ess : List (List KeyValueEntry))
    → Numbered db ns rs
    → Readers d rs ess
    → Stock d db ns ess
Readers-Stock d db [] [] [] h g = tt
Readers-Stock d db [] [] (es ∷ ess) h g = absurd g
Readers-Stock d db [] (r ∷ rs) ess h g = absurd h
Readers-Stock d db (n ∷ ns) [] ess h g = absurd h
Readers-Stock d db (n ∷ ns) (r ∷ rs) [] h g = absurd g
Readers-Stock d db (n ∷ ns) (r ∷ rs) (es ∷ ess) h g = (
  record {
    contents = g.0.1.contents;
    file = ap d.file (sym h.0.1) ∙ g.0.1.file;
    table = g.0.1.table;
  },
  Readers-Stock d db ns rs ess h.1 g.1,
)

-- What the loop over the names ends with: readers on the tables, after those before, and a number that
-- is not below any.
pub record Loaded (run : Status × List SsTableReader × ℕ) (d : Disk) (db : Bytes) (ns : List ℕ)
    (ess : List (List KeyValueEntry)) (before : List SsTableReader) (least : ℕ) : Type 0 where
  pub readers : List SsTableReader
  pub largest : ℕ
  pub done : run ≡ (Status.ok, before ++ readers, largest)
  pub numbered : Numbered db ns readers
  pub held : Readers d readers ess
  pub below : All (λ n. n ≤ largest) ns
  pub at_least : least ≤ largest
  pub fits : largest + 1 < 2 ^ 64
  pub within : (k : ℕ) → least ≤ k → All (λ n. n ≤ k) ns → largest ≤ k

exists-some : (d : Disk) (p c : Bytes) → d.file p ≡ some c → exists d p ≡ true
unfolding exists
exists-some d p c e = rw (e) refl

at_most : (m n k b : ℕ) → (k ≡ m) ⊎ (k ≡ n) → m ≤ b → n ≤ b → k ≤ b
at_most m n k b (inl e) lo hi = omega arith
at_most m n k b (inr e) lo hi = omega arith

later_seq-table_name :
    (m n : ℕ)
    → n + 1 < 2 ^ 64
    → (k : ℕ) × (later_seq m (table_seq (table_name n)) ≡ k)
      × (m ≤ k)
      × (n ≤ k)
      × ((k ≡ m) ⊎ (k ≡ n))
unfolding later_seq
later_seq-table_name m n lt =
    rw (table_seq-table_name n (omega arith)) (elim (Bool-cases (ltb m n)) [
      | inl more ↦
          let p : m < n = ltb→lt m n more in rw (more) (n, refl, omega arith, omega arith, inr refl)
      | inr same ↦
          let p : n ≤ m = ground arith in rw (same) (m, refl, omega arith, omega arith, inl refl)
    ])

module _ (d : Disk) (db : Bytes) (enable : Bool) where
  load_tables-cons :
      (n : ℕ) (ns : List ℕ) (es : List KeyValueEntry) (before : List SsTableReader) (m : ℕ)
      (t : OnDisk d (table_path db n) es)
      → let a = t.table.at (table_path db n) enable d t.file in
        load_tables reliable d db enable (names_for (n ∷ ns)) before m
        ≡ load_tables reliable d db enable
            (names_for ns)
            (before ++ a.reader ∷ [])
            (later_seq m (table_seq (table_name n)))
  unfolding load_tables
  load_tables-cons n ns es before m t =
      let a = t.table.at (table_path db n) enable d t.file in
      rw (exists-some d (table_path db n) t.contents t.file, load_tables, a.done)
        (ap
          (λ (o : Status × SsTableReader).
            load_tables reliable d db enable (names_for ns) (before ++ o.1 ∷ [])
              (later_seq m (table_seq (table_name n))))
          a.done)

  -- The loop opens each table, and none of its numbers is above the largest.
  pub load_tables-Stock :
      (ns : List ℕ) (ess : List (List KeyValueEntry)) (before : List SsTableReader) (m : ℕ)
      → Stock d db ns ess
      → All (λ n. n + 1 < 2 ^ 64) ns
      → m + 1 < 2 ^ 64
      → Loaded (load_tables reliable d db enable (names_for ns) before m) d db ns ess before m
  unfolding load_tables
  load_tables-Stock [] [] before m t small fit = record {
    readers = [];
    largest = m;
    done = ap (λ rs. (Status.ok, rs, m)) (sym (append-nil before));
    numbered = tt;
    held = tt;
    below = tt;
    at_least = omega arith;
    fits = fit;
    within = λ k lo hi. lo;
  }
  load_tables-Stock [] (es ∷ ess) before m t small fit = absurd t
  load_tables-Stock (n ∷ ns) [] before m t small fit = absurd t
  load_tables-Stock (n ∷ ns) (es ∷ ess) before m (t, ts) (lt, small) fit =
      let a = t.table.at (table_path db n) enable d t.file in
      let (k, seq, m_le, n_le, which) = later_seq-table_name m n lt in
      let l = load_tables-Stock ns ess (before ++ a.reader ∷ []) k ts small (ground arith) in
      let k_le = l.at_least in
      record {
        readers = a.reader ∷ l.readers;
        largest = l.largest;
        done =
            load_tables-cons n ns es before m t
            ∙ (ap (load_tables reliable d db enable (names_for ns) (before ++ a.reader ∷ [])) seq
                ∙ (l.done
                    ∙ ap (λ rs. (Status.ok, rs, l.largest))
                        (append_assoc before (a.reader ∷ []) l.readers)));
        numbered = ((lt, a.path), l.numbered);
        held = (
          (
            a.holds,
            record { contents = t.contents; file = ap d.file a.path ∙ t.file; table = t.table },
          ),
          l.held,
        );
        below = (omega arith, l.below);
        at_least = omega arith;
        fits = l.fits;
        within = λ b lo hi. l.within b (at_most m n k b which lo hi.0) hi.1;
      }
