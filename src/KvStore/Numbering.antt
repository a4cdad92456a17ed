-- ===== src/KvStore/Numbering.antt =====
-- The numbers of the tables of a store, from one `open` to the next.
use lsm_tree_key_value_store.Prelude.{
  ◌++◌, ℕ, ◌+◌, ◌%◌, ◌^◌, ◌<◌, ◌≤◌, ◌≡◌, refl, ap, ◌∙◌, sym, arith, some, List, [], ◌∷◌, Bytes, All,
  inl, inr,
}
use lsm_tree_key_value_store.Prelude.Strings.{string_eq, string_eq_refl}
use lsm_tree_key_value_store.Disk.{Disk}
use lsm_tree_key_value_store.SsTable.Reader.{SsTableReader}
use lsm_tree_key_value_store.KvStore.Names.{file_name}
use lsm_tree_key_value_store.KvStore.Names.Paths.{table_path_injective, table_path}
use lsm_tree_key_value_store.KvStore.Publishing.{manifest_of}
use lsm_tree_key_value_store.KvStore.View.{IsNamed}
use lsm_tree_key_value_store.KvStore.Durable.{Numbered, Listed}

pub Numbered-IsNamed :
    (db : Bytes) (seq : ℕ) (ns : List ℕ) (rs : List SsTableReader)
    → Numbered db ns rs
    → All (λ n. n < seq) ns
    → All (IsNamed db seq) rs
Numbered-IsNamed db seq [] [] h b = tt
Numbered-IsNamed db seq [] (r ∷ rs) h b = absurd h
Numbered-IsNamed db seq (n ∷ ns) [] h b = absurd h
Numbered-IsNamed db seq (n ∷ ns) (r ∷ rs) h b =
    ((n, b.0, h.0.1), Numbered-IsNamed db seq ns rs h.1 b.1)

pub below-next :
    (k : ℕ) (ns : List ℕ)
    → k + 1 < 2 ^ 64
    → All (λ n. n ≤ k) ns
    → All (λ n. n < (k + 1) % 2 ^ 64) ns
below-next k [] fit h = tt
below-next k (n ∷ ns) fit h = (omega (arith, h.0), below-next k ns fit h.1)

pub small_numbers :
    (db : Bytes) (ns : List ℕ) (rs : List SsTableReader)
    → Numbered db ns rs
    → All (λ n. n + 1 < 2 ^ 64) ns
small_numbers db [] rs h = tt
small_numbers db (n ∷ ns) [] h = absurd h
small_numbers db (n ∷ ns) (r ∷ rs) h = (h.0.0, small_numbers db ns rs h.1)

-- The names that are written depend on the numbers alone.
Numbered-manifest_of :
    (db : Bytes) (ns : List ℕ) (rs qs : List SsTableReader)
    → Numbered db ns rs
    → Numbered db ns qs
    → manifest_of rs ≡ manifest_of qs
unfolding manifest_of
Numbered-manifest_of db [] [] [] h g = refl
Numbered-manifest_of db [] (r ∷ rs) qs h g = absurd h
Numbered-manifest_of db [] [] (q ∷ qs) h g = absurd g
Numbered-manifest_of db (n ∷ ns) [] qs h g = absurd h
Numbered-manifest_of db (n ∷ ns) (r ∷ rs) [] h g = absurd g
Numbered-manifest_of db (n ∷ ns) (r ∷ rs) (q ∷ qs) h g =
    ap (λ p. (file_name [] p ++ 10 ∷ []) ++ manifest_of rs) (h.0.1 ∙ sym g.0.1)
    ∙ ap (λ bs. (file_name [] q.filepath ++ 10 ∷ []) ++ bs)
        (Numbered-manifest_of db ns rs qs h.1 g.1)

Numbered-nil :
    (db : Bytes) (ns : List ℕ) (rs qs : List SsTableReader)
    → Numbered db ns rs
    → Numbered db ns qs
    → rs ≡ []
    → qs ≡ []
Numbered-nil db [] rs [] h g e = refl
Numbered-nil db [] rs (q ∷ qs) h g e = absurd g
Numbered-nil db (n ∷ ns) [] qs h g e = absurd h
Numbered-nil db (n ∷ ns) (r ∷ rs) qs h g e = cc

pub Listed-Numbered :
    (d : Disk) (path db : Bytes) (ns : List ℕ) (rs qs : List SsTableReader)
    → Numbered db ns rs
    → Numbered db ns qs
    → Listed d path rs
    → Listed d path qs
Listed-Numbered d path db ns rs qs h g (inl e) =
    inl (e ∙ ap some (Numbered-manifest_of db ns rs qs h g))
Listed-Numbered d path db ns rs qs h g (inr (absent, e)) =
    inr (absent, Numbered-nil db ns rs qs h g e)

-- The numbers of an open store's tables are below the next one.
pub IsNamed-below :
    (db : Bytes) (seq : ℕ) (ns : List ℕ) (rs : List SsTableReader)
    → Numbered db ns rs
    → All (IsNamed db seq) rs
    → All (λ n. n ≤ seq) ns
IsNamed-below db seq [] rs h g = tt
IsNamed-below db seq (n ∷ ns) [] h g = absurd h
IsNamed-below db seq (n ∷ ns) (r ∷ rs) h ((k, lt, at), g) =
    let same : k ≡ n =
      table_path_injective db k n
        (ap (string_eq (table_path db k)) (sym h.0.1 ∙ at) ∙ string_eq_refl (table_path db k)) in
    (omega arith, IsNamed-below db seq ns rs h.1 g)
