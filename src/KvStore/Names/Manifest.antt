-- ===== src/KvStore/Names/Manifest.antt =====
-- The names that `updateManifest` writes are those that `open` reads, with their numbers.
use lsm_tree_key_value_store.Prelude.{
  ℕ, zero, suc, ◌+◌, ◌-◌, ◌/◌, ◌%◌, ◌^◌, ◌<◌, ◌≤◌, ◌≡◌, refl, ap, ◌∙◌, sym, arith, false, some, [],
  ◌∷◌, ◌++◌, Bytes, length, replicate, ltb, ltb→lt, lt→ltb, none, ◌==◌, append_assoc, append-nil,
  All, Bool-cases, inl, inr,
}
use lsm_tree_key_value_store.Prelude.Strings.{text, string_eq}
use lsm_tree_key_value_store.Prelude.Decimal.{decimal, decimal_loop}
use lsm_tree_key_value_store.KvStore.Names.{
  padded, table_name, lines, file_name, before_dot, stoull, in_range, is_space, table_seq, digits,
}
use lsm_tree_key_value_store.KvStore.Names.Numbers.{digits-padded}
use lsm_tree_key_value_store.KvStore.Names.Paths.{table_path}

-- Every byte is a digit.
abbrev IsNumeral : Bytes → Type 0
IsNumeral bs = All (λ c. (b'0' ≤ c) × (c < b'0' + 10)) bs

IsNumeral-append : (a b : Bytes) → IsNumeral a → IsNumeral b → IsNumeral (a ++ b)
IsNumeral-append [] b h g = g
IsNumeral-append (c ∷ a) b h g = (h.0, IsNumeral-append a b h.1 g)

IsNumeral-replicate : (k : ℕ) → IsNumeral (replicate k b'0')
IsNumeral-replicate zero = tt
IsNumeral-replicate (suc k) = ((omega arith, omega arith), IsNumeral-replicate k)

decimal_loop-IsNumeral : (fuel n : ℕ) → IsNumeral (decimal_loop fuel n)
unfolding decimal_loop
decimal_loop-IsNumeral zero n = tt
decimal_loop-IsNumeral (suc fuel) n = elim (Bool-cases (ltb n 10)) [
  | inl one ↦
      let lt : n < 10 = ltb→lt n 10 one in rw (one, decimal_loop) ((omega arith, omega arith), tt)
  | inr more ↦
      rw (more, decimal_loop)
        (IsNumeral-append (decimal_loop fuel (n / 10)) ((b'0' + n % 10) ∷ [])
          (decimal_loop-IsNumeral fuel (n / 10)) ((omega arith, omega arith), tt))
]

padded-IsNumeral : (n : ℕ) → IsNumeral (padded n)
unfolding padded decimal
padded-IsNumeral n =
    IsNumeral-append (replicate (6 - length (decimal n)) b'0') (decimal n) (IsNumeral-replicate _)
      (decimal_loop-IsNumeral (suc n) n)

-- A byte that neither ends a line nor a directory's name.
abbrev pub IsPlain : Bytes → Type 0
IsPlain bs = All (λ c. ((c == 10) ≡ false) × ((c == b'/') ≡ false)) bs

IsPlain-append : (a b : Bytes) → IsPlain a → IsPlain b → IsPlain (a ++ b)
IsPlain-append [] b h g = g
IsPlain-append (c ∷ a) b h g = (h.0, IsPlain-append a b h.1 g)

IsNumeral-IsPlain : (bs : Bytes) → IsNumeral bs → IsPlain bs
IsNumeral-IsPlain [] h = tt
IsNumeral-IsPlain (c ∷ bs) ((lo, hi), h) = ((ground arith, ground arith), IsNumeral-IsPlain bs h)

pub table_name-IsPlain : (n : ℕ) → IsPlain (table_name n)
unfolding table_name
table_name-IsPlain n =
    IsPlain-append (text "sst_") (padded n ++ text ".sst")
      (unfold text in ((refl, refl), ((refl, refl), ((refl, refl), ((refl, refl), tt)))))
      (IsPlain-append (padded n) (text ".sst") (IsNumeral-IsPlain (padded n) (padded-IsNumeral n))
        (unfold text in ((refl, refl), ((refl, refl), ((refl, refl), ((refl, refl), tt))))))

-- A line without a line feed is read whole.
pub lines-IsPlain :
    (line cs rest : Bytes)
    → IsPlain cs
    → lines line (cs ++ 10 ∷ rest) ≡ (line ++ cs) ∷ lines [] rest
unfolding lines
lines-IsPlain line [] rest h = ap (λ l. l ∷ lines [] rest) (sym (append-nil line))
lines-IsPlain line (c ∷ cs) rest h = rw (h.0.0) (
    lines-IsPlain (line ++ c ∷ []) cs rest h.1
    ∙ ap (λ l. l ∷ lines [] rest) (append_assoc line (c ∷ []) cs))

file_name-IsPlain : (name cs : Bytes) → IsPlain cs → file_name name cs ≡ name ++ cs
unfolding file_name
file_name-IsPlain name [] h = sym (append-nil name)
file_name-IsPlain name (c ∷ cs) h =
    rw (h.0.1) (file_name-IsPlain (name ++ c ∷ []) cs h.1 ∙ append_assoc name (c ∷ []) cs)

file_name-slash : (name dir cs : Bytes) → IsPlain cs → file_name name (dir ++ b'/' ∷ cs) ≡ cs
unfolding file_name
file_name-slash name [] cs h = file_name-IsPlain [] cs h
file_name-slash name (c ∷ dir) cs h = elim (Bool-cases (c == b'/')) [
  | inl slash ↦ rw (slash) (file_name-slash [] dir cs h)
  | inr other ↦ rw (other) (file_name-slash (name ++ c ∷ []) dir cs h)
]

-- The name of a table's file is the one that the store gave it.
pub file_name-table_path : (db : Bytes) (n : ℕ) → file_name [] (table_path db n) ≡ table_name n
unfolding text
file_name-table_path db n = file_name-slash [] db (table_name n) (table_name-IsPlain n)

-- The digits before a dot are what stands before the first dot.
before_dot-IsNumeral : (bs rest : Bytes) → IsNumeral bs → before_dot (bs ++ b'.' ∷ rest) ≡ bs
unfolding before_dot
before_dot-IsNumeral [] rest h = refl
before_dot-IsNumeral (c ∷ bs) rest ((lo, hi), h) =
    let other : (c == b'.') ≡ false = ground arith in
    rw (other) (ap (λ r. c ∷ r) (before_dot-IsNumeral bs rest h))

digits-nil : digits 0 false [] ≡ none
unfolding digits
digits-nil = refl

stoull-IsNumeral :
    (bs : Bytes) (n : ℕ)
    → IsNumeral bs
    → digits 0 false bs ≡ some n
    → n < 2 ^ 64
    → stoull bs ≡ some n
unfolding stoull in_range
stoull-IsNumeral [] n h e lt = let z : none ≡ some n = sym digits-nil ∙ e in cc
stoull-IsNumeral (c ∷ bs) n ((lo, hi), h) e lt =
    let space : is_space c ≡ false = ground arith in
    let plus : (c == b'+') ≡ false = ground arith in
    let minus : (c == b'-') ≡ false = ground arith in
    rw (space, plus, minus, e, lt→ltb n (2 ^ 64) lt) refl

-- The number that `open` takes from the name of a table is the one that it was made from, where it has
-- 64 bits.
pub table_seq-table_name : (n : ℕ) → n < 2 ^ 64 → table_seq (table_name n) ≡ some n
unfolding table_seq table_name text string_eq stoull
table_seq-table_name n lt =
    ap stoull (before_dot-IsNumeral (padded n) (text "sst") (padded-IsNumeral n))
    ∙ stoull-IsNumeral (padded n) n (padded-IsNumeral n)
        (ap (digits 0 false) (sym (append-nil (padded n)))
          ∙ (digits-padded false n [] ∙ unfold digits in refl))
        lt
