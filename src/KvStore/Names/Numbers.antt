-- ===== src/KvStore/Names/Numbers.antt =====
-- The number in the name of a table is read back as it was written.
use lsm_tree_key_value_store.Prelude.{
  ℕ, zero, suc, ◌+◌, ◌-◌, ◌*◌, ◌/◌, ◌%◌, ◌<◌, ◌≡◌, refl, ap, ◌∙◌, sym, arith, Bool, true, false,
  Option, some, [], ◌∷◌, ◌++◌, Bytes, length, drop, replicate, ltb, ltb→lt, append_assoc,
  Bool-cases, inl, inr,
}
use lsm_tree_key_value_store.Prelude.Strings.{text}
use lsm_tree_key_value_store.Prelude.Decimal.{decimal, decimal_loop}
use lsm_tree_key_value_store.KvStore.Names.{padded, table_name, digits}

digits-digit :
    (n k : ℕ) (b : Bool) (rest : Bytes)
    → k < 10
    → digits n b ((b'0' + k) ∷ rest) ≡ digits (n * 10 + k) true rest
unfolding digits
digits-digit n k b rest h = let d : b'0' + k - b'0' ≡ k = omega arith in rw (d) (ground arith)

-- The digits of a number, in front of anything.
digits-decimal_loop :
    (fuel n : ℕ) (b : Bool) (rest : Bytes)
    → n < fuel
    → digits 0 b (decimal_loop fuel n ++ rest) ≡ digits n true rest
unfolding decimal_loop
digits-decimal_loop zero n b rest h = absurd (omega arith)
digits-decimal_loop (suc fuel) n b rest h = elim (Bool-cases (ltb n 10)) [
  | inl one ↦
      rw (one, decimal_loop)
        (digits-digit 0 n b rest (ltb→lt n 10 one) ∙ ap (λ k. digits k true rest) (omega arith))
  | inr more ↦
      rw (more, decimal_loop)
        (ap (digits 0 b) (append_assoc (decimal_loop fuel (n / 10)) ((b'0' + n % 10) ∷ []) rest)
          ∙ (digits-decimal_loop fuel (n / 10) b ((b'0' + n % 10) ∷ rest) (ground arith)
              ∙ (digits-digit (n / 10) (n % 10) true rest (omega arith)
                  ∙ ap (λ k. digits k true rest) (omega arith))))
]

digits-zeros :
    (k : ℕ) (b : Bool) (bs : Bytes) (r : Option ℕ)
    → ((c : Bool) → digits 0 c bs ≡ r)
    → digits 0 b (replicate k b'0' ++ bs) ≡ r
digits-zeros zero b bs r h = h b
digits-zeros (suc k) b bs r h =
    digits-digit 0 0 b (replicate k b'0' ++ bs) (omega arith) ∙ digits-zeros k true bs r h

-- What is written with six places, in front of anything.
pub digits-padded :
    (b : Bool) (n : ℕ) (rest : Bytes) → digits 0 b (padded n ++ rest) ≡ digits n true rest
unfolding padded decimal
digits-padded b n rest =
    let zeros = 6 - length (decimal n) in
    ap (digits 0 b) (append_assoc (replicate zeros b'0') (decimal n) rest)
    ∙ digits-zeros zeros b (decimal n ++ rest) (digits n true rest)
        (λ c. digits-decimal_loop (suc n) n c rest (omega arith))

-- The number that a name carries.
number_of : Bytes → Option ℕ
number_of name = digits 0 false (drop 4 name)

number_of-table_name : (n : ℕ) → number_of (table_name n) ≡ some n
unfolding number_of table_name text
number_of-table_name n = digits-padded false n (text ".sst") ∙ unfold digits in refl

-- Different numbers make different names.
pub table_name_injective : (n m : ℕ) → table_name n ≡ table_name m → n ≡ m
table_name_injective n m e =
    let p : some n ≡ some m =
      sym (number_of-table_name n) ∙ (ap number_of e ∙ number_of-table_name m) in
    cc
