-- ===== src/Prelude/Strings.antt =====
-- `std::string` as a list of bytes: its `==`, and its `<`, which compares unsigned bytes.
use Prim.Native.Char.{code}
use Prim.Native.String.{String}
use mathlib.Core.Path.{◌≡◌, refl}
use mathlib.Core.Logic.{◌↔◌, inl, inr}
use mathlib.Core.Bool.{Bool, true, false, ◌&&◌}
use mathlib.Core.List.{List, [], ◌∷◌}
use native.Mathlib.Omega.{arith}
use lsm_tree_key_value_store.Prelude.Tests.{ltb, ◌==◌, if◌then◌else◌, Bool-cases}
use lsm_tree_key_value_store.Prelude.Lists.{Bytes}

-- A string literal of the source. It is shut, so that no proof reads the text of a message.
unfoldable pub text : String → Bytes
text String.[] = []
text (String.◌∷◌ c s) = code c ∷ text s

unfoldable pub string_eq : Bytes → Bytes → Bool
string_eq [] [] = true
string_eq [] (y ∷ ys) = false
string_eq (x ∷ xs) [] = false
string_eq (x ∷ xs) (y ∷ ys) = x == y && string_eq xs ys

unfoldable pub string_lt : Bytes → Bytes → Bool
string_lt [] [] = false
string_lt [] (y ∷ ys) = true
string_lt (x ∷ xs) [] = false
string_lt (x ∷ xs) (y ∷ ys) = if ltb x y then true else if ltb y x then false else string_lt xs ys

-- `a <= b` of the library is `!(b < a)`.
unfoldable pub string_le : Bytes → Bytes → Bool
string_le a b = if string_lt b a then false else true

unfoldable pub is_empty {ℓ} : {A : Type ℓ} → List A → Bool
is_empty [] = true
is_empty (x ∷ xs) = false

pub string_eq→eq : (a b : Bytes) → string_eq a b ≡ true → a ≡ b
unfolding string_eq
string_eq→eq [] [] h = refl
string_eq→eq [] (y ∷ ys) h = cc
string_eq→eq (x ∷ xs) [] h = cc
string_eq→eq (x ∷ xs) (y ∷ ys) h = ground (arith, string_eq→eq xs ys)

pub string_eq_refl : (a : Bytes) → string_eq a a ≡ true
unfolding string_eq
string_eq_refl [] = refl
string_eq_refl (x ∷ xs) = ground (arith, string_eq_refl xs)

pub string_eq_iff : (a b : Bytes) → (string_eq a b ≡ true) ↔ (a ≡ b)
string_eq_iff a b = (string_eq→eq a b, λ e. rw e (string_eq_refl b))

pub string_eq_comm : (a b : Bytes) → string_eq a b ≡ string_eq b a
unfolding string_eq
string_eq_comm [] [] = refl
string_eq_comm [] (y ∷ ys) = refl
string_eq_comm (x ∷ xs) [] = refl
string_eq_comm (x ∷ xs) (y ∷ ys) = ground (arith, string_eq_comm xs ys)

pub string_lt_irrefl : (a : Bytes) → string_lt a a ≡ false
unfolding string_lt
string_lt_irrefl [] = refl
string_lt_irrefl (x ∷ xs) = ground (arith, string_lt_irrefl xs)

pub string_lt_trans :
    (a b c : Bytes) → string_lt a b ≡ true → string_lt b c ≡ true → string_lt a c ≡ true
unfolding string_lt
string_lt_trans [] [] c p q = cc
string_lt_trans [] (y ∷ ys) [] p q = cc
string_lt_trans [] (y ∷ ys) (z ∷ zs) p q = refl
string_lt_trans (x ∷ xs) [] c p q = cc
string_lt_trans (x ∷ xs) (y ∷ ys) [] p q = cc
string_lt_trans (x ∷ xs) (y ∷ ys) (z ∷ zs) p q = ground (arith, string_lt_trans xs ys zs)

pub string_lt_asymm : (a b : Bytes) → string_lt a b ≡ true → string_lt b a ≡ false
unfolding string_lt
string_lt_asymm [] [] p = cc
string_lt_asymm [] (y ∷ ys) p = refl
string_lt_asymm (x ∷ xs) [] p = cc
string_lt_asymm (x ∷ xs) (y ∷ ys) p = ground (arith, string_lt_asymm xs ys)

-- Two strings neither of which is smaller are equal.
pub string_lt_total :
    (a b : Bytes) → string_lt a b ≡ false → string_lt b a ≡ false → string_eq a b ≡ true
unfolding string_lt string_eq
string_lt_total [] [] p q = refl
string_lt_total [] (y ∷ ys) p q = cc
string_lt_total (x ∷ xs) [] p q = cc
string_lt_total (x ∷ xs) (y ∷ ys) p q = ground (arith, string_lt_total xs ys)

-- A smaller string is another string.
pub string_lt→ne : (a b : Bytes) → string_lt a b ≡ true → string_eq a b ≡ false
string_lt→ne a b h = elim (Bool-cases (string_eq a b)) [
  | inl e ↦ let p : a ≡ b = string_eq→eq a b e in cc (h, p, string_lt_irrefl b)
  | inr n ↦ n
]

pub string_lt→ne' : (a b : Bytes) → string_lt a b ≡ true → string_eq b a ≡ false
string_lt→ne' a b h = rw (string_eq_comm b a) (string_lt→ne a b h)
