-- ===== src/Prelude/SortedMap.antt =====
-- `std::map<std::string, V>`: its entries in the order of their keys.
use mathlib.Core.Path.{◌≡◌, refl, ap}
use mathlib.Core.Bool.{true, false}
use mathlib.Core.Option.{Option, none, some}
use mathlib.Core.List.{List, [], ◌∷◌, ◌++◌}
use native.Mathlib.Omega.{arith}
use lsm_tree_key_value_store.Prelude.Tests.{if◌then◌else◌, Bool-cases}
use mathlib.Core.Logic.{inl, inr}
use lsm_tree_key_value_store.Prelude.Lists.{Bytes, All}
use lsm_tree_key_value_store.Prelude.Strings.{
  string_eq, string_lt, string_eq→eq, string_eq_iff, string_lt_trans, string_lt_total, string_lt→ne,
  string_eq_comm,
}

module _ {ℓ} {V : Type ℓ} where
  -- `find(key)`: `none` is `end()`.
  unfoldable pub find : Bytes → List (Bytes × V) → Option V
  find key [] = none
  find key ((k, v) ∷ m) = if string_eq k key then some v else find key m

  -- `m[key] = v`: an entry of that key is overwritten, else one is put where the order wants it.
  unfoldable pub insert : Bytes → V → List (Bytes × V) → List (Bytes × V)
  insert key v [] = (key, v) ∷ []
  insert key v ((k, w) ∷ m) =
      if string_lt key k
      then (key, v) ∷ (k, w) ∷ m
      else if string_eq k key
      then (key, v) ∷ m
      else (k, w) ∷ insert key v m

  -- Every key of `m` is above `key`.
  abbrev pub Above : Bytes → List (Bytes × V) → Type 0
  Above key = All (λ e. string_lt key e.0 ≡ true)

  -- The keys are strictly increasing.
  abbrev pub IsSorted : List (Bytes × V) → Type 0
  IsSorted [] = Unit
  IsSorted ((k, v) ∷ m) = Above k m × IsSorted m

  pub Above-trans :
      (j k : Bytes) (m : List (Bytes × V)) → string_lt j k ≡ true → Above k m → Above j m
  Above-trans j k [] h a = tt
  Above-trans j k ((i, w) ∷ m) h a = (string_lt_trans j k i h a.0, Above-trans j k m h a.1)

  pub find-Above : (key : Bytes) (m : List (Bytes × V)) → Above key m → find key m ≡ none
  unfolding find
  find-Above key [] a = refl
  find-Above key ((k, w) ∷ m) a =
      ground (arith, string_lt→ne key k, string_eq_comm key k, find-Above key m)

  pub find-insert :
      (key j : Bytes) (v : V) (m : List (Bytes × V))
      → find j (insert key v m) ≡ (if string_eq key j then some v else find j m)
  unfolding find insert
  find-insert key j v [] = refl
  find-insert key j v ((k, w) ∷ m) =
      ground
        (arith, string_eq_iff k key, string_eq_iff k j, string_eq_iff key j, find-insert key j v m)

  Above-insert :
      (j key : Bytes) (v : V) (m : List (Bytes × V))
      → string_lt j key ≡ true
      → Above j m
      → Above j (insert key v m)
  unfolding insert
  Above-insert j key v [] h a = (h, tt)
  Above-insert j key v ((k, w) ∷ m) h a = ground (arith, Above-insert j key v m)

  pub insert-IsSorted :
      (key : Bytes) (v : V) (m : List (Bytes × V)) → IsSorted m → IsSorted (insert key v m)
  unfolding insert
  insert-IsSorted key v [] s = (tt, tt)
  insert-IsSorted key v ((k, w) ∷ m) s = ground (
    arith,
    Above-trans key k m,
    string_eq→eq k key,
    string_lt_total key k,
    string_eq_comm key k,
    Above-insert k key v m,
    insert-IsSorted key v m,
    string_lt_total k key,
  )

  -- Every key of `m` is below `key`.
  abbrev pub Below : Bytes → List (Bytes × V) → Type 0
  Below key = All (λ e. string_lt e.0 key ≡ true)

  pub find-append_Above :
      (key : Bytes) (a b : List (Bytes × V)) → Above key b → find key (a ++ b) ≡ find key a
  unfolding find
  find-append_Above key [] b h = find-Above key b h
  find-append_Above key ((k, v) ∷ a) b h =
      ap (λ r. if string_eq k key then some v else r) (find-append_Above key a b h)

  pub find-append_Below :
      (key j : Bytes) (a b : List (Bytes × V))
      → Below j a
      → string_lt key j ≡ false
      → find key (a ++ b) ≡ find key b
  unfolding find
  find-append_Below key j [] b h ge = refl
  find-append_Below key j ((k, v) ∷ a) b h ge = elim (Bool-cases (string_eq k key)) [
    | inl e ↦ let p : k ≡ key = string_eq→eq k key e in cc (h.0, ge, p)
    | inr n ↦ rw (n) (find-append_Below key j a b h.1 ge)
  ]

  Above-append : (key : Bytes) (a b : List (Bytes × V)) → Above key (a ++ b) → Above key a
  Above-append key [] b h = tt
  Above-append key (x ∷ a) b h = (h.0, Above-append key a b h.1)

  Above-last :
      (key k : Bytes) (v : V) (a b : List (Bytes × V))
      → Above key (a ++ (k, v) ∷ b)
      → string_lt key k ≡ true
  Above-last key k v [] b h = h.0
  Above-last key k v (x ∷ a) b h = Above-last key k v a b h.1

  pub IsSorted-append_left : (a b : List (Bytes × V)) → IsSorted (a ++ b) → IsSorted a
  IsSorted-append_left [] b s = tt
  IsSorted-append_left ((k, v) ∷ a) b s = (Above-append k a b s.0, IsSorted-append_left a b s.1)

  pub IsSorted-append_right : (a b : List (Bytes × V)) → IsSorted (a ++ b) → IsSorted b
  IsSorted-append_right [] b s = s
  IsSorted-append_right (x ∷ a) b s = IsSorted-append_right a b s.1

  pub IsSorted-Below :
      (k : Bytes) (v : V) (a b : List (Bytes × V)) → IsSorted (a ++ (k, v) ∷ b) → Below k a
  IsSorted-Below k v [] b s = tt
  IsSorted-Below k v ((j, w) ∷ a) b s = (Above-last j k v a b s.0, IsSorted-Below k v a b s.1)

-- The first answer that there is.
abbrev pub or_else {ℓ} : {A : Type ℓ} → Option A → Option A → Option A
or_else none b = b
or_else (some a) b = some a

pub or_else-none {ℓ} : {A : Type ℓ} (a : Option A) → or_else a none ≡ a
or_else-none none = refl
or_else-none (some a) = refl

pub or_else_assoc {ℓ} :
    {A : Type ℓ} (a b c : Option A) → or_else (or_else a b) c ≡ or_else a (or_else b c)
or_else_assoc none b c = refl
or_else_assoc (some a) b c = refl
