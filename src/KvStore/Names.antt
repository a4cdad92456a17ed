-- ===== src/KvStore/Names.antt =====
-- The names of the tables: how one is made from a number, and read back from a manifest.
pub mod Numbers
pub mod Manifest
pub mod Paths
use lsm_tree_key_value_store.Prelude.{
  ℕ, zero, suc, ◌+◌, ◌-◌, ◌*◌, ◌%◌, ◌^◌, Bool, true, false, not, ◌&&◌, ◌||◌, Option, none, some,
  List, [], ◌∷◌, ◌++◌, Bytes, length, take, drop, replicate, ltb, leb, ◌==◌, if◌then◌else◌,
}
use lsm_tree_key_value_store.Prelude.Strings.{text, string_eq, is_empty}
use lsm_tree_key_value_store.Prelude.Decimal.{decimal}

-- `std::setw(6) << std::setfill('0') << n`
unfoldable pub padded : ℕ → Bytes
padded n = replicate (6 - length (decimal n)) b'0' ++ decimal n

-- `generateSSTableFilename()` less its increment.
unfoldable pub table_name : ℕ → Bytes
unfolding padded
table_name seq = text "sst_" ++ (padded seq ++ text ".sst")

-- `std::getline` until it fails: the pieces between line feeds, and the last one unless it is empty.
unfoldable pub lines : Bytes → Bytes → List Bytes
lines line [] = if is_empty line then [] else line ∷ []
lines line (c ∷ cs) = if c == 10 then line ∷ lines [] cs else lines (line ++ c ∷ []) cs

-- The lines that are not empty.
unfoldable pub names_of : List Bytes → List Bytes
names_of [] = []
names_of (line ∷ rest) = if not (is_empty line) then line ∷ names_of rest else names_of rest

-- `fs::path(p).filename()`: what follows the last slash.
unfoldable pub file_name : Bytes → Bytes → Bytes
file_name name [] = name
file_name name (c ∷ cs) = if c == b'/' then file_name [] cs else file_name (name ++ c ∷ []) cs

abbrev is_digit : ℕ → Bool
is_digit c = leb b'0' c && leb c b'9'

-- `std::isspace` in the C locale.
abbrev pub is_space : ℕ → Bool
is_space c = c == 32 || leb 9 c && leb c 13

-- The digits at the front, added to a number; with whether there was one.
unfoldable pub digits : ℕ → Bool → Bytes → Option ℕ
digits n seen [] = if seen then some n else none
digits n seen (c ∷ cs) =
    let more = digits (n * 10 + (c - b'0')) true cs in
    if is_digit c then more else if seen then some n else none

-- `none` is `std::out_of_range`.
in_range : Option ℕ → Option ℕ
in_range none = none
in_range (some n) = if ltb n (2 ^ 64) then some n else none

-- A minus sign negates in the unsigned type.
negated : Option ℕ → Option ℕ
negated none = none
negated (some n) = some ((2 ^ 64 - n) % 2 ^ 64)

-- `std::stoull(s)`; `none` where it throws.
unfoldable pub stoull : Bytes → Option ℕ
unfolding in_range negated
stoull [] = none
stoull (c ∷ cs) =
    let skipped = stoull cs in
    if is_space c
    then skipped
    else if c == b'+'
    then in_range (digits 0 false cs)
    else if c == b'-'
    then negated (in_range (digits 0 false cs))
    else in_range (digits 0 false (c ∷ cs))

-- What stands before the first dot; all of it where there is none.
unfoldable pub before_dot : Bytes → Bytes
before_dot [] = []
before_dot (c ∷ cs) = if c == b'.' then [] else c ∷ before_dot cs

-- The number of a table, where its name begins with `sst_` and has one.
unfoldable pub table_seq : Bytes → Option ℕ
table_seq name =
    if string_eq (take 4 name) (text "sst_") then stoull (before_dot (drop 4 name)) else none
