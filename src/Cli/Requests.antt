-- ===== src/Cli/Requests.antt =====
-- What a line of the command line asks of the database, and that no line asks for more than its length.
pub mod Lines
use lsm_tree_key_value_store.Prelude.{
  ℕ, ◌+◌, ◌≤◌, ◌≡◌, refl, arith, Bool, true, false, ◌||◌, List, [], ◌∷◌, ◌++◌, Bytes, length, All,
  Bool-cases, inl, inr, if◌then◌else◌,
}
use lsm_tree_key_value_store.Prelude.Strings.{text, string_eq, is_empty}
use lsm_tree_key_value_store.Wal.Replay.{max_key}
use lsm_tree_key_value_store.KvStore.Names.{is_space}
use lsm_tree_key_value_store.KvStore.History.{Op, writes, deletes, cost, costs, IsValid}
use lsm_tree_key_value_store.Cli.Words.{
  is_blank, trim_front, trim_back, trim, to_upper, skip_space, word, next_token, first_line,
}

-- A `PUT` with a key and a value.
unfoldable pub put_request : Bytes → List Op
put_request rest =
    let (key, rest') = next_token rest in
    let val = trim (first_line rest') in
    if is_empty key then [] else if is_empty val then [] else writes key val ∷ []

-- A `DELETE` with a key.
unfoldable pub delete_request : Bytes → List Op
delete_request rest = let key = (next_token rest).0 in if is_empty key then [] else deletes key ∷ []

-- The changes to the map that a line asks for: one at most.
unfoldable pub requests_of : Bytes × Bytes → List Op
requests_of (cmd, rest) =
    if string_eq (to_upper cmd) (text "PUT")
    then put_request rest
    else if string_eq (to_upper cmd) (text "DELETE")
    then delete_request rest
    else []

-- Whether a line ends the session.
unfoldable pub is_exit : Bytes → Bool
is_exit cmd = string_eq (to_upper cmd) (text "EXIT") || string_eq (to_upper cmd) (text "QUIT")

-- The changes that the lines of a session ask for, up to the line that ends it.
unfoldable pub requests_of_all : List Bytes → List Op
requests_of_all [] = []
requests_of_all (raw ∷ raws) =
    let rest = requests_of_all raws in
    let token = next_token (trim raw) in if is_exit token.0 then [] else requests_of token ++ rest

length-trim_front : (bs : Bytes) → length (trim_front bs) ≤ length bs
unfolding trim_front
length-trim_front [] = omega arith
length-trim_front (c ∷ cs) = ground (arith, length-trim_front cs)

length-trim_back : (bs : Bytes) → length (trim_back bs) ≤ length bs
unfolding trim_back
length-trim_back [] = omega arith
length-trim_back (c ∷ cs) = ground (arith, length-trim_back cs)

pub length-trim : (bs : Bytes) → length (trim bs) ≤ length bs
unfolding trim
length-trim bs = omega (arith, length-trim_back (trim_front bs), length-trim_front bs)

length-skip_space : (bs : Bytes) → length (skip_space bs) ≤ length bs
unfolding skip_space
length-skip_space [] = omega arith
length-skip_space (c ∷ cs) = ground (arith, length-skip_space cs)

length-word : (bs : Bytes) → length (word bs).0 + length (word bs).1 ≡ length bs
unfolding word
length-word [] = omega arith
length-word (c ∷ cs) = ground (arith, length-word cs)

pub length-next_token :
    (bs : Bytes) → length (next_token bs).0 + length (next_token bs).1 ≤ length bs
unfolding next_token
length-next_token bs = omega (arith, length-word (skip_space bs), length-skip_space bs)

pub length-first_line : (bs : Bytes) → length (first_line bs) ≤ length bs
unfolding first_line
length-first_line [] = omega arith
length-first_line (c ∷ cs) = ground (arith, length-first_line cs)

-- What a `PUT` writes, and what a `DELETE` deletes.
pub writes-IsValid :
    (rest : Bytes)
    → length rest ≤ max_key
    → is_empty (next_token rest).0 ≡ false
    → IsValid (writes (next_token rest).0 (trim (first_line (next_token rest).1)))
writes-IsValid rest fit full =
    let size = length-next_token rest in
    (
      full,
      record {
        type_logged = refl;
        key_small = omega arith;
        value_small = omega (
          arith,
          length-trim (first_line (next_token rest).1),
          length-first_line (next_token rest).1,
        );
        value_kept = refl;
      },
    )

pub deletes-IsValid :
    (rest : Bytes)
    → length rest ≤ max_key
    → is_empty (next_token rest).0 ≡ false
    → IsValid (deletes (next_token rest).0)
deletes-IsValid rest fit full =
    let size = length-next_token rest in
    (
      full,
      record {
        type_logged = refl;
        key_small = omega arith;
        value_small = omega arith;
        value_kept = refl;
      },
    )

costs-put_request : (rest : Bytes) → costs (put_request rest) ≤ 13 + length rest
unfolding put_request costs cost
costs-put_request rest = ground (
  arith,
  length-next_token rest,
  length-trim (first_line (next_token rest).1),
  length-first_line (next_token rest).1,
)

costs-delete_request : (rest : Bytes) → costs (delete_request rest) ≤ 13 + length rest
unfolding delete_request costs cost
costs-delete_request rest = ground (arith, length-next_token rest)

-- A line asks for a record of at most its length.
pub costs-requests_of : (cmd rest : Bytes) → costs (requests_of (cmd, rest)) ≤ 13 + length rest
unfolding requests_of costs
costs-requests_of cmd rest = ground (arith, costs-put_request rest, costs-delete_request rest)
