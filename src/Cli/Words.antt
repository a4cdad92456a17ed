-- ===== src/Cli/Words.antt =====
-- How src/cli.cpp takes a line apart: `trim`, `toUpper`, and `>>` on an `std::istringstream`.
use lsm_tree_key_value_store.Prelude.{
  ℕ, ◌-◌, Bool, ◌&&◌, ◌||◌, [], ◌∷◌, Bytes, map, leb, ◌==◌, if◌then◌else◌,
}
use lsm_tree_key_value_store.Prelude.Strings.{is_empty}
use lsm_tree_key_value_store.KvStore.Names.{is_space}

-- The characters that `trim` looks for.
abbrev pub is_blank : ℕ → Bool
is_blank c = c == 32 || (c == 9 || (c == 13 || c == 10))

-- From the first character that is not blank on.
unfoldable pub trim_front : Bytes → Bytes
trim_front [] = []
trim_front (c ∷ cs) = if is_blank c then trim_front cs else c ∷ cs

-- Up to the last character that is not blank.
unfoldable pub trim_back : Bytes → Bytes
trim_back [] = []
trim_back (c ∷ cs) = let rest = trim_back cs in if is_empty rest && is_blank c then [] else c ∷ rest

unfoldable pub trim : Bytes → Bytes
unfolding trim_front trim_back
trim str = trim_back (trim_front str)

-- `std::toupper` in the C locale.
abbrev pub upper_char : ℕ → ℕ
upper_char c = if leb b'a' c && leb c b'z' then c - 32 else c

unfoldable pub to_upper : Bytes → Bytes
to_upper str = map upper_char str

unfoldable pub skip_space : Bytes → Bytes
skip_space [] = []
skip_space (c ∷ cs) = if is_space c then skip_space cs else c ∷ cs

-- What stands before the first space, and what stands from there on.
unfoldable pub word : Bytes → Bytes × Bytes
word [] = ([], [])
word (c ∷ cs) =
    let (front, rest) = word cs in if is_space c then ([], c ∷ cs) else (c ∷ front, rest)

-- `iss >> token`: the token and what is left of the stream. An empty token is a failure.
unfoldable pub next_token : Bytes → Bytes × Bytes
next_token bs = word (skip_space bs)

-- `std::getline(iss, remaining)`
unfoldable pub first_line : Bytes → Bytes
first_line [] = []
first_line (c ∷ cs) = if c == 10 then [] else c ∷ first_line cs
