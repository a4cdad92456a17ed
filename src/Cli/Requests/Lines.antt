-- ===== src/Cli/Requests/Lines.antt =====
-- The lines that ask for given changes of the map.
use lsm_tree_key_value_store.Prelude.{
  ◌≡◌, refl, ap, ◌∙◌, sym, arith, Bool, false, List, [], ◌∷◌, ◌++◌, Bytes, All, map, append-nil,
}
use lsm_tree_key_value_store.Prelude.Strings.{text, string_eq, is_empty}
use lsm_tree_key_value_store.KvStore.Names.{is_space}
use lsm_tree_key_value_store.KvStore.History.{Op, writes, deletes, flushes, compacts, restarts}
use lsm_tree_key_value_store.Cli.Words.{
  trim_front, trim_back, trim, to_upper, skip_space, word, next_token, first_line,
}
use lsm_tree_key_value_store.Cli.Requests.{
  put_request, delete_request, requests_of, is_exit, requests_of_all,
}

-- A key that a line can hold: not empty, and without spaces.
pub record IsWord (key : Bytes) : Type 0 where
  pub full : is_empty key ≡ false
  pub solid : All (λ c. is_space c ≡ false) key

-- A value that a line can hold: not empty, on one line, and without blanks around it.
pub record IsPhrase (value : Bytes) : Type 0 where
  pub full : is_empty value ≡ false
  pub front : trim_front value ≡ value
  pub back : trim_back value ≡ value
  pub single : first_line value ≡ value

abbrev pub IsTypable : Op → Type 0
IsTypable (writes key value) = IsWord key × IsPhrase value
IsTypable (deletes key) = IsWord key
IsTypable _ = ⊥

-- What a user types for a change. The other operations are no changes.
unfoldable pub line_of : Op → Bytes
line_of (writes key value) = text "PUT " ++ (key ++ 32 ∷ value)
line_of (deletes key) = text "DELETE " ++ key
line_of _ = []

solid-back : (key : Bytes) → All (λ c. is_space c ≡ false) key → trim_back key ≡ key
unfolding trim_back
solid-back [] h = refl
solid-back (c ∷ cs) h = ground (arith, solid-back cs h.1, h.0)

trim_back-append :
    (xs ys : Bytes)
    → is_empty ys ≡ false
    → trim_back ys ≡ ys
    → (is_empty (xs ++ ys) ≡ false) × (trim_back (xs ++ ys) ≡ xs ++ ys)
unfolding is_empty trim_back
trim_back-append [] ys ne h = (ne, h)
trim_back-append (x ∷ xs) ys ne h =
    let (more, same) = trim_back-append xs ys ne h in (refl, rw (same, more) refl)

word-solid :
    (key rest : Bytes)
    → All (λ c. is_space c ≡ false) key
    → word (key ++ 32 ∷ rest) ≡ (key, 32 ∷ rest)
unfolding word
word-solid [] rest h = refl
word-solid (c ∷ cs) rest (h, hs) = rw (word-solid cs rest hs, h) refl

word-end : (key : Bytes) → All (λ c. is_space c ≡ false) key → word key ≡ (key, [])
unfolding word
word-end [] h = refl
word-end (c ∷ cs) (h, hs) = rw (word-end cs hs, h) refl

skip_space-solid : (key rest : Bytes) → IsWord key → skip_space (32 ∷ key ++ rest) ≡ key ++ rest
skip_space-solid [] rest h = unfold is_empty in cc (h.full)
skip_space-solid (c ∷ cs) rest h = unfold skip_space in rw (h.solid.0) refl

put_request-line :
    (key value : Bytes)
    → IsWord key
    → IsPhrase value
    → put_request (32 ∷ key ++ 32 ∷ value) ≡ writes key value ∷ []
unfolding put_request next_token
put_request-line key value k v =
    let token : word (skip_space (32 ∷ key ++ 32 ∷ value)) ≡ (key, 32 ∷ value) =
      ap word (skip_space-solid key (32 ∷ value) k) ∙ word-solid key value k.solid in
    let clean : trim (first_line (32 ∷ value)) ≡ value =
      unfold first_line trim trim_front in rw (v.single, v.front) v.back in
    rw (token, k.full, clean, v.full) refl

delete_request-line : (key : Bytes) → IsWord key → delete_request (32 ∷ key) ≡ deletes key ∷ []
unfolding delete_request next_token
delete_request-line key k =
    let token : word (skip_space (32 ∷ key)) ≡ (key, []) =
      ap (λ bs. word (skip_space (32 ∷ bs))) (sym (append-nil key))
      ∙ ap word (skip_space-solid key [] k)
      ∙ (ap word (append-nil key) ∙ word-end key k.solid) in
    rw (token, k.full) refl

trim-put :
    (key value : Bytes)
    → IsPhrase value
    → trim (line_of (writes key value)) ≡ 80 ∷ 85 ∷ 84 ∷ 32 ∷ key ++ 32 ∷ value
unfolding line_of text trim trim_front
trim-put key value v =
    let (full, back) = trim_back-append (32 ∷ []) value v.full v.back in
    let (full', back') = trim_back-append key (32 ∷ value) full back in
    (trim_back-append (80 ∷ 85 ∷ 84 ∷ 32 ∷ []) (key ++ 32 ∷ value) full' back').1

trim-delete :
    (key : Bytes)
    → IsWord key
    → trim (line_of (deletes key)) ≡ 68 ∷ 69 ∷ 76 ∷ 69 ∷ 84 ∷ 69 ∷ 32 ∷ key
unfolding line_of text trim trim_front
trim-delete key k =
    (trim_back-append (68 ∷ 69 ∷ 76 ∷ 69 ∷ 84 ∷ 69 ∷ 32 ∷ []) key k.full (solid-back key k.solid)).1

-- What a line asks for that leaves this when it is trimmed.
asks : Bytes → Bool × List Op
asks line = (is_exit (next_token line).0, requests_of (next_token line))

asks-line_of : (op : Op) → IsTypable op → asks (trim (line_of op)) ≡ (false, op ∷ [])
unfolding next_token skip_space word requests_of is_exit text string_eq to_upper asks
asks-line_of (writes key value) (k, v) =
    ap asks (trim-put key value v) ∙ ap (λ ops. (false, ops)) (put_request-line key value k v)
asks-line_of (deletes key) k =
    ap asks (trim-delete key k) ∙ ap (λ ops. (false, ops)) (delete_request-line key k)
asks-line_of flushes k = absurd k
asks-line_of compacts k = absurd k
asks-line_of restarts k = absurd k

-- A session of the lines that one types for some writes and deletions, with keys that are not empty and
-- hold no space, and values that are not empty, on one line and without blanks around them, asks for
-- these writes and deletions, in their order.
pub requests_of_all-line_of :
    (ops : List Op) → All IsTypable ops → requests_of_all (map line_of ops) ≡ ops
unfolding requests_of_all asks
requests_of_all-line_of [] h = refl
requests_of_all-line_of (op ∷ ops) (h, hs) =
    let one = asks-line_of op h in
    rw (ap (λ a. a.0) one, ap (λ a. a.1) one, requests_of_all-line_of ops hs) refl
