-- ===== src/Disk/Laws.antt =====
-- What a file holds after the operations.
use lsm_tree_key_value_store.Prelude.{
  Bool, true, false, Option, none, some, ◌≡◌, refl, ◌∙◌, append_assoc, ◌++◌, Bytes, length, arith,
  if◌then◌else◌, take_all, ap, le→leb,
}
use lsm_tree_key_value_store.Prelude.Strings.{string_eq, string_eq_refl}
use lsm_tree_key_value_store.Disk.{
  Disk, Stream, reliable, set_file, contents, or_empty, write, rename_file,
}

pub file-set_file :
    (p q : Bytes) (c : Option Bytes) (d : Disk)
    → (set_file p c d).file q ≡ (if string_eq p q then c else d.file q)
unfolding set_file
file-set_file p q c d = refl

pub file-set_file_self : (p : Bytes) (c : Option Bytes) (d : Disk) → (set_file p c d).file p ≡ c
unfolding set_file
file-set_file_self p c d = ap (λ b. if b then c else d.file p) (string_eq_refl p)

pub file-set_file_ne :
    (p q : Bytes) (c : Option Bytes) (d : Disk)
    → string_eq p q ≡ false
    → (set_file p c d).file q ≡ d.file q
unfolding set_file
file-set_file_ne p q c d h = ap (λ b. if b then c else d.file q) h

pub file-set_file-none :
    (p q : Bytes) (d : Disk) → d.file q ≡ none → (set_file p none d).file q ≡ none
unfolding set_file
file-set_file-none p q d h = ground (arith)

pub contents-set_file_self :
    (p : Bytes) (bs : Bytes) (d : Disk) → contents (set_file p (some bs) d) p ≡ bs
unfolding set_file contents
contents-set_file_self p bs d =
    ap (λ b. or_empty (if b then some bs else d.file p)) (string_eq_refl p)

pub contents-set_file_ne :
    (p q : Bytes) (c : Option Bytes) (d : Disk)
    → string_eq p q ≡ false
    → contents (set_file p c d) q ≡ contents d q
unfolding set_file contents
contents-set_file_ne p q c d h = ap (λ b. or_empty (if b then c else d.file q)) h

-- On a reliable system all bytes reach the end of the file.
pub write-reliable :
    (bs p : Bytes) (d : Disk)
    → write reliable bs (record { path = p; good = true }, d)
      ≡ (record { path = p; good = true }, set_file p (some (contents d p ++ bs)) d)
unfolding write
write-reliable bs p d =
    rw (take_all (length bs) bs (omega arith), le→leb (length bs) (length bs) (omega arith))

overwritten {ℓ} :
    {A : Type ℓ} (b : Bool) (x y z : A)
    → (if b then x else if b then y else z) ≡ (if b then x else z)
overwritten true x y z = refl
overwritten false x y z = refl

-- The last contents count.
pub set_file-set_file :
    (p : Bytes) (a b : Option Bytes) (d : Disk) → set_file p a (set_file p b d) ≡ set_file p a d
unfolding set_file
set_file-set_file p a b d =
    λ i. record d { file = λ q. overwritten (string_eq p q) a b (d.file q) i }

-- Two writes on a reliable system leave one after the other.
pub write-write :
    (xs ys p : Bytes) (d : Disk)
    → write reliable ys (write reliable xs (record { path = p; good = true }, d))
      ≡ (record { path = p; good = true }, set_file p (some (contents d p ++ xs ++ ys)) d)
write-write xs ys p d =
    rw
      (
        write-reliable xs p d,
        write-reliable ys p (set_file p (some (contents d p ++ xs)) d),
        contents-set_file_self p (contents d p ++ xs) d,
      )
      (ap (λ e. (record { path = p; good = true }, e)) (set_file-set_file p _ _ d))

pub rename_file-reliable :
    (from to c : Bytes) (d : Disk)
    → d.file from ≡ some c
    → rename_file reliable from to d ≡ some (set_file to (some c) (set_file from none d))
unfolding rename_file
rename_file-reliable from to c d e = rw (e, rename_file) refl

-- A stream that is open on a file.
abbrev pub stream : Bytes → Stream
stream p = record { path = p; good = true }

-- A write to a file with known contents.
pub write-behind :
    (bs p c : Bytes) (d : Disk)
    → write reliable bs (stream p, set_file p (some c) d)
      ≡ (stream p, set_file p (some (c ++ bs)) d)
write-behind bs p c d =
    write-reliable bs p (set_file p (some c) d)
    ∙ rw (contents-set_file_self p c d, set_file-set_file p (some (c ++ bs)) (some c) d) refl

-- Two writes to a file with known contents.
pub write-write_behind :
    (xs ys p c : Bytes) (d : Disk)
    → write reliable ys (write reliable xs (stream p, set_file p (some c) d))
      ≡ (stream p, set_file p (some (c ++ (xs ++ ys))) d)
write-write_behind xs ys p c d =
    write-write xs ys p (set_file p (some c) d)
    ∙ rw
        (
          contents-set_file_self p c d,
          append_assoc c xs ys,
          set_file-set_file p (some (c ++ (xs ++ ys))) (some c) d,
        )
        refl
