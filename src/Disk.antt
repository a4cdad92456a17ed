-- ===== src/Disk.antt =====
-- The file system as src/*.cpp use it through <fstream> and <filesystem>: named files of bytes, and
-- directories. What the operating system permits is a parameter, a value of `Os`.
pub mod Laws
use lsm_tree_key_value_store.Prelude.{
  ℕ, Bool, true, false, Option, none, some, [], ◌++◌, Bytes, length, take, leb, ◌||◌, if◌then◌else◌,
}
use lsm_tree_key_value_store.Prelude.Strings.{string_eq}

pub record Disk : Type 0 where
  pub file : Bytes → Option Bytes
  pub dir : Bytes → Bool

-- What the operating system permits in a given state: to open a file for writing or for reading, to
-- make a directory, to rename or to remove a file; how many of the bytes of a write reach the file; and
-- the message of the error code that a refusal sets.
pub record Os : Type 0 where
  pub opens : Disk → Bytes → Bool
  pub reads : Disk → Bytes → Bool
  pub takes : Disk → Bytes → Bytes → ℕ
  pub creates : Disk → Bytes → Bool
  pub renames : Disk → Bytes → Bytes → Bool
  pub removes : Disk → Bytes → Bool
  pub reason : Disk → Bytes

-- Nothing is refused.
abbrev pub reliable : Os
reliable = record {
  opens = λ d p. true;
  reads = λ d p. true;
  takes = λ d p bs. length bs;
  creates = λ d p. true;
  renames = λ d p q. true;
  removes = λ d p. true;
  reason = λ d. [];
}

-- The file `p` now has the contents `c`, or is gone.
unfoldable pub set_file : Bytes → Option Bytes → Disk → Disk
set_file p c d = record d { file = λ q. if string_eq p q then c else d.file q }

-- The bytes of the file, none where there is no file.
abbrev pub or_empty : Option Bytes → Bytes
or_empty none = []
or_empty (some bs) = bs

unfoldable pub contents : Disk → Bytes → Bytes
contents d p = or_empty (d.file p)

abbrev pub is_some {ℓ} : {A : Type ℓ} → Option A → Bool
is_some none = false
is_some (some a) = true

-- `fs::exists(p)`
unfoldable pub exists : Disk → Bytes → Bool
exists d p = is_some (d.file p) || d.dir p

-- An `std::ofstream` that is open on a file, with its `good()`.
pub record Stream : Type 0 where
  pub path : Bytes
  pub good : Bool

-- `open(p, out | trunc)`, and `open(p, out | app)`: `none` where the system refuses.
unfoldable pub open_trunc : Os → Disk → Bytes → Option (Stream × Disk)
unfolding set_file
open_trunc os d p =
    if os.opens d p then some (record { path = p; good = true }, set_file p (some []) d) else none

unfoldable pub open_append : Os → Disk → Bytes → Option (Stream × Disk)
unfolding set_file contents
open_append os d p =
    if os.opens d p
    then some (record { path = p; good = true }, set_file p (some (contents d p)) d)
    else none

-- `write(bs)` on a good stream; a stream that has failed drops what is written to it.
unfoldable pub write : Os → Bytes → Stream × Disk → Stream × Disk
unfolding set_file contents
write os bs (s, d) =
    let n = os.takes d s.path bs in
    if s.good
    then (
      record s { good = leb (length bs) n },
      set_file s.path (some (contents d s.path ++ take n bs)) d,
    )
    else (s, d)

-- `std::ifstream in(p)`: the bytes to read, `none` where `is_open()` is false.
unfoldable pub open_read : Os → Disk → Bytes → Option Bytes
open_read os d p = if os.reads d p then d.file p else none

-- `fs::remove(p, ec)`, where nothing reads the error code
unfoldable pub remove_file : Os → Bytes → Disk → Disk
unfolding set_file
remove_file os p d = if os.removes d p then set_file p none d else d

-- `fs::rename(from, to)`: `none` where it sets the error code.
unfoldable pub rename_file : Os → Bytes → Bytes → Disk → Option Disk
unfolding set_file
rename_file os from to d = elim (d.file from) [
  | none ↦ none
  | some bs ↦
      if os.renames d from to then some (set_file to (some bs) (set_file from none d)) else none
]

-- `fs::create_directories(p)` on a path that does not exist.
unfoldable pub create_directories : Os → Bytes → Disk → Option Disk
create_directories os p d =
    if os.creates d p then some (record d { dir = λ q. string_eq p q || d.dir q }) else none
