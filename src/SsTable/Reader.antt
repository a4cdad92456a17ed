-- ===== src/SsTable/Reader.antt =====
-- `SSTableReader`: opens a table, looks a key up, and reads all records.
use lsm_tree_key_value_store.Prelude.{
  ℕ, zero, suc, ◌+◌, ◌-◌, ◌%◌, ◌^◌, Bool, true, false, ◌&&◌, not, Option, none, some, [], ◌++◌,
  Bytes, length, take, drop, get_or, ltb, ◌==◌, if◌then◌else◌,
}
use lsm_tree_key_value_store.Prelude.Strings.{text, string_eq, string_lt, is_empty}
use lsm_tree_key_value_store.Prelude.Decimal.{decimal}
use lsm_tree_key_value_store.Types.{KeyValueEntry, of_byte, is_tombstone_type}
use lsm_tree_key_value_store.Types.Crc32.{crc32}
use lsm_tree_key_value_store.Codec.{decode32, decode64}
use lsm_tree_key_value_store.Throws.{returned, thrown}
use lsm_tree_key_value_store.Status
use lsm_tree_key_value_store.Status.{Status}
use lsm_tree_key_value_store.Result
use lsm_tree_key_value_store.Result.{Result}
use lsm_tree_key_value_store.Disk.{Disk, Os, open_read}
use lsm_tree_key_value_store.Bloom
use lsm_tree_key_value_store.Bloom.{BloomFilter}
use lsm_tree_key_value_store.SsTable.{header_magic, table_version, header_size, footer_size}
use lsm_tree_key_value_store.SsTable.Index
use lsm_tree_key_value_store.SsTable.Index.{Index}
use lsm_tree_key_value_store.SsTable.Footer
use lsm_tree_key_value_store.SsTable.Footer.{Footer}

pub record SsTableReader : Type 0 where
  pub filepath : Bytes
  pub is_open : Bool
  pub enable_bloom_filter : Bool
  pub footer : Footer
  pub index : Index
  pub bloom_filter : BloomFilter

-- `SSTableReader()`
abbrev pub init : SsTableReader
init = record {
  filepath = [];
  is_open = false;
  enable_bloom_filter = true;
  footer = Footer.blank;
  index = [];
  bloom_filter = Bloom.init 0 10 7;
}

-- `close()`
unfoldable pub close : SsTableReader → SsTableReader
close r = record r { is_open = false }

-- `seekg(offset)` and `read` of `n` bytes; fewer come back at the end of the file.
abbrev pub slice : ℕ → ℕ → Bytes → Bytes
slice offset n bs = take n (drop offset bs)

-- The Bloom block: filter and checksum.
unfoldable pub load_bloom : SsTableReader → Bytes → Status × SsTableReader
load_bloom r block =
    let raw = take (length block - 4) block in
    if ltb (length block) r.footer.bloom_size
    then (Status.corruption (text "Truncated Bloom filter block"), r)
    else if ltb (length block) 4
    then (Status.corruption (text "Corrupt Bloom filter block"), r)
    else if decode32 (drop (length block - 4) block) == crc32 raw
    then elim (Bloom.deserialize raw) [
      | returned f ↦ (Status.ok, record r { bloom_filter = f; is_open = true })
      | thrown msg ↦ (Status.corruption (text "Bloom filter deserialization error: " ++ msg), r)
    ]
    else (Status.corruption (text "Bloom filter CRC mismatch"), r)

unfoldable pub load_index : SsTableReader → Bytes → Bytes → Status × SsTableReader
load_index r bs block =
    if ltb (length block) r.footer.index_size
    then (Status.corruption (text "Truncated index block"), r)
    else elim (Index.deserialize block) [
      | returned index ↦
          load_bloom (record r { index = index })
            (slice r.footer.bloom_offset r.footer.bloom_size bs)
      | thrown msg ↦ (Status.corruption (text "Index deserialization error: " ++ msg), r)
    ]

-- The sums of the footer's offsets and sizes, in uint64_t, against one another and the file.
unfoldable pub offsets_valid : Footer → ℕ → Bool
offsets_valid f file_size =
    f.data_offset == header_size
    && (f.data_offset + f.data_size) % 2 ^ 64 == f.index_offset
    && (f.index_offset + f.index_size) % 2 ^ 64 == f.bloom_offset
    && (f.bloom_offset + f.bloom_size) % 2 ^ 64 == file_size - footer_size

unfoldable pub load_blocks : SsTableReader → Bytes → Status × SsTableReader
load_blocks r bs =
    if offsets_valid r.footer (length bs)
    then load_index r bs (slice r.footer.index_offset r.footer.index_size bs)
    else (Status.corruption (text "Corrupt SSTable offsets or sizes"), r)

-- The loading of the footer, at its place at the end of the file.
unfoldable pub load_footer : SsTableReader → Bytes → Status × SsTableReader
load_footer r bs =
    let (s, f) = Footer.deserialize (slice (length bs - footer_size) footer_size bs) r.footer in
    if Status.is_ok s then load_blocks (record r { footer = f }) bs else (s, r)

-- The contents of a file that could be opened. After the first test the reads of header and footer
-- are complete.
unfoldable pub load : SsTableReader → Bytes → Status × SsTableReader
load r bs =
    if ltb (length bs) (header_size + footer_size)
    then (Status.corruption (text "SSTable file too small: " ++ r.filepath), r)
    else if decode64 bs == header_magic
    then (if decode32 (drop 8 bs) == table_version then load_footer r bs else (
      Status.corruption (text "Unsupported SSTable version: " ++ decimal (decode32 (drop 8 bs))),
      r,
    ))
    else (Status.corruption (text "Invalid SSTable header magic number"), r)

unfoldable pub open_table : Os → Bytes → Bool → SsTableReader → Disk → Status × SsTableReader
open_table os path enable r d =
    let r' = record (close r) { filepath = path; enable_bloom_filter = enable } in
    elim (open_read os d path) [
      | none ↦ (Status.io_error (text "Failed to open SSTable: " ++ path), r')
      | some bs ↦ load r' bs
    ]

-- One record at the front of the bytes: refused, or with the bytes after it.
pub data Scanned : Type 0 where
  refused : Bytes → Scanned
  scanned : KeyValueEntry → Bytes → Scanned

unfoldable pub scan_crc : Bytes → KeyValueEntry → Bytes → Scanned
scan_crc head e rest =
    if ltb (length (take 4 rest)) 4
    then refused (text "Truncated record CRC in SSTable")
    else if crc32 (head ++ (e.key ++ e.value)) == decode32 (take 4 rest)
    then scanned e (drop 4 rest)
    else refused (text "Record CRC mismatch in SSTable")

unfoldable pub scan_value : Bytes → Bytes → Bytes → Scanned
scan_value head key rest =
    let vlen = decode32 (drop 5 head) in
    if ltb (length (take vlen rest)) vlen
    then refused (text "Truncated record value in SSTable")
    else scan_crc head
        (record { key = key; value = take vlen rest; type = of_byte (get_or head 0 0) })
        (drop vlen rest)

unfoldable pub scan_key : Bytes → Bytes → Scanned
scan_key head rest =
    let klen = decode32 (drop 1 head) in
    if ltb (length (take klen rest)) klen
    then refused (text "Truncated record key in SSTable")
    else scan_value head (take klen rest) (drop klen rest)

unfoldable pub scan_record : Bytes → Scanned
scan_record bs =
    if ltb (length (take 9 bs)) 9
    then refused (text "Truncated record header in SSTable")
    else scan_key (take 9 bs) (drop 9 bs)

-- What a record that carries the key answers: a result, and the out-parameter `is_tombstone`.
unfoldable pub answer : KeyValueEntry → Result × Bool
answer e =
    if is_tombstone_type e.type
    then (Result.not_found (text "Key deleted (tombstone in SSTable)"), true)
    else (Result.ok e.value, false)

-- The loop of `scanRange`, one record a round; `flag` is what `is_tombstone` held before, and `none`
-- means that the fuel ran out. `curr` stays within the file, so it cannot wrap.
unfoldable pub scan_loop : ℕ → ℕ → ℕ → Bytes → Bool → Bytes → Option (Result × Bool)
scan_loop zero curr end key flag bs = none
scan_loop (suc fuel) curr end key flag bs = elim (ltb curr end && not (is_empty bs)) [
  | false ↦ some (Result.not_found (text "Key not found in SSTable range"), false)
  | true ↦ elim (scan_record bs) [
    | refused msg ↦ some (Result.error (Status.corruption msg), flag)
    | scanned e rest ↦ elim (string_eq e.key key) [
      | true ↦ some (answer e)
      | false ↦ elim (string_lt key e.key) [
        | true ↦ some (Result.not_found (text "Key not found in SSTable"), false)
        | false ↦ scan_loop fuel (curr + (13 + length e.key + length e.value)) end key flag rest
      ]
    ]
  ]
]

-- The fuel is one more than the bytes of the file: a round takes 13 of them at least.
unfoldable pub scan_range :
    Os → Disk → SsTableReader → ℕ → ℕ → Bytes → Bool → Option (Result × Bool)
scan_range os d r start end key flag = elim (open_read os d r.filepath) [
  | none ↦
      some (Result.error (Status.io_error (text "Failed to open SSTable: " ++ r.filepath)), flag)
  | some bs ↦ scan_loop (suc (length bs)) start end key flag (drop start bs)
]

unfoldable pub get : Os → Disk → SsTableReader → Bytes → Bool → Option (Result × Bool)
get os d r key flag =
    let (start, end) =
      Index.find_offset_range key r.index ((r.footer.data_offset + r.footer.data_size) % 2 ^ 64) in
    if r.is_open
    then (if r.enable_bloom_filter && not (Bloom.possibly_contains key r.bloom_filter)
        then some (Result.not_found (text "Key absent according to Bloom filter"), false)
        else scan_range os d r start end key flag)
    else some (Result.error (Status.io_error (text "SSTableReader is not open")), flag)
