-- ===== src/SsTable/Writer.antt =====
-- `SSTableWriter`: the records in the order of their keys, then index, filter and footer. The code
-- does not ask whether a write succeeded.
use lsm_tree_key_value_store.Prelude.{
  ℕ, ◌+◌, ◌-◌, ◌%◌, ◌^◌, Bool, true, false, ◌&&◌, not, Option, none, some, List, [], ◌∷◌, ◌++◌,
  Bytes, length, ltb, ◌==◌, if◌then◌else◌,
}
use lsm_tree_key_value_store.Prelude.Strings.{text, string_le, is_empty}
use lsm_tree_key_value_store.Types.{RecordType, KeyValueEntry}
use lsm_tree_key_value_store.Types.Crc32.{crc32}
use lsm_tree_key_value_store.Codec.{encode32, encode64}
use lsm_tree_key_value_store.Frame.{payload}
use lsm_tree_key_value_store.Status
use lsm_tree_key_value_store.Status.{Status}
use lsm_tree_key_value_store.Options.{Options}
use lsm_tree_key_value_store.Disk.{Disk, Os, Stream, open_trunc, write}
use lsm_tree_key_value_store.MemTable.{MemTable, MemTableEntry}
use lsm_tree_key_value_store.Bloom
use lsm_tree_key_value_store.Bloom.{BloomFilter}
use lsm_tree_key_value_store.SsTable.{header_magic, table_version, header_size}
use lsm_tree_key_value_store.SsTable.Index
use lsm_tree_key_value_store.SsTable.Index.{Index}
use lsm_tree_key_value_store.SsTable.Footer
use lsm_tree_key_value_store.SsTable.Footer.{Footer}

-- `file` is the stream `file_`, once it is open.
pub record SsTableWriter : Type 0 where
  pub options : Options
  pub file : Stream
  pub is_open : Bool
  pub current_offset : ℕ
  pub record_count : ℕ
  pub last_key : Bytes
  pub index : Index
  pub bloom_filter : BloomFilter

-- `SSTableWriter(options)`
abbrev pub init : Options → SsTableWriter
init o = record {
  options = o;
  file = record { path = []; good = true };
  is_open = false;
  current_offset = 0;
  record_count = 0;
  last_key = [];
  index = [];
  bloom_filter = Bloom.init 0 10 7;
}

-- The 16 bytes of the header: magic number, version and flags.
unfoldable pub table_header : Bytes
table_header = encode64 header_magic ++ (encode32 table_version ++ encode32 0)

unfoldable pub opened :
    Os → Bytes → ℕ → SsTableWriter → Disk → Option (Stream × Disk) → Status × SsTableWriter × Disk
opened os path estimated_keys w d none =
    (Status.io_error (text "Failed to open SSTable for writing: " ++ path), w, d)
opened os path estimated_keys w d (some (s, d')) =
    let keys = if ltb 0 estimated_keys then estimated_keys else 100 in
    let (s', d'') = write os table_header (s, d') in
    (
      Status.ok,
      record w {
        file = s';
        is_open = true;
        record_count = 0;
        last_key = [];
        bloom_filter = Bloom.init keys w.options.bloom_bits_per_key w.options.bloom_num_hashes;
        current_offset = header_size;
      },
      d'',
    )

unfoldable pub open_table : Os → Bytes → ℕ → SsTableWriter → Disk → Status × SsTableWriter × Disk
open_table os path estimated_keys w d = opened os path estimated_keys w d (open_trunc os d path)

-- The index after a record at the current offset. `%` by an interval of 0 is undefined in the source; the
-- theorems on tables that are written assume another interval.
unfoldable pub next_index : Bytes → SsTableWriter → Index
next_index key w =
    if w.record_count % w.options.sparse_index_interval == 0
    then Index.add key w.current_offset w.index
    else w.index

-- What `append` does once the key has passed the checks.
unfoldable pub append_checked :
    Os → RecordType → Bytes → Bytes → SsTableWriter → Disk → Status × SsTableWriter × Disk
append_checked os type key value w d =
    let buffer = payload type key value in
    let (s, d') = write os (encode32 (crc32 buffer)) (write os buffer (w.file, d)) in
    (
      Status.ok,
      record w {
        file = s;
        current_offset = (w.current_offset + (length buffer + 4)) % 2 ^ 64;
        record_count = (w.record_count + 1) % 2 ^ 32;
        last_key = key;
        index = next_index key w;
        bloom_filter = Bloom.add key w.bloom_filter;
      },
      d',
    )

unfoldable pub append :
    Os → RecordType → Bytes → Bytes → SsTableWriter → Disk → Status × SsTableWriter × Disk
append os type key value w d =
    if w.is_open
    then (if not (is_empty w.last_key) && string_le key w.last_key
        then (
          Status.corruption (
              text "SSTable keys must be strictly increasing: '"
              ++ (key ++ (text "' after '" ++ (w.last_key ++ text "'")))),
          w,
          d,
        )
        else append_checked os type key value w d)
    else (Status.io_error (text "SSTableWriter is not open"), w, d)

-- The blocks behind the records, and the footer that says where they are.
unfoldable pub index_block : SsTableWriter → Bytes
index_block w = Index.serialize w.index

unfoldable pub bloom_block : SsTableWriter → Bytes
bloom_block w = let raw = Bloom.serialize w.bloom_filter in raw ++ encode32 (crc32 raw)

unfoldable pub footer_of : SsTableWriter → Footer
footer_of w =
    let index_size = length (index_block w) in
    record {
      data_offset = header_size;
      data_size = (w.current_offset + 2 ^ 64 - header_size) % 2 ^ 64;
      index_offset = w.current_offset;
      index_size = index_size;
      bloom_offset = (w.current_offset + index_size) % 2 ^ 64;
      bloom_size = length (bloom_block w);
      record_count = w.record_count;
      flags = 0;
    }

unfoldable pub finish : Os → SsTableWriter → Disk → Status × SsTableWriter × Disk
finish os w d =
    let raw = Bloom.serialize w.bloom_filter in
    let (s, d') =
      write os (Footer.serialize (footer_of w))
        (write os (encode32 (crc32 raw)) (write os raw (write os (index_block w) (w.file, d)))) in
    if w.is_open
    then (
      Status.ok,
      record w {
        file = s;
        is_open = false;
        current_offset =
            (w.current_offset + length (index_block w) + length (bloom_block w)) % 2 ^ 64;
      },
      d',
    )
    else (Status.io_error (text "SSTableWriter is not open"), w, d)

-- The loop over the entries; it stops at the first status that is not OK.
unfoldable pub append_all :
    Os → List KeyValueEntry → SsTableWriter → Disk → Status × SsTableWriter × Disk
append_all os [] w d = (Status.ok, w, d)
append_all os (e ∷ es) w d =
    let (s, w', d') = append os e.type e.key e.value w d in
    let rest = append_all os es w' d' in if Status.is_ok s then rest else (s, w', d')

-- `return writer.finish()`, after a loop that ended with OK.
unfoldable pub finish_after : Os → Status × SsTableWriter × Disk → Status × Disk
finish_after os (s, w, d) =
    let (s', w', d') = finish os w d in if Status.is_ok s then (s', d') else (s, d)

-- What both static functions do once the file is open.
unfoldable pub write_opened :
    Os → List KeyValueEntry → Status × SsTableWriter × Disk → Status × Disk
write_opened os es (s, w, d) =
    if Status.is_ok s then finish_after os (append_all os es w d) else (s, d)

unfoldable pub write_from_entries : Os → Bytes → List KeyValueEntry → Options → Disk → Status × Disk
write_from_entries os path es o d = write_opened os es (open_table os path (length es) (init o) d)

-- The entries of a memtable, in the order of their keys.
unfoldable pub table_entries : List (Bytes × MemTableEntry) → List KeyValueEntry
table_entries [] = []
table_entries ((k, e) ∷ m) = record { key = k; value = e.value; type = e.type } ∷ table_entries m

unfoldable pub write_from_mem_table : Os → Bytes → MemTable → Options → Disk → Status × Disk
write_from_mem_table os path t o d =
    write_opened os (table_entries t.table) (open_table os path (length t.table) (init o) d)
