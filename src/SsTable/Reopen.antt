-- ===== src/SsTable/Reopen.antt =====
-- A table that was written is one that can be opened and that holds the entries.
use lsm_tree_key_value_store.Prelude.{
  suc, ◌+◌, ◌^◌, ◌<◌, ◌≡◌, refl, ap, ◌∙◌, sym, arith, Bool, true, some, List, [], ◌∷◌, ◌++◌, Bytes,
  length, All, length-append,
}
use mathlib.Core.Path.{subst}
use lsm_tree_key_value_store.Prelude.SortedMap.{find}
use lsm_tree_key_value_store.Disk.Laws.{file-set_file_self}
use lsm_tree_key_value_store.Types.{KeyValueEntry}
use lsm_tree_key_value_store.Types.Crc32.{crc32}
use lsm_tree_key_value_store.Codec.{encode32}
use lsm_tree_key_value_store.Codec.RoundTrip.{length-encode32}
use lsm_tree_key_value_store.Status
use lsm_tree_key_value_store.Options.{Options}
use lsm_tree_key_value_store.Disk.{Disk, reliable, set_file, open_read}
use lsm_tree_key_value_store.MemTable.{MemTable, MemTableEntry}
use lsm_tree_key_value_store.Bloom
use lsm_tree_key_value_store.Bloom.{BloomFilter, possibly_contains}
use lsm_tree_key_value_store.Bloom.Membership.{add_all_reported, init-IsByte}
use lsm_tree_key_value_store.Bloom.Size.{
  length-add_all, num_hashes-add_all, length-init, num_hashes-init,
}
use lsm_tree_key_value_store.SsTable.Reader
use lsm_tree_key_value_store.SsTable.Reader.{SsTableReader, open_table, load, get}
use lsm_tree_key_value_store.SsTable.Writer.{
  table_header, index_block, bloom_block, footer_of, write_from_entries, write_from_mem_table,
  table_entries,
}
use lsm_tree_key_value_store.SsTable.Layout.{encode_records, keyed, Answers}
use lsm_tree_key_value_store.SsTable.Appending.{keys_of}
use lsm_tree_key_value_store.SsTable.Written.{
  Written, trailer, started, write_from_entries-IsSorted,
}
use lsm_tree_key_value_store.SsTable.Loading.{IsLoadable, loaded, load-trailer, records-at}
use lsm_tree_key_value_store.SsTable.Limits.{
  IsWritable, filter_keys, Samples-InRange, Samples-length, length-serialize_index,
  length-serialize_filter,
}
use lsm_tree_key_value_store.SsTable.Lookup.{Holds, get-Holds}

-- What the filter of a table reports.
reported-keys_of :
    (P : Bytes → Bool) (es : List KeyValueEntry)
    → All (λ k. P k ≡ true) (keys_of es)
    → All (λ e. P e.key ≡ true) es
unfolding keys_of
reported-keys_of P [] h = tt
reported-keys_of P (e ∷ es) h = (h.0, reported-keys_of P es h.1)

-- The reader that `open` makes of the file `q`, which holds these entries.
pub record OpenedAs (q : Bytes) (enable : Bool) (d : Disk) (es : List KeyValueEntry) : Type 0 where
  pub reader : SsTableReader
  pub done : open_table reliable q enable Reader.init d ≡ (Status.ok, reader)
  pub holds : Holds d reader es
  pub path : reader.filepath ≡ q

-- A file with these bytes is a table that holds these entries.
pub record IsTable (bytes : Bytes) (es : List KeyValueEntry) : Type 0 where
  pub at : (q : Bytes) (enable : Bool) (d : Disk) → d.file q ≡ some bytes → OpenedAs q enable d es

module _ {p : Bytes} {es : List KeyValueEntry} {o : Options} {d : Disk} (w : Written p es o d)
    (v : IsWritable o es) where
  filter_keys_of : length w.after.bloom_filter.bits + 8 < 2 ^ 32
  unfolding started
  filter_keys_of =
      let first = Bloom.init (filter_keys (length es)) o.bloom_bits_per_key o.bloom_num_hashes in
      omega (
        arith,
        v.small.filter_fits,
        ap (λ (f : BloomFilter). length f.bits) w.filter,
        length-add_all (keys_of es) first,
        length-init (filter_keys (length es)) o.bloom_bits_per_key o.bloom_num_hashes,
      )

  hashes_of : w.after.bloom_filter.num_hashes < 2 ^ 32
  unfolding started
  hashes_of =
      let first = Bloom.init (filter_keys (length es)) o.bloom_bits_per_key o.bloom_num_hashes in
      omega (
        arith,
        ap (λ (f : BloomFilter). f.num_hashes) w.filter,
        num_hashes-add_all (keys_of es) first,
        num_hashes-init (filter_keys (length es)) o.bloom_bits_per_key o.bloom_num_hashes,
      )

  after-IsLoadable : IsLoadable w.after (encode_records es)
  unfolding index_block bloom_block
  after-IsLoadable =
      let raw = Bloom.serialize w.after.bloom_filter in
      let fit = v.small.records_fit in
      let few = v.small.count_fits in
      record {
        offset = w.offset;
        index_fits = Samples-InRange w.sampled v.stored (omega arith);
        index_count_fits = omega (arith, Samples-length w.sampled);
        hashes_fit = hashes_of;
        bits_fit = filter_keys_of;
        count_fits = w.counted;
        size_fits = omega (
          arith,
          filter_keys_of,
          length-serialize_index w.sampled v.stored,
          length-serialize_filter w.after.bloom_filter,
          length-append raw (encode32 (crc32 raw)),
          length-encode32 (crc32 raw),
        );
      }

  after-reported : All (λ e. possibly_contains e.key w.after.bloom_filter ≡ true) es
  unfolding started
  after-reported =
      let keys = filter_keys (length es) in
      let first = Bloom.init keys o.bloom_bits_per_key o.bloom_num_hashes in
      reported-keys_of (λ k. possibly_contains k w.after.bloom_filter) es
        (subst (λ f. All (λ k. possibly_contains k f ≡ true) (keys_of es)) (sym w.filter)
          (add_all_reported (keys_of es) first
            (init-IsByte keys o.bloom_bits_per_key o.bloom_num_hashes)))

  abbrev bytes : Bytes
  bytes = trailer w.after (table_header ++ encode_records es)

  open_table-bytes :
      (q : Bytes) (enable : Bool) (d' : Disk) → d'.file q ≡ some bytes → OpenedAs q enable d' es
  unfolding open_table open_read footer_of
  open_table-bytes q enable d' file =
      let r = record (Reader.close Reader.init) { filepath = q; enable_bloom_filter = enable } in
      let l = after-IsLoadable in
      let fit = v.small.records_fit in
      let off = w.offset in
      record {
        reader = loaded w.after (encode_records es) l r;
        done = rw (file) (load-trailer w.after (encode_records es) l r);
        holds = record {
          is_open = refl;
          at_header = refl;
          data_size = omega arith;
          fits = omega arith;
          stored = v.stored;
          sorted = v.sorted;
          sampled = w.sampled;
          reported = after-reported;
          bytes = bytes;
          post = _;
          file = file;
          records = records-at w.after (encode_records es) l;
        };
        path = refl;
      }

-- Entries that were written, without faults, to a file that is a table of them.
pub record Saved (run : Status.Status × Disk) (p : Bytes) (es : List KeyValueEntry) (d : Disk)
    : Type 0 where
  pub contents : Bytes
  pub done : run ≡ (Status.ok, set_file p (some contents) d)
  pub table : IsTable contents es

pub write_from_entries-Saved :
    (p : Bytes) (es : List KeyValueEntry) (o : Options) (d : Disk)
    → IsWritable o es
    → Saved (write_from_entries reliable p es o d) p es d
write_from_entries-Saved p es o d v =
    let fit = v.small.records_fit in
    let w = write_from_entries-IsSorted p es o d v.small.interval_pos v.sorted (omega arith) in
    record { contents = bytes w v; done = w.done; table = record { at = open_table-bytes w v } }

length-table_entries : (m : List (Bytes × MemTableEntry)) → length (table_entries m) ≡ length m
unfolding table_entries
length-table_entries [] = refl
length-table_entries ((k, e) ∷ m) = ap suc (length-table_entries m)

write_from_mem_table-eq :
    (p : Bytes) (t : MemTable) (o : Options) (d : Disk)
    → write_from_mem_table reliable p t o d
      ≡ write_from_entries reliable p (table_entries t.table) o d
unfolding write_from_mem_table write_from_entries
write_from_mem_table-eq p t o d = rw (length-table_entries t.table) refl

-- The same for a memtable, in the order of its keys.
pub write_from_mem_table-Saved :
    (p : Bytes) (t : MemTable) (o : Options) (d : Disk)
    → IsWritable o (table_entries t.table)
    → Saved (write_from_mem_table reliable p t o d) p (table_entries t.table) d
write_from_mem_table-Saved p t o d v =
    let s = write_from_entries-Saved p (table_entries t.table) o d v in
    record {
      contents = s.contents;
      done = write_from_mem_table-eq p t o d ∙ s.done;
      table = s.table;
    }

-- Entries within the limits of the format and in the order of their keys are written by
-- writeFromEntries with an interval of the sparse index that is not 0, the file is opened, and get
-- then answers each key from the entries, whether the filter is asked or not. No fault of the disk
-- occurs.
pub get-write_from_entries :
    (p : Bytes) (es : List KeyValueEntry) (o : Options) (d : Disk) (enable : Bool) (key : Bytes)
    (flag : Bool)
    → IsWritable o es
    → (d' : Disk) × (r : SsTableReader) × (write_from_entries reliable p es o d ≡ (Status.ok, d'))
      × (open_table reliable p enable Reader.init d' ≡ (Status.ok, r))
      × Answers (find key (keyed es)) (get reliable d' r key flag)
get-write_from_entries p es o d enable key flag v =
    let s = write_from_entries-Saved p es o d v in
    let d' = set_file p (some s.contents) d in
    let a = s.table.at p enable d' (file-set_file_self p (some s.contents) d) in
    (d', a.reader, s.done, a.done, get-Holds d' a.reader es key flag a.holds)

-- The file at a path is a table that holds these entries.
pub record OnDisk (d : Disk) (p : Bytes) (es : List KeyValueEntry) : Type 0 where
  pub contents : Bytes
  pub file : d.file p ≡ some contents
  pub table : IsTable contents es

pub OnDisk-frame :
    (d d' : Disk) (p : Bytes) (es : List KeyValueEntry)
    → d'.file p ≡ d.file p
    → OnDisk d p es
    → OnDisk d' p es
OnDisk-frame d d' p es same t = record {
  contents = t.contents;
  file = same ∙ t.file;
  table = t.table;
}

-- Several tables, each at its path.
abbrev pub Tables : Disk → List Bytes → List (List KeyValueEntry) → Type 0
Tables d [] [] = Unit
Tables d [] (es ∷ ess) = ⊥
Tables d (p ∷ ps) [] = ⊥
Tables d (p ∷ ps) (es ∷ ess) = OnDisk d p es × Tables d ps ess
