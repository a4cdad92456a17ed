-- ===== src/SsTable/Written.antt =====
-- The file that `SSTableWriter` leaves, without faults of the disk.
use lsm_tree_key_value_store.Prelude.{
  ℕ, ◌+◌, ◌^◌, ◌<◌, ◌≡◌, refl, arith, ap, ◌∙◌, sym, true, some, List, [], ◌++◌, Bytes, length, ltb,
  if◌then◌else◌,
}
use mathlib.Core.Path.{subst}
use lsm_tree_key_value_store.Prelude.SortedMap.{IsSorted}
use lsm_tree_key_value_store.Types.{KeyValueEntry}
use lsm_tree_key_value_store.Types.Crc32.{crc32}
use lsm_tree_key_value_store.Codec.{encode32}
use lsm_tree_key_value_store.Status
use lsm_tree_key_value_store.Options.{Options}
use lsm_tree_key_value_store.Disk.{Disk, Stream, reliable, set_file, open_trunc}
use lsm_tree_key_value_store.Disk.Laws.{stream, write-behind}
use lsm_tree_key_value_store.Bloom
use lsm_tree_key_value_store.Bloom.Membership.{add_all}
use lsm_tree_key_value_store.SsTable.{header_size}
use lsm_tree_key_value_store.SsTable.Index.{Index}
use lsm_tree_key_value_store.SsTable.Footer
use lsm_tree_key_value_store.SsTable.Writer
use lsm_tree_key_value_store.SsTable.Writer.{
  SsTableWriter, table_header, opened, open_table, index_block, footer_of, finish, append_all,
  finish_after, write_opened, write_from_entries,
}
use lsm_tree_key_value_store.SsTable.Layout.{encode_records, keyed}
use lsm_tree_key_value_store.SsTable.Sparse.{Samples}
use lsm_tree_key_value_store.SsTable.Order.{IsSorted-Ordered}
use lsm_tree_key_value_store.SsTable.Appending.{sampled_index, keys_of, append_all-reliable}

-- The blocks that a writer puts behind the records.
unfoldable pub trailer : SsTableWriter → Bytes → Bytes
trailer w c =
    let raw = Bloom.serialize w.bloom_filter in
    c ++ index_block w ++ raw ++ encode32 (crc32 raw) ++ Footer.serialize (footer_of w)

finish_after-reliable :
    (w : SsTableWriter) (p c : Bytes) (d : Disk)
    → w.is_open ≡ true
    → w.file ≡ stream p
    → finish_after reliable (Status.ok, w, set_file p (some c) d)
      ≡ (Status.ok, set_file p (some (trailer w c)) d)
unfolding finish_after finish trailer
finish_after-reliable w p c d is_open file =
    let raw = Bloom.serialize w.bloom_filter in
    let c1 = c ++ index_block w in
    simp
      (
        is_open,
        file,
        write-behind (index_block w) p c d,
        write-behind raw p c1 d,
        write-behind (encode32 (crc32 raw)) p (c1 ++ raw) d,
        write-behind (Footer.serialize (footer_of w)) p (c1 ++ raw ++ encode32 (crc32 raw)) d,
      )
      refl

-- The writer of a table for these entries, once its file is open.
unfoldable pub started : Bytes → List KeyValueEntry → Options → SsTableWriter
started p es o =
    let keys = if ltb 0 (length es) then length es else 100 in
    record (Writer.init o) {
      file = stream p;
      is_open = true;
      current_offset = header_size;
      bloom_filter = Bloom.init keys o.bloom_bits_per_key o.bloom_num_hashes;
    }

open_table-reliable :
    (p : Bytes) (es : List KeyValueEntry) (o : Options) (d : Disk)
    → open_table reliable p (length es) (Writer.init o) d
      ≡ (Status.ok, started p es o, set_file p (some table_header) d)
unfolding open_table opened open_trunc started
open_table-reliable p es o d =
    ap (λ (out : Stream × Disk). (Status.ok, record (started p es o) { file = out.0 }, out.1))
      (write-behind table_header p [] d)

-- A table that was written: the status, and a file of header, records, index, filter and footer. The
-- index names every record whose number is a multiple of the interval, by its offset, and the filter has
-- got every key.
pub record Written (p : Bytes) (es : List KeyValueEntry) (o : Options) (d : Disk) : Type 0 where
  pub after : SsTableWriter
  pub done :
      write_from_entries reliable p es o d
      ≡ (Status.ok, set_file p (some (trailer after (table_header ++ encode_records es))) d)
  pub offset : after.current_offset ≡ header_size + length (encode_records es)
  pub filter : after.bloom_filter ≡ add_all (keys_of es) (started p es o).bloom_filter
  pub sampled : Samples header_size es after.index
  pub exact : after.index ≡ sampled_index o.sparse_index_interval 0 header_size es
  pub counted : after.record_count < 2 ^ 32

-- A writer that has started has no index.
sampled_all :
    {off : ℕ} {es : List KeyValueEntry} {ix ix' : Index}
    → ix ≡ [] ++ ix'
    → Samples off es ix'
    → Samples off es ix
sampled_all {off} {es} e r = subst (Samples off es) (sym e) r

-- Entries in the order of their keys, whose records end within the range of a uint64_t, are written
-- with an interval that is not 0 and without faults of the disk: the status is OK, the file has
-- header, records, index block, filter block and footer, the index names exactly the records whose
-- numbers, counted in uint32_t, are multiples of the interval, by key and offset, and every key was
-- added to the filter.
pub write_from_entries-IsSorted :
    (p : Bytes) (es : List KeyValueEntry) (o : Options) (d : Disk)
    → 0 < o.sparse_index_interval
    → IsSorted (keyed es)
    → header_size + length (encode_records es) < 2 ^ 64
    → Written p es o d
unfolding write_from_entries write_opened started
write_from_entries-IsSorted p es o d interval s fit =
    let a =
      append_all-reliable es (started p es o) p table_header d refl refl (IsSorted-Ordered es s)
        fit in
    record {
      after = a.after;
      done =
          ap (write_opened reliable es) (open_table-reliable p es o d)
          ∙ (ap (finish_after reliable) a.done
              ∙ finish_after-reliable a.after p (table_header ++ encode_records es) d a.is_open
                  a.file);
      offset = a.offset;
      filter = a.filter;
      sampled = sampled_all a.indexed a.sampled;
      exact = a.indexed ∙ a.exact;
      counted = a.counted (omega arith);
    }
