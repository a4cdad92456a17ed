-- ===== src/SsTable/Appending.antt =====
-- `SSTableWriter::append` on entries in the order of their keys, without faults of the disk.
use lsm_tree_key_value_store.Prelude.{
  ℕ, ◌+◌, ◌%◌, ◌^◌, ◌<◌, ◌≡◌, refl, ap, ◌∙◌, sym, arith, true, false, not, ◌&&◌, some, List, [],
  ◌∷◌, ◌++◌, Bytes, length, Bool-cases, inl, inr, ◌⊎◌, length-append, append_assoc, append-nil,
  ◌==◌, if◌then◌else◌,
}
use mathlib.Core.Path.{subst}
use lsm_tree_key_value_store.Prelude.Strings.{string_le, is_empty}
use lsm_tree_key_value_store.Types.{KeyValueEntry}
use lsm_tree_key_value_store.Types.Crc32.{crc32}
use lsm_tree_key_value_store.Codec.{encode32}
use lsm_tree_key_value_store.Codec.RoundTrip.{length-encode32}
use lsm_tree_key_value_store.Frame.{payload, encode}
use lsm_tree_key_value_store.Status
use lsm_tree_key_value_store.Status.{Status}
use lsm_tree_key_value_store.Disk.{Disk, reliable, set_file}
use lsm_tree_key_value_store.Disk.Laws.{stream, write-write_behind}
use lsm_tree_key_value_store.Bloom
use lsm_tree_key_value_store.Bloom.Membership.{add_all}
use lsm_tree_key_value_store.SsTable.Index
use lsm_tree_key_value_store.SsTable.Index.{Index}
use lsm_tree_key_value_store.SsTable.Writer.{
  SsTableWriter, next_index, append_checked, append, append_all,
}
use lsm_tree_key_value_store.SsTable.Order.{Ordered, Ordered-cons}
use lsm_tree_key_value_store.SsTable.Layout.{encode_records}
use lsm_tree_key_value_store.SsTable.Sparse.{Samples, samples_nil, samples_skip, samples_take}

-- The index of entries whose records begin at an offset, where this many are before them: the key and the
-- offset of each record whose number is a multiple of the interval. The numbers are in uint32_t.
unfoldable pub sampled_index : ℕ → ℕ → ℕ → List KeyValueEntry → Index
sampled_index interval number off [] = []
sampled_index interval number off (e ∷ es) =
    let rest =
      sampled_index interval ((number + 1) % 2 ^ 32) (off + length (encode e.type e.key e.value))
        es in
    if number % interval == 0 then record { key = e.key; offset = off } ∷ rest else rest

unfoldable pub keys_of : List KeyValueEntry → List Bytes
keys_of [] = []
keys_of (e ∷ es) = e.key ∷ keys_of es

-- The writer after it has appended an entry.
abbrev next : KeyValueEntry → SsTableWriter → Bytes → SsTableWriter
next e w p = record w {
  file = stream p;
  current_offset = (w.current_offset + length (encode e.type e.key e.value)) % 2 ^ 64;
  record_count = (w.record_count + 1) % 2 ^ 32;
  last_key = e.key;
  index = next_index e.key w;
  bloom_filter = Bloom.add e.key w.bloom_filter;
}

append-reliable :
    (e : KeyValueEntry) (w : SsTableWriter) (p c : Bytes) (d : Disk)
    → w.is_open ≡ true
    → w.file ≡ stream p
    → (not (is_empty w.last_key) && string_le e.key w.last_key) ≡ false
    → append reliable e.type e.key e.value w (set_file p (some c) d)
      ≡ (Status.ok, next e w p, set_file p (some (c ++ encode e.type e.key e.value)) d)
unfolding append append_checked encode
append-reliable e w p c d is_open file fine =
    let buffer = payload e.type e.key e.value in
    let size : length buffer + 4 ≡ length (buffer ++ encode32 (crc32 buffer)) =
      omega
        (arith, length-append buffer (encode32 (crc32 buffer)), length-encode32 (crc32 buffer)) in
    simp (is_open, fine, file, write-write_behind buffer (encode32 (crc32 buffer)) p c d, size) refl

-- What appending these entries makes of a writer on the file `p` with contents `c`.
pub record Appended (es : List KeyValueEntry) (w : SsTableWriter) (p c : Bytes) (d : Disk)
    : Type 0 where
  pub after : SsTableWriter
  pub index : Index
  pub done :
      append_all reliable es w (set_file p (some c) d)
      ≡ (Status.ok, after, set_file p (some (c ++ encode_records es)) d)
  pub is_open : after.is_open ≡ true
  pub file : after.file ≡ stream p
  pub offset : after.current_offset ≡ w.current_offset + length (encode_records es)
  pub filter : after.bloom_filter ≡ add_all (keys_of es) w.bloom_filter
  pub sampled : Samples w.current_offset es index
  pub indexed : after.index ≡ w.index ++ index
  pub exact :
      index ≡ sampled_index w.options.sparse_index_interval w.record_count w.current_offset es
  pub counted : w.record_count < 2 ^ 32 → after.record_count < 2 ^ 32

-- What the index has got from one append.
next_index-cases :
    (key : Bytes) (w : SsTableWriter)
    → (((w.record_count % w.options.sparse_index_interval == 0) ≡ true)
        × (next_index key w ≡ w.index ++ record { key = key; offset = w.current_offset } ∷ []))
      ⊎ (((w.record_count % w.options.sparse_index_interval == 0) ≡ false)
          × (next_index key w ≡ w.index))
unfolding next_index Index.add
next_index-cases key w = elim (Bool-cases (w.record_count % w.options.sparse_index_interval == 0)) [
  | inl sample ↦ inl (sample, rw (sample) refl)
  | inr skip ↦ inr (skip, rw (skip) refl)
]

Appended-cons :
    (e : KeyValueEntry) (es : List KeyValueEntry) (w : SsTableWriter) (p c : Bytes) (d : Disk)
    → w.is_open ≡ true
    → w.file ≡ stream p
    → (not (is_empty w.last_key) && string_le e.key w.last_key) ≡ false
    → w.current_offset + length (encode_records (e ∷ es)) < 2 ^ 64
    → Appended es (next e w p) p (c ++ encode e.type e.key e.value) d
    → Appended (e ∷ es) w p c d
unfolding append_all encode_records keys_of add_all sampled_index
Appended-cons e es w p c d is_open file fine fit a =
    let len = length (encode e.type e.key e.value) in
    let size = length-append (encode e.type e.key e.value) (encode_records es) in
    let off : (w.current_offset + len) % 2 ^ 64 ≡ w.current_offset + len =
      omega (arith, size, fit) in
    let sampled : Samples (w.current_offset + len) es a.index =
      subst (λ n. Samples n es a.index) off a.sampled in
    let k = w.options.sparse_index_interval in
    let number = (w.record_count + 1) % 2 ^ 32 in
    let exact : a.index ≡ sampled_index k number (w.current_offset + len) es =
      a.exact ∙ ap (λ n. sampled_index k number n es) off in
    let done : append_all reliable (e ∷ es) w (set_file p (some c) d) ≡ (
      Status.ok,
      a.after,
      set_file p (some (c ++ (encode e.type e.key e.value ++ encode_records es))) d,
    ) =
      rw
        (
          append-reliable e w p c d is_open file fine,
          ← append_assoc c (encode e.type e.key e.value) (encode_records es),
        )
        a.done in
    let offset : a.after.current_offset
        ≡ w.current_offset + length (encode e.type e.key e.value ++ encode_records es) =
      omega (arith, size, off, a.offset) in
    elim (next_index-cases e.key w) [
      | inl (multiple, sample) ↦ record {
        after = a.after;
        index = record { key = e.key; offset = w.current_offset } ∷ a.index;
        done = done;
        is_open = a.is_open;
        file = a.file;
        offset = offset;
        filter = a.filter;
        sampled = samples_take sampled;
        indexed =
            a.indexed
            ∙ (ap (λ ix. ix ++ a.index) sample
                ∙ append_assoc w.index (record { key = e.key; offset = w.current_offset } ∷ [])
                    a.index);
        exact =
            rw (multiple) (ap (λ ix. record { key = e.key; offset = w.current_offset } ∷ ix) exact);
        counted = λ _. a.counted (omega arith);
      }
      | inr (other, skip) ↦ record {
        after = a.after;
        index = a.index;
        done = done;
        is_open = a.is_open;
        file = a.file;
        offset = offset;
        filter = a.filter;
        sampled = samples_skip sampled;
        indexed = a.indexed ∙ ap (λ ix. ix ++ a.index) skip;
        exact = rw (other) exact;
        counted = λ _. a.counted (omega arith);
      }
    ]

room-cons :
    (e : KeyValueEntry) (es : List KeyValueEntry) (off : ℕ)
    → off + length (encode_records (e ∷ es)) < 2 ^ 64
    → (off + length (encode e.type e.key e.value)) % 2 ^ 64 + length (encode_records es) < 2 ^ 64
unfolding encode_records
room-cons e es off fit =
    omega (arith, fit, length-append (encode e.type e.key e.value) (encode_records es))

-- Entries in the order of their keys are all appended, within the range of a uint64_t.
pub append_all-reliable :
    (es : List KeyValueEntry) (w : SsTableWriter) (p c : Bytes) (d : Disk)
    → w.is_open ≡ true
    → w.file ≡ stream p
    → Ordered w.last_key es
    → w.current_offset + length (encode_records es) < 2 ^ 64
    → Appended es w p c d
append_all-reliable [] w p c d is_open file o fit =
    unfold append_all encode_records keys_of add_all sampled_index in
    record {
      after = w;
      index = [];
      done = ap (λ bs. (Status.ok, w, set_file p (some bs) d)) (sym (append-nil c));
      is_open = is_open;
      file = file;
      offset = omega arith;
      filter = refl;
      sampled = samples_nil;
      indexed = sym (append-nil w.index);
      exact = refl;
      counted = λ h. h;
    }
append_all-reliable (e ∷ es) w p c d is_open file o fit =
    let (fine, ordered) = Ordered-cons w.last_key e es o in
    let room = room-cons e es w.current_offset fit in
    Appended-cons e es w p c d is_open file fine fit (
      append_all-reliable es (next e w p) p (c ++ encode e.type e.key e.value) d is_open refl
        ordered room)
