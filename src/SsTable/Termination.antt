-- ===== src/SsTable/Termination.antt =====
-- `SSTableReader::get` ends, whatever the file holds.
use lsm_tree_key_value_store.Prelude.{
  ℕ, zero, suc, ◌+◌, ◌≤◌, ◌<◌, ◌≡◌, refl, arith, Bytes, Bool, true, false, not, ◌&&◌, Option, none,
  some, length, take, drop, get_or, length-take, length-drop, ltb, Bool-cases, inl, inr,
}
use lsm_tree_key_value_store.Prelude.Strings.{string_eq, string_lt, is_empty}
use lsm_tree_key_value_store.Types.{KeyValueEntry, of_byte}
use lsm_tree_key_value_store.Codec.{decode32}
use lsm_tree_key_value_store.Result.{Result}
use lsm_tree_key_value_store.Disk.{Disk, Os, open_read}
use lsm_tree_key_value_store.Bloom.{possibly_contains}
use lsm_tree_key_value_store.SsTable.Reader.{
  SsTableReader, Scanned, refused, scanned, scan_crc, scan_value, scan_key, scan_record, scan_loop,
  scan_range, get,
}

module _ {e : KeyValueEntry} {rest : Bytes} where
  scan_crc-shorter :
      (head : Bytes) (r : KeyValueEntry) (bs : Bytes)
      → scan_crc head r bs ≡ scanned e rest
      → length rest + 4 ≤ length bs
  unfolding scan_crc
  scan_crc-shorter head r bs h = ground (arith, length-take 4 bs, length-drop 4 bs)

  scan_value-shorter :
      (head key bs : Bytes) → scan_value head key bs ≡ scanned e rest → length rest + 4 ≤ length bs
  unfolding scan_value
  scan_value-shorter head key bs h =
      let vlen = decode32 (drop 5 head) in
      let r : KeyValueEntry = record {
        key = key;
        value = take vlen bs;
        type = of_byte (get_or head 0 0);
      } in
      ground (arith, length-drop vlen bs, scan_crc-shorter head r (drop vlen bs))

  scan_key-shorter :
      (head bs : Bytes) → scan_key head bs ≡ scanned e rest → length rest + 4 ≤ length bs
  unfolding scan_key
  scan_key-shorter head bs h =
      let klen = decode32 (drop 1 head) in
      ground (arith, length-drop klen bs, scan_value-shorter head (take klen bs) (drop klen bs))

  -- A round that returns a record has taken bytes off the front.
  pub scan_record-shorter :
      (bs : Bytes) → scan_record bs ≡ scanned e rest → length rest + 13 ≤ length bs
  unfolding scan_record
  scan_record-shorter bs h =
      ground (arith, length-take 9 bs, length-drop 9 bs, scan_key-shorter (take 9 bs) (drop 9 bs))

Answered : Option (Result × Bool) → Type 0
Answered r = (out : Result × Bool) × (r ≡ some out)

-- A round ends the loop, or goes on with fewer bytes.
scan_loop_total :
    (fuel curr end : ℕ) (key : Bytes) (flag : Bool) (bs : Bytes)
    → length bs < fuel
    → Answered (scan_loop fuel curr end key flag bs)
unfolding scan_loop Answered
scan_loop_total zero curr end key flag bs h = absurd (omega arith)
scan_loop_total (suc fuel) curr end key flag bs h =
    go (ltb curr end && not (is_empty bs)) (scan_record bs) refl refl (λ e rest q.
      scan_loop_total fuel (curr + (13 + length e.key + length e.value)) end key flag rest
        (omega (arith, scan_record-shorter bs q)))
  where
    go :
        (b : Bool) (s : Scanned)
        → (ltb curr end && not (is_empty bs)) ≡ b
        → scan_record bs ≡ s
        → ((e : KeyValueEntry) (rest : Bytes)
            → scan_record bs ≡ scanned e rest
            → Answered
                (scan_loop fuel (curr + (13 + length e.key + length e.value)) end key flag rest))
        → Answered (scan_loop (suc fuel) curr end key flag bs)
    go false s p q ih = rw (scan_loop, p) (_, refl)
    go true (refused m) p q ih = rw (scan_loop, p, q) (_, refl)
    go true (scanned e rest) p q ih = elim (Bool-cases (string_eq e.key key)) [
      | inl same ↦ rw (scan_loop, p, q, same) (_, refl)
      | inr other ↦ elim (Bool-cases (string_lt key e.key)) [
        | inl beyond ↦ rw (scan_loop, p, q, other, beyond) (_, refl)
        | inr before ↦ rw (scan_loop, p, q, other, before) (ih e rest q)
      ]
    ]

scan_range_total :
    (os : Os) (d : Disk) (r : SsTableReader) (start end : ℕ) (key : Bytes) (flag : Bool)
    → Answered (scan_range os d r start end key flag)
unfolding scan_range Answered
scan_range_total os d r start end key flag = go (open_read os d r.filepath) refl
  where
    go :
        (o : Option Bytes)
        → open_read os d r.filepath ≡ o
        → Answered (scan_range os d r start end key flag)
    go none p = rw (scan_range, p) (_, refl)
    go (some bs) p =
        rw (scan_range, p)
          (scan_loop_total (suc (length bs)) start end key flag (drop start bs)
            (omega (arith, length-drop start bs)))

-- A lookup in a table ends, on any system and with any bytes in the file: with a result, and with what
-- the out-parameter holds.
pub get_total :
    (os : Os) (d : Disk) (r : SsTableReader) (key : Bytes) (flag : Bool)
    → (out : Result × Bool) × (get os d r key flag ≡ some out)
unfolding get Answered
get_total os d r key flag = elim (Bool-cases r.is_open) [
  | inr shut ↦ simp (get, shut) (_, refl)
  | inl is_open ↦
      elim (Bool-cases (r.enable_bloom_filter && not (possibly_contains key r.bloom_filter))) [
        | inl skip ↦ simp (get, is_open, skip) (_, refl)
        | inr look ↦ simp (get, is_open, look) (scan_range_total os d r _ _ key flag)
      ]
]
