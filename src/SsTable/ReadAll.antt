-- ===== src/SsTable/ReadAll.antt =====
-- `SSTableReader::readAllRecords`.
use lsm_tree_key_value_store.Prelude.{
  ℕ, zero, suc, ◌+◌, ◌-◌, ◌%◌, ◌^◌, true, false, ◌&&◌, not, Option, none, some, List, [], ◌∷◌, ◌++◌,
  Bytes, length, take, drop, get_or, replicate, ltb, ◌==◌, if◌then◌else◌,
}
use lsm_tree_key_value_store.Prelude.Strings.{text, is_empty}
use lsm_tree_key_value_store.Types.{KeyValueEntry, of_byte}
use lsm_tree_key_value_store.Types.Crc32.{crc32}
use lsm_tree_key_value_store.Codec.{decode32}
use lsm_tree_key_value_store.Status
use lsm_tree_key_value_store.Status.{Status}
use lsm_tree_key_value_store.Disk.{Disk, Os, open_read}
use lsm_tree_key_value_store.SsTable.Reader.{SsTableReader, Scanned, refused, scanned}

-- A record as `readAllRecords` reads it: it does not ask how much came back, so what is missing of a
-- key or a value stays zero, and what is missing of the checksum is what `crc_buf`, which is not
-- initialised, holds: `stale`.
unfoldable pub read_unchecked : Bytes → Bytes → Scanned
read_unchecked stale bs =
    let head = take 9 bs in
    let klen = decode32 (drop 1 head) in
    let vlen = decode32 (drop 5 head) in
    let pad = λ (n : ℕ) (got : Bytes). got ++ replicate (n - length got) 0 in
    let at_key = drop 9 bs in
    let at_value = drop klen at_key in
    let at_crc = drop vlen at_value in
    let key = pad klen (take klen at_key) in
    let value = pad vlen (take vlen at_value) in
    let crc_buf = take 4 at_crc ++ drop (length (take 4 at_crc)) stale in
    if ltb (length head) 9
    then refused (text "Truncated record header in SSTable")
    else if crc32 (head ++ (key ++ value)) == decode32 crc_buf
    then scanned (record { key = key; value = value; type = of_byte (get_or head 0 0) })
        (drop 4 at_crc)
    else refused (text "Record CRC mismatch in SSTable readAllRecords")

unfoldable pub read_loop :
    ℕ → ℕ → ℕ → Bytes → List KeyValueEntry → Bytes → Option (Status × List KeyValueEntry)
read_loop zero curr end stale out bs = none
read_loop (suc fuel) curr end stale out bs = elim (ltb curr end && not (is_empty bs)) [
  | false ↦ some (Status.ok, out)
  | true ↦ elim (read_unchecked stale bs) [
    | refused msg ↦ some (Status.corruption msg, out)
    | scanned e rest ↦
        read_loop fuel (curr + (13 + length e.key + length e.value)) end stale (out ++ e ∷ []) rest
  ]
]

-- The status, and what has been pushed to `out_records` by then.
unfoldable pub read_all_records :
    Os → Disk → SsTableReader → Bytes → Option (Status × List KeyValueEntry)
read_all_records os d r stale =
    let end = (r.footer.data_offset + r.footer.data_size) % 2 ^ 64 in
    if r.is_open
    then elim (open_read os d r.filepath) [
      | none ↦ some (Status.io_error (text "Failed to open SSTable: " ++ r.filepath), [])
      | some bs ↦
          read_loop (suc (length bs)) r.footer.data_offset end stale []
            (drop r.footer.data_offset bs)
    ]
    else some (Status.io_error (text "SSTableReader is not open"), [])
