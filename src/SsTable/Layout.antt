-- ===== src/SsTable/Layout.antt =====
-- The records of a table one after the other, and what a scan of some of them answers.
use lsm_tree_key_value_store.Prelude.{
  ℕ, zero, suc, ◌+◌, ◌<◌, ◌≡◌, refl, ap, ◌∙◌, arith, Bool, true, false, Option, none, some, List,
  [], ◌∷◌, ◌++◌, Bytes, length, All, take-length, drop-length, take_front, drop_front,
  length-append, append_assoc, le→ltb, lt→ltb, ==_refl, if◌then◌else◌, Bool-cases, inl, inr,
}
use lsm_tree_key_value_store.Prelude.Strings.{text, string_eq, string_lt, is_empty}
use lsm_tree_key_value_store.Prelude.SortedMap.{find, IsSorted, Above-trans, find-Above}
use lsm_tree_key_value_store.Types.{KeyValueEntry}
use lsm_tree_key_value_store.Types.Codes.{is_logged, of_byte-to_byte}
use lsm_tree_key_value_store.Types.Crc32.{crc32, crc32-lt}
use lsm_tree_key_value_store.Codec.{encode32}
use lsm_tree_key_value_store.Codec.RoundTrip.{decode32-encode32_self, length-encode32}
use lsm_tree_key_value_store.Frame.{header, encode}
use lsm_tree_key_value_store.Frame.Layout.{
  Fits, kept_value, encode-append, length-encode, length-header, key_len-header, val_len-header,
  type-header, kept_value-le,
}
use lsm_tree_key_value_store.Result
use lsm_tree_key_value_store.Result.{Result}
use lsm_tree_key_value_store.SsTable.Reader.{
  scanned, scan_crc, scan_value, scan_key, scan_record, scan_loop, answer,
}

-- An entry that a record keeps whole.
pub record IsStored (e : KeyValueEntry) : Type 0 where
  pub fits : Fits e.key e.value
  pub named : is_logged e.type ≡ true
  pub kept : kept_value e.type e.value ≡ e.value

unfoldable pub encode_records : List KeyValueEntry → Bytes
encode_records [] = []
encode_records (e ∷ es) = encode e.type e.key e.value ++ encode_records es

-- The entries under their keys.
unfoldable pub keyed : List KeyValueEntry → List (Bytes × KeyValueEntry)
keyed [] = []
keyed (e ∷ es) = (e.key, e) ∷ keyed es

-- A scan finds the entry, or reports with any message that there is none.
abbrev pub Answers : Option KeyValueEntry → Option (Result × Bool) → Type 0
Answers (some e) r = r ≡ some (answer e)
Answers none r = (msg : Bytes) × (r ≡ some (Result.not_found msg, false))

scan_crc-encode :
    (head rest : Bytes) (e : KeyValueEntry)
    → scan_crc head e (encode32 (crc32 (head ++ (e.key ++ e.value))) ++ rest) ≡ scanned e rest
unfolding scan_crc
scan_crc-encode head rest e =
    let crc = crc32 (head ++ (e.key ++ e.value)) in
    rw (
      take_front 4 (encode32 crc) rest (length-encode32 crc),
      drop_front 4 (encode32 crc) rest (length-encode32 crc),
      length-encode32 crc,
      decode32-encode32_self crc (crc32-lt (head ++ (e.key ++ e.value))),
      ==_refl crc,
    )

-- A record that was written is read back, whatever follows it.
pub scan_record-encode :
    (e : KeyValueEntry) (rest : Bytes)
    → IsStored e
    → scan_record (encode e.type e.key e.value ++ rest) ≡ scanned e rest
unfolding scan_record scan_key scan_value
scan_record-encode e rest h =
    let v = kept_value e.type e.value in
    let head = header e.type (length e.key) (length v) in
    let crc = encode32 (crc32 (head ++ (e.key ++ v))) ++ rest in
    rw
      (
        encode-append e.type e.key e.value rest h.fits,
        take_front 9 head (e.key ++ (v ++ crc)) (length-header e.type (length e.key) (length v)),
        drop_front 9 head (e.key ++ (v ++ crc)) (length-header e.type (length e.key) (length v)),
        length-header e.type (length e.key) (length v),
        key_len-header e.type (length e.key) (length v) h.fits.key_fits,
        take-length e.key (v ++ crc),
        drop-length e.key (v ++ crc),
        le→ltb (length e.key) (length e.key) (omega arith),
        val_len-header e.type (length e.key) (length v)
            (omega (arith, kept_value-le e.type e.value, h.fits.value_fits)),
        take-length v crc,
        drop-length v crc,
        le→ltb (length v) (length v) (omega arith),
        type-header e.type (length e.key) (length v),
        of_byte-to_byte e.type h.named,
      )
      (scan_crc-encode head rest (record e { value = v })
        ∙ ap (λ w. scanned (record e { value = w }) rest) h.kept)

pub encode_records-cons :
    (e : KeyValueEntry) (es : List KeyValueEntry) (rest : Bytes)
    → encode_records (e ∷ es) ++ rest ≡ encode e.type e.key e.value ++ (encode_records es ++ rest)
unfolding encode_records
encode_records-cons e es rest = append_assoc (encode e.type e.key e.value) (encode_records es) rest

pub length-encode-IsStored :
    (e : KeyValueEntry)
    → IsStored e
    → length (encode e.type e.key e.value) ≡ 13 + length e.key + length e.value
length-encode-IsStored e h =
    length-encode e.type e.key e.value h.fits ∙ ap (λ v. 13 + length e.key + length v) h.kept

pub length-encode_records :
    (e : KeyValueEntry) (es : List KeyValueEntry)
    → IsStored e
    → length (encode_records (e ∷ es))
      ≡ 13 + length e.key + length e.value + length (encode_records es)
unfolding encode_records
length-encode_records e es h = omega (
  arith,
  length-append (encode e.type e.key e.value) (encode_records es),
  length-encode-IsStored e h,
)

pub not_empty : (bs : Bytes) → 0 < length bs → is_empty bs ≡ false
unfolding is_empty
not_empty [] h = absurd (omega arith)
not_empty (x ∷ bs) h = refl

-- One round of the scan at a record.
scan_loop_round :
    (fuel curr end : ℕ) (key : Bytes) (flag : Bool) (bs : Bytes) {e : KeyValueEntry} {rest : Bytes}
    → curr < end
    → is_empty bs ≡ false
    → scan_record bs ≡ scanned e rest
    → scan_loop (suc fuel) curr end key flag bs ≡ (
        if string_eq e.key key
        then some (answer e)
        else if string_lt key e.key
        then some (Result.not_found (text "Key not found in SSTable"), false)
        else scan_loop fuel (curr + (13 + length e.key + length e.value)) end key flag rest)
unfolding scan_loop
scan_loop_round fuel curr end key flag bs {e} {rest} lt ne q =
    rw (lt→ltb curr end lt, ne, q, scan_loop) (ground arith)

-- The end of the range, in front of any bytes.
scan_loop_end :
    (fuel curr : ℕ) (key : Bytes) (flag : Bool) (bs : Bytes)
    → scan_loop (suc fuel) curr curr key flag bs
      ≡ some (Result.not_found (text "Key not found in SSTable range"), false)
unfolding scan_loop
scan_loop_end fuel curr key flag bs = rw (le→ltb curr curr (omega arith), scan_loop)

IsSorted-tail :
    (e : KeyValueEntry) (es : List KeyValueEntry) → IsSorted (keyed (e ∷ es)) → IsSorted (keyed es)
unfolding keyed
IsSorted-tail e es s = s.1

-- What a round makes of the answer of the rounds behind it.
Answers-round :
    (e : KeyValueEntry) (es : List KeyValueEntry) (key : Bytes) (r : Option (Result × Bool))
    → IsSorted (keyed (e ∷ es))
    → Answers (find key (keyed es)) r
    → Answers (find key (keyed (e ∷ es))) (
        if string_eq e.key key
        then some (answer e)
        else if string_lt key e.key
        then some (Result.not_found (text "Key not found in SSTable"), false)
        else r)
unfolding keyed find
Answers-round e es key r s a = elim (Bool-cases (string_eq e.key key)) [
  | inl eq ↦ rw (eq) refl
  | inr ne ↦ elim (Bool-cases (string_lt key e.key)) [
    | inl lt ↦
        rw (ne, lt, find-Above key (keyed es) (Above-trans key e.key (keyed es) lt s.0)) (_, refl)
    | inr ge ↦ rw (ne, ge) a
  ]
]

-- A scan over these records, which are in the order of their keys, answers what they hold.
pub scan_loop-encode_records :
    (es : List KeyValueEntry) (fuel curr end : ℕ) (key : Bytes) (flag : Bool) (rest : Bytes)
    → All IsStored es
    → IsSorted (keyed es)
    → length (encode_records es) < fuel
    → end ≡ curr + length (encode_records es)
    → Answers (find key (keyed es)) (scan_loop fuel curr end key flag (encode_records es ++ rest))
scan_loop-encode_records es zero curr end key flag rest h s lt at = absurd (omega arith)
scan_loop-encode_records [] (suc fuel) curr end key flag rest h s lt at =
    unfold encode_records keyed find in
    (
      _,
      ap (λ n. scan_loop (suc fuel) curr n key flag rest) (omega arith)
          ∙ scan_loop_end fuel curr key flag rest,
    )
scan_loop-encode_records (e ∷ es) (suc fuel) curr end key flag rest h s lt at =
    let len = length-encode_records e es h.0 in
    let more = encode_records es ++ rest in
    let bs = encode e.type e.key e.value ++ more in
    let size = length-append (encode e.type e.key e.value) more in
    let ne = not_empty bs (omega (arith, size, length-encode-IsStored e h.0)) in
    let round =
      scan_loop_round fuel curr end key flag bs (omega (arith, len)) ne
        (scan_record-encode e more h.0) in
    let behind =
      scan_loop-encode_records es fuel (curr + (13 + length e.key + length e.value)) end key flag
        rest h.1 (IsSorted-tail e es s) (omega (arith, len)) (omega (arith, len)) in
    rw (encode_records-cons e es rest, round) (Answers-round e es key _ s behind)
