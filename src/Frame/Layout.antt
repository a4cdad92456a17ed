-- ===== src/Frame/Layout.antt =====
-- Where the parts of a record stand, for a reader that takes them off the front.
use lsm_tree_key_value_store.Prelude.{
  ℕ, ◌+◌, ◌^◌, ◌<◌, ◌≤◌, ◌≡◌, refl, arith, [], ◌++◌, append_assoc, Bytes, get_or, length, take,
  drop, length-append, take_all, if◌then◌else◌,
}
use lsm_tree_key_value_store.Types.{RecordType, is_tombstone_type, to_byte}
use lsm_tree_key_value_store.Types.Crc32.{crc32}
use lsm_tree_key_value_store.Codec.{encode32, decode32}
use lsm_tree_key_value_store.Codec.RoundTrip.{length-encode32, decode32-encode32}
use lsm_tree_key_value_store.Frame.{key_len, val_len, header, payload, encode}

-- What the record keeps of a value: a tombstone has none.
abbrev pub kept_value : RecordType → Bytes → Bytes
kept_value type value = if is_tombstone_type type then [] else value

pub length-header : (type : RecordType) (k v : ℕ) → length (header type k v) ≡ 9
unfolding header
length-header type k v =
    omega (arith, length-append (encode32 k) (encode32 v), length-encode32 k, length-encode32 v)

-- A record whose lengths are uint32_t keeps its key and value whole.
pub record Fits (key value : Bytes) : Type 0 where
  pub key_fits : length key < 2 ^ 32
  pub value_fits : length value < 2 ^ 32

pub key_len-eq : (key : Bytes) → length key < 2 ^ 32 → key_len key ≡ length key
unfolding key_len
key_len-eq key h = omega arith

pub val_len-eq :
    (type : RecordType) (value : Bytes)
    → length value < 2 ^ 32
    → val_len type value ≡ length (kept_value type value)
unfolding val_len
val_len-eq type value h = ground arith

take-kept_value :
    (type : RecordType) (value : Bytes)
    → length value < 2 ^ 32
    → take (val_len type value) value ≡ kept_value type value
unfolding val_len
take-kept_value RecordType.put value h = take_all _ value (omega arith)
take-kept_value RecordType.tombstone value h = refl
take-kept_value (RecordType.other b) value h = take_all _ value (omega arith)

pub payload-eq :
    (type : RecordType) (key value : Bytes)
    → Fits key value
    → payload type key value
      ≡ header type (length key) (length (kept_value type value)) ++ (key ++ kept_value type value)
unfolding payload
payload-eq type key value f = rw (
  take-kept_value type value f.value_fits,
  key_len-eq key f.key_fits,
  val_len-eq type value f.value_fits,
  take_all (length key) key (omega arith),
)

-- The fields of a header, read back.
pub key_len-header :
    (type : RecordType) (k v : ℕ) → k < 2 ^ 32 → decode32 (drop 1 (header type k v)) ≡ k
unfolding header
key_len-header type k v h = decode32-encode32 k (encode32 v) h

pub val_len-header :
    (type : RecordType) (k v : ℕ) → v < 2 ^ 32 → decode32 (drop 5 (header type k v)) ≡ v
unfolding header encode32
val_len-header type k v h = decode32-encode32 v [] h

-- A record in front of other bytes, part by part.
pub encode-append :
    (type : RecordType) (key value rest : Bytes)
    → Fits key value
    → let h = header type (length key) (length (kept_value type value)) in
      encode type key value ++ rest
      ≡ h
        ++ (key
            ++ (kept_value type value
                ++ (encode32 (crc32 (h ++ (key ++ kept_value type value))) ++ rest)))
unfolding encode
encode-append type key value rest f = rw (payload-eq type key value f) (simp append_assoc)

pub length-encode :
    (type : RecordType) (key value : Bytes)
    → Fits key value
    → length (encode type key value) ≡ 13 + length key + length (kept_value type value)
unfolding encode
length-encode type key value f =
    let v = kept_value type value in
    let h = header type (length key) (length v) in
    rw (payload-eq type key value f) (
      omega (
        arith,
        length-append (h ++ (key ++ v)) (encode32 (crc32 (h ++ (key ++ v)))),
        length-append h (key ++ v),
        length-append key v,
        length-header type (length key) (length v),
        length-encode32 (crc32 (h ++ (key ++ v))),
      ))

pub type-header : (type : RecordType) (k v : ℕ) → get_or (header type k v) 0 0 ≡ to_byte type
unfolding header
type-header type k v = refl

pub kept_value-le :
    (type : RecordType) (value : Bytes) → length (kept_value type value) ≤ length value
kept_value-le RecordType.put value = omega arith
kept_value-le RecordType.tombstone value = omega arith
kept_value-le (RecordType.other b) value = omega arith
