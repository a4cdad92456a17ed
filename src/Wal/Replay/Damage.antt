-- ===== src/Wal/Replay/Damage.antt =====
-- Logs that end inside a record, and logs with a damaged one.
use lsm_tree_key_value_store.Prelude.{
  ℕ, ◌≤◌, ◌≡◌, ◌≢◌, refl, ◌∙◌, arith, List, [], ◌∷◌, ◌++◌, Bytes, true, false, length, le→ltb,
  take-length, drop-length, take_front, All, append-nil,
}
use mathlib.Core.List.{foldl}
use lsm_tree_key_value_store.Types.{RecordType}
use lsm_tree_key_value_store.Types.Crc32.{crc32}
use lsm_tree_key_value_store.Codec.{decode32}
use lsm_tree_key_value_store.Status
use lsm_tree_key_value_store.Prelude.Strings.{text}
use lsm_tree_key_value_store.Frame.{encode, header}
use lsm_tree_key_value_store.Frame.Layout.{length-header}
use lsm_tree_key_value_store.Wal.Replay.Steps.{read_record-header, read_fields-header}
use lsm_tree_key_value_store.Types.Codes.{is_logged}
use lsm_tree_key_value_store.Wal.Replay.Recovery.{
  IsLogged, read_record-IsLogged, encode_log, replay_bytes-append, replay_loop_truncated,
  replay_loop_corrupt, ended,
}
use lsm_tree_key_value_store.Wal.Replay.{
  WalRecord, Round, eof, truncated, corrupt, record_read, read_record, replay_bytes, check_crc,
  read_value, read_key, read_fields, max_key, max_value,
}
use lsm_tree_key_value_store.Wal.Replay.Longer.{extend, IsConclusive, read_record-append}

read_record-ne-eof : (x : ℕ) (bs : Bytes) → read_record (x ∷ bs) ≢ eof
unfolding read_record read_fields read_key read_value check_crc
read_record-ne-eof x bs e = ground arith

ne-eof : (bs : Bytes) → bs ≢ [] → read_record bs ≢ eof
ne-eof [] ne e = ne refl
ne-eof (x ∷ bs) ne e = read_record-ne-eof x bs e

append-ne-nil : (bs : Bytes) (x : ℕ) (more : Bytes) → bs ++ (x ∷ more) ≢ []
append-ne-nil [] x more e = cc
append-ne-nil (y ∷ bs) x more e = cc

-- A proper part of a logged record, its front, is read as truncated.
pub read_record-front :
    (r : WalRecord) (front back : Bytes) (x : ℕ)
    → IsLogged r
    → encode r.type r.key r.value ≡ front ++ (x ∷ back)
    → front ≢ []
    → (msg : Bytes) × (read_record front ≡ truncated msg)
read_record-front r front back x h e ne =
    go (read_record front) refl (read_record-append (x ∷ back) front)
  where
    whole : read_record (front ++ (x ∷ back)) ≡ record_read r []
    whole = rw (append-nil, e) at (read_record-IsLogged r [] h)

    go :
        (o : Round)
        → read_record front ≡ o
        → (IsConclusive (read_record front)
            → read_record (front ++ (x ∷ back)) ≡ extend (x ∷ back) (read_record front))
        → (msg : Bytes) × (read_record front ≡ truncated msg)
    go eof p grow = absurd (ne-eof front ne p)
    go (truncated msg) p grow = (msg, p)
    go (corrupt msg) p grow = cc (whole, (rw p at grow) tt)
    go (record_read rec rest) p grow =
        absurd (append-ne-nil rest x back (cc (whole, (rw p at grow) tt)))

-- A record with another checksum than that of its header, key and value.
read_record_mismatch :
    (type : RecordType) (key value crc rest : Bytes)
    → is_logged type ≡ true
    → length key ≤ max_key
    → length value ≤ max_value
    → length crc ≡ 4
    → decode32 crc ≢ crc32 (header type (length key) (length value) ++ (key ++ value))
    → read_record (header type (length key) (length value) ++ (key ++ (value ++ (crc ++ rest))))
      ≡ corrupt (text "WAL record checksum mismatch")
unfolding read_key read_value check_crc
read_record_mismatch type key value crc rest ht hk hv hc ne =
    let head = header type (length key) (length value) in
    rw
      (
        read_record-header head _ (length-header type (length key) (length value)),
        read_fields-header type (length key) (length value) _ ht hk hv,
        take-length key (value ++ (crc ++ rest)),
        drop-length key (value ++ (crc ++ rest)),
        le→ltb (length key) (length key) (omega arith),
        take-length value (crc ++ rest),
        drop-length value (crc ++ rest),
        le→ltb (length value) (length value) (omega arith),
        take_front 4 crc rest hc,
        hc,
      )
      (ground arith)

module _ {S : Type 0} (consumer : S → WalRecord → S) where
  -- A log of records with keys of at most 16 MiB and values of at most 64 MiB that ends inside another
  -- such record: the replay has consumed the records before it, in their order, and reports a
  -- corruption with the truncation flag set.
  pub replay_bytes_torn :
      (rs : List WalRecord) (r : WalRecord) (front back : Bytes) (x : ℕ) (s : S)
      → All IsLogged rs
      → IsLogged r
      → encode r.type r.key r.value ≡ front ++ (x ∷ back)
      → front ≢ []
      → (msg : Bytes) × (replay_bytes consumer s (encode_log rs ++ front)
          ≡ ended consumer (foldl consumer s rs) (Status.corruption msg) true)
  replay_bytes_torn rs r front back x s hs h e ne =
      let (fuel, q) = replay_bytes-append consumer rs s front hs in
      let (msg, p) = read_record-front r front back x h e ne in
      (msg, q ∙ replay_loop_truncated consumer fuel (foldl consumer s rs) front p)

  -- A complete record within the limits whose stored checksum is not that of its header, key and
  -- value: the replay has consumed the records before it, and neither it nor anything after it; it
  -- reports a corruption with the flag clear.
  pub replay_bytes_mismatch :
      (rs : List WalRecord) (type : RecordType) (key value crc rest : Bytes) (s : S)
      → All IsLogged rs
      → is_logged type ≡ true
      → length key ≤ max_key
      → length value ≤ max_value
      → length crc ≡ 4
      → decode32 crc ≢ crc32 (header type (length key) (length value) ++ (key ++ value))
      → replay_bytes consumer s (
          encode_log rs
          ++ (header type (length key) (length value) ++ (key ++ (value ++ (crc ++ rest)))))
        ≡ ended consumer
            (foldl consumer s rs)
            (Status.corruption (text "WAL record checksum mismatch"))
            false
  replay_bytes_mismatch rs type key value crc rest s hs ht hk hv hc ne =
      let bad = header type (length key) (length value) ++ (key ++ (value ++ (crc ++ rest))) in
      let (fuel, q) = replay_bytes-append consumer rs s bad hs in
      q
      ∙ replay_loop_corrupt consumer fuel (foldl consumer s rs) bad
          (read_record_mismatch type key value crc rest ht hk hv hc ne)
