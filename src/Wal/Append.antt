-- ===== src/Wal/Append.antt =====
-- What an append leaves in the log, and what a replay then reads.
use lsm_tree_key_value_store.Prelude.{
  ◌≡◌, ap, ◌∙◌, sym, true, false, some, List, [], ◌∷◌, ◌++◌, Bytes, All, append_assoc, append-nil,
}
use lsm_tree_key_value_store.Types.{RecordType}
use lsm_tree_key_value_store.Types.Crc32.{crc32}
use lsm_tree_key_value_store.Codec.{encode32}
use lsm_tree_key_value_store.Status
use lsm_tree_key_value_store.Status.{Status}
use lsm_tree_key_value_store.Frame.{payload, encode}
use lsm_tree_key_value_store.Disk.{Disk, Os, reliable, set_file, contents}
use lsm_tree_key_value_store.Disk.Laws.{write-write, contents-set_file_self}
use lsm_tree_key_value_store.Wal.{Wal, append_record}
use lsm_tree_key_value_store.Wal.Replay.{WalRecord, replay_bytes, push_back}
use lsm_tree_key_value_store.Wal.Replay.Recovery.{
  encode_log, IsLogged, replay_bytes-encode_log, ended,
}
use mathlib.Core.List.{foldl}

foldl-push_back : (out rs : List WalRecord) → foldl push_back out rs ≡ out ++ rs
foldl-push_back out [] = sym (append-nil out)
foldl-push_back out (r ∷ rs) = foldl-push_back (out ++ r ∷ []) rs ∙ append_assoc out (r ∷ []) rs

-- The log is open and its stream has not failed.
pub record IsOpen (w : Wal) : Type 0 where
  pub open_now : w.is_open ≡ true
  pub good_now : w.good ≡ true

-- An append to an open log adds exactly the record's bytes to the end of its file.
pub append_record-reliable :
    (type : RecordType) (key value : Bytes) (w : Wal) (d : Disk)
    → IsOpen w
    → append_record reliable type key value w d ≡ (
      Status.ok,
      w,
      set_file w.filepath (some (contents d w.filepath ++ encode type key value)) d,
    )
unfolding append_record encode
append_record-reliable type key value w d h =
    rw
      (
        h.open_now,
        h.good_now,
        write-write (payload type key value) (encode32 (crc32 (payload type key value))) w.filepath
            d,
      )
      (simp append_assoc)

-- The disk after these records have been appended, each in a call of its own.
pub append_all : Os → List WalRecord → Wal → Disk → Disk
append_all os [] w d = d
append_all os (r ∷ rs) w d =
    let (status, w', d') = append_record os r.type r.key r.value w d in append_all os rs w' d'

contents-append_all :
    (rs : List WalRecord) (w : Wal) (d : Disk)
    → IsOpen w
    → contents (append_all reliable rs w d) w.filepath ≡ contents d w.filepath ++ encode_log rs
unfolding append_all encode_log
contents-append_all [] w d h = sym (append-nil (contents d w.filepath))
contents-append_all (r ∷ rs) w d h =
    let bytes = encode r.type r.key r.value in
    let d' = set_file w.filepath (some (contents d w.filepath ++ bytes)) d in
    rw (append_record-reliable r.type r.key r.value w d h) (
      contents-append_all rs w d' h
      ∙ ap (λ t. t ++ encode_log rs) (contents-set_file_self w.filepath _ d)
      ∙ append_assoc (contents d w.filepath) bytes (encode_log rs))

-- Records with keys of at most 16 MiB and values of at most 64 MiB that are appended one by one to an
-- empty open log, without faults of the disk, are what a replay of its file then collects, in their
-- order and with the status OK.
pub replay-append_all :
    (rs : List WalRecord) (w : Wal) (d : Disk)
    → IsOpen w
    → contents d w.filepath ≡ []
    → All IsLogged rs
    → replay_bytes push_back [] (contents (append_all reliable rs w d) w.filepath)
      ≡ ended push_back rs Status.ok false
replay-append_all rs w d h e hs =
    rw (contents-append_all rs w d h, e)
      (replay_bytes-encode_log push_back rs [] hs
        ∙ ap (λ out. ended push_back out Status.ok false) (foldl-push_back [] rs))
