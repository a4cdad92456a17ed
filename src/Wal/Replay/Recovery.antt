-- ===== src/Wal/Replay/Recovery.antt =====
-- Every replay ends, and reads back the records that were written, in order.
use lsm_tree_key_value_store.Prelude.{
  ℕ, zero, suc, ◌-◌, ◌<◌, ◌≤◌, ◌≡◌, refl, ap, ◌∙◌, arith, Option, some, List, [], ◌∷◌, ◌++◌, Bytes,
  Bool, true, false, length, All, append_assoc, append-nil,
}
use mathlib.Core.List.{foldl}
use lsm_tree_key_value_store.Status
use lsm_tree_key_value_store.Status.{Status}
use lsm_tree_key_value_store.Frame.{encode}
use lsm_tree_key_value_store.Frame.Layout.{kept_value}
use lsm_tree_key_value_store.Wal.Replay.{
  WalRecord, Round, eof, truncated, corrupt, record_read, read_record, Replay, replay_loop,
  replay_bytes, max_key, max_value,
}
use lsm_tree_key_value_store.Wal.Replay.Steps.{read_record-shorter, read_record-encode}
use lsm_tree_key_value_store.Types.Codes.{is_logged}

-- A record that `append_record` writes and that a replay accepts.
pub record IsLogged (r : WalRecord) : Type 0 where
  pub type_logged : is_logged r.type ≡ true
  pub key_small : length r.key ≤ max_key
  pub value_small : length r.value ≤ max_value
  pub value_kept : kept_value r.type r.value ≡ r.value

-- The bytes of a log of these records.
unfoldable pub encode_log : List WalRecord → Bytes
encode_log [] = []
encode_log (r ∷ rs) = encode r.type r.key r.value ++ encode_log rs

read_record-nil : read_record [] ≡ eof
unfolding read_record
read_record-nil = refl

encode_log-cons :
    (r : WalRecord) (rs : List WalRecord) (rest : Bytes)
    → encode_log (r ∷ rs) ++ rest ≡ encode r.type r.key r.value ++ (encode_log rs ++ rest)
unfolding encode_log
encode_log-cons r rs rest = append_assoc (encode r.type r.key r.value) (encode_log rs) rest

pub read_record-IsLogged :
    (r : WalRecord) (rest : Bytes)
    → IsLogged r
    → read_record (encode r.type r.key r.value ++ rest) ≡ record_read r rest
read_record-IsLogged r rest h =
    read_record-encode r.type r.key r.value rest h.type_logged h.key_small h.value_small
    ∙ ap (λ v. record_read (record r { value = v }) rest) h.value_kept

module _ {S : Type 0} (consumer : S → WalRecord → S) where
  abbrev pub ended : S → Status → Bool → Option (Replay S)
  ended s status flag = some (record { status = status; state = s; had_truncation = flag })

  -- What one round of the loop makes of what it has read.
  pub replay_loop_eof :
      (fuel : ℕ) (s : S) (bs : Bytes)
      → read_record bs ≡ eof
      → replay_loop consumer (suc fuel) s bs ≡ ended s Status.ok false
  unfolding replay_loop
  replay_loop_eof fuel s bs e = rw (e, replay_loop)

  pub replay_loop_truncated :
      (fuel : ℕ) (s : S) (bs : Bytes) {msg : Bytes}
      → read_record bs ≡ truncated msg
      → replay_loop consumer (suc fuel) s bs ≡ ended s (Status.corruption msg) true
  unfolding replay_loop
  replay_loop_truncated fuel s bs e = rw (e, replay_loop)

  pub replay_loop_corrupt :
      (fuel : ℕ) (s : S) (bs : Bytes) {msg : Bytes}
      → read_record bs ≡ corrupt msg
      → replay_loop consumer (suc fuel) s bs ≡ ended s (Status.corruption msg) false
  unfolding replay_loop
  replay_loop_corrupt fuel s bs e = rw (e, replay_loop)

  pub replay_loop_record :
      (fuel : ℕ) (s : S) (bs : Bytes) {rec : WalRecord} {rest : Bytes}
      → read_record bs ≡ record_read rec rest
      → replay_loop consumer (suc fuel) s bs ≡ replay_loop consumer fuel (consumer s rec) rest
  unfolding replay_loop
  replay_loop_record fuel s bs e = rw (e, replay_loop)

  -- With more fuel than bytes the loop ends.
  replay_loop_total :
      (fuel : ℕ) (s : S) (bs : Bytes)
      → length bs < fuel
      → (r : Replay S) × (replay_loop consumer fuel s bs ≡ some r)
  replay_loop_total zero s bs h = absurd (omega arith)
  replay_loop_total (suc fuel) s bs h = go (read_record bs) refl (λ rec rest e.
      replay_loop_total fuel (consumer s rec) rest (omega (arith, read_record-shorter bs e)))
    where
      go :
          (r : Round)
          → read_record bs ≡ r
          → ((rec : WalRecord) (rest : Bytes)
              → read_record bs ≡ record_read rec rest
              → (r : Replay S) × (replay_loop consumer fuel (consumer s rec) rest ≡ some r))
          → (r : Replay S) × (replay_loop consumer (suc fuel) s bs ≡ some r)
      go eof e ih = (_, replay_loop_eof fuel s bs e)
      go (truncated m) e ih = (_, replay_loop_truncated fuel s bs e)
      go (corrupt m) e ih = (_, replay_loop_corrupt fuel s bs e)
      go (record_read rec rest) e ih =
          let (r, q) = ih rec rest e in (r, replay_loop_record fuel s bs e ∙ q)

  -- A replay of any bytes ends: its fuel suffices.
  pub replay_bytes_total :
      (s : S) (bs : Bytes) → (r : Replay S) × (replay_bytes consumer s bs ≡ some r)
  unfolding replay_bytes
  replay_bytes_total s bs = replay_loop_total (suc (length bs)) s bs (omega arith)

  -- The loop consumes the records of a log, and goes on with what follows them.
  replay_loop-encode_log :
      (rs : List WalRecord) (fuel : ℕ) (s : S) (rest : Bytes)
      → All IsLogged rs
      → length (encode_log rs ++ rest) < fuel
      → (more : ℕ) × (length rest < more)
        × (replay_loop consumer fuel s (encode_log rs ++ rest)
            ≡ replay_loop consumer more (foldl consumer s rs) rest)
  replay_loop-encode_log [] fuel s rest h lt = unfold encode_log in (fuel, lt, refl)
  replay_loop-encode_log (r ∷ rs) zero s rest h lt = absurd (omega arith)
  replay_loop-encode_log (r ∷ rs) (suc fuel) s rest h lt =
      let e = read_record-IsLogged r (encode_log rs ++ rest) h.0 in
      let (more, p, q) = replay_loop-encode_log rs fuel (consumer s r) rest h.1 (
        omega (
          arith,
          read_record-shorter (encode r.type r.key r.value ++ (encode_log rs ++ rest)) e,
          rw encode_log-cons at lt,
        )) in
      (more, p, rw encode_log-cons (replay_loop_record fuel s _ e) ∙ q)

  -- A replay consumes the records at the front of a log, and has fuel for a round after them.
  pub replay_bytes-append :
      (rs : List WalRecord) (s : S) (rest : Bytes)
      → All IsLogged rs
      → (fuel : ℕ) × (replay_bytes consumer s (encode_log rs ++ rest)
          ≡ replay_loop consumer (suc fuel) (foldl consumer s rs) rest)
  unfolding replay_bytes
  replay_bytes-append rs s rest h =
      let (more, lt, q) =
        replay_loop-encode_log rs (suc (length (encode_log rs ++ rest))) s rest h (omega arith) in
      let e : more ≡ suc (more - 1) = omega arith in
      (more - 1, q ∙ ap (λ f. replay_loop consumer f (foldl consumer s rs) rest) e)

  -- A replay of the log of these records ends with OK, and has consumed them in their order.
  pub replay_bytes-encode_log :
      (rs : List WalRecord) (s : S)
      → All IsLogged rs
      → replay_bytes consumer s (encode_log rs) ≡ ended (foldl consumer s rs) Status.ok false
  replay_bytes-encode_log rs s h =
      let (fuel, q) = replay_bytes-append rs s [] h in
      rw append-nil at q ∙ replay_loop_eof fuel (foldl consumer s rs) [] read_record-nil
