-- ===== src/Cli/Effects/Each.antt =====
-- What each command of the command line does to the map of the store, without faults of the disk.
use lsm_tree_key_value_store.Prelude.{
  ◌≤◌, refl, List, [], ◌++◌, Bytes, length, Bool-cases, inl, inr, ltb,
}
use lsm_tree_key_value_store.Prelude.Strings.{text, is_empty}
use lsm_tree_key_value_store.Types.{KeyValueEntry}
use lsm_tree_key_value_store.Disk.{reliable}
use lsm_tree_key_value_store.Wal.Replay.{max_key}
use lsm_tree_key_value_store.KvStore.Capacity.{HasCapacity}
use lsm_tree_key_value_store.KvStore.History.{
  writes, deletes, flushes, compacts, perform, effect, cost,
}
use lsm_tree_key_value_store.KvStore.History.Step.{Sound, perform-Performed}
use lsm_tree_key_value_store.Cli.Words.{trim, next_token, first_line}
use lsm_tree_key_value_store.Cli.Session.{Session, say, line_feed, active_sstables, joined}
use lsm_tree_key_value_store.Cli.Commands.{
  acknowledge, put_command, get_command, delete_command, flush_report, flush_done, flush_command,
  front_or_none, compact_done, compact_command,
}
use lsm_tree_key_value_store.Cli.Requests.{
  put_request, delete_request, writes-IsValid, deletes-IsValid,
}
use lsm_tree_key_value_store.Cli.Effects.{
  alone, Commanded, says, Performed-Commanded, Commanded-nil, get_command-view,
}

module _ (s : Session) (ess : List (List KeyValueEntry)) (h : Sound s.store s.disk ess) where
  pub put_command-Commanded :
      (stale rest : Bytes)
      → length rest ≤ max_key
      → HasCapacity 0 2 s.store ess
      → Commanded alone (put_command reliable stale rest s) s ess (put_request rest)
  put_command-Commanded stale rest fit c =
      let key = (next_token rest).0 in
      let val = trim (first_line (next_token rest).1) in
      elim (Bool-cases (is_empty key)) [
        | inl empty ↦ unfold put_command put_request in rw (empty) (says s ess h alone _ _ refl)
        | inr full ↦ elim (Bool-cases (is_empty val)) [
          | inl blank ↦
              unfold put_command put_request in rw (full, blank) (says s ess h alone _ _ refl)
          | inr given ↦
              unfold put_command put_request perform acknowledge in
              rw (full, given)
                (Performed-Commanded s ess h s _ (writes key val)
                  (perform-Performed s.store s.disk ess h stale (writes key val)
                    (writes-IsValid rest fit full) c)
                  (acknowledge (text "OK [WAL appended]\n")) (λ u. text "OK [WAL appended]\n")
                  (λ u. refl))
        ]
      ]

  pub delete_command-Commanded :
      (stale rest : Bytes)
      → length rest ≤ max_key
      → HasCapacity 0 2 s.store ess
      → Commanded alone (delete_command reliable stale rest s) s ess (delete_request rest)
  delete_command-Commanded stale rest fit c =
      let key = (next_token rest).0 in
      elim (Bool-cases (is_empty key)) [
        | inl empty ↦
            unfold delete_command delete_request in rw (empty) (says s ess h alone _ _ refl)
        | inr full ↦
            unfold delete_command delete_request perform acknowledge in
            rw (full) (
              Performed-Commanded s ess h s _ (deletes key)
                (perform-Performed s.store s.disk ess h stale (deletes key)
                  (deletes-IsValid rest fit full) c)
                (acknowledge (text "OK [TOMBSTONE written to WAL/MemTable]\n"))
                (λ u. text "OK [TOMBSTONE written to WAL/MemTable]\n") (λ u. refl))
      ]

  pub flush_command-Commanded :
      (stale db_path : Bytes)
      → HasCapacity 0 2 s.store ess
      → Commanded alone (flush_command reliable stale db_path s) s ess []
  unfolding flush_command flush_done cost effect perform
  flush_command-Commanded stale db_path c =
      let before = active_sstables reliable s.disk db_path in
      Commanded-nil s ess h _ flushes refl (λ m j. refl)
        (Performed-Commanded s ess h s _ flushes
          (perform-Performed s.store s.disk ess h stale flushes tt c)
          (flush_done reliable db_path before)
          (λ u. flush_report before (active_sstables reliable u.disk db_path)) (λ u. refl))

  pub compact_command-Commanded :
      (stale db_path : Bytes)
      → HasCapacity 0 2 s.store ess
      → Commanded alone (compact_command reliable stale db_path s) s ess []
  compact_command-Commanded stale db_path c =
      let before = active_sstables reliable s.disk db_path in
      elim (Bool-cases (ltb (length before) 2)) [
        | inl few ↦ unfold compact_command in rw (few) (says s ess h alone _ _ refl)
        | inr enough ↦
            unfold compact_command compact_done cost effect perform in
            rw (enough) (
              Commanded-nil s ess h _ compacts refl (λ m j. refl)
                (Performed-Commanded s ess h
                  (say (text "Compaction started\n" ++ (text "Input SSTables: " ++ joined before))
                    s)
                  _ compacts (perform-Performed s.store s.disk ess h stale compacts tt c)
                  (compact_done reliable db_path before)
                  (λ u.
                    text "Output SSTable: "
                    ++ (front_or_none (active_sstables reliable u.disk db_path)
                        ++ (line_feed
                            ++ (text "Old SSTables removed: "
                                ++ (joined before ++ text "Compaction complete\n")))))
                  (λ u. refl)))
      ]

  pub get_command-Commanded :
      (rest : Bytes) → Commanded alone (get_command reliable rest s) s ess []
  get_command-Commanded rest = elim (Bool-cases (is_empty (next_token rest).0)) [
    | inl empty ↦ unfold get_command in rw (empty) (says s ess h alone _ _ refl)
    | inr full ↦ says s ess h alone _ _ (get_command-view rest s ess h.represents full)
  ]
