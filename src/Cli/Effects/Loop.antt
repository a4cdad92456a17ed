-- ===== src/Cli/Effects/Loop.antt =====
-- What the lines of a session do to the map of the store, without faults of the disk.
use lsm_tree_key_value_store.Prelude.{
  ◌≤◌, ◌≡◌, refl, true, false, Option, some, List, [], Bytes, length, Bool-cases, inl, inr,
}
use lsm_tree_key_value_store.Prelude.Strings.{text, string_eq, string_eq→eq}
use lsm_tree_key_value_store.Types.{KeyValueEntry}
use lsm_tree_key_value_store.Disk.{reliable}
use lsm_tree_key_value_store.Wal.Replay.{max_key}
use lsm_tree_key_value_store.KvStore.Ops.{after}
use lsm_tree_key_value_store.KvStore.Capacity.{HasCapacity}
use lsm_tree_key_value_store.KvStore.History.{Op}
use lsm_tree_key_value_store.KvStore.History.Step.{Sound}
use lsm_tree_key_value_store.Cli.Words.{to_upper}
use lsm_tree_key_value_store.Cli.Session.{Session}
use lsm_tree_key_value_store.Cli.Commands.{stats_command}
use lsm_tree_key_value_store.Cli.Program.{goes_on, ends, dispatch}
use lsm_tree_key_value_store.Cli.Requests.{requests_of, is_exit}
use lsm_tree_key_value_store.Cli.Effects.{alone, Commanded, says}
use lsm_tree_key_value_store.Cli.Effects.Each.{
  put_command-Commanded, delete_command-Commanded, flush_command-Commanded,
  compact_command-Commanded, get_command-Commanded,
}

-- A word is no other word.
other_word : (u a b : Bytes) → string_eq u a ≡ true → string_eq a b ≡ false → string_eq u b ≡ false
other_word u a b e ne = rw (string_eq→eq u a e) ne

after-goes_on :
    (run : Option Session) (s : Session) (ess : List (List KeyValueEntry)) (ops : List Op)
    → Commanded alone run s ess ops
    → Commanded goes_on (after goes_on run) s ess ops
after-goes_on run s ess ops c = record {
  next = c.next;
  entries = c.entries;
  done = rw (c.done) refl;
  sound = c.sound;
  same_view = c.same_view;
  grown = c.grown;
}

pub dispatch-exit :
    (stale db_path cmd rest : Bytes) (s : Session)
    → is_exit cmd ≡ true
    → dispatch reliable stale db_path (cmd, rest) s ≡ some (ends s)
unfolding dispatch is_exit
dispatch-exit stale db_path cmd rest s h = rw (h) refl

module _ (stale db_path : Bytes) (s : Session) (ess : List (List KeyValueEntry))
    (h : Sound s.store s.disk ess) where
  -- The words that ask for no change.
  module _ (cmd rest : Bytes) (go : is_exit cmd ≡ false)
      (not_put : string_eq (to_upper cmd) (text "PUT") ≡ false)
      (not_delete : string_eq (to_upper cmd) (text "DELETE") ≡ false)
      (c : HasCapacity 0 2 s.store ess) where
    other-Commanded :
        string_eq (to_upper cmd) (text "HELP") ≡ false
        → string_eq (to_upper cmd) (text "GET") ≡ false
        → Commanded goes_on (dispatch reliable stale db_path (cmd, rest) s) s ess []
    other-Commanded not_help not_get =
        let u = to_upper cmd in
        elim (Bool-cases (string_eq u (text "FLUSH"))) [
          | inl flushes ↦
              unfold dispatch is_exit in
              rw (go, not_help, not_put, not_get, not_delete, flushes)
                (after-goes_on _ s ess _ (flush_command-Commanded s ess h stale db_path c))
          | inr not_flush ↦ elim (Bool-cases (string_eq u (text "COMPACT"))) [
            | inl compacts ↦
                unfold dispatch is_exit in
                rw (go, not_help, not_put, not_get, not_delete, not_flush, compacts)
                  (after-goes_on _ s ess _ (compact_command-Commanded s ess h stale db_path c))
            | inr not_compact ↦ elim (Bool-cases (string_eq u (text "STATS"))) [
              | inl stats ↦
                  unfold dispatch is_exit stats_command in
                  rw (go, not_help, not_put, not_get, not_delete, not_flush, not_compact, stats)
                    (says s ess h goes_on _ _ refl)
              | inr unknown ↦
                  unfold dispatch is_exit in
                  rw (go, not_help, not_put, not_get, not_delete, not_flush, not_compact, unknown)
                    (says s ess h goes_on _ _ refl)
            ]
          ]
        ]

    quiet-Commanded : Commanded goes_on (dispatch reliable stale db_path (cmd, rest) s) s ess []
    quiet-Commanded =
        let u = to_upper cmd in
        elim (Bool-cases (string_eq u (text "HELP"))) [
          | inl help ↦ unfold dispatch is_exit in rw (go, help) (says s ess h goes_on _ _ refl)
          | inr not_help ↦ elim (Bool-cases (string_eq u (text "GET"))) [
            | inl gets ↦
                unfold dispatch is_exit in
                rw (go, not_help, not_put, gets)
                  (after-goes_on _ s ess _ (get_command-Commanded s ess h rest))
            | inr not_get ↦ other-Commanded not_help not_get
          ]
        ]

  pub dispatch-Commanded :
      (cmd rest : Bytes)
      → is_exit cmd ≡ false
      → length rest ≤ max_key
      → HasCapacity 0 2 s.store ess
      → Commanded goes_on
          (dispatch reliable stale db_path (cmd, rest) s)
          s
          ess
          (requests_of (cmd, rest))
  dispatch-Commanded cmd rest go fit c =
      let u = to_upper cmd in
      elim (Bool-cases (string_eq u (text "PUT"))) [
        | inl puts ↦
            let not_help =
              other_word u (text "PUT") (text "HELP") puts (unfold text string_eq in refl) in
            unfold dispatch is_exit requests_of in
            rw (go, not_help, puts)
              (after-goes_on _ s ess _ (put_command-Commanded s ess h stale rest fit c))
        | inr not_put ↦ elim (Bool-cases (string_eq u (text "DELETE"))) [
          | inl deletes ↦
              let not_help =
                other_word u (text "DELETE") (text "HELP") deletes
                  (unfold text string_eq in refl) in
              let not_get =
                other_word u (text "DELETE") (text "GET") deletes (unfold text string_eq in refl) in
              unfold dispatch is_exit requests_of in
              rw (go, not_help, not_put, not_get, deletes)
                (after-goes_on _ s ess _ (delete_command-Commanded s ess h stale rest fit c))
          | inr not_delete ↦
              unfold requests_of in
              rw (not_put, not_delete) (quiet-Commanded cmd rest go not_put not_delete c)
        ]
      ]
