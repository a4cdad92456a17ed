-- ===== src/Cli/Effects/Programs.antt =====
-- A run of the program on a path where nothing is, without faults of the disk.
use lsm_tree_key_value_store.Prelude.{
  ℕ, ◌+◌, ◌*◌, ◌≤◌, ◌<◌, ◌≡◌, refl, ap, ◌∙◌, sym, fun_ext, arith, false, Option, none, some, List,
  [], ◌∷◌, ◌++◌, Bytes, length, length-append, All, Bool-cases, inl, inr,
}
use lsm_tree_key_value_store.Prelude.Strings.{is_empty}
use lsm_tree_key_value_store.Status
use lsm_tree_key_value_store.Status.{Status}
use lsm_tree_key_value_store.Options.{default_options}
use lsm_tree_key_value_store.Disk.{Disk, reliable}
use lsm_tree_key_value_store.Wal.Replay.{max_key}
use lsm_tree_key_value_store.KvStore
use lsm_tree_key_value_store.KvStore.{KvStore}
use lsm_tree_key_value_store.KvStore.Names.{lines}
use lsm_tree_key_value_store.KvStore.Ops
use lsm_tree_key_value_store.KvStore.Ops.{after}
use lsm_tree_key_value_store.KvStore.Open.{open_store}
use lsm_tree_key_value_store.KvStore.Capacity.{capacity}
use lsm_tree_key_value_store.KvStore.Reading.{Shows, get-view}
use lsm_tree_key_value_store.KvStore.Recovery.{open_store-view}
use lsm_tree_key_value_store.KvStore.Creation.{
  IsVacant, new_store, new_disk, open_store-new, new-Represents, new-Lasting, view-new,
}
use lsm_tree_key_value_store.KvStore.History.{effects, costs}
use lsm_tree_key_value_store.KvStore.History.Step.{Sound}
use lsm_tree_key_value_store.KvStore.History.Database.{new-HasCapacity}
use lsm_tree_key_value_store.Cli.Words.{trim, next_token}
use lsm_tree_key_value_store.Cli.Session.{Session}
use lsm_tree_key_value_store.Cli.Program.{
  Outcome, banner, farewell, path_argument, opened, session_loop, main,
}
use lsm_tree_key_value_store.Cli.Requests.{
  requests_of, requests_of_all, is_exit, costs-requests_of, length-trim, length-next_token,
}
use lsm_tree_key_value_store.Cli.Effects.Sessions.{costs-append, session_loop-effects}

-- The bytes of the lines, and 13 for each.
weight : List Bytes → ℕ
weight [] = 0
weight (raw ∷ raws) = 13 + length raw + weight raws

costs_le-weight : (raws : List Bytes) → costs (requests_of_all raws) ≤ weight raws
unfolding requests_of_all weight
costs_le-weight [] = unfold costs in omega arith
costs_le-weight (raw ∷ raws) =
    let token = next_token (trim raw) in
    let more = costs_le-weight raws in
    elim (Bool-cases (is_exit token.0)) [
      | inl ending ↦ rw (ending) (unfold costs in omega arith)
      | inr going ↦ rw (going) (
          omega (
            arith,
            more,
            costs-append (requests_of token) (requests_of_all raws),
            costs-requests_of token.0 token.1,
            length-next_token (trim raw),
            length-trim raw,
          ))
    ]

weight-lines : (line bs : Bytes) → weight (lines line bs) ≤ 14 * (length line + length bs)
unfolding weight lines is_empty
weight-lines [] [] = omega arith
weight-lines (c ∷ cs) [] = omega arith
weight-lines line (c ∷ cs) =
    ground
      (arith, weight-lines [] cs, weight-lines (line ++ c ∷ []) cs, length-append line (c ∷ []))

length-lines : (line bs : Bytes) → length (lines line bs) ≤ length line + length bs
unfolding lines is_empty
length-lines [] [] = omega arith
length-lines (c ∷ cs) [] = omega arith
length-lines line (c ∷ cs) =
    ground
      (arith, length-lines [] cs, length-lines (line ++ c ∷ []) cs, length-append line (c ∷ []))

-- The program ends with exit status 0, and the database that it leaves can be opened again and answers
-- this at the key.
pub record Exited (run : Option Outcome) (db key : Bytes) (value : Option Bytes) : Type 0 where
  pub outcome : Outcome
  pub done : run ≡ some outcome
  pub success : outcome.code ≡ 0
  pub quiet : outcome.err ≡ []
  pub again : KvStore
  pub again_disk : Disk
  pub reopened :
      open_store reliable db (KvStore.init default_options) outcome.disk
      ≡ some (Status.ok, again, again_disk)
  pub answers : Shows value (Ops.get reliable again_disk key again)

main-opened :
    (stale input : Bytes) (args : List Bytes) (d d' : Disk) (store : KvStore) (s : Session)
    → open_store reliable (path_argument args) (KvStore.init default_options) d
      ≡ some (Status.ok, store, d')
    → session_loop reliable stale
        (path_argument args)
        (lines [] input)
        (record { store = store; disk = d'; out = banner (path_argument args) })
      ≡ some s
    → main reliable stale args input d ≡ some (farewell s)
unfolding main opened
main-opened stale input args d d' store s e f =
    let go : Option (Status × KvStore × Disk) → Option Outcome = λ found. elim found [
      | none ↦ none
      | some run ↦ opened reliable stale (path_argument args) input run
    ] in
    ap go e ∙ ap (after farewell) f

-- A run of the program on a path where nothing is, with lines no longer than a replay takes a key and at
-- most 153 million bytes of input: without faults of the disk it ends with exit status 0 and no message
-- on the error stream. The database can then be opened again, and a lookup of a key that is not empty
-- answers what the `PUT`s and `DELETE`s of the input make of an empty map, in their order, up to the
-- line that ends the session.
pub main-effects :
    (stale input : Bytes) (args : List Bytes) (d : Disk) (key : Bytes)
    → is_empty (path_argument args) ≡ false
    → IsVacant d (path_argument args)
    → All (λ line. length line ≤ max_key) (lines [] input)
    → 14 * length input < capacity
    → is_empty key ≡ false
    → Exited
        (main reliable stale args input d)
        (path_argument args)
        key
        (effects (requests_of_all (lines [] input)) (λ j. none) key)
main-effects stale input args d key ne v short size full =
    let db = path_argument args in
    let c = KvStore.init default_options in
    let ops = requests_of_all (lines [] input) in
    let h : Sound (new_store c db) (new_disk db d) [] = record {
      represents = new-Represents c d db;
      lasting = new-Lasting c d db ne v;
    } in
    let r =
      session_loop-effects stale db (lines [] input)
        (record { store = new_store c db; disk = new_disk db d; out = banner db }) [] h short
        (new-HasCapacity default_options db (costs ops) (2 * length (lines [] input)) (omega arith)
          (omega arith)
          (omega (arith, size, costs_le-weight (lines [] input), weight-lines [] input))
          (omega (arith, size, length-lines [] input))) in
    let (ns, rs, durable) = r.sound.lasting in
    let o =
      open_store-view r.next.store r.next.disk r.entries ns rs r.sound.represents durable c refl in
    record {
      outcome = farewell r.next;
      done = main-opened stale input args d _ _ r.next (open_store-new c d db refl ne v) r.done;
      success = unfold farewell in refl;
      quiet = unfold farewell in refl;
      again = o.after;
      again_disk = o.disk;
      reopened =
          unfold farewell in
          (ap (λ path. open_store reliable path c r.next.disk) (sym r.same_path) ∙ o.done);
      answers =
          rw⁻¹
            (o.same_view key
              ∙ r.same_view key
              ∙ ap (λ m. effects ops m key) (fun_ext (view-new c db)))
            (get-view o.disk key o.after r.entries o.represents full);
    }
