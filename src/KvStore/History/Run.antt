-- ===== src/KvStore/History/Run.antt =====
-- A database answers as a map does, whatever is done to it.
use lsm_tree_key_value_store.Prelude.{
  ℕ, ◌+◌, ◌*◌, ◌≡◌, refl, ap, ◌∙◌, fun_ext, arith, Option, some, List, [], ◌∷◌, Bytes, length, All,
}
use lsm_tree_key_value_store.Types.{KeyValueEntry}
use lsm_tree_key_value_store.Status
use lsm_tree_key_value_store.Status.{Status}
use lsm_tree_key_value_store.Options.{Options}
use lsm_tree_key_value_store.Disk.{Disk, reliable}
use lsm_tree_key_value_store.KvStore.{KvStore}
use lsm_tree_key_value_store.KvStore.View.{view}
use lsm_tree_key_value_store.KvStore.Volume.{Grown}
use lsm_tree_key_value_store.KvStore.Capacity.{HasCapacity}
use lsm_tree_key_value_store.KvStore.History.{
  Op, perform, perform_all, effects, cost, costs, IsValid,
}
use lsm_tree_key_value_store.KvStore.History.Step.{Sound, perform-Performed}

-- A history that ended with OK in a sound store whose map is what the operations make of the first map.
pub record Replayed (run : Option (Status × KvStore × Disk)) (m : Bytes → Option Bytes)
    : Type 0 where
  pub after : KvStore
  pub disk : Disk
  pub entries : List (List KeyValueEntry)
  pub done : run ≡ some (Status.ok, after, disk)
  pub sound : Sound after disk entries
  pub same_view : (j : Bytes) → view after entries j ≡ m j

pub capacity-after :
    (b more steps : ℕ) (s s' : KvStore) (ess ess' : List (List KeyValueEntry))
    → HasCapacity (b + more) (2 + steps) s ess
    → Grown b 2 s ess s' ess'
    → HasCapacity more steps s' ess'
capacity-after b more steps s s' ess ess' c g = record {
  interval_pos =
      omega (arith, c.interval_pos, ap (λ (o : Options). o.sparse_index_interval) g.options);
  bits_le = omega (arith, c.bits_le, ap (λ (o : Options). o.bloom_bits_per_key) g.options);
  bytes_fit = omega (arith, c.bytes_fit, g.volume_le);
  numbers_fit = omega (arith, c.numbers_fit, g.numbers_le);
}

perform_all_step :
    (stale : Bytes) (op : Op) (ops : List Op) (s : KvStore) (d : Disk) (s' : KvStore) (d' : Disk)
    → perform reliable stale op s d ≡ some (Status.ok, s', d')
    → perform_all reliable stale (op ∷ ops) s d ≡ perform_all reliable stale ops s' d'
unfolding perform_all
perform_all_step stale op ops s d s' d' e = rw (e, perform_all) refl

-- Any writes and deletions, of keys that are not empty, with keys of at most 16 MiB and values of at
-- most 64 MiB, flushes, compactions and new processes, on an open store whose files are enough to open
-- it, with an interval of the sparse index that is not 0, at most 64 bits of the filter for a key,
-- less than 2 GiB of records with those to come, and two numbers of tables for each operation: without
-- faults of the disk all end with OK, in such a store. Its map is the first one with the effects of
-- the operations, in their order: a write and a deletion change it at their key, a flush, a compaction
-- and a new process not at all.
pub perform_all-effects :
    (stale : Bytes) (ops : List Op) (s : KvStore) (d : Disk) (ess : List (List KeyValueEntry))
    → Sound s d ess
    → All IsValid ops
    → HasCapacity (costs ops) (2 * length ops) s ess
    → Replayed (perform_all reliable stale ops s d) (effects ops (view s ess))
unfolding effects costs
perform_all-effects stale [] s d ess h v c = record {
  after = s;
  disk = d;
  entries = ess;
  done = unfold perform_all in refl;
  sound = h;
  same_view = λ j. refl;
}
perform_all-effects stale (op ∷ ops) s d ess h (valid, v) c =
    let room : HasCapacity 0 2 s ess = record {
      interval_pos = c.interval_pos;
      bits_le = c.bits_le;
      bytes_fit = omega (arith, c.bytes_fit);
      numbers_fit = omega (arith, c.numbers_fit);
    } in
    let p = perform-Performed s d ess h stale op valid room in
    let more : HasCapacity (cost op + costs ops) (2 + 2 * length ops) s ess = record {
      interval_pos = c.interval_pos;
      bits_le = c.bits_le;
      bytes_fit = omega (arith, c.bytes_fit);
      numbers_fit = omega (arith, c.numbers_fit);
    } in
    let r = perform_all-effects stale ops p.after p.disk p.entries p.sound v (
      capacity-after (cost op) (costs ops) (2 * length ops) s p.after ess p.entries more p.grown) in
    record {
      after = r.after;
      disk = r.disk;
      entries = r.entries;
      done = perform_all_step stale op ops s d p.after p.disk p.done ∙ r.done;
      sound = r.sound;
      same_view = λ j. r.same_view j ∙ ap (λ m. effects ops m j) (fun_ext p.same_view);
    }
