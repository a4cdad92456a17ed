-- ===== src/KvStore/History/Step.antt =====
-- One operation on a database that is open.
use lsm_tree_key_value_store.Prelude.{
  ◌<◌, ◌^◌, ℕ, ◌+◌, ◌≤◌, ◌≡◌, refl, ap, ◌∙◌, sym, arith, true, Option, some, List, [], Bytes,
  length, if◌then◌else◌,
}
use lsm_tree_key_value_store.Prelude.Strings.{text, string_eq}
use lsm_tree_key_value_store.Types.{RecordType, KeyValueEntry}
use lsm_tree_key_value_store.Status
use lsm_tree_key_value_store.Status.{Status}
use lsm_tree_key_value_store.Frame.{encode}
use lsm_tree_key_value_store.Frame.Layout.{Fits, length-encode}
use lsm_tree_key_value_store.Disk.{Disk, Os, reliable}
use lsm_tree_key_value_store.Wal.Replay.{WalRecord}
use lsm_tree_key_value_store.Wal.Replay.Recovery.{IsLogged}
use lsm_tree_key_value_store.KvStore
use lsm_tree_key_value_store.KvStore.{KvStore}
use lsm_tree_key_value_store.KvStore.Ops
use lsm_tree_key_value_store.KvStore.Flush.{flush_internal, compact_internal}
use lsm_tree_key_value_store.KvStore.View.{view, Represents}
use lsm_tree_key_value_store.KvStore.Volume.{Grown}
use lsm_tree_key_value_store.KvStore.Durable.{Lasting, Kept}
use lsm_tree_key_value_store.KvStore.Compacting.{compact_internal-Kept}
use lsm_tree_key_value_store.KvStore.Persisting.{flush_internal-Kept}
use lsm_tree_key_value_store.KvStore.Capacity.{
  HasCapacity, HasCapacity-IsSmall, HasCapacity-HasRoom,
}
use lsm_tree_key_value_store.KvStore.Mutation.{Updated, written, put-view, remove-view}
use lsm_tree_key_value_store.KvStore.Recovery.{open_store-view}
use lsm_tree_key_value_store.KvStore.History.{
  Op, writes, deletes, flushes, compacts, restarts, perform, effect, cost, IsValid,
}

-- An open store that stands for these entries, and that can be opened again.
pub record Sound (s : KvStore) (d : Disk) (ess : List (List KeyValueEntry)) : Type 0 where
  pub represents : Represents s d ess
  pub lasting : Lasting s d

-- An operation that ended with OK in a sound store, with this effect on its map.
pub record Performed (run : Option (Status × KvStore × Disk)) (s : KvStore)
    (ess : List (List KeyValueEntry)) (op : Op) : Type 0 where
  pub after : KvStore
  pub disk : Disk
  pub entries : List (List KeyValueEntry)
  pub done : run ≡ some (Status.ok, after, disk)
  pub sound : Sound after disk entries
  pub same_view : (j : Bytes) → view after entries j ≡ effect op (view s ess) j
  pub grown : Grown (cost op) 2 s ess after entries

length_le-encode :
    (r : WalRecord) (n : ℕ)
    → IsLogged r
    → n ≡ 13 + length r.key + length r.value
    → length (encode r.type r.key r.value) ≡ n
length_le-encode r n h e =
    let fits : Fits r.key r.value = record {
      key_fits = omega (arith, h.key_small);
      value_fits = omega (arith, h.value_small);
    } in
    length-encode r.type r.key r.value fits
    ∙ (ap (λ v. 13 + length r.key + length v) h.value_kept ∙ sym e)

flush-open :
    (os : Os) (stale : Bytes) (s : KvStore) (d : Disk)
    → s.is_open ≡ true
    → Ops.flush os stale s d ≡ flush_internal os stale s d
unfolding Ops.flush
flush-open os stale s d h =
    ap
      (λ b.
        if b
        then flush_internal os stale s d
        else some (Status.io_error (text "Database is not open"), s, d))
      h

compact-open :
    (os : Os) (stale : Bytes) (s : KvStore) (d : Disk)
    → s.is_open ≡ true
    → Ops.compact os stale s d ≡ compact_internal os stale s d
unfolding Ops.compact
compact-open os stale s d h =
    ap
      (λ b.
        if b
        then compact_internal os stale s d
        else some (Status.io_error (text "Database is not open"), s, d))
      h

module _ (s : KvStore) (d : Disk) (ess : List (List KeyValueEntry)) (h : Sound s d ess) where
  Updated-Performed :
      (run : Option (Status × KvStore × Disk)) (r : WalRecord) (op : Op)
      → Updated run s d ess r 2
      → IsLogged r
      → cost op ≡ 13 + length r.key + length r.value
      → ((j : Bytes)
          → effect op (view s ess) j ≡ (if string_eq r.key j then written r else view s ess j))
      → Performed run s ess op
  Updated-Performed run r op u fits price same = record {
    after = u.after;
    disk = u.disk;
    entries = u.entries;
    done = u.done;
    sound = record { represents = u.represents; lasting = u.lasting fits h.lasting };
    same_view = λ j. u.updated j ∙ sym (same j);
    grown = record {
      options = u.grown.options;
      same_path = u.grown.same_path;
      volume_le = omega (arith, u.grown.volume_le, length_le-encode r (cost op) fits price);
      numbers_le = u.grown.numbers_le;
    };
  }

  Kept-Performed :
      (run : Option (Status × KvStore × Disk)) (op : Op) (steps : ℕ)
      → Kept run s d ess steps
      → steps ≤ 2
      → cost op ≡ 0
      → ((j : Bytes) → effect op (view s ess) j ≡ view s ess j)
      → Performed run s ess op
  Kept-Performed run op steps k le free same = record {
    after = k.after;
    disk = k.disk;
    entries = k.entries;
    done = k.done;
    sound = record { represents = k.represents; lasting = k.lasting h.lasting };
    same_view = λ j. k.same_view j ∙ sym (same j);
    grown = record {
      options = k.grown.options;
      same_path = k.grown.same_path;
      volume_le = omega (arith, k.grown.volume_le, free);
      numbers_le = omega (arith, k.grown.numbers_le, le);
    };
  }

  perform_restarts :
      (stale : Bytes) → Performed (perform reliable stale restarts s d) s ess restarts
  unfolding perform effect cost
  perform_restarts stale =
      let (ns, rs, u) = h.lasting in
      let o = open_store-view s d ess ns rs h.represents u (KvStore.init s.options) refl in
      record {
        after = o.after;
        disk = o.disk;
        entries = ess;
        done = o.done;
        sound = record { represents = o.represents; lasting = o.lasting };
        same_view = o.same_view;
        grown = record {
          options = o.options;
          same_path = o.same_path;
          volume_le = omega (arith, o.volume_same);
          numbers_le = omega (arith, o.numbers_le);
        };
      }

  -- Each operation, in a store that has room for it.
  pub perform-Performed :
      (stale : Bytes) (op : Op)
      → IsValid op
      → HasCapacity 0 2 s ess
      → Performed (perform reliable stale op s d) s ess op
  unfolding perform effect cost
  perform-Performed stale (writes key value) (ne, fits) c =
      let fit : length key + length value < 2 ^ 32 =
        omega (arith, fits.key_small, fits.value_small) in
      Updated-Performed _ (record { type = RecordType.put; key = key; value = value })
        (writes key value)
        (put-view stale s d ess key value h.represents (HasCapacity-HasRoom s d ess h.represents c)
          ne fit)
        fits refl (λ j. refl)
  perform-Performed stale (deletes key) (ne, fits) c =
      Updated-Performed _ (record { type = RecordType.tombstone; key = key; value = [] })
        (deletes key)
        (remove-view stale s d ess key h.represents (HasCapacity-HasRoom s d ess h.represents c) ne
          (omega (arith, fits.key_small)))
        fits (omega arith) (λ j. refl)
  perform-Performed stale flushes v c = rw (flush-open reliable stale s d h.represents.is_open) (
      Kept-Performed _ flushes 2
        (flush_internal-Kept stale s d ess h.represents
          (HasCapacity-HasRoom s d ess h.represents c))
        (omega arith) refl (λ j. refl))
  perform-Performed stale compacts v c = rw (compact-open reliable stale s d h.represents.is_open) (
      Kept-Performed _ compacts 1
        (compact_internal-Kept stale s d ess h.represents
          (HasCapacity-IsSmall s d ess h.represents c) (omega (arith, c.numbers_fit)))
        (omega arith) refl (λ j. refl))
  perform-Performed stale restarts v c = perform_restarts stale
