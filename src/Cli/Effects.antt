-- ===== src/Cli/Effects.antt =====
-- What the commands do to the map of the store, without faults of the disk.
pub mod Each
pub mod Loop
pub mod Sessions
pub mod Programs
use lsm_tree_key_value_store.Prelude.{
  ℕ, ◌+◌, ◌≤◌, ◌≡◌, refl, ap, ◌∙◌, sym, arith, Bool, true, false, ◌||◌, Option, none, some, List,
  [], ◌∷◌, ◌++◌, Bytes, length, All, Bool-cases, inl, inr, ltb, if◌then◌else◌,
}
use lsm_tree_key_value_store.Prelude.Strings.{text, string_eq, is_empty, string_eq→eq}
use lsm_tree_key_value_store.Types.{KeyValueEntry}
use lsm_tree_key_value_store.Status
use lsm_tree_key_value_store.Status.{Status}
use lsm_tree_key_value_store.Result.{Result}
use lsm_tree_key_value_store.Disk.{Disk, reliable}
use lsm_tree_key_value_store.Wal.Replay.{max_key}
use lsm_tree_key_value_store.KvStore
use lsm_tree_key_value_store.KvStore.{KvStore}
use lsm_tree_key_value_store.KvStore.Ops.{put, remove, get, flush, compact, after}
use lsm_tree_key_value_store.KvStore.View.{view, Represents}
use lsm_tree_key_value_store.KvStore.Reading.{Shows, get-view}
use lsm_tree_key_value_store.KvStore.Volume.{Grown, Grown-refl}
use lsm_tree_key_value_store.KvStore.Capacity.{HasCapacity}
use lsm_tree_key_value_store.KvStore.History.{
  Op, writes, deletes, flushes, compacts, restarts, perform, effect, effects, cost, costs, IsValid,
}
use lsm_tree_key_value_store.KvStore.History.Step.{Sound, Performed, perform-Performed}
use lsm_tree_key_value_store.Cli.Words.{trim, to_upper, next_token, first_line}
use lsm_tree_key_value_store.Cli.Session.{
  Session, say, say_error, line_feed, active_sstables, joined,
}
use lsm_tree_key_value_store.Cli.Commands.{
  moved, acknowledge, put_command, show_result, get_command, delete_command, flush_report,
  flush_done, flush_command, front_or_none, compact_done, compact_command, stats_command, help_text,
}
use lsm_tree_key_value_store.Cli.Program.{Turn, goes_on, ends, dispatch, round}
use lsm_tree_key_value_store.Cli.Requests.{
  put_request, delete_request, requests_of, is_exit, writes-IsValid, deletes-IsValid,
}

-- What `GET` prints where a lookup answers this.
unfoldable pub printed : Option Bytes → Bytes
printed none = text "NOT_FOUND\n"
printed (some value) = value ++ line_feed

show_result-printed :
    (found : Option Bytes) (r : Option Result) (s : Session)
    → Shows found r
    → after (λ answer. show_result answer s) r ≡ some (say (printed found) s)
unfolding show_result printed
show_result-printed none r s (msg, h) = rw (h) refl
show_result-printed (some value) r s h = rw (h) refl

-- `GET` with a key, in an open store, without faults of the disk: it prints the value that the map has at
-- the key and a line feed, or that there is none, and leaves the store and the disk as they are.
pub get_command-view :
    (rest : Bytes) (s : Session) (ess : List (List KeyValueEntry))
    → Represents s.store s.disk ess
    → is_empty (next_token rest).0 ≡ false
    → get_command reliable rest s ≡ some (say (printed (view s.store ess (next_token rest).0)) s)
unfolding get_command
get_command-view rest s ess h ne = rw (ne) (
    show_result-printed (view s.store ess (next_token rest).0) _ s
      (get-view s.disk (next_token rest).0 s.store ess h ne))

-- A command that ended in a session whose store is sound, with the effect of these changes on its map.
pub record Commanded {ℓ} {A : Type ℓ} (wrap : Session → A) (run : Option A) (s : Session)
    (ess : List (List KeyValueEntry)) (ops : List Op) : Type ℓ where
  pub next : Session
  pub entries : List (List KeyValueEntry)
  pub done : run ≡ some (wrap next)
  pub sound : Sound next.store next.disk entries
  pub same_view : (j : Bytes) → view next.store entries j ≡ effects ops (view s.store ess) j
  pub grown : Grown (costs ops) 2 s.store ess next.store entries

-- The session itself.
abbrev pub alone : Session → Session
alone s = s

module _ (s : Session) (ess : List (List KeyValueEntry)) (h : Sound s.store s.disk ess) where
  -- A command that only prints.
  pub says {ℓ} :
      {A : Type ℓ} (wrap : Session → A) (run : Option A) (bytes : Bytes)
      → run ≡ some (wrap (say bytes s))
      → Commanded wrap run s ess []
  unfolding effects costs
  says wrap run bytes e = record {
    next = say bytes s;
    entries = ess;
    done = e;
    sound = h;
    same_view = λ j. refl;
    grown = Grown-refl 2 s.store ess;
  }

  -- An operation of the store, and what is printed after it.
  pub Performed-Commanded :
      (t : Session) (run : Option (Status × KvStore × Disk)) (op : Op)
      → Performed run s.store ess op
      → (finish : Status × Session → Session) (shows : Session → Bytes)
      → ((u : Session) → finish (Status.ok, u) ≡ say (shows u) u)
      → Commanded alone (after (λ r. finish (moved t r)) run) s ess (op ∷ [])
  unfolding effects costs
  Performed-Commanded t run op p finish shows same =
      let u : Session = record t { store = p.after; disk = p.disk } in
      record {
        next = say (shows u) u;
        entries = p.entries;
        done = rw (p.done) (ap (λ v. some v) (same u));
        sound = p.sound;
        same_view = p.same_view;
        grown = record {
          options = p.grown.options;
          same_path = p.grown.same_path;
          volume_le = omega (arith, p.grown.volume_le);
          numbers_le = p.grown.numbers_le;
        };
      }

  -- An operation that leaves the map as it is asks for no change.
  pub Commanded-nil :
      (run : Option Session) (op : Op)
      → cost op ≡ 0
      → ((m : Bytes → Option Bytes) (j : Bytes) → effect op m j ≡ m j)
      → Commanded alone run s ess (op ∷ [])
      → Commanded alone run s ess []
  unfolding effects costs
  Commanded-nil run op free same c = record {
    next = c.next;
    entries = c.entries;
    done = c.done;
    sound = c.sound;
    same_view = λ j. c.same_view j ∙ same (view s.store ess) j;
    grown = record {
      options = c.grown.options;
      same_path = c.grown.same_path;
      volume_le = omega (arith, c.grown.volume_le, free);
      numbers_le = c.grown.numbers_le;
    };
  }
