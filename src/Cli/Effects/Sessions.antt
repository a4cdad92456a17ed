-- ===== src/Cli/Effects/Sessions.antt =====
-- What a whole session does to the map of the store, without faults of the disk.
use lsm_tree_key_value_store.Prelude.{
  ◌+◌, ◌*◌, ◌≤◌, ◌≡◌, refl, ap, ◌∙◌, sym, fun_ext, arith, true, false, Option, some, List, [], ◌∷◌,
  ◌++◌, Bytes, length, All, Bool-cases, inl, inr,
}
use lsm_tree_key_value_store.Prelude.Strings.{text, string_eq, is_empty}
use lsm_tree_key_value_store.Types.{KeyValueEntry}
use lsm_tree_key_value_store.Disk.{reliable}
use lsm_tree_key_value_store.Wal.Replay.{max_key}
use lsm_tree_key_value_store.KvStore.View.{view}
use lsm_tree_key_value_store.KvStore.Volume.{Grown-refl}
use lsm_tree_key_value_store.KvStore.Capacity.{HasCapacity}
use lsm_tree_key_value_store.KvStore.History.{Op, effects, costs}
use lsm_tree_key_value_store.KvStore.History.Step.{Sound}
use lsm_tree_key_value_store.KvStore.History.Run.{capacity-after}
use lsm_tree_key_value_store.Cli.Words.{trim, to_upper, next_token, skip_space, word}
use lsm_tree_key_value_store.Cli.Session.{Session, say}
use lsm_tree_key_value_store.Cli.Program.{Turn, goes_on, ends, round, session_loop}
use lsm_tree_key_value_store.Cli.Requests.{
  requests_of, is_exit, requests_of_all, length-trim, length-next_token,
}
use lsm_tree_key_value_store.Cli.Effects.{Commanded}
use lsm_tree_key_value_store.Cli.Effects.Loop.{dispatch-exit, dispatch-Commanded}

is_empty→nil : (bs : Bytes) → is_empty bs ≡ true → bs ≡ []
unfolding is_empty
is_empty→nil [] h = refl
is_empty→nil (x ∷ xs) h = cc

pub costs-append : (ops rest : List Op) → costs (ops ++ rest) ≡ costs ops + costs rest
unfolding costs
costs-append [] rest = omega arith
costs-append (op ∷ ops) rest = omega (arith, costs-append ops rest)

effects-append :
    (ops rest : List Op) (m : Bytes → Option Bytes)
    → effects (ops ++ rest) m ≡ effects rest (effects ops m)
unfolding effects
effects-append [] rest m = refl
effects-append (op ∷ ops) rest m = effects-append ops rest _

-- A line that is blank asks for nothing, and does not end the session.
blank-quiet : requests_of (next_token []) ≡ []
unfolding next_token skip_space word requests_of to_upper string_eq text
blank-quiet = refl

blank-stays : is_exit (next_token []).0 ≡ false
unfolding next_token skip_space word is_exit to_upper string_eq text
blank-stays = refl

round-exit :
    (stale db_path raw : Bytes) (s : Session)
    → is_exit (next_token (trim raw)).0 ≡ true
    → round reliable stale db_path raw s ≡ some (ends s)
round-exit stale db_path raw s h = elim (Bool-cases (is_empty (trim raw))) [
  | inl blank ↦
      cc (blank-stays, h, ap (λ line. is_exit (next_token line).0) (is_empty→nil (trim raw) blank))
  | inr full ↦ unfold round in rw (full) (dispatch-exit stale db_path _ _ s h)
]

-- A session that is left as it is.
stays :
    (s : Session) (ess : List (List KeyValueEntry))
    → Sound s.store s.disk ess
    → (run : Option Turn) → run ≡ some (goes_on s)
    → Commanded goes_on run s ess []
unfolding effects costs
stays s ess h run e = record {
  next = s;
  entries = ess;
  done = e;
  sound = h;
  same_view = λ j. refl;
  grown = Grown-refl 2 s.store ess;
}

module _ (stale db_path : Bytes) where
  round-Commanded :
      (raw : Bytes) (s : Session) (ess : List (List KeyValueEntry))
      → Sound s.store s.disk ess
      → is_exit (next_token (trim raw)).0 ≡ false
      → length raw ≤ max_key
      → HasCapacity 0 2 s.store ess
      → Commanded goes_on
          (round reliable stale db_path raw s)
          s
          ess
          (requests_of (next_token (trim raw)))
  round-Commanded raw s ess h go fit c = elim (Bool-cases (is_empty (trim raw))) [
    | inl blank ↦
        let e =
          ap (λ line. requests_of (next_token line)) (is_empty→nil (trim raw) blank)
          ∙ blank-quiet in
        rw (e) (stays s ess h _ (unfold round in rw (blank) refl))
    | inr full ↦
        unfold round in
        rw (full) (
          dispatch-Commanded stale db_path s ess h _ _ go
            (omega (arith, length-trim raw, length-next_token (trim raw))) c)
  ]

-- A session that ended with its store sound, standing for this map.
pub record Ended (run : Option Session) (db : Bytes) (m : Bytes → Option Bytes) : Type 0 where
  pub next : Session
  pub entries : List (List KeyValueEntry)
  pub done : run ≡ some next
  pub sound : Sound next.store next.disk entries
  pub same_view : (j : Bytes) → view next.store entries j ≡ m j
  pub same_path : next.store.db_path ≡ db

abbrev prompt : Bytes
prompt = text "annany_lsm> "

module _ (stale db_path raw : Bytes) (raws : List Bytes) (s : Session) where
  session_loop-ends :
      (turn : Session)
      → round reliable stale db_path raw (say prompt s) ≡ some (ends turn)
      → session_loop reliable stale db_path (raw ∷ raws) s ≡ some turn
  unfolding session_loop
  session_loop-ends turn e = rw (e, session_loop) refl

  session_loop-goes_on :
      (turn : Session)
      → round reliable stale db_path raw (say prompt s) ≡ some (goes_on turn)
      → session_loop reliable stale db_path (raw ∷ raws) s
        ≡ session_loop reliable stale db_path raws turn
  unfolding session_loop
  session_loop-goes_on turn e = rw (e, session_loop) refl

-- The lines of a session, none longer than 16 MiB, on an open store whose files are enough to open it,
-- with an interval of the sparse index that is not 0, at most 64 bits of the filter for a key, less
-- than 2 GiB of records with those to come, and two numbers of tables for each line: without faults of
-- the disk the session ends, and leaves a store whose map is the first one with the changes of its
-- `PUT`s and `DELETE`s, up to the line that ends it, in their order. No other line changes the map.
pub session_loop-effects :
    (stale db_path : Bytes) (raws : List Bytes) (s : Session) (ess : List (List KeyValueEntry))
    → Sound s.store s.disk ess
    → All (λ raw. length raw ≤ max_key) raws
    → HasCapacity (costs (requests_of_all raws)) (2 * length raws) s.store ess
    → Ended
        (session_loop reliable stale db_path raws s)
        s.store.db_path
        (effects (requests_of_all raws) (view s.store ess))
session_loop-effects stale db_path [] s ess h short c = record {
  next = say prompt s;
  entries = ess;
  done = unfold session_loop in refl;
  sound = h;
  same_view = λ j. unfold requests_of_all effects in refl;
  same_path = refl;
}
session_loop-effects stale db_path (raw ∷ raws) s ess h (fit, short) c =
    let token = next_token (trim raw) in
    elim (Bool-cases (is_exit token.0)) [
      | inl ending ↦ record {
        next = say prompt s;
        entries = ess;
        done = session_loop-ends stale db_path raw raws s _ (round-exit stale db_path raw _ ending);
        sound = h;
        same_view = λ j. unfold requests_of_all in rw (ending) (unfold effects in refl);
        same_path = refl;
      }
      | inr going ↦
          let all : requests_of_all (raw ∷ raws) ≡ requests_of token ++ requests_of_all raws =
            unfold requests_of_all in rw (going) refl in
          let sum = ap costs all ∙ costs-append (requests_of token) (requests_of_all raws) in
          let p = round-Commanded stale db_path raw (say prompt s) ess h going fit (record {
            interval_pos = c.interval_pos;
            bits_le = c.bits_le;
            bytes_fit = omega (arith, c.bytes_fit);
            numbers_fit = omega (arith, c.numbers_fit);
          }) in
          let more : HasCapacity (costs (requests_of token) + costs (requests_of_all raws))
              (2 + 2 * length raws) s.store ess =
            record {
              interval_pos = c.interval_pos;
              bits_le = c.bits_le;
              bytes_fit = omega (arith, c.bytes_fit, sum);
              numbers_fit = omega (arith, c.numbers_fit);
            } in
          let r = session_loop-effects stale db_path raws p.next p.entries p.sound short (
            capacity-after _ _ (2 * length raws) s.store p.next.store ess p.entries more p.grown) in
          record {
            next = r.next;
            entries = r.entries;
            done = session_loop-goes_on stale db_path raw raws s p.next p.done ∙ r.done;
            sound = r.sound;
            same_path = r.same_path ∙ p.grown.same_path;
            same_view = λ j.
                r.same_view j
                ∙ (ap (λ m. effects (requests_of_all raws) m j) (fun_ext p.same_view)
                    ∙ (ap (λ m. m j)
                          (sym (
                            effects-append (requests_of token) (requests_of_all raws)
                              (view s.store ess)))
                        ∙ ap (λ ops. effects ops (view s.store ess) j) (sym all)));
          }
    ]
