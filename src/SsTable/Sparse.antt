-- ===== src/SsTable/Sparse.antt =====
-- The sparse index: it names some of the records of a table by key and offset, and what a reader that
-- scans the range it gives for a key answers.
use lsm_tree_key_value_store.Prelude.{
  ℕ, ◌+◌, ◌<◌, ◌≡◌, refl, ap, ◌∙◌, sym, arith, Bool, true, Option, List, [], ◌∷◌, ◌++◌, Bytes,
  length, All, drop, drop-drop, drop-length, length-append, length-drop, append_assoc, append-nil,
  if◌then◌else◌, Bool-cases, inl, inr,
}
use lsm_tree_key_value_store.Prelude.Strings.{string_lt}
use lsm_tree_key_value_store.Prelude.SortedMap.{
  find, IsSorted, Above, Above-trans, find-append_Above, find-append_Below, IsSorted-append_left,
  IsSorted-append_right, IsSorted-Below, Below,
}
use lsm_tree_key_value_store.Types.{KeyValueEntry}
use lsm_tree_key_value_store.Frame.{encode}
use lsm_tree_key_value_store.Result.{Result}
use lsm_tree_key_value_store.SsTable.Index.{Index, range_from}
use lsm_tree_key_value_store.SsTable.Reader.{scan_loop}
use lsm_tree_key_value_store.SsTable.Layout.{
  IsStored, encode_records, keyed, Answers, scan_loop-encode_records,
}

-- The index names some of these records, the first of which lies at the offset.
pub data Samples : ℕ → List KeyValueEntry → Index → Type 0 where
  samples_nil : {off : ℕ} → Samples off [] []
  samples_skip :
      {off : ℕ} {e : KeyValueEntry} {es : List KeyValueEntry} {ix : Index}
      → Samples (off + length (encode e.type e.key e.value)) es ix
      → Samples off (e ∷ es) ix
  samples_take :
      {off : ℕ} {e : KeyValueEntry} {es : List KeyValueEntry} {ix : Index}
      → Samples (off + length (encode e.type e.key e.value)) es ix
      → Samples off (e ∷ es) (record { key = e.key; offset = off } ∷ ix)

-- A record moves from the front of what is behind to the end of what is before.
encode_records_shift :
    (mid : List KeyValueEntry) (e : KeyValueEntry) (es : List KeyValueEntry) (post : Bytes)
    → encode_records mid ++ (encode_records (e ∷ es) ++ post)
      ≡ encode_records (mid ++ e ∷ []) ++ (encode_records es ++ post)
unfolding encode_records
encode_records_shift [] e es post =
    append_assoc (encode e.type e.key e.value) (encode_records es) post
    ∙ ap (λ bs. bs ++ (encode_records es ++ post)) (sym (append-nil (encode e.type e.key e.value)))
encode_records_shift (x ∷ mid) e es post =
    let head = encode x.type x.key x.value in
    append_assoc head (encode_records mid) (encode_records (e ∷ es) ++ post)
    ∙ (ap (λ bs. head ++ bs) (encode_records_shift mid e es post)
        ∙ sym (append_assoc head (encode_records (mid ++ e ∷ [])) (encode_records es ++ post)))

length-encode_records_snoc :
    (mid : List KeyValueEntry) (e : KeyValueEntry)
    → length (encode_records (mid ++ e ∷ []))
      ≡ length (encode_records mid) + length (encode e.type e.key e.value)
unfolding encode_records
length-encode_records_snoc [] e = omega (arith, length-append (encode e.type e.key e.value) [])
length-encode_records_snoc (x ∷ mid) e = omega (
  arith,
  length-encode_records_snoc mid e,
  length-append (encode x.type x.key x.value) (encode_records (mid ++ e ∷ [])),
  length-append (encode x.type x.key x.value) (encode_records mid),
)

length-encode_records_cons :
    (e : KeyValueEntry) (es : List KeyValueEntry)
    → length (encode_records (e ∷ es))
      ≡ length (encode e.type e.key e.value) + length (encode_records es)
unfolding encode_records
length-encode_records_cons e es = length-append (encode e.type e.key e.value) (encode_records es)

keyed_shift :
    (mid : List KeyValueEntry) (e : KeyValueEntry) (es : List KeyValueEntry)
    → keyed mid ++ keyed (e ∷ es) ≡ keyed (mid ++ e ∷ []) ++ keyed es
unfolding keyed
keyed_shift [] e es = refl
keyed_shift (x ∷ mid) e es = ap (λ m. (x.key, x) ∷ m) (keyed_shift mid e es)

keyed_one :
    (e : KeyValueEntry) (es : List KeyValueEntry) → keyed (e ∷ es) ≡ keyed (e ∷ []) ++ keyed es
unfolding keyed
keyed_one e es = refl

encode_records_one :
    (e : KeyValueEntry) (es : List KeyValueEntry) (post : Bytes)
    → encode_records (e ∷ es) ++ post ≡ encode_records (e ∷ []) ++ (encode_records es ++ post)
unfolding encode_records
encode_records_one e es post = encode_records_shift [] e es post

length-encode_records_one :
    (e : KeyValueEntry) → length (encode_records (e ∷ [])) ≡ length (encode e.type e.key e.value)
unfolding encode_records
length-encode_records_one e = ap length (append-nil (encode e.type e.key e.value))

All-IsStored-append :
    (a b : List KeyValueEntry) → All IsStored a → All IsStored b → All IsStored (a ++ b)
All-IsStored-append [] b h g = g
All-IsStored-append (e ∷ a) b h g = (h.0, All-IsStored-append a b h.1 g)

-- What lies behind `mid` in the file is its rest.
drop-encode_records :
    (bs : Bytes) (start off : ℕ) (mid : List KeyValueEntry) (more : Bytes)
    → drop start bs ≡ encode_records mid ++ more
    → off ≡ start + length (encode_records mid)
    → drop off bs ≡ more
drop-encode_records bs start off mid more at eq =
    ap (λ n. drop n bs) eq
    ∙ (drop-drop start (length (encode_records mid)) bs
        ∙ (ap (drop (length (encode_records mid))) at ∙ drop-length (encode_records mid) more))

keyed-Below :
    (mid : List KeyValueEntry) (e : KeyValueEntry) (es : List KeyValueEntry)
    → IsSorted (keyed mid ++ keyed (e ∷ es))
    → Below e.key (keyed mid)
unfolding keyed
keyed-Below mid e es s = IsSorted-Below e.key e (keyed mid) (keyed es) s

Above-keyed :
    (key : Bytes) (mid : List KeyValueEntry) (e : KeyValueEntry) (es : List KeyValueEntry)
    → string_lt key e.key ≡ true
    → IsSorted (keyed mid ++ keyed (e ∷ es))
    → Above key (keyed (e ∷ es))
unfolding keyed
Above-keyed key mid e es below s =
    let sorted = IsSorted-append_right (keyed mid) (keyed (e ∷ es)) s in
    (below, Above-trans key e.key (keyed es) below sorted.0)

range_from-cons :
    (key : Bytes) (start off end : ℕ) (e : KeyValueEntry) (ix : Index)
    → range_from key start (record { key = e.key; offset = off } ∷ ix) end
      ≡ (if string_lt key e.key then (start, off) else range_from key off ix end)
unfolding range_from
range_from-cons key start off end e ix = refl

-- The scan of a range of the file.
module _ (bs key : Bytes) (flag : Bool) (fuel : ℕ) where
  abbrev scan_file : ℕ × ℕ → Option (Result × Bool)
  scan_file r = scan_loop fuel r.0 r.1 key flag (drop r.0 bs)

  -- A range with these records in it answers what they hold.
  scan_block :
      (mid : List KeyValueEntry) (start end : ℕ) (more : Bytes)
      → All IsStored mid
      → IsSorted (keyed mid)
      → drop start bs ≡ encode_records mid ++ more
      → end ≡ start + length (encode_records mid)
      → length bs < fuel
      → Answers (find key (keyed mid)) (scan_file (start, end))
  scan_block mid start end more h s at eq lt =
      let size = ap length at in
      rw (at) (
        scan_loop-encode_records mid fuel start end key flag more h s
          (omega (arith, size, length-append (encode_records mid) more, length-drop start bs)) eq)

  -- The records that are not passed yet begin at `start` with `mid`; the index is about the others.
  pub scan-Samples :
      (mid es : List KeyValueEntry) (ix : Index) (start off end : ℕ) (post : Bytes)
      → Samples off es ix
      → All IsStored mid
      → All IsStored es
      → IsSorted (keyed mid ++ keyed es)
      → drop start bs ≡ encode_records mid ++ (encode_records es ++ post)
      → off ≡ start + length (encode_records mid)
      → end ≡ off + length (encode_records es)
      → length bs < fuel
      → Answers (find key (keyed mid ++ keyed es)) (scan_file (range_from key start ix end))
  scan-Samples mid [] ix start off end post samples_nil h g s at eq stop lt =
      unfold range_from keyed encode_records in
      rw (append-nil (keyed mid)) (
        scan_block mid start end post h (IsSorted-append_left (keyed mid) [] s) at (omega arith) lt)
  scan-Samples mid (e ∷ es) ix start off end post (samples_skip r) h g s at eq stop lt =
      rw (keyed_shift mid e es) (
        scan-Samples (mid ++ e ∷ []) es ix start (off + length (encode e.type e.key e.value)) end
          post r (All-IsStored-append mid (e ∷ []) h (g.0, tt)) g.1 (rw (← keyed_shift mid e es) s)
          (at ∙ encode_records_shift mid e es post)
          (omega (arith, length-encode_records_snoc mid e))
          (omega (arith, length-encode_records_cons e es)) lt)
  scan-Samples mid (e ∷ es) ix start off end post (samples_take {ix = tail} r) h g s at eq stop lt =
      elim (Bool-cases (string_lt key e.key)) [
        | inl below ↦
            rw
              (
                range_from-cons key start off end e tail,
                below,
                find-append_Above key (keyed mid) (keyed (e ∷ es))
                    (Above-keyed key mid e es below s),
              )
              (scan_block mid start off (encode_records (e ∷ es) ++ post) h
                (IsSorted-append_left (keyed mid) (keyed (e ∷ es)) s) at eq lt)
        | inr reached ↦
            rw
              (
                range_from-cons key start off end e tail,
                reached,
                find-append_Below key e.key (keyed mid) (keyed (e ∷ es)) (keyed-Below mid e es s)
                    reached,
              )
              (rw (keyed_one e es) (
                scan-Samples (e ∷ []) es tail off (off + length (encode e.type e.key e.value)) end
                  post r (g.0, tt) g.1
                  (rw (← keyed_one e es) (IsSorted-append_right (keyed mid) (keyed (e ∷ es)) s))
                  (drop-encode_records bs start off mid (encode_records (e ∷ es) ++ post) at eq
                    ∙ encode_records_one e es post)
                  (omega (arith, length-encode_records_one e))
                  (omega (arith, length-encode_records_cons e es)) lt))
      ]
