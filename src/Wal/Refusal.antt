-- ===== src/Wal/Refusal.antt =====
-- `appendRecord` of src/wal.cpp where the operating system does not take all of a write.
use lsm_tree_key_value_store.Prelude.{
  ℕ, zero, suc, ◌<◌, ◌≡◌, ◌⊎◌, refl, ap, ◌∙◌, sym, arith, true, false, some, [], ◌∷◌, ◌++◌, Bytes,
  length, take, take_all, Bool-cases, inl, inr, append_assoc, leb,
}
use lsm_tree_key_value_store.Prelude.Strings.{text}
use lsm_tree_key_value_store.Types.{RecordType}
use lsm_tree_key_value_store.Types.Crc32.{crc32}
use lsm_tree_key_value_store.Codec.{encode32}
use lsm_tree_key_value_store.Status
use lsm_tree_key_value_store.Status.{Status}
use lsm_tree_key_value_store.Frame.{payload, encode}
use lsm_tree_key_value_store.Disk.{Disk, Os, set_file, contents, write}
use lsm_tree_key_value_store.Disk.Laws.{contents-set_file_self, set_file-set_file}
use lsm_tree_key_value_store.Wal.{Wal, append_record}
use lsm_tree_key_value_store.Wal.Append.{IsOpen}

-- Some bytes are the first ones of others, and not all of them.
pub record Begins (front all : Bytes) : Type 0 where
  pub next : ℕ
  pub back : Bytes
  pub cut : all ≡ front ++ next ∷ back

take-Begins : (n : ℕ) (xs : Bytes) → n < length xs → Begins (take n xs) xs
take-Begins n [] h = absurd (omega arith)
take-Begins zero (x ∷ xs) h = record { next = x; back = xs; cut = refl }
take-Begins (suc n) (x ∷ xs) h =
    let b = take-Begins n xs (omega arith) in
    record { next = b.next; back = b.back; cut = ap (λ t. x ∷ t) b.cut }

Begins-append : (xs front ys : Bytes) → Begins front ys → Begins (xs ++ front) (xs ++ ys)
Begins-append xs front ys b = record {
  next = b.next;
  back = b.back;
  cut = ap (λ t. xs ++ t) b.cut ∙ sym (append_assoc xs front (b.next ∷ b.back));
}

-- A write to a stream that is good puts all bytes behind the file, or some first ones, and the stream fails.
write-cases :
    (os : Os) (bs p : Bytes) (d : Disk)
    → (write os bs (record { path = p; good = true }, d)
        ≡ (record { path = p; good = true }, set_file p (some (contents d p ++ bs)) d))
      ⊎ ((front : Bytes) × Begins front bs
          × (write os bs (record { path = p; good = true }, d)
              ≡ (record { path = p; good = false }, set_file p (some (contents d p ++ front)) d)))
unfolding write
write-cases os bs p d =
    let n = os.takes d p bs in
    elim (Bool-cases (leb (length bs) n)) [
      | inl all ↦ inl (rw (all, take_all n bs (ground arith)) refl)
      | inr few ↦ inr (take n bs, take-Begins n bs (ground arith), rw (few) refl)
    ]

write_failed :
    (os : Os) (bs p : Bytes) (d : Disk)
    → write os bs (record { path = p; good = false }, d) ≡ (record { path = p; good = false }, d)
unfolding write
write_failed os bs p d = refl

-- The same for two writes, one after the other.
writes-cases :
    (os : Os) (xs ys p : Bytes) (d : Disk)
    → (write os ys (write os xs (record { path = p; good = true }, d))
        ≡ (record { path = p; good = true }, set_file p (some (contents d p ++ (xs ++ ys))) d))
      ⊎ ((front : Bytes) × Begins front (xs ++ ys)
          × (write os ys (write os xs (record { path = p; good = true }, d))
              ≡ (record { path = p; good = false }, set_file p (some (contents d p ++ front)) d)))
writes-cases os xs ys p d = elim (write-cases os xs p d) [
  | inr (front, b, e) ↦ inr (
    front,
    record {
      next = b.next;
      back = b.back ++ ys;
      cut = ap (λ t. t ++ ys) b.cut ∙ append_assoc front (b.next ∷ b.back) ys;
    },
    ap (write os ys) e ∙ write_failed os ys p _,
  )
  | inl e ↦
      let d' = set_file p (some (contents d p ++ xs)) d in
      let behind : (zs : Bytes)
          → set_file p (some (contents d' p ++ zs)) d'
            ≡ set_file p (some (contents d p ++ (xs ++ zs))) d =
        λ zs.
          rw (contents-set_file_self p (contents d p ++ xs) d, set_file-set_file, append_assoc)
            refl in
      elim (write-cases os ys p d') [
        | inl e' ↦
            inl (
              ap (write os ys) e ∙ e' ∙ ap (λ x. (record { path = p; good = true }, x)) (behind ys))
        | inr (front, b, e') ↦ inr (
          xs ++ front,
          Begins-append xs front ys b,
          ap (write os ys) e ∙ e' ∙ ap (λ x. (record { path = p; good = false }, x)) (behind front),
        )
      ]
]

-- How an append may fail: the stream has failed, and some first bytes of the record stand behind the log.
pub record Refusal (run : Status × Wal × Disk) (bytes : Bytes) (w : Wal) (d : Disk) : Type 0 where
  pub front : Bytes
  pub begins : Begins front bytes
  pub left : run ≡ (
    Status.io_error (text "Failed writing to WAL file"),
    record w { good = false },
    set_file w.filepath (some (contents d w.filepath ++ front)) d,
  )

-- An append to an open log that returns an error has put some first bytes of the record behind the file,
-- not all of them.
pub append_record-Refusal :
    (os : Os) (type : RecordType) (key value : Bytes) (w : Wal) (d : Disk)
    → IsOpen w
    → Status.is_ok (append_record os type key value w d).0 ≡ false
    → Refusal (append_record os type key value w d) (encode type key value) w d
unfolding append_record encode
append_record-Refusal os type key value w d h failed =
    let buffer = payload type key value in
    elim (writes-cases os buffer (encode32 (crc32 buffer)) w.filepath d) [
      | inl e ↦
          let fine : Status.is_ok (append_record os type key value w d).0 ≡ true =
            rw (h.open_now, h.good_now, e) refl in
          absurd (cc)
      | inr (front, b, e) ↦ record {
        front = front;
        begins = b;
        left = rw (h.open_now, h.good_now, e) refl;
      }
    ]
