-- ===== src/Compaction/Removal.antt =====
-- The deletion of the inputs of a compaction, without faults of the disk.
use lsm_tree_key_value_store.Prelude.{
  ◌≡◌, refl, ap, ◌∙◌, sym, Bool, true, false, not, none, List, [], ◌∷◌, Bytes, All, Bool-cases, inl,
  inr, ◌⊎◌, if◌then◌else◌,
}
use mathlib.Core.Path.{subst}
use lsm_tree_key_value_store.Prelude.Strings.{string_eq}
use lsm_tree_key_value_store.Disk.{Disk, reliable, set_file, remove_file}
use lsm_tree_key_value_store.Disk.Laws.{file-set_file_self, file-set_file_ne, file-set_file-none}
use lsm_tree_key_value_store.Compaction.{remove_inputs}

-- One round of the deletions.
remove_inputs_round :
    (out p : Bytes) (ps : List Bytes) (d : Disk) (b : Bool)
    → string_eq p out ≡ b
    → remove_inputs reliable out (p ∷ ps) d
      ≡ remove_inputs reliable out ps (if not b then set_file p none d else d)
unfolding remove_inputs remove_file
remove_inputs_round out p ps d b e =
    ap (λ c. remove_inputs reliable out ps (if not c then set_file p none d else d)) e

-- The deletions leave the target and every file that is no input.
pub remove_inputs_keep :
    (out q : Bytes) (ps : List Bytes) (d : Disk)
    → All (λ p. (string_eq p out ≡ true) ⊎ (string_eq p q ≡ false)) ps
    → (remove_inputs reliable out ps d).file q ≡ d.file q
remove_inputs_keep out q [] d h = unfold remove_inputs in refl
remove_inputs_keep out q (p ∷ ps) d (inl target, h) =
    rw (remove_inputs_round out p ps d true target) (remove_inputs_keep out q ps d h)
remove_inputs_keep out q (p ∷ ps) d (inr other, h) = elim (Bool-cases (string_eq p out)) [
  | inl target ↦ rw (remove_inputs_round out p ps d true target) (remove_inputs_keep out q ps d h)
  | inr input ↦
      rw (remove_inputs_round out p ps d false input)
        (remove_inputs_keep out q ps (set_file p none d) h ∙ file-set_file_ne p q none d other)
]

pub remove_inputs-dir :
    (out : Bytes) (ps : List Bytes) (d : Disk) → (remove_inputs reliable out ps d).dir ≡ d.dir
unfolding remove_inputs set_file
remove_inputs-dir out [] d = refl
remove_inputs-dir out (p ∷ ps) d = elim (Bool-cases (string_eq p out)) [
  | inl target ↦
      ap (λ (x : Disk). x.dir) (remove_inputs_round out p ps d true target)
      ∙ remove_inputs-dir out ps d
  | inr input ↦
      ap (λ (x : Disk). x.dir) (remove_inputs_round out p ps d false input)
      ∙ remove_inputs-dir out ps (set_file p none d)
]

-- What is gone stays gone.
remove_inputs-none :
    (out q : Bytes) (ps : List Bytes) (d : Disk)
    → d.file q ≡ none
    → (remove_inputs reliable out ps d).file q ≡ none
remove_inputs-none out q [] d h = unfold remove_inputs in h
remove_inputs-none out q (p ∷ ps) d h = elim (Bool-cases (string_eq p out)) [
  | inl target ↦ rw (remove_inputs_round out p ps d true target) (remove_inputs-none out q ps d h)
  | inr input ↦
      rw (remove_inputs_round out p ps d false input)
        (remove_inputs-none out q ps (set_file p none d) (file-set_file-none p q d h))
]

-- Every input but the target is gone.
abbrev pub Gone : Bytes → List Bytes → Disk → Type 0
Gone out ps d = All (λ p. string_eq p out ≡ false → d.file p ≡ none) ps

pub remove_inputs-Gone :
    (out : Bytes) (ps : List Bytes) (d : Disk) → Gone out ps (remove_inputs reliable out ps d)
remove_inputs-Gone out [] d = tt
remove_inputs-Gone out (p ∷ ps) d = (
  λ input.
      rw (remove_inputs_round out p ps d false input)
        (remove_inputs-none out p ps (set_file p none d) (file-set_file_self p none d)),
  elim (Bool-cases (string_eq p out)) [
    | inl target ↦
        subst (λ (x : Disk). Gone out ps x) (sym (remove_inputs_round out p ps d true target))
          (remove_inputs-Gone out ps d)
    | inr input ↦
        subst (λ (x : Disk). Gone out ps x) (sym (remove_inputs_round out p ps d false input))
          (remove_inputs-Gone out ps (set_file p none d))
  ],
)
