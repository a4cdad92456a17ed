-- ===== src/SsTable/Order.antt =====
-- The order of keys that `SSTableWriter::append` asks for.
use lsm_tree_key_value_store.Prelude.{◌≡◌, refl, Bool, true, false, not, ◌&&◌, List, [], ◌∷◌, Bytes}
use lsm_tree_key_value_store.Prelude.Strings.{string_lt, string_le, is_empty}
use lsm_tree_key_value_store.Prelude.SortedMap.{IsSorted, Above}
use lsm_tree_key_value_store.Types.{KeyValueEntry}
use lsm_tree_key_value_store.SsTable.Layout.{keyed}

-- Each entry passes the check of its key against the one before it.
pub Ordered : Bytes → List KeyValueEntry → Type 0
Ordered last [] = Unit
Ordered last (e ∷ es) = ((not (is_empty last) && string_le e.key last) ≡ false) × Ordered e.key es

and_false : (b : Bool) → (b && false) ≡ false
and_false true = refl
and_false false = refl

above→admitted :
    (last key : Bytes)
    → string_lt last key ≡ true
    → (not (is_empty last) && string_le key last) ≡ false
unfolding string_le
above→admitted last key h = rw (h) (and_false (not (is_empty last)))

Ordered-Above :
    (last : Bytes) (es : List KeyValueEntry)
    → Above last (keyed es)
    → IsSorted (keyed es)
    → Ordered last es
unfolding Ordered keyed
Ordered-Above last [] a s = tt
Ordered-Above last (e ∷ es) a s = (above→admitted last e.key a.0, Ordered-Above e.key es s.0 s.1)

-- The writer that has appended nothing admits every sorted list.
pub IsSorted-Ordered : (es : List KeyValueEntry) → IsSorted (keyed es) → Ordered [] es
unfolding Ordered keyed is_empty
IsSorted-Ordered [] s = tt
IsSorted-Ordered (e ∷ es) s = (refl, Ordered-Above e.key es s.0 s.1)

pub Ordered-cons :
    (last : Bytes) (e : KeyValueEntry) (es : List KeyValueEntry)
    → Ordered last (e ∷ es)
    → ((not (is_empty last) && string_le e.key last) ≡ false) × Ordered e.key es
unfolding Ordered
Ordered-cons last e es o = o
