-- ===== src/Types/Codes.antt =====
-- The record types that have a name, and their bytes.
use lsm_tree_key_value_store.Prelude.{◌≡◌, refl, Bool, true, false, ◌||◌, ◌==◌}
use lsm_tree_key_value_store.Types.{RecordType, of_byte, to_byte}

-- The two types that have a name; the writers use no other.
abbrev pub is_logged : RecordType → Bool
is_logged (RecordType.other b) = false
is_logged _ = true

pub to_byte-is_logged :
    (t : RecordType) → is_logged t ≡ true → (to_byte t == 1 || to_byte t == 2) ≡ true
unfolding to_byte
to_byte-is_logged RecordType.put h = refl
to_byte-is_logged RecordType.tombstone h = refl
to_byte-is_logged (RecordType.other b) h = cc

pub of_byte-to_byte : (t : RecordType) → is_logged t ≡ true → of_byte (to_byte t) ≡ t
unfolding to_byte of_byte
of_byte-to_byte RecordType.put h = refl
of_byte-to_byte RecordType.tombstone h = refl
of_byte-to_byte (RecordType.other b) h = cc
