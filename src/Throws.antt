-- ===== src/Throws.antt =====
-- A function that may throw `std::runtime_error`.
use lsm_tree_key_value_store.Prelude.{Bytes}

pub data Throws {ℓ} (A : Type ℓ) : Type ℓ where
  returned : A → Throws A
  thrown : Bytes → Throws A

infixl 5 ◌>>=◌
abbrev pub ◌>>=◌ {ℓ κ} : {A : Type ℓ} {B : Type κ} → Throws A → (A → Throws B) → Throws B
returned a >>= f = f a
thrown msg >>= f = thrown msg
